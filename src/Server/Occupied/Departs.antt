-- ===== src/Server/Occupied/Departs.antt =====
-- PART and KICK (src/Cmd/CmdPart.cpp, CmdKick.cpp): what is left of the channel, exactly.
use ft_irc_refactor.Base.{
  not_both, str_eq_iff, not_found, Bool-cases, unlike, erase, find-assign_same, find-assign,
  find-erase, is_empty, str_eq, false, true, ◌≡◌, ◌≢◌, ◌∙◌, ◌⊎◌, refl, inl, inr, [], ◌∷◌, Option,
  none, some, Str, Map, find, assign, ℕ_key, str_key, ap, sym, if◌then◌else◌,
}
use ft_irc_refactor.Server.State.{
  ok, Outcome, ◌>>=◌, Server, pure, modify, channel_at, update_channel,
}
use ft_irc_refactor.Channel.{is_operator, remove_participant, Channel, remove_operator, Ptr}
use ft_irc_refactor.Server.Net.{remove_channel}
use ft_irc_refactor.Cmd.Part.{leave_channel}
use ft_irc_refactor.Cmd.Members.{without}

-- A participant under another nickname.
abbrev pub Other : (nick : Str) → Channel → Type 0
Other nick ch = (q : Str) × ((p : Ptr) × ((nick ≢ q) × (find q ch.participant ≡ some p)))

-- The channel has lost the nickname, as a participant and as an operator, and nothing else.
abbrev pub Without : (nick : Str) (ch d : Channel) → Type 0
Without nick ch d =
    (record d { participant = ch.participant; operator = ch.operator } ≡ ch)
    × ((q : Str)
        → (find q d.participant ≡ (if str_eq nick q then none else find q ch.participant))
          × (find q d.operator ≡ (if str_eq nick q then none else find q ch.operator)))

-- What is found under the name of the channel then.
abbrev pub Departed : (nick : Str) → Channel → Option Channel → Type 0
Departed nick ch found =
    ((Other nick ch → ⊥) × (found ≡ none))
    ⊎ (Other nick ch × ((d : Channel) × ((found ≡ some d) × Without nick ch d)))

-- Everything else is as it was.
abbrev pub Departs : (nick name : Str) → Channel → Server → Outcome (Unit {0}) × Server → Type 0
Departs nick name ch s after =
    ((after.0 ≡ ok tt) × (record after.1 { channels = s.channels } ≡ s))
    × (((k : Str) → name ≢ k → find k after.1.channels ≡ find k s.channels)
        × Departed nick ch (find name after.1.channels))

module _ (nick : Str) (ch : Channel) where
  alone : (m : Map Str Ptr) → is_empty m ≡ true → m ≡ erase nick ch.participant → Other nick ch → ⊥
  unfolding find
  alone [] e is (q, (p, (differ, seat))) =
      let kept : find q (erase nick ch.participant) ≡ some p =
        find-erase nick q ch.participant ∙ rw (unlike nick q differ) seat in
      not_found (ap (find q) is ∙ kept)
  alone (x ∷ m) e is other = absurd (cc)

  there :
      (q : Str) → str_eq nick q ≡ false → find q ch.participant ≡ find q (erase nick ch.participant)
  there q other = sym (find-erase nick q ch.participant ∙ rw other refl)

  accompanied :
      (m : Map Str Ptr) → is_empty m ≡ false → m ≡ erase nick ch.participant → Other nick ch
  unfolding find
  accompanied [] e is = absurd (cc)
  accompanied ((q, p) ∷ m) e is =
      let seat : find q (erase nick ch.participant) ≡ some p =
        ap (find q) (sym is) ∙ rw ((str_eq_iff q q).1 refl) refl in
      elim (Bool-cases (str_eq nick q)) [
        | inl same ↦
            let left_out : find q (erase nick ch.participant) ≡ none =
              find-erase nick q ch.participant ∙ rw same refl in
            absurd (not_found (sym left_out ∙ seat))
        | inr other ↦
            (q, (p, (λ same. not_both ((str_eq_iff nick q).1 same) other, there q other ∙ seat)))
      ]

  as_operator : Without nick ch (remove_operator nick (remove_participant nick ch))
  unfolding remove_operator remove_participant
  as_operator = (refl, λ q. (find-erase nick q ch.participant, find-erase nick q ch.operator))

  as_member :
      is_operator nick (remove_participant nick ch) ≡ false
      → Without nick ch (remove_participant nick ch)
  unfolding remove_participant
  as_member op = (refl, λ q. (find-erase nick q ch.participant, without nick q ch.operator op))

module _ (nick name : Str) (ch : Channel) (s : Server) (m : Map Str Channel)
    (others : (k : Str) → name ≢ k → find k m ≡ find k s.channels) where
  vacated :
      is_empty (remove_participant nick ch).participant ≡ true
      → Departs nick name ch s (ok tt, record s { channels = erase name m })
  unfolding remove_participant
  vacated vacant = (
    (refl, refl),
    (
      λ k differ. find-erase name k m ∙ rw (unlike name k differ) (others k differ),
      inl (
        alone nick ch _ vacant refl,
        find-erase name name m ∙ rw ((str_eq_iff name name).1 refl) refl,
      ),
    ),
  )

  kept :
      (d : Channel)
      → find name m ≡ some d
      → Without nick ch d
      → is_empty (remove_participant nick ch).participant ≡ false
      → Departs nick name ch s (ok tt, record s { channels = m })
  unfolding remove_participant
  kept d there is full =
      ((refl, refl), (others, inr (accompanied nick ch _ full refl, (d, (there, is)))))

-- An assignment leaves the other channels.
beside :
    (name k : Str) (ch : Channel) (m : Map Str Channel)
    → name ≢ k
    → find k (assign name ch m) ≡ find k m
beside name k ch m differ = find-assign name k ch m ∙ rw (unlike name k differ) refl

-- When a nickname leaves a channel by PART or KICK, the channel ends exactly if it has no other
-- participant; if it has one, the channel loses the nickname, as a participant and as an operator,
-- and nothing else. No other channel and nothing else of the server changes, and no error comes.
-- The channel must be there.
pub leave_channel-departs :
    (nick name : Str) (ch : Channel) (s : Server)
    → find name s.channels ≡ some ch
    → Departs nick name ch s (leave_channel nick name s)
unfolding leave_channel update_channel channel_at ◌>>=◌ modify pure remove_channel remove_operator
leave_channel-departs nick name ch s held =
    let left = remove_participant nick ch in
    let first = assign name left s.channels in
    let last = assign name (remove_operator nick left) first in
    let beside_first : (k : Str) → name ≢ k → find k first ≡ find k s.channels =
      λ k differ. beside name k left s.channels differ in
    let beside_last : (k : Str) → name ≢ k → find k last ≡ find k s.channels =
      λ k differ. beside name k (remove_operator nick left) first differ ∙ beside_first k differ in
    let at_first = find-assign_same name left s.channels in
    let at_last = find-assign_same name (remove_operator nick left) first in
    elim (Bool-cases (is_operator nick left)) [
      | inl op ↦ elim (Bool-cases (is_empty left.participant)) [
        | inl vacant ↦
            rw (held, at_first, op, at_first, at_last, vacant)
              (vacated nick name ch s last beside_last vacant)
        | inr full ↦
            rw (held, at_first, op, at_first, at_last, full)
              (kept nick name ch s last beside_last _ at_last (as_operator nick ch) full)
      ]
      | inr op ↦ elim (Bool-cases (is_empty left.participant)) [
        | inl vacant ↦
            rw (held, at_first, op, at_first, vacant)
              (vacated nick name ch s first beside_first vacant)
        | inr full ↦
            rw (held, at_first, op, at_first, full)
              (kept nick name ch s first beside_first _ at_first (as_member nick ch op) full)
      ]
    ]
