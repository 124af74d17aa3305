-- ===== src/Server/Occupied/Fate.antt =====
-- A whole message (src/Cmd/): which channels begin with it and which end.
use ft_irc_refactor.Base.{
  str_eq_iff, Option-cases, is_empty, false, ◌≡◌, ◌∙◌, refl, inl, inr, [], ◌∷◌, none, some, Str,
  Map, find, ℕ_key, str_key, ap, sym,
}
use ft_irc_refactor.Server.State.{Env, Server}
use ft_irc_refactor.Channel.{Channel, Ptr}
use ft_irc_refactor.Cmd.Context.{Cmd}
use ft_irc_refactor.Cmd.Dispatch.{handle_client_cmd}
use ft_irc_refactor.Server.Members.Known.{Known}
use ft_irc_refactor.Server.Members.{Seated}
use ft_irc_refactor.Server.Members.Entering.{In, handle_client_cmd-enters}
use ft_irc_refactor.Server.Occupied.{Occupied}
use ft_irc_refactor.Server.Occupied.Message.{handle_client_cmd-Occupied}
use ft_irc_refactor.Server.Occupied.Kick.{not_there, handle_kick-Ends}
use ft_irc_refactor.Server.Staying.Message.{handle_client_cmd-leaves}

-- What a message may do to the channel of a name, from one state to another.
pub data Fate (c : Cmd) (s t : Server) (name : Str) : Type 0 where
  absent : find name s.channels ≡ none → find name t.channels ≡ none → Fate c s t name
  -- It is new, with the client that sent the message in it, and nobody else.
  founded :
      (p : Ptr)
      → find name s.channels ≡ none
      → c.client ≡ some p
      → In t name p
      → ((q : Ptr) → In t name q → c.client ≡ some q)
      → Fate c s t name
  -- It stays, and has a participant.
  lasting :
      (ch d : Channel)
      → find name s.channels ≡ some ch
      → find name t.channels ≡ some d
      → is_empty d.participant ≡ false
      → Fate c s t name
  -- It is gone, and nobody but the client that sent the message was in it.
  ended :
      (ch : Channel)
      → find name s.channels ≡ some ch
      → find name t.channels ≡ none
      → ((q : Ptr) → In s name q → c.client ≡ some q)
      → Fate c s t name

first_participant :
    (name : Str) (d : Channel) (t : Server) (m : Map Str Ptr)
    → m ≡ d.participant
    → find name t.channels ≡ some d
    → is_empty m ≡ false
    → (p : Ptr) × In t name p
unfolding find
first_participant name d t [] is there full = absurd (cc)
first_participant name d t ((n, p) ∷ m) is there full =
    let seat : find n d.participant ≡ some p =
      ap (find n) (sym is) ∙ rw ((str_eq_iff n n).1 refl) refl in
    (p, (d, (there, (n, seat))))

-- After a message each channel has a participant. A channel that is new has the client that sent
-- the message in it and nobody else, and in one that has ended there was nobody but that client, be
-- it by PART or KICK. Before the message each channel must have a participant, and the participants
-- must be living clients, and found under their nicknames.
pub handle_client_cmd-Fate :
    (env : Env) (c : Cmd) (s : Server) (name : Str)
    → Seated s
    → Known s
    → Occupied s
    → Fate c s (handle_client_cmd env c s).1 name
handle_client_cmd-Fate env c s name seated known occupied =
    elim (Option-cases (find name s.channels)) [
      | inl new ↦ elim (Option-cases (find name t.channels)) [
        | inl over ↦ absent new over
        | inr (d, there) ↦
            let (p, here) =
              first_participant name d t d.participant refl there (after.someone name d there) in
            elim (handle_client_cmd-enters env c s name p here) [
              | inl mine ↦ founded p new mine here (λ q sits. entrant q sits new)
              | inr was ↦ absurd (not_there name p s new was)
            ]
      ]
      | inr (ch, held) ↦ elim (Option-cases (find name t.channels)) [
        | inr (d, there) ↦ lasting ch d held there (after.someone name d there)
        | inl over ↦ ended ch held over (λ q was. left q was over)
      ]
    ]
  where
    t : Server
    t = (handle_client_cmd env c s).1

    after : Occupied t
    after = handle_client_cmd-Occupied env c s occupied

    entrant : (q : Ptr) → In t name q → find name s.channels ≡ none → c.client ≡ some q
    entrant q sits new = elim (handle_client_cmd-enters env c s name q sits) [
      | inl mine ↦ mine
      | inr was ↦ absurd (not_there name q s new was)
    ]

    left : (q : Ptr) → In s name q → find name t.channels ≡ none → c.client ≡ some q
    left q was over = elim (handle_client_cmd-leaves env c s name q seated known was) [
      | inl mine ↦ mine
      | inr (inl kicked) ↦
          kicked.given
          ∙ ap some (
              handle_kick-Ends kicked.p kicked.me s seated known kicked.there env c kicked.given
                kicked.verb name q over was)
      | inr (inr here) ↦ absurd (not_there name q t over here)
    ]
