-- ===== src/Cmd/Frame/Rooms.antt =====
-- The changes of the channels that the commands make (src/Cmd/), inside a frame.
use ft_irc_refactor.Base.{
  Once, not_found, find-assign_cases, is_empty, Option-cases, erase, ℕ, ◌≡◌, ◌∙◌, refl, inl, inr,
  [], ◌∷◌, Option, none, some, Str, Map, find, assign, ℕ_key, str_key, ap, sym, subst,
  if◌then◌else◌,
}
use ft_irc_refactor.Cmd.Frame.{Updates, Plains, Tidy, Channels, Fewer}
use ft_irc_refactor.Server.State.{channel_at, ◌>>=◌, Server, modify, update_channel}
use ft_irc_refactor.Channel.{new_channel, set_mode, set_key, Channel}
use ft_irc_refactor.Server.Keeps.{Keeps, Keeps-modify}
use ft_irc_refactor.Server.Net.{set_mode_unless_nul, remove_channel, set_channels}
use ft_irc_refactor.Cmd.Frame.Seats.{NoEntry, SameSeats-NoEntry, Plain-SameSeats, kept_one}

Fewer-assign :
    (name : Str) (ch : Channel) (f : Channel → Channel) (m : Map Str Channel)
    → find name m ≡ some ch
    → NoEntry f
    → Fewer m (assign name (f ch) m)
Fewer-assign name ch f m there quiet k d n p e seat = elim (find-assign_cases name k (f ch) d m e) [
  | inl (same, changed) ↦ (
    ch,
    (
      subst (λ x. find x m ≡ some ch) same there,
      quiet.entry ch n p (subst (λ x. find n x.participant ≡ some p) (sym changed) seat),
    ),
  )
  | inr old ↦ (d, (old, seat))
]

Tidy-assign :
    (name : Str) (ch : Channel) (f : Channel → Channel) (m : Map Str Channel)
    → find name m ≡ some ch
    → NoEntry f
    → Tidy m (assign name (f ch) m)
Tidy-assign name ch f m there quiet k d e = elim (find-assign_cases name k (f ch) d m e) [
  | inl (same, changed) ↦ inr (
    ch,
    (
      subst (λ x. find x m ≡ some ch) same there,
      λ once. subst (λ x. Once x.participant) changed (quiet.once ch once),
    ),
  )
  | inr old ↦ inr (d, (old, λ once. once))
]

Fewer-empty :
    (name : Str) (d : Channel) (m : Map Str Channel)
    → ((n : Str) → find n d.participant ≡ none)
    → Fewer m (assign name d m)
Fewer-empty name d m empty k ch n p e seat = elim (find-assign_cases name k d ch m e) [
  | inl (same, changed) ↦
      absurd (not_found (sym (empty n) ∙ ap (λ x. find n x.participant) changed ∙ seat))
  | inr old ↦ (ch, (old, seat))
]

Tidy-empty :
    (name : Str) (d : Channel) (m : Map Str Channel) → Once d.participant → Tidy m (assign name d m)
Tidy-empty name d m once k ch e = elim (find-assign_cases name k d ch m e) [
  | inl (same, changed) ↦ inl (subst (λ x. Once x.participant) changed once)
  | inr old ↦ inr (ch, (old, λ o. o))
]

Tidy-erase : (name : Str) (m : Map Str Channel) → Tidy m (erase name m)
Tidy-erase name m k ch e = inr (ch, (kept_one name k ch m e, λ o. o))

Fewer-erase : (name : Str) (m : Map Str Channel) → Fewer m (erase name m)
Fewer-erase name m k ch n p e seat = (ch, (kept_one name k ch m e, seat))

-- A channel that setChannels makes has no participant.
nobody_in :
    (mode : Option ℕ) (name key n : Str)
    → find n
        (set_mode_unless_nul mode
          (if is_empty key then new_channel name else set_key key (new_channel name))).participant
      ≡ none
unfolding set_mode_unless_nul new_channel set_key set_mode find
nobody_in none name [] n = refl
nobody_in none name (b ∷ key) n = refl
nobody_in (some c) name [] n = refl
nobody_in (some c) name (b ∷ key) n = refl

nobody-Once :
    (mode : Option ℕ) (name key : Str)
    → Once
        (set_mode_unless_nul mode
          (if is_empty key then new_channel name else set_key key (new_channel name))).participant
unfolding set_mode_unless_nul new_channel set_key set_mode Once
nobody-Once none name [] = tt
nobody-Once none name (b ∷ key) = tt
nobody-Once (some c) name [] = tt
nobody-Once (some c) name (b ∷ key) = tt

module _ {P : Server → Type 0} (channels : Channels P) where
  pub update_channel-Keeps :
      (name : Str) (f : Channel → Channel) → NoEntry f → Keeps P (update_channel name f)
  unfolding update_channel channel_at ◌>>=◌ modify
  update_channel-Keeps name f quiet = record {
    at = λ s h. elim (Option-cases (find name s.channels)) [
      | inl e ↦ rw e h
      | inr (ch, e) ↦ rw e (
          channels.channel s _ (Fewer-assign name ch f s.channels e quiet)
            (Tidy-assign name ch f s.channels e quiet) h)
    ];
  }

  pub remove_channel-Keeps : (name : Str) → Keeps P (modify (remove_channel name))
  unfolding remove_channel
  remove_channel-Keeps name =
      Keeps-modify _
        (λ s h. channels.channel s _ (Fewer-erase name s.channels) (Tidy-erase name s.channels) h)

  pub set_channels-Keeps :
      (name key : Str) (mode : Option ℕ) → Keeps P (modify (set_channels name key mode))
  unfolding set_channels
  set_channels-Keeps name key mode = Keeps-modify _ (λ s h.
      channels.channel s _ (Fewer-empty name _ s.channels (nobody_in mode name key))
        (Tidy-empty name _ s.channels (nobody-Once mode name key)) h)

  -- And so each change in which the participants are the same.
  pub seats-Keeps : Updates P
  seats-Keeps name f same = update_channel-Keeps name f (SameSeats-NoEntry f same)

-- Such a change is one in the topic and the invitations.
pub plain-Keeps : {P : Server → Type 0} → Updates P → Plains P
plain-Keeps updates name f plain = updates name f (Plain-SameSeats f plain)
