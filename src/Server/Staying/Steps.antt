-- ===== src/Server/Staying/Steps.antt =====
-- The changes of the channels that the commands make (src/Cmd/), as to who stays.
use ft_irc_refactor.Server.Keeps.{Keeps}
use ft_irc_refactor.Server.Net.{remove_channel, set_channels}
use ft_irc_refactor.Cmd.Frame.{Updates, SameSeats}
use ft_irc_refactor.Channel.{add_participant, Ptr, Channel}
use ft_irc_refactor.Base.{
  erase, find-erase, Option-cases, find-assign, same_value, not_both, str_eq, find-insert,
  not_found, Bool-cases, str_eq_iff, is_empty, insert, true, ℕ, ◌≡◌, ◌∙◌, refl, inl, inr, [], ◌∷◌,
  Option, none, some, Str, Map, find, assign, ℕ_key, str_key, sym, subst, arith,
}
use ft_irc_refactor.Server.State.{pure, when, modify, channel_at, update_channel, Server, ◌>>=◌}
use ft_irc_refactor.Server.Staying.{Stays, further}
use ft_irc_refactor.Server.Members.Entering.{In}

-- A change of a channel in which nobody leaves.
pub record Wider (f : Channel → Channel) : Type 0 where
  pub wider :
      (ch : Channel) (n : Str) (q : Ptr)
      → find n ch.participant ≡ some q
      → find n (f ch).participant ≡ some q

SameSeats-Wider : (f : Channel → Channel) → SameSeats f → Wider f
SameSeats-Wider f seats = record {
  wider = λ ch n q e. subst (λ m. find n m ≡ some q) (sym (seats.same ch)) e;
}

kept_seat :
    (nick n : Str) (p q : Ptr) (m : Map Str Ptr)
    → find n m ≡ some q
    → find n (insert nick p m) ≡ some q
kept_seat nick n p q m e = ground (arith, str_eq_iff nick n, find-insert nick n p m, e)

pub add_participant-Wider : (nick : Str) (p : Ptr) → Wider (add_participant nick p)
unfolding add_participant
add_participant-Wider nick p = record { wider = λ ch n q e. kept_seat nick n p q ch.participant e }

-- One channel is replaced by another with its participants.
In-assign :
    (name : Str) (ch d : Channel) (s : Server) (k : Str) (q : Ptr)
    → find name s.channels ≡ some ch
    → ((n : Str) → find n ch.participant ≡ some q → find n d.participant ≡ some q)
    → In s k q
    → In (record s { channels = assign name d s.channels }) k q
In-assign name ch d s k q held keeps (e, (found, (n, seat))) = elim (Bool-cases (str_eq name k)) [
  | inl t ↦
      let same = (str_eq_iff name k).0 t in
      let is = same_value (sym held ∙ subst (λ x. find x s.channels ≡ some e) (sym same) found) in
      (
        d,
        (
          rw (find-assign name k d s.channels, t) refl,
          (n, keeps n (subst (λ x. find n x.participant ≡ some q) (sym is) seat)),
        ),
      )
  | inr f ↦ (e, (rw (find-assign name k d s.channels, f) found, (n, seat)))
]

-- And one that was not there.
In-new :
    (name : Str) (d : Channel) (s : Server) (k : Str) (q : Ptr)
    → find name s.channels ≡ none
    → In s k q
    → In (record s { channels = assign name d s.channels }) k q
In-new name d s k q free (e, (found, (n, seat))) = elim (Bool-cases (str_eq name k)) [
  | inl t ↦ absurd (
      not_found
        (sym free ∙ subst (λ x. find x s.channels ≡ some e) (sym ((str_eq_iff name k).0 t)) found))
  | inr f ↦ (e, (rw (find-assign name k d s.channels, f) found, (n, seat)))
]

none_in : (m : Map Str Ptr) (n : Str) (q : Ptr) → is_empty m ≡ true → find n m ≡ some q → ⊥
unfolding find
none_in [] n q vacant seat = not_found seat
none_in (e ∷ m) n q vacant seat = not_both vacant refl

module _ (own : Option Ptr) (excused : Str → Type 0) (before : Server) where
  abbrev Stay : Server → Type 0
  Stay = Stays own excused before

  pub Wider-Keeps :
      (name : Str) (f : Channel → Channel) → Wider f → Keeps Stay (update_channel name f)
  unfolding update_channel channel_at ◌>>=◌ modify
  Wider-Keeps name f wider = record {
    at = λ s h. elim (Option-cases (find name s.channels)) [
      | inl e ↦ rw e h
      | inr (ch, e) ↦ rw e (
          further own excused before s (record s { channels = assign name (f ch) s.channels })
            (λ k q here.
              inr (inr (In-assign name ch (f ch) s k q e (λ n seat. wider.wider ch n q seat) here)))
            h)
    ];
  }

  pub stays-Updates : Updates Stay
  stays-Updates name f seats = Wider-Keeps name f (SameSeats-Wider f seats)

  pub open_channel-at :
      (name key : Str) (mode : Option ℕ) (s : Server)
      → find name s.channels ≡ none
      → Stay s
      → Stay (set_channels name key mode s)
  unfolding set_channels
  open_channel-at name key mode s free h =
      further own excused before s (set_channels name key mode s)
        (λ k q here. inr (inr (In-new name _ s k q free here))) h

  -- An empty channel is deleted.
  pub drop_empty-Keeps :
      (name : Str)
      → Keeps Stay
          (channel_at name >>= λ ch. when (is_empty ch.participant) (modify (remove_channel name)))
  unfolding channel_at ◌>>=◌ modify remove_channel pure
  drop_empty-Keeps name = record {
    at = λ s h. elim (Option-cases (find name s.channels)) [
      | inl e ↦ rw e h
      | inr (ch, e) ↦ elim (Bool-cases (is_empty ch.participant)) [
        | inr f ↦ rw (e, f) h
        | inl vacant ↦
            rw (e, vacant)
              (further own excused before s (record s { channels = erase name s.channels })
                (λ k q here. inr (inr (left name ch k q s e vacant here))) h)
      ]
    ];
  }
    where
      left :
          (name : Str) (ch : Channel) (k : Str) (q : Ptr) (s : Server)
          → find name s.channels ≡ some ch
          → is_empty ch.participant ≡ true
          → In s k q
          → In (record s { channels = erase name s.channels }) k q
      left name ch k q s held vacant (e, (found, (n, seat))) = elim (Bool-cases (str_eq name k)) [
        | inl t ↦
            let is = same_value (
              sym held
              ∙ subst (λ x. find x s.channels ≡ some e) (sym ((str_eq_iff name k).0 t)) found) in
            absurd (
              none_in ch.participant n q vacant
                (subst (λ x. find n x.participant ≡ some q) (sym is) seat))
        | inr f ↦ (e, (rw (find-erase name k s.channels, f) found, (n, seat)))
      ]
