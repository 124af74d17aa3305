-- ===== src/Server/Staying/Departure.antt =====
-- leave_channel, which ends PART and KICK (src/Cmd/CmdPart.cpp, CmdKick.cpp): who leaves.
use ft_irc_refactor.Cmd.Frame.Seats.{remove_operator-SameSeats}
use ft_irc_refactor.Cmd.Part.{leave_channel}
use ft_irc_refactor.Server.Keeps.{keeps_rules, and_then-at, Keeps}
use ft_irc_refactor.Server.Net.{remove_channel}
use ft_irc_refactor.Channel.{remove_operator, is_operator, remove_participant, Ptr, Channel}
use ft_irc_refactor.Base.{
  find-erase, Option-cases, find-assign, same_value, str_eq, Bool-cases, str_eq_iff, is_empty, ◌≡◌,
  ◌∙◌, ◌⊎◌, refl, inl, inr, Option, some, Str, find, assign, ℕ_key, str_key, sym, subst,
}
use ft_irc_refactor.Server.State.{when, modify, channel_at, update_channel, Server, ◌>>=◌, ◌>>◌}
use ft_irc_refactor.Server.Staying.{Stays, further}
use ft_irc_refactor.Server.Members.Entering.{In}
use ft_irc_refactor.Server.Staying.Steps.{drop_empty-Keeps, stays-Updates}

module _ (own : Option Ptr) (excused : Str → Type 0) (before : Server) where
  abbrev Stay : Server → Type 0
  Stay = Stays own excused before

  -- A nickname leaves, of the client or of a channel that does not matter.
  seat_lost :
      (nick name : Str) (ch : Channel) (s : Server) (k : Str) (q : Ptr)
      → find name s.channels ≡ some ch
      → (find nick ch.participant ≡ some q → (own ≡ some q) ⊎ excused name)
      → In s k q
      → (own ≡ some q)
        ⊎ (excused k
            ⊎ In (record s { channels = assign name (remove_participant nick ch) s.channels }) k q)
  unfolding remove_participant
  seat_lost nick name ch s k q held free (e, (found, (n, seat))) =
      elim (Bool-cases (str_eq name k)) [
        | inr f ↦ inr (
            inr (
              e,
              (rw (find-assign name k (remove_participant nick ch) s.channels, f) found, (n, seat)),
            ))
        | inl t ↦
            let same = (str_eq_iff name k).0 t in
            let is =
              same_value (sym held ∙ subst (λ x. find x s.channels ≡ some e) (sym same) found) in
            let sat = subst (λ x. find n x.participant ≡ some q) (sym is) seat in
            elim (Bool-cases (str_eq nick n)) [
              | inr other ↦ inr (
                  inr (
                    remove_participant nick ch,
                    (
                      rw (find-assign name k (remove_participant nick ch) s.channels, t) refl,
                      (n, rw (find-erase nick n ch.participant, other) sat),
                    ),
                  ))
              | inl here ↦
                  elim (free (
                    subst (λ x. find x ch.participant ≡ some q) (sym ((str_eq_iff nick n).0 here))
                      sat)) [
                        | inl mine ↦ inl mine
                        | inr loose ↦ inr (inl (subst excused same loose))
                      ]
            ]
      ]

  behind_departure :
      (nick name : Str)
      → Keeps Stay (
          channel_at name >>= λ ch.
          (when (is_operator nick ch) (update_channel name (remove_operator nick))
            >> (channel_at name >>= λ after.
                when (is_empty after.participant) (modify (remove_channel name)))))
  behind_departure nick name =
      search (keeps_rules, stays-Updates, remove_operator-SameSeats, drop_empty-Keeps) depth 12

  departure-at :
      (nick name : Str) (s : Server)
      → ((ch : Channel) (q : Ptr)
          → find name s.channels ≡ some ch
          → find nick ch.participant ≡ some q
          → (own ≡ some q) ⊎ excused name)
      → Stay s
      → Stay (update_channel name (remove_participant nick) s).1
  unfolding update_channel channel_at ◌>>=◌ modify
  departure-at nick name s free h = elim (Option-cases (find name s.channels)) [
    | inl e ↦ rw e h
    | inr (ch, e) ↦ rw e (
        further own excused before s
          (record s { channels = assign name (remove_participant nick ch) s.channels })
          (λ k q here. seat_lost nick name ch s k q e (λ seat. free ch q e seat) here) h)
  ]

  pub leave_channel-at :
      (nick name : Str) (s : Server)
      → ((ch : Channel) (q : Ptr)
          → find name s.channels ≡ some ch
          → find nick ch.participant ≡ some q
          → (own ≡ some q) ⊎ excused name)
      → Stay s
      → Stay (leave_channel nick name s).1
  unfolding leave_channel ◌>>=◌
  leave_channel-at nick name s free h =
      let first = departure-at nick name s free h in
      and_then-at Stay (update_channel name (remove_participant nick) s).0 _ _ first
        (λ _. (behind_departure nick name).at _ first)
