-- ===== src/Server/Members/Entering.antt =====
-- Who enters a channel (handleClientCmd, src/Cmd/Cmd.cpp).
use ft_irc_refactor.Server.Members.Renaming.{who, find-map}
use ft_irc_refactor.Server.Members.Moves.{added}
use ft_irc_refactor.Cmd.Frame.{Moves, Quiet}
use ft_irc_refactor.Cmd.Frame.Message.{message-Keeps}
use ft_irc_refactor.Cmd.Dispatch.{handle_client_cmd}
use ft_irc_refactor.Cmd.Context.{Cmd}
use ft_irc_refactor.Cmd.Register.{rename_in, rename_in_channels}
use ft_irc_refactor.Server.Net.{
  mark_client_for_removal_cases, add_client_by_nickname, update_clients,
  update_nick_name_client_map, enable_poll_out_event,
}
use ft_irc_refactor.Channel.{add_participant, Channel, Ptr}
use ft_irc_refactor.Base.{
  find-assign_cases, Option-cases, ◌≡◌, ◌∙◌, ◌⊎◌, inl, inr, Option, some, Str, find, ℕ_key, str_key,
  ap, sym, subst,
}
use ft_irc_refactor.Server.State.{modify, deref, update_client, Env, Server, ◌>>=◌}

-- The client at this address is a participant of the channel.
abbrev pub In : Server → Str → Ptr → Type 0
In s name q =
    (ch : Channel) × ((find name s.channels ≡ some ch)
      × ((n : Str) × (find n ch.participant ≡ some q)))

module _ (own : Option Ptr) (before : Server) where
  -- All have been in their channels before, but for one client.
  abbrev Entered : Server → Type 0
  Entered s = (name : Str) (q : Ptr) → In s name q → (own ≡ some q) ⊎ In before name q

  Entered-Quiet : Quiet Entered
  unfolding enable_poll_out_event update_client ◌>>=◌ deref modify
  Entered-Quiet = record {
    edit = λ p f edit. record {
      at = λ s h. elim (Option-cases (find p s.heap)) [ inl e ↦ rw e h | inr (c, e) ↦ rw e h ];
    };
    register = λ p c s there ready h. h;
    nicked = λ p c s there old h. h;
    mark = λ fd s h. mark_client_for_removal_cases Entered fd s h h;
    poll_out = λ fd s h. h;
    output = λ s n w h. h;
  }

  Entered-Moves : Moves Entered own
  unfolding rename_in_channels update_nick_name_client_map update_clients add_client_by_nickname
  Entered-Moves = record {
    channels = record {
      channel = λ s chs fewer tidy h name q (ch, (held, (n, seat))).
          let (old, (was, sat)) = fewer name ch n q held seat in h name q (old, (was, (n, sat)));
    };
    join = λ p c name ch s is there registered held h k q (d, (found, (n, seat))).
        elim (find-assign_cases name k (add_participant c.nickname p ch) d s.channels found) [
          | inr old ↦ h k q (d, (old, (n, seat)))
          | inl (same, changed) ↦
              elim (added c.nickname n p q ch
                (subst (λ x. find n x.participant ≡ some q) (sym changed) seat)) [
                  | inl (_, ptr) ↦ inl (is ∙ ap some ptr)
                  | inr sat ↦
                      h k q (ch, (subst (λ x. find x s.channels ≡ some ch) same held, (n, sat)))
                ]
        ];
    names = λ p is. record {
      named = λ c t s there new good unused h. h;
      renamed = λ c t s there old good unused h name q (d, (found, (n, seat))).
          let (ch, (held, changed)) = find-map (rename_in c.nickname t p) name s.channels d found in
          elim (who c.nickname t n p q ch
            (subst (λ x. find n x.participant ≡ some q) (sym changed) seat)) [
              | inl (_, ptr) ↦ inl (is ∙ ap some ptr)
              | inr (_, sat) ↦ h name q (ch, (held, (n, sat)))
            ];
    };
  }

-- Nobody enters a channel but by its own message: whoever is a participant of a channel after a
-- message was one before, or is the client that sent the message.
pub handle_client_cmd-enters :
    (env : Env) (c : Cmd) (s : Server) (name : Str) (q : Ptr)
    → In (handle_client_cmd env c s).1 name q
    → (c.client ≡ some q) ⊎ In s name q
handle_client_cmd-enters env c s =
    (message-Keeps (Entered-Quiet c.client s) env c (Entered-Moves c.client s)).at s
      (λ name q here. inr here)
