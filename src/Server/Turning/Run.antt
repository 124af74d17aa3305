-- ===== src/Server/Turning/Run.antt =====
-- Whole turns of the loop (run, src/Server.cpp) inside its frame.
use ft_irc_refactor.Server.Turning.Clients.{check_ping_time_out-Keeps, handle_slots-Keeps}
use ft_irc_refactor.Base.{false, ℕ, List, [], ◌∷◌, Option, ℕ_key}
use ft_irc_refactor.Server.State.{ok, throw, fault, Env, Server, Outcome, modify}
use ft_irc_refactor.Server.Keeps.{
  Keeps-pure, Keeps-attempt, Keeps-if, Keeps-bind, Keeps, Keeps-modify, keeps_rules,
}
use ft_irc_refactor.Server.Teardown.{Accepted, check_ping_time_out, cleanup_marked_clients}
use ft_irc_refactor.Server.Loop.{
  goes_on, Poll, Revents, handle_slots, handle_poll, turn, turn_caught, run,
}
use ft_irc_refactor.Server.Turning.{Turns}

module _ {P : Server → Type 0} (turns : Turns P) where
  slots-Keeps :
      (env : Env) (a : Accepted) (i : ℕ) (rs : List (Option Revents))
      → Keeps P (handle_slots env a i rs)
  slots-Keeps = handle_slots-Keeps turns.slots

  cleanup-Keeps : Keeps P cleanup_marked_clients
  cleanup-Keeps = turns.cleanup

  ping-Keeps : Keeps P check_ping_time_out
  ping-Keeps = check_ping_time_out-Keeps turns.slots.reads

  tick-Keeps : (now : ℕ) → Keeps P (modify (λ s. record s { now = now }))
  tick-Keeps now = Keeps-modify _ (turns.tick now)

  pub handle_poll-Keeps : (env : Env) (poll : Poll) → Keeps P (handle_poll env poll)
  unfolding handle_poll
  handle_poll-Keeps env Poll.interrupted = search keeps_rules
  handle_poll-Keeps env Poll.failing = search keeps_rules
  handle_poll-Keeps env (Poll.ready a rs) = search (keeps_rules, slots-Keeps, cleanup-Keeps)

  turn-Keeps : (env : Env) (now : ℕ) (poll : Poll) → Keeps P (turn env now poll)
  unfolding turn
  turn-Keeps env now poll = search (keeps_rules, tick-Keeps, ping-Keeps, handle_poll-Keeps)

  turn_caught-Keeps : (env : Env) (now : ℕ) (poll : Poll) → Keeps P (turn_caught env now poll)
  unfolding turn_caught
  turn_caught-Keeps env now poll = Keeps-attempt _ _ (turn-Keeps env now poll) goes_on-Keeps
    where
      goes_on-Keeps : (o : Outcome (Unit {0})) → Keeps P (goes_on o)
      goes_on-Keeps (ok _) = search keeps_rules
      goes_on-Keeps (throw e) = search keeps_rules
      goes_on-Keeps fault = search keeps_rules

  -- A turn changes nothing but what the frame allows, and so does the loop.
  pub run-Keeps : (env : Env) (events : List (ℕ × Poll)) → Keeps P (run env events)
  unfolding run
  run-Keeps env [] = search keeps_rules
  run-Keeps env ((now, poll) ∷ rest) =
      Keeps-bind _ _ (turn_caught-Keeps env now poll)
        λ running. Keeps-if _ _ _ (λ _. run-Keeps env rest) (λ _. Keeps-pure false)
