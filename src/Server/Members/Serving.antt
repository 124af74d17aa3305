-- ===== src/Server/Members/Serving.antt =====
-- Invariants over whole turns of the loop (run, src/Server.cpp) in which `accept` gives descriptors
-- that no client has.
use ft_irc_refactor.Server.Turning.{Reads}
use ft_irc_refactor.Server.Keeps.{Keeps, and_then-at, Keeps-if, Keeps-pure, Keeps-raise}
use ft_irc_refactor.Server.Teardown.{
  add_client, cleanup_marked_clients, check_ping_time_out, is_full, accept_client, accept_peer,
  Accepted, err_accept_client,
}
use ft_irc_refactor.Base.{
  Bool-cases, false, true, zero, suc, ℕ, ◌≡◌, refl, inl, inr, Bool, List, [], ◌∷◌, Option, none,
  some, Str, find, ℕ_key, str_key,
}
use ft_irc_refactor.Server.Net.{is_fd}
use ft_irc_refactor.Server.Loop.{
  succeeds, turn_caught, Poll, Revents, process_server_event, slot_fd, handle_slot, handle_slots,
  handle_poll, turn, run, goes_on,
}
use ft_irc_refactor.Server.State.{
  attempt, undefined, modify, pure, Server, Env, ok, throw, fault, Outcome, ◌>>=◌, raise,
}
use ft_irc_refactor.Server.Turning.Clients.{check_ping_time_out-Keeps, handle_client_slot-Keeps}
use ft_irc_refactor.Server.Leaving.Turn.{checked}

-- `accept` gives no descriptor that a client has.
abbrev pub Fresh : Accepted → Server → Type 0
Fresh a s = (fd : ℕ) (host : Str) → a.peer ≡ some (fd, host) → find fd s.clients ≡ none

abbrev pub FreshSlots : Env → Accepted → ℕ → List (Option Revents) → Server → Type 0
FreshSlots env a i [] s = Unit
FreshSlots env a i (none ∷ rs) s = FreshSlots env a (suc i) rs s
FreshSlots env a i (some r ∷ rs) s =
    (is_fd s.fd (slot_fd i s.fds) ≡ true → Fresh a s)
    × FreshSlots env a (suc i) rs (handle_slot env a i r s).1

abbrev pub FreshPoll : Env → Poll → Server → Type 0
FreshPoll env Poll.interrupted s = Unit
FreshPoll env Poll.failing s = Unit
FreshPoll env (Poll.ready a rs) s = FreshSlots env a zero rs s

-- And so in each turn, wherever it is called.
abbrev pub FreshRun : Env → List (ℕ × Poll) → Server → Type 0
FreshRun env [] s = Unit
FreshRun env ((now, poll) ∷ rest) s =
    FreshPoll env poll (checked now s) × FreshRun env rest (turn_caught env now poll s).1

-- What an invariant needs of the steps of a turn.
pub record Served (P : Server → Type 0) : Type 0 where
  pub reads : Reads P
  pub cleanup : Keeps P cleanup_marked_clients
  pub accept :
      (fd : ℕ) (host : Str) (s : Server) → find fd s.clients ≡ none → P s → P (add_client fd host s)
  pub tick : (now : ℕ) (s : Server) → P s → P (record s { now = now })

module _ {P : Server → Type 0} (served : Served P) where
  accept_peer-Served :
      (b : Bool) (peer : Option (ℕ × Str)) (s : Server)
      → ((fd : ℕ) (host : Str) → peer ≡ some (fd, host) → find fd s.clients ≡ none)
      → P s
      → P (accept_peer b peer s).1
  unfolding accept_peer ◌>>=◌ modify
  accept_peer-Served b none s fresh h = h
  accept_peer-Served false (some (fd, host)) s fresh h = elim (Bool-cases (is_full s)) [
    | inl e ↦ rw e h
    | inr e ↦ rw e h
  ]
  accept_peer-Served true (some (fd, host)) s fresh h = elim (Bool-cases (is_full s)) [
    | inl e ↦ rw e h
    | inr e ↦ rw e (served.accept fd host s (fresh fd host refl) h)
  ]

  succeeded : (o : Outcome (Unit {0})) (s : Server) → P s → P (succeeds o s).1
  unfolding pure undefined
  succeeded (ok _) s h = h
  succeeded (throw e) s h = h
  succeeded fault s h = h

  event-Served : (a : Accepted) (s : Server) → Fresh a s → P s → P (process_server_event a s).1
  unfolding process_server_event accept_client attempt
  event-Served a s fresh h =
      succeeded (accept_peer a.nonblocking a.peer s).0 _
        (accept_peer-Served a.nonblocking a.peer s fresh h)

  slot-Served :
      (env : Env) (a : Accepted) (i : ℕ) (r : Revents) (s : Server)
      → (is_fd s.fd (slot_fd i s.fds) ≡ true → Fresh a s)
      → P s
      → P (handle_slot env a i r s).1
  unfolding handle_slot ◌>>=◌
  slot-Served env a i r s fresh h = elim (Bool-cases (is_fd s.fd (slot_fd i s.fds))) [
    | inl e ↦ rw e (
        and_then-at P (process_server_event a s).0 _ _ (event-Served a s (fresh e) h) λ b.
          (Keeps-if {P = P} b (pure tt) (raise err_accept_client) (λ _. Keeps-pure tt)
              (λ _. Keeps-raise err_accept_client)).at
            (process_server_event a s).1 (event-Served a s (fresh e) h))
    | inr e ↦ rw e ((handle_client_slot-Keeps served.reads env i r).at s h)
  ]

  slots-Served :
      (env : Env) (a : Accepted) (i : ℕ) (rs : List (Option Revents)) (s : Server)
      → FreshSlots env a i rs s
      → P s
      → P (handle_slots env a i rs s).1
  unfolding handle_slots ◌>>=◌
  slots-Served env a i [] s fresh h = h
  slots-Served env a i (none ∷ rs) s fresh h = slots-Served env a (suc i) rs s fresh h
  slots-Served env a i (some r ∷ rs) s (here, there) h =
      let after = slot-Served env a i r s here h in
      and_then-at P (handle_slot env a i r s).0 _ _ after
        λ _. slots-Served env a (suc i) rs _ there after

  handle_poll-Served :
      (env : Env) (poll : Poll) (s : Server)
      → FreshPoll env poll s
      → P s
      → P (handle_poll env poll s).1
  unfolding handle_poll ◌>>=◌
  handle_poll-Served env Poll.interrupted s fresh h = h
  handle_poll-Served env Poll.failing s fresh h = h
  handle_poll-Served env (Poll.ready a rs) s fresh h =
      let after = slots-Served env a zero rs s fresh h in
      and_then-at P (handle_slots env a zero rs s).0 _ _ after λ _. served.cleanup.at _ after

  turn-Served :
      (env : Env) (now : ℕ) (poll : Poll) (s : Server)
      → FreshPoll env poll (checked now s)
      → P s
      → P (turn env now poll s).1
  unfolding turn ◌>>=◌ modify
  turn-Served env now poll s fresh h =
      let head =
        (check_ping_time_out-Keeps served.reads).at (record s { now = now })
          (served.tick now s h) in
      and_then-at P (check_ping_time_out (record s { now = now })).0 _ _ head
        λ _. handle_poll-Served env poll _ fresh head

  caught : (o : Outcome (Unit {0})) (s : Server) → P s → P (goes_on o s).1
  unfolding pure undefined
  caught (ok _) s h = h
  caught (throw e) s h = h
  caught fault s h = h

  pub run-Served :
      (env : Env) (events : List (ℕ × Poll)) (s : Server)
      → FreshRun env events s
      → P s
      → P (run env events s).1
  unfolding run ◌>>=◌ turn_caught attempt
  run-Served env [] s fresh h = h
  run-Served env ((now, poll) ∷ rest) s (here, there) h =
      let turned = caught (turn env now poll s).0 _ (turn-Served env now poll s here h) in
      and_then-at P (turn_caught env now poll s).0 _ _ turned λ running. elim (Bool-cases running) [
        | inl e ↦ rw e (run-Served env rest _ there turned)
        | inr e ↦ rw e turned
      ]
