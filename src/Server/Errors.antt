-- ===== src/Server/Errors.antt =====
-- Exceptions of the event loop (run, src/Server.cpp): which of them reach its `catch` block.
use ft_irc_refactor.Cmd.Errors.{send-Throws}
use ft_irc_refactor.Client.{extract_message}
use ft_irc_refactor.Server.Net.{get_client}
use ft_irc_refactor.Channel.{Ptr}
use ft_irc_refactor.Server.Effects.{
  Throws-update_client, Throws-deref, Throws-option, Throws-if, Throws-raise, Throws-get,
  Throws-caught, Throws-pure, Throws-bind, throwing, Throws,
}
use ft_irc_refactor.Base.{
  none, some, [], ◌∷◌, zero, suc, List, ℕ, Option, ◌≡◌, Bool, true, false, ap, Str, refl, ◌⊎◌, inl,
  inr,
}
use ft_irc_refactor.Server.Loop.{
  process_server_event, process_client_read, read_chunk, read_loop, handle_message,
  process_client_write, handle_read, after_write, write_buffer, handle_write, handle_client_slot,
  handle_slot, handle_slots, handle_poll, turn, turn_caught, run, can_recover, mark, read_slot,
  succeeds, goes_on, logged, err_poll, Revents, Poll,
}
use ft_irc_refactor.Server.State.{
  ◌>>=◌, Server, undefined, SendResult, attempt, pure, Env, ok, throw, fault, Outcome, sent, again,
  gone, failed,
}
use ft_irc_refactor.Server.Teardown.{
  check_ping_time_out, silent_clients, cleanup_marked_clients, err_accept_client, Accepted,
  teardown, remove_client_from_server,
}

-- The two texts that reach it.
abbrev Expected : Str → Type 0
Expected e = (e ≡ err_accept_client) ⊎ (e ≡ err_poll)

module _ {E : Str → Type 0} where
  server_event-Throws : (a : Accepted) → Throws E (process_server_event a)
  unfolding process_server_event
  server_event-Throws a = Throws-caught _ _ λ o. ends o
    where
      ends : (o : Outcome (Unit {0})) → Throws E (succeeds o)
      ends (ok _) = search throwing
      ends (throw e) = search throwing
      ends fault = search throwing

  handle_message-Throws : (env : Env) (fd : ℕ) (msg : Str) → Throws E (handle_message env fd msg)
  unfolding handle_message
  handle_message-Throws env fd msg = Throws-bind _ _ Throws-get (λ s. Throws-caught _ _ λ o. ends o)
    where
      ends : (o : Outcome Bool) → Throws E (logged o)
      ends (ok _) = search throwing
      ends (throw e) = search throwing
      ends fault = search throwing

  read_loop-Throws : (env : Env) (n fd : ℕ) (p : Ptr) → Throws E (read_loop env n fd p)
  unfolding read_loop
  read_loop-Throws env zero fd p = search throwing
  read_loop-Throws env (suc n) fd p = Throws-bind _ _ Throws-get λ s.
      Throws-if _ _ _ (Throws-pure true) (
        Throws-bind _ _ (Throws-deref p) λ c.
          Throws-option (extract_message c) _ _ (Throws-pure true) λ x.
            Throws-bind _ _ (Throws-update_client p _) λ _.
              Throws-bind _ _ (handle_message-Throws env fd x.0)
                λ alive. Throws-if alive _ _ (read_loop-Throws env n fd p) (Throws-pure false))

  read_chunk-Throws :
      (env : Env) (fd : ℕ) (p : Ptr) (chunk : Option Str) → Throws E (read_chunk env fd p chunk)
  unfolding read_chunk
  read_chunk-Throws env fd p none = search throwing
  read_chunk-Throws env fd p (some chunk) = search (throwing, read_loop-Throws)

  client_read-Throws :
      (env : Env) (fd : ℕ) (chunk : Option Str) → Throws E (process_client_read env fd chunk)
  unfolding process_client_read
  client_read-Throws env fd chunk = Throws-bind _ _ Throws-get λ s.
      Throws-option (get_client fd s) _ _ (Throws-pure false) λ p. read_chunk-Throws env fd p chunk

  after_write-Throws : (p : Ptr) (r : SendResult) → Throws E (after_write p r)
  unfolding after_write
  after_write-Throws p (sent n) = search throwing
  after_write-Throws p again = search throwing
  after_write-Throws p gone = search throwing
  after_write-Throws p failed = search throwing

  client_write-Throws : (env : Env) (fd : ℕ) → Throws E (process_client_write env fd)
  unfolding process_client_write write_buffer
  client_write-Throws env fd = Throws-bind _ _ Throws-get λ s.
      Throws-option (get_client fd s) _ _ (Throws-pure false)
        λ p. search (throwing, send-Throws, after_write-Throws) depth 14

  marks-Throws : (fd : Option ℕ) → Throws E (mark fd)
  marks-Throws none = search throwing
  marks-Throws (some fd) = search throwing

  slot-Throws : (env : Env) (fd : Option ℕ) (chunk : Option Str) → Throws E (read_slot env fd chunk)
  slot-Throws env none chunk = search throwing
  slot-Throws env (some fd) chunk = client_read-Throws env fd chunk

  handle_read-Throws : (env : Env) (fd : Option ℕ) (r : Revents) → Throws E (handle_read env fd r)
  unfolding handle_read
  handle_read-Throws env fd r = search (throwing, marks-Throws, slot-Throws) depth 10

  handle_write-Throws : (env : Env) (fd : Option ℕ) (r : Revents) → Throws E (handle_write env fd r)
  unfolding handle_write
  handle_write-Throws env none r = search throwing
  handle_write-Throws env (some fd) r = search (throwing, client_write-Throws) depth 10

  client_slot-Throws : (env : Env) (i : ℕ) (r : Revents) → Throws E (handle_client_slot env i r)
  unfolding handle_client_slot
  client_slot-Throws env i r =
      search (throwing, handle_read-Throws, handle_write-Throws, marks-Throws) depth 14

  teardown-Throws : (x : ℕ × Unit {0}) → Throws E (teardown x)
  unfolding teardown remove_client_from_server
  teardown-Throws (fd, _) = Throws-bind _ _ Throws-get (λ s. ends (get_client fd s))
    where
      ends : (p : Option Ptr) → Throws E (remove_client_from_server p)
      ends none = search throwing
      ends (some p) = search throwing

  cleanup-Throws : Throws E cleanup_marked_clients
  unfolding cleanup_marked_clients
  cleanup-Throws = search (throwing, teardown-Throws)

  silent-Throws : (entries : List (ℕ × Ptr)) → Throws E (silent_clients entries)
  unfolding silent_clients
  silent-Throws [] = search throwing
  silent-Throws ((fd, p) ∷ rest) = Throws-bind _ _ Throws-get λ s.
      Throws-bind _ _ (Throws-deref p)
        λ c. Throws-bind _ _ (silent-Throws rest) λ others. Throws-pure _

  ping-Throws : Throws E check_ping_time_out
  unfolding check_ping_time_out
  ping-Throws = search (throwing, silent-Throws)

slot-Expected :
    (env : Env) (a : Accepted) (i : ℕ) (r : Revents) → Throws Expected (handle_slot env a i r)
unfolding handle_slot
slot-Expected env a i r = Throws-bind _ _ Throws-get λ s.
    Throws-if _ _ _
      (Throws-bind _ _ (server_event-Throws a)
        λ b. Throws-if b _ _ (Throws-pure tt) (Throws-raise _ (inl refl)))
      (client_slot-Throws env i r)

slots-Expected :
    (env : Env) (a : Accepted) (i : ℕ) (rs : List (Option Revents))
    → Throws Expected (handle_slots env a i rs)
unfolding handle_slots
slots-Expected env a i [] = Throws-pure tt
slots-Expected env a i (none ∷ rs) = slots-Expected env a (suc i) rs
slots-Expected env a i (some r ∷ rs) =
    Throws-bind _ _ (slot-Expected env a i r) (λ _. slots-Expected env a (suc i) rs)

poll-Expected : (env : Env) (poll : Poll) → Throws Expected (handle_poll env poll)
unfolding handle_poll
poll-Expected env Poll.interrupted = Throws-pure tt
poll-Expected env Poll.failing = Throws-raise _ (inr refl)
poll-Expected env (Poll.ready a rs) =
    Throws-bind _ _ (slots-Expected env a zero rs) (λ _. cleanup-Throws)

turn-Expected : (env : Env) (now : ℕ) (poll : Poll) → Throws Expected (turn env now poll)
unfolding turn
turn-Expected env now poll = search (throwing, ping-Throws, poll-Expected)

recovers : (e : Str) → Expected e → can_recover e ≡ true
unfolding can_recover
recovers e (inl h) = rw h refl
recovers e (inr h) = rw h refl

abbrev GoesOn : Outcome Bool → Type 0
GoesOn o = (o ≡ ok true) ⊎ (o ≡ fault)

goes_on-GoesOn :
    (o : Outcome (Unit {0})) (s : Server)
    → ((e : Str) → o ≡ throw e → Expected e)
    → GoesOn (goes_on o s).0
unfolding pure undefined
goes_on-GoesOn (ok _) s h = inl refl
goes_on-GoesOn (throw e) s h = inl (ap ok (recovers e (h e refl)))
goes_on-GoesOn fault s h = inr refl

turn_caught-GoesOn :
    (env : Env) (now : ℕ) (poll : Poll) (s : Server) → GoesOn (turn_caught env now poll s).0
unfolding turn_caught attempt
turn_caught-GoesOn env now poll s =
    goes_on-GoesOn (turn env now poll s).0 (turn env now poll s).1
      ((turn-Expected env now poll).kind s)

-- No exception ends the event loop: whatever happens in its turns, `run` is still running after
-- them, unless undefined behaviour was met.
pub run-GoesOn :
    (env : Env) (events : List (ℕ × Poll)) (s : Server)
    → ((run env events s).0 ≡ ok true) ⊎ ((run env events s).0 ≡ fault)
unfolding run pure ◌>>=◌
run-GoesOn env [] s = inl refl
run-GoesOn env ((now, poll) ∷ rest) s = elim (turn_caught-GoesOn env now poll s) [
  | inl e ↦ rw e (run-GoesOn env rest _)
  | inr e ↦ rw e (inr refl)
]
