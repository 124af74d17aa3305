-- ===== src/Server/Loop.antt =====
-- src/Server.cpp: what one turn of `run` does with the events that poll reports.
use ft_irc_refactor.Base.{
  ℕ, zero, suc, Bool, true, false, not, ◌&&◌, ◌||◌, List, [], ◌∷◌, Option, none, some, Str, codes,
  length, is_empty, is_some, if◌then◌else◌, c_str, ◌==◌,
}
use ft_irc_refactor.Client.{append_to_recv_buffer, extract_message, clear_send_buffer}
use ft_irc_refactor.Channel.{Ptr}
use ft_irc_refactor.Server.State.{
  Env, SendResult, sent, again, gone, failed, PollFd, Outcome, ok, throw, fault, Action, pure,
  raise, undefined, get, modify, when, deref, update_client, ◌>>=◌, ◌>>◌, attempt,
}
use ft_irc_refactor.Server.Net.{
  get_client, is_marked_for_removal, mark_client_for_removal, send, disable_poll_out_event, is_fd,
}
use ft_irc_refactor.Server.Teardown.{
  Accepted, accept_client, err_accept_client, cleanup_marked_clients, check_ping_time_out,
}
use ft_irc_refactor.Cmd.Dispatch.{make_cmd, handle_client_cmd}

-- The result of a `try` block that returns false on an exception.
abbrev pub succeeds : Outcome (Unit {0}) → Action Bool
succeeds (ok _) = pure true
succeeds (throw e) = pure false
succeeds fault = undefined

unfoldable pub process_server_event : Accepted → Action Bool
process_server_event a = attempt (accept_client a) succeeds

-- A message, in the `try` block of the loop: any exception is logged, and the loop goes on.
abbrev pub logged : Outcome Bool → Action Bool
logged (ok b) = pure b
logged (throw e) = pure true
logged fault = undefined

unfoldable pub handle_message : Env → (fd : ℕ) → (msg : Str) → Action Bool
handle_message env fd msg = do
  s ← get
  attempt (handle_client_cmd env (make_cmd msg fd (get_client fd s))) logged

-- `while (getClient(fd) && !isMarkedForRemoval(fd) && client->extractMessage(str))`. The fuel
-- bounds the number of messages.
unfoldable pub read_loop : Env → ℕ → (fd : ℕ) → Ptr → Action Bool
read_loop env zero fd p = pure true
read_loop env (suc fuel) fd p = do
  s ← get
  if not (is_some (get_client fd s)) || is_marked_for_removal fd s then pure true else (do
    client ← deref p
    elim (extract_message client) [
      | none ↦ pure true
      | some (msg, client') ↦ do
        update_client p (λ _. client')
        alive ← handle_message env fd msg
        if alive then read_loop env fuel fd p else pure false
    ])

-- `none` is a result of recv that is not positive.
unfoldable pub read_chunk : Env → (fd : ℕ) → Ptr → Option Str → Action Bool
read_chunk env fd p none = pure false
read_chunk env fd p (some chunk) = do
  update_client p (append_to_recv_buffer (c_str chunk))
  client ← deref p
  read_loop env (suc (length client.recv_buffer)) fd p

unfoldable pub process_client_read : Env → (fd : ℕ) → Option Str → Action Bool
process_client_read env fd chunk = do
  s ← get
  elim (get_client fd s) [ none ↦ pure false | some p ↦ read_chunk env fd p chunk ]

-- What follows the send; false is an error that ends the client. A result 0 changes nothing.
unfoldable pub after_write : Ptr → SendResult → Action Bool
after_write p (sent n) = do update_client p (clear_send_buffer n); pure true
after_write p again = pure true
after_write p gone = pure false
after_write p failed = pure false

unfoldable pub write_buffer : Env → (fd : ℕ) → Ptr → Action Bool
write_buffer env fd p = do
  client ← deref p
  if is_empty client.send_buffer
      then pure true
      else (do result ← send env fd client.send_buffer; after_write p result)

unfoldable pub process_client_write : Env → (fd : ℕ) → Action Bool
process_client_write env fd = do
  s ← get
  elim (get_client fd s) [
    | none ↦ pure false
    | some p ↦ do
      alive ← write_buffer env fd p
      if alive
          then (do
            client ← deref p
            when (is_empty client.send_buffer) (modify (disable_poll_out_event fd))
            pure true)
          else pure false
  ]

-- What poll reports for a slot, with the bytes that recv will give.
pub record Revents : Type 0 where
  pub pollin : Bool
  pub pollout : Bool
  pub broken : Bool
  pub received : Option Str

-- `_fds[i].fd`
abbrev pub slot_fd : ℕ → List PollFd → Option ℕ
slot_fd i [] = none
slot_fd zero (p ∷ ps) = p.fd
slot_fd (suc i) (p ∷ ps) = slot_fd i ps

-- A descriptor of -1 is the one of no client.
abbrev pub mark : Option ℕ → Action (Unit {0})
mark none = pure tt
mark (some fd) = modify (mark_client_for_removal fd)

abbrev pub read_slot : Env → Option ℕ → Option Str → Action Bool
read_slot env none chunk = pure false
read_slot env (some fd) chunk = process_client_read env fd chunk

-- Runs the step if it is asked for; the result false marks the descriptor and ends the slot.
unfoldable pub handle_read : Env → Option ℕ → Revents → Action Bool
handle_read env fd r =
    if r.pollin
    then (do alive ← read_slot env fd r.received; when (not alive) (mark fd); pure alive)
    else pure true

unfoldable pub handle_write : Env → Option ℕ → Revents → Action Bool
handle_write env none r = pure true
handle_write env (some fd) r =
    if r.pollout
    then (do
      alive ← process_client_write env fd
      when (not alive) (modify (mark_client_for_removal fd))
      pure alive)
    else pure true

-- The three steps for a client's slot; the descriptor is read again after each.
unfoldable pub handle_client_slot : Env → (i : ℕ) → Revents → Action (Unit {0})
handle_client_slot env i r = do
  s ← get
  reading ← handle_read env (slot_fd i s.fds) r
  when reading (do
    t ← get
    writing ← handle_write env (slot_fd i t.fds) r
    when writing (do u ← get; when r.broken (mark (slot_fd i u.fds))))

-- The events of a slot: of the server's socket, or of a client's.
unfoldable pub handle_slot : Env → Accepted → (i : ℕ) → Revents → Action (Unit {0})
handle_slot env accepted i r = do
  s ← get
  if is_fd s.fd (slot_fd i s.fds)
      then (do
        accepting ← process_server_event accepted
        if accepting then pure tt else raise err_accept_client)
      else handle_client_slot env i r

-- The loop over the slots that were polled; `none` is `revents == 0`, as it is for the slots that
-- acceptClient adds.
unfoldable pub handle_slots : Env → Accepted → ℕ → List (Option Revents) → Action (Unit {0})
handle_slots env accepted i [] = pure tt
handle_slots env accepted i (none ∷ rest) = handle_slots env accepted (suc i) rest
handle_slots env accepted i (some r ∷ rest) = do
  handle_slot env accepted i r
  handle_slots env accepted (suc i) rest

-- What happens in one turn: the time, and the outcome of poll.
pub data Poll : Type 0 where
  interrupted failing : Poll
  ready : Accepted → List (Option Revents) → Poll

abbrev pub err_poll : Str
err_poll = codes "poll() error."

-- `continue` on EINTR skips the cleanup, and so does an exception.
unfoldable pub handle_poll : Env → Poll → Action (Unit {0})
handle_poll env interrupted = pure tt
handle_poll env failing = raise err_poll
handle_poll env (ready accepted revents) = do
  handle_slots env accepted zero revents
  cleanup_marked_clients

-- The body of the `try` block of run.
unfoldable pub turn : Env → (now : ℕ) → Poll → Action (Unit {0})
turn env now poll = do
  modify (λ s. record s { now = now })
  check_ping_time_out
  handle_poll env poll

abbrev starts_with : Str → Str → Bool
starts_with [] s = true
starts_with (c ∷ cs) [] = false
starts_with (c ∷ cs) (d ∷ ds) = c == d && starts_with cs ds

-- `s.find(part) != npos`
unfoldable pub contains : (part s : Str) → Bool
contains part [] = is_empty part
contains part (c ∷ cs) = starts_with part (c ∷ cs) || contains part cs

unfoldable pub can_recover : Str → Bool
unfolding contains
can_recover msg =
    not (
      contains (codes "socket") msg || contains (codes "bind") msg || contains (codes "listen") msg)

-- What the `catch` block makes of the outcome: true if the loop goes on.
abbrev pub goes_on : Outcome (Unit {0}) → Action Bool
goes_on (ok _) = pure true
goes_on (throw e) = pure (can_recover e)
goes_on fault = undefined

unfoldable pub turn_caught : Env → (now : ℕ) → Poll → Action Bool
turn_caught env now poll = attempt (turn env now poll) goes_on

-- run, for as long as the events last; the result says whether it is still running.
unfoldable pub run : Env → List (ℕ × Poll) → Action Bool
run env [] = pure true
run env ((now, poll) ∷ rest) = do
  running ← turn_caught env now poll
  if running then run env rest else pure false
