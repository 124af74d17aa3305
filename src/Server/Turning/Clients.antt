-- ===== src/Server/Turning/Clients.antt =====
-- Accepting, reading and writing (src/Server.cpp) inside the frame of the loop.
use ft_irc_refactor.Server.Turning.Messages.{
  loop-Keeps, send-Keeps, disable-Keeps, edit-Keeps, mark-Keeps,
}
use ft_irc_refactor.Base.{
  false, true, suc, ℕ, refl, inl, inr, Bool, List, [], ◌∷◌, Option, none, some, Str, ℕ_key,
  Bool-cases,
}
use ft_irc_refactor.Channel.{Ptr}
use ft_irc_refactor.Client.{clear_send_buffer, append_to_recv_buffer}
use ft_irc_refactor.Server.State.{
  ok, throw, fault, sent, again, gone, failed, SendResult, Env, Server, Outcome, update_client,
  ◌>>=◌, modify,
}
use ft_irc_refactor.Server.Keeps.{Keeps-option, Keeps-attempt, Keeps-bind, Keeps, keeps_rules}
use ft_irc_refactor.Server.Net.{get_client}
use ft_irc_refactor.Server.Teardown.{
  Accepted, accept_client, accept_peer, is_full, silent_clients, check_ping_time_out,
}
use ft_irc_refactor.Server.Loop.{
  succeeds, Revents, read_slot, mark, process_server_event, process_client_read, read_chunk,
  process_client_write, handle_read, after_write, write_buffer, handle_write, handle_client_slot,
  handle_slot, handle_slots,
}
use ft_irc_refactor.Server.Turning.{Reads, Slots}

module _ {P : Server → Type 0} (reads : Reads P) where
  ruleset slot_rules = (keeps_rules, mark-Keeps, disable-Keeps, send-Keeps, loop-Keeps)

  silent_clients-Keeps : (entries : List (ℕ × Ptr)) → Keeps P (silent_clients entries)
  unfolding silent_clients
  silent_clients-Keeps [] = search slot_rules
  silent_clients-Keeps ((fd, p) ∷ rest) = Keeps-bind _ _ (search slot_rules) λ s.
      Keeps-bind _ _ (search slot_rules)
        λ c. Keeps-bind _ _ (silent_clients-Keeps rest) λ others. search slot_rules

  pub check_ping_time_out-Keeps : Keeps P check_ping_time_out
  unfolding check_ping_time_out
  check_ping_time_out-Keeps = search (slot_rules, silent_clients-Keeps)

  recv-Keeps : (p : Ptr) (chunk : Str) → Keeps P (update_client p (append_to_recv_buffer chunk))
  unfolding append_to_recv_buffer
  recv-Keeps p chunk = edit-Keeps reads p _ (λ c. refl)

  clear-Keeps : (p : Ptr) (n : ℕ) → Keeps P (update_client p (clear_send_buffer n))
  unfolding clear_send_buffer
  clear-Keeps p n = edit-Keeps reads p _ (λ c. refl)

  read_chunk-Keeps :
      (env : Env) (fd : ℕ) (p : Ptr) (chunk : Option Str) → Keeps P (read_chunk env fd p chunk)
  unfolding read_chunk
  read_chunk-Keeps env fd p none = search slot_rules
  read_chunk-Keeps env fd p (some chunk) = search (slot_rules, recv-Keeps)

  process_client_read-Keeps :
      (env : Env) (fd : ℕ) (chunk : Option Str) → Keeps P (process_client_read env fd chunk)
  unfolding process_client_read
  process_client_read-Keeps env fd chunk = Keeps-bind _ _ (search slot_rules) λ s.
      Keeps-option (get_client fd s) _ _ (search slot_rules) (λ p. read_chunk-Keeps env fd p chunk)

  after_write-Keeps : (p : Ptr) (r : SendResult) → Keeps P (after_write p r)
  unfolding after_write
  after_write-Keeps p (sent n) = search (slot_rules, clear-Keeps)
  after_write-Keeps p again = search slot_rules
  after_write-Keeps p gone = search slot_rules
  after_write-Keeps p failed = search slot_rules

  write_buffer-Keeps : (env : Env) (fd : ℕ) (p : Ptr) → Keeps P (write_buffer env fd p)
  unfolding write_buffer
  write_buffer-Keeps env fd p = search (slot_rules, after_write-Keeps)

  process_client_write-Keeps : (env : Env) (fd : ℕ) → Keeps P (process_client_write env fd)
  unfolding process_client_write
  process_client_write-Keeps env fd = Keeps-bind _ _ (search slot_rules) λ s.
      Keeps-option (get_client fd s) _ _ (search slot_rules)
        (λ p. search (slot_rules, write_buffer-Keeps) depth 12)

  marks-Keeps : (fd : Option ℕ) → Keeps P (mark fd)
  marks-Keeps none = search slot_rules
  marks-Keeps (some fd) = search slot_rules

  reading-Keeps :
      (env : Env) (fd : Option ℕ) (chunk : Option Str) → Keeps P (read_slot env fd chunk)
  reading-Keeps env none chunk = search slot_rules
  reading-Keeps env (some fd) chunk = process_client_read-Keeps env fd chunk

  handle_read-Keeps : (env : Env) (fd : Option ℕ) (r : Revents) → Keeps P (handle_read env fd r)
  unfolding handle_read
  handle_read-Keeps env fd r = search (slot_rules, marks-Keeps, reading-Keeps) depth 10

  handle_write-Keeps : (env : Env) (fd : Option ℕ) (r : Revents) → Keeps P (handle_write env fd r)
  unfolding handle_write
  handle_write-Keeps env none r = search slot_rules
  handle_write-Keeps env (some fd) r = search (slot_rules, process_client_write-Keeps) depth 10

  pub handle_client_slot-Keeps :
      (env : Env) (i : ℕ) (r : Revents) → Keeps P (handle_client_slot env i r)
  unfolding handle_client_slot
  handle_client_slot-Keeps env i r =
      search (slot_rules, handle_read-Keeps, handle_write-Keeps, marks-Keeps) depth 14

module _ {P : Server → Type 0} (slots : Slots P) where
  accept_peer-Keeps : (b : Bool) (peer : Option (ℕ × Str)) → Keeps P (accept_peer b peer)
  unfolding accept_peer ◌>>=◌ modify
  accept_peer-Keeps b none = search keeps_rules
  accept_peer-Keeps true (some (fd, host)) = record {
    at = λ s h. elim (Bool-cases (is_full s)) [
      | inl e ↦ rw e h
      | inr e ↦ rw e (slots.accept fd host s e h)
    ];
  }
  accept_peer-Keeps false (some (fd, host)) = record {
    at = λ s h. elim (Bool-cases (is_full s)) [ inl e ↦ rw e h | inr e ↦ rw e h ];
  }

  process_server_event-Keeps : (a : Accepted) → Keeps P (process_server_event a)
  unfolding process_server_event accept_client
  process_server_event-Keeps a =
      Keeps-attempt _ _ (accept_peer-Keeps a.nonblocking a.peer) succeeds-Keeps
    where
      succeeds-Keeps : (o : Outcome (Unit {0})) → Keeps P (succeeds o)
      succeeds-Keeps (ok _) = search keeps_rules
      succeeds-Keeps (throw e) = search keeps_rules
      succeeds-Keeps fault = search keeps_rules

  client_slot-Keeps : (env : Env) (i : ℕ) (r : Revents) → Keeps P (handle_client_slot env i r)
  client_slot-Keeps = handle_client_slot-Keeps slots.reads

  handle_slot-Keeps :
      (env : Env) (a : Accepted) (i : ℕ) (r : Revents) → Keeps P (handle_slot env a i r)
  unfolding handle_slot
  handle_slot-Keeps env a i r =
      search (keeps_rules, process_server_event-Keeps, client_slot-Keeps) depth 10

  pub handle_slots-Keeps :
      (env : Env) (a : Accepted) (i : ℕ) (rs : List (Option Revents))
      → Keeps P (handle_slots env a i rs)
  unfolding handle_slots
  handle_slots-Keeps env a i [] = search keeps_rules
  handle_slots-Keeps env a i (none ∷ rs) = handle_slots-Keeps env a (suc i) rs
  handle_slots-Keeps env a i (some r ∷ rs) =
      Keeps-bind _ _ (handle_slot-Keeps env a i r) (λ _. handle_slots-Keeps env a (suc i) rs)
