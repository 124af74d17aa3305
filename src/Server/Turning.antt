-- ===== src/Server/Turning.antt =====
-- The frame of the event loop (run, src/Server.cpp): the changes of the state that its turns are
-- made of, as the conditions that an invariant of the loop has to meet.
pub mod Messages
pub mod Clients
pub mod Run
pub mod Cleanup
use ft_irc_refactor.Base.{
  subst, false, true, zero, suc, ℕ, ◌≡◌, refl, inl, inr, Bool, not, ◌||◌, List, [], ◌∷◌, Option,
  none, some, Str, is_some, find, assign, ℕ_key, Option-cases, Bool-cases, ap, if◌then◌else◌,
}
use ft_irc_refactor.Channel.{Ptr}
use ft_irc_refactor.Client.{
  clear_send_buffer, append_to_recv_buffer, Client, extract, extract_message,
}
use ft_irc_refactor.Server.State.{
  put, ok, throw, fault, sent, again, gone, failed, SendResult, Env, Server, Outcome, Action, pure,
  update_client, ◌>>=◌, ◌>>◌, deref, modify,
}
use ft_irc_refactor.Server.Keeps.{
  Keeps-option, Keeps-pure, Keeps-attempt, Keeps-if, Keeps-bind, Keeps, Keeps-modify, Keeps-ask,
  keeps_rules,
}
use ft_irc_refactor.Server.Net.{
  get_client, mark_client_for_removal, disable_poll_out_event, is_marked_for_removal, send,
}
use ft_irc_refactor.Server.Teardown.{
  Accepted, add_client, accept_client, accept_peer, is_full, silent_clients, check_ping_time_out,
  cleanup_marked_clients,
}
use ft_irc_refactor.Server.Loop.{
  goes_on, succeeds, logged, Poll, Revents, handle_message, read_slot, mark, read_loop,
  process_server_event, process_client_read, read_chunk, process_client_write, handle_read,
  after_write, write_buffer, handle_write, handle_client_slot, handle_slot, handle_slots,
  handle_poll, turn, turn_caught, run,
}
use ft_irc_refactor.Cmd.Context.{Cmd}
use ft_irc_refactor.Cmd.Dispatch.{make_cmd, handle_client_cmd}

-- All but the buffers is the same.
abbrev pub SameButBuffers : Client → Client → Type 0
SameButBuffers c d = d ≡ record c { recv_buffer = d.recv_buffer; send_buffer = d.send_buffer }

-- What an invariant has to survive where the clients are served in a turn.
pub record Reads (P : Server → Type 0) : Type 0 where
  pub mark : (fd : ℕ) (s : Server) → P s → P (mark_client_for_removal fd s)
  pub disable : (fd : ℕ) (s : Server) → P s → P (disable_poll_out_event fd s)
  pub output :
      (s : Server) (n : ℕ) (w : List (ℕ × Str)) → P s → P (record s { sends = n; wire = w })
  pub buffers :
      (p : Ptr) (c d : Client) (s : Server)
      → find p s.heap ≡ some c
      → SameButBuffers c d
      → P s
      → P (put p d s)
  pub message : (env : Env) (c : Cmd) → Keeps P (handle_client_cmd env c)

-- And where one is accepted.
pub record Slots (P : Server → Type 0) : Type 0 where
  pub reads : Reads P
  pub accept :
      (fd : ℕ) (host : Str) (s : Server) → is_full s ≡ false → P s → P (add_client fd host s)

-- And at the two ends of a turn.
pub record Turns (P : Server → Type 0) : Type 0 where
  pub slots : Slots P
  pub tick : (now : ℕ) (s : Server) → P s → P (record s { now = now })
  pub cleanup : Keeps P cleanup_marked_clients
