-- ===== src/Server/Legacy.antt =====
-- src/Server.cpp: handleSocketRead and handleSocketWrite, which processClientRead and
-- processClientWrite have replaced; nothing calls them.
use ft_irc_refactor.Cmd.Dispatch.{make_cmd, handle_client_cmd}
use ft_irc_refactor.Server.Teardown.{remove_client_from_server}
use ft_irc_refactor.Client.{extract_message, clear_send_buffer, append_to_recv_buffer}
use ft_irc_refactor.Server.Net.{disable_poll_out_event, get_client, send}
use ft_irc_refactor.Channel.{Ptr}
use ft_irc_refactor.Base.{
  is_empty, c_str, zero, suc, ℕ, not, Option, none, some, Str, is_some, ℕ_key, str_key,
  if◌then◌else◌, length,
}
use ft_irc_refactor.Server.State.{
  modify, when, deref, update_client, get, pure, SendResult, Action, Env, sent, again, gone, failed,
  ◌>>=◌, ◌>>◌,
}

-- `while (getClient(fd) && client->extractMessage(str))`, on fuel. No mark ends it.
unfoldable pub socket_read_loop : Env → ℕ → (fd : ℕ) → Ptr → Action (Unit {0})
socket_read_loop env zero fd p = pure tt
socket_read_loop env (suc fuel) fd p = do
  s ← get
  if not (is_some (get_client fd s)) then pure tt else (do
    client ← deref p
    elim (extract_message client) [
      | none ↦ pure tt
      | some (msg, client') ↦ do
        update_client p (λ _. client')
        t ← get
        alive ← handle_client_cmd env (make_cmd msg fd (get_client fd t))
        when alive (socket_read_loop env fuel fd p)
    ])

unfoldable pub socket_read_chunk : Env → (fd : ℕ) → Ptr → Option Str → Action (Unit {0})
socket_read_chunk env fd p none = pure tt
socket_read_chunk env fd p (some chunk) = do
  update_client p (append_to_recv_buffer (c_str chunk))
  client ← deref p
  socket_read_loop env (suc (length client.recv_buffer)) fd p

unfoldable pub handle_socket_read : Env → (fd : ℕ) → Option Str → Action (Unit {0})
handle_socket_read env fd chunk = do
  s ← get
  elim (get_client fd s) [ none ↦ pure tt | some p ↦ socket_read_chunk env fd p chunk ]

-- What follows the send: an error deletes the client.
unfoldable pub after_socket_write : Ptr → SendResult → Action (Unit {0})
after_socket_write p (sent n) = update_client p (clear_send_buffer n)
after_socket_write p again = pure tt
after_socket_write p gone = remove_client_from_server (some p)
after_socket_write p failed = remove_client_from_server (some p)

-- The reference `sendBuffer` is read again behind the removal.
unfoldable pub handle_socket_write : Env → (fd : ℕ) → Action (Unit {0})
handle_socket_write env fd = do
  s ← get
  elim (get_client fd s) [
    | none ↦ pure tt
    | some p ↦ do
      client ← deref p
      when (not (is_empty client.send_buffer))
          (do result ← send env fd client.send_buffer; after_socket_write p result)
      after ← deref p
      when (is_empty after.send_buffer) (modify (disable_poll_out_event fd))
  ]
