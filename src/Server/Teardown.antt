-- ===== src/Server/Teardown.antt =====
-- src/Server.cpp: new clients, and the end of those that are marked.
use ft_irc_refactor.Base.{
  ℕ, suc, ◌+◌, ◌-◌, Bool, false, ◌||◌, List, [], ◌∷◌, ◌++◌, Option, none, some, Str, codes, map,
  mem, assign, erase, ltb, leb, length, is_empty, if◌then◌else◌, filter_by, is_some, ℕ_key, str_key,
}
use ft_irc_refactor.Client.{Client, new_client}
use ft_irc_refactor.Channel.{
  Ptr, Channel, is_participant, is_operator, remove_participant, remove_operator,
}
use ft_irc_refactor.Server.State.{
  Server, Action, pure, raise, get, modify, for_each, deref, ◌>>=◌, ◌>>◌,
}
use ft_irc_refactor.Server.Net.{get_client, mark_client_for_removal, update_slot}

abbrev pub max_clients : ℕ
max_clients = 20

abbrev pub wait_for_ping_max : ℕ
wait_for_ping_max = 250

-- What `accept` and `fcntl` gave: a descriptor with the peer's address, or -1; and whether the
-- descriptor could be made non-blocking.
pub record Accepted : Type 0 where
  pub peer : Option (ℕ × Str)
  pub nonblocking : Bool

abbrev pub err_socket_creation : Str
err_socket_creation = codes "socket creation error."

abbrev pub err_accept_client : Str
err_accept_client = codes "client acceptance error."

abbrev pub err_client_nonblocking : Str
err_client_nonblocking = codes "failed to set client socket to non-blocking mode."

-- The new slot, the new object and its entry in `_clients`.
unfoldable pub add_client : (fd : ℕ) (host : Str) → Server → Server
unfolding new_client
add_client fd host s = record s {
  fds = s.fds ++ record { fd = some fd; pollout = false } ∷ [];
  heap = assign s.next_ptr (new_client fd host s.now) s.heap;
  next_ptr = suc s.next_ptr;
  clients = assign fd s.next_ptr s.clients;
}

-- `_fds.size() - 1 >= MAX_CLIENTS`, where the difference wraps if there is no slot at all.
abbrev pub is_full : Server → Bool
is_full s = is_empty s.fds || leb max_clients (length s.fds - 1)

unfoldable pub accept_peer : (nonblocking : Bool) → Option (ℕ × Str) → Action (Unit {0})
accept_peer nonblocking none = raise err_socket_creation
accept_peer nonblocking (some (fd, host)) = do
  s ← get
  if is_full s
      then raise err_accept_client
      else (if nonblocking then modify (add_client fd host) else raise err_client_nonblocking)

unfoldable pub accept_client : Accepted → Action (Unit {0})
accept_client a = accept_peer a.nonblocking a.peer

-- A channel, when a client with the nickname goes.
unfoldable pub leave : (nick : Str) → Channel → Channel
unfolding remove_participant remove_operator
leave nick ch =
    let left = if is_participant nick ch then remove_participant nick ch else ch in
    if is_operator nick left then remove_operator nick left else left

-- The state that removeClientFromServer leaves, for the object `client` at `p`. `delete` ends it.
unfoldable pub forget_client : Ptr → Client → Server → Server
unfolding leave update_slot
forget_client p client s = record s {
  channels = map (λ entry. (entry.0, leave client.nickname entry.1)) s.channels;
  clients = if mem client.fd s.clients then erase client.fd s.clients else s.clients;
  nick_name_client_map = erase client.nickname s.nick_name_client_map;
  fds = update_slot client.fd (λ slot. record slot { fd = none }) s.fds;
  heap = erase p s.heap;
}

unfoldable pub remove_client_from_server : Option Ptr → Action (Unit {0})
remove_client_from_server none = pure tt
remove_client_from_server (some p) = do client ← deref p; modify (forget_client p client)

unfoldable pub teardown : ℕ × Unit {0} → Action (Unit {0})
teardown (fd, _) = do s ← get; remove_client_from_server (get_client fd s)

-- The loops over `_toRemove`, and over `_fds`, whose slots of descriptor -1 go.
unfoldable pub cleanup_marked_clients : Action (Unit {0})
cleanup_marked_clients = do
  s ← get
  for_each s.to_remove teardown
  modify (λ t. record t { to_remove = []; fds = filter_by (λ slot. is_some slot.fd) t.fds })

-- The first loop of checkPingTimeOut: the clients that have been silent for too long.
unfoldable pub silent_clients : List (ℕ × Ptr) → Action (List Client)
silent_clients [] = pure []
silent_clients ((fd, p) ∷ rest) = do
  s ← get
  client ← deref p
  others ← silent_clients rest
  pure (if ltb (client.last_ping_sent + wait_for_ping_max) s.now then client ∷ others else others)

unfoldable pub check_ping_time_out : Action (Unit {0})
check_ping_time_out = do
  s ← get
  clients_to_remove ← silent_clients s.clients
  for_each clients_to_remove (λ client. modify (mark_client_for_removal client.fd))
