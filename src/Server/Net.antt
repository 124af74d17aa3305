-- ===== src/Server/Net.antt =====
-- src/Server.cpp: client lookup, marking for removal, and the sending of messages.
use ft_irc_refactor.Base.{
  inl, inr, Bool-cases, ℕ, suc, Bool, true, false, not, ◌||◌, List, [], ◌∷◌, ◌++◌, Option, none,
  some, Str, codes, crlf, Map, ℕ_key, str_key, find, mem, insert, assign, erase, str_eq, ◌==◌, ltb,
  length, drop, take, if◌then◌else◌, is_some, is_empty,
}
use ft_irc_refactor.Client.{Client, append_to_send_buffer, clear_send_buffer}
use ft_irc_refactor.Channel.{Ptr, Channel, new_channel, set_key, set_mode}
use ft_irc_refactor.Server.State.{
  SendResult, sent, again, gone, failed, Env, PollFd, Server, Outcome, Action, pure, ◌>>=◌, ◌>>◌,
  get, modify, when, for_each, deref, update_client, ask,
}

abbrev pub server_name : Str
server_name = codes "ircserv"

abbrev pub prefix_server : Str
prefix_server = codes ":ircserv"

unfoldable pub make_msg : (prefix msg : Str) → Str
make_msg prefix msg = prefix ++ codes " " ++ msg ++ crlf

-- getClient(int): `none` is NULL.
abbrev pub get_client : ℕ → Server → Option Ptr
get_client fd s = find fd s.clients

-- getClient(const std::string&): the first client, by descriptor, that has the nickname.
unfoldable pub find_nickname : Map Ptr Client → Str → Map ℕ Ptr → Outcome (Option Ptr)
find_nickname heap nick [] = Outcome.ok none
find_nickname heap nick ((fd, p) ∷ rest) = elim (find p heap) [
  | none ↦ Outcome.fault
  | some c ↦ if str_eq c.nickname nick then Outcome.ok (some p) else find_nickname heap nick rest
]

unfoldable pub get_client_by_nickname : Str → Action (Option Ptr)
get_client_by_nickname nick = ask (λ s. find_nickname s.heap nick s.clients)

abbrev pub is_fd : ℕ → Option ℕ → Bool
is_fd fd none = false
is_fd fd (some n) = n == fd

-- The loops over `_fds` that change the first slot of a descriptor and break.
unfoldable pub update_slot : ℕ → (PollFd → PollFd) → List PollFd → List PollFd
update_slot fd f [] = []
update_slot fd f (p ∷ ps) = if is_fd fd p.fd then f p ∷ ps else p ∷ update_slot fd f ps

unfoldable pub enable_poll_out_event : ℕ → Server → Server
unfolding update_slot
enable_poll_out_event fd s = record s {
  fds = update_slot fd (λ p. record p { pollout = true }) s.fds;
}

unfoldable pub disable_poll_out_event : ℕ → Server → Server
unfolding update_slot
disable_poll_out_event fd s = record s {
  fds = update_slot fd (λ p. record p { pollout = false }) s.fds;
}

unfoldable pub is_marked_for_removal : ℕ → Server → Bool
is_marked_for_removal fd s = mem fd s.to_remove

-- Marks the descriptor, and takes its slot out of the poll set.
unfoldable pub mark_client_for_removal : ℕ → Server → Server
unfolding update_slot
mark_client_for_removal fd s =
    if not (is_some (get_client fd s)) || mem fd s.to_remove then s else record s {
      to_remove = insert fd tt s.to_remove;
      fds = update_slot fd (λ p. record p { fd = none }) s.fds;
    }

-- A property of the state after a mark, from the state before it and the one it may lead to.
pub mark_client_for_removal_cases :
    (P : Server → Type 0) (fd : ℕ) (s : Server)
    → P s
    → P (record s {
      to_remove = insert fd tt s.to_remove;
      fds = update_slot fd (λ p. record p { fd = none }) s.fds;
    })
    → P (mark_client_for_removal fd s)
unfolding mark_client_for_removal
mark_client_for_removal_cases P fd s same marked =
    elim (Bool-cases (not (is_some (get_client fd s)) || mem fd s.to_remove)) [
      | inl e ↦ rw e same
      | inr e ↦ rw e marked
    ]

-- One call of `send`: the kernel takes a prefix of the bytes, or none of them.
unfoldable pub send : Env → ℕ → Str → Action SendResult
send env fd bytes = do
  s ← get
  let result = env.send s.sends fd bytes
  modify (λ s. record s {
    sends = suc s.sends;
    wire = elim result [ sent n ↦ (fd, take n bytes) ∷ s.wire | _ ↦ s.wire ];
  })
  pure result

-- What castMsg does with the result of its send.
unfoldable pub after_send : ℕ → Ptr → (msg tosend : Str) → SendResult → Action (Unit {0})
after_send fd p msg tosend (sent n) =
    if ltb n (length msg)
    then (do
      update_client p (append_to_send_buffer (drop n tosend))
      modify (enable_poll_out_event fd))
    else update_client p (clear_send_buffer n)
after_send fd p msg tosend again = do
  update_client p (append_to_send_buffer msg)
  modify (enable_poll_out_event fd)
after_send fd p msg tosend gone = modify (mark_client_for_removal fd)
after_send fd p msg tosend failed = pure tt

unfoldable pub cast_to : Env → ℕ → Str → Option Ptr → Action (Unit {0})
cast_to env fd msg none = pure tt
cast_to env fd msg (some p) = do
  client ← deref p
  let tosend = client.send_buffer ++ msg
  result ← send env fd tosend
  after_send fd p msg tosend result

unfoldable pub cast_msg : Env → ℕ → Str → Action (Unit {0})
cast_msg env fd msg = do s ← get; cast_to env fd msg (get_client fd s)

-- One receiver of a channel; `none` is senderFd -1.
unfoldable pub cast_participant : Env → Str → Option ℕ → Str × Ptr → Action (Unit {0})
cast_participant env message sender (nick, p) = do
  receiver ← deref p
  when (not (is_fd receiver.fd sender)) (cast_msg env receiver.fd message)

-- broadcastMsg to the participants of a channel.
unfoldable pub broadcast_channel : Env → Str → Channel → Option ℕ → Action (Unit {0})
broadcast_channel env message channel sender =
    for_each channel.participant (cast_participant env message sender)

-- broadcastMsg with no channel: to every client of the server.
unfoldable pub broadcast_all : Env → Str → Action (Unit {0})
broadcast_all env message = do s ← get; for_each s.clients (λ entry. cast_msg env entry.0 message)

unfoldable pub remove_channel : Str → Server → Server
remove_channel name s = record s { channels = erase name s.channels }

unfoldable pub add_client_by_nickname : Str → Ptr → Server → Server
add_client_by_nickname nick p s = record s {
  nick_name_client_map = assign nick p s.nick_name_client_map;
}

unfoldable pub set_mode_unless_nul : Option ℕ → Channel → Channel
unfolding set_mode
set_mode_unless_nul none ch = ch
set_mode_unless_nul (some m) ch = set_mode m ch

-- `mode` is `none` for '\0'.
unfoldable pub set_channels : (name key : Str) → Option ℕ → Server → Server
unfolding new_channel set_key set_mode_unless_nul
set_channels name key mode s =
    let keyed = if is_empty key then new_channel name else set_key key (new_channel name) in
    record s { channels = assign name (set_mode_unless_nul mode keyed) s.channels }

unfoldable pub update_clients : Ptr → ℕ → Server → Server
update_clients p fd s = record s { clients = assign fd p (erase fd s.clients) }

unfoldable pub update_nick_name_client_map : (old_nick new_nick : Str) → Ptr → Server → Server
update_nick_name_client_map old_nick new_nick p s = record s {
  nick_name_client_map = assign new_nick p (erase old_nick s.nick_name_client_map);
}
