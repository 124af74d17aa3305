-- ===== src/Client.antt =====
-- include/Client.hpp and src/Client.cpp: one connection, with its buffers and registration state.
pub mod Extract
pub mod Stream
use ft_irc_refactor.Base.{
  ℕ, suc, ◌+◌, Bool, true, false, List, [], ◌∷◌, ◌++◌, Option, none, some, Str, codes, crlf, take,
  drop, length, is_empty, not, ltb, if◌then◌else◌, find_char, find_crlf,
}

-- t_regitser
pub record Register : Type 0 where
  pub pass : Bool
  pub nick : Bool
  pub user : Bool
  pub registered : Bool

pub record Client : Type 0 where
  pub fd : ℕ
  pub recv_buffer : Str
  pub send_buffer : Str
  pub nickname : Str
  pub username : Str
  pub hostname : Str
  pub realname : Str
  pub servername : Str
  pub last_ping_sent : ℕ
  pub register_status : Register
  pub open register_status use *
  pub prefix : Str

-- `Client(in_addr)` followed by `setFd`; `host` is what inet_ntoa returned, `now` what time did.
unfoldable pub new_client : (fd : ℕ) (host : Str) (now : ℕ) → Client
new_client fd host now = record {
  fd = fd;
  recv_buffer = [];
  send_buffer = [];
  nickname = [];
  username = [];
  hostname = host;
  realname = [];
  servername = [];
  last_ping_sent = now;
  register_status = record { pass = false; nick = false; user = false; registered = false };
  prefix = [];
}

-- The nickname ends at the first space.
unfoldable pub set_nickname : Str → Client → Client
unfolding find_char
set_nickname str c = record c {
  nickname = elim (find_char 32 str) [ none ↦ str | some pos ↦ take pos str ];
}

unfoldable pub set_username : Str → Client → Client
set_username str c = record c { username = str }

unfoldable pub set_realname : Str → Client → Client
set_realname str c = record c { realname = str }

unfoldable pub set_servername : Str → Client → Client
set_servername str c = record c { servername = str }

unfoldable pub update_last_ping_sent : ℕ → Client → Client
update_last_ping_sent now c = record c { last_ping_sent = now }

unfoldable pub set_pass_status : Bool → Client → Client
set_pass_status b c = record c { register_status = record (c.register_status) { pass = b } }

unfoldable pub set_nick_status : Bool → Client → Client
set_nick_status b c = record c { register_status = record (c.register_status) { nick = b } }

unfoldable pub set_user_status : Bool → Client → Client
set_user_status b c = record c { register_status = record (c.register_status) { user = b } }

unfoldable pub set_registered_status : Bool → Client → Client
set_registered_status b c = record c {
  register_status = record (c.register_status) { registered = b };
}

-- PREFIX_USER(nickname, username, hostname)
unfoldable pub prefix_user : Str → Str → Str → Str
prefix_user nickname username hostname =
    codes ":" ++ nickname ++ codes "!" ++ username ++ codes "@" ++ hostname

unfoldable pub set_prefix : Client → Client
set_prefix c = record c { prefix = prefix_user c.nickname c.username c.hostname }

unfoldable pub append_to_recv_buffer : Str → Client → Client
append_to_recv_buffer str c = record c { recv_buffer = c.recv_buffer ++ str }

-- The body of extractMessage on the receive buffer: the message and what stays in the buffer.
unfoldable pub extract : Str → Option (Str × Str)
extract buffer = elim (find_crlf buffer) [
  | some pos ↦
      if ltb 512 (pos + 2)
      then some (take 510 buffer, drop 510 buffer)
      else some (take pos buffer, drop (pos + 2) buffer)
  | none ↦ if ltb (length buffer) 512 then none else some (take 510 buffer, drop 510 buffer)
]

-- `none` is the result false.
unfoldable pub extract_message : Client → Option (Str × Client)
extract_message c = elim (extract c.recv_buffer) [
  | none ↦ none
  | some (message, rest) ↦ some (message, record c { recv_buffer = rest })
]

unfoldable pub append_to_send_buffer : Str → Client → Client
append_to_send_buffer str c = record c { send_buffer = c.send_buffer ++ str }

unfoldable pub clear_send_buffer : ℕ → Client → Client
clear_send_buffer count c = record c { send_buffer = drop count c.send_buffer }

unfoldable pub has_data_to_send : Client → Bool
has_data_to_send c = not (is_empty c.send_buffer)
