-- ===== src/Examples.antt =====
-- Concrete servers, clients and messages on which the theorems are tried.
pub mod Parsing
pub mod Commands
pub mod Channels
pub mod Running
pub mod Serving
pub mod Seats
pub mod Laws
use ft_irc_refactor.Server.Loop.{Poll}
use ft_irc_refactor.Base.{
  List, arith, ℕ, ◌≡◌, ◌≤◌, refl, some, none, true, false, [], ◌∷◌, ◌++◌, Option, Str, codes, crlf,
  length, find, ℕ_key,
}
use ft_irc_refactor.Channel.{Ptr, Channel}
use ft_irc_refactor.Client.{Client}
use ft_irc_refactor.Server.State.{Env, Server, sent}
use ft_irc_refactor.Server.Objects.{Owned, object_at, fd_of}
use ft_irc_refactor.Server.Objects.Teardown.{add_client-Owned}
use ft_irc_refactor.Server.Teardown.{add_client}
use ft_irc_refactor.Cmd.Context.{Cmd}

-- A kernel that takes all bytes.
abbrev pub willing : Env
willing = record {
  send = λ n fd bytes. sent (length bytes);
  motd = none;
  format_date = λ n. codes "today";
}

-- A server that listens on descriptor 3.
abbrev pub idle : Server
idle = record {
  fd = 3;
  password = codes "secret";
  start_time = 0;
  fds = record { fd = some 3; pollout = false } ∷ [];
  clients = [];
  channels = [];
  nick_name_client_map = [];
  to_remove = [];
  heap = [];
  next_ptr = 0;
  now = 0;
  sends = 0;
  wire = [];
}

pub idle-Owned : Owned idle
unfolding find
idle-Owned = record { owned = λ fd p e. absurd (cc); fresh = λ q le. refl }

-- A client that has just connected on descriptor 4.
abbrev pub guest : Client
guest = record {
  fd = 4;
  recv_buffer = [];
  send_buffer = [];
  nickname = [];
  username = [];
  hostname = codes "host";
  realname = [];
  servername = [];
  last_ping_sent = 0;
  register_status = record { pass = false; nick = false; user = false; registered = false };
  prefix = [];
}

-- One that is registered as bob, with bytes on the way.
abbrev pub bob : Client
bob = record guest {
  nickname = codes "bob";
  send_buffer = codes "abc";
  recv_buffer = codes "PING a" ++ crlf ++ codes "PI";
  register_status = record { pass = true; nick = true; user = true; registered = true };
}

abbrev pub holding : Client → Server
holding c = record idle { clients = (4, 0) ∷ []; heap = (0, c) ∷ []; next_ptr = 1 }

pub holding-Owned : (c : Client) → c.fd ≡ 4 → Owned (holding c)
unfolding find
holding-Owned c e = record { owned = λ fd p h. ground arith; fresh = λ q h. ground arith }

abbrev pub message : (cmd cmd_params : Str) → Cmd
message cmd cmd_params = record {
  client_fd = 4;
  client = some 0;
  msg = cmd ++ codes " " ++ cmd_params;
  cmd = cmd;
  cmd_params = cmd_params;
}

-- A connection, then a password and an attempt to join, then the end of the connection.
abbrev pub arrival : Poll
arrival =
    Poll.ready (record { peer = some (4, codes "host"); nonblocking = true })
      (some (record { pollin = true; pollout = false; broken = false; received = none }) ∷ [])

abbrev bytes : Option Str → Poll
bytes received =
    Poll.ready (record { peer = none; nonblocking = true })
      (none
        ∷ some (record { pollin = true; pollout = false; broken = false; received = received })
        ∷ [])

abbrev pub session : List (ℕ × Poll)
session =
    (1, arrival)
    ∷ (2, bytes (some (codes "PASS secret" ++ crlf ++ codes "JOIN #a" ++ crlf)))
    ∷ (3, bytes none)
    ∷ []
