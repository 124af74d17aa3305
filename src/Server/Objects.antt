-- ===== src/Server/Objects.antt =====
-- The client objects of the server (src/Server.cpp): which are alive, which descriptor and which
-- receive buffer they have, and which of them `_clients` holds.
pub mod Messages
pub mod Teardown
pub mod Reading
pub mod Run
pub mod Removal
use mathlib.Core.Option
use ft_irc_refactor.Base.{ℕ, ◌≤◌, ◌≡◌, Bool, true, false, Option, none, some, Str, Map, find, ℕ_key}
use ft_irc_refactor.Client.{Client}
use ft_irc_refactor.Channel.{Ptr}
use ft_irc_refactor.Server.State.{Server}

-- What is fixed about an object: its descriptor, and the bytes that it has received.
abbrev pub Held : Type 0
Held = ℕ × Str

abbrev pub held : Client → Held
held c = (c.fd, c.recv_buffer)

-- What the address holds, if an object is alive there.
abbrev pub object_at : Ptr → Server → Option Held
object_at p s = Option.map held (find p s.heap)

abbrev pub fd_of : Option Held → Option ℕ
fd_of none = none
fd_of (some h) = some h.0

-- `_clients` holds no dangling pointer, and each object under its own descriptor; no object stands
-- at an address that is yet to be given out.
pub record Owned (s : Server) : Type 0 where
  pub owned : (fd : ℕ) (p : Ptr) → find fd s.clients ≡ some p → fd_of (object_at p s) ≡ some fd
  pub fresh : (q : Ptr) → s.next_ptr ≤ q → object_at q s ≡ none
