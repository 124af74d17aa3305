-- ===== src/Cmd/Context.antt =====
-- include/Cmd.hpp: what a handler knows of the message it handles, and the replies that it sends.
use ft_irc_refactor.Base.{ℕ, Bool, Option, Str, str_key}
use ft_irc_refactor.Client.{Client}
use ft_irc_refactor.Channel.{Ptr}
use ft_irc_refactor.Server.State.{Env, Action, raise, or_undefined, require, deref, ◌>>=◌}
use ft_irc_refactor.Server.Net.{prefix_server, make_msg, cast_msg}

-- The object that the constructor builds, with `cmd` and `cmdParams` filled in.
pub record Cmd : Type 0 where
  pub client_fd : ℕ
  pub client : Option Ptr
  pub msg : Str
  pub cmd : Str
  pub cmd_params : Str

-- `*client`
abbrev pub self : Cmd → Action Client
self c = do p ← or_undefined c.client; deref p

-- `throw CmdException(server.makeMsg(PREFIX_SERVER, text))`
abbrev pub refuse : {A : Type 0} → Str → Action A
refuse text = raise (make_msg prefix_server text)

-- The same behind an `if` that asks for the negation of the test.
abbrev pub demand : Bool → Str → Action (Unit {0})
demand b text = require b (make_msg prefix_server text)

-- `server.castMsg(client_fd, server.makeMsg(PREFIX_SERVER, text))`
unfoldable pub reply : Env → Cmd → Str → Action (Unit {0})
reply env c text = cast_msg env c.client_fd (make_msg prefix_server text)
