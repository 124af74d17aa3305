-- ===== src/Server/Members/Messages.antt =====
-- The participants over messages (handleClientCmd, src/Cmd/Cmd.cpp).
use ft_irc_refactor.Cmd.Frame.Message.{message-Keeps}
use ft_irc_refactor.Cmd.Dispatch.{handle_client_cmd}
use ft_irc_refactor.Cmd.Context.{Cmd}
use ft_irc_refactor.Base.{ℕ_key, str_key}
use ft_irc_refactor.Server.State.{Server, Env}
use ft_irc_refactor.Server.Members.{Seated, quiet}
use ft_irc_refactor.Server.Members.Renaming.{seated-Moves}

-- Whatever a client sends: after the message each participant of each channel is a living client
-- that is registered and has the nickname it stands under, no nickname stands twice in a channel,
-- each living client stands in `_clients` under its descriptor, and no two of them have the same
-- nickname, but for those that have none yet, if this was so before.
pub handle_client_cmd-Seated :
    (env : Env) (c : Cmd) (s : Server) → Seated s → Seated (handle_client_cmd env c s).1
handle_client_cmd-Seated env c s h = (message-Keeps quiet env c (seated-Moves c.client)).at s h
