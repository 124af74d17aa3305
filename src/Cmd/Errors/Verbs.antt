-- ===== src/Cmd/Errors/Verbs.antt =====
-- Exceptions at Cmd::handleClientCmd (src/Cmd/Cmd.cpp).
use ft_irc_refactor.Cmd.Errors.Modes.{cmd_mode-Atomic}
use ft_irc_refactor.Cmd.Errors.{sending}
use ft_irc_refactor.Server.Effects.{Throws-caught, Never, Atomic-Never, Throws, Atomic}
use ft_irc_refactor.Server.State.{ok, fault, throw, Outcome, Server, Env}
use ft_irc_refactor.Base.{◌≡◌, Bool, true, false, Str}
use ft_irc_refactor.Cmd.Context.{Cmd}
use ft_irc_refactor.Cmd.Dispatch.{
  Verb, cap, nick, pass, user, ping, join, part, privmsg, kick, invite, mode, topic, quit, unknown,
  run_verb, handle_client_cmd, on_exception, caught,
}
use ft_irc_refactor.Cmd.Errors.Handlers.{
  cmd_unknown-Never, cmd_quit-Never, cmd_topic-Atomic, cmd_invite-Atomic, cmd_kick-Atomic,
  cmd_part-Atomic, cmd_ping-Atomic, cmd_pass-Atomic, cmd_nick-Atomic, cmd_cap-Never,
}

-- The handlers that may have changed something where they throw: JOIN has made the channel or
-- entered others, USER has set the user name, PRIVMSG has sent an explanation.
unfoldable pub is_partial : Verb → Bool
is_partial join = true
is_partial user = true
is_partial privmsg = true
is_partial _ = false

verb-Atomic : (env : Env) (v : Verb) (c : Cmd) → is_partial v ≡ false → Atomic (run_verb env v c)
unfolding run_verb is_partial
verb-Atomic env cap c h = Atomic-Never _ (cmd_cap-Never env c)
verb-Atomic env nick c h = cmd_nick-Atomic env c
verb-Atomic env pass c h = cmd_pass-Atomic c
verb-Atomic env user c h = absurd (cc)
verb-Atomic env ping c h = cmd_ping-Atomic env c
verb-Atomic env join c h = absurd (cc)
verb-Atomic env part c h = cmd_part-Atomic env c
verb-Atomic env privmsg c h = absurd (cc)
verb-Atomic env kick c h = cmd_kick-Atomic env c
verb-Atomic env invite c h = cmd_invite-Atomic env c
verb-Atomic env mode c h = cmd_mode-Atomic env c
verb-Atomic env topic c h = cmd_topic-Atomic env c
verb-Atomic env quit c h = Atomic-Never _ (cmd_quit-Never c)
verb-Atomic env unknown c h = Atomic-Never _ (cmd_unknown-Never env c)

-- Where the handler of CAP, NICK, PASS, PING, PART, KICK, INVITE, MODE, TOPIC, QUIT or an unknown
-- command throws, the whole state of the server is what it was before the command.
pub run_verb-unchanged :
    (env : Env) (v : Verb) (c : Cmd) (s : Server) (e : Str)
    → is_partial v ≡ false
    → (run_verb env v c s).0 ≡ throw e
    → (run_verb env v c s).1 ≡ s
run_verb-unchanged env v c s e h x = (verb-Atomic env v c h).unchanged s e x

caught-Never : (env : Env) (c : Cmd) (o : Outcome (Unit {0})) → Throws Never (caught env c o)
unfolding on_exception
caught-Never env c (ok _) = search sending
caught-Never env c (throw e) = search sending depth 12
caught-Never env c fault = search sending

-- No exception leaves handleClientCmd.
pub handle_client_cmd-Never : (env : Env) (c : Cmd) → Throws Never (handle_client_cmd env c)
unfolding handle_client_cmd
handle_client_cmd-Never env c = Throws-caught _ _ (caught-Never env c)
