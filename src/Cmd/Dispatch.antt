-- ===== src/Cmd/Dispatch.antt =====
-- Cmd::handleClientCmd (src/Cmd/Cmd.cpp).
use ft_irc_refactor.Base.{
  ℕ, Bool, true, false, not, ◌||◌, Option, Str, codes, str_eq, c_str, if◌then◌else◌,
}
use ft_irc_refactor.Channel.{Ptr}
use ft_irc_refactor.Server.State.{
  Env, Outcome, ok, throw, fault, Action, pure, undefined, modify, ◌>>=◌, ◌>>◌, attempt,
}
use ft_irc_refactor.Server.Net.{cast_msg, mark_client_for_removal}
use ft_irc_refactor.Cmd.Context.{Cmd, self, reply}
use ft_irc_refactor.Cmd.Split.{extract_cmd, extract_cmd_params}
use ft_irc_refactor.Cmd.Register.{cmd_cap, cmd_pass, cmd_nick, cmd_user, cmd_ping, cmd_quit}
use ft_irc_refactor.Cmd.Join.{cmd_join}
use ft_irc_refactor.Cmd.Part.{cmd_part, cmd_kick}
use ft_irc_refactor.Cmd.Invite.{cmd_invite}
use ft_irc_refactor.Cmd.Topic.{cmd_topic}
use ft_irc_refactor.Cmd.Mode.{cmd_mode}
use ft_irc_refactor.Cmd.Privmsg.{cmd_privmsg}
use ft_irc_refactor.Reply

pub data Verb : Type 0 where
  cap nick pass user ping join part privmsg kick invite mode topic quit unknown : Verb

-- The comparisons of the if-chain, in its order.
unfoldable pub verb_of : Str → Verb
verb_of cmd =
    if str_eq cmd (codes "CAP")
    then cap
    else (if str_eq cmd (codes "NICK")
        then nick
        else (if str_eq cmd (codes "PASS")
            then pass
            else (if str_eq cmd (codes "USER")
                then user
                else (if str_eq cmd (codes "PING")
                    then ping
                    else (if str_eq cmd (codes "JOIN")
                        then join
                        else (if str_eq cmd (codes "PART")
                            then part
                            else (if str_eq cmd (codes "PRIVMSG")
                                then privmsg
                                else (if str_eq cmd (codes "KICK")
                                    then kick
                                    else (if str_eq cmd (codes "INVITE")
                                        then invite
                                        else (if str_eq cmd (codes "MODE")
                                            then mode
                                            else (if str_eq cmd (codes "TOPIC")
                                                then topic
                                                else (if str_eq cmd (codes "QUIT")
                                                    then quit
                                                    else unknown))))))))))))

unfoldable pub cmd_unknown : Env → Cmd → Action (Unit {0})
cmd_unknown env c = do me ← self c; reply env c (Reply.err_unknowncommand me.nickname c.cmd)

-- The body of the `try`.
unfoldable pub run_verb : Env → Verb → Cmd → Action (Unit {0})
run_verb env cap c = cmd_cap env c
run_verb env nick c = cmd_nick env c
run_verb env pass c = cmd_pass c
run_verb env user c = cmd_user env c
run_verb env ping c = cmd_ping env c
run_verb env join c = cmd_join env c
run_verb env part c = cmd_part env c
run_verb env privmsg c = cmd_privmsg env c
run_verb env kick c = cmd_kick env c
run_verb env invite c = cmd_invite env c
run_verb env mode c = cmd_mode env c
run_verb env topic c = cmd_topic env c
run_verb env quit c = cmd_quit c
run_verb env unknown c = cmd_unknown env c

-- The handler of a CmdException: the reply, and the end of a client that is not registered.
unfoldable pub on_exception : Env → Cmd → Str → Action Bool
on_exception env c what = do
  cast_msg env c.client_fd (c_str what)
  me ← self c
  if not me.pass || not me.registered
      then (do modify (mark_client_for_removal c.client_fd); pure false)
      else pure true

abbrev pub caught : Env → Cmd → Outcome (Unit {0}) → Action Bool
caught env c (ok _) = pure true
caught env c (throw what) = on_exception env c what
caught env c fault = undefined

-- The constructor of Cmd, and the two assignments that begin handleClientCmd.
unfoldable pub make_cmd : (msg : Str) → (client_fd : ℕ) → Option Ptr → Cmd
unfolding extract_cmd extract_cmd_params
make_cmd msg client_fd client = record {
  client_fd = client_fd;
  client = client;
  msg = msg;
  cmd = extract_cmd msg;
  cmd_params = extract_cmd_params msg (extract_cmd msg);
}

-- `none` is NULL. The result false says that the client is being removed.
unfoldable pub handle_client_cmd : Env → Cmd → Action Bool
handle_client_cmd env c = attempt (run_verb env (verb_of c.cmd) c) (caught env c)
