-- ===== src/Cmd/Frame/Message.antt =====
-- Cmd::handleClientCmd (src/Cmd/Cmd.cpp) inside a frame.
use ft_irc_refactor.Cmd.Part.{cmd_part, cmd_kick}
use ft_irc_refactor.Cmd.Join.{cmd_join}
use ft_irc_refactor.Cmd.Mode.{handle_flag_option, Sign}
use ft_irc_refactor.Cmd.Frame.{Plains, Names, Quiet, Moves, Frame}
use ft_irc_refactor.Client.{Client}
use ft_irc_refactor.Base.{refl, some, subst, ◌≡◌, List, ℕ, Str, str_key}
use ft_irc_refactor.Cmd.Frame.Members.{leave_channel-Keeps, cmd_part-Keeps, cmd_kick-Keeps}
use ft_irc_refactor.Cmd.Frame.Rooms.{plain-Keeps, seats-Keeps}
use ft_irc_refactor.Cmd.Frame.Mode.{handle_flag_option-Keeps, cmd_mode-Keeps}
use ft_irc_refactor.Cmd.Frame.Joining.{cmd_join-Keeps}
use ft_irc_refactor.Cmd.Frame.Join.{joined-Keeps}
use ft_irc_refactor.Cmd.Frame.Edits.{frame-Moves}
use ft_irc_refactor.Cmd.Frame.Nick.{cmd_nick-Keeps}
use ft_irc_refactor.Channel.{Ptr}
use ft_irc_refactor.Server.State.{attempt, Env, Server, Outcome, ok, throw, fault}
use ft_irc_refactor.Server.Keeps.{Keeps}
use ft_irc_refactor.Cmd.Context.{Cmd}
use ft_irc_refactor.Cmd.Dispatch.{
  verb_of, handle_client_cmd, run_verb, on_exception, Verb, cap, nick, pass, user, ping, join, part,
  privmsg, kick, invite, mode, topic, quit, unknown, cmd_unknown, caught,
}
use ft_irc_refactor.Cmd.Frame.Acts.{act, marks-Keeps}
use ft_irc_refactor.Cmd.Frame.Register.{
  cmd_cap-Keeps, cmd_pass-Keeps, cmd_user-Keeps, cmd_ping-Keeps, cmd_quit-Keeps,
}
use ft_irc_refactor.Cmd.Frame.Talk.{cmd_invite-Keeps, cmd_topic-Keeps, cmd_privmsg-Keeps}

module _ {P : Server → Type 0} (quiet : Quiet P) where
  pub cmd_unknown-Keeps : (env : Env) (c : Cmd) → Keeps P (cmd_unknown env c)
  unfolding cmd_unknown
  cmd_unknown-Keeps env c = search act

module _ {P : Server → Type 0} (quiet : Quiet P) (env : Env) (c : Cmd) where
  on_exception-Keeps : (what : Str) → Keeps P (on_exception env c what)
  unfolding on_exception
  on_exception-Keeps what = search (act, marks-Keeps) depth 10

  pub caught-Keeps : (o : Outcome (Unit {0})) → Keeps P (caught env c o)
  caught-Keeps (ok _) = search act
  caught-Keeps (throw what) = on_exception-Keeps what
  caught-Keeps fault = search act

-- What an invariant needs of the commands that change channels.
pub record Rooms (P : Server → Type 0) (env : Env) (c : Cmd) : Type 0 where
  pub join : Keeps P (cmd_join env c)
  pub part : Keeps P (cmd_part env c)
  pub plain : Plains P
  pub change :
      (d : Cmd) (me : Client) (sign : Sign) (name options : Str) (param : List Str)
      → Keeps P (handle_flag_option d me sign name options param)

module _ {P : Server → Type 0} (quiet : Quiet P) (env : Env) (c : Cmd)
    (names : (p : Ptr) → c.client ≡ some p → Names P p) (rooms : Rooms P env c) where
  -- KICK is left open.
  run_verb-at :
      (v : Verb) (s : Server) → P s → (v ≡ kick → P (cmd_kick env c s).1) → P (run_verb env v c s).1
  unfolding run_verb
  run_verb-at cap s h kicked = (cmd_cap-Keeps quiet env c).at s h
  run_verb-at nick s h kicked = (cmd_nick-Keeps quiet env c names).at s h
  run_verb-at pass s h kicked = (cmd_pass-Keeps quiet c).at s h
  run_verb-at user s h kicked = (cmd_user-Keeps quiet env c).at s h
  run_verb-at ping s h kicked = (cmd_ping-Keeps quiet env c).at s h
  run_verb-at join s h kicked = rooms.join.at s h
  run_verb-at part s h kicked = rooms.part.at s h
  run_verb-at privmsg s h kicked = (cmd_privmsg-Keeps quiet rooms.plain env c).at s h
  run_verb-at kick s h kicked = kicked refl
  run_verb-at invite s h kicked = (cmd_invite-Keeps quiet rooms.plain env c).at s h
  run_verb-at mode s h kicked = (cmd_mode-Keeps quiet rooms.change env c).at s h
  run_verb-at topic s h kicked = (cmd_topic-Keeps quiet rooms.plain env c).at s h
  run_verb-at quit s h kicked = (cmd_quit-Keeps quiet c).at s h
  run_verb-at unknown s h kicked = (cmd_unknown-Keeps quiet env c).at s h

  pub client_cmd-at :
      (s : Server)
      → P s
      → (verb_of c.cmd ≡ kick → P (cmd_kick env c s).1)
      → P (handle_client_cmd env c s).1
  unfolding handle_client_cmd attempt
  client_cmd-at s h kicked =
      (caught-Keeps quiet env c (run_verb env (verb_of c.cmd) c s).0).at _
        (run_verb-at (verb_of c.cmd) s h kicked)

  -- A message changes nothing but what the frame allows.
  pub client_cmd-Keeps : Keeps P (cmd_kick env c) → Keeps P (handle_client_cmd env c)
  client_cmd-Keeps kicks = record { at = λ s h. client_cmd-at s h (λ _. kicks.at s h) }

module _ {P : Server → Type 0} (quiet : Quiet P) (env : Env) (c : Cmd)
    (moves : Moves P c.client) where
  Moves-Rooms : Rooms P env c
  Moves-Rooms = record {
    join =
        cmd_join-Keeps quiet env c
          (λ d same name key. joined-Keeps quiet env d (subst (Moves P) same moves) name key);
    part = cmd_part-Keeps quiet (leave_channel-Keeps moves.channels) env c;
    plain = plain-Keeps (seats-Keeps moves.channels);
    change = handle_flag_option-Keeps quiet (seats-Keeps moves.channels);
  }

  -- The same for one that each change of the channels keeps.
  pub message-Keeps : Keeps P (handle_client_cmd env c)
  message-Keeps =
      client_cmd-Keeps quiet env c moves.names Moves-Rooms
        (cmd_kick-Keeps quiet (leave_channel-Keeps moves.channels) env c)

-- And for an invariant that needs no condition on nicknames and channels.
pub handle_client_cmd-Keeps :
    {P : Server → Type 0} {Known : Ptr → ℕ → Type 0}
    → Quiet P
    → Frame P Known
    → (env : Env) (c : Cmd) → Keeps P (handle_client_cmd env c)
handle_client_cmd-Keeps quiet frame env c = message-Keeps quiet env c (frame-Moves frame c.client)
