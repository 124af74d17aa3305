-- ===== src/Cmd/Frame/Talk.antt =====
-- INVITE, TOPIC, MODE and PRIVMSG (src/Cmd/) inside a frame.
use ft_irc_refactor.Base.{Bool, false, List, [], ◌∷◌, Str, str_key}
use ft_irc_refactor.Client.{Client}
use ft_irc_refactor.Channel.{Channel}
use ft_irc_refactor.Server.State.{Env, Server}
use ft_irc_refactor.Server.Keeps.{Keeps, Keeps-option}
use ft_irc_refactor.Cmd.Context.{Cmd}
use ft_irc_refactor.Cmd.Invite.{cmd_invite, invite, invite_params, check_invite, add_to_invited}
use ft_irc_refactor.Cmd.Topic.{cmd_topic, topic_of, topic_params, show_topic, change_topic}
use ft_irc_refactor.Cmd.Privmsg.{
  cmd_privmsg, read_targets, add_target, deliver, check_target, send_to, check_channel_target,
  check_user_target, send_to_channel, send_to_user, Targets,
}
use ft_irc_refactor.Cmd.Frame.{Quiet, Plains}
use ft_irc_refactor.Cmd.Frame.Acts.{act}
use ft_irc_refactor.Cmd.Frame.Seats.{add_invited-Plain, plain_changes}

module _ {P : Server → Type 0} (quiet : Quiet P) (plain : Plains P) where
  add_to_invited-Keeps :
      (target name : Str) (ns : List Str) → Keeps P (add_to_invited target name ns)
  unfolding add_to_invited
  add_to_invited-Keeps target name [] = plain _ _ (add_invited-Plain _)
  add_to_invited-Keeps target name (n ∷ ns) = search act

  check_invite-Keeps : (me : Client) (target ch : Str) → Keeps P (check_invite me target ch)
  unfolding check_invite
  check_invite-Keeps me target ch = search act depth 24

  invite-Keeps :
      (env : Env) (c : Cmd) (me : Client) (target ch : Str) → Keeps P (invite env c me target ch)
  unfolding invite
  invite-Keeps env c me target ch = search (act, check_invite-Keeps, add_to_invited-Keeps) depth 20

  invite_params-Keeps :
      (env : Env) (c : Cmd) (me : Client) (ts : List Str) → Keeps P (invite_params env c me ts)
  unfolding invite_params
  invite_params-Keeps env c me (target ∷ ch ∷ []) = invite-Keeps env c me target ch
  invite_params-Keeps env c me _ = search act

  pub cmd_invite-Keeps : (env : Env) (c : Cmd) → Keeps P (cmd_invite env c)
  unfolding cmd_invite
  cmd_invite-Keeps env c = search (act, invite_params-Keeps) depth 10

  show_topic-Keeps :
      (env : Env) (c : Cmd) (me : Client) (name : Str) (ch : Channel)
      → Keeps P (show_topic env c me name ch)
  unfolding show_topic
  show_topic-Keeps env c me name ch = search act depth 8

  change_topic-Keeps :
      (env : Env) (me : Client) (name topic : Str) (ch : Channel)
      → Keeps P (change_topic env me name topic ch)
  unfolding change_topic
  change_topic-Keeps env me name topic ch = search (act, plain, plain_changes) depth 12

  topic_of-Keeps :
      (env : Env) (c : Cmd) (me : Client) (name topic : Str)
      → Keeps P (topic_of env c me name topic)
  unfolding topic_of
  topic_of-Keeps env c me name topic = search (act, show_topic-Keeps, change_topic-Keeps) depth 20

  topic_params-Keeps :
      (env : Env) (c : Cmd) (me : Client) (ts : List Str) → Keeps P (topic_params env c me ts)
  unfolding topic_params
  topic_params-Keeps env c me [] = search act
  topic_params-Keeps env c me (name ∷ []) = topic_of-Keeps env c me name []
  topic_params-Keeps env c me (name ∷ topic ∷ rest) = topic_of-Keeps env c me name topic

  pub cmd_topic-Keeps : (env : Env) (c : Cmd) → Keeps P (cmd_topic env c)
  unfolding cmd_topic
  cmd_topic-Keeps env c = search (act, topic_params-Keeps) depth 10

  read_targets-Keeps :
      (env : Env) (c : Cmd) (me : Client) (b : Bool) (ts : List Str) (t : Targets)
      → Keeps P (read_targets env c me b ts t)
  unfolding read_targets
  read_targets-Keeps env c me b [] t = search act
  read_targets-Keeps env c me b (param ∷ params) t =
      Keeps-option (add_target b param t) _ (read_targets env c me false params) (search act)
        (read_targets-Keeps env c me false params)

  check_target-Keeps : (me : Client) (b : Bool) (r : Str) → Keeps P (check_target me b r)
  unfolding check_target check_channel_target check_user_target
  check_target-Keeps me b r = search act depth 10

  send_to-Keeps :
      (env : Env) (c : Cmd) (me : Client) (t : Targets) (r : Str) → Keeps P (send_to env c me t r)
  unfolding send_to send_to_channel send_to_user
  send_to-Keeps env c me t r = search act depth 14

  deliver-Keeps : (env : Env) (c : Cmd) (me : Client) (t : Targets) → Keeps P (deliver env c me t)
  unfolding deliver
  deliver-Keeps env c me t = search (act, check_target-Keeps, send_to-Keeps) depth 16

  pub cmd_privmsg-Keeps : (env : Env) (c : Cmd) → Keeps P (cmd_privmsg env c)
  unfolding cmd_privmsg
  cmd_privmsg-Keeps env c = search (act, read_targets-Keeps, deliver-Keeps) depth 12
