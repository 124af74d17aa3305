-- ===== src/Cmd/Topic.antt =====
-- TOPIC (src/Cmd/cmdTopic.cpp).
use ft_irc_refactor.Base.{
  not, ◌||◌, List, [], ◌∷◌, none, Str, codes, is_empty, mem, if◌then◌else◌, str_key,
}
use ft_irc_refactor.Client.{Client}
use ft_irc_refactor.Channel.{Channel, has_mode, is_operator, is_participant, set_topic, topic_mode}
use ft_irc_refactor.Server.State.{
  Env, Action, undefined, get, update_channel, ◌>>=◌, ◌>>◌, channel_at,
}
use ft_irc_refactor.Server.Net.{prefix_server, make_msg, broadcast_channel}
use ft_irc_refactor.Cmd.Context.{Cmd, self, demand, reply}
use ft_irc_refactor.Cmd.Split.{topic_split, is_valid_channel_name}
use ft_irc_refactor.Reply

unfoldable pub show_topic :
    Env → Cmd → (me : Client) → (ch_name : Str) → Channel → Action (Unit {0})
show_topic env c me ch_name ch = do
  demand (not (is_empty ch.topic)) (Reply.rpl_notopic me.nickname ch_name)
  reply env c (Reply.rpl_topic me.nickname ch_name ch.topic)

unfoldable pub change_topic :
    Env → (me : Client) → (ch_name topic : Str) → Channel → Action (Unit {0})
change_topic env me ch_name topic ch = do
  demand (not (has_mode topic_mode ch) || is_operator me.nickname ch)
      (Reply.err_chanoprivsneeded me.nickname ch_name)
  update_channel ch_name (set_topic topic)
  after ← channel_at ch_name
  broadcast_channel env (make_msg prefix_server (Reply.rpl_topic me.nickname ch_name after.topic))
      after none

unfoldable pub topic_of : Env → Cmd → (me : Client) → (ch_name topic : Str) → Action (Unit {0})
topic_of env c me ch_name topic = do
  demand (not (is_empty ch_name)) (Reply.err_needmoreparams me.nickname (codes "TOPIC"))
  demand (is_valid_channel_name ch_name) (Reply.err_badchanmask me.nickname ch_name)
  s ← get
  demand (mem ch_name s.channels) (Reply.err_nosuchchannel me.nickname ch_name)
  ch ← channel_at ch_name
  demand (is_participant me.nickname ch) (Reply.err_notonchannel me.nickname ch_name)
  if is_empty topic then show_topic env c me ch_name ch else change_topic env me ch_name topic ch

-- The split gives at least one token; all behind the second are dropped.
unfoldable pub topic_params : Env → Cmd → (me : Client) → List Str → Action (Unit {0})
topic_params env c me [] = undefined
topic_params env c me (ch_name ∷ []) = topic_of env c me ch_name []
topic_params env c me (ch_name ∷ topic ∷ rest) = topic_of env c me ch_name topic

unfoldable pub cmd_topic : Env → Cmd → Action (Unit {0})
cmd_topic env c = do
  me ← self c
  demand me.registered (Reply.err_notregistered me.nickname)
  topic_params env c me (topic_split c.cmd_params)
