-- ===== src/Cmd/Part.antt =====
-- PART and KICK (src/Cmd/CmdPart.cpp, CmdKick.cpp).
use ft_irc_refactor.Base.{
  not, List, [], ◌∷◌, Option, none, some, Str, ◌==◌, is_empty, first, if◌then◌else◌, mem, find,
  str_key,
}
use ft_irc_refactor.Client.{Client}
use ft_irc_refactor.Channel.{
  Channel, is_operator, is_participant, remove_participant, remove_operator,
}
use ft_irc_refactor.Server.State.{
  Env, Action, get, modify, when, for_each, update_channel, ◌>>=◌, ◌>>◌, channel_at,
}
use ft_irc_refactor.Server.Net.{make_msg, broadcast_channel, remove_channel}
use ft_irc_refactor.Cmd.Context.{Cmd, self, refuse, demand, reply}
use ft_irc_refactor.Cmd.Split.{split, is_valid_channel_name}
use ft_irc_refactor.Reply

-- Both commands end so: the nickname leaves both maps, and an empty channel is deleted.
unfoldable pub leave_channel : (nick name : Str) → Action (Unit {0})
leave_channel nick name = do
  update_channel name (remove_participant nick)
  ch ← channel_at name
  when (is_operator nick ch) (update_channel name (remove_operator nick))
  after ← channel_at name
  when (is_empty after.participant) (modify (remove_channel name))

unfoldable pub part_member : Env → (me : Client) → (name : Str) → Channel → Action (Unit {0})
part_member env me name ch = do
  broadcast_channel env (make_msg me.prefix (Reply.rpl_part name)) ch none
  leave_channel me.nickname name

-- The channel that the name was found to have, if any.
unfoldable pub part_found :
    Env → Cmd → (me : Client) → (name : Str) → Option Channel → Action (Unit {0})
part_found env c me name none = reply env c (Reply.err_nosuchchannel me.nickname name)
part_found env c me name (some ch) =
    if is_participant me.nickname ch
    then part_member env me name ch
    else reply env c (Reply.err_notonchannel me.nickname name)

-- The body of the loop: an error is a reply, and the loop goes on.
unfoldable pub part_channel : Env → Cmd → (name : Str) → Action (Unit {0})
part_channel env c name = do
  me ← self c
  s ← get
  if is_valid_channel_name name
      then part_found env c me name (find name s.channels)
      else reply env c (Reply.err_badchanmask me.nickname name)

unfoldable pub cmd_part : Env → Cmd → Action (Unit {0})
cmd_part env c = do
  me ← self c
  demand me.registered (Reply.err_notregistered me.nickname)
  let params = split b',' c.cmd_params
  demand (not (is_empty params)) (Reply.err_needmoreparams me.nickname c.cmd)
  for_each params (part_channel env c)

-- The `comment` that the third parameter would give is a variable of an inner block: the one that
-- is sent is always empty.
abbrev pub kick_comment : Str
kick_comment = []

unfoldable pub kick : Env → (me : Client) → (ch_name target : Str) → Action (Unit {0})
kick env me ch_name target = do
  demand (first ch_name == b'#') (Reply.err_badchanmask me.nickname ch_name)
  s ← get
  demand (mem ch_name s.channels) (Reply.err_nosuchchannel me.nickname ch_name)
  ch ← channel_at ch_name
  demand (is_participant me.nickname ch) (Reply.err_notonchannel me.nickname ch_name)
  demand (is_operator me.nickname ch) (Reply.err_chanoprivsneeded me.nickname ch_name)
  demand (is_participant target ch) (Reply.err_usernotinchannel me.nickname target ch_name)
  broadcast_channel env (make_msg me.prefix (Reply.rpl_kick ch_name target kick_comment)) ch none
  leave_channel target ch_name

-- Two parameters, or three.
unfoldable pub kick_params : Env → Cmd → (me : Client) → List Str → Action (Unit {0})
kick_params env c me (ch_name ∷ target ∷ []) = kick env me ch_name target
kick_params env c me (ch_name ∷ target ∷ comment ∷ []) = kick env me ch_name target
kick_params env c me _ = refuse (Reply.err_needmoreparams me.nickname c.cmd)

unfoldable pub cmd_kick : Env → Cmd → Action (Unit {0})
cmd_kick env c = do
  me ← self c
  demand me.registered (Reply.err_notregistered me.nickname)
  kick_params env c me (split 32 c.cmd_params)
