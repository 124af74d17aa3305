-- ===== src/Cmd/Join.antt =====
-- JOIN (src/Cmd/CmdJoin.cpp), and Channel::getParticipantNameStr, which reads the clients.
use ft_irc_refactor.Base.{
  ℕ, ◌%◌, ◌^◌, Bool, not, ◌&&◌, ◌||◌, List, [], ◌∷◌, ◌++◌, none, some, Str, codes, str_eq, ◌==◌,
  leb, length, is_empty, first, if◌then◌else◌, mem, Map, filter_by, ℕ_key, str_key,
}
use ft_irc_refactor.Channel.{
  Ptr, Channel, has_mode, is_operator, add_participant, add_operator, is_invited, remove_invited,
  invite_mode, key_mode, limit_mode,
}
use ft_irc_refactor.Server.State.{
  Env, Action, pure, get, modify, or_undefined, when, update_channel, ◌>>=◌, ◌>>◌, deref,
  channel_at,
}
use ft_irc_refactor.Server.Net.{make_msg, broadcast_channel, set_channels}
use ft_irc_refactor.Cmd.Context.{Cmd, self, demand, reply}
use ft_irc_refactor.Cmd.Split.{join_split, is_valid_channel_name}
use ft_irc_refactor.Reply

-- The nicknames of the participants with a '@' before the operators', parted by blanks.
unfoldable pub participant_names : Channel → Map Str Ptr → Action Str
participant_names ch [] = pure []
participant_names ch ((key, p) ∷ rest) = do
  client ← deref p
  names ← participant_names ch rest
  let mark = if is_operator client.nickname ch then codes "@" else []
  pure (mark ++ client.nickname ++ (if is_empty rest then [] else codes " " ++ names))

unfoldable pub get_participant_name_str : Channel → Action Str
get_participant_name_str ch = participant_names ch ch.participant

abbrev pub starts_with_hash : Str → Bool
starts_with_hash s = first s == b'#'

-- The size of the participant map as an unsigned int.
abbrev pub size32 : Map Str Ptr → ℕ
size32 m = length m % 2 ^ 32

-- "x" and the empty key make a channel with no key.
abbrev pub is_no_key : Str → Bool
is_no_key key = str_eq key (codes "x") || is_empty key

unfoldable pub create_channel : Ptr → (nick name key : Str) → Action (Unit {0})
create_channel p nick name key = do
  modify (
      set_channels name (if is_no_key key then [] else key)
        (if is_no_key key then none else some key_mode))
  update_channel name (add_operator nick p)

-- Is the channel full? The limit is read only in mode +l.
unfoldable pub check_limit : (nick name : Str) → Channel → Action (Unit {0})
check_limit nick name ch = when (has_mode limit_mode ch) (do
  limit ← or_undefined ch.limit
  demand (not (leb limit (size32 ch.participant))) (Reply.err_channelisfull nick name))

unfoldable pub check_join : (nick name key : Str) → Channel → Action (Unit {0})
check_join nick name key ch = do
  demand (not (has_mode invite_mode ch) || is_invited nick ch.invited)
      (Reply.err_inviteonlychan nick name)
  demand (not (has_mode key_mode ch && (is_empty key || not (str_eq key ch.key))))
      (Reply.err_badchannelkey nick name)
  check_limit nick name ch

unfoldable pub send_topic : Env → Cmd → (nick : Str) → Channel → Action (Unit {0})
send_topic env c nick ch =
    if is_empty ch.topic
    then reply env c (Reply.rpl_notopic nick ch.name)
    else reply env c (Reply.rpl_topic nick ch.name ch.topic)

-- What follows the checks: the new participant, and what everybody is told.
unfoldable pub enter_channel : Env → Cmd → Ptr → (name : Str) → Action (Unit {0})
enter_channel env c p name = do
  me ← deref p
  before ← channel_at name
  update_channel name (add_participant me.nickname p)
  ch ← channel_at name
  broadcast_channel env (make_msg me.prefix (Reply.rpl_join name)) ch none
  names ← get_participant_name_str ch
  reply env c (Reply.rpl_namreply me.nickname (codes "=") ch.name names)
  reply env c (Reply.rpl_endofnames me.nickname ch.name)
  send_topic env c me.nickname ch
  when (has_mode invite_mode before) (update_channel name (remove_invited me.nickname))

-- The body of the loop over the channels.
unfoldable pub join_channel : Env → Cmd → (name key : Str) → Action (Unit {0})
join_channel env c name key = do
  me ← self c
  p ← or_undefined c.client
  s ← get
  when (not (mem name s.channels)) (create_channel p me.nickname name key)
  ch ← channel_at name
  check_join me.nickname name key ch
  enter_channel env c p name

-- The i-th channel goes with the i-th key, or with the empty one.
unfoldable pub join_channels : Env → Cmd → (channel key : List Str) → Action (Unit {0})
join_channels env c [] key = pure tt
join_channels env c (ch ∷ chs) [] = do join_channel env c ch []; join_channels env c chs []
join_channels env c (ch ∷ chs) (k ∷ ks) = do join_channel env c ch k; join_channels env c chs ks

-- The first channel name that is malformed ends the command.
unfoldable pub check_channel_names : (nick : Str) → List Str → Action (Unit {0})
check_channel_names nick [] = pure tt
check_channel_names nick (ch ∷ chs) = do
  demand (is_valid_channel_name ch) (Reply.err_badchanmask nick ch)
  check_channel_names nick chs

unfoldable pub join_registered : Env → Cmd → (nick : Str) → Action (Unit {0})
join_registered env c nick = do
  let join_tokens = join_split c.cmd_params
  let channel = filter_by starts_with_hash join_tokens
  let key = filter_by (λ t. not (starts_with_hash t)) join_tokens
  demand (leb (length key) (length channel)) (Reply.err_needmoreparams nick (codes "JOIN"))
  check_channel_names nick channel
  join_channels env c channel key

unfoldable pub cmd_join : Env → Cmd → Action (Unit {0})
cmd_join env c = do
  me ← self c
  if me.registered
      then join_registered env c me.nickname
      else reply env c (Reply.err_notregistered me.nickname)
