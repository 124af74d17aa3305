-- ===== src/Cmd/Invite.antt =====
-- INVITE (src/Cmd/CmdInvite.cpp).
use ft_irc_refactor.Base.{not, ◌||◌, List, [], ◌∷◌, Str, is_some, mem, str_key}
use ft_irc_refactor.Client.{Client}
use ft_irc_refactor.Channel.{has_mode, is_operator, is_participant, add_invited, invite_mode}
use ft_irc_refactor.Server.State.{
  Env, Action, undefined, get, or_undefined, update_channel, ◌>>=◌, ◌>>◌, deref, channel_at,
}
use ft_irc_refactor.Server.Net.{make_msg, cast_msg, get_client_by_nickname}
use ft_irc_refactor.Cmd.Context.{Cmd, self, refuse, demand, reply}
use ft_irc_refactor.Cmd.Split.{split, is_valid_channel_name}
use ft_irc_refactor.Reply

-- `getInvited` returns a copy, so `std::find` is given iterators of different vectors. Those of
-- empty vectors are all null; any others are not a range, and the search has no defined result.
unfoldable pub add_to_invited : (target ch_name : Str) → List Str → Action (Unit {0})
add_to_invited target ch_name [] = update_channel ch_name (add_invited target)
add_to_invited target ch_name (n ∷ ns) = undefined

-- The checks that come before the invitation.
unfoldable pub check_invite : (me : Client) → (target ch_name : Str) → Action (Unit {0})
check_invite me target ch_name = do
  demand (is_valid_channel_name ch_name) (Reply.err_badchanmask me.nickname ch_name)
  s ← get
  demand (mem ch_name s.channels) (Reply.err_nosuchnick me.nickname ch_name)
  ch ← channel_at ch_name
  demand (is_participant me.nickname ch) (Reply.err_notonchannel me.nickname ch_name)
  demand (not (has_mode invite_mode ch) || is_operator me.nickname ch)
      (Reply.err_chanoprivsneeded me.nickname ch_name)
  invitee ← get_client_by_nickname target
  demand (is_some invitee) (Reply.err_nosuchnick me.nickname target)
  demand (not (is_participant target ch)) (Reply.err_useronchannel target ch_name)

unfoldable pub invite : Env → Cmd → (me : Client) → (target ch_name : Str) → Action (Unit {0})
invite env c me target ch_name = do
  check_invite me target ch_name
  ch ← channel_at ch_name
  add_to_invited target ch_name ch.invited
  found ← get_client_by_nickname target
  p ← or_undefined found
  invitee ← deref p
  cast_msg env invitee.fd (make_msg me.prefix (Reply.rpl_invite target ch_name))
  reply env c (Reply.rpl_inviting me.nickname ch_name target)

unfoldable pub invite_params : Env → Cmd → (me : Client) → List Str → Action (Unit {0})
invite_params env c me (target ∷ ch_name ∷ []) = invite env c me target ch_name
invite_params env c me _ = refuse (Reply.err_needmoreparams me.nickname c.cmd)

unfoldable pub cmd_invite : Env → Cmd → Action (Unit {0})
cmd_invite env c = do
  me ← self c
  demand me.registered (Reply.err_notregistered me.nickname)
  invite_params env c me (split 32 c.cmd_params)
