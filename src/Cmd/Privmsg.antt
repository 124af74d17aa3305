-- ===== src/Cmd/Privmsg.antt =====
-- PRIVMSG (src/Cmd/CmdPrivmsg.cpp).
use ft_irc_refactor.Base.{
  Bool, true, false, not, ◌&&◌, ◌||◌, List, [], ◌∷◌, ◌++◌, Option, none, some, Str, codes, ◌==◌,
  is_empty, is_some, first, if◌then◌else◌, str_key,
}
use ft_irc_refactor.Client.{Client}
use ft_irc_refactor.Channel.{is_participant}
use ft_irc_refactor.Server.State.{
  Env, Action, pure, or_undefined, for_each, ◌>>=◌, ◌>>◌, deref, channel_at,
}
use ft_irc_refactor.Server.Net.{make_msg, cast_msg, broadcast_channel, get_client_by_nickname}
use ft_irc_refactor.Cmd.Context.{Cmd, self, refuse, demand, reply}
use ft_irc_refactor.Cmd.Split.{privmsg_split, is_dup_receiver}
use ft_irc_refactor.Reply

-- chFlag, receivers and msg, the variables of the first loop.
pub record Targets : Type 0 where
  pub ch_flag : Bool
  pub receivers : List Str
  pub msg : Str

abbrev pub no_targets : Targets
no_targets = record { ch_flag = false; receivers = []; msg = [] }

abbrev mixed_text : Str
mixed_text =
    codes "Sending messages to both a channel and a regular user at the same time is not permitted."

-- One parameter of the first loop; `none` is a receiver of the other kind.
unfoldable pub add_target : (is_first : Bool) → Str → Targets → Option Targets
add_target is_first param t =
    if first param == b':'
    then some (record t { msg = param })
    else (let ch_flag = t.ch_flag || is_first && first param == b'#' in
        let is_channel = first param == b'#' in
        if ch_flag && is_channel || not ch_flag && not is_channel
        then some (record t { ch_flag = ch_flag; receivers = t.receivers ++ param ∷ [] })
        else none)

unfoldable pub read_targets : Env → Cmd → (me : Client) → Bool → List Str → Targets → Action Targets
read_targets env c me is_first [] t = pure t
read_targets env c me is_first (param ∷ params) t = elim (add_target is_first param t) [
  | none ↦ do reply env c mixed_text; refuse (Reply.err_unknowncommand me.nickname c.cmd)
  | some t' ↦ read_targets env c me false params t'
]

-- The text of the reply to a repeated receiver: the names, and the last one twice.
unfoldable pub receiver_str : List Str → Str
receiver_str [] = []
receiver_str (r ∷ []) = r ++ codes "," ++ r
receiver_str (r ∷ q ∷ rs) = r ++ codes "," ++ receiver_str (q ∷ rs)

-- `it`, of a copy of the channels, is compared with the end of the channels themselves, which it
-- never equals: a missing channel is not noticed, and its end iterator is read.
unfoldable pub check_channel_target : (me : Client) → (receiver : Str) → Action (Unit {0})
check_channel_target me receiver = do
  ch ← channel_at receiver
  demand (is_participant me.nickname ch) (Reply.err_cannotsendtochan me.nickname receiver)

unfoldable pub check_user_target : (me : Client) → (receiver : Str) → Action (Unit {0})
check_user_target me receiver = do
  found ← get_client_by_nickname receiver
  demand (is_some found) (Reply.err_nosuchnick me.nickname receiver)

unfoldable pub check_target :
    (me : Client) → (ch_flag : Bool) → (receiver : Str) → Action (Unit {0})
check_target me ch_flag receiver =
    if ch_flag then check_channel_target me receiver else check_user_target me receiver

unfoldable pub send_to_channel :
    Env → Cmd → (me : Client) → (msg receiver : Str) → Action (Unit {0})
send_to_channel env c me msg receiver = do
  ch ← channel_at receiver
  broadcast_channel env (make_msg me.prefix (Reply.rpl_privmsg ch.name msg)) ch (some c.client_fd)

unfoldable pub send_to_user : Env → (me : Client) → (msg receiver : Str) → Action (Unit {0})
send_to_user env me msg receiver = do
  found ← get_client_by_nickname receiver
  p ← or_undefined found
  client ← deref p
  cast_msg env client.fd (make_msg me.prefix (Reply.rpl_privmsg client.nickname msg))

unfoldable pub send_to : Env → Cmd → (me : Client) → Targets → (receiver : Str) → Action (Unit {0})
send_to env c me t receiver =
    if t.ch_flag
    then send_to_channel env c me t.msg receiver
    else send_to_user env me t.msg receiver

-- All receivers are checked before the first message is sent.
unfoldable pub deliver : Env → Cmd → (me : Client) → Targets → Action (Unit {0})
deliver env c me t = do
  demand (not (is_empty t.receivers)) (Reply.err_norecipient me.nickname (codes "PRIVMSG"))
  demand (not (is_dup_receiver t.receivers))
      (Reply.err_toomanytargets me.nickname (receiver_str t.receivers))
  demand (first t.msg == b':') (Reply.err_notexttosend me.nickname)
  for_each t.receivers (check_target me t.ch_flag)
  for_each t.receivers (send_to env c me t)

unfoldable pub cmd_privmsg : Env → Cmd → Action (Unit {0})
cmd_privmsg env c = do
  me ← self c
  demand me.registered (Reply.err_notregistered me.nickname)
  targets ← read_targets env c me true (privmsg_split c.cmd_params) no_targets
  deliver env c me targets
