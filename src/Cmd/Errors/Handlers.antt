-- ===== src/Cmd/Errors/Handlers.antt =====
-- The state where a handler throws (src/Cmd/): CAP, PASS, NICK, PING, QUIT, PART, KICK, INVITE and
-- TOPIC.
use ft_irc_refactor.Cmd.Topic.{change_topic, show_topic, cmd_topic, topic_params, topic_of}
use ft_irc_refactor.Cmd.Invite.{invite, cmd_invite, invite_params, add_to_invited, check_invite}
use ft_irc_refactor.Cmd.Errors.{checks, atomic, sending}
use ft_irc_refactor.Server.Effects.{
  ReadOnly-undefined, Throws-update_client, ReadOnly-raise, Throws-for_each, Atomic-Never,
  Atomic-ReadOnly, ReadOnly, Atomic, Never, Throws,
}
use ft_irc_refactor.Cmd.Context.{Cmd}
use ft_irc_refactor.Cmd.Part.{
  kick, part_member, cmd_kick, kick_params, cmd_part, part_channel, part_found, leave_channel,
}
use ft_irc_refactor.Server.State.{for_each, Env}
use ft_irc_refactor.Base.{List, [], ◌∷◌, Option, none, some, Str}
use ft_irc_refactor.Channel.{Ptr, Channel}
use ft_irc_refactor.Cmd.Dispatch.{cmd_unknown}
use ft_irc_refactor.Cmd.Register.{
  rename_registered, cmd_nick, apply_nick, check_nick, cmd_ping, cmd_pass, cmd_quit, cmd_cap,
}
use ft_irc_refactor.Client.{Client}

pub cmd_cap-Never : (env : Env) (c : Cmd) → Throws Never (cmd_cap env c)
unfolding cmd_cap
cmd_cap-Never env c = search sending

pub cmd_unknown-Never : (env : Env) (c : Cmd) → Throws Never (cmd_unknown env c)
unfolding cmd_unknown
cmd_unknown-Never env c = search sending

pub cmd_quit-Never : (c : Cmd) → Throws Never (cmd_quit c)
unfolding cmd_quit
cmd_quit-Never c = search sending

pub cmd_pass-Atomic : (c : Cmd) → Atomic (cmd_pass c)
unfolding cmd_pass
cmd_pass-Atomic c = search (atomic, Atomic-Never, Throws-update_client) depth 14

pub cmd_ping-Atomic : (env : Env) (c : Cmd) → Atomic (cmd_ping env c)
unfolding cmd_ping
cmd_ping-Atomic env c = search (atomic, Atomic-Never, sending) depth 14

pub check_nick-ReadOnly : (c : Cmd) (str : Str) → ReadOnly (check_nick c str)
unfolding check_nick
check_nick-ReadOnly c str = search checks depth 14

apply_nick-Never :
    (env : Env) (c : Cmd) (me : Client) (p : Ptr) → Throws Never (apply_nick env c me p)
unfolding apply_nick rename_registered
apply_nick-Never env c me p = search sending depth 14

pub cmd_nick-Atomic : (env : Env) (c : Cmd) → Atomic (cmd_nick env c)
unfolding cmd_nick
cmd_nick-Atomic env c =
    search (atomic, check_nick-ReadOnly, Atomic-Never, apply_nick-Never) depth 14

leave_channel-Never : (nick name : Str) → Throws Never (leave_channel nick name)
unfolding leave_channel
leave_channel-Never nick name = search sending depth 12

part_found-Never :
    (env : Env) (c : Cmd) (me : Client) (name : Str) (found : Option Channel)
    → Throws Never (part_found env c me name found)
unfolding part_found part_member
part_found-Never env c me name none = search sending
part_found-Never env c me name (some ch) = search (sending, leave_channel-Never)

part_channel-Never : (env : Env) (c : Cmd) (name : Str) → Throws Never (part_channel env c name)
unfolding part_channel
part_channel-Never env c name = search (sending, part_found-Never)

parting-Never :
    (env : Env) (c : Cmd) (names : List Str) → Throws Never (for_each names (part_channel env c))
parting-Never env c names = Throws-for_each names _ (part_channel-Never env c)

pub cmd_part-Atomic : (env : Env) (c : Cmd) → Atomic (cmd_part env c)
unfolding cmd_part
cmd_part-Atomic env c = search (atomic, Atomic-Never, parting-Never) depth 14

kick-Atomic : (env : Env) (me : Client) (name target : Str) → Atomic (kick env me name target)
unfolding kick
kick-Atomic env me name target =
    search (atomic, Atomic-Never, sending, leave_channel-Never) depth 20

kick_params-Atomic :
    (env : Env) (c : Cmd) (me : Client) (ps : List Str) → Atomic (kick_params env c me ps)
unfolding kick_params
kick_params-Atomic env c me [] = Atomic-ReadOnly _ (ReadOnly-raise _)
kick_params-Atomic env c me (a ∷ []) = Atomic-ReadOnly _ (ReadOnly-raise _)
kick_params-Atomic env c me (a ∷ b ∷ []) = kick-Atomic env me a b
kick_params-Atomic env c me (a ∷ b ∷ d ∷ []) = kick-Atomic env me a b
kick_params-Atomic env c me (a ∷ b ∷ d ∷ e ∷ ps) = Atomic-ReadOnly _ (ReadOnly-raise _)

pub cmd_kick-Atomic : (env : Env) (c : Cmd) → Atomic (cmd_kick env c)
unfolding cmd_kick
cmd_kick-Atomic env c = search (atomic, kick_params-Atomic)

check_invite-ReadOnly : (me : Client) (target name : Str) → ReadOnly (check_invite me target name)
unfolding check_invite
check_invite-ReadOnly me target name = search checks depth 20

add_to_invited-Never :
    (target name : Str) (invited : List Str) → Throws Never (add_to_invited target name invited)
unfolding add_to_invited
add_to_invited-Never target name [] = search sending
add_to_invited-Never target name (n ∷ ns) = search sending

invite-Atomic :
    (env : Env) (c : Cmd) (me : Client) (target name : Str) → Atomic (invite env c me target name)
unfolding invite
invite-Atomic env c me target name =
    search (atomic, check_invite-ReadOnly, Atomic-Never, sending, add_to_invited-Never) depth 20

invite_params-Atomic :
    (env : Env) (c : Cmd) (me : Client) (ps : List Str) → Atomic (invite_params env c me ps)
unfolding invite_params
invite_params-Atomic env c me [] = Atomic-ReadOnly _ (ReadOnly-raise _)
invite_params-Atomic env c me (a ∷ []) = Atomic-ReadOnly _ (ReadOnly-raise _)
invite_params-Atomic env c me (a ∷ b ∷ []) = invite-Atomic env c me a b
invite_params-Atomic env c me (a ∷ b ∷ d ∷ ps) = Atomic-ReadOnly _ (ReadOnly-raise _)

pub cmd_invite-Atomic : (env : Env) (c : Cmd) → Atomic (cmd_invite env c)
unfolding cmd_invite
cmd_invite-Atomic env c = search (atomic, invite_params-Atomic)

topic_of-Atomic :
    (env : Env) (c : Cmd) (me : Client) (name topic : Str) → Atomic (topic_of env c me name topic)
unfolding topic_of show_topic change_topic
topic_of-Atomic env c me name topic = search (atomic, Atomic-Never, sending) depth 24

topic_params-Atomic :
    (env : Env) (c : Cmd) (me : Client) (ps : List Str) → Atomic (topic_params env c me ps)
unfolding topic_params
topic_params-Atomic env c me [] = Atomic-ReadOnly _ ReadOnly-undefined
topic_params-Atomic env c me (a ∷ []) = topic_of-Atomic env c me a []
topic_params-Atomic env c me (a ∷ b ∷ ps) = topic_of-Atomic env c me a b

pub cmd_topic-Atomic : (env : Env) (c : Cmd) → Atomic (cmd_topic env c)
unfolding cmd_topic
cmd_topic-Atomic env c = search (atomic, topic_params-Atomic)
