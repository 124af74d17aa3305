-- ===== src/Cmd/Frame/Members.antt =====
-- PART and KICK (src/Cmd/) inside a frame.
use ft_irc_refactor.Base.{List, [], ◌∷◌, Option, none, some, Str, str_key}
use ft_irc_refactor.Client.{Client}
use ft_irc_refactor.Channel.{Channel}
use ft_irc_refactor.Server.State.{Env, Server}
use ft_irc_refactor.Server.Keeps.{Keeps, keeps_rules}
use ft_irc_refactor.Cmd.Context.{Cmd}
use ft_irc_refactor.Cmd.Part.{
  cmd_part, cmd_kick, part_channel, part_found, part_member, leave_channel, kick, kick_params,
}
use ft_irc_refactor.Cmd.Frame.{Quiet, Channels}
use ft_irc_refactor.Cmd.Frame.Acts.{act}
use ft_irc_refactor.Cmd.Frame.Seats.{remove_participant-NoEntry, same_seats}
use ft_irc_refactor.Cmd.Frame.Rooms.{update_channel-Keeps, seats-Keeps, remove_channel-Keeps}

module _ {P : Server → Type 0} (channels : Channels P) where
  pub leave_channel-Keeps : (nick name : Str) → Keeps P (leave_channel nick name)
  unfolding leave_channel
  leave_channel-Keeps nick name =
      search
        (
          keeps_rules, update_channel-Keeps, remove_participant-NoEntry, seats-Keeps, same_seats,
          remove_channel-Keeps,
        )
        depth 14

-- For an invariant that the departure of one nickname keeps.
module _ {P : Server → Type 0} (quiet : Quiet P) (me : Client)
    (leave : (name : Str) → Keeps P (leave_channel me.nickname name)) where
  part_member-Keeps : (env : Env) (name : Str) (ch : Channel) → Keeps P (part_member env me name ch)
  unfolding part_member
  part_member-Keeps env name ch = search (act, leave)

  pub part_found-Keeps :
      (env : Env) (c : Cmd) (name : Str) (o : Option Channel) → Keeps P (part_found env c me name o)
  unfolding part_found
  part_found-Keeps env c name none = search act
  part_found-Keeps env c name (some ch) = search (act, part_member-Keeps)

-- For one that leaving a channel keeps.
module _ {P : Server → Type 0} (quiet : Quiet P) where
  pub parts-Keeps :
      (env : Env) (c : Cmd)
      → ((name : Str) → Keeps P (part_channel env c name))
      → Keeps P (cmd_part env c)
  unfolding cmd_part
  parts-Keeps env c each = search (act, each) depth 12

-- For one that every departure keeps.
module _ {P : Server → Type 0} (quiet : Quiet P)
    (leave : (nick name : Str) → Keeps P (leave_channel nick name)) where
  found-Keeps :
      (env : Env) (c : Cmd) (me : Client) (name : Str) (o : Option Channel)
      → Keeps P (part_found env c me name o)
  found-Keeps env c me name o =
      part_found-Keeps quiet me (λ name. leave me.nickname name) env c name o

  part_channel-Keeps : (env : Env) (c : Cmd) (name : Str) → Keeps P (part_channel env c name)
  unfolding part_channel
  part_channel-Keeps env c name = search (act, found-Keeps) depth 10

  pub cmd_part-Keeps : (env : Env) (c : Cmd) → Keeps P (cmd_part env c)
  cmd_part-Keeps env c = parts-Keeps quiet env c (part_channel-Keeps env c)

  pub kick-Keeps : (env : Env) (me : Client) (ch target : Str) → Keeps P (kick env me ch target)
  unfolding kick
  kick-Keeps env me ch target = search (act, leave) depth 20

  pub kick_params-Keeps :
      (env : Env) (c : Cmd) (me : Client) (ts : List Str) → Keeps P (kick_params env c me ts)
  unfolding kick_params
  kick_params-Keeps env c me (ch ∷ target ∷ []) = kick-Keeps env me ch target
  kick_params-Keeps env c me (ch ∷ target ∷ comment ∷ []) = kick-Keeps env me ch target
  kick_params-Keeps env c me _ = search act

  pub cmd_kick-Keeps : (env : Env) (c : Cmd) → Keeps P (cmd_kick env c)
  unfolding cmd_kick
  cmd_kick-Keeps env c = search (act, kick_params-Keeps) depth 10
