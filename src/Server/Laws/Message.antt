-- ===== src/Server/Laws/Message.antt =====
-- The channels over messages (handleClientCmd, src/Cmd/Cmd.cpp).
use ft_irc_refactor.Cmd.Part.{leave_channel}
use ft_irc_refactor.Server.Keeps.{Keeps}
use ft_irc_refactor.Server.Members.Moves.{channel-Seated}
use ft_irc_refactor.Cmd.Frame.Mode.{handle_flag_option-Keeps}
use ft_irc_refactor.Cmd.Frame.Rooms.{plain-Keeps, seats-Keeps}
use ft_irc_refactor.Server.Laws.Leave.{leave_channel-Lawful}
use ft_irc_refactor.Cmd.Frame.Members.{cmd_kick-Keeps, cmd_part-Keeps, leave_channel-Keeps}
use ft_irc_refactor.Server.Laws.Join.{join_channel-Lawful}
use ft_irc_refactor.Cmd.Dispatch.{handle_client_cmd}
use ft_irc_refactor.Cmd.Frame.Joining.{cmd_join-Keeps}
use ft_irc_refactor.Server.Members.Known.{same-Known, known_quiet, Known}
use ft_irc_refactor.Server.Members.Naming.{first_name-Known, new_name-Known}
use ft_irc_refactor.Cmd.Context.{Cmd}
use ft_irc_refactor.Cmd.Frame.Message.{client_cmd-Keeps, Rooms}
use ft_irc_refactor.Server.Laws.Mode.{Agrees}
use ft_irc_refactor.Server.Laws.Change.{handle_flag_option-Lawful}
use ft_irc_refactor.Server.Laws.Rename.{new_name-Lawful, first_name-Lawful}
use ft_irc_refactor.Cmd.Frame.Join.{joined-Keeps, both_quiet}
use ft_irc_refactor.Server.Members.{quiet, Seated}
use ft_irc_refactor.Channel.{Ptr, Channel}
use ft_irc_refactor.Cmd.Frame.{Channels, Names, Moves, Quiet}
use ft_irc_refactor.Base.{Option, ◌≡◌, refl, some, Str, find, ℕ_key, str_key, subst}
use ft_irc_refactor.Server.State.{Env, Server}
use ft_irc_refactor.Server.Members.Renaming.{seated-Moves}
use ft_irc_refactor.Server.Laws.{Lawful, Lawful-Quiet, plain-Lawful}

-- The clients: those in the channels, and those in nickNameClientMap.
abbrev pub Told : Server → Type 0
Told s = Seated s × Known s

pub Told-Quiet : Quiet Told
Told-Quiet = both_quiet quiet known_quiet

pub Told-Channels : Channels Told
Told-Channels = record {
  channel = λ s chs fewer tidy (seated, known).
      (channel-Seated s chs fewer tidy seated, same-Known s _ refl refl known);
}

pub Told-Moves : (own : Option Ptr) → Moves Told own
Told-Moves own = record {
  channels = Told-Channels;
  join = λ p c name ch s is there registered held (seated, known). (
    (seated-Moves own).join p c name ch s is there registered held seated,
    same-Known s _ refl refl known,
  );
  names = λ p is. record {
    named = λ c t s there new good unused (seated, known). (
      ((seated-Moves own).names p is).named c t s there new good unused seated,
      first_name-Known p c t s there good unused seated known,
    );
    renamed = λ c t s there old good unused (seated, known). (
      ((seated-Moves own).names p is).renamed c t s there old good unused seated,
      new_name-Known p c t s there good unused seated old known,
    );
  };
}

-- And the channels.
abbrev All : Server → Type 0
All s = Told s × Lawful s

All-Quiet : Quiet All
All-Quiet = both_quiet Told-Quiet Lawful-Quiet

All-Names : (p : Ptr) → Names All p
All-Names p = record {
  named = λ c t s there new good unused (told, lawful). (
    ((Told-Moves (some p)).names p refl).named c t s there new good unused told,
    first_name-Lawful p c t s lawful,
  );
  renamed = λ c t s there old good unused (told, lawful). (
    ((Told-Moves (some p)).names p refl).renamed c t s there old good unused told,
    new_name-Lawful p c t s unused told.0 lawful,
  );
}

-- The participants of a channel are found under their nicknames.
agrees :
    (name : Str) (ch : Channel) (s : Server)
    → Told s
    → find name s.channels ≡ some ch
    → Agrees ch.participant s.nick_name_client_map
agrees name ch s (seated, known) held n p e =
    let m = seated.seat name ch n p held e in
    subst (λ x. find x s.nick_name_client_map ≡ some p) m.name
      (known.known p m.client m.there (known.given p m.client m.there m.registered)).1

leaves : (nick name : Str) → Keeps All (leave_channel nick name)
leaves nick name = record {
  at = λ s (told, lawful). (
    (leave_channel-Keeps Told-Channels nick name).at s told,
    (leave_channel-Lawful nick name).at s lawful,
  );
}

All-Rooms : (env : Env) (c : Cmd) → Rooms All env c
All-Rooms env c = record {
  join = cmd_join-Keeps All-Quiet env c λ d _ name key. record {
    at = λ s ((told, lawful), registered).
        let (told', registered') =
          (joined-Keeps Told-Quiet env d (Told-Moves d.client) name key).at s (told, registered) in
        ((told', (join_channel-Lawful env d name key).at s lawful), registered');
  };
  part = cmd_part-Keeps All-Quiet leaves env c;
  plain = λ name f plain. record {
    at = λ s (told, lawful). (
      (plain-Keeps (seats-Keeps Told-Channels) name f plain).at s told,
      (plain-Lawful name f plain).at s lawful,
    );
  };
  change = λ d me sign name options param. record {
    at = λ s (told, lawful). (
      (handle_flag_option-Keeps Told-Quiet (seats-Keeps Told-Channels) d me sign name options
            param).at
          s told,
      handle_flag_option-Lawful d me sign name options param s
          (λ ch held. agrees name ch s told held) lawful,
    );
  };
}

-- Whatever a client sends: after the message each operator of each channel is a participant of it,
-- as the same client, mode +k is set exactly if the channel has a key, and in mode +l it has a
-- limit; and each registered client has given a nickname, and each that has given one is found
-- under it in nickNameClientMap; if all this was so before, and the participants were living
-- clients.
pub handle_client_cmd-Lawful :
    (env : Env) (c : Cmd) (s : Server)
    → Seated s
    → Known s
    → Lawful s
    → Lawful (handle_client_cmd env c s).1 × Known (handle_client_cmd env c s).1
handle_client_cmd-Lawful env c s seated known lawful =
    let ((_, known'), lawful') =
      (client_cmd-Keeps All-Quiet env c (λ p _. All-Names p) (All-Rooms env c)
          (cmd_kick-Keeps All-Quiet leaves env c)).at
        s ((seated, known), lawful) in
    (lawful', known')
