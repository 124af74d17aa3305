-- ===== src/Examples/Channels.antt =====
-- Examples for the commands that change a channel (src/Cmd/).
use ft_irc_refactor.Server.Teardown.{remove_client_from_server}
use ft_irc_refactor.Server.Occupied.Removal.{remove_client_from_server-Without}
use ft_irc_refactor.Server.Occupied.Departs.{Without, Departs, leave_channel-departs}
use ft_irc_refactor.Base.{
  true, ◌≡◌, ◌⊎◌, refl, none, some, not, ◌||◌, [], ◌∷◌, codes, find, assign, erase, insert, ℕ_key,
  str_key,
}
use ft_irc_refactor.Channel.{
  Channel, is_participant, is_operator, has_mode, invite_mode, remove_participant, remove_operator,
  set_mode,
}
use ft_irc_refactor.Client.{Client, clear_send_buffer}
use ft_irc_refactor.Server.State.{
  Server, ok, ◌>>=◌, deref, modify, channel_at, update_channel, update_client, for_each,
}
use ft_irc_refactor.Server.Net.{
  broadcast_channel, cast_participant, cast_msg, cast_to, send, after_send, remove_channel,
  get_client_by_nickname, find_nickname, make_msg,
}
use ft_irc_refactor.Cmd.Context.{Cmd}
use ft_irc_refactor.Cmd.Part.{kick, leave_channel}
use ft_irc_refactor.Cmd.Split.{is_valid_channel_name}
use ft_irc_refactor.Cmd.Mode.{
  mode_params, change_mode, read_sign, handle_flag_option, check_options, read_options, plus_option,
  validate_options, execute_flags, execute_options, join_mode,
}
use ft_irc_refactor.Cmd.Invite.{check_invite}
use ft_irc_refactor.Cmd.Authority.{
  kick-is_operator, mode_params-is_operator, check_invite-is_operator,
}
use ft_irc_refactor.Reply
use ft_irc_refactor.Examples.{willing, bob, holding, message}

abbrev pub carol : Client
carol = record bob { fd = 5; nickname = codes "carol" }

abbrev dave : Client
dave = record bob { fd = 6; nickname = codes "dave" }

-- bob is the operator of a channel with carol in it.
abbrev pub room : Channel
room = record {
  name = codes "#a";
  key = [];
  topic = [];
  mode = (b'i', tt) ∷ [];
  participant = (codes "bob", 0) ∷ (codes "carol", 1) ∷ [];
  operator = (codes "bob", 0) ∷ [];
  limit = none;
  invited = [];
}

abbrev chatting : Server
chatting = record (holding bob) {
  clients = (4, 0) ∷ (5, 1) ∷ (6, 2) ∷ [];
  heap = (0, bob) ∷ (1, carol) ∷ (2, dave) ∷ [];
  next_ptr = 3;
  channels = (codes "#a", room) ∷ [];
}

-- What the examples compute with.
program : Unit {0}
unfolding kick leave_channel channel_at broadcast_channel for_each cast_participant deref cast_msg
    cast_to send after_send update_client clear_send_buffer modify update_channel remove_participant
    remove_operator set_mode find assign erase insert ◌>>=◌ remove_channel get_client_by_nickname
    find_nickname is_valid_channel_name mode_params change_mode read_sign handle_flag_option
    check_options read_options plus_option validate_options execute_flags execute_options
    check_invite make_msg Reply.rpl_kick join_mode
program = tt

kick-ok : (kick willing bob (codes "#a") (codes "carol") chatting).0 ≡ ok tt
unfolding program
kick-ok = refl

kick-is_operator_example :
    (ch : Channel) × ((find (codes "#a") chatting.channels ≡ some ch)
      × ((is_participant (codes "bob") ch ≡ true)
          × ((is_operator (codes "bob") ch ≡ true) × (is_participant (codes "carol") ch ≡ true))))
kick-is_operator_example =
    kick-is_operator willing bob (codes "#a") (codes "carol") chatting kick-ok

moding : Cmd
moding = message (codes "MODE") (codes "#a +t")

mode-ok : (mode_params willing moding bob (codes "#a" ∷ codes "+t" ∷ []) chatting).0 ≡ ok tt
unfolding program
mode-ok = refl

mode_params-is_operator_example :
    (ch : Channel) × ((find (codes "#a") chatting.channels ≡ some ch)
      × ((is_participant (codes "bob") ch ≡ true) × (is_operator (codes "bob") ch ≡ true)))
mode_params-is_operator_example =
    mode_params-is_operator willing moding bob (codes "#a") (codes "+t") [] chatting mode-ok

invite-ok : (check_invite bob (codes "dave") (codes "#a") chatting).0 ≡ ok tt
unfolding program
invite-ok = refl

check_invite-is_operator_example :
    (ch : Channel) × ((find (codes "#a") chatting.channels ≡ some ch)
      × ((is_participant (codes "bob") ch ≡ true)
          × ((not (has_mode invite_mode ch) || is_operator (codes "bob") ch) ≡ true)))
check_invite-is_operator_example =
    check_invite-is_operator bob (codes "dave") (codes "#a") chatting invite-ok

-- When carol leaves the room, bob is still in it.
leave_channel-departs_example :
    Departs
      (codes "carol")
      (codes "#a")
      room
      chatting
      (leave_channel (codes "carol") (codes "#a") chatting)
unfolding find
leave_channel-departs_example =
    leave_channel-departs (codes "carol") (codes "#a") room chatting refl

-- And when her connection ends.
remove_client_from_server-Without_example :
    let after = remove_client_from_server (some 1) chatting in
    (after.0 ≡ ok tt)
    × (((find (codes "#a") chatting.channels ≡ none) × (find (codes "#a") after.1.channels ≡ none))
        ⊎ ((ch : Channel) × ((d : Channel) × ((find (codes "#a") chatting.channels ≡ some ch)
                × ((find (codes "#a") after.1.channels ≡ some d) × Without carol.nickname ch d)))))
unfolding find
remove_client_from_server-Without_example =
    remove_client_from_server-Without 1 carol chatting (codes "#a") refl
