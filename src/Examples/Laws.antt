-- ===== src/Examples/Laws.antt =====
-- Examples for the operators, the key and the limit of a channel (src/Cmd/, src/Server.cpp).
use ft_irc_refactor.Server.Occupied.Fate.{Fate, handle_client_cmd-Fate}
use ft_irc_refactor.Server.Occupied.{Occupied}
use ft_irc_refactor.Server.Net.{
  make_msg, set_mode_unless_nul, after_send, cast_to, cast_msg, cast_participant, broadcast_channel,
  send, set_channels,
}
use ft_irc_refactor.Reply
use ft_irc_refactor.Client.{clear_send_buffer}
use ft_irc_refactor.Cmd.Join.{
  send_topic, participant_names, get_participant_name_str, enter_channel, check_limit, check_join,
  create_channel, join_channel, join_channels, check_channel_names, join_registered, cmd_join,
}
use ft_irc_refactor.Cmd.Split.{is_valid_channel_name, join_split_from, join_split}
use ft_irc_refactor.Server.Staying.Message.{handle_client_cmd-leaves}
use ft_irc_refactor.Server.Staying.Kick.{Kicked}
use ft_irc_refactor.Server.Members.Entering.{handle_client_cmd-enters, In}
use ft_irc_refactor.Program.Lawful.{serve-Lawful}
use ft_irc_refactor.Server.Members.{Seated}
use ft_irc_refactor.Examples.Serving.{granting}
use ft_irc_refactor.Server.Leaving.Turn.{checked}
use ft_irc_refactor.Server.Startup.{open_socket, new_server, init}
use ft_irc_refactor.Program.{serve}
use ft_irc_refactor.Server.Members.Serving.{FreshRun}
use ft_irc_refactor.Server.Teardown.{silent_clients, check_ping_time_out}
use ft_irc_refactor.Server.State.{
  attempt, update_client, channel_at, update_channel, pure, for_each, modify, deref, ◌>>=◌, Server,
}
use ft_irc_refactor.Examples.Channels.{carol, room}
use ft_irc_refactor.Server.Laws.Message.{handle_client_cmd-Lawful}
use ft_irc_refactor.Examples.{bob, willing, message}
use ft_irc_refactor.Cmd.Dispatch.{run_verb, verb_of, handle_client_cmd}
use ft_irc_refactor.Cmd.Context.{reply, Cmd}
use ft_irc_refactor.Server.Members.Known.{Known}
use ft_irc_refactor.Examples.Seats.{
  peer_fd, pair-Seated, third, none_left, one_of_two, first_or_later, pair,
}
use ft_irc_refactor.Channel.{
  add_participant, add_operator, set_key, new_channel, Channel, is_set_key,
}
use ft_irc_refactor.Base.{
  erase, insert, assign, ◌⊎◌, none, not_both, is_empty, false, true, ◌≡◌, ◌≢◌, refl, inl, inr, [],
  ◌∷◌, some, Str, find, ℕ_key, str_key, ap, subst, codes,
}
use ft_irc_refactor.Server.Laws.{Ruled, Lawful}

room-Ruled : Ruled room
unfolding find is_set_key
room-Ruled = record {
  operators = λ n p e. elim (first_or_later n (codes "bob") 0 p [] e) [
    | inr h ↦ absurd (none_left n p h)
    | inl (same, ptr) ↦ subst (λ x. find x room.participant ≡ some p) same (ap some ptr)
  ];
  keyed = refl;
  limited = λ e. absurd (not_both e refl);
}

pair-Lawful : Lawful pair
pair-Lawful = record {
  ruled = λ name ch e. elim (first_or_later name (codes "#a") room ch [] e) [
    | inr h ↦ absurd (none_left name ch h)
    | inl (_, is) ↦ subst Ruled is room-Ruled
  ];
}

named : (t : Str) → is_empty t ≡ false → t ≢ []
named t some_byte e = not_both (ap is_empty e) some_byte

pair-Known : Known pair
unfolding find
pair-Known = record {
  given = λ p c e r. elim (one_of_two p 0 1 bob carol c e) [
    | inl (ptr, is) ↦ subst (λ x. x.nick ≡ true) is refl
    | inr (ptr, is) ↦ subst (λ x. x.nick ≡ true) is refl
  ];
  known = λ p c e n. elim (one_of_two p 0 1 bob carol c e) [
    | inl (ptr, is) ↦
        subst (λ x. (x.nickname ≢ []) × (find x.nickname pair.nick_name_client_map ≡ some p)) is
          (named (codes "bob") refl, ap some ptr)
    | inr (ptr, is) ↦
        subst (λ x. (x.nickname ≢ []) × (find x.nickname pair.nick_name_client_map ≡ some p)) is
          (named (codes "carol") refl, ap some ptr)
  ];
}

-- bob makes carol an operator.
abbrev promotion : Cmd
promotion = message (codes "MODE") (codes "#a +o carol")

handle_client_cmd-Lawful_example :
    Lawful (handle_client_cmd willing promotion pair).1
    × Known (handle_client_cmd willing promotion pair).1
handle_client_cmd-Lawful_example =
    handle_client_cmd-Lawful willing promotion pair pair-Seated pair-Known pair-Lawful

-- A client connects to a server that has just started.
abbrev begun : Server
begun = (init granting 6667 (new_server (codes "secret") 0)).1

free_again : find 6 (checked 1 begun).clients ≡ none
unfolding check_ping_time_out silent_clients ◌>>=◌ deref find modify for_each pure init open_socket
    new_server
free_again = refl

begun-FreshRun : FreshRun willing ((1, third) ∷ []) begun
begun-FreshRun = (
  (
    λ e fd host is. subst (λ x. find x (checked 1 begun).clients ≡ none) (peer_fd is) free_again,
    tt,
  ),
  tt,
)

serve-Lawful_example :
    let s = (serve willing granting 6667 ((1, third) ∷ []) (new_server (codes "secret") 0)).1 in
    Seated s × (Lawful s × Known s)
serve-Lawful_example =
    serve-Lawful willing granting 6667 ((1, third) ∷ []) (codes "secret") 0 begun-FreshRun

-- bob makes a channel.
abbrev joining : Cmd
joining = message (codes "JOIN") (codes "#b")

abbrev joined_room : Channel
joined_room = record (new_channel (codes "#b")) {
  participant = (codes "bob", 0) ∷ [];
  operator = (codes "bob", 0) ∷ [];
}

joined_after :
    find (codes "#b") (handle_client_cmd willing joining pair).1.channels ≡ some joined_room
unfolding handle_client_cmd verb_of run_verb cmd_join join_registered join_split join_split_from
    check_channel_names join_channels join_channel create_channel set_channels update_channel
    channel_at check_join check_limit enter_channel broadcast_channel cast_participant cast_msg
    cast_to after_send send update_client deref modify find assign insert erase ◌>>=◌ pure attempt
    for_each get_participant_name_str participant_names reply send_topic new_channel set_key
    set_mode_unless_nul add_operator add_participant clear_send_buffer is_valid_channel_name
    make_msg Reply.rpl_join Reply.rpl_namreply Reply.rpl_endofnames Reply.rpl_notopic
joined_after = refl

handle_client_cmd-enters_example : (joining.client ≡ some 0) ⊎ In pair (codes "#b") 0
unfolding find new_channel
handle_client_cmd-enters_example =
    handle_client_cmd-enters willing joining pair (codes "#b") 0
      (joined_room, (joined_after, (codes "bob", refl)))

-- And puts carol out of the other.
abbrev kicking : Cmd
kicking = message (codes "KICK") (codes "#a carol")

handle_client_cmd-leaves_example :
    (kicking.client ≡ some 1)
    ⊎ (Kicked kicking pair (codes "#a")
        ⊎ In (handle_client_cmd willing kicking pair).1 (codes "#a") 1)
unfolding find
handle_client_cmd-leaves_example =
    handle_client_cmd-leaves willing kicking pair (codes "#a") 1 pair-Seated pair-Known
      (room, (refl, (codes "carol", refl)))

pair-Occupied : Occupied pair
pair-Occupied = record {
  someone = λ name ch e. elim (first_or_later name (codes "#a") room ch [] e) [
    | inr h ↦ absurd (none_left name ch h)
    | inl (_, is) ↦ subst (λ x. is_empty x.participant ≡ false) is refl
  ];
}

handle_client_cmd-Fate_example :
    Fate joining pair (handle_client_cmd willing joining pair).1 (codes "#b")
handle_client_cmd-Fate_example =
    handle_client_cmd-Fate willing joining pair (codes "#b") pair-Seated pair-Known pair-Occupied
