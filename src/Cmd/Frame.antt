-- ===== src/Cmd/Frame.antt =====
-- The frame of the commands (src/Cmd/): the changes of the state that they are made of, as the
-- conditions that an invariant of messages has to meet.
pub mod Edits
pub mod Cast
pub mod Acts
pub mod Seats
pub mod Rooms
pub mod Register
pub mod Members
pub mod Join
pub mod Joining
pub mod Nick
pub mod Talk
pub mod Mode
pub mod Message
use ft_irc_refactor.Base.{
  ◌≢◌, Once, ◌⊎◌, find-assign_same, is_alnum, ◌≤◌, assign, ◌≡◌, find, ℕ_key, some, ℕ, Bool, true,
  false, not, List, [], ◌∷◌, Option, none, Str, refl, if◌then◌else◌, Map, is_empty, mem, str_key,
  arith, leb, length, is_some, ◌&&◌, ◌||◌, all,
}
use ft_irc_refactor.Cmd.Proper.{
  set_nickname-Proper, set_user_status-Proper, set_nick_status-Proper, set_pass_status-Proper, like,
  Proper,
}
use ft_irc_refactor.Client.{
  Client, set_nickname, set_username, set_realname, set_servername, update_last_ping_sent,
  set_pass_status, set_nick_status, set_user_status, set_registered_status, set_prefix,
  append_to_send_buffer, clear_send_buffer,
}
use ft_irc_refactor.Channel.{add_participant, Ptr, Channel}
use ft_irc_refactor.Server.State.{
  put, Env, Server, SendResult, sent, again, gone, failed, Outcome, ok, throw, fault, Action, pure,
  ask, get, modify, update_client, update_channel, ◌>>=◌, attempt, for_each,
}
use ft_irc_refactor.Server.Keeps.{
  Keeps, Keeps-bind, Keeps-modify, Keeps-for_each, Keeps-attempt, Keeps-pure, Keeps-ask,
  Keeps-undefined, keeps_rules,
}
use ft_irc_refactor.Server.Net.{
  find_nickname, mark_client_for_removal, enable_poll_out_event, update_clients, cast_msg, cast_to,
  after_send, send, broadcast_channel, broadcast_all, cast_participant, get_client_by_nickname,
  remove_channel, set_channels, add_client_by_nickname, update_nick_name_client_map,
}
use ft_irc_refactor.Cmd.Context.{Cmd, reply}
use ft_irc_refactor.Cmd.Register.{
  nick_max_len, cmd_cap, cmd_pass, cmd_nick, cmd_user, cmd_ping, cmd_quit, check_nick,
  rename_registered, rename_in_channels, print_welcome, print_motd, check_username, check_realname,
  user_tokens, user_realname,
}
use ft_irc_refactor.Cmd.Join.{cmd_join}
use ft_irc_refactor.Cmd.Dispatch.{handle_client_cmd, run_verb, on_exception, Verb}

-- A method of Client that leaves the descriptor and the receive buffer alone, and the object proper.
pub record IsChange (f : Client → Client) : Type 0 where
  pub same_fd : (c : Client) → (f c).fd ≡ c.fd
  pub same_recv : (c : Client) → (f c).recv_buffer ≡ c.recv_buffer
  pub proper : (c : Client) → Proper c → Proper (f c)

-- One that leaves alone, too, the nickname and whether the client is registered.
pub record IsEdit (f : Client → Client) : Type 0 where
  pub change : IsChange f
  pub same_nickname : (c : Client) → (f c).nickname ≡ c.nickname
  pub same_nick : (c : Client) → (f c).nick ≡ c.nick
  pub same_registered : (c : Client) → (f c).registered ≡ c.registered

-- What an invariant has to survive where a message only reads the channels: changes of a client,
-- marks, poll requests and output.
pub record Quiet (P : Server → Type 0) : Type 0 where
  pub edit : (p : Ptr) (f : Client → Client) → IsEdit f → Keeps P (update_client p f)
  -- The end of a registration, which cmdUser has tested for.
  pub register :
      (p : Ptr) (c : Client) (s : Server)
      → find p s.heap ≡ some c
      → (c.pass && c.nick && c.user) ≡ true
      → P s
      → P (put p (set_registered_status true c) s)
  -- The end of NICK from a client that is registered.
  pub nicked :
      (p : Ptr) (c : Client) (s : Server)
      → find p s.heap ≡ some c
      → c.registered ≡ true
      → P s
      → P (put p (set_nick_status true c) s)
  pub mark : (fd : ℕ) (s : Server) → P s → P (mark_client_for_removal fd s)
  pub poll_out : (fd : ℕ) (s : Server) → P s → P (enable_poll_out_event fd s)
  pub output :
      (s : Server) (n : ℕ) (w : List (ℕ × Str)) → P s → P (record s { sends = n; wire = w })

-- No channel gets a participant.
abbrev pub Fewer : (before after : Map Str Channel) → Type 0
Fewer before after =
    (name : Str) (ch : Channel) (n : Str) (p : Ptr)
    → find name after ≡ some ch
    → find n ch.participant ≡ some p
    → (old : Channel) × ((find name before ≡ some old) × (find n old.participant ≡ some p))

-- The participants of each channel are a map still.
abbrev pub Tidy : (before after : Map Str Channel) → Type 0
Tidy before after =
    (name : Str) (ch : Channel)
    → find name after ≡ some ch
    → Once ch.participant
      ⊎ ((old : Channel) × ((find name before ≡ some old)
            × (Once old.participant → Once ch.participant)))

-- And where it does not: a change of the channels in which nobody enters one.
pub record Channels (P : Server → Type 0) : Type 0 where
  pub channel :
      (s : Server) (chs : Map Str Channel)
      → Fewer s.channels chs
      → Tidy s.channels chs
      → P s
      → P (record s { channels = chs })

-- What checkNick accepts: the bytes, and that no client has the nickname.
abbrev pub GoodNick : Str → Type 0
GoodNick str = (length str ≤ nick_max_len) × (all is_alnum str ≡ true) × (str ≢ [])

abbrev pub Unused : Str → Server → Type 0
Unused str s = find_nickname s.heap str s.clients ≡ ok none

-- What NICK makes of the state, for a client that is not registered, and for one that is.
abbrev pub first_name : Ptr → Client → Str → Server → Server
first_name p c t s =
    put p (set_nick_status true (set_nickname t c))
      (add_client_by_nickname t p (put p (set_nickname t c) s))

abbrev pub new_name : Ptr → Client → Str → Server → Server
new_name p c t s = rename_in_channels c.nickname t p (
    update_nick_name_client_map c.nickname t p
      (update_clients p c.fd (put p (set_prefix (set_nickname t c)) (put p (set_nickname t c) s))))

-- The two changes of NICK, for the client at this address.
pub record Names (P : Server → Type 0) (p : Ptr) : Type 0 where
  pub named :
      (c : Client) (t : Str) (s : Server)
      → find p s.heap ≡ some c
      → c.registered ≡ false
      → GoodNick t
      → Unused t s
      → P s
      → P (first_name p c t s)
  pub renamed :
      (c : Client) (t : Str) (s : Server)
      → find p s.heap ≡ some c
      → c.registered ≡ true
      → GoodNick t
      → Unused t s
      → P s
      → P (new_name p c t s)

-- The other changes: a participant that enters, and those of NICK; `own` is the client that gives
-- the command, if any.
pub record Moves (P : Server → Type 0) (own : Option Ptr) : Type 0 where
  pub channels : Channels P
  pub join :
      (p : Ptr) (c : Client) (name : Str) (ch : Channel) (s : Server)
      → own ≡ some p
      → find p s.heap ≡ some c
      → c.registered ≡ true
      → find name s.channels ≡ some ch
      → P s
      → P (record s { channels = assign name (add_participant c.nickname p ch) s.channels })
  pub names : (p : Ptr) → own ≡ some p → Names P p

-- A change of a channel in its topic and its invitations alone.
pub record Plain (f : Channel → Channel) : Type 0 where
  pub rest : (ch : Channel) → f ch ≡ record ch { topic = (f ch).topic; invited = (f ch).invited }

-- An invariant that such changes keep.
abbrev pub Plains : (Server → Type 0) → Type 0
Plains P = (name : Str) (f : Channel → Channel) → Plain f → Keeps P (update_channel name f)

-- A change of a channel that leaves its participants alone.
pub record SameSeats (f : Channel → Channel) : Type 0 where
  pub same : (ch : Channel) → (f ch).participant ≡ ch.participant

abbrev pub Updates : (Server → Type 0) → Type 0
Updates P = (name : Str) (f : Channel → Channel) → SameSeats f → Keeps P (update_channel name f)

-- An invariant that needs none of these conditions. `Known p fd` is what it lets one learn of an
-- object.
pub record Frame (P : Server → Type 0) (Known : Ptr → ℕ → Type 0) : Type 0 where
  pub changes :
      (p : Ptr) (c : Client) (f : Client → Client) (s : Server)
      → find p s.heap ≡ some c
      → IsChange f
      → P s
      → P (put p (f c) s)
  pub channel : (s : Server) (chs : Map Str Channel) → P s → P (record s { channels = chs })
  pub nick : (s : Server) (m : Map Str Ptr) → P s → P (record s { nick_name_client_map = m })
  pub learn : (p : Ptr) (s : Server) (c : Client) → P s → find p s.heap ≡ some c → Known p c.fd
  pub client : (p : Ptr) (fd : ℕ) → Known p fd → (s : Server) → P s → P (update_clients p fd s)
