-- ===== src/Server/Occupied/Message.antt =====
-- JOIN and whole messages (src/Cmd/): whether a channel has a participant.
use ft_irc_refactor.Cmd.Frame.Mode.{handle_flag_option-Keeps}
use ft_irc_refactor.Cmd.Frame.Members.{cmd_part-Keeps, cmd_kick-Keeps}
use ft_irc_refactor.Cmd.Frame.Joining.{cmd_join-Keeps}
use ft_irc_refactor.Cmd.Dispatch.{handle_client_cmd}
use ft_irc_refactor.Cmd.Frame.Message.{client_cmd-Keeps, Rooms}
use ft_irc_refactor.Cmd.Frame.{Moves, Quiet}
use ft_irc_refactor.Server.Laws.Creation.{passes, made-Fresh, blank, made}
use ft_irc_refactor.Server.Laws.Room.{checked_then}
use ft_irc_refactor.Server.Laws.Join.{join_channel-Keeps, created, opened, given}
use ft_irc_refactor.Cmd.Frame.Rooms.{plain-Keeps}
use ft_irc_refactor.Client.{Client}
use ft_irc_refactor.Cmd.Context.{Cmd}
use ft_irc_refactor.Cmd.Frame.Join.{joined-Keeps, check_join-Keeps, entered-Keeps, entered}
use ft_irc_refactor.Cmd.Join.{check_join, join_channel, enter_channel}
use ft_irc_refactor.Channel.{Ptr, add_participant, Channel}
use ft_irc_refactor.Base.{
  Option, Option-cases, find-assign_same, is_empty, false, ◌≡◌, ◌≢◌, refl, inl, inr, none, some,
  Str, find, assign, ℕ_key, str_key, subst,
}
use ft_irc_refactor.Server.State.{
  deref, Env, Server, pure, modify, channel_at, update_channel, ◌>>=◌,
}
use ft_irc_refactor.Server.Occupied.{
  Occupied-Names, Occupied, Occupied-Quiet, Occupied-Updates, settled, other_channel, same_channel,
  entered_map,
}
use ft_irc_refactor.Server.Occupied.Leave.{leave_channel-Occupied}

joined_room :
    (nick : Str) (p : Ptr) (ch : Channel) → is_empty (add_participant nick p ch).participant ≡ false
unfolding add_participant
joined_room nick p ch = entered_map nick p ch.participant

-- Where all but one channel have participants, and the client enters that one.
enter_channel-at :
    (env : Env) (c : Cmd) (p : Ptr) (me : Client) (name : Str) (ch : Channel) (s t : Server)
    → find p t.heap ≡ some me
    → find name t.channels ≡ some ch
    → ((k : Str) (d : Channel) → name ≢ k → find k t.channels ≡ some d → find k s.channels ≡ some d)
    → Occupied s
    → Occupied (enter_channel env c p name t).1
unfolding enter_channel entered update_channel channel_at deref ◌>>=◌ modify
enter_channel-at env c p me name ch s t there held others h =
    let seated = add_participant me.nickname p ch in
    rw (there, held, held)
      ((entered-Keeps Occupied-Quiet (plain-Keeps Occupied-Updates) env c me ch name).at _ (
        settled name s (record t { channels = assign name seated t.channels })
          (λ k d differ e. others k d differ (other_channel name k seated d t.channels differ e))
          (λ d e.
            subst (λ x. is_empty x.participant ≡ false) (same_channel name seated d t.channels e)
              (joined_room me.nickname p ch))
          h))

module _ (env : Env) (c : Cmd) (p : Ptr) (me : Client) (name key : Str) (s : Server)
    (there : find p s.heap ≡ some me) (h : Occupied s) where
  old-Occupied :
      (ch : Channel)
      → find name s.channels ≡ some ch
      → Occupied (join_channel env (given c p) name key s).1
  unfolding join_channel channel_at deref ◌>>=◌ pure
  old-Occupied ch held =
      rw (there, held, held)
        (checked_then Occupied (check_join me.nickname name key ch)
          (λ _. enter_channel env (given c p) p name) s
          ((check_join-Keeps {P = λ t. t ≡ s} me.nickname name key ch).at s refl) h
          λ _ _. enter_channel-at env (given c p) p me name ch s s there held (λ k d differ e. e) h)

  new-Occupied : find name s.channels ≡ none → Occupied (join_channel env (given c p) name key s).1
  unfolding join_channel channel_at deref ◌>>=◌ pure
  new-Occupied new =
      let ch = made p me.nickname name key in
      let first = assign name (blank name key) s.channels in
      let held = find-assign_same name ch first in
      let fresh = made-Fresh p me.nickname name key in
      let t = opened p me.nickname name key s in
      rw
        (
          there,
          new,
          created p me.nickname name key s new,
          held,
          passes p me.nickname name key _ t fresh,
        )
        (enter_channel-at env (given c p) p me name ch s t there held
          (λ k d differ e.
            other_channel name k (blank name key) d s.channels differ
              (other_channel name k ch d first differ e))
          h)

  joined-Occupied : Occupied (join_channel env (given c p) name key s).1
  joined-Occupied = elim (Option-cases (find name s.channels)) [
    | inl new ↦ new-Occupied new
    | inr (ch, held) ↦ old-Occupied ch held
  ]

-- What holds of every state.
abbrev Any : Server → Type 0
Any s = Unit

Any-Quiet : Quiet Any
Any-Quiet = record {
  edit = λ p f edit. record { at = λ s h. tt };
  register = λ p c s there ready h. tt;
  nicked = λ p c s there old h. tt;
  mark = λ fd s h. tt;
  poll_out = λ fd s h. tt;
  output = λ s n w h. tt;
}

Any-Moves : (own : Option Ptr) → Moves Any own
Any-Moves own = record {
  channels = record { channel = λ s chs fewer tidy h. tt };
  join = λ p c name ch s is there registered held h. tt;
  names = λ p is. record {
    named = λ c t s there new good unused h. tt;
    renamed = λ c t s there old good unused h. tt;
  };
}

Occupied-Rooms : (env : Env) (c : Cmd) → Rooms Occupied env c
Occupied-Rooms env c = record {
  join = cmd_join-Keeps Occupied-Quiet env c λ d _ name key. record {
    at = λ s (h, registered). (
      (join_channel-Keeps Occupied env d name key
            (λ p me t there k. joined-Occupied env d p me name key t there k)).at
          s h,
      ((joined-Keeps Any-Quiet env d (Any-Moves d.client) name key).at s (tt, registered)).1,
    );
  };
  part = cmd_part-Keeps Occupied-Quiet leave_channel-Occupied env c;
  plain = plain-Keeps Occupied-Updates;
  change = handle_flag_option-Keeps Occupied-Quiet Occupied-Updates;
}

-- After a message each channel has a participant, if each had one before.
pub handle_client_cmd-Occupied :
    (env : Env) (c : Cmd) (s : Server) → Occupied s → Occupied (handle_client_cmd env c s).1
handle_client_cmd-Occupied env c s h =
    (client_cmd-Keeps Occupied-Quiet env c (λ p _. Occupied-Names p) (Occupied-Rooms env c)
        (cmd_kick-Keeps Occupied-Quiet leave_channel-Occupied env c)).at
      s h
