-- ===== src/Cmd/Frame/Join.antt =====
-- JOIN (src/Cmd/CmdJoin.cpp) inside a frame. The client that gives it stays registered.
use ft_irc_refactor.Base.{
  find-assign_cases, Option-cases, true, ◌≡◌, ◌∙◌, refl, inl, inr, [], ◌∷◌, Option, none, some, Str,
  Map, find, ℕ_key, str_key, ap, sym, codes,
}
use ft_irc_refactor.Reply
use ft_irc_refactor.Cmd.Join.{
  join_channel, enter_channel, get_participant_name_str, participant_names, send_topic, check_join,
  check_limit, create_channel,
}
use ft_irc_refactor.Server.Net.{
  mark_client_for_removal_cases, make_msg, broadcast_channel, enable_poll_out_event,
}
use ft_irc_refactor.Server.State.{
  when, modify, update_channel, deref, channel_at, update_client, Action, put, ◌>>=◌, ◌>>◌, Env,
  Server,
}
use ft_irc_refactor.Client.{set_nick_status, set_registered_status, Client}
use ft_irc_refactor.Channel.{remove_invited, invite_mode, has_mode, Ptr, Channel}
use ft_irc_refactor.Server.Keeps.{
  found-some, Keeps-ask-bind, Keeps, Keeps-bind, Keeps-deref, Keeps-pure, keeps_rules,
}
use ft_irc_refactor.Cmd.Context.{reply, Cmd}
use ft_irc_refactor.Cmd.Frame.{IsEdit, Moves, Quiet, Channels, Plains}
use ft_irc_refactor.Cmd.Frame.Acts.{act}
use ft_irc_refactor.Cmd.Frame.Seats.{plain_changes, same_seats}
use ft_irc_refactor.Cmd.Frame.Rooms.{plain-Keeps, seats-Keeps, set_channels-Keeps}

-- The client that gives the command is registered.
abbrev pub IsRegistered : Option Ptr → Server → Type 0
IsRegistered o s =
    (p : Ptr) (c : Client) → o ≡ some p → find p s.heap ≡ some c → c.registered ≡ true

-- It is so when an object has changed to one that is registered if it was.
still_registered :
    (o : Option Ptr) (q : Ptr) (c d : Client) (s : Server)
    → find q s.heap ≡ some c
    → (c.registered ≡ true → d.registered ≡ true)
    → IsRegistered o s
    → IsRegistered o (put q d s)
still_registered o q c d s there keeps h p e own found =
    elim (find-assign_cases q p d e s.heap found) [
      | inl (same, here) ↦
          ap (λ x. x.registered) (sym here) ∙ keeps (h q c (own ∙ ap some (sym same)) there)
      | inr old ↦ h p e own old
    ]

-- What enterChannel does behind the entry.
unfoldable pub entered :
    Env → Cmd → (me : Client) → (before : Channel) → (name : Str) → Action (Unit {0})
entered env c me before name = do
  ch ← channel_at name
  broadcast_channel env (make_msg me.prefix (Reply.rpl_join name)) ch none
  names ← get_participant_name_str ch
  reply env c (Reply.rpl_namreply me.nickname (codes "=") ch.name names)
  reply env c (Reply.rpl_endofnames me.nickname ch.name)
  send_topic env c me.nickname ch
  when (has_mode invite_mode before) (update_channel name (remove_invited me.nickname))

module _ (o : Option Ptr) where
  edit-IsRegistered :
      (p : Ptr) (f : Client → Client) → IsEdit f → Keeps (IsRegistered o) (update_client p f)
  unfolding update_client ◌>>=◌ deref modify
  edit-IsRegistered p f edit = record {
    at = λ s r. elim (Option-cases (find p s.heap)) [
      | inl e ↦ rw e r
      | inr (c, e) ↦ rw e (still_registered o p c (f c) s e (λ h. edit.same_registered c ∙ h) r)
    ];
  }

  pub quiet_branch : Quiet (IsRegistered o)
  unfolding enable_poll_out_event set_registered_status set_nick_status
  quiet_branch = record {
    edit = edit-IsRegistered;
    register = λ p c s there ready r. still_registered o p c _ s there (λ h. refl) r;
    nicked = λ p c s there h r. still_registered o p c _ s there (λ k. k) r;
    mark = λ fd s r. mark_client_for_removal_cases (IsRegistered o) fd s r r;
    poll_out = λ fd s r. r;
    output = λ s n w r. r;
  }

-- Two invariants.
pub both_quiet : {P Q : Server → Type 0} → Quiet P → Quiet Q → Quiet (λ s. P s × Q s)
both_quiet k l = record {
  edit = λ p f e. record { at = λ s (h, r). ((k.edit p f e).at s h, (l.edit p f e).at s r) };
  register =
      λ p c s there ready (h, r). (k.register p c s there ready h, l.register p c s there ready r);
  nicked = λ p c s there old (h, r). (k.nicked p c s there old h, l.nicked p c s there old r);
  mark = λ fd s (h, r). (k.mark fd s h, l.mark fd s r);
  poll_out = λ fd s (h, r). (k.poll_out fd s h, l.poll_out fd s r);
  output = λ s n w (h, r). (k.output s n w h, l.output s n w r);
}

module _ {P : Server → Type 0} where
  check_limit-Keeps : (nick name : Str) (ch : Channel) → Keeps P (check_limit nick name ch)
  unfolding check_limit
  check_limit-Keeps nick name ch = search keeps_rules depth 8

  pub check_join-Keeps :
      (nick name key : Str) (ch : Channel) → Keeps P (check_join nick name key ch)
  unfolding check_join
  check_join-Keeps nick name key ch = search (keeps_rules, check_limit-Keeps) depth 10

module _ {P : Server → Type 0} (quiet : Quiet P) where
  pub send_topic-Keeps :
      (env : Env) (c : Cmd) (nick : Str) (ch : Channel) → Keeps P (send_topic env c nick ch)
  unfolding send_topic
  send_topic-Keeps env c nick ch = search act

  names-Keeps : (ch : Channel) (m : Map Str Ptr) → Keeps P (participant_names ch m)
  unfolding participant_names
  names-Keeps ch [] = search act
  names-Keeps ch ((key, p) ∷ rest) =
      Keeps-bind _ _ (Keeps-deref p)
        λ client. Keeps-bind _ _ (names-Keeps ch rest) (λ names. Keeps-pure _)

  pub name_str-Keeps : (ch : Channel) → Keeps P (get_participant_name_str ch)
  unfolding get_participant_name_str
  name_str-Keeps ch = names-Keeps ch _

module _ {P : Server → Type 0} (quiet : Quiet P) (plain : Plains P) where
  -- What follows the entry.
  pub entered-Keeps :
      (env : Env) (c : Cmd) (me : Client) (before : Channel) (name : Str)
      → Keeps P (entered env c me before name)
  unfolding entered
  entered-Keeps env c me before name =
      search (act, plain, plain_changes, name_str-Keeps, send_topic-Keeps) depth 20

module _ {P : Server → Type 0} (quiet : Quiet P) (channels : Channels P) where
  create_channel-Keeps : (p : Ptr) (nick name key : Str) → Keeps P (create_channel p nick name key)
  unfolding create_channel
  create_channel-Keeps p nick name key = search (act, set_channels-Keeps, seats-Keeps, same_seats)

  -- Entering a channel is left open.
  abbrev Enters : Env → Cmd → Type 0
  Enters env c = (p : Ptr) (name : Str) → c.client ≡ some p → Keeps P (enter_channel env c p name)

  join_channel-Keeps :
      (env : Env) (c : Cmd) (name key : Str) → Enters env c → Keeps P (join_channel env c name key)
  unfolding join_channel
  join_channel-Keeps env c name key enters = Keeps-bind _ _ (search act) λ me.
      Keeps-ask-bind _ _ λ s p h e. Keeps-bind _ _ (search act) λ t.
        Keeps-bind _ _ (search (act, create_channel-Keeps)) λ _. Keeps-bind _ _ (search act) λ ch.
          Keeps-bind _ _ (check_join-Keeps _ _ _ ch) λ _. enters p name (found-some c.client p e)

module _ {P : Server → Type 0} (quiet : Quiet P) (env : Env) (c : Cmd)
    (moves : Moves P c.client) where
  abbrev Both : Server → Type 0
  Both s = P s × IsRegistered c.client s

  quiets : Quiet Both
  quiets = both_quiet quiet (quiet_branch c.client)

  opened : Channels Both
  opened = record {
    channel = λ s chs fewer tidy (h, r). (moves.channels.channel s chs fewer tidy h, r);
  }

  enter_channel-Keeps :
      (p : Ptr) (name : Str) → c.client ≡ some p → Keeps Both (enter_channel env c p name)
  unfolding enter_channel entered update_channel channel_at deref ◌>>=◌ modify
  enter_channel-Keeps p name own = record {
    at = λ s (h, r). elim (Option-cases (find p s.heap)) [
      | inl e ↦ rw e (h, r)
      | inr (me, there) ↦ elim (Option-cases (find name s.channels)) [
        | inl e ↦ rw (there, e) (h, r)
        | inr (ch, e) ↦
            rw (there, e, e)
              ((entered-Keeps quiets (plain-Keeps (seats-Keeps opened)) env c me ch name).at _
                (moves.join p me name ch s own there (r p me own there) e h, r))
      ]
    ];
  }

  pub joined-Keeps : (name key : Str) → Keeps Both (join_channel env c name key)
  joined-Keeps name key = join_channel-Keeps quiets opened env c name key enter_channel-Keeps
