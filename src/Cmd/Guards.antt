-- ===== src/Cmd/Guards.antt =====
-- What a client that is not registered can do: the guards at the head of the handlers (src/Cmd/).
use ft_irc_refactor.Cmd.Frame.Message.{cmd_unknown-Keeps}
use ft_irc_refactor.Cmd.Frame.Cast.{reply-Keeps}
use ft_irc_refactor.Base.{◌≡◌, ◌≢◌, refl, ap, true, false, some, Str, Map, str_key, ℕ_key, find}
use ft_irc_refactor.Channel.{Ptr, Channel}
use ft_irc_refactor.Client.{Client, set_nickname, set_nick_status}
use ft_irc_refactor.Server.State.{
  Env, Server, throw, Action, ◌>>=◌, ◌>>◌, deref, update_client, or_undefined,
}
use ft_irc_refactor.Server.Keeps.{keeps_rules, Keeps-deref, Keeps, Keeps-bind, Keeps-modify}
use ft_irc_refactor.Server.Net.{
  mark_client_for_removal_cases, enable_poll_out_event, add_client_by_nickname, make_msg,
  prefix_server,
}
use ft_irc_refactor.Cmd.Context.{Cmd, demand}
use ft_irc_refactor.Cmd.Dispatch.{
  Verb, cap, nick, pass, user, ping, join, part, privmsg, kick, invite, mode, topic, quit, unknown,
  run_verb,
}
use ft_irc_refactor.Cmd.Register.{cmd_nick, cmd_ping, check_nick, apply_nick}
use ft_irc_refactor.Cmd.Join.{cmd_join}
use ft_irc_refactor.Cmd.Part.{cmd_part, cmd_kick}
use ft_irc_refactor.Cmd.Invite.{cmd_invite}
use ft_irc_refactor.Cmd.Topic.{cmd_topic}
use ft_irc_refactor.Cmd.Privmsg.{cmd_privmsg}
use ft_irc_refactor.Cmd.Frame.{Quiet}
use ft_irc_refactor.Cmd.Frame.Register.{
  cmd_cap-Keeps, cmd_pass-Keeps, cmd_user-Keeps, cmd_quit-Keeps,
}
use ft_irc_refactor.Cmd.Errors.Handlers.{check_nick-ReadOnly}
use ft_irc_refactor.Reply

abbrev Still : Map Str Channel → Server → Type 0
Still chs s = s.channels ≡ chs

module _ (chs : Map Str Channel) where
  edits : (p : Ptr) (f : Client → Client) → Keeps (Still chs) (update_client p f)
  unfolding update_client
  edits p f = Keeps-bind _ _ (Keeps-deref p) (λ c. Keeps-modify _ (λ s h. h))

  still : Quiet (Still chs)
  unfolding enable_poll_out_event
  still = record {
    edit = λ p f e. edits p f;
    register = λ p c s there ready h. h;
    nicked = λ p c s there old h. h;
    mark = λ fd s h. mark_client_for_removal_cases (Still chs) fd s h h;
    poll_out = λ fd s h. h;
    output = λ s n w h. h;
  }

-- The refusal that these handlers begin with.
abbrev refusal : Str → Str
refusal name = make_msg prefix_server (Reply.err_notregistered name)

module _ (env : Env) (c : Cmd) (p : Ptr) (me : Client) (s : Server) (own : c.client ≡ some p)
    (there : find p s.heap ≡ some me) (new : me.registered ≡ false) where
  refused_part : cmd_part env c s ≡ (throw (refusal me.nickname), s)
  unfolding cmd_part ◌>>=◌ deref
  refused_part = rw (own, there, new) refl

  refused_kick : cmd_kick env c s ≡ (throw (refusal me.nickname), s)
  unfolding cmd_kick ◌>>=◌ deref
  refused_kick = rw (own, there, new) refl

  refused_invite : cmd_invite env c s ≡ (throw (refusal me.nickname), s)
  unfolding cmd_invite ◌>>=◌ deref
  refused_invite = rw (own, there, new) refl

  refused_topic : cmd_topic env c s ≡ (throw (refusal me.nickname), s)
  unfolding cmd_topic ◌>>=◌ deref
  refused_topic = rw (own, there, new) refl

  refused_privmsg : cmd_privmsg env c s ≡ (throw (refusal me.nickname), s)
  unfolding cmd_privmsg ◌>>=◌ deref
  refused_privmsg = rw (own, there, new) refl

  refused_ping : cmd_ping env c s ≡ (throw (refusal me.nickname), s)
  unfolding cmd_ping ◌>>=◌ deref
  refused_ping = rw (own, there, new) refl

  join_still : Still s.channels (cmd_join env c s).1
  unfolding cmd_join ◌>>=◌ deref
  join_still = rw (own, there, new) ((reply-Keeps (still s.channels) env _ _).at s refl)

  abbrev nick_rest : Cmd → Action (Unit {0})
  nick_rest d = do
    demand me.pass (Reply.err_notregistered me.nickname)
    check_nick d d.cmd_params
    q ← or_undefined d.client
    apply_nick env d me q

  checking : (d : Cmd) (str : Str) → Keeps (Still s.channels) (check_nick d str)
  checking d str = record { at = λ t h. rw ((check_nick-ReadOnly d str).same t) h }

  naming-Still : (d : Cmd) (q : Ptr) → Keeps (Still s.channels) (apply_nick env d me q)
  unfolding apply_nick add_client_by_nickname
  naming-Still d q = rw new (
      Keeps-bind _ _ (edits _ _ (set_nickname d.cmd_params))
        λ _. Keeps-bind _ _ (Keeps-modify _ (λ t h. h)) λ _. edits _ _ (set_nick_status true))

  nick_rest-Still : (d : Cmd) → Keeps (Still s.channels) (nick_rest d)
  nick_rest-Still d = search (keeps_rules, checking, naming-Still) depth 12

  nick_still : Still s.channels (cmd_nick env c s).1
  unfolding cmd_nick ◌>>=◌ deref
  nick_still = rw (own, there) ((nick_rest-Still _).at s refl)

  -- A client that is not registered changes no channel, by whatever command but MODE.
  pub run_verb-unregistered : (v : Verb) → v ≢ mode → (run_verb env v c s).1.channels ≡ s.channels
  unfolding run_verb
  run_verb-unregistered cap h = (cmd_cap-Keeps (still s.channels) env c).at s refl
  run_verb-unregistered nick h = nick_still
  run_verb-unregistered pass h = (cmd_pass-Keeps (still s.channels) c).at s refl
  run_verb-unregistered user h = (cmd_user-Keeps (still s.channels) env c).at s refl
  run_verb-unregistered ping h = ap (λ x. x.1.channels) refused_ping
  run_verb-unregistered join h = join_still
  run_verb-unregistered part h = ap (λ x. x.1.channels) refused_part
  run_verb-unregistered privmsg h = ap (λ x. x.1.channels) refused_privmsg
  run_verb-unregistered kick h = ap (λ x. x.1.channels) refused_kick
  run_verb-unregistered invite h = ap (λ x. x.1.channels) refused_invite
  run_verb-unregistered mode h = absurd (h refl)
  run_verb-unregistered topic h = ap (λ x. x.1.channels) refused_topic
  run_verb-unregistered quit h = (cmd_quit-Keeps (still s.channels) c).at s refl
  run_verb-unregistered unknown h = (cmd_unknown-Keeps (still s.channels) env c).at s refl
