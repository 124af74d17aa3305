-- ===== src/Server/Occupied/Kick.antt =====
-- KICK (src/Cmd/CmdKick.cpp): a channel ends with it only where its operator was alone in it.
use ft_irc_refactor.Base.{
  true, ◌≡◌, ◌∙◌, refl, inl, inr, List, [], ◌∷◌, none, some, Str, Map, is_some, find, ℕ_key,
  str_key, ap, sym, subst, str_eq_iff, not_both, str_eq, same_value, Bool-cases, not_found,
  Option-cases,
}
use ft_irc_refactor.Server.State.{
  ◌>>=◌, Server, modify, deref, update_client, Env, raise, channel_at, attempt,
}
use ft_irc_refactor.Channel.{is_operator, Channel, Ptr, is_participant}
use ft_irc_refactor.Client.{Client}
use ft_irc_refactor.Cmd.Frame.{Quiet}
use ft_irc_refactor.Server.Net.{
  mark_client_for_removal_cases, enable_poll_out_event, make_msg, broadcast_channel,
}
use ft_irc_refactor.Server.Members.Known.{Known}
use ft_irc_refactor.Server.Members.{Seated, Member}
use ft_irc_refactor.Server.Members.Entering.{In}
use ft_irc_refactor.Cmd.Context.{Cmd}
use ft_irc_refactor.Cmd.Dispatch.{verb_of, handle_client_cmd, run_verb, Verb}
use ft_irc_refactor.Cmd.Frame.Cast.{broadcast_channel-Keeps}
use ft_irc_refactor.Cmd.Frame.Message.{caught-Keeps}
use ft_irc_refactor.Cmd.Part.{leave_channel, kick, kick_params, cmd_kick, kick_comment}
use ft_irc_refactor.Reply
use ft_irc_refactor.Server.Keeps.{and_then-at}
use ft_irc_refactor.Server.Staying.Kick.{guard-at, read-at, behind_channel, behind_name, sent_off}
use ft_irc_refactor.Server.Occupied.Departs.{leave_channel-departs, Other}

-- What holds of the channels, where a step leaves them alone.
channels-Quiet : (F : Map Str Channel → Type 0) → Quiet (λ s. F s.channels)
unfolding enable_poll_out_event update_client ◌>>=◌ deref modify
channels-Quiet F = record {
  edit = λ p f edit. record {
    at = λ s h. elim (Option-cases (find p s.heap)) [ inl e ↦ rw e h | inr (c, e) ↦ rw e h ];
  };
  register = λ p c s there ready h. h;
  nicked = λ p c s there old h. h;
  mark = λ fd s h. mark_client_for_removal_cases (λ t. F t.channels) fd s h h;
  poll_out = λ fd s h. h;
  output = λ s n w h. h;
}

pub not_there : (name : Str) (q : Ptr) (s : Server) → find name s.channels ≡ none → In s name q → ⊥
not_there name q s new (ch, (held, seat)) = not_found (sym new ∙ held)

module _ (p : Ptr) (me : Client) (s : Server) (seated : Seated s) (knows : Known s)
    (there : find p s.heap ≡ some me) where
  -- Where a channel has ended, nobody but the client was in it.
  abbrev Alone : Map Str Channel → Type 0
  Alone chs = (name : Str) (q : Ptr) → find name chs ≡ none → In s name q → p ≡ q

  unchanged-Alone : Alone s.channels
  unchanged-Alone name q over was = absurd (not_there name q s over was)

  stands_as :
      (target : Str) (ch : Channel) (n : Str) (q : Ptr)
      → (Other target ch → ⊥)
      → find n ch.participant ≡ some q
      → target ≡ n
  stands_as target ch n q alone seat = elim (Bool-cases (str_eq target n)) [
    | inl same ↦ (str_eq_iff target n).0 same
    | inr other ↦
        absurd (alone (n, (q, (λ same. not_both ((str_eq_iff target n).1 same) other, seat))))
  ]

  seat_of :
      (ch : Channel)
      → is_participant me.nickname ch ≡ true
      → (q : Ptr) × (find me.nickname ch.participant ≡ some q)
  seat_of ch member = elim (Option-cases (find me.nickname ch.participant)) [
    | inl e ↦ absurd (not_both (sym (ap is_some e) ∙ member) refl)
    | inr found ↦ found
  ]

  is_me : (n : Str) (q : Ptr) → me.registered ≡ true → me.nickname ≡ n → Member n q s → p ≡ q
  is_me n q registered same m =
      seated.distinct p q me m.client there m.there (same ∙ sym m.name)
        (knows.known p me there (knows.given p me there registered)).0

  only_sender :
      (target name : Str) (ch : Channel)
      → me.registered ≡ true
      → find name s.channels ≡ some ch
      → is_participant me.nickname ch ≡ true
      → (Other target ch → ⊥)
      → (q : Ptr) → In s name q
      → p ≡ q
  only_sender target name ch registered held member alone q (d, (found, (n, seat))) =
      let (mine, my_seat) = seat_of ch member in
      let same : target ≡ n =
        stands_as target ch n q alone
          (subst (λ x. find n x.participant ≡ some q) (same_value (sym found ∙ held)) seat) in
      is_me n q registered (sym (stands_as target ch me.nickname mine alone my_seat) ∙ same)
        (seated.seat name d n q found seat)

  departed-Alone :
      (target name : Str) (ch : Channel) (u : Server)
      → me.registered ≡ true
      → find name s.channels ≡ some ch
      → is_participant me.nickname ch ≡ true
      → u.channels ≡ s.channels
      → Alone (leave_channel target name u).1.channels
  departed-Alone target name ch u registered held member same k q over was =
      let (_, (others, fate)) =
        leave_channel-departs target name ch u (ap (find name) same ∙ held) in
      elim (Bool-cases (str_eq name k)) [
        | inr other ↦ absurd (
            not_there k q s
              (sym (ap (find k) same)
                ∙ sym (others k (λ is. not_both ((str_eq_iff name k).1 is) other))
                ∙ over)
              was)
        | inl is ↦
            let back : k ≡ name = sym ((str_eq_iff name k).0 is) in
            elim fate [
              | inl (alone, _) ↦
                  only_sender target name ch registered held member alone q
                    (subst (λ x. In s x q) back was)
              | inr (_, (d, (found, _))) ↦
                  let here : find name (leave_channel target name u).1.channels ≡ none =
                    ap (λ x. find x (leave_channel target name u).1.channels) (sym back) ∙ over in
                  absurd (not_found (sym here ∙ found))
            ]
      ]

  -- What KICK leaves of the channels.
  abbrev Ends : Server → Type 0
  Ends t = Alone t.channels

  sent_off-Ends :
      (env : Env) (target name : Str) (ch : Channel)
      → me.registered ≡ true
      → find name s.channels ≡ some ch
      → is_participant me.nickname ch ≡ true
      → Ends (sent_off env me name target ch s).1
  unfolding ◌>>=◌
  sent_off-Ends env target name ch registered held member =
      let message = make_msg me.prefix (Reply.rpl_kick name target kick_comment) in
      let same =
        (broadcast_channel-Keeps (channels-Quiet (λ chs. chs ≡ s.channels)) env message ch none).at
          s refl in
      and_then-at Ends (broadcast_channel env message ch none s).0 _ _
        (subst Alone (sym same) unchanged-Alone)
        (λ _. departed-Alone target name ch _ registered held member same)

  behind_channel-Ends :
      (env : Env) (target name : Str) (ch : Channel)
      → me.registered ≡ true
      → find name s.channels ≡ some ch
      → Ends (behind_channel env me name target ch s).1
  behind_channel-Ends env target name ch registered held =
      guard-at Ends (is_participant me.nickname ch) _ _ s unchanged-Alone λ member.
        guard-at Ends (is_operator me.nickname ch) _ _ s unchanged-Alone λ operator.
          guard-at Ends _ _ _ s unchanged-Alone
            λ _. sent_off-Ends env target name ch registered held member

  behind_name-Ends :
      (env : Env) (target name : Str)
      → me.registered ≡ true
      → Ends (behind_name env me name target s).1
  unfolding ◌>>=◌ channel_at
  behind_name-Ends env target name registered = elim (Option-cases (find name s.channels)) [
    | inl e ↦ rw e unchanged-Alone
    | inr (ch, e) ↦ rw e (behind_channel-Ends env target name ch registered e)
  ]

  kick-Ends :
      (env : Env) (target name : Str) → me.registered ≡ true → Ends (kick env me name target s).1
  unfolding kick
  kick-Ends env target name registered = guard-at Ends _ _ _ s unchanged-Alone λ _.
      read-at Ends _ s
        (guard-at Ends _ _ _ s unchanged-Alone λ _. behind_name-Ends env target name registered)

  params-Ends :
      (env : Env) (c : Cmd) (ts : List Str)
      → me.registered ≡ true
      → Ends (kick_params env c me ts s).1
  unfolding kick_params raise
  params-Ends env c (ch ∷ target ∷ []) registered = kick-Ends env target ch registered
  params-Ends env c (ch ∷ target ∷ comment ∷ []) registered = kick-Ends env target ch registered
  params-Ends env c _ registered = unchanged-Alone

  cmd_kick-Ends : (env : Env) (c : Cmd) → c.client ≡ some p → Ends (cmd_kick env c s).1
  unfolding cmd_kick ◌>>=◌ deref
  cmd_kick-Ends env c own =
      rw (own, there)
        (guard-at Ends _ _ _ s unchanged-Alone λ registered. params-Ends env _ _ registered)

  -- A KICK ends a channel only where nobody but the client that gives it was in the channel.
  pub handle_kick-Ends :
      (env : Env) (c : Cmd)
      → c.client ≡ some p
      → verb_of c.cmd ≡ Verb.kick
      → Ends (handle_client_cmd env c s).1
  unfolding handle_client_cmd run_verb attempt
  handle_kick-Ends env c own verb =
      (caught-Keeps (channels-Quiet Alone) env c (run_verb env (verb_of c.cmd) c s).0).at _
        (subst (λ v. Ends (run_verb env v c s).1) (sym verb) (cmd_kick-Ends env c own))
