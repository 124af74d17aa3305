-- ===== src/Server/Members/Privmsg.antt =====
-- Who hears a PRIVMSG (src/Cmd/CmdPrivmsg.cpp).
pub mod Outcomes
use ft_irc_refactor.Cmd.Split.{privmsg_split, is_dup_receiver}
use ft_irc_refactor.Server.Output.{output}
use ft_irc_refactor.Base.{
  same_value, not_both, not_found, sym, first, is_empty, ◌⊎◌, ◌≢◌, str_eq_iff, str_eq, All,
  Bool-cases, Option-cases, false, true, ℕ, ◌≡◌, ◌∙◌, refl, inl, inr, Bool, List, [], ◌∷◌, ◌++◌,
  Option, none, some, Str, Map, find, ℕ_key, str_key, ap, subst, if◌then◌else◌, ◌==◌,
}
use ft_irc_refactor.Server.State.{
  ◌>>◌, Action, and_then, throw, fault, pure, Env, Server, ok, Outcome, ◌>>=◌, deref, channel_at,
  for_each,
}
use ft_irc_refactor.Reply
use ft_irc_refactor.Server.Members.{Seated}
use ft_irc_refactor.Server.Members.Delivery.{
  TakesAll, Sent, told, told-Sent, like-Sent, then-Sent, nothing-Sent, cast_msg-told,
}
use ft_irc_refactor.Server.Members.Broadcast.{broadcast_channel-Sent}
use ft_irc_refactor.Server.Members.Hearing.{heard}
use ft_irc_refactor.Cmd.Privmsg.{
  no_targets, read_targets, cmd_privmsg, deliver, check_user_target, check_channel_target,
  check_target, Targets, send_to, send_to_channel, send_to_user,
}
use ft_irc_refactor.Server.Net.{find_nickname, get_client_by_nickname, make_msg}
use ft_irc_refactor.Cmd.Context.{demand, self, Cmd}
use ft_irc_refactor.Channel.{Channel, Ptr, is_participant}
use ft_irc_refactor.Client.{Client}

-- The client that has a nickname.
pub find_nickname-holder :
    (heap : Map Ptr Client) (nick : Str) (m : Map ℕ Ptr) (q : Ptr)
    → find_nickname heap nick m ≡ ok (some q)
    → (d : Client) × ((find q heap ≡ some d) × (d.nickname ≡ nick))
unfolding find_nickname
find_nickname-holder heap nick [] q e = absurd (cc)
find_nickname-holder heap nick ((fd, p) ∷ rest) q e = elim (Option-cases (find p heap)) [
  | inl lost ↦ absurd (let k = rw (find_nickname, lost) at e in (cc))
  | inr (d, here) ↦ elim (Bool-cases (str_eq d.nickname nick)) [
    | inl same ↦
        let k = rw (find_nickname, here, same) at e in
        (d, (subst (λ x. find x heap ≡ some d) (held k) here, (str_eq_iff d.nickname nick).0 same))
    | inr other ↦ find_nickname-holder heap nick rest q (rw (find_nickname, here, other) at e)
  ]
]
  where
    held : {p q : Ptr} → ◌≡◌ {A = Outcome (Option Ptr)} (ok (some p)) (ok (some q)) → p ≡ q
    held k = cc

-- A receiver that can get the message: a channel that the sender is in, or a nickname in use.
unfoldable pub Reachable : Client → Bool → Str → Server → Type 0
Reachable me true r s =
    (ch : Channel) × ((find r s.channels ≡ some ch) × (is_participant me.nickname ch ≡ true))
Reachable me false r s = (q : Ptr) × (find_nickname s.heap r s.clients ≡ ok (some q))

module _ (c : Cmd) (me : Client) (msg : Str) where
  -- What a client hears of a message to a channel, or to a nickname.
  abbrev pub of_channel : Option Channel → Ptr → ℕ → Str → Str
  of_channel none p fd nick = []
  of_channel (some ch) p fd nick =
      heard (some c.client_fd) (make_msg me.prefix (Reply.rpl_privmsg ch.name msg)) fd nick p
        ch.participant

  abbrev pub of_user : Str → Outcome (Option Ptr) → Ptr → ℕ → Str → Str
  of_user r (ok (some q)) p fd nick =
      if q == p then make_msg me.prefix (Reply.rpl_privmsg r msg) else []
  of_user r _ p fd nick = []

  abbrev pub of_receiver : Bool → Str → Server → Ptr → ℕ → Str → Str
  of_receiver true r s = of_channel (find r s.channels)
  of_receiver false r s = of_user r (find_nickname s.heap r s.clients)

  -- And of all receivers, in their order.
  unfoldable pub of_receivers : Bool → List Str → Server → Ptr → ℕ → Str → Str
  unfolding of_channel of_user of_receiver
  of_receivers b [] s p fd nick = []
  of_receivers b (r ∷ rs) s p fd nick = of_receiver b r s p fd nick ++ of_receivers b rs s p fd nick

module _ (env : Env) (takes : TakesAll env) (c : Cmd) (me : Client) where
  -- A statement that ends normally and gives each client its text.
  unfoldable pub Gives : (Ptr → ℕ → Str → Str) → Server → Outcome (Unit {0}) × Server → Type 0
  Gives f s after = (after.0 ≡ ok tt) × Sent f s after.1

  send_to_channel-Gives :
      (msg r : Str) (ch : Channel) (s : Server)
      → Seated s
      → find r s.channels ≡ some ch
      → Gives (of_channel c me msg (some ch)) s (send_to_channel env c me msg r s)
  unfolding send_to_channel channel_at ◌>>=◌ Gives
  send_to_channel-Gives msg r ch s h held = rw held (
      broadcast_channel-Sent env (make_msg me.prefix (Reply.rpl_privmsg ch.name msg)) r ch
        (some c.client_fd) s takes h held)

  send_to_user-Gives :
      (msg r : Str) (q : Ptr) (s : Server)
      → Seated s
      → find_nickname s.heap r s.clients ≡ ok (some q)
      → Gives (of_user c me msg r (ok (some q))) s (send_to_user env me msg r s)
  unfolding send_to_user get_client_by_nickname deref ◌>>=◌ Gives
  send_to_user-Gives msg r q s h e =
      let (d, (there, name)) = find_nickname-holder s.heap r s.clients q e in
      let text = make_msg me.prefix (Reply.rpl_privmsg d.nickname msg) in
      rw (e, there)
        (rw (cast_msg-told env takes text q d s (h.listed q d there) there) (
          refl,
          like-Sent _ (of_user c me msg r (ok (some q))) s (told q d text s)
              (λ p x here.
                ap (λ n. if q == p then make_msg me.prefix (Reply.rpl_privmsg n msg) else []) name)
              (told-Sent env takes text q d s there h),
        ))

  send_to-Gives :
      (t : Targets) (r : Str) (s : Server) (b : Bool)
      → t.ch_flag ≡ b
      → Seated s
      → Reachable me b r s
      → Gives (of_receiver c me t.msg b r s) s (send_to env c me t r s)
  unfolding send_to Reachable
  send_to-Gives t r s true flag h (ch, (held, member)) =
      rw (flag, held) (send_to_channel-Gives t.msg r ch s h held)
  send_to-Gives t r s false flag h (q, e) = rw (flag, e) (send_to_user-Gives t.msg r q s h e)

  still-Reachable :
      (f : Ptr → ℕ → Str → Str) (b : Bool) (s u : Server) (rs : List Str)
      → Sent f s u
      → All (λ r. Reachable me b r s) rs
      → All (λ r. Reachable me b r u) rs
  unfolding Reachable
  still-Reachable f b s u [] sends all = tt
  still-Reachable f true s u (r ∷ rs) sends ((ch, (held, member)), all) = (
    (ch, (ap (find r) sends.same_channels ∙ held, member)),
    still-Reachable f true s u rs sends all,
  )
  still-Reachable f false s u (r ∷ rs) sends ((q, e), all) = (
    (q, sends.names r u.clients ∙ ap (find_nickname s.heap r) sends.same_clients ∙ e),
    still-Reachable f false s u rs sends all,
  )

  same_receivers :
      (f : Ptr → ℕ → Str → Str) (msg : Str) (b : Bool) (s u : Server) (rs : List Str) (p : Ptr)
      (fd : ℕ) (nick : Str)
      → Sent f s u
      → of_receivers c me msg b rs u p fd nick ≡ of_receivers c me msg b rs s p fd nick
  unfolding of_receivers
  same_receivers f msg b s u [] p fd nick sends = refl
  same_receivers f msg true s u (r ∷ rs) p fd nick sends =
      rw (same_receivers f msg true s u rs p fd nick sends, sends.same_channels) refl
  same_receivers f msg false s u (r ∷ rs) p fd nick sends =
      rw
        (
          same_receivers f msg false s u rs p fd nick sends,
          sends.names r u.clients,
          sends.same_clients,
        )
        refl

  pub sends-Gives :
      (t : Targets) (rs : List Str) (s : Server)
      → Seated s
      → All (λ r. Reachable me t.ch_flag r s) rs
      → Gives (of_receivers c me t.msg t.ch_flag rs s) s (for_each rs (send_to env c me t) s)
  unfolding for_each Gives of_receivers ◌>>=◌ pure
  sends-Gives t [] s h all = (refl, nothing-Sent s h)
  sends-Gives t (r ∷ rs) s h (here, all) =
      let (ends, first) = send_to-Gives t r s t.ch_flag refl h here in
      let u = (send_to env c me t r s).1 in
      let (ends', later) =
        sends-Gives t rs u first.seated (still-Reachable _ t.ch_flag s u rs first all) in
      rw ends (
        ends',
        like-Sent _ _ s _
            (λ p x there.
              ap (λ y. of_receiver c me t.msg t.ch_flag r s p x.fd x.nickname ++ y)
                (same_receivers _ t.msg t.ch_flag s u rs p x.fd x.nickname first))
            (then-Sent _ _ s u _ first later),
      )
