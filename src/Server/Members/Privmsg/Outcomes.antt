-- ===== src/Server/Members/Privmsg/Outcomes.antt =====
-- PRIVMSG as a whole: all of it, or nothing (src/Cmd/CmdPrivmsg.cpp).
use ft_irc_refactor.Cmd.Split.{privmsg_split, is_dup_receiver}
use ft_irc_refactor.Server.Output.{output}
use ft_irc_refactor.Base.{
  same_value, not_both, not_found, sym, first, is_empty, ◌⊎◌, ◌≢◌, All, Bool-cases, Option-cases,
  false, true, ◌≡◌, refl, inl, inr, Bool, List, [], ◌∷◌, ◌++◌, Option, none, some, Str, find, ℕ_key,
  str_key, subst, ◌==◌,
}
use ft_irc_refactor.Server.State.{
  ◌>>◌, Action, and_then, throw, fault, pure, Env, Server, ok, Outcome, ◌>>=◌, deref, channel_at,
  for_each,
}
use ft_irc_refactor.Reply
use ft_irc_refactor.Server.Members.{Seated}
use ft_irc_refactor.Server.Members.Delivery.{TakesAll}
use ft_irc_refactor.Cmd.Privmsg.{
  no_targets, read_targets, cmd_privmsg, deliver, check_user_target, check_channel_target,
  check_target, Targets, send_to,
}
use ft_irc_refactor.Server.Net.{find_nickname, get_client_by_nickname}
use ft_irc_refactor.Cmd.Context.{demand, self, Cmd}
use ft_irc_refactor.Channel.{Ptr, is_participant}
use ft_irc_refactor.Client.{Client}
use ft_irc_refactor.Server.Members.Privmsg.{Gives, Reachable, of_receivers, sends-Gives}

-- What came of a statement that may only end normally where it leaves the state alone.
Refused : Server → Outcome (Unit {0}) × Server → Type 0
Refused s after = (after.0 ≢ ok tt) × (after.1 ≡ s)

fault-ne-ok : fault ≡ ok tt → ⊥
fault-ne-ok e = cc

throw-ne-ok : (text : Str) → throw text ≡ ok tt → ⊥
throw-ne-ok text e = cc

abbrev Checked : Type 0 → Server → Outcome (Unit {0}) × Server → Type 0
Checked P s after = ((after ≡ (ok tt, s)) × P) ⊎ (Refused s after × (P → ⊥))

check_target-Checked :
    (me : Client) (b : Bool) (r : Str) (s : Server)
    → Checked (Reachable me b r s) s (check_target me b r s)
unfolding check_target check_channel_target check_user_target channel_at get_client_by_nickname
    ◌>>=◌ Reachable Refused
check_target-Checked me true r s = elim (Option-cases (find r s.channels)) [
  | inl e ↦ rw e (inr ((fault-ne-ok, refl), λ (ch, (held, member)). not_found held))
  | inr (ch, e) ↦ elim (Bool-cases (is_participant me.nickname ch)) [
    | inl member ↦ rw (e, member) (inl (refl, (ch, (refl, member))))
    | inr other ↦
        rw (e, other)
          (inr (
            (throw-ne-ok _, refl),
            λ (ch', (held, member)).
                not_both
                  (subst (λ x. is_participant me.nickname x ≡ true) (sym (same_value held)) member)
                  other,
          ))
  ]
]
check_target-Checked me false r s = by_result (find_nickname s.heap r s.clients) refl
  where
    no_holder : (q : Ptr) → ◌≡◌ {A = Outcome (Option Ptr)} (ok none) (ok (some q)) → ⊥
    no_holder q e = cc

    no_answer : (q : Ptr) → ◌≡◌ {A = Outcome (Option Ptr)} fault (ok (some q)) → ⊥
    no_answer q e = cc

    no_throw :
        (text : Str) (q : Ptr) → ◌≡◌ {A = Outcome (Option Ptr)} (throw text) (ok (some q)) → ⊥
    no_throw text q e = cc

    by_result :
        (o : Outcome (Option Ptr))
        → find_nickname s.heap r s.clients ≡ o
        → Checked (Reachable me false r s) s (check_target me false r s)
    by_result fault e = rw e (inr ((fault-ne-ok, refl), λ (q, f). no_answer q f))
    by_result (throw text) e = rw e (inr ((throw-ne-ok _, refl), λ (q, f). no_throw text q f))
    by_result (ok none) e = rw e (inr ((throw-ne-ok _, refl), λ (q, f). no_holder q f))
    by_result (ok (some q)) e = rw e (inl (refl, (q, refl)))

stopped :
    (s : Server) (k : Unit {0} → Action (Unit {0})) (after : Outcome (Unit {0}) × Server)
    → Refused s after
    → Refused s (and_then after.0 k after.1)
unfolding Refused
stopped s k (ok tt, u) (fails, same) = absurd (fails refl)
stopped s k (throw text, u) (fails, same) = (throw-ne-ok text, same)
stopped s k (fault, u) (fails, same) = (fault-ne-ok, same)

checks-Checked :
    (me : Client) (b : Bool) (rs : List Str) (s : Server)
    → Checked (All (λ r. Reachable me b r s) rs) s (for_each rs (check_target me b) s)
unfolding for_each ◌>>=◌ pure
checks-Checked me b [] s = inl (refl, tt)
checks-Checked me b (r ∷ rs) s = elim (check_target-Checked me b r s) [
  | inl (runs, here) ↦ rw runs (elim (checks-Checked me b rs s) [
    | inl (ends, all) ↦ inl (ends, (here, all))
    | inr (refused, not_all) ↦ inr (refused, λ (first, rest). not_all rest)
  ])
  | inr (refused, not_here) ↦
      inr (stopped s _ (check_target me b r s) refused, λ (first, rest). not_here first)
]

-- What the code asks for: a last parameter that begins with ':', behind which nothing need stand,
-- and receivers, however many, none of them twice.
abbrev pub WellFormed : Targets → Type 0
WellFormed t =
    (is_empty t.receivers ≡ false)
    × ((is_dup_receiver t.receivers ≡ false) × ((first t.msg == b':') ≡ true))

-- All is well formed, all receivers are there, and each client has got what the sender gave them;
-- or something is not, and nothing at all has been sent.
abbrev pub AllOrNothing : Cmd → Client → Targets → Server → Outcome (Unit {0}) × Server → Type 0
AllOrNothing c me t s after =
    ((after.0 ≡ ok tt)
      × ((WellFormed t × All (λ r. Reachable me t.ch_flag r s) t.receivers)
          × ((p : Ptr) (d : Client)
              → find p s.heap ≡ some d
              → output d.fd p after.1
                ≡ output d.fd p s
                  ++ of_receivers c me t.msg t.ch_flag t.receivers s p d.fd d.nickname)))
    ⊎ (((after.0 ≢ ok tt) × (after.1 ≡ s))
        × ((WellFormed t × All (λ r. Reachable me t.ch_flag r s) t.receivers) → ⊥))

module _ (env : Env) (takes : TakesAll env) (c : Cmd) (me : Client) (t : Targets) (s : Server)
    (h : Seated s) where
  checked_sends :
      WellFormed t
      → AllOrNothing c me t s (
          (for_each t.receivers (check_target me t.ch_flag)
              >> for_each t.receivers (send_to env c me t))
            s)
  unfolding ◌>>=◌ Refused Gives
  checked_sends well = elim (checks-Checked me t.ch_flag t.receivers s) [
    | inr (refused, not_all) ↦ inr (
      stopped s _ (for_each t.receivers (check_target me t.ch_flag) s) refused,
      λ (formed, all). not_all all,
    )
    | inl (runs, all) ↦
        let (ends, sends) = sends-Gives env takes c me t t.receivers s h all in
        rw runs (inl (ends, ((well, all), sends.streams)))
  ]

  deliver-AllOrNothing : AllOrNothing c me t s (deliver env c me t s)
  unfolding deliver ◌>>=◌
  deliver-AllOrNothing = elim (Bool-cases (is_empty t.receivers)) [
    | inl e ↦ inr ((rw e (throw-ne-ok _), rw e refl), λ ((a, rest), all). not_both e a)
    | inr e ↦ elim (Bool-cases (is_dup_receiver t.receivers)) [
      | inl d ↦
          inr ((rw (e, d) (throw-ne-ok _), rw (e, d) refl), λ ((a, (b, m)), all). not_both d b)
      | inr d ↦ elim (Bool-cases (first t.msg == b':')) [
        | inr m ↦ inr (
          (rw (e, d, m) (throw-ne-ok _), rw (e, d, m) refl),
          λ ((a, (b, m')), all). not_both m' m,
        )
        | inl m ↦
            subst (AllOrNothing c me t s) (sym (rw (e, d, m) refl)) (checked_sends (e, (d, m)))
      ]
    ]
  ]

self-eq :
    (c : Cmd) (p : Ptr) (me : Client) (s : Server)
    → c.client ≡ some p
    → find p s.heap ≡ some me
    → self c s ≡ (ok me, s)
unfolding self ◌>>=◌ deref
self-eq c p me s own there = rw (own, there) refl

-- PRIVMSG from a registered client, with a kernel that takes every byte. If a parameter behind the
-- receivers begins with ':', be there a text behind the ':' or not, and no receiver, of however
-- many, stands twice, and each is a channel that the sender is in, or each is a nickname in use,
-- then each client hears, in the order of the receivers, the message to each channel that it is in,
-- but for the sender itself, and to its nickname, and nothing else. In every other case nothing
-- changes but the outcome, which is no normal end. The parameters must have been split into
-- receivers of one kind and a text, and the participants of the channels must be living clients in
-- `_clients` with the nicknames they stand under, and stand once.
pub cmd_privmsg-delivers :
    (env : Env) (c : Cmd) (p : Ptr) (me : Client) (t : Targets) (s : Server)
    → TakesAll env
    → Seated s
    → c.client ≡ some p
    → find p s.heap ≡ some me
    → me.registered ≡ true
    → read_targets env c me true (privmsg_split c.cmd_params) no_targets s ≡ (ok t, s)
    → AllOrNothing c me t s (cmd_privmsg env c s)
unfolding cmd_privmsg ◌>>=◌
cmd_privmsg-delivers env c p me t s takes h own there registered split =
    rw (self-eq c p me s own there) (
      subst (λ b. AllOrNothing c me t s (behind b s)) (sym registered)
        (rw split (deliver-AllOrNothing env takes c me t s h)))
  where
    behind : Bool → Action (Unit {0})
    behind b =
        demand b (Reply.err_notregistered me.nickname)
        >> (read_targets env c me true (privmsg_split c.cmd_params) no_targets >>= deliver env c me)
