-- ===== src/Server/Members/Broadcast.antt =====
-- A message to a channel, receiver by receiver (broadcastMsg, src/Server.cpp).
use ft_irc_refactor.Base.{
  if◌then◌else◌, true, false, Once, same_value, ap, ◌++◌, ==_iff, All, Bool-cases, ℕ, ◌≡◌, ◌∙◌,
  refl, inl, inr, [], ◌∷◌, Option, none, some, Str, Map, find, ℕ_key, str_key, sym, subst, ◌==◌,
}
use mathlib.Core.List.{append-nil}
use ft_irc_refactor.Server.Output.{output}
use ft_irc_refactor.Client.{Client}
use ft_irc_refactor.Server.Net.{broadcast_channel, cast_participant, is_fd}
use ft_irc_refactor.Channel.{Channel, Ptr}
use ft_irc_refactor.Server.State.{for_each, Outcome, pure, deref, Server, Env, ok, ◌>>=◌}
use ft_irc_refactor.Server.Members.{Seated}
use ft_irc_refactor.Server.Members.Delivery.{
  TakesAll, Sent, told, nothing-Sent, told-Sent, like-Sent, then-Sent, cast_msg-told,
}
use ft_irc_refactor.Server.Members.Hearing.{own, heard, heard_head, heard_tail, entries_found}

-- The client of an entry.
Called : Str × Ptr → Server → Type 0
Called (n, q) s = (d : Client) × ((find q s.heap ≡ some d) × (d.nickname ≡ n))

module _ (sender : Option ℕ) (msg : Str) (env : Env) (takes : TakesAll env) where
  -- What one receiver hears.
  abbrev one : Ptr → Ptr → ℕ → Str → Str
  one q p fd nick = if q == p then own sender msg fd else []

  one-nil :
      (q : Ptr) (d : Client) (s : Server) (p : Ptr) (c : Client)
      → find q s.heap ≡ some d
      → find p s.heap ≡ some c
      → is_fd d.fd sender ≡ true
      → [] ≡ one q p c.fd c.nickname
  one-nil q d s p c there here e = elim (Bool-cases (q == p)) [
    | inl same ↦
        let is = same_value (sym there ∙ ap (λ x. find x s.heap) ((==_iff q p).0 same) ∙ here) in
        rw same (rw (subst (λ x. is_fd x.fd sender ≡ true) is e) refl)
    | inr other ↦ rw other refl
  ]

  one-msg :
      (q : Ptr) (d : Client) (s : Server) (p : Ptr) (c : Client)
      → find q s.heap ≡ some d
      → find p s.heap ≡ some c
      → is_fd d.fd sender ≡ false
      → (if q == p then msg else []) ≡ one q p c.fd c.nickname
  one-msg q d s p c there here e = elim (Bool-cases (q == p)) [
    | inl same ↦
        let is = same_value (sym there ∙ ap (λ x. find x s.heap) ((==_iff q p).0 same) ∙ here) in
        rw same (rw (subst (λ x. is_fd x.fd sender ≡ false) is e) refl)
    | inr other ↦ rw other refl
  ]

  cast_participant-Sent :
      (n : Str) (q : Ptr) (d : Client) (s : Server)
      → find q s.heap ≡ some d
      → Seated s
      → (t : Server) × ((cast_participant env msg sender (n, q) s ≡ (ok tt, t)) × Sent (one q) s t)
  unfolding cast_participant ◌>>=◌ deref pure
  cast_participant-Sent n q d s there h = elim (Bool-cases (is_fd d.fd sender)) [
    | inl e ↦ (
      s,
      (
        rw (there, e) refl,
        like-Sent (λ p fd nick. []) (one q) s s (λ p c here. one-nil q d s p c there here e)
            (nothing-Sent s h),
      ),
    )
    | inr e ↦ (
      told q d msg s,
      (
        rw (there, e) (cast_msg-told env takes msg q d s (h.listed q d there) there),
        like-Sent _ (one q) s _ (λ p c here. one-msg q d s p c there here e)
            (told-Sent env takes msg q d s there h),
      ),
    )
  ]

  still-Called :
      (f : Ptr → ℕ → Str → Str) (s t : Server) (m : Map Str Ptr)
      → Sent f s t
      → All (λ e. Called e s) m
      → All (λ e. Called e t) m
  unfolding Called
  still-Called f s t [] sends all = tt
  still-Called f s t ((n, r) ∷ m) sends ((c, (there, name)), all) =
      let (e, (found, (_, same))) = sends.still r c there in
      ((e, (found, same ∙ name)), still-Called f s t m sends all)

  -- What a client hears of a map.
  abbrev of_map : Map Str Ptr → Ptr → ℕ → Str → Str
  of_map m p fd nick = heard sender msg fd nick p m

  -- The entries have been served.
  Served : Map Str Ptr → Server → Outcome (Unit {0}) × Server → Type 0
  Served m s after = (after.0 ≡ ok tt) × Sent (of_map m) s after.1

  -- What the first entry and the others give one client.
  first_and_rest :
      (n : Str) (q : Ptr) (d : Client) (m : Map Str Ptr) (s : Server)
      → find q s.heap ≡ some d
      → d.nickname ≡ n
      → find n m ≡ none
      → (p : Ptr) (c : Client) → find p s.heap ≡ some c
      → one q p c.fd c.nickname ++ of_map m p c.fd c.nickname
        ≡ of_map ((n, q) ∷ m) p c.fd c.nickname
  first_and_rest n q d m s there name free p c here = elim (Bool-cases (q == p)) [
    | inl e ↦
        let qp = (==_iff q p).0 e in
        let same = same_value (sym there ∙ ap (λ x. find x s.heap) qp ∙ here) in
        let (first, rest) =
          heard_head sender msg n c.nickname p q c.fd m (sym qp)
            (sym name ∙ ap Client.nickname same) free in
        rw (e, rest, first) (append-nil (own sender msg c.fd))
    | inr e ↦ rw e (sym (heard_tail sender msg n c.nickname p q c.fd m e free))
  ]

  nobody_left :
      (s : Server) → Seated s → Served [] s (for_each [] (cast_participant env msg sender) s)
  unfolding Served for_each pure heard find
  nobody_left s h = (refl, nothing-Sent s h)

  follows :
      (e : Str × Ptr) (m : Map Str Ptr) (s t : Server)
      → cast_participant env msg sender e s ≡ (ok tt, t)
      → for_each (e ∷ m) (cast_participant env msg sender) s
        ≡ for_each m (cast_participant env msg sender) t
  unfolding for_each ◌>>=◌
  follows e m s t runs = rw runs refl

  entries-Served :
      (m : Map Str Ptr) (s : Server)
      → Seated s
      → Once m
      → All (λ e. Called e s) m
      → Served m s (for_each m (cast_participant env msg sender) s)
  unfolding Once Called Served
  entries-Served [] s h once called = nobody_left s h
  entries-Served ((n, q) ∷ m) s h (free, once) ((d, (there, name)), called) =
      let (t, (runs, sends)) = cast_participant-Sent n q d s there h in
      let (ends, later) =
        entries-Served m t sends.seated once (still-Called (one q) s t m sends called) in
      subst (Served ((n, q) ∷ m) s) (sym (follows (n, q) m s t runs)) (
        ends,
        like-Sent _ (of_map ((n, q) ∷ m)) s _ (first_and_rest n q d m s there name free)
            (then-Sent (one q) (of_map m) s t _ sends later),
      )

  all-Called :
      (m l : Map Str Ptr) (s : Server)
      → ((n : Str) (q : Ptr) → find n l ≡ some q → Called (n, q) s)
      → All (λ e. find e.0 l ≡ some e.1) m
      → All (λ e. Called e s) m
  all-Called [] l s called held = tt
  all-Called ((n, q) ∷ m) l s called (here, held) = (called n q here, all-Called m l s called held)

-- The broadcast, as a statement that only sends.
pub broadcast_channel-Sent :
    (env : Env) (msg name : Str) (ch : Channel) (sender : Option ℕ) (s : Server)
    → TakesAll env
    → Seated s
    → find name s.channels ≡ some ch
    → let after = broadcast_channel env msg ch sender s in
      (after.0 ≡ ok tt) × Sent (λ p fd nick. heard sender msg fd nick p ch.participant) s after.1
unfolding broadcast_channel Served Called
broadcast_channel-Sent env msg name ch sender s takes h held =
    let once = h.once name ch held in
    entries-Served sender msg env takes ch.participant s h once (
      all-Called sender msg env takes ch.participant ch.participant s
        (λ n q e. let m = h.seat name ch n q held e in (m.client, (m.there, m.name)))
        (entries_found ch.participant once))

-- A message to a channel, with a kernel that takes every byte: nothing goes wrong, and behind all
-- that has gone or waits for a client comes the message, once, if the client is a participant and
-- not the sender, and nothing otherwise. Each participant must be a living client in `_clients`
-- with the nickname it stands under, and stand once.
pub broadcast_channel-delivers :
    (env : Env) (msg name : Str) (ch : Channel) (sender : Option ℕ) (s : Server)
    → TakesAll env
    → Seated s
    → find name s.channels ≡ some ch
    → let after = broadcast_channel env msg ch sender s in
      (after.0 ≡ ok tt)
      × ((p : Ptr) (c : Client)
          → find p s.heap ≡ some c
          → output c.fd p after.1
            ≡ output c.fd p s ++ heard sender msg c.fd c.nickname p ch.participant)
broadcast_channel-delivers env msg name ch sender s takes h held =
    let (ends, sends) = broadcast_channel-Sent env msg name ch sender s takes h held in
    (ends, sends.streams)
