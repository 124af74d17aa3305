-- ===== src/Server/Distinct.antt =====
-- The nicknames of the living clients (checkNick, src/Cmd/CmdNick.cpp; getClient, src/Server.cpp).
use ft_irc_refactor.Base.{
  same_value, not_both, ==_iff, find-assign, Bool-cases, ◌≡◌, ◌≢◌, ◌∙◌, ◌⊎◌, inl, inr, [], some,
  Map, find, assign, ℕ_key, ap, sym, ◌==◌,
}
use ft_irc_refactor.Channel.{Ptr}
use ft_irc_refactor.Client.{Client}

-- No two clients have the same nickname, but for those that have none yet.
abbrev pub Distinct : Map Ptr Client → Type 0
Distinct heap =
    (p q : Ptr) (c d : Client)
    → find p heap ≡ some c
    → find q heap ≡ some d
    → c.nickname ≡ d.nickname
    → c.nickname ≢ []
    → p ≡ q

-- What is found where an object has been replaced.
pub replaced :
    (p q : Ptr) (d e : Client) (m : Map Ptr Client)
    → find q (assign p d m) ≡ some e
    → ((p ≡ q) × (d ≡ e)) ⊎ ((p ≢ q) × (find q m ≡ some e))
replaced p q d e m found = elim (Bool-cases (p == q)) [
  | inl same ↦ inl ((==_iff p q).0 same, same_value (rw (find-assign p q d m, same) at found))
  | inr other ↦
      inr (λ same. not_both ((==_iff p q).1 same) other, rw (find-assign p q d m, other) at found)
]

-- A nickname that no other client has.
pub assign-Distinct :
    (p : Ptr) (d : Client) (m : Map Ptr Client)
    → ((q : Ptr) (e : Client)
        → p ≢ q
        → find q m ≡ some e
        → e.nickname ≡ d.nickname
        → d.nickname ≢ []
        → ⊥)
    → Distinct m
    → Distinct (assign p d m)
assign-Distinct p d m others u q r a b here there same named = elim (replaced p q d a m here) [
  | inl (pq, da) ↦ elim (replaced p r d b m there) [
    | inl (pr, _) ↦ sym pq ∙ pr
    | inr (pr, old) ↦ absurd (
        others r b pr old (sym same ∙ ap Client.nickname (sym da))
          (λ z. named (ap Client.nickname (sym da) ∙ z)))
  ]
  | inr (pq, old) ↦ elim (replaced p r d b m there) [
    | inl (pr, db) ↦ absurd (
        others q a pq old (same ∙ ap Client.nickname (sym db))
          (λ z. named (same ∙ ap Client.nickname (sym db) ∙ z)))
    | inr (pr, old') ↦ u q r a b old old' same named
  ]
]

-- The nickname that the object has had.
pub change-Distinct :
    (p : Ptr) (c d : Client) (m : Map Ptr Client)
    → find p m ≡ some c
    → d.nickname ≡ c.nickname
    → Distinct m
    → Distinct (assign p d m)
change-Distinct p c d m there same u =
    assign-Distinct p d m
      (λ q e differ old s named.
        differ (sym (u q p e c old there (s ∙ same) (λ z. named (sym s ∙ z)))))
      u

-- No client that was not there.
pub fewer-Distinct :
    (m m' : Map Ptr Client)
    → ((q : Ptr) (e : Client) → find q m' ≡ some e → find q m ≡ some e)
    → Distinct m
    → Distinct m'
fewer-Distinct m m' back u q r a b here there same named =
    u q r a b (back q a here) (back r b there) same named
