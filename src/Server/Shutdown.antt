-- ===== src/Server/Shutdown.antt =====
-- The destructor (src/Server.cpp): what it closes and deletes.
use ft_irc_refactor.Base.{
  same_value, none, Option-cases, ==_refl, ==_iff, find-erase, erase, Bool-cases, All, false, ℕ,
  ◌≡◌, ◌<◌, ◌∙◌, refl, inl, inr, List, [], ◌∷◌, some, Map, find, ℕ_key, str_key, ap, sym, subst,
  arith, ◌==◌,
}
use ft_irc_refactor.Client.{Client}
use mathlib.Core.Option
use ft_irc_refactor.Server.Objects.Teardown.{fd_there, absent}
use ft_irc_refactor.Server.Keeps.{
  Keeps-pure, Keeps-modify, Keeps-deref, Keeps-bind, keeps_rules, Keeps,
}
use ft_irc_refactor.Server.Objects.{Owned, held, object_at, fd_of}
use ft_irc_refactor.Server.Ordered.{Ordered, Ascending}
use ft_irc_refactor.Server.Startup.{destroy, delete_clients}
use ft_irc_refactor.Channel.{Ptr}
use ft_irc_refactor.Server.State.{pure, modify, deref, Server, ok, ◌>>=◌}

pub All-both :
    {A : Type 0} (P Q R : A → Type 0) (xs : List A)
    → ((x : A) → P x → Q x → R x)
    → All P xs
    → All Q xs
    → All R xs
All-both P Q R [] k h g = tt
All-both P Q R (x ∷ xs) k (h, hs) (g, gs) = (k x h g, All-both P Q R xs k hs gs)

pub All-find :
    (Q : ℕ × Ptr → Type 0) (fd : ℕ) (p : Ptr) (m : Map ℕ Ptr)
    → All Q m
    → find fd m ≡ some p
    → Q (fd, p)
unfolding find
All-find Q fd p [] h e = absurd (cc)
All-find Q fd p ((j, q) ∷ m) (here, there) e = elim (Bool-cases (j == fd)) [
  | inl same ↦
      subst (λ x. Q (x, p)) ((==_iff j fd).0 same)
        (subst (λ x. Q (j, x)) (same_value (sym (rw same refl) ∙ e)) here)
  | inr other ↦ All-find Q fd p m there (sym (rw other refl) ∙ e)
]

-- Each entry is the one that its key finds.
entries : (m : Map ℕ Ptr) → Ascending m → All (λ entry. find entry.0 m ≡ some entry.1) m
unfolding find
entries [] h = tt
entries ((k, p) ∷ m) (above, h) = (
  rw (==_refl k) refl,
  All-both _ _ _ m (λ entry less e. rw (differs k entry.0 less) e) above (entries m h),
)
  where
    differs : (a b : ℕ) → a < b → (a == b) ≡ false
    differs a b less = ground (arith, ==_iff a b)

-- A pointer to a living client, under its own descriptor.
abbrev pub Alive : Server → ℕ × Ptr → Type 0
Alive s entry = fd_of (object_at entry.1 s) ≡ some entry.0

abbrev Dead : Server → ℕ × Ptr → Type 0
Dead s entry = find entry.1 s.heap ≡ none

-- The state when an object is deleted.
abbrev without : Ptr → Server → Server
without p s = record s { heap = erase p s.heap }

-- Two living clients under different descriptors are two objects.
others :
    (k : ℕ) (p : Ptr) (s : Server)
    → Alive s (k, p)
    → (entry : ℕ × Ptr) → k < entry.0
    → Alive s entry
    → Alive (without p s) entry
others k p s here (g, q) less there = elim (Bool-cases (p == q)) [
  | inl e ↦ absurd (clash (sym here ∙ ap (λ x. fd_of (object_at x s)) ((==_iff p q).0 e) ∙ there))
  | inr e ↦ rw (find-erase p q s.heap) (rw e there)
]
  where
    clash : some k ≡ some g → ⊥
    clash h = ground (arith, less)

deleted : (p q : Ptr) (s : Server) → find q s.heap ≡ none → find q (without p s).heap ≡ none
deleted p q s e = ground (arith, find-erase p q s.heap, e)

deletes : (p : Ptr) (s : Server) → find p (without p s).heap ≡ none
deletes p s = rw (find-erase p p s.heap) (rw (==_refl p) refl)

-- What is dead stays dead.
dead-Keeps : (q : Ptr) (m : Map ℕ Ptr) → Keeps (λ t. find q t.heap ≡ none) (delete_clients m)
unfolding delete_clients
dead-Keeps q [] = search keeps_rules
dead-Keeps q ((fd, p) ∷ m) = Keeps-bind _ _ (Keeps-deref p) λ c.
    Keeps-bind _ _ (Keeps-modify _ (λ s e. deleted p q s e))
      λ _. Keeps-bind _ _ (dead-Keeps q m) (λ closed. Keeps-pure _)

-- Each descriptor is closed by the server, and then by its client.
pub each_twice : Map ℕ Ptr → List ℕ
each_twice [] = []
each_twice ((k, p) ∷ m) = k ∷ k ∷ each_twice m

-- One client, and then the others.
step :
    (k : ℕ) (p : Ptr) (m : Map ℕ Ptr) (c : Client) (s : Server) (fds : List ℕ)
    → find p s.heap ≡ some c
    → (delete_clients m (without p s)).0 ≡ ok fds
    → delete_clients ((k, p) ∷ m) s ≡ (ok (k ∷ c.fd ∷ fds), (delete_clients m (without p s)).1)
unfolding delete_clients ◌>>=◌ deref modify pure
step k p m c s fds there closed = rw there (rw closed refl)

delete_clients-closes :
    (m : Map ℕ Ptr) (s : Server)
    → Ascending m
    → All (Alive s) m
    → ((delete_clients m s).0 ≡ ok (each_twice m)) × All (Dead (delete_clients m s).1) m
unfolding delete_clients pure each_twice
delete_clients-closes [] s h alive = (refl, tt)
delete_clients-closes ((k, p) ∷ m) s (above, h) (here, there) =
    elim (Option-cases (find p s.heap)) [
      | inl e ↦ absurd (absent (ap (Option.map held) e) here)
      | inr (c, e) ↦
          let (closed, dead) =
            delete_clients-closes m (without p s) h
              (All-both _ _ _ m (others k p s here) above there) in
          let all = step k p m c s _ e closed in
          (
            ap (λ r. r.0) all ∙ ap (λ fd. ok (k ∷ fd ∷ each_twice m)) (fd_there p c s k e here),
            subst (λ r. All (Dead r.1) ((k, p) ∷ m)) (sym all)
                ((dead-Keeps p m).at (without p s) (deletes p s), dead),
          )
    ]

pub alive : (s : Server) → Owned s → Ordered s → All (Alive s) s.clients
alive s owned ordered =
    All-both _ _ _ s.clients (λ entry above e. owned.owned entry.0 entry.1 e) (anything s.clients)
      (entries s.clients ordered.ascending)
  where
    anything : (m : Map ℕ Ptr) → All (λ entry. Unit {0}) m
    anything [] = tt
    anything (x ∷ m) = (tt, anything m)

-- The destructor runs to its end where `_clients` holds each client once and none that is deleted:
-- it closes the server's socket, and then twice the descriptor of each client, and deletes every
-- client.
pub destroy-closes :
    (s : Server)
    → Owned s
    → Ordered s
    → ((destroy s).0 ≡ ok (s.fd ∷ each_twice s.clients))
      × ((fd : ℕ) (p : Ptr) → find fd s.clients ≡ some p → find p (destroy s).1.heap ≡ none)
unfolding destroy ◌>>=◌ modify pure
destroy-closes s owned ordered =
    let (closed, dead) =
      delete_clients-closes s.clients s ordered.ascending (alive s owned ordered) in
    rw closed (refl, λ fd p e. All-find _ fd p s.clients dead e)
