-- ===== src/Server/Objects/Removal.antt =====
-- Marks and their end (markClientForRemoval and cleanupMarkedClients, src/Server.cpp).
use mathlib.Core.Option
use ft_irc_refactor.Base.{
  mem-insert, ℕ, ◌≡◌, ◌↔◌, ap, subst, sym, refl, ◌∙◌, inl, inr, ◌⊎◌, Bool, true, false, not, ◌||◌,
  List, [], ◌∷◌, none, if◌then◌else◌, ◌==◌, ==_iff, Map, All, filter_by, mem, is_some, insert, find,
  find-erase, ℕ_key, arith, Option-cases, Bool-cases,
}
use ft_irc_refactor.Channel.{Set, Ptr}
use ft_irc_refactor.Server.State.{Server, PollFd, for_each, ◌>>=◌, deref, modify}
use ft_irc_refactor.Server.Net.{get_client, mark_client_for_removal, is_marked_for_removal}
use ft_irc_refactor.Server.Teardown.{
  teardown, remove_client_from_server, forget_client, cleanup_marked_clients,
}
use ft_irc_refactor.Server.Objects.{held, Owned}
use ft_irc_refactor.Server.Objects.Teardown.{for_each-Safely, teardown-Safely, fd_there, absent}

either_true : (a b : Bool) → ((a || b) ≡ true) ↔ ((a ≡ true) ⊎ (b ≡ true))
either_true true b = (λ h. inl refl, λ h. refl)
either_true false b = (λ h. inr h, λ h. elim h [ inl e ↦ absurd (cc) | inr e ↦ e ])

marked_or : (a b : Bool) → (not a || b) ≡ true → a ≡ true → b ≡ true
marked_or a b h k = ground arith

exists_or : (a b : Bool) → (not a || b) ≡ false → a ≡ true
exists_or a b h = ground arith

mem-insert_iff :
    (fd g : ℕ) (m : Set ℕ) → (mem g (insert fd tt m) ≡ true) ↔ ((mem g m ≡ true) ⊎ (fd ≡ g))
mem-insert_iff fd g m = (
  λ h. elim ((either_true (fd == g) (mem g m)).0 (sym (mem-insert fd g tt m) ∙ h)) [
    | inl same ↦ inr ((==_iff fd g).0 same)
    | inr there ↦ inl there
  ],
  λ h.
      mem-insert fd g tt m
      ∙ (either_true (fd == g) (mem g m)).1
          (elim h [ inl there ↦ inr there | inr same ↦ inl ((==_iff fd g).1 same) ]),
)

-- After a mark, a descriptor counts as marked exactly if it did before, or if it is the one marked
-- and a client has it.
pub mark_client_for_removal_iff :
    (fd g : ℕ) (s : Server)
    → (is_marked_for_removal g (mark_client_for_removal fd s) ≡ true)
      ↔ ((is_marked_for_removal g s ≡ true) ⊎ ((fd ≡ g) × (mem fd s.clients ≡ true)))
unfolding is_marked_for_removal mark_client_for_removal
mark_client_for_removal_iff fd g s =
    elim (Bool-cases (not (mem fd s.clients) || mem fd s.to_remove)) [
      | inl e ↦ rw e (
        (λ h. inl h),
        λ h. elim h [
          | inl m ↦ m
          | inr (same, there) ↦
              subst (λ x. mem x s.to_remove ≡ true) same (marked_or (mem fd s.clients) _ e there)
        ],
      )
      | inr e ↦ rw e (
        λ h. elim ((mem-insert_iff fd g s.to_remove).0 h) [
          | inl m ↦ inl m
          | inr same ↦ inr (same, exists_or (mem fd s.clients) _ e)
        ],
        λ h.
            (mem-insert_iff fd g s.to_remove).1
              (elim h [ inl m ↦ inl m | inr (same, there) ↦ inr same ]),
      )
    ]

absent_find :
    (fd g : ℕ) (m : Map ℕ Ptr) → find fd m ≡ none → find g m ≡ (if fd == g then none else find g m)
absent_find fd g m e = ground (arith, ==_iff fd g)

teardown-clients :
    (fd g : ℕ) (s : Server)
    → Owned s
    → find g (teardown (fd, tt) s).1.clients ≡ (if fd == g then none else find g s.clients)
unfolding teardown remove_client_from_server ◌>>=◌ deref modify forget_client
teardown-clients fd g s o = elim (Option-cases (find fd s.clients)) [
  | inl e ↦ rw e (absent_find fd g s.clients e)
  | inr (p, e) ↦ elim (Option-cases (find p s.heap)) [
    | inl e' ↦ absurd (absent (ap (Option.map held) e') (o.owned fd p e))
    | inr (c, e') ↦
        let same = fd_there p c s fd e' (o.owned fd p e) in
        rw (e, e', same, e) (find-erase fd g s.clients)
  ]
]

none_left : (g : ℕ) → ¬ (mem {V = Unit {0}} g [] ≡ true)
unfolding find
none_left g e = absurd (cc)

-- One more descriptor is done with.
still_gone :
    (fd g : ℕ) (fds : Map ℕ (Unit {0})) (s : Server)
    → Owned s
    → (find g s.clients ≡ none) ⊎ (mem g ((fd, tt) ∷ fds) ≡ true)
    → (find g (teardown (fd, tt) s).1.clients ≡ none) ⊎ (mem g fds ≡ true)
unfolding find
still_gone fd g fds s o h = elim (Bool-cases (fd == g)) [
  | inl e ↦ inl (teardown-clients fd g s o ∙ rw e refl)
  | inr e ↦ elim h [
    | inl n ↦ inl (teardown-clients fd g s o ∙ rw (e, n) refl)
    | inr m ↦ inr (rw e at m)
  ]
]

teardowns-clients :
    (fds : Map ℕ (Unit {0})) (g : ℕ) (s : Server)
    → Owned s
    → (find g s.clients ≡ none) ⊎ (mem g fds ≡ true)
    → find g (for_each fds teardown s).1.clients ≡ none
unfolding for_each ◌>>=◌
teardowns-clients [] g s o h = elim h [ inl e ↦ e | inr e ↦ absurd (none_left g e) ]
teardowns-clients ((fd, _) ∷ fds) g s o h =
    let (e, o') = teardown-Safely fd s o in
    rw e (teardowns-clients fds g _ o' (still_gone fd g fds s o h))

unfoldable pub HasFd : PollFd → Type 0
HasFd slot = is_some slot.fd ≡ true

slots-HasFd : (slots : List PollFd) → All HasFd (filter_by (λ slot. is_some slot.fd) slots)
unfolding HasFd
slots-HasFd [] = tt
slots-HasFd (slot ∷ slots) = elim (Bool-cases (is_some slot.fd)) [
  | inl e ↦ rw (All, e) (e, slots-HasFd slots)
  | inr e ↦ rw (All, e) (slots-HasFd slots)
]

-- cleanupMarkedClients removes every client that is marked, unmarks all descriptors and leaves no
-- unused slot, where `_clients` holds no dangling pointer.
pub cleanup_marked_clients-removes :
    (s : Server)
    → Owned s
    → ((g : ℕ)
        → is_marked_for_removal g s ≡ true
        → get_client g (cleanup_marked_clients s).1 ≡ none)
      × (((cleanup_marked_clients s).1.to_remove ≡ []) × All HasFd (cleanup_marked_clients s).1.fds)
unfolding cleanup_marked_clients ◌>>=◌ modify is_marked_for_removal
cleanup_marked_clients-removes s o =
    let (e, o') = for_each-Safely s.to_remove s o in
    rw e (
      (λ g m. teardowns-clients s.to_remove g s o (inr m)),
      (refl, slots-HasFd (for_each s.to_remove teardown s).1.fds),
    )
