-- ===== src/Server/Objects/Teardown.antt =====
-- The objects when clients come (acceptClient) and go (removeClientFromServer): src/Server.cpp.
use mathlib.Core.Option
use ft_irc_refactor.Base.{
  lt_or_le, ℕ, suc, ◌≤◌, [], ◌∷◌, ◌≡◌, ap, subst, sym, refl, inl, inr, Option, none, some, ==_iff,
  Map, find, assign, find-assign, find-erase, ℕ_key, arith, Option-cases, Str,
}
use ft_irc_refactor.Channel.{Ptr}
use ft_irc_refactor.Client.{Client, new_client}
use ft_irc_refactor.Server.State.{modify, deref, for_each, ◌>>=◌, Action, Server, Outcome}
use ft_irc_refactor.Server.Teardown.{
  cleanup_marked_clients, add_client, forget_client, remove_client_from_server, teardown,
}
use ft_irc_refactor.Server.Objects.{Held, held, object_at, fd_of, Owned}

pub absent : {fd : ℕ} {o : Option Held} → o ≡ none → ¬ (fd_of o ≡ some fd)
absent e h = absurd (cc)

-- An object that is there is not at an address that is yet to be given out.
old :
    (s : Server)
    → Owned s
    → (q : Ptr) (fd : ℕ) → fd_of (object_at q s) ≡ some fd
    → suc q ≤ s.next_ptr
old s o q fd e = elim (lt_or_le q s.next_ptr) [
  | inl h ↦ h
  | inr h ↦ absurd (absent (o.fresh q h) e)
]

new_or_held :
    (fd g : ℕ) (host : Str) (s : Server)
    → Owned s
    → (q : Ptr) → find g (assign fd s.next_ptr s.clients) ≡ some q
    → fd_of (Option.map held (find q (assign s.next_ptr (new_client fd host s.now) s.heap)))
      ≡ some g
unfolding new_client
new_or_held fd g host s o q e = ground (
  arith,
  ==_iff fd g,
  ==_iff s.next_ptr q,
  find-assign fd g s.next_ptr s.clients,
  find-assign s.next_ptr q (new_client fd host s.now) s.heap,
  o.owned g q,
  old s o q g,
)

pub add_client-Owned : (fd : ℕ) (host : Str) (s : Server) → Owned s → Owned (add_client fd host s)
unfolding add_client new_client
add_client-Owned fd host s o = record {
  owned = λ g q e. new_or_held fd g host s o q e;
  fresh = λ q le. ground (
    arith,
    ==_iff s.next_ptr q,
    find-assign s.next_ptr q (new_client fd host s.now) s.heap,
    o.fresh q,
  );
}

pub fd_there :
    (p : Ptr) (c : Client) (s : Server) (fd : ℕ)
    → find p s.heap ≡ some c
    → fd_of (object_at p s) ≡ some fd
    → c.fd ≡ fd
fd_there p c s fd there e = ground arith

forget_client-Owned :
    (p : Ptr) (c : Client) (s : Server)
    → find c.fd s.clients ≡ some p
    → find p s.heap ≡ some c
    → Owned s
    → Owned (forget_client p c s)
unfolding forget_client
forget_client-Owned p c s held there o = record {
  owned = λ g q e. ground (
    arith,
    held,
    there,
    ==_iff c.fd g,
    ==_iff p q,
    find-erase c.fd g s.clients,
    find-erase p q s.heap,
    o.owned g q,
  );
  fresh = λ q le. ground (arith, ==_iff p q, find-erase p q s.heap, o.fresh q);
}

-- A statement that runs to its end, and leaves no dangling pointer in `_clients`.
abbrev pub Safely : Action (Unit {0}) → Server → Type 0
Safely m s = ((m s).0 ≡ Outcome.ok tt) × Owned (m s).1

pub teardown-Safely : (fd : ℕ) (s : Server) → Owned s → Safely (teardown (fd, tt)) s
unfolding teardown remove_client_from_server ◌>>=◌ deref modify
teardown-Safely fd s o = elim (Option-cases (find fd s.clients)) [
  | inl e ↦ rw e (refl, o)
  | inr (p, e) ↦ elim (Option-cases (find p s.heap)) [
    | inl e' ↦ absurd (absent (ap (Option.map held) e') (o.owned fd p e))
    | inr (c, e') ↦
        let same = fd_there p c s fd e' (o.owned fd p e) in
        rw (e, e')
          (
            refl,
            forget_client-Owned p c s (subst (λ n. find n s.clients ≡ some p) (sym same) e) e' o,
          )
  ]
]

pub for_each-Safely :
    (fds : Map ℕ (Unit {0})) (s : Server) → Owned s → Safely (for_each fds teardown) s
unfolding for_each ◌>>=◌
for_each-Safely [] s o = (refl, o)
for_each-Safely ((fd, _) ∷ fds) s o =
    let (e, o') = teardown-Safely fd s o in rw e (for_each-Safely fds _ o')

-- From a state in which `_clients` holds no dangling pointer, cleanupMarkedClients runs to its end
-- and again leaves none.
pub cleanup_marked_clients-Owned :
    (s : Server)
    → Owned s
    → ((cleanup_marked_clients s).0 ≡ Outcome.ok tt) × Owned (cleanup_marked_clients s).1
unfolding cleanup_marked_clients ◌>>=◌ modify
cleanup_marked_clients-Owned s o =
    let (e, o') = for_each-Safely s.to_remove s o in
    rw e (refl, record { owned = o'.owned; fresh = o'.fresh })
