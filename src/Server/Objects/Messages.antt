-- ===== src/Server/Objects/Messages.antt =====
-- The client objects when a message is handled: Cmd::handleClientCmd (src/Cmd/Cmd.cpp).
use mathlib.Core.Option
use ft_irc_refactor.Base.{
  true, inl, inr, Option-cases, refl, erase, ◌∙◌, Map, ℕ, ◌≤◌, ◌⊎◌, ◌≡◌, ap, subst, Option, some,
  ◌==◌, ==_iff, find, assign, find-assign, find-erase, Bool-cases, ℕ_key, arith, sym,
}
use ft_irc_refactor.Channel.{Ptr}
use ft_irc_refactor.Client.{set_nick_status, set_registered_status, Client}
use ft_irc_refactor.Server.State.{modify, deref, ◌>>=◌, update_client, Server, Env}
use ft_irc_refactor.Server.Net.{
  mark_client_for_removal_cases, enable_poll_out_event, update_clients,
}
use ft_irc_refactor.Server.Keeps.{Keeps}
use ft_irc_refactor.Server.Objects.{Held, held, object_at, fd_of, Owned}
use ft_irc_refactor.Cmd.Context.{Cmd}
use ft_irc_refactor.Cmd.Dispatch.{handle_client_cmd}
use ft_irc_refactor.Cmd.Frame.{IsChange, IsEdit, Quiet, Frame}
use ft_irc_refactor.Cmd.Frame.Message.{handle_client_cmd-Keeps}

-- The objects are those of `v`, and `_clients` holds them under their descriptors.
record Same (v : Ptr → Option Held) (n : ℕ) (s : Server) : Type 0 where
  objects : (q : Ptr) → object_at q s ≡ v q
  next : s.next_ptr ≡ n
  owned : (fd : ℕ) (p : Ptr) → find fd s.clients ≡ some p → fd_of (v p) ≡ some fd

held-edit : (f : Client → Client) (c : Client) → IsChange f → held (f c) ≡ held c
held-edit f c e = λ i. (e.same_fd c i, e.same_recv c i)

-- The object at one address, when a method has changed the one at `p`.
object_at-assign :
    (p q : Ptr) (d : Client) (m : Map Ptr Client) (h : Option Held)
    → (p ≡ q → some (held d) ≡ h)
    → Option.map held (find q m) ≡ h
    → Option.map held (find q (assign p d m)) ≡ h
object_at-assign p q d m h here there = elim (Bool-cases (p == q)) [
  | inl e ↦ rw (find-assign p q d m) (rw e (here ((==_iff p q).0 e)))
  | inr e ↦ rw (find-assign p q d m) (rw e there)
]

replaced :
    (fd g : ℕ) (p q : Ptr) (m : Map ℕ Ptr)
    → find g (assign fd p (erase fd m)) ≡ some q
    → ((fd ≡ g) × (p ≡ q)) ⊎ (find g m ≡ some q)
replaced fd g p q m e =
    ground (arith, ==_iff fd g, find-assign fd g p (erase fd m), find-erase fd g m)

module _ (v : Ptr → Option Held) (n : ℕ) where
  abbrev Known : Ptr → ℕ → Type 0
  Known p fd = fd_of (v p) ≡ some fd

  object :
      (p : Ptr) (s : Server) (c : Client)
      → Same v n s
      → find p s.heap ≡ some c
      → v p ≡ some (held c)
  object p s c h there = sym (h.objects p) ∙ ap (Option.map held) there

  changed :
      (p : Ptr) (c d : Client) (s : Server)
      → find p s.heap ≡ some c
      → held d ≡ held c
      → Same v n s
      → Same v n (record s { heap = assign p d s.heap })
  changed p c d s there e h = record {
    objects = λ q.
        object_at-assign p q d s.heap (v q)
          (λ same. ap some e ∙ sym (object p s c h there) ∙ ap v same) (h.objects q);
    next = h.next;
    owned = h.owned;
  }

  registering : (c : Client) → held (set_registered_status true c) ≡ held c
  unfolding set_registered_status
  registering c = refl

  nicking : (c : Client) → held (set_nick_status true c) ≡ held c
  unfolding set_nick_status
  nicking c = refl

  edit-Same : (p : Ptr) (f : Client → Client) → IsEdit f → Keeps (Same v n) (update_client p f)
  unfolding update_client ◌>>=◌ deref modify
  edit-Same p f e = record {
    at = λ s h. elim (Option-cases (find p s.heap)) [
      | inl none_there ↦ rw none_there h
      | inr (c, there) ↦ rw there (changed p c (f c) s there (held-edit f c e.change) h)
    ];
  }

  quiet : Quiet (Same v n)
  unfolding enable_poll_out_event
  quiet = record {
    edit = edit-Same;
    nicked = λ p c s there old h. changed p c _ s there (nicking c) h;
    register = λ p c s there ready h. changed p c _ s there (registering c) h;
    mark = λ fd s h.
        mark_client_for_removal_cases (Same v n) fd s h
          (record { objects = h.objects; next = h.next; owned = h.owned });
    poll_out = λ fd s h. record { objects = h.objects; next = h.next; owned = h.owned };
    output = λ s n w h. record { objects = h.objects; next = h.next; owned = h.owned };
  }

  owned-update :
      (p : Ptr) (fd : ℕ) (s : Server)
      → Known p fd
      → Same v n s
      → (g : ℕ) (q : Ptr) → find g (assign fd p (erase fd s.clients)) ≡ some q
      → Known q g
  owned-update p fd s known h g q e = elim (replaced fd g p q s.clients e) [
    | inl (a, b) ↦ ap (λ x. fd_of (v x)) (sym b) ∙ known ∙ ap some a
    | inr e' ↦ h.owned g q e'
  ]

  frame : Frame (Same v n) Known
  unfolding update_clients
  frame = record {
    changes = λ p c f s there e h. changed p c (f c) s there (held-edit f c e) h;
    channel = λ s chs h. record { objects = h.objects; next = h.next; owned = h.owned };
    nick = λ s m h. record { objects = h.objects; next = h.next; owned = h.owned };
    learn = λ p s c h there. ap fd_of (object p s c h there);
    client = λ p fd known s h. record {
      objects = h.objects;
      next = h.next;
      owned = owned-update p fd s known h;
    };
  }

module _ (env : Env) (c : Cmd) (s : Server) (o : Owned s) where
  after-Same : Same (λ q. object_at q s) s.next_ptr (handle_client_cmd env c s).1
  after-Same =
      (handle_client_cmd-Keeps (quiet _ _) (frame _ _) env c).at s
        (record { objects = λ q. refl; next = refl; owned = o.owned })

  -- Where `_clients` holds no dangling pointer, a message leaves alive exactly the client objects
  -- that were, each with its descriptor and its receive buffer.
  pub handle_client_cmd-objects :
      (q : Ptr) → object_at q (handle_client_cmd env c s).1 ≡ object_at q s
  handle_client_cmd-objects q = after-Same.objects q

  -- A message keeps the rule that `_clients` holds no dangling pointer, that each client is held
  -- under its own descriptor, and that new addresses are unused.
  pub handle_client_cmd-Owned : Owned (handle_client_cmd env c s).1
  handle_client_cmd-Owned = record {
    owned = λ fd p e. ap fd_of (after-Same.objects p) ∙ after-Same.owned fd p e;
    fresh = λ q le. after-Same.objects q ∙ o.fresh q (subst (λ x. x ≤ q) after-Same.next le);
  }
