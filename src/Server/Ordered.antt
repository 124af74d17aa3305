-- ===== src/Server/Ordered.antt =====
-- `_clients` as a map: its descriptors ascend, so that each stands in it once (std::map in
-- include/Server.hpp).
use ft_irc_refactor.Server.Keeps.{Keeps-modify, Keeps-deref, Keeps-bind}
use ft_irc_refactor.Cmd.Frame.Message.{handle_client_cmd-Keeps}
use ft_irc_refactor.Client.{Client}
use ft_irc_refactor.Cmd.Frame.{Quiet, Frame}
use ft_irc_refactor.Server.Turning.Cleanup.{cleanup-Keeps}
use ft_irc_refactor.Server.Teardown.{add_client, forget_client}
use ft_irc_refactor.Server.Net.{
  mark_client_for_removal_cases, disable_poll_out_event, update_clients, enable_poll_out_event,
  mark_client_for_removal,
}
use ft_irc_refactor.Channel.{Ptr}
use ft_irc_refactor.Base.{
  lt_of_ltb, le_of_ltb, ==_iff, Bool-cases, All, ltb, erase, false, ℕ, ◌≡◌, ◌<◌, inl, inr, [], ◌∷◌,
  some, Map, mem, find, assign, ℕ_key, str_key, subst, arith, ◌==◌,
}
use ft_irc_refactor.Server.State.{update_client, Server}
use ft_irc_refactor.Server.Turning.{Slots, Turns}

-- Every key is above `k`.
abbrev pub Above : ℕ → Map ℕ Ptr → Type 0
Above k m = All (λ entry. k < entry.0) m

abbrev pub Ascending : Map ℕ Ptr → Type 0
Ascending [] = Unit
Ascending ((k, p) ∷ m) = Above k m × Ascending m

Above-lower : (j k : ℕ) (m : Map ℕ Ptr) → j < k → Above k m → Above j m
Above-lower j k [] less h = tt
Above-lower j k ((i, p) ∷ m) less (here, there) =
    (omega (arith, less, here), Above-lower j k m less there)

Above-assign : (j k : ℕ) (p : Ptr) (m : Map ℕ Ptr) → j < k → Above j m → Above j (assign k p m)
unfolding assign
Above-assign j k p [] less h = (less, tt)
Above-assign j k p ((i, q) ∷ m) less (here, there) = elim (Bool-cases (i == k)) [
  | inl e ↦ rw e (less, there)
  | inr e ↦ elim (Bool-cases (ltb k i)) [
    | inl e' ↦ rw (e, e') (less, (here, there))
    | inr e' ↦ rw (e, e') (here, Above-assign j k p m less there)
  ]
]

Above-erase : (j k : ℕ) (m : Map ℕ Ptr) → Above j m → Above j (erase k m)
unfolding erase
Above-erase j k [] h = tt
Above-erase j k ((i, q) ∷ m) (here, there) = elim (Bool-cases (i == k)) [
  | inl e ↦ rw e (Above-erase j k m there)
  | inr e ↦ rw e (here, Above-erase j k m there)
]

past : (i k : ℕ) → (i == k) ≡ false → ltb k i ≡ false → i < k
past i k e f = ground (arith, ==_iff i k, le_of_ltb k i f)

Ascending-assign : (k : ℕ) (p : Ptr) (m : Map ℕ Ptr) → Ascending m → Ascending (assign k p m)
unfolding assign
Ascending-assign k p [] h = (tt, tt)
Ascending-assign k p ((i, q) ∷ m) (here, there) = elim (Bool-cases (i == k)) [
  | inl e ↦ rw e (subst (λ x. Above x m) ((==_iff i k).0 e) here, there)
  | inr e ↦ elim (Bool-cases (ltb k i)) [
    | inl e' ↦
        let less = lt_of_ltb k i e' in
        rw (e, e') ((less, Above-lower k i m less here), (here, there))
    | inr e' ↦ rw (e, e') (Above-assign i k p m (past i k e e') here, Ascending-assign k p m there)
  ]
]

Ascending-erase : (k : ℕ) (m : Map ℕ Ptr) → Ascending m → Ascending (erase k m)
unfolding erase
Ascending-erase k [] h = tt
Ascending-erase k ((i, q) ∷ m) (here, there) = elim (Bool-cases (i == k)) [
  | inl e ↦ rw e (Ascending-erase k m there)
  | inr e ↦ rw e (Above-erase i k m here, Ascending-erase k m there)
]

pub record Ordered (s : Server) : Type 0 where
  pub ascending : Ascending s.clients

mark-Ordered : (fd : ℕ) (s : Server) → Ordered s → Ordered (mark_client_for_removal fd s)
mark-Ordered fd s o =
    mark_client_for_removal_cases Ordered fd s o (record { ascending = o.ascending })

quiet : Quiet Ordered
unfolding enable_poll_out_event update_client
quiet = record {
  edit = λ p f e.
      Keeps-bind _ _ (Keeps-deref p)
        λ c. Keeps-modify _ (λ s o. record { ascending = o.ascending });
  register = λ p c s there ready o. record { ascending = o.ascending };
  nicked = λ p c s there old o. record { ascending = o.ascending };
  mark = mark-Ordered;
  poll_out = λ fd s o. record { ascending = o.ascending };
  output = λ s n w o. record { ascending = o.ascending };
}

frame : Frame Ordered (λ p fd. Unit {0})
unfolding update_clients
frame = record {
  changes = λ p c f s there e o. record { ascending = o.ascending };
  channel = λ s chs o. record { ascending = o.ascending };
  nick = λ s m o. record { ascending = o.ascending };
  learn = λ p s c o there. tt;
  client = λ p fd known s o. record {
    ascending = Ascending-assign fd p _ (Ascending-erase fd s.clients o.ascending);
  };
}

slots : Slots Ordered
unfolding disable_poll_out_event add_client
slots = record {
  reads = record {
    mark = mark-Ordered;
    disable = λ fd s o. record { ascending = o.ascending };
    output = λ s n w o. record { ascending = o.ascending };
    buffers = λ p c d s there same o. record { ascending = o.ascending };
    message = λ env c. handle_client_cmd-Keeps quiet frame env c;
  };
  accept =
      λ fd host s e o. record { ascending = Ascending-assign fd s.next_ptr s.clients o.ascending };
}

forget_client-Ordered :
    (p : Ptr) (c : Client) (s : Server)
    → find p s.heap ≡ some c
    → Ordered s
    → Ordered (forget_client p c s)
unfolding forget_client
forget_client-Ordered p c s there o = elim (Bool-cases (mem c.fd s.clients)) [
  | inl e ↦ record { ascending = rw e (Ascending-erase c.fd s.clients o.ascending) }
  | inr e ↦ record { ascending = rw e o.ascending }
]

pub ordered_turns : Turns Ordered
ordered_turns = record {
  slots = slots;
  tick = λ now s o. record { ascending = o.ascending };
  cleanup = cleanup-Keeps forget_client-Ordered (λ s o. record { ascending = o.ascending });
}
