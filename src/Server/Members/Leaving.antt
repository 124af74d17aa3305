-- ===== src/Server/Members/Leaving.antt =====
-- The participants when clients come (acceptClient) and go (removeClientFromServer): src/Server.cpp.
use ft_irc_refactor.Base.{
  Once, erase-Once, not_both, not_found, find-assign_cases, find-assign_same, ==_iff, find-assign,
  find-erase, str_eq, str_eq_iff, erase, mem, Bool-cases, ℕ, ◌≡◌, ◌≢◌, ◌∙◌, refl, inl, inr, Option,
  none, some, Str, Map, find, assign, ℕ_key, str_key, ap, sym, subst, if◌then◌else◌, arith,
}
use ft_irc_refactor.Channel.{
  is_participant, is_operator, remove_participant, remove_operator, Channel, Ptr,
}
use ft_irc_refactor.Cmd.Members.{leave-members}
use ft_irc_refactor.Server.Objects.{held, Owned}
use ft_irc_refactor.Client.{new_client, Client}
use ft_irc_refactor.Server.Teardown.{leave, add_client, forget_client}
use mathlib.Core.Option
use ft_irc_refactor.Server.State.{Server}
use ft_irc_refactor.Server.Distinct.{fewer-Distinct, assign-Distinct}
use ft_irc_refactor.Server.Members.{Seated, other_object}
use ft_irc_refactor.Server.Members.Renaming.{find-map}
use ft_irc_refactor.Server.Members.Moves.{not_me}

-- A participant that stays is one of another nickname.
stays :
    (nick n : Str) (q : Ptr) (ch : Channel)
    → find n (leave nick ch).participant ≡ some q
    → (nick ≢ n) × (find n ch.participant ≡ some q)
stays nick n q ch e = elim (Bool-cases (str_eq nick n)) [
  | inl same ↦ absurd (not_found (rw ((leave-members nick n ch).0, same) at e))
  | inr other ↦ (
    λ is. not_both ((str_eq_iff nick n).1 is) other,
    rw ((leave-members nick n ch).0, other) at e,
  )
]

erased_object :
    (p q : Ptr) (e : Client) (m : Map Ptr Client)
    → p ≢ q
    → find q m ≡ some e
    → find q (erase p m) ≡ some e
erased_object p q e m differ there = ground (arith, ==_iff p q, find-erase p q m, differ, there)

pub object_left :
    (p q : Ptr) (e : Client) (m : Map Ptr Client)
    → find q (erase p m) ≡ some e
    → (p ≢ q) × (find q m ≡ some e)
object_left p q e m found = ground (arith, ==_iff p q, find-erase p q m, found)

entry_left :
    (fd g : ℕ) (p q : Ptr) (m : Map ℕ Ptr)
    → find fd m ≡ some p
    → p ≢ q
    → find g m ≡ some q
    → find g (if mem fd m then erase fd m else m) ≡ some q
entry_left fd g p q m held differ there =
    ground (arith, ==_iff fd g, find-erase fd g m, held, differ, there)

leave-Once : (nick : Str) (ch : Channel) → Once ch.participant → Once (leave nick ch).participant
unfolding leave remove_participant remove_operator
leave-Once nick ch once = elim (Bool-cases (is_participant nick ch)) [
  | inl a ↦ elim (Bool-cases (is_operator nick ch)) [
    | inl b ↦ rw (a, b) (erase-Once nick ch.participant once)
    | inr b ↦ rw (a, b) (erase-Once nick ch.participant once)
  ]
  | inr a ↦ elim (Bool-cases (is_operator nick ch)) [
    | inl b ↦ rw (a, b) once
    | inr b ↦ rw (a, b) once
  ]
]

pub forget_client-Seated :
    (p : Ptr) (c : Client) (s : Server)
    → find p s.heap ≡ some c
    → Seated s
    → Seated (forget_client p c s)
unfolding forget_client
forget_client-Seated p c s there h = record {
  seat = λ name d n q e f.
      let (ch, (held, is)) = find-map (leave c.nickname) name s.channels d e in
      let (differ, seat) =
        stays c.nickname n q ch (subst (λ x. find n x.participant ≡ some q) (sym is) f) in
      let m = h.seat name ch n q held seat in
      record {
        client = m.client;
        there =
            erased_object p q m.client s.heap
              (λ same. differ (ap (λ x. x.nickname) (not_me p q c n s there m same) ∙ m.name))
              m.there;
        name = m.name;
        registered = m.registered;
      };
  listed = λ q e found.
      let (differ, old) = object_left p q e s.heap found in
      entry_left c.fd e.fd p q s.clients (h.listed p c there) differ (h.listed q e old);
  distinct =
      fewer-Distinct s.heap (erase p s.heap) (λ q e found. (object_left p q e s.heap found).1)
        h.distinct;
  once = λ name d e.
      let (ch, (held, is)) = find-map (leave c.nickname) name s.channels d e in
      subst (λ x. Once x.participant) is (leave-Once c.nickname ch (h.once name ch held));
}

entry_kept :
    (fd g : ℕ) (p q : Ptr) (m : Map ℕ Ptr)
    → find fd m ≡ none
    → find g m ≡ some q
    → find g (assign fd p m) ≡ some q
entry_kept fd g p q m free there = ground (arith, ==_iff fd g, find-assign fd g p m, free, there)

fresh_address :
    (p q : Ptr) (e : Client) (m : Map Ptr Client) → find p m ≡ none → find q m ≡ some e → p ≢ q
fresh_address p q e m free there same = not_found (sym free ∙ ap (λ x. find x m) same ∙ there)

unallocated : (s : Server) → Owned s → find s.next_ptr s.heap ≡ none
unallocated s o = nothing (find s.next_ptr s.heap) (o.fresh s.next_ptr (omega arith))
  where
    nothing : (c : Option Client) → Option.map held c ≡ none → c ≡ none
    nothing none e = refl
    nothing (some c) e = absurd (cc)

-- A descriptor that is not in use.
pub add_client-Seated :
    (fd : ℕ) (host : Str) (s : Server)
    → find fd s.clients ≡ none
    → Owned s
    → Seated s
    → Seated (add_client fd host s)
unfolding add_client new_client
add_client-Seated fd host s free owned h = record {
  seat = λ name ch n q e f.
      let m = h.seat name ch n q e f in
      record {
        client = m.client;
        there =
            other_object s.next_ptr q (new_client fd host s.now) m.client s.heap
              (fresh_address s.next_ptr q m.client s.heap (unallocated s owned) m.there) m.there;
        name = m.name;
        registered = m.registered;
      };
  listed = λ q e found.
      elim (find-assign_cases s.next_ptr q (new_client fd host s.now) e s.heap found) [
        | inl (here, is) ↦
            subst (λ x. find x.fd (assign fd s.next_ptr s.clients) ≡ some q) is
              (subst (λ x. find fd (assign fd s.next_ptr s.clients) ≡ some x) here
                (find-assign_same fd s.next_ptr s.clients))
        | inr old ↦ entry_kept fd e.fd s.next_ptr q s.clients free (h.listed q e old)
      ];
  distinct =
      assign-Distinct s.next_ptr (new_client fd host s.now) s.heap
        (λ q e differ old same named. named refl) h.distinct;
  once = h.once;
}
