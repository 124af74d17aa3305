-- ===== src/Server/Members/Moves.antt =====
-- Entering a channel and changing a nickname (src/Cmd/CmdJoin.cpp, CmdNick.cpp): the participants
-- stay living clients.
use ft_irc_refactor.Base.{
  Once, insert-Once, same_value, false, ℕ, ◌≢◌, find-assign_cases, find-assign, insert, mem,
  Bool-cases, true, ◌≡◌, ◌∙◌, ◌⊎◌, refl, inl, inr, some, Str, Map, find, assign, ℕ_key, str_key, ap,
  sym, subst, ◌==◌,
}
use ft_irc_refactor.Cmd.Frame.{Tidy, first_name, Fewer, GoodNick, Unused}
use ft_irc_refactor.Server.Net.{add_client_by_nickname}
use ft_irc_refactor.Client.{set_nickname, set_nick_status, Client}
use ft_irc_refactor.Channel.{Channel, Ptr, add_participant}
use ft_irc_refactor.Server.State.{Server}
use ft_irc_refactor.Server.Members.{other_object, Member, Seated}
use ft_irc_refactor.Server.Distinct.{Distinct, fewer-Distinct, assign-Distinct}
use ft_irc_refactor.Server.Members.Names.{stored_name, unused_name}

pub channel-Seated :
    (s : Server) (chs : Map Str Channel)
    → Fewer s.channels chs
    → Tidy s.channels chs
    → Seated s
    → Seated (record s { channels = chs })
channel-Seated s chs fewer tidy h = record {
  seat = λ name ch n p e f.
      let (old, (held, there)) = fewer name ch n p e f in
      let m = h.seat name old n p held there in
      record { client = m.client; there = m.there; name = m.name; registered = m.registered };
  listed = h.listed;
  distinct = h.distinct;
  once = λ name ch e. elim (tidy name ch e) [
    | inl once ↦ once
    | inr (old, (held, keeps)) ↦ keeps (h.once name old held)
  ];
}

-- Who is a participant when one has been added.
pub added :
    (nick n : Str) (p q : Ptr) (ch : Channel)
    → find n (add_participant nick p ch).participant ≡ some q
    → ((nick ≡ n) × (p ≡ q)) ⊎ (find n ch.participant ≡ some q)
unfolding add_participant insert
added nick n p q ch e = elim (Bool-cases (mem nick ch.participant)) [
  | inl t ↦ inr (rw t at e)
  | inr t ↦ find-assign_cases nick n p q ch.participant (rw t at e)
]

pub add_participant-Once :
    (nick : Str) (p : Ptr) (ch : Channel)
    → Once ch.participant
    → Once (add_participant nick p ch).participant
unfolding add_participant
add_participant-Once nick p ch once = insert-Once nick p ch.participant once

pub join-Seated :
    (p : Ptr) (c : Client) (name : Str) (ch : Channel) (s : Server)
    → find p s.heap ≡ some c
    → c.registered ≡ true
    → find name s.channels ≡ some ch
    → Seated s
    → Seated (record s { channels = assign name (add_participant c.nickname p ch) s.channels })
join-Seated p c name ch s there registered held h = record {
  seat = λ k d n q e f.
      elim (find-assign_cases name k (add_participant c.nickname p ch) d s.channels e) [
        | inr old ↦ again n q (h.seat k d n q old f)
        | inl (_, is) ↦
            elim (added c.nickname n p q ch
              (subst (λ x. find n x.participant ≡ some q) (sym is) f)) [
                | inl (nick, ptr) ↦ record {
                  client = c;
                  there = subst (λ x. find x s.heap ≡ some c) ptr there;
                  name = nick;
                  registered = registered;
                }
                | inr old ↦ again n q (h.seat name ch n q held old)
              ]
      ];
  listed = h.listed;
  distinct = h.distinct;
  once = λ k d e. elim (find-assign_cases name k (add_participant c.nickname p ch) d s.channels e) [
    | inl (_, is) ↦
        subst (λ x. Once x.participant) is
          (add_participant-Once c.nickname p ch (h.once name ch held))
    | inr old ↦ h.once k d old
  ];
}
  where
    again :
        (n : Str) (q : Ptr)
        → Member n q s
        → Member n q
            (record s { channels = assign name (add_participant c.nickname p ch) s.channels })
    again n q m = record {
      client = m.client;
      there = m.there;
      name = m.name;
      registered = m.registered;
    }

-- Two changes of one object are the second.
pub twice :
    (p q : Ptr) (c d : Client) (m : Map Ptr Client)
    → find q (assign p d (assign p c m)) ≡ find q (assign p d m)
twice p q c d m = elim (Bool-cases (p == q)) [
  | inl e ↦ rw (find-assign p q d (assign p c m), find-assign p q d m, e) refl
  | inr e ↦ rw (find-assign p q d (assign p c m), find-assign p q d m, find-assign p q c m, e) refl
]

-- The member is another object.
pub not_me :
    (p q : Ptr) (c : Client) (n : Str) (s : Server)
    → find p s.heap ≡ some c
    → (m : Member n q s) → (p ≡ q → c ≡ m.client)
not_me p q c n s there m same = same_value (sym there ∙ ap (λ x. find x s.heap) same ∙ m.there)

-- A member that is another object than the one that changes.
pub other-Member :
    (p q : Ptr) (c d : Client) (n : Str) (s t : Server)
    → ((r : Ptr) → find r t.heap ≡ find r (assign p d s.heap))
    → p ≢ q
    → Member n q s
    → Member n q t
other-Member p q c d n s t heap differ m = record {
  client = m.client;
  there = heap q ∙ other_object p q d m.client s.heap differ m.there;
  name = m.name;
  registered = m.registered;
}

-- The clients are where they were, and the changed one keeps its descriptor.
pub still_listed :
    (p : Ptr) (c d : Client) (s t : Server)
    → find p s.heap ≡ some c
    → d.fd ≡ c.fd
    → ((r : Ptr) → find r t.heap ≡ find r (assign p d s.heap))
    → ((g : ℕ) → find g t.clients ≡ find g s.clients)
    → Seated s
    → (q : Ptr) (e : Client) → find q t.heap ≡ some e
    → find e.fd t.clients ≡ some q
still_listed p c d s t there fd heap clients h q e found =
    clients e.fd ∙ elim (find-assign_cases p q d e s.heap (sym (heap q) ∙ found)) [
      | inl (here, is) ↦
          subst (λ x. find x s.clients ≡ some q) (sym fd ∙ ap Client.fd is)
            (subst (λ x. find c.fd s.clients ≡ some x) here (h.listed p c there))
      | inr old ↦ h.listed q e old
    ]

-- A nickname that checkNick has found unused.
pub renewed_name :
    (p : Ptr) (d : Client) (t : Str) (s after : Server)
    → ((r : Ptr) → find r after.heap ≡ find r (assign p d s.heap))
    → d.nickname ≡ t
    → Unused t s
    → Seated s
    → Distinct after.heap
renewed_name p d t s after heap name unused h =
    fewer-Distinct (assign p d s.heap) after.heap (λ q e found. sym (heap q) ∙ found)
      (assign-Distinct p d s.heap
        (λ q e differ old same named.
          unused_name s.heap t s.clients e.fd q e unused (h.listed q e old) old (same ∙ name))
        h.distinct)

pub named-Seated :
    (p : Ptr) (c : Client) (t : Str) (s : Server)
    → find p s.heap ≡ some c
    → c.registered ≡ false
    → GoodNick t
    → Unused t s
    → Seated s
    → Seated (first_name p c t s)
unfolding add_client_by_nickname set_nick_status set_nickname
named-Seated p c t s there new good unused h = record {
  seat = λ name ch n q e f.
      let m = h.seat name ch n q e f in
      other-Member p q c _ n s (first_name p c t s) (λ r. twice p r _ _ s.heap)
        (λ same. unregistered m (not_me p q c n s there m same)) m;
  listed =
      still_listed p c _ s (first_name p c t s) there refl (λ r. twice p r _ _ s.heap) (λ g. refl)
        h;
  distinct =
      renewed_name p (set_nick_status true (set_nickname t c)) t s (first_name p c t s)
        (λ r. twice p r (set_nickname t c) (set_nick_status true (set_nickname t c)) s.heap)
        (stored_name t c good.1) unused h;
  once = h.once;
}
  where
    unregistered : {n : Str} {q : Ptr} → (m : Member n q s) → c ≡ m.client → ⊥
    unregistered m same = wrong (sym new ∙ ap (λ x. x.registered) same ∙ m.registered)
      where
        wrong : false ≡ true → ⊥
        wrong e = cc
