-- ===== src/Server/Members.antt =====
-- The participants of the channels as pointers to clients: addParticipant, removeParticipant and
-- what the commands (src/Cmd/) and removeClientFromServer (src/Server.cpp) make of them.
pub mod Names
pub mod Moves
pub mod Renaming
pub mod Entering
pub mod Known
pub mod Naming
pub mod Leaving
pub mod Messages
pub mod Serving
pub mod Run
pub mod Delivery
pub mod Hearing
pub mod Broadcast
pub mod Privmsg
use ft_irc_refactor.Base.{
  same_value, Option-cases, find-assign_same, find-assign_cases, Bool-cases, find-assign, ==_iff,
  true, ◌≡◌, ◌≢◌, ◌∙◌, refl, inl, inr, some, Str, Map, find, assign, ℕ_key, str_key, ap, sym, subst,
  arith, ◌==◌, Once,
}
use ft_irc_refactor.Cmd.Frame.{Quiet}
use ft_irc_refactor.Server.Distinct.{Distinct, change-Distinct}
use ft_irc_refactor.Server.Net.{mark_client_for_removal_cases, enable_poll_out_event}
use ft_irc_refactor.Client.{set_nick_status, set_registered_status, Client}
use ft_irc_refactor.Channel.{Channel, Ptr}
use ft_irc_refactor.Server.State.{modify, deref, update_client, put, Server, ◌>>=◌}

-- A living client that is registered and has the nickname.
pub record Member (n : Str) (p : Ptr) (s : Server) : Type 0 where
  pub client : Client
  pub there : find p s.heap ≡ some client
  pub name : client.nickname ≡ n
  pub registered : client.registered ≡ true

-- Each participant of a channel is one, under its nickname; each living client stands in
-- `_clients` under its descriptor; no two have the same nickname; and no nickname stands twice in a
-- channel.
pub record Seated (s : Server) : Type 0 where
  pub seat :
      (name : Str) (ch : Channel) (n : Str) (p : Ptr)
      → find name s.channels ≡ some ch
      → find n ch.participant ≡ some p
      → Member n p s
  pub listed : (p : Ptr) (c : Client) → find p s.heap ≡ some c → find c.fd s.clients ≡ some p
  pub distinct : Distinct s.heap
  pub once : (name : Str) (ch : Channel) → find name s.channels ≡ some ch → Once ch.participant

-- Another object, when one has been replaced.
pub other_object :
    (p q : Ptr) (d e : Client) (m : Map Ptr Client)
    → p ≢ q
    → find q m ≡ some e
    → find q (assign p d m) ≡ some e
other_object p q d e m differ there = ground (arith, ==_iff p q, find-assign p q d m, differ, there)

-- A member, when an object has been replaced by one that is like it.
pub Member-put :
    (p q : Ptr) (c d : Client) (n : Str) (s : Server)
    → find p s.heap ≡ some c
    → d.nickname ≡ c.nickname
    → (c.registered ≡ true → d.registered ≡ true)
    → Member n q s
    → Member n q (put p d s)
Member-put p q c d n s there same keeps m = elim (Bool-cases (p == q)) [
  | inl e ↦
      let here = (==_iff p q).0 e in
      let was =
        same_value (sym there ∙ subst (λ x. find x s.heap ≡ some m.client) (sym here) m.there) in
      record {
        client = d;
        there = subst (λ x. find x (assign p d s.heap) ≡ some d) here (find-assign_same p d s.heap);
        name = same ∙ ap (λ x. x.nickname) was ∙ m.name;
        registered = keeps (ap (λ x. x.registered) was ∙ m.registered);
      }
  | inr e ↦ record {
    client = m.client;
    there = rw (find-assign p q d s.heap) (rw e m.there);
    name = m.name;
    registered = m.registered;
  }
]

-- A change of one object that keeps its descriptor and its nickname.
pub put-Seated :
    (p : Ptr) (c d : Client) (s : Server)
    → find p s.heap ≡ some c
    → d.fd ≡ c.fd
    → d.nickname ≡ c.nickname
    → (c.registered ≡ true → d.registered ≡ true)
    → Seated s
    → Seated (put p d s)
put-Seated p c d s there fd same keeps h = record {
  seat = λ name ch n q e f. Member-put p q c d n s there same keeps (h.seat name ch n q e f);
  listed = λ q e found. elim (find-assign_cases p q d e s.heap found) [
    | inl (here, is) ↦
        subst (λ x. find x s.clients ≡ some q) (sym fd ∙ ap Client.fd is)
          (subst (λ x. find c.fd s.clients ≡ some x) here (h.listed p c there))
    | inr old ↦ h.listed q e old
  ];
  distinct = change-Distinct p c d s.heap there same h.distinct;
  once = h.once;
}

-- A change elsewhere.
pub same-Seated :
    (s t : Server)
    → t.heap ≡ s.heap
    → t.clients ≡ s.clients
    → t.channels ≡ s.channels
    → Seated s
    → Seated t
same-Seated s t heap clients channels h = record {
  seat = λ name ch n p e f.
      let m = h.seat name ch n p (subst (λ x. find name x ≡ some ch) channels e) f in
      record {
        client = m.client;
        there = subst (λ x. find p x ≡ some m.client) (sym heap) m.there;
        name = m.name;
        registered = m.registered;
      };
  listed = λ p c e.
      subst (λ x. find c.fd x ≡ some p) (sym clients)
        (h.listed p c (subst (λ x. find p x ≡ some c) heap e));
  distinct = subst Distinct (sym heap) h.distinct;
  once = λ name ch e. h.once name ch (subst (λ x. find name x ≡ some ch) channels e);
}

pub quiet : Quiet Seated
unfolding enable_poll_out_event set_registered_status set_nick_status update_client ◌>>=◌ deref
    modify
quiet = record {
  edit = λ p f edit. record {
    at = λ s h. elim (Option-cases (find p s.heap)) [
      | inl e ↦ rw e h
      | inr (c, e) ↦ rw e (
          put-Seated p c (f c) s e (edit.change.same_fd c) (edit.same_nickname c)
            (λ r. edit.same_registered c ∙ r) h)
    ];
  };
  register = λ p c s there ready h. put-Seated p c _ s there refl refl (λ r. refl) h;
  nicked = λ p c s there old h. put-Seated p c _ s there refl refl (λ r. r) h;
  mark = λ fd s h. mark_client_for_removal_cases Seated fd s h (same-Seated s _ refl refl refl h);
  poll_out = λ fd s h. same-Seated s _ refl refl refl h;
  output = λ s n w h. same-Seated s _ refl refl refl h;
}
