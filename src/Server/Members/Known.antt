-- ===== src/Server/Members/Known.antt =====
-- The map from nicknames to clients: addClientByNickname and updateNickNameClientMap (src/Server.cpp),
-- as cmdNick and removeClientFromServer use them.
use ft_irc_refactor.Server.Members.{Seated}
use ft_irc_refactor.Server.Teardown.{forget_client, add_client}
use ft_irc_refactor.Server.Members.Leaving.{object_left}
use ft_irc_refactor.Base.{
  unlike, not_both, ℕ, find-erase, Option-cases, true, ◌≡◌, ◌≢◌, ◌∙◌, refl, inl, inr, Bool, ◌&&◌,
  [], some, Str, find, ℕ_key, str_key, ap, sym, subst, arith,
}
use ft_irc_refactor.Server.State.{Server, ◌>>=◌, update_client, deref, modify, put}
use ft_irc_refactor.Cmd.Frame.{Quiet}
use ft_irc_refactor.Client.{new_client, Client, set_nick_status, set_registered_status}
use ft_irc_refactor.Channel.{Ptr}
use ft_irc_refactor.Server.Net.{mark_client_for_removal_cases, enable_poll_out_event}
use ft_irc_refactor.Server.Distinct.{replaced}

-- A registered client has given a nickname; and each that has is found under it.
pub record Known (s : Server) : Type 0 where
  pub given : (p : Ptr) (c : Client) → find p s.heap ≡ some c → c.registered ≡ true → c.nick ≡ true
  pub known :
      (p : Ptr) (c : Client)
      → find p s.heap ≡ some c
      → c.nick ≡ true
      → (c.nickname ≢ []) × (find c.nickname s.nick_name_client_map ≡ some p)

-- An object that has changed, with its nickname.
pub put-Known :
    (p : Ptr) (c d : Client) (s : Server)
    → find p s.heap ≡ some c
    → d.nickname ≡ c.nickname
    → (d.nick ≡ true → c.nick ≡ true)
    → (d.registered ≡ true → d.nick ≡ true)
    → Known s
    → Known (put p d s)
put-Known p c d s there same nicked registered h = record {
  given = λ q e found r. elim (replaced p q d e s.heap found) [
    | inl (_, is) ↦ subst (λ x. x.nick ≡ true) is (registered (ap (λ x. x.registered) is ∙ r))
    | inr (_, old) ↦ h.given q e old r
  ];
  known = λ q e found n. elim (replaced p q d e s.heap found) [
    | inl (pq, is) ↦
        let (some_byte, held) = h.known p c there (nicked (ap (λ x. x.nick) is ∙ n)) in
        let name = sym same ∙ ap (λ x. x.nickname) is in
        (
          λ z. some_byte (name ∙ z),
          subst (λ x. find x s.nick_name_client_map ≡ some q) name
              (subst (λ x. find c.nickname s.nick_name_client_map ≡ some x) pq held),
        )
    | inr (_, old) ↦ h.known q e old n
  ];
}

-- A change elsewhere.
pub same-Known :
    (s t : Server)
    → t.heap ≡ s.heap
    → t.nick_name_client_map ≡ s.nick_name_client_map
    → Known s
    → Known t
same-Known s t heap names h = record {
  given = λ p c e r. h.given p c (subst (λ x. find p x ≡ some c) heap e) r;
  known = λ p c e n.
      let (some_byte, held) = h.known p c (subst (λ x. find p x ≡ some c) heap e) n in
      (some_byte, subst (λ x. find c.nickname x ≡ some p) (sym names) held);
}

all_three : (a b c : Bool) → (a && b && c) ≡ true → b ≡ true
all_three a b c e = ground arith

pub known_quiet : Quiet Known
unfolding enable_poll_out_event set_registered_status set_nick_status update_client ◌>>=◌ deref
    modify
known_quiet = record {
  edit = λ p f edit. record {
    at = λ s h. elim (Option-cases (find p s.heap)) [
      | inl e ↦ rw e h
      | inr (c, e) ↦ rw e (
          put-Known p c (f c) s e (edit.same_nickname c) (λ n. sym (edit.same_nick c) ∙ n)
            (λ r. edit.same_nick c ∙ h.given p c e (sym (edit.same_registered c) ∙ r)) h)
    ];
  };
  register = λ p c s there ready h.
      let nicked = all_three c.pass c.nick c.user ready in
      put-Known p c _ s there refl (λ n. n) (λ r. nicked) h;
  nicked =
      λ p c s there old h. put-Known p c _ s there refl (λ n. h.given p c there old) (λ r. refl) h;
  mark = λ fd s h. mark_client_for_removal_cases Known fd s h (same-Known s _ refl refl h);
  poll_out = λ fd s h. same-Known s _ refl refl h;
  output = λ s n w h. same-Known s _ refl refl h;
}

-- A client goes.
pub forget_client-Known :
    (p : Ptr) (c : Client) (s : Server)
    → find p s.heap ≡ some c
    → Seated s
    → Known s
    → Known (forget_client p c s)
unfolding forget_client
forget_client-Known p c s there seated h = record {
  given = λ q e found r. h.given q e (object_left p q e s.heap found).1 r;
  known = λ q e found n.
      let (differ, old) = object_left p q e s.heap found in
      let (some_byte, held) = h.known q e old n in
      (
        some_byte,
        rw
            (
              find-erase c.nickname e.nickname s.nick_name_client_map,
              unlike c.nickname e.nickname
                  (λ same. differ (sym (seated.distinct q p e c old there (sym same) some_byte))),
            )
            held,
      );
}

-- And one comes.
pub add_client-Known : (fd : ℕ) (host : Str) (s : Server) → Known s → Known (add_client fd host s)
unfolding add_client new_client
add_client-Known fd host s h = record {
  given = λ q e found r. elim (replaced s.next_ptr q (new_client fd host s.now) e s.heap found) [
    | inl (_, is) ↦ absurd (not_both (ap (λ x. x.registered) is ∙ r) refl)
    | inr (_, old) ↦ h.given q e old r
  ];
  known = λ q e found n. elim (replaced s.next_ptr q (new_client fd host s.now) e s.heap found) [
    | inl (_, is) ↦ absurd (not_both (ap (λ x. x.nick) is ∙ n) refl)
    | inr (_, old) ↦ h.known q e old n
  ];
}
