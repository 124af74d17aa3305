-- ===== src/Cmd/Admission.antt =====
-- Who may enter a channel (the checks of src/Cmd/CmdJoin.cpp) and which password is accepted
-- (src/Cmd/CmdPass.cpp), as the protocol states them.
use ft_irc_refactor.Base.{
  same_value, codes, find, ℕ_key, ◌∙◌, ap, sym, ℕ, ◌<◌, ◌≡◌, ◌≢◌, ◌↔◌, refl, inl, inr, Bool, true,
  false, not, ◌||◌, ◌&&◌, Option, none, some, Str, str_eq, str_eq_iff, is_empty, [], ◌∷◌, leb,
  arith, Bool-cases,
}
use ft_irc_refactor.Cmd.Register.{cmd_pass}
use ft_irc_refactor.Cmd.Context.{demand, Cmd}
use ft_irc_refactor.Client.{set_pass_status, Client}
use ft_irc_refactor.Reply
use ft_irc_refactor.Channel.{Ptr, Channel, has_mode, is_invited, invite_mode, key_mode, limit_mode}
use ft_irc_refactor.Server.State.{
  get, ◌>>◌, modify, deref, update_client, Action, pure, or_undefined, Server, ok, ◌>>=◌, require,
}
use ft_irc_refactor.Cmd.Join.{check_join, check_limit, size32}
use ft_irc_refactor.Server.Effects.{require_iff, require-last}

-- The rules of the modes +i, +k and +l.
pub record Admits (nick key : Str) (ch : Channel) : Type 0 where
  pub invited : has_mode invite_mode ch ≡ true → is_invited nick ch.invited ≡ true
  pub keyed : has_mode key_mode ch ≡ true → (key ≢ []) × (key ≡ ch.key)
  pub room :
      has_mode limit_mode ch ≡ true
      → (limit : ℕ) × ((ch.limit ≡ some limit) × (size32 ch.participant < limit))

invite_test : (i n : Bool) → ((not i || n) ≡ true) ↔ (i ≡ true → n ≡ true)
invite_test true n = (λ h _. h, λ h. h refl)
invite_test false n = (λ h e. absurd (cc), λ h. refl)

not-not : (b : Bool) → not (not b) ≡ true → b ≡ true
not-not true h = refl
not-not false h = absurd (cc)

key_test :
    (k : Bool) (key own : Str)
    → (not (k && (is_empty key || not (str_eq key own))) ≡ true)
      ↔ (k ≡ true → (key ≢ []) × (key ≡ own))
key_test true [] own = (λ h. absurd (cc), λ h. absurd ((h refl).0 refl))
key_test true (c ∷ key) own = (
  λ h _. ((λ x. absurd (cc)), (str_eq_iff (c ∷ key) own).0 (not-not _ h)),
  λ h. rw ((str_eq_iff (c ∷ key) own).1 (h refl).1) refl,
)
key_test false key own = (λ h e. absurd (cc), λ h. refl)

below : (limit n : ℕ) → (not (leb limit n) ≡ true) ↔ (n < limit)
below limit n = ground arith

bounded :
    (o : Option ℕ) (n : ℕ) (text : Str) (s : Server)
    → (((or_undefined o >>= λ limit. require (not (leb limit n)) text) s).0 ≡ ok tt)
      ↔ ((limit : ℕ) × ((o ≡ some limit) × (n < limit)))
unfolding ◌>>=◌
bounded none n text s = (λ h. absurd (cc), λ h. absurd (cc))
bounded (some m) n text s = (
  λ h. (m, (refl, (below m n).0 ((require-last _ text s).0 h))),
  λ (limit, (e, less)).
      (require-last _ text s).1 ((below m n).1 (omega (arith, same_value e, less))),
)

limit_test :
    (nick name : Str) (ch : Channel) (s : Server)
    → ((check_limit nick name ch s).0 ≡ ok tt) ↔ (
        has_mode limit_mode ch ≡ true
        → (limit : ℕ) × ((ch.limit ≡ some limit) × (size32 ch.participant < limit)))
unfolding check_limit pure
limit_test nick name ch s = elim (Bool-cases (has_mode limit_mode ch)) [
  | inl e ↦ (λ h _. (bounded _ _ _ s).0 (rw e at h), λ h. rw e ((bounded _ _ _ s).1 (h e)))
  | inr e ↦ (λ h e'. absurd (cc), λ h. rw e refl)
]

-- The checks of JOIN pass exactly for those that the rules of +i, +k and +l admit: the client is
-- invited, or the channel is not +i; the key is the channel's, and not empty, or it is not +k; a
-- limit has been set that is above the number of participants, or it is not +l.
pub check_join_iff :
    (nick name key : Str) (ch : Channel) (s : Server)
    → ((check_join nick name key ch s).0 ≡ ok tt) ↔ Admits nick key ch
unfolding check_join
check_join_iff nick name key ch s = (forth, back)
  where
    forth : (check_join nick name key ch s).0 ≡ ok tt → Admits nick key ch
    forth h =
        let (i, h1) = (require_iff _ _ _ s tt).0 h in
        let (k, h2) = (require_iff _ _ _ s tt).0 h1 in
        record {
          invited = (invite_test _ _).0 i;
          keyed = (key_test _ key ch.key).0 k;
          room = (limit_test nick name ch s).0 h2;
        }

    back : Admits nick key ch → (check_join nick name key ch s).0 ≡ ok tt
    back a = (require_iff _ _ _ s tt).1 (
      (invite_test _ _).1 a.invited,
      (require_iff _ _ _ s tt).1
          ((key_test _ key ch.key).1 a.keyed, (limit_test nick name ch s).1 a.room),
    )

-- PASS, from the client that the message is found to come from.
abbrev pass_rest : (params : Str) → Client → Ptr → Action (Unit {0})
pass_rest params me p = do
  demand (not (is_empty params)) (Reply.err_needmoreparams me.nickname (codes "PASS"))
  demand (not me.pass) (Reply.err_alreadyregistred me.nickname)
  t ← get
  demand (str_eq params t.password) (Reply.err_passwdmismatch me.nickname)
  update_client p (set_pass_status true)

some_bytes : (s : Str) → (not (is_empty s) ≡ true) ↔ (s ≢ [])
some_bytes [] = (λ h. absurd (cc), λ h. absurd (h refl))
some_bytes (c ∷ cs) = (λ h e. absurd (cc), λ h. refl)

unset : (b : Bool) → (not b ≡ true) ↔ (b ≡ false)
unset true = (λ h. absurd (cc), λ h. absurd (cc))
unset false = (λ h. refl, λ h. refl)

get_step : {B : Type 0} (f : Server → Action B) (s : Server) → (get >>= f) s ≡ f s s
unfolding ◌>>=◌
get_step f s = refl

module _ (c : Cmd) (p : Ptr) (me : Client) (s : Server) (own : c.client ≡ some p)
    (there : find p s.heap ≡ some me) where
  from_self : cmd_pass c s ≡ pass_rest c.cmd_params me p s
  unfolding cmd_pass ◌>>=◌ deref
  from_self = rw (own, there) refl

  sets_pass : (update_client p (set_pass_status true) s).0 ≡ ok tt
  unfolding update_client ◌>>=◌ deref modify
  sets_pass = rw there refl

  -- PASS succeeds exactly for the server's password, from a client that has not given it before.
  pub cmd_pass_iff :
      ((cmd_pass c s).0 ≡ ok tt)
      ↔ ((c.cmd_params ≢ []) × ((me.pass ≡ false) × (c.cmd_params ≡ s.password)))
  cmd_pass_iff = (forth, back)
    where
      forth :
          (cmd_pass c s).0 ≡ ok tt
          → (c.cmd_params ≢ []) × ((me.pass ≡ false) × (c.cmd_params ≡ s.password))
      forth h =
          let (a, h1) = (require_iff _ _ _ s tt).0 (sym (ap (λ x. x.0) from_self) ∙ h) in
          let (b, h2) = (require_iff _ _ _ s tt).0 h1 in
          let (d, h3) = (require_iff _ _ _ s tt).0 (sym (ap (λ x. x.0) (get_step _ s)) ∙ h2) in
          ((some_bytes _).0 a, ((unset _).0 b, (str_eq_iff _ _).0 d))

      back :
          (c.cmd_params ≢ []) × ((me.pass ≡ false) × (c.cmd_params ≡ s.password))
          → (cmd_pass c s).0 ≡ ok tt
      back (a, (b, d)) =
          ap (λ x. x.0) from_self
          ∙ (require_iff _ _ _ s tt).1 (
            (some_bytes _).1 a,
            (require_iff _ _ _ s tt).1 (
              (unset _).1 b,
              ap (λ x. x.0) (get_step _ s)
                  ∙ (require_iff _ _ _ s tt).1 ((str_eq_iff _ _).1 d, sets_pass),
            ),
          )
