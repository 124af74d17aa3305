-- ===== src/Cmd/Proper.antt =====
-- What the commands (src/Cmd/) see to for every client object: its registration state and its
-- nickname.
use ft_irc_refactor.Base.{
  find_char, Option-cases, is_alnum, take, all, true, zero, suc, ℕ, ◌≡◌, ◌≤◌, ◌∙◌, refl, inl, inr,
  Bool, ◌&&◌, [], ◌∷◌, Str, ℕ_key, str_key, ap, sym, subst, arith, length,
}
use ft_irc_refactor.Cmd.Register.{nick_max_len}
use ft_irc_refactor.Client.{
  Client, Register, new_client, set_nickname, set_pass_status, set_nick_status, set_user_status,
  set_registered_status,
}

-- Registered clients have given PASS, NICK and USER; a nickname is short, and of letters and
-- digits only.
pub record Proper (c : Client) : Type 0 where
  pub pass : c.registered ≡ true → c.pass ≡ true
  pub nick : c.registered ≡ true → c.nick ≡ true
  pub user : c.registered ≡ true → c.user ≡ true
  pub short : length c.nickname ≤ nick_max_len
  pub clean : all is_alnum c.nickname ≡ true

-- What a method leaves alone.
pub like :
    (c d : Client)
    → d.register_status ≡ c.register_status
    → d.nickname ≡ c.nickname
    → Proper c
    → Proper d
like c d e n h = record {
  pass = λ r. ap Register.pass e ∙ h.pass (ap Register.registered (sym e) ∙ r);
  nick = λ r. ap Register.nick e ∙ h.nick (ap Register.registered (sym e) ∙ r);
  user = λ r. ap Register.user e ∙ h.user (ap Register.registered (sym e) ∙ r);
  short = subst (λ t. length t ≤ nick_max_len) (sym n) h.short;
  clean = ap (all is_alnum) n ∙ h.clean;
}

pub new_client-Proper : (fd : ℕ) (host : Str) (now : ℕ) → Proper (new_client fd host now)
unfolding new_client
new_client-Proper fd host now = record {
  pass = λ r. absurd (cc);
  nick = λ r. absurd (cc);
  user = λ r. absurd (cc);
  short = omega arith;
  clean = refl;
}

all-take : (p : ℕ → Bool) (n : ℕ) (t : Str) → all p t ≡ true → all p (take n t) ≡ true
all-take p zero t h = refl
all-take p (suc n) [] h = refl
all-take p (suc n) (b ∷ t) h = ground (arith, all-take p n t)

shorter-take : (n : ℕ) (t : Str) → length (take n t) ≤ length t
shorter-take zero t = omega arith
shorter-take (suc n) [] = omega arith
shorter-take (suc n) (b ∷ t) = omega (arith, shorter-take n t)

-- The nickname that checkNick accepts, or a part of it.
pub set_nickname-Proper :
    (t : Str) (c : Client)
    → length t ≤ nick_max_len
    → all is_alnum t ≡ true
    → Proper c
    → Proper (set_nickname t c)
unfolding set_nickname
set_nickname-Proper t c less good h = elim (Option-cases (find_char 32 t)) [
  | inl e ↦
      rw e (record { pass = h.pass; nick = h.nick; user = h.user; short = less; clean = good })
  | inr (n, e) ↦ rw e (record {
    pass = h.pass;
    nick = h.nick;
    user = h.user;
    short = omega (arith, shorter-take n t, less);
    clean = all-take is_alnum n t good;
  })
]

pub set_pass_status-Proper : (c : Client) → Proper c → Proper (set_pass_status true c)
unfolding set_pass_status
set_pass_status-Proper c h = record {
  pass = λ r. refl;
  nick = h.nick;
  user = h.user;
  short = h.short;
  clean = h.clean;
}

pub set_nick_status-Proper : (c : Client) → Proper c → Proper (set_nick_status true c)
unfolding set_nick_status
set_nick_status-Proper c h = record {
  pass = h.pass;
  nick = λ r. refl;
  user = h.user;
  short = h.short;
  clean = h.clean;
}

pub set_user_status-Proper : (c : Client) → Proper c → Proper (set_user_status true c)
unfolding set_user_status
set_user_status-Proper c h = record {
  pass = h.pass;
  nick = h.nick;
  user = λ r. refl;
  short = h.short;
  clean = h.clean;
}

three : (a b c : Bool) → (a && b && c) ≡ true → (a ≡ true) × (b ≡ true) × (c ≡ true)
three a b c h = ground arith

-- The last step of cmdUser, behind its test.
pub set_registered_status-Proper :
    (c : Client)
    → (c.pass && c.nick && c.user) ≡ true
    → Proper c
    → Proper (set_registered_status true c)
unfolding set_registered_status
set_registered_status-Proper c e h =
    let (p, n, u) = three c.pass c.nick c.user e in
    record { pass = λ r. p; nick = λ r. n; user = λ r. u; short = h.short; clean = h.clean }
