-- ===== src/Server/Laws/Options.antt =====
-- MODE (src/Cmd/CmdMode.cpp): what the checks of the options find out.
use ft_irc_refactor.Client.{Client}
use ft_irc_refactor.Cmd.Mode.{
  plus, validation_key, validation_nick_name, check_options, validate_options, validate_option,
}
use ft_irc_refactor.Channel.{Channel, Ptr}
use ft_irc_refactor.Cmd.Context.{Cmd, demand, refuse}
use ft_irc_refactor.Base.{
  not_both, Bool-cases, is_empty, ==_iff, false, true, ℕ, ◌≡◌, refl, inl, inr, Bool, not, List, [],
  ◌∷◌, Str, Map, mem, ℕ_key, str_key, subst, ◌==◌,
}
use ft_irc_refactor.Server.State.{
  and_then, raise, Server, undefined, pure, Action, ok, throw, fault, Outcome, ◌>>=◌,
}

-- What a statement that returns a value tells of it.
pub record Learns {A : Type 0} (Q : A → Type 0) (m : Action A) : Type 0 where
  pub at : (s : Server) (a : A) → (m s).0 ≡ ok a → Q a

module _ {A : Type 0} {Q : A → Type 0} where
  Learns-pure : (a : A) → Q a → Learns Q (pure a)
  unfolding pure
  Learns-pure a q = record { at = λ s b e. subst Q (same_ok e) q }
    where
      same_ok : {a b : A} → ◌≡◌ {A = Outcome A} (ok a) (ok b) → a ≡ b
      same_ok e = cc

  Learns-refuse : (e : Str) → Learns Q (refuse {A = A} e)
  unfolding raise
  Learns-refuse e = record { at = λ s a h. absurd (cc) }

  Learns-undefined : Learns Q (undefined {A = A})
  unfolding undefined
  Learns-undefined = record { at = λ s a h. absurd (cc) }

Learns-demand : (b : Bool) (e : Str) → Learns (λ _. b ≡ true) (demand b e)
Learns-demand true e = Learns-pure tt refl
Learns-demand false e = Learns-refuse e

module _ {A B : Type 0} {Q : A → Type 0} {R : B → Type 0} where
  Learns-bind :
      (m : Action A) (k : A → Action B)
      → Learns Q m
      → ((a : A) → Q a → Learns R (k a))
      → Learns R (m >>= k)
  unfolding ◌>>=◌
  Learns-bind m k first next = record {
    at = λ s b e. follow (m s).0 (m s).1 b (λ a. first.at s a) e;
  }
    where
      follow :
          (o : Outcome A) (t : Server) (b : B)
          → ((a : A) → o ≡ ok a → Q a)
          → (and_then o k t).0 ≡ ok b
          → R b
      follow (ok a) t b learned e = (next a (learned a refl)).at t b e
      follow (throw x) t b learned e = absurd (cc)
      follow fault t b learned e = absurd (cc)

-- A parameter behind '+' that the checks have passed: for 'o' a participant, for 'k' not empty.
abbrev pub Valid : Map Str Ptr → ℕ → Str → Type 0
Valid part o p =
    ((o == b'o') ≡ true → mem p part ≡ true) × ((o == b'k') ≡ true → is_empty p ≡ false)

unfoldable pub Valids : Map Str Ptr → List ℕ → List Str → Type 0
Valids part [] ps = Unit
Valids part (o ∷ os) [] = Unit
Valids part (o ∷ os) (p ∷ ps) = Valid part o p × Valids part os ps

not_key : (o : ℕ) → (o == b'o') ≡ true → (o == b'k') ≡ true → ⊥
not_key o e f = wrong (subst (λ x. (x == b'k') ≡ true) ((==_iff o b'o').0 e) f)
  where
    wrong : false ≡ true → ⊥
    wrong h = cc

some_byte : (key : Str) → not (is_empty key) ≡ true → is_empty key ≡ false
some_byte [] e = absurd (cc)
some_byte (b ∷ bs) e = refl

option-Valid :
    (me : Client) (o : ℕ) (p : Str) (ch : Channel)
    → Learns (λ _. Valid ch.participant o p) (validate_option me plus o p ch)
unfolding validate_option validation_nick_name validation_key
option-Valid me o p ch = elim (Bool-cases (o == b'o')) [
  | inl e ↦ rw e (told (λ found. (λ _. found, λ f. absurd (not_key o e f))) (Learns-demand _ _))
  | inr e ↦ elim (Bool-cases (o == b'k')) [
    | inl f ↦
        rw (e, f)
          (Learns-bind _ _ (Learns-demand _ _) λ _ unset.
            Learns-bind _ _ (Learns-demand _ _) λ _ filled.
              told (λ short. (λ g. absurd (cc), λ _. some_byte p filled)) (Learns-demand _ _))
    | inr f ↦ record { at = λ s a h. (λ g. absurd (not_both g e), λ g. absurd (not_both g f)) }
  ]
]
  where
    told : {P Q : Type 0} {m : Action (Unit {0})} → (P → Q) → Learns (λ _. P) m → Learns (λ _. Q) m
    told f l = record { at = λ s a h. f (l.at s a h) }

options-Valids :
    (me : Client) (os : List ℕ) (ps : List Str) (ch : Channel)
    → Learns (λ _. Valids ch.participant os ps) (validate_options me plus os ps ch)
unfolding validate_options Valids
options-Valids me [] ps ch = Learns-pure tt tt
options-Valids me (o ∷ os) [] ch = Learns-undefined
options-Valids me (o ∷ os) (p ∷ ps) ch =
    Learns-bind _ _ (option-Valid me o p ch)
      λ _ valid. record { at = λ s a e. (valid, (options-Valids me os ps ch).at s a e) }

pub checked-Valids :
    (c : Cmd) (me : Client) (options : Str) (ps : List Str) (ch : Channel)
    → Learns
        (λ o. Valids ch.participant o.use_param_mode ps)
        (check_options c me plus options ps ch)
unfolding check_options
checked-Valids c me options ps ch =
    Learns-bind {Q = λ _. Unit {0}} _ _ (record { at = λ s a e. tt })
      λ o _. Learns-bind _ _ (Learns-demand _ _) λ _ few.
        Learns-bind _ _ (Learns-demand _ _) λ _ paired.
          Learns-bind _ _ (options-Valids me o.use_param_mode ps ch) λ _ valid. Learns-pure o valid
