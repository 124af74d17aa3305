-- ===== src/Server/Keeps.antt =====
-- Invariants of statements: a rule for each way to build an action from smaller ones. The
-- invariant is asked for where an exception or undefined behaviour ends the statement, too.
use ft_irc_refactor.Client.{Client}
use ft_irc_refactor.Base.{
  inr, inl, Option-cases, find, Option, none, some, Bool, true, false, List, [], ◌∷◌, Str, ◌≡◌,
  refl, if◌then◌else◌, ℕ_key, str_key,
}
use ft_irc_refactor.Channel.{Ptr}
use ft_irc_refactor.Server.State.{
  found, or_undefined, Server, Outcome, ok, throw, fault, Action, pure, raise, undefined, ask,
  and_then, ◌>>=◌, attempt, get, modify, for_each, deref, channel_at,
}

pub record Keeps {A : Type 0} (P : Server → Type 0) (m : Action A) : Type 0 where
  pub at : (before : Server) → P before → P (m before).1

-- The pointer or the iterator that was not null, or end.
pub found-some : {A : Type 0} (o : Option A) (a : A) → found o ≡ ok a → o ≡ some a
found-some none a e = absurd (cc)
found-some (some b) a e = cc

module _ {A : Type 0} {P : Server → Type 0} where
  pub Keeps-pure : (value : A) → Keeps P (pure value)
  unfolding pure
  Keeps-pure value = record { at = λ before holds. holds }

  pub Keeps-raise : (text : Str) → Keeps P (raise {A = A} text)
  unfolding raise
  Keeps-raise text = record { at = λ before holds. holds }

  pub Keeps-undefined : Keeps P (undefined {A = A})
  unfolding undefined
  Keeps-undefined = record { at = λ s h. h }

  pub Keeps-ask : (f : Server → Outcome A) → Keeps P (ask f)
  unfolding ask
  Keeps-ask f = record { at = λ s h. h }

  -- The branch that is taken may use the outcome of the test.
  pub Keeps-if :
      (test : Bool) (left right : Action A)
      → (test ≡ true → Keeps P left)
      → (test ≡ false → Keeps P right)
      → Keeps P (if test then left else right)
  Keeps-if true left right taken other = taken refl
  Keeps-if false left right other taken = taken refl

module _ {A B : Type 0} where
  -- At one state: what follows may be run with what is known of that state.
  pub and_then-at :
      (Q : Server → Type 0) (o : Outcome A) (f : A → Action B) (s : Server)
      → Q s
      → ((a : A) → Q (f a s).1)
      → Q (and_then o f s).1
  and_then-at Q (ok a) f s h next = next a
  and_then-at Q (throw e) f s h next = h
  and_then-at Q fault f s h next = h

module _ {A B : Type 0} {P : Server → Type 0} where
  Keeps-and_then :
      (o : Outcome A) (f : A → Action B)
      → ((a : A) → o ≡ ok a → Keeps P (f a))
      → Keeps P (and_then o f)
  Keeps-and_then (ok a) f kf = kf a refl
  Keeps-and_then (throw e) f kf = record { at = λ s h. h }
  Keeps-and_then fault f kf = record { at = λ s h. h }

  -- One statement, and what follows it.
  pub Keeps-bind :
      (start : Action A) (next : A → Action B)
      → Keeps P start
      → ((result : A) → Keeps P (next result))
      → Keeps P (start >>= next)
  unfolding ◌>>=◌
  Keeps-bind start next here there = record {
    at = λ s h.
        (Keeps-and_then (start s).0 next (λ result _. there result)).at (start s).1 (here.at s h);
  }

  -- What is read of the state is known to come from a state with the invariant.
  pub Keeps-ask-bind :
      (g : Server → Outcome A) (f : A → Action B)
      → ((s : Server) (a : A) → P s → g s ≡ ok a → Keeps P (f a))
      → Keeps P (ask g >>= f)
  unfolding ◌>>=◌
  Keeps-ask-bind g f kf = record { at = λ s h. (Keeps-and_then (g s) f (λ a e. kf s a h e)).at s h }

  pub Keeps-attempt :
      (m : Action A) (f : Outcome A → Action B)
      → Keeps P m
      → ((o : Outcome A) → Keeps P (f o))
      → Keeps P (attempt m f)
  unfolding attempt
  Keeps-attempt m f km kf = record { at = λ s h. let (o, t) = m s in (kf o).at t (km.at s h) }

  -- What follows a check may use what the check has found, as an end of it that is normal tells.
  pub Keeps-check :
      {Q : Type 0} (check : Action A) (next : A → Action B)
      → Keeps P check
      → ((s : Server) (a : A) → (check s).0 ≡ ok a → Q)
      → ((a : A) → Q → Keeps P (next a))
      → Keeps P (check >>= next)
  unfolding ◌>>=◌
  Keeps-check check next here found there = record {
    at = λ s h.
        (Keeps-and_then (check s).0 next (λ a e. there a (found s a e))).at (check s).1
          (here.at s h);
  }

module _ {A B : Type 0} {P : Server → Type 0} where
  pub Keeps-option :
      (o : Option A) (m : Action B) (f : A → Action B)
      → Keeps P m
      → ((a : A) → Keeps P (f a))
      → Keeps P (elim o [ none ↦ m | some a ↦ f a ])
  Keeps-option none m f km kf = km
  Keeps-option (some a) m f km kf = kf a

module _ {P : Server → Type 0} where
  pub Keeps-modify : (f : Server → Server) → ((s : Server) → P s → P (f s)) → Keeps P (modify f)
  unfolding modify
  Keeps-modify f k = record { at = k }

  pub Keeps-for_each :
      {A : Type 0} (xs : List A) (f : A → Action (Unit {0}))
      → ((x : A) → Keeps P (f x))
      → Keeps P (for_each xs f)
  unfolding for_each
  Keeps-for_each [] f k = Keeps-pure tt
  Keeps-for_each (x ∷ xs) f k = Keeps-bind (f x) _ (k x) (λ _. Keeps-for_each xs f k)

  pub Keeps-deref : (p : Ptr) → Keeps P (deref p)
  unfolding deref
  Keeps-deref p = Keeps-bind get _ (Keeps-ask ok) (λ s. Keeps-ask _)

  pub Keeps-channel_at : (name : Str) → Keeps P (channel_at name)
  unfolding channel_at
  Keeps-channel_at name = Keeps-bind get _ (Keeps-ask ok) (λ s. Keeps-ask _)

module _ {B : Type 0} {P : Server → Type 0} where
  pub Keeps-deref-bind :
      (p : Ptr) (f : Client → Action B)
      → ((s : Server) (c : Client) → P s → find p s.heap ≡ some c → Keeps P (f c))
      → Keeps P (deref p >>= f)
  unfolding deref ◌>>=◌
  Keeps-deref-bind p f kf = record {
    at = λ s h. elim (Option-cases (find p s.heap)) [
      | inl e ↦ rw e h
      | inr (c, e) ↦ rw e ((kf s c h e).at s h)
    ];
  }

  -- Through a pointer that may be null.
  pub Keeps-self-bind :
      (o : Option Ptr) (f : Client → Action B)
      → ((p : Ptr) (s : Server) (c : Client)
          → o ≡ some p
          → P s
          → find p s.heap ≡ some c
          → Keeps P (f c))
      → Keeps P ((or_undefined o >>= deref) >>= f)
  unfolding deref ◌>>=◌
  Keeps-self-bind none f kf = record { at = λ s h. h }
  Keeps-self-bind (some p) f kf = record {
    at = λ s h. (Keeps-deref-bind p f (λ t c k e. kf p t c refl k e)).at s h;
  }

pub ruleset keeps_rules = (
  Keeps-pure, Keeps-raise, Keeps-undefined, Keeps-ask, Keeps-if, Keeps-bind, Keeps-attempt,
  Keeps-for_each, Keeps-deref, Keeps-channel_at,
)
