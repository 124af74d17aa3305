-- ===== src/Server/Effects.antt =====
-- What a statement may do to the state and which exceptions may leave it: statements that only
-- read, statements whose exceptions are of a given kind, and statements that have changed nothing
-- where they throw.
use ft_irc_refactor.Client.{Client}
use ft_irc_refactor.Base.{
  ◌↔◌, ◌≡◌, refl, ap, subst, ◌∙◌, Bool, true, false, List, [], ◌∷◌, Option, none, some, Str,
  if◌then◌else◌,
}
use ft_irc_refactor.Channel.{Channel, Ptr}
use ft_irc_refactor.Server.State.{
  ◌>>◌, require, update_channel, update_client, or_undefined, Server, Outcome, ok, throw, fault,
  Action, pure, raise, undefined, ask, get, modify, and_then, ◌>>=◌, attempt, for_each, deref,
  channel_at,
}

pub record ReadOnly {A : Type 0} (m : Action A) : Type 0 where
  pub same : (s : Server) → (m s).1 ≡ s

pub record Throws {A : Type 0} (E : Str → Type 0) (m : Action A) : Type 0 where
  pub kind : (s : Server) (e : Str) → (m s).0 ≡ throw e → E e

-- No exception.
abbrev pub Never : Str → Type 0
Never e = ⊥

pub record Atomic {A : Type 0} (m : Action A) : Type 0 where
  pub unchanged : (s : Server) (e : Str) → (m s).0 ≡ throw e → (m s).1 ≡ s

-- A statement that ends normally only where `Q` holds.
pub record Learns {A : Type 0} (Q : Type 0) (m : Action A) : Type 0 where
  pub learnt : (s : Server) (a : A) → (m s).0 ≡ ok a → Q

module _ {A : Type 0} where
  pub ReadOnly-pure : (a : A) → ReadOnly (pure a)
  unfolding pure
  ReadOnly-pure a = record { same = λ s. refl }

  pub ReadOnly-raise : (e : Str) → ReadOnly (raise {A = A} e)
  unfolding raise
  ReadOnly-raise e = record { same = λ s. refl }

  pub ReadOnly-undefined : ReadOnly (undefined {A = A})
  unfolding undefined
  ReadOnly-undefined = record { same = λ s. refl }

  pub ReadOnly-ask : (f : Server → Outcome A) → ReadOnly (ask f)
  unfolding ask
  ReadOnly-ask f = record { same = λ s. refl }

  pub ReadOnly-if :
      (b : Bool) (m n : Action A) → ReadOnly m → ReadOnly n → ReadOnly (if b then m else n)
  ReadOnly-if true m n h k = h
  ReadOnly-if false m n h k = k

thrown : {A : Type 0} {d e : Str} → ◌≡◌ {A = Outcome A} (throw d) (throw e) → d ≡ e
thrown h = cc

module _ {A : Type 0} {E : Str → Type 0} where
  pub Throws-pure : (a : A) → Throws E (pure a)
  unfolding pure
  Throws-pure a = record { kind = λ s e h. absurd (cc) }

  pub Throws-undefined : Throws E (undefined {A = A})
  unfolding undefined
  Throws-undefined = record { kind = λ s e h. absurd (cc) }

  pub Throws-raise : (e : Str) → E e → Throws E (raise {A = A} e)
  unfolding raise
  Throws-raise e x = record { kind = λ s e' h. subst E (thrown h) x }

  pub Throws-if :
      (b : Bool) (m n : Action A) → Throws E m → Throws E n → Throws E (if b then m else n)
  Throws-if true m n h k = h
  Throws-if false m n h k = k

module _ {E : Str → Type 0} where
  pub Throws-get : Throws E get
  unfolding ask
  Throws-get = record { kind = λ s e h. absurd (cc) }

  pub Throws-modify : (f : Server → Server) → Throws E (modify f)
  unfolding modify
  Throws-modify f = record { kind = λ s e h. absurd (cc) }

module _ {A B : Type 0} where
  pub ReadOnly-bind :
      (m : Action A) (f : A → Action B)
      → ReadOnly m
      → ((a : A) → ReadOnly (f a))
      → ReadOnly (m >>= f)
  unfolding ◌>>=◌
  ReadOnly-bind m f h k = record { same = λ s. ends (m s).0 (m s).1 ∙ h.same s }
    where
      ends : (o : Outcome A) (t : Server) → (and_then o f t).1 ≡ t
      ends (ok a) t = (k a).same t
      ends (throw e) t = refl
      ends fault t = refl

  pub Throws-bind :
      {E : Str → Type 0} (m : Action A) (f : A → Action B)
      → Throws E m
      → ((a : A) → Throws E (f a))
      → Throws E (m >>= f)
  unfolding ◌>>=◌
  Throws-bind {E = E} m f h k = record { kind = λ s e. ends (m s).0 (m s).1 e (h.kind s) }
    where
      ends :
          (o : Outcome A) (t : Server) (e : Str)
          → ((e : Str) → o ≡ throw e → E e)
          → (and_then o f t).0 ≡ throw e
          → E e
      ends (ok a) t e h x = (k a).kind t e x
      ends (throw d) t e h x = h e (ap throw (thrown x))
      ends fault t e h x = absurd (cc)

  pub Throws-caught :
      {E : Str → Type 0} (m : Action A) (f : Outcome A → Action B)
      → ((o : Outcome A) → Throws E (f o))
      → Throws E (attempt m f)
  unfolding attempt
  Throws-caught m f k = record { kind = λ s. (k (m s).0).kind (m s).1 }

  pub ReadOnly-option :
      (o : Option A) (m : Action B) (f : A → Action B)
      → ReadOnly m
      → ((a : A) → ReadOnly (f a))
      → ReadOnly (elim o [ none ↦ m | some a ↦ f a ])
  ReadOnly-option none m f h k = h
  ReadOnly-option (some a) m f h k = k a

  pub Throws-option :
      {E : Str → Type 0} (o : Option A) (m : Action B) (f : A → Action B)
      → Throws E m
      → ((a : A) → Throws E (f a))
      → Throws E (elim o [ none ↦ m | some a ↦ f a ])
  Throws-option none m f h k = h
  Throws-option (some a) m f h k = k a

  -- Checks that only read, and then a statement that is atomic itself.
  pub Atomic-bind :
      (m : Action A) (f : A → Action B) → ReadOnly m → ((a : A) → Atomic (f a)) → Atomic (m >>= f)
  unfolding ◌>>=◌
  Atomic-bind m f h k = record { unchanged = λ s e x. ends (m s).0 (m s).1 e x ∙ h.same s }
    where
      ends :
          (o : Outcome A) (t : Server) (e : Str)
          → (and_then o f t).0 ≡ throw e
          → (and_then o f t).1 ≡ t
      ends (ok a) t e x = (k a).unchanged t e x
      ends (throw d) t e x = refl
      ends fault t e x = refl

  -- And one that is atomic, with a statement behind it that does not throw.
  pub Atomic-then :
      (m : Action A) (f : A → Action B)
      → Atomic m
      → ((a : A) → Throws Never (f a))
      → Atomic (m >>= f)
  unfolding ◌>>=◌
  Atomic-then m f h k = record { unchanged = λ s e. ends (m s).0 (m s).1 s e (h.unchanged s) }
    where
      ends :
          (o : Outcome A) (t s : Server) (e : Str)
          → ((e : Str) → o ≡ throw e → t ≡ s)
          → (and_then o f t).0 ≡ throw e
          → (and_then o f t).1 ≡ s
      ends (ok a) t s e h x = absurd ((k a).kind t e x)
      ends (throw d) t s e h x = h d refl
      ends fault t s e h x = absurd (cc)

module _ {A : Type 0} where
  pub Atomic-ReadOnly : (m : Action A) → ReadOnly m → Atomic m
  Atomic-ReadOnly m h = record { unchanged = λ s e x. h.same s }

  pub Atomic-Never : (m : Action A) → Throws Never m → Atomic m
  Atomic-Never m h = record { unchanged = λ s e x. absurd (h.kind s e x) }

  pub Atomic-if : (b : Bool) (m n : Action A) → Atomic m → Atomic n → Atomic (if b then m else n)
  Atomic-if true m n h k = h
  Atomic-if false m n h k = k

  pub ReadOnly-for_each :
      (xs : List A) (f : A → Action (Unit {0}))
      → ((x : A) → ReadOnly (f x))
      → ReadOnly (for_each xs f)
  unfolding for_each
  ReadOnly-for_each [] f k = ReadOnly-pure tt
  ReadOnly-for_each (x ∷ xs) f k = ReadOnly-bind (f x) _ (k x) (λ _. ReadOnly-for_each xs f k)

  pub Throws-for_each :
      {E : Str → Type 0} (xs : List A) (f : A → Action (Unit {0}))
      → ((x : A) → Throws E (f x))
      → Throws E (for_each xs f)
  unfolding for_each
  Throws-for_each [] f k = Throws-pure tt
  Throws-for_each (x ∷ xs) f k = Throws-bind (f x) _ (k x) (λ _. Throws-for_each xs f k)

  pub Throws-found : {E : Str → Type 0} (o : Option A) → Throws E (or_undefined o)
  unfolding ask
  Throws-found none = record { kind = λ s e h. absurd (cc) }
  Throws-found (some a) = record { kind = λ s e h. absurd (cc) }

pub ReadOnly-deref : (p : Ptr) → ReadOnly (deref p)
unfolding deref
ReadOnly-deref p = ReadOnly-bind get _ (ReadOnly-ask ok) (λ s. ReadOnly-ask _)

pub ReadOnly-channel_at : (name : Str) → ReadOnly (channel_at name)
unfolding channel_at
ReadOnly-channel_at name = ReadOnly-bind get _ (ReadOnly-ask ok) (λ s. ReadOnly-ask _)

module _ {E : Str → Type 0} where
  pub Throws-deref : (p : Ptr) → Throws E (deref p)
  unfolding deref
  Throws-deref p = Throws-bind get _ Throws-get (λ s. Throws-found _)

  pub Throws-channel_at : (name : Str) → Throws E (channel_at name)
  unfolding channel_at
  Throws-channel_at name = Throws-bind get _ Throws-get (λ s. Throws-found _)

  pub Throws-update_client : (p : Ptr) (f : Client → Client) → Throws E (update_client p f)
  unfolding update_client
  Throws-update_client p f = Throws-bind _ _ (Throws-deref p) (λ c. Throws-modify _)

  pub Throws-update_channel :
      (name : Str) (f : Channel → Channel) → Throws E (update_channel name f)
  unfolding update_channel
  Throws-update_channel name f = Throws-bind _ _ (Throws-channel_at name) (λ c. Throws-modify _)

pub ruleset reading = (
  ReadOnly-pure, ReadOnly-raise, ReadOnly-undefined, ReadOnly-ask, ReadOnly-if, ReadOnly-bind,
  ReadOnly-deref, ReadOnly-channel_at, ReadOnly-for_each,
)

pub ruleset throwing = (
  Throws-pure, Throws-undefined, Throws-if, Throws-get, Throws-modify, Throws-bind, Throws-for_each,
  Throws-found, Throws-deref, Throws-channel_at, Throws-update_client, Throws-update_channel,
)

-- A check, and what follows it.
pub require_iff :
    {B : Type 0} (b : Bool) (text : Str) (m : Action B) (s : Server) (o : B)
    → (((require b text >> m) s).0 ≡ ok o) ↔ ((b ≡ true) × ((m s).0 ≡ ok o))
unfolding ◌>>=◌
require_iff true text m s o = (λ h. (refl, h), λ h. h.1)
require_iff false text m s o = (λ h. absurd (cc), λ h. absurd (cc))

pub require-last :
    (b : Bool) (text : Str) (s : Server) → ((require b text s).0 ≡ ok tt) ↔ (b ≡ true)
unfolding ◌>>=◌
require-last true text s = (λ h. refl, λ h. refl)
require-last false text s = (λ h. absurd (cc), λ h. absurd (cc))

module _ {A B : Type 0} {Q : Type 0} where
  -- The statement that tells it comes later.
  pub Learns-later :
      (m : Action A) (f : A → Action B) → ((a : A) → Learns Q (f a)) → Learns Q (m >>= f)
  unfolding ◌>>=◌
  Learns-later m f k = record { learnt = λ s b. ends (m s).0 (m s).1 b }
    where
      ends : (o : Outcome A) (t : Server) (b : B) → (and_then o f t).0 ≡ ok b → Q
      ends (ok a) t b e = (k a).learnt t b e
      ends (throw d) t b e = absurd (cc)
      ends fault t b e = absurd (cc)

module _ {B : Type 0} {Q : Type 0} where
  pub Learns-require :
      (test : Bool) (text : Str) (m : Action B)
      → (test ≡ true → Learns Q m)
      → Learns Q (require test text >> m)
  Learns-require test text m k = record {
    learnt = λ s b e. let (t, e') = (require_iff test text m s b).0 e in (k t).learnt s b e';
  }

  pub Learns-known : (m : Action B) → Q → Learns Q m
  Learns-known m q = record { learnt = λ s b e. q }

-- A statement ends normally only where its first part does.
pub bind-ok :
    {A B : Type 0} (m : Action A) (f : A → Action B) (s : Server) (b : B)
    → ((m >>= f) s).0 ≡ ok b
    → (a : A) × (((m s).0 ≡ ok a) × ((f a (m s).1).0 ≡ ok b))
unfolding ◌>>=◌
bind-ok {A = A} m f s b e = ends (m s).0 (m s).1 e
  where
    ends :
        (o : Outcome A) (t : Server)
        → (and_then o f t).0 ≡ ok b
        → (a : A) × ((o ≡ ok a) × ((f a t).0 ≡ ok b))
    ends (ok a) t h = (a, (refl, h))
    ends (throw d) t h = absurd (cc)
    ends fault t h = absurd (cc)
