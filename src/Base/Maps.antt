-- ===== src/Base/Maps.antt =====
-- std::map and std::set: association lists kept in the order of their keys.
use ft_irc_refactor.Base.Tests.{
  not_found, Option-cases, same_value, ltb, ◌==◌, ==_iff, if◌then◌else◌, is_some, Bool-cases,
}
use mathlib.Core.Path.{sym, ◌≡◌, refl}
use mathlib.Core.Logic.{◌↔◌, ◌⊎◌, inl, inr}
use mathlib.Core.Bool.{Bool, true, false, ◌||◌}
use mathlib.Core.List.{List, [], ◌∷◌}
use mathlib.Core.Option.{Option, none, some}
use Prim.Native.Nat.{ℕ}
use native.Mathlib.Omega.{arith}
use ft_irc_refactor.Base.Text.{Str, str_eq, str_lt, str_eq_iff}

-- A key type: its equality and its order.
pub record Key {ℓ} (K : Type ℓ) : Type ℓ where
  pub eqb : K → K → Bool
  pub less : K → K → Bool
  pub eqb_iff : (a b : K) → (eqb a b ≡ true) ↔ (a ≡ b)

instance abbrev pub ℕ_key : Key ℕ
ℕ_key = record { eqb = ◌==◌; less = ltb; eqb_iff = ==_iff }

instance abbrev pub str_key : Key Str
str_key = record { eqb = str_eq; less = str_lt; eqb_iff = str_eq_iff }

abbrev pub Map {ℓ κ} : Type ℓ → Type κ → Type (ℓ ⊔ κ)
Map K V = List (K × V)

kept {κ} : {V : Type κ} (o : Option V) (v : V) → is_some (if is_some o then o else some v) ≡ true
kept none v = refl
kept (some w) v = refl

module _ {ℓ κ} {K : Type ℓ} {V : Type κ} ⦃key : Key K⦄ where
  unfoldable pub find : K → Map K V → Option V
  find k [] = none
  find k ((j, v) ∷ m) = if key.eqb j k then some v else find k m

  -- `m[k] = v`
  unfoldable pub assign : K → V → Map K V → Map K V
  assign k v [] = (k, v) ∷ []
  assign k v ((j, w) ∷ m) =
      let rest = assign k v m in
      if key.eqb j k
      then (k, v) ∷ m
      else (if key.less k j then (k, v) ∷ (j, w) ∷ m else (j, w) ∷ rest)

  unfoldable pub erase : K → Map K V → Map K V
  erase k [] = []
  erase k ((j, w) ∷ m) = let rest = erase k m in if key.eqb j k then rest else (j, w) ∷ rest

  abbrev pub mem : K → Map K V → Bool
  mem k m = is_some (find k m)

  -- `m.insert({k, v})`, which keeps an entry that is there.
  unfoldable pub insert : K → V → Map K V → Map K V
  insert k v m = if mem k m then m else assign k v m

  pub find-assign :
      (k j : K) (v : V) (m : Map K V)
      → find j (assign k v m) ≡ (if key.eqb k j then some v else find j m)
  unfolding find assign
  find-assign k j v [] = refl
  find-assign k j v ((i, w) ∷ m) =
      ground (arith, key.eqb_iff i k, key.eqb_iff i j, key.eqb_iff k j, find-assign k j v m)

  pub find-erase :
      (k j : K) (m : Map K V) → find j (erase k m) ≡ (if key.eqb k j then none else find j m)
  unfolding find erase
  find-erase k j [] = ground arith
  find-erase k j ((i, w) ∷ m) =
      ground (arith, key.eqb_iff i k, key.eqb_iff i j, key.eqb_iff k j, find-erase k j m)

  pub find-insert :
      (k j : K) (v : V) (m : Map K V)
      → find j (insert k v m)
        ≡ (if key.eqb k j then (if mem k m then find k m else some v) else find j m)
  unfolding insert
  find-insert k j v m = ground (arith, key.eqb_iff k j, find-assign k j v m)

  pub find-assign_same : (k : K) (v : V) (m : Map K V) → find k (assign k v m) ≡ some v
  find-assign_same k v m = rw (find-assign k k v m) (rw ((key.eqb_iff k k).1 refl) refl)

  pub mem-insert : (k j : K) (v : V) (m : Map K V) → mem j (insert k v m) ≡ (key.eqb k j || mem j m)
  mem-insert k j v m = elim (Bool-cases (key.eqb k j)) [
    | inl e ↦ rw (find-insert k j v m, e) (kept (find k m) v)
    | inr e ↦ rw (find-insert k j v m, e) refl
  ]

  pub mem-erase :
      (k j : K) (m : Map K V) → mem j (erase k m) ≡ (if key.eqb k j then false else mem j m)
  mem-erase k j m = elim (Bool-cases (key.eqb k j)) [
    | inl e ↦ rw (find-erase k j m, e) refl
    | inr e ↦ rw (find-erase k j m, e) refl
  ]

  -- What is found behind an assignment is its value, or was there.
  pub find-assign_cases :
      (k j : K) (v w : V) (m : Map K V)
      → find j (assign k v m) ≡ some w
      → ((k ≡ j) × (v ≡ w)) ⊎ (find j m ≡ some w)
  find-assign_cases k j v w m e = elim (Bool-cases (key.eqb k j)) [
    | inl same ↦ inl ((key.eqb_iff k j).0 same, same_value (rw (find-assign k j v m, same) at e))
    | inr other ↦ inr (rw (find-assign k j v m, other) at e)
  ]

module _ {ℓ κ} {K : Type ℓ} {V : Type κ} ⦃key : Key K⦄ where
  -- Each key stands once.
  unfoldable pub Once : Map K V → Type (ℓ ⊔ κ)
  Once [] = Unit
  Once ((k, v) ∷ m) = (find k m ≡ none) × Once m

  erased_none : (k j : K) (m : Map K V) → find j m ≡ none → find j (erase k m) ≡ none
  erased_none k j m free = ground (arith, find-erase k j m, free)

  pub erase-Once : (k : K) (m : Map K V) → Once m → Once (erase k m)
  unfolding Once erase
  erase-Once k [] once = tt
  erase-Once k ((j, w) ∷ m) (free, once) = elim (Bool-cases (key.eqb j k)) [
    | inl e ↦ rw e (erase-Once k m once)
    | inr e ↦ rw e (erased_none k j m free, erase-Once k m once)
  ]

  kept_apart :
      (k j : K) (v : V) (m : Map K V)
      → key.eqb j k ≡ false
      → find j m ≡ none
      → find j (assign k v m) ≡ none
  kept_apart k j v m differ free =
      ground (arith, find-assign k j v m, key.eqb_iff j k, key.eqb_iff k j, differ, free)

  assign-Once : (k : K) (v : V) (m : Map K V) → find k m ≡ none → Once m → Once (assign k v m)
  unfolding Once assign find
  assign-Once k v [] absent once = (refl, tt)
  assign-Once k v ((j, w) ∷ m) absent (free, once) = elim (Bool-cases (key.eqb j k)) [
    | inl e ↦ absurd (not_found (sym (rw e at absent)))
    | inr e ↦ elim (Bool-cases (key.less k j)) [
      | inl l ↦ rw (e, l) (absent, (free, once))
      | inr l ↦ rw (e, l) (kept_apart k j v m e free, assign-Once k v m (rw e at absent) once)
    ]
  ]

  pub insert-Once : (k : K) (v : V) (m : Map K V) → Once m → Once (insert k v m)
  unfolding insert
  insert-Once k v m once = elim (Option-cases (find k m)) [
    | inl e ↦ rw e (assign-Once k v m e once)
    | inr (w, e) ↦ rw e once
  ]
