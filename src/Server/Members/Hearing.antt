-- ===== src/Server/Members/Hearing.antt =====
-- Who hears a message to a channel: the participants of the map that broadcastMsg walks
-- (src/Server.cpp).
use ft_irc_refactor.Base.{
  Once, not_found, ==_iff, All, str_eq, str_eq_iff, Bool-cases, false, ℕ, ◌≡◌, ◌∙◌, refl, inl, inr,
  Bool, not, ◌&&◌, [], ◌∷◌, Option, none, some, Str, Map, find, ℕ_key, str_key, sym, subst,
  if◌then◌else◌, ◌==◌,
}
use ft_irc_refactor.Server.Net.{is_fd}
use ft_irc_refactor.Channel.{Ptr}

abbrev is_at : Ptr → Option Ptr → Bool
is_at p none = false
is_at p (some q) = q == p

-- What a client hears: the message if it is a participant under its nickname, and not the sender.
unfoldable pub heard : Option ℕ → (msg : Str) → (fd : ℕ) (nick : Str) → Ptr → Map Str Ptr → Str
unfolding is_at
heard sender msg fd nick p m = if is_at p (find nick m) && not (is_fd fd sender) then msg else []

module _ (sender : Option ℕ) (msg : Str) where
  abbrev pub own : ℕ → Str
  own fd = if is_fd fd sender then [] else msg

  pub heard_head :
      (n nick : Str) (p q : Ptr) (fd : ℕ) (m : Map Str Ptr)
      → p ≡ q
      → n ≡ nick
      → find n m ≡ none
      → (heard sender msg fd nick p ((n, q) ∷ m) ≡ own fd) × (heard sender msg fd nick p m ≡ [])
  unfolding heard find
  heard_head n nick p q fd m pq nn free = elim (Bool-cases (is_fd fd sender)) [
    | inl e ↦
        (rw ((str_eq_iff n nick).1 nn, (==_iff q p).1 (sym pq), e) refl, rw (sym nn, free) refl)
    | inr e ↦
        (rw ((str_eq_iff n nick).1 nn, (==_iff q p).1 (sym pq), e) refl, rw (sym nn, free) refl)
  ]

  pub heard_tail :
      (n nick : Str) (p q : Ptr) (fd : ℕ) (m : Map Str Ptr)
      → (q == p) ≡ false
      → find n m ≡ none
      → heard sender msg fd nick p ((n, q) ∷ m) ≡ heard sender msg fd nick p m
  unfolding heard find
  heard_tail n nick p q fd m differ free = elim (Bool-cases (str_eq n nick)) [
    | inl e ↦ rw (e, differ) (rw (subst (λ x. find x m ≡ none) ((str_eq_iff n nick).0 e) free) refl)
    | inr e ↦ rw e refl
  ]

-- The entries of a map are what is found in it.
pub entries_found : (m : Map Str Ptr) → Once m → All (λ e. find e.0 m ≡ some e.1) m
unfolding Once find
entries_found [] once = tt
entries_found ((n, q) ∷ m) (free, once) =
    (rw ((str_eq_iff n n).1 refl) refl, behind m (entries_found m once))
  where
    behind :
        (l : Map Str Ptr)
        → All (λ e. find e.0 m ≡ some e.1) l
        → All (λ e. find e.0 ((n, q) ∷ m) ≡ some e.1) l
    behind [] held = tt
    behind ((k, r) ∷ l) (here, held) = (
      elim (Bool-cases (str_eq n k)) [
        | inl e ↦
            absurd
              (not_found (sym (subst (λ x. find x m ≡ none) ((str_eq_iff n k).0 e) free) ∙ here))
        | inr e ↦ rw e here
      ],
      behind l held,
    )
