-- ===== src/Server/Members/Names.antt =====
-- Nicknames that no client has (checkNick, src/Cmd/CmdNick.cpp, with getClient, src/Server.cpp).
use ft_irc_refactor.Base.{
  same_value, not_both, str_eq_iff, Option-cases, str_eq, Bool-cases, all, is_digit, find_char,
  is_alnum, false, true, ℕ, ◌≡◌, ◌≢◌, ◌∙◌, refl, inl, inr, Bool, [], ◌∷◌, Option, none, some, Str,
  Map, find, ℕ_key, str_key, ap, sym, subst, if◌then◌else◌, arith, ◌==◌,
}
use ft_irc_refactor.Server.Net.{find_nickname}
use ft_irc_refactor.Channel.{Ptr}
use ft_irc_refactor.Client.{Client, set_nickname}
use ft_irc_refactor.Server.State.{ok, Outcome}

letter : (b : ℕ) → is_alnum b ≡ true → (b == 32) ≡ false
unfolding is_alnum is_digit
letter b h = ground arith

no_space : (t : Str) → all is_alnum t ≡ true → find_char 32 t ≡ none
unfolding find_char
no_space [] h = refl
no_space (b ∷ t) h = elim (Bool-cases (is_alnum b)) [
  | inl e ↦ rw (letter b e, no_space t (rw e at h)) refl
  | inr e ↦ absurd (let k = rw e at h in (cc))
]

-- A nickname that checkNick accepts is stored whole.
pub stored_name : (t : Str) (c : Client) → all is_alnum t ≡ true → (set_nickname t c).nickname ≡ t
unfolding set_nickname
stored_name t c h = rw (set_nickname, no_space t h) refl

step_unused :
    (b : Bool) (q : Ptr) (o : Outcome (Option Ptr))
    → (if b then ok (some q) else o) ≡ ok none
    → (b ≡ false) × (o ≡ ok none)
step_unused true q o e = absurd (cc)
step_unused false q o e = (refl, e)

-- No client of `_clients` has it.
pub unused_name :
    (heap : Map Ptr Client) (t : Str) (m : Map ℕ Ptr) (fd : ℕ) (p : Ptr) (c : Client)
    → find_nickname heap t m ≡ ok none
    → find fd m ≡ some p
    → find p heap ≡ some c
    → c.nickname ≢ t
unfolding find_nickname find
unused_name heap t [] fd p c free e there same = absurd (cc)
unused_name heap t ((j, q) ∷ m) fd p c free e there same = elim (Option-cases (find q heap)) [
  | inl lost ↦ absurd (let k = rw (find_nickname, lost) at free in (cc))
  | inr (d, here) ↦
      let (differs, rest) =
        step_unused (str_eq d.nickname t) q (find_nickname heap t m)
          (rw (find_nickname, here) at free) in
      elim (Bool-cases (j == fd)) [
        | inl this ↦ clash (rw this at e) d here differs
        | inr other ↦ unused_name heap t m fd p c rest (rw other at e) there same
      ]
]
  where
    clash : some q ≡ some p → (d : Client) → find q heap ≡ some d → str_eq d.nickname t ≡ false → ⊥
    clash same_ptr d here differs =
        let one =
          same_value
            (sym here ∙ subst (λ x. find x heap ≡ some c) (sym (same_value same_ptr)) there) in
        not_both ((str_eq_iff d.nickname t).1 (ap (λ x. x.nickname) one ∙ same)) differs
