-- ===== src/Cmd/Split/Tokens.antt =====
-- The tokens of a parameter list: joinSplit (src/Cmd/CmdJoin.cpp).
use mathlib.Core.List.{append_assoc, append-nil}
use ft_irc_refactor.Base.{
  refl, ap, sym, subst, ◌∙◌, ◌≡◌, ◌↔◌, true, ℕ, ◌≢◌, inl, inr, false, List, [], ◌∷◌, ◌++◌, Str, All,
  All-append, flush, Bool-cases,
}
use ft_irc_refactor.Cmd.Split.{join_split_from, join_split, is_join_delim}

abbrev pub Plain : ℕ → Type 0
Plain c = is_join_delim c ≡ false

-- A token: some bytes, none of them a delimiter.
abbrev pub Token : Str → Type 0
Token t = (t ≢ []) × All Plain t

-- How a text is cut: a delimiter at its beginning is skipped, and a token reaches up to a delimiter
-- or to the end of the text.
pub data Splits : Str → List Str → Type 0 where
  done : Splits [] []
  skip :
      (d : ℕ) {s : Str} {ts : List Str} → is_join_delim d ≡ true → Splits s ts → Splits (d ∷ s) ts
  last : (t : Str) → Token t → Splits t (t ∷ [])
  token :
      (t : Str) (d : ℕ) {s : Str} {ts : List Str}
      → Token t
      → is_join_delim d ≡ true
      → Splits s ts
      → Splits (t ++ d ∷ s) (t ∷ ts)

cons-Token : (c : ℕ) (t : Str) → All Plain (c ∷ t) → Token (c ∷ t)
cons-Token c t h = ((λ e. absurd (cc)), h)

-- What is cut where the text ends, and where a delimiter follows.
flush-last : (t : Str) → All Plain t → Splits t (flush t [])
unfolding flush
flush-last [] h = done
flush-last (c ∷ t) h = last (c ∷ t) (cons-Token c t h)

flush-token :
    (t : Str) (d : ℕ) (s : Str) (ts : List Str)
    → All Plain t
    → is_join_delim d ≡ true
    → Splits s ts
    → Splits (t ++ d ∷ s) (flush t ts)
unfolding flush
flush-token [] d s ts h e k = skip d e k
flush-token (c ∷ t) d s ts h e k = token (c ∷ t) d (cons-Token c t h) e k

from-Splits : (tmp s : Str) → All Plain tmp → Splits (tmp ++ s) (join_split_from tmp s)
unfolding join_split_from
from-Splits tmp [] h =
    subst (λ x. Splits x (flush tmp [])) (sym (append-nil tmp)) (flush-last tmp h)
from-Splits tmp (c ∷ cs) h = elim (Bool-cases (is_join_delim c)) [
  | inl e ↦ rw e (flush-token tmp c cs _ h e (from-Splits [] cs tt))
  | inr e ↦ rw e (
      subst (λ x. Splits x (join_split_from (tmp ++ c ∷ []) cs)) (append_assoc tmp (c ∷ []) cs)
        (from-Splits (tmp ++ c ∷ []) cs (All-append Plain tmp (c ∷ []) h (e, tt))))
]

flush-Token : (t : Str) (ts : List Str) → Token t → flush t ts ≡ t ∷ ts
unfolding flush
flush-Token [] ts (some_byte, plain) = absurd (some_byte refl)
flush-Token (c ∷ t) ts h = refl

-- Bytes that are no delimiter are gathered.
from-Plain :
    (tmp t s : Str) → All Plain t → join_split_from tmp (t ++ s) ≡ join_split_from (tmp ++ t) s
unfolding join_split_from
from-Plain tmp [] s h = ap (λ x. join_split_from x s) (sym (append-nil tmp))
from-Plain tmp (c ∷ t) s (here, there) = rw here (
    from-Plain (tmp ++ c ∷ []) t s there
    ∙ ap (λ x. join_split_from x s) (append_assoc tmp (c ∷ []) t))

from-delim :
    (t : Str) (d : ℕ) (s : Str)
    → is_join_delim d ≡ true
    → join_split_from t (d ∷ s) ≡ flush t (join_split_from [] s)
unfolding join_split_from
from-delim t d s e = rw e refl

from-end : (t : Str) → join_split_from t [] ≡ flush t []
unfolding join_split_from
from-end t = refl

Splits-from : {s : Str} {ts : List Str} → Splits s ts → join_split_from [] s ≡ ts
unfolding flush
Splits-from done = from-end []
Splits-from (skip d {s = s} e k) = from-delim [] d s e ∙ Splits-from k
Splits-from (last t h) =
    ap (join_split_from []) (sym (append-nil t))
    ∙ from-Plain [] t [] h.1
    ∙ from-end t
    ∙ flush-Token t [] h
Splits-from (token t d {s = s} h e k) =
    from-Plain [] t (d ∷ s) h.1
    ∙ from-delim t d s e
    ∙ flush-Token t _ h
    ∙ ap (◌∷◌ t) (Splits-from k)

-- joinSplit gives exactly the tokens into which a text is cut at commas and blanks: they are not
-- empty and have no delimiter in them, each reaches up to a delimiter or to the end of the text,
-- and between them stand delimiters only.
pub join_split_iff : (s : Str) (ts : List Str) → (join_split s ≡ ts) ↔ Splits s ts
unfolding join_split
join_split_iff s ts = ((λ e. subst (Splits s) e (from-Splits [] s tt)), λ k. Splits-from k)
