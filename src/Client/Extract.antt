-- ===== src/Client/Extract.antt =====
-- Client::extractMessage (src/Client.cpp): what one extraction takes from the receive buffer, and
-- what all of them together take.
use ft_irc_refactor.Base.{
  length-take, ℕ, zero, suc, ◌+◌, ◌≤◌, ◌<◌, ◌≡◌, ◌⊎◌, inl, inr, refl, sym, ap, ◌∙◌, ◌&&◌, List, [],
  ◌∷◌, ◌++◌, Option, none, some, Str, crlf, take, drop, length, ltb, find_crlf, arith, Option-cases,
  Bool-cases, ◌==◌, length-append, take-append-drop, ltb-true, ltb-false, lt_of_ltb, le_of_ltb,
}
use mathlib.Core.Option
use mathlib.Core.Option.{some-injective}
use mathlib.Core.List.{append_assoc}
use native.Mathlib.Numerals.{add-two}
use ft_irc_refactor.Client.{extract}

-- The two cases of a buffer of two bytes or more.
find_crlf_cases :
    (x y : ℕ) (ys : Str)
    → ((x ≡ 13) × (y ≡ 10) × (find_crlf (x ∷ y ∷ ys) ≡ some 0))
      ⊎ ((find_crlf (x ∷ y ∷ ys) ≡ Option.map suc (find_crlf (y ∷ ys)))
          × ((zs : Str) → find_crlf (x ∷ y ∷ zs) ≡ Option.map suc (find_crlf (y ∷ zs))))
unfolding find_crlf
find_crlf_cases x y ys = elim (Bool-cases (x == 13 && y == 10)) [
  | inl h ↦ inl (ground arith, ground arith, ground arith)
  | inr h ↦ inr (rw h, λ zs. rw h)
]

abbrev Found : Str → ℕ → Type 0
Found b pos =
    (pre : Str) × (post : Str) × (b ≡ pre ++ (crlf ++ post))
    × (length pre ≡ pos)
    × (find_crlf pre ≡ none)

find_crlf_cons :
    (x y : ℕ) (pre : Str) (zs post : Str)
    → ((zs : Str) → find_crlf (x ∷ y ∷ zs) ≡ Option.map suc (find_crlf (y ∷ zs)))
    → y ∷ zs ≡ pre ++ (crlf ++ post)
    → find_crlf pre ≡ none
    → find_crlf (x ∷ pre) ≡ none
unfolding find_crlf
find_crlf_cons x y [] zs post step e h = refl
find_crlf_cons x y (z ∷ pre) zs post step e h = ground (arith, step pre)

-- Where a CRLF is found, it stands, and none stands before it.
find_crlf-some : (b : Str) (pos : ℕ) → find_crlf b ≡ some pos → Found b pos
unfolding find_crlf
find_crlf-some [] pos h = absurd (cc)
find_crlf-some (x ∷ []) pos h = absurd (cc)
find_crlf-some (x ∷ y ∷ ys) pos h = elim (find_crlf_cases x y ys) [
  | inl (ex, ey, e) ↦ ([], ys, ground arith, ground arith, refl)
  | inr (e, step) ↦ elim (Option-cases (find_crlf (y ∷ ys))) [
    | inl none_there ↦ absurd (ground arith)
    | inr (q, found) ↦
        let (pre, post, split, len, clean) = find_crlf-some (y ∷ ys) q found in
        (
          x ∷ pre,
          post,
          ap (◌∷◌ x) split,
          ground arith,
          find_crlf_cons x y pre ys post step split clean,
        )
  ]
]

-- Bytes that come later do not move a CRLF that is there.
find_crlf-append : (b d : Str) (pos : ℕ) → find_crlf b ≡ some pos → find_crlf (b ++ d) ≡ some pos
unfolding find_crlf
find_crlf-append [] d pos h = cc
find_crlf-append (x ∷ []) d pos h = cc
find_crlf-append (x ∷ y ∷ ys) d pos h = elim (Option-cases (find_crlf (y ∷ ys))) [
  | inl e ↦ ground arith
  | inr (q, e) ↦ ground (arith, find_crlf-append (y ∷ ys) d q)
]

-- Nor do they complete one before the last byte.
find_crlf_late :
    (b d : Str) (pos : ℕ) → find_crlf b ≡ none → find_crlf (b ++ d) ≡ some pos → length b ≤ pos + 1
unfolding find_crlf
find_crlf_late [] d pos h k = omega arith
find_crlf_late (x ∷ []) d pos h k = omega arith
find_crlf_late (x ∷ y ∷ ys) d pos h k = elim (Option-cases (find_crlf (y ∷ ys ++ d))) [
  | inl e ↦ ground arith
  | inr (q, e) ↦ ground (arith, find_crlf_late (y ∷ ys) d q)
]

-- A line with no CRLF in it ends where its terminator begins.
find_crlf_line :
    (line rest : Str)
    → find_crlf line ≡ none
    → find_crlf (line ++ (crlf ++ rest)) ≡ some (length line)
unfolding find_crlf
find_crlf_line [] rest h = refl
find_crlf_line (x ∷ []) rest h = ground arith
find_crlf_line (x ∷ y ∷ ys) rest h = ground (arith, find_crlf_line (y ∷ ys) rest)

module _ {A : Type 0} where
  take_all : (xs ys : List A) → take (length xs) (xs ++ ys) ≡ xs
  take_all [] ys = refl
  take_all (x ∷ xs) ys = ap (◌∷◌ x) (take_all xs ys)

  drop_all : (xs ys : List A) → drop (length xs) (xs ++ ys) ≡ ys
  drop_all [] ys = refl
  drop_all (x ∷ xs) ys = drop_all xs ys

  take_short : (n : ℕ) (xs ys : List A) → n ≤ length xs → take n (xs ++ ys) ≡ take n xs
  take_short zero xs ys h = refl
  take_short (suc n) [] ys h = absurd (omega arith)
  take_short (suc n) (x ∷ xs) ys h = ap (◌∷◌ x) (take_short n xs ys (omega arith))

  drop_short : (n : ℕ) (xs ys : List A) → n ≤ length xs → drop n (xs ++ ys) ≡ drop n xs ++ ys
  drop_short zero xs ys h = refl
  drop_short (suc n) [] ys h = absurd (omega arith)
  drop_short (suc n) (x ∷ xs) ys h = drop_short n xs ys (omega arith)

drop-crlf : (pre post : Str) → drop (length pre + 2) (pre ++ (crlf ++ post)) ≡ post
drop-crlf pre post = rw add-two (go pre)
  where
    go : (pre : Str) → drop (suc (suc (length pre))) (pre ++ (crlf ++ post)) ≡ post
    go [] = refl
    go (x ∷ pre) = go pre

-- A line within the limit that is followed by its terminator is what is extracted.
pub extract-line :
    (line rest : Str)
    → find_crlf line ≡ none
    → length line ≤ 510
    → extract (line ++ (crlf ++ rest)) ≡ some (line, rest)
unfolding extract
extract-line line rest h l = rw (
  find_crlf_line line rest h,
  extract,
  ltb-false 512 (length line + 2) (omega arith),
  take_all line (crlf ++ rest),
  drop-crlf line rest,
)

-- The two ways in which a message is taken: a whole line, or the first 510 bytes of a longer one.
pub data Extracted (b m r : Str) : Type 0 where
  line : b ≡ m ++ (crlf ++ r) → length m ≤ 510 → find_crlf m ≡ none → Extracted b m r
  piece :
      m ≡ take 510 b
      → r ≡ drop 510 b
      → 512 ≤ length b
      → ((pos : ℕ) → find_crlf b ≡ some pos → 510 < pos)
      → Extracted b m r

Found-Extracted :
    (b m r : Str) (pos : ℕ)
    → Found b pos
    → pos ≤ 510
    → m ≡ take pos b
    → r ≡ drop (pos + 2) b
    → Extracted b m r
Found-Extracted b m r pos (pre, post, split, len, clean) l em er =
    line (rw (same_pre, same_post) split) (rw same_pre (omega arith)) (rw same_pre clean)
  where
    same_pre : m ≡ pre
    same_pre = rw (em, ← len, split) (take_all pre (crlf ++ post))

    same_post : r ≡ post
    same_post = rw (er, ← len, split) (drop-crlf pre post)

Found-length : (b : Str) (pos : ℕ) → Found b pos → pos + 2 ≤ length b
Found-length b pos (pre, post, split, len, clean) =
    omega (arith, ap length split, length-append pre (crlf ++ post))

pub some_pair :
    {a x m r : Str} → ◌≡◌ {A = Option (Str × Str)} (some (a, x)) (some (m, r)) → (m ≡ a) × (r ≡ x)
some_pair h = (cc, cc)

pub extract-Extracted : (b m r : Str) → extract b ≡ some (m, r) → Extracted b m r
unfolding extract
extract-Extracted b m r h = elim (Option-cases (find_crlf b)) [
  | inl e ↦ elim (Bool-cases (ltb (length b) 512)) [
    | inl short ↦ absurd (let k = rw (e, extract, short) at h in (cc))
    | inr long ↦
        let (em, er) = some_pair (rw (e, extract, long) at h) in
        piece em er (le_of_ltb _ _ long) (λ pos f. absurd (ground arith))
  ]
  | inr (pos, e) ↦ elim (Bool-cases (ltb 512 (pos + 2))) [
    | inl long ↦
        let (em, er) = some_pair (rw (e, extract, long) at h) in
        piece em er
          (omega (arith, Found-length b pos (find_crlf-some b pos e), lt_of_ltb 512 (pos + 2) long))
          (λ q f. omega (arith, lt_of_ltb 512 (pos + 2) long, some-injective _ _ (sym e ∙ f)))
    | inr short ↦
        let (em, er) = some_pair (rw (e, extract, short) at h) in
        Found-Extracted b m r pos (find_crlf-some b pos e)
          (omega (arith, le_of_ltb 512 (pos + 2) short)) em er
  ]
]

-- An extraction loses nothing, and what stays in the buffer is shorter. The message is the first
-- line, of at most 510 bytes and taken with its terminator, or the first 510 bytes of a longer one:
-- of 512 bytes or more, in whose first 510 no line ends.
pub extract-lossless :
    (b m r : Str)
    → extract b ≡ some (m, r)
    → (length m ≤ 510)
      × (length r < length b)
      × (((b ≡ m ++ (crlf ++ r)) × (find_crlf m ≡ none))
          ⊎ (((b ≡ m ++ r) × (length m ≡ 510))
              × ((512 ≤ length b) × ((pos : ℕ) → find_crlf b ≡ some pos → 510 < pos))))
extract-lossless b m r h = elim (extract-Extracted b m r h) [
  | line split short clean ↦
      (short, omega (arith, ap length split, length-append m (crlf ++ r)), inl (split, clean))
  | piece em er long late ↦
      let len : length m ≡ 510 = rw em (length-take 510 b (omega arith)) in
      let split : b ≡ m ++ r = rw (em, er) (sym (take-append-drop 510 b)) in
      (
        omega (arith, len),
        omega (arith, ap length split, length-append m r, len),
        inr ((split, len), (long, late)),
      )
]

extract-piece :
    (b : Str)
    → 512 ≤ length b
    → ((pos : ℕ) → find_crlf b ≡ some pos → 510 < pos)
    → extract b ≡ some (take 510 b, drop 510 b)
unfolding extract
extract-piece b long late = elim (Option-cases (find_crlf b)) [
  | inl e ↦ rw (e, extract, ltb-false (length b) 512 long)
  | inr (pos, e) ↦ rw (e, extract, ltb-true 512 (pos + 2) (omega (arith, late pos e)))
]

-- How TCP cuts the stream does not matter: bytes that come later change no message that can be
-- extracted before, and are found in the buffer behind the rest.
pub extract-append : (b d m r : Str) → extract b ≡ some (m, r) → extract (b ++ d) ≡ some (m, r ++ d)
extract-append b d m r h = elim (extract-Extracted b m r h) [
  | line split short clean ↦
      rw (split, append_assoc m (crlf ++ r) d) (extract-line m (r ++ d) clean short)
  | piece em er long late ↦
      extract-piece (b ++ d) (omega (arith, length-append b d)) (later late long) ∙ parts em er long
]
  where
    later :
        ((pos : ℕ) → find_crlf b ≡ some pos → 510 < pos)
        → 512 ≤ length b
        → (pos : ℕ) → find_crlf (b ++ d) ≡ some pos
        → 510 < pos
    later late long pos f = elim (Option-cases (find_crlf b)) [
      | inl e ↦ omega (arith, find_crlf_late b d pos e f)
      | inr (q, e) ↦
          omega (arith, late q e, some-injective _ _ (sym (find_crlf-append b d q e) ∙ f))
    ]

    parts :
        m ≡ take 510 b
        → r ≡ drop 510 b
        → 512 ≤ length b
        → ◌≡◌ {A = Option (Str × Str)}
            (some (take 510 (b ++ d), drop 510 (b ++ d)))
            (some (m, r ++ d))
    parts em er long =
        rw (em, er, take_short 510 b d (omega arith), drop_short 510 b d (omega arith))
