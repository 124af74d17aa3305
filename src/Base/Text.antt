-- ===== src/Base/Text.antt =====
-- Byte strings: std::string as the list of its bytes, with the tests of <cctype> in the C locale.
use Prim.Native.Nat.{ℕ, suc, ◌+◌, ◌-◌, ◌*◌, ◌%◌, ◌^◌, min}
use Prim.Native.Char.{code}
use Prim.Native.String.{String}
use mathlib.Core.Path.{◌≡◌, refl}
use mathlib.Core.Logic.{◌↔◌, ◌≢◌, inl, inr}
use mathlib.Core.Bool.{Bool, true, false, ◌&&◌, ◌||◌}
use mathlib.Core.List.{List, [], ◌∷◌, ◌++◌}
use mathlib.Core.Option
use mathlib.Core.Option.{Option, none, some}
use native.Mathlib.Omega.{arith}
use ft_irc_refactor.Base.Tests.{Bool-cases, ltb, leb, ◌==◌, if◌then◌else◌}

abbrev pub Str : Type 0
Str = List ℕ

-- The bytes of an ASCII literal.
abbrev pub codes : String → Str
codes String.[] = []
codes (String.◌∷◌ c s) = code c ∷ codes s

abbrev pub str_eq : Str → Str → Bool
str_eq [] [] = true
str_eq [] (y ∷ ys) = false
str_eq (x ∷ xs) [] = false
str_eq (x ∷ xs) (y ∷ ys) = x == y && str_eq xs ys

-- operator< of std::string: lexicographic on unsigned bytes.
abbrev pub str_lt : Str → Str → Bool
str_lt [] [] = false
str_lt [] (y ∷ ys) = true
str_lt (x ∷ xs) [] = false
str_lt (x ∷ xs) (y ∷ ys) = ltb x y || x == y && str_lt xs ys

pub str_eq_iff : (s t : Str) → (str_eq s t ≡ true) ↔ (s ≡ t)
str_eq_iff [] [] = (λ h. refl, λ h. refl)
str_eq_iff [] (y ∷ ys) = ground arith
str_eq_iff (x ∷ xs) [] = ground arith
str_eq_iff (x ∷ xs) (y ∷ ys) = ground (arith, str_eq_iff xs ys)

unfoldable pub is_digit : ℕ → Bool
is_digit c = leb b'0' c && leb c b'9'

unfoldable pub is_alnum : ℕ → Bool
unfolding is_digit
is_alnum c = is_digit c || leb b'A' c && leb c b'Z' || leb b'a' c && leb c b'z'

-- isspace: blank, \t \n \v \f \r.
unfoldable pub is_space : ℕ → Bool
is_space c = c == 32 || leb 9 c && leb c 13

unfoldable pub is_cntrl : ℕ → Bool
is_cntrl c = ltb c 32 || c == 127

-- What a `const char*` keeps of a byte string: the bytes before the first NUL.
unfoldable pub c_str : Str → Str
c_str [] = []
c_str (x ∷ xs) = if x == 0 then [] else x ∷ c_str xs

-- `s[0]` of a std::string, which is '\0' for the empty one.
abbrev pub first : Str → ℕ
first [] = 0
first (x ∷ xs) = x

-- std::string::find of one byte.
unfoldable pub find_char : ℕ → Str → Option ℕ
find_char c [] = none
find_char c (x ∷ xs) = let rest = find_char c xs in if x == c then some 0 else Option.map suc rest

abbrev pub crlf : Str
crlf = 13 ∷ 10 ∷ []

-- `find("\r\n")`: where the first CR that is followed by LF stands.
unfoldable pub find_crlf : Str → Option ℕ
find_crlf [] = none
find_crlf (x ∷ []) = none
find_crlf (x ∷ y ∷ ys) =
    let rest = find_crlf (y ∷ ys) in if x == 13 && y == 10 then some 0 else Option.map suc rest

unfoldable pub flush : Str → List Str → List Str
flush [] rest = rest
flush (x ∷ xs) rest = (x ∷ xs) ∷ rest

-- `while (stream >> token)`: the maximal runs of bytes that are not white space.
unfoldable pub tokens_from : Str → Str → List Str
unfolding flush is_space
tokens_from tmp [] = flush tmp []
tokens_from tmp (x ∷ xs) =
    let next = tokens_from [] xs in
    let more = tokens_from (tmp ++ x ∷ []) xs in if is_space x then flush tmp next else more

abbrev pub tokens : Str → List Str
tokens = tokens_from []

-- The digits from left to right.
unfoldable pub digits_value : ℕ → Str → ℕ
digits_value acc [] = acc
digits_value acc (c ∷ cs) = digits_value (acc * 10 + (c - b'0')) cs

-- atoi of digits, as an unsigned int: strtol stops at LONG_MAX, and its low 32 bits are kept.
unfoldable pub atoi_unsigned : Str → ℕ
unfolding digits_value
atoi_unsigned size = min (digits_value 0 size) (2 ^ 63 - 1) % 2 ^ 32

pub unlike : (a b : Str) → a ≢ b → str_eq a b ≡ false
unlike a b differ = elim (Bool-cases (str_eq a b)) [
  | inl e ↦ absurd (differ ((str_eq_iff a b).0 e))
  | inr e ↦ e
]
