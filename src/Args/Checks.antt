-- ===== src/Args/Checks.antt =====
-- src/ArgParser.cpp against the constructor of src/Server.cpp.
use native.Mathlib.Nat.{pow-succ', le_trans}
use ft_irc_refactor.Base.{
  ℕ, zero, suc, ◌+◌, ◌-◌, ◌*◌, ◌^◌, ◌≤◌, ◌<◌, ◌≡◌, ◌↔◌, ◌⊎◌, refl, true, false, [], ◌∷◌, Option,
  none, some, Str, length, all, is_digit, digits_value, atoi_unsigned, arith, is_empty,
}
use ft_irc_refactor.Args.{ok, check_port, check_password, server_port, server_password}

-- The port check of ArgParser and the one of the constructor are one function.
pub check_port-eq : (arg : Option Str) → check_port arg ≡ server_port arg
unfolding check_port server_port
check_port-eq none = refl
check_port-eq (some s) = ground arith

scale : (acc d p : ℕ) → d ≤ 9 → (acc * 10 + d + 1) * p ≤ (acc + 1) * (10 * p)
scale acc d p h = grind arith

digit_le : (c : ℕ) → is_digit c ≡ true → c - b'0' ≤ 9
unfolding is_digit
digit_le c h = ground arith

all_head : (c : ℕ) (cs : Str) → all is_digit (c ∷ cs) ≡ true → is_digit c ≡ true
all_head c cs h = ground arith

all_tail : (c : ℕ) (cs : Str) → all is_digit (c ∷ cs) ≡ true → all is_digit cs ≡ true
all_tail c cs h = ground arith

digits_value_bound :
    (acc : ℕ) (s : Str) → all is_digit s ≡ true → digits_value acc s < (acc + 1) * 10 ^ length s
unfolding digits_value
digits_value_bound acc [] h = omega arith
digits_value_bound acc (c ∷ cs) h = rw (pow-succ' 10 (length cs)) (
    le_trans (digits_value_bound (acc * 10 + (c - b'0')) cs (all_tail c cs h))
      (scale acc (c - b'0') (10 ^ length cs) (digit_le c (all_head c cs h))))

pow_le : (n : ℕ) → n ≤ 5 → 10 ^ n ≤ 100000
pow_le zero h = omega arith
pow_le (suc zero) h = omega arith
pow_le (suc (suc zero)) h = omega arith
pow_le (suc (suc (suc zero))) h = omega arith
pow_le (suc (suc (suc (suc zero)))) h = omega arith
pow_le (suc (suc (suc (suc (suc zero))))) h = omega arith
pow_le (suc (suc (suc (suc (suc (suc n)))))) h = absurd (omega arith)

-- On a text that is short enough atoi does not overflow.
atoi_unsigned-short :
    (s : Str) → all is_digit s ≡ true → length s ≤ 5 → atoi_unsigned s ≡ digits_value 0 s
unfolding atoi_unsigned
atoi_unsigned-short s h l =
    let bound : digits_value 0 s < 1 * 10 ^ length s = digits_value_bound 0 s h in
    omega (arith, pow_le (length s) l)

-- What the constructor accepts as a port, and which number it then takes.
pub server_port-accepts :
    (s : Str) (n : ℕ)
    → (server_port (some s) ≡ ok n) ↔ (
        (is_empty s ≡ false)
        × (all is_digit s ≡ true)
        × (length s ≤ 5)
        × (digits_value 0 s ≤ 65535)
        × (n ≡ digits_value 0 s))
unfolding server_port
server_port-accepts s n =
    (λ h. ground (arith, atoi_unsigned-short s), λ h. ground (arith, atoi_unsigned-short s))

-- A password that ArgParser accepts passes the constructor too, as it is.
pub check_password-accepts :
    (arg : Option Str) (w : Str) → check_password arg ≡ ok w → server_password arg ≡ ok w
unfolding check_password server_password
check_password-accepts none w h = cc
check_password-accepts (some s) w h = ground arith

-- The constructor accepts more: exactly the passwords of ten letters and digits.
pub server_password-accepts :
    (s w : Str)
    → server_password (some s) ≡ ok w
    → (check_password (some s) ≡ ok w) ⊎ (length s ≡ 10)
unfolding check_password server_password
server_password-accepts s w h = ground arith
