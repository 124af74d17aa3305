-- ===== src/Args.antt =====
-- src/ArgParser.cpp, and the checks of the constructor IrcServer(port, password) in
-- src/Server.cpp. `none` is a null pointer; a C string has no NUL byte.
pub mod Checks
use ft_irc_refactor.Base.{
  ℕ, ◌≤◌, ◌<◌, ◌^◌, ◌≡◌, Bool, true, false, not, ◌&&◌, ◌||◌, List, [], ◌∷◌, Option, none, some, Str,
  codes, ltb, leb, length, all, is_empty, is_digit, is_alnum, atoi_unsigned, if◌then◌else◌,
}

abbrev pub port_max : ℕ
port_max = 65535

abbrev pub port_max_len : ℕ
port_max_len = 5

abbrev pub password_max_len : ℕ
password_max_len = 10

-- A value, or an exception's text.
pub data Checked (A : Type 0) : Type 0 where
  ok : A → Checked A
  throw : Str → Checked A

infixl 5 ◌>>=◌
abbrev ◌>>=◌ : {A B : Type 0} → Checked A → (A → Checked B) → Checked B
ok a >>= f = f a
throw e >>= f = throw e

abbrev err_arg_count : Str
err_arg_count = codes "invalid argument count. (only 3)"

abbrev err_port_null : Str
err_port_null = codes "port number is NULL or empty."

abbrev err_port_digit : Str
err_port_digit = codes "port number can only contain numbers."

abbrev err_port_range : Str
err_port_range = codes "port number is out of valid range."

abbrev err_password_null : Str
err_password_null = codes "password is NULL or empty."

abbrev err_password_size : Str
err_password_size = codes "password must be less than 10 characters."

abbrev err_password_alnum : Str
err_password_alnum = codes "password can only contain alphabet or number."

-- PORT_MIN <= n && n <= PORT_MAX for the int whose bits are `n`: from 2^31 on it is negative.
abbrev pub in_port_range : ℕ → Bool
in_port_range n = not (leb (2 ^ 31) n) && leb n port_max

-- ArgParser::checkPort
unfoldable pub check_port : Option Str → Checked ℕ
unfolding is_digit atoi_unsigned
check_port none = throw err_port_null
check_port (some s) =
    if is_empty s
    then throw err_port_null
    else (if not (all is_digit s)
        then throw err_port_digit
        else (if in_port_range (atoi_unsigned s) && leb (length s) port_max_len
            then ok (atoi_unsigned s)
            else throw err_port_range))

-- ArgParser::checkPassword
unfoldable pub check_password : Option Str → Checked Str
unfolding is_alnum
check_password none = throw err_password_null
check_password (some s) =
    if is_empty s
    then throw err_password_null
    else (if leb password_max_len (length s)
        then throw err_password_size
        else (if all is_alnum s then ok s else throw err_password_alnum))

-- ArgParser::setArg on the three arguments, or on another number of them.
unfoldable pub set_arg : List (Option Str) → Checked (ℕ × Str)
unfolding check_port check_password
set_arg (program ∷ port ∷ password ∷ []) = do
  p ← check_port port
  w ← check_password password
  ok (p, w)
set_arg _ = throw err_arg_count

-- The constructor's checks of the port.
unfoldable pub server_port : Option Str → Checked ℕ
unfolding is_digit atoi_unsigned
server_port none = throw err_port_null
server_port (some s) =
    if is_empty s
    then throw err_port_null
    else (if not (all is_digit s)
        then throw err_port_digit
        else (if not (in_port_range (atoi_unsigned s)) || ltb port_max_len (length s)
            then throw err_port_range
            else ok (atoi_unsigned s)))

-- The constructor's checks of the password, which come in another order.
unfoldable pub server_password : Option Str → Checked Str
unfolding is_alnum
server_password none = throw err_password_null
server_password (some s) =
    if is_empty s
    then throw err_password_null
    else (if not (all is_alnum s)
        then throw err_password_alnum
        else (if ltb password_max_len (length s) then throw err_password_size else ok s))

-- The constructor: `_port` and `_password`.
unfoldable pub make_server : (port password : Option Str) → Checked (ℕ × Str)
unfolding server_port server_password
make_server port password = do p ← server_port port; w ← server_password password; ok (p, w)
