-- ===== src/Cmd/Mode.antt =====
-- MODE (src/Cmd/CmdMode.cpp).
use ft_irc_refactor.Base.{
  ℕ, Bool, true, false, not, ◌&&◌, ◌||◌, List, [], ◌∷◌, ◌++◌, Option, none, some, Str, codes,
  str_eq, ◌==◌, ltb, leb, length, drop, all, is_empty, first, if◌then◌else◌, is_digit,
  atoi_unsigned, tokens, find, mem, str_key,
}
use ft_irc_refactor.Client.{Client}
use ft_irc_refactor.Channel.{
  Channel, is_operator, is_participant, is_set_key, set_mode, remove_mode, set_key, remove_key,
  set_limit, add_operator, remove_operator, invite_mode, topic_mode, key_mode, limit_mode,
  operator_mode,
}
use ft_irc_refactor.Server.State.{
  Env, Action, pure, undefined, get, or_undefined, when, update_channel, ◌>>=◌, ◌>>◌, channel_at,
}
use ft_irc_refactor.Server.Net.{make_msg, broadcast_channel}
use ft_irc_refactor.Cmd.Context.{Cmd, self, refuse, demand}
use ft_irc_refactor.Reply

abbrev pub password_max_len : ℕ
password_max_len = 10

-- plus_flag
pub data Sign : Type 0 where
  plus minus : Sign

-- What the first loop collects: the letters that take a parameter, and the flags.
pub record Options : Type 0 where
  pub use_param_mode : List ℕ
  pub flag_i : Bool
  pub flag_t : Bool
  pub flag_l : Bool
  pub flag_k : Bool

abbrev pub no_options : Options
no_options = record {
  use_param_mode = [];
  flag_i = false;
  flag_t = false;
  flag_l = false;
  flag_k = false;
}

-- One letter behind '+'; `none` is an unknown one.
unfoldable pub plus_option : ℕ → Options → Option Options
plus_option c o =
    if c == b'o' || c == b'k' || c == b'l'
    then some (record o { use_param_mode = o.use_param_mode ++ c ∷ [] })
    else (if c == b'i'
        then some (record o { flag_i = true })
        else (if c == b't' then some (record o { flag_t = true }) else none))

-- One letter behind '-'.
unfoldable pub minus_option : ℕ → Options → Option Options
minus_option c o =
    if c == b'o'
    then some (record o { use_param_mode = o.use_param_mode ++ c ∷ [] })
    else (if c == b'i'
        then some (record o { flag_i = true })
        else (if c == b't'
            then some (record o { flag_t = true })
            else (if c == b'l'
                then some (record o { flag_l = true })
                else (if c == b'k'
                    then some
                        (record o { use_param_mode = o.use_param_mode ++ c ∷ []; flag_k = true })
                    else none))))

abbrev pub sign_option : Sign → ℕ → Options → Option Options
sign_option plus = plus_option
sign_option minus = minus_option

-- The loop over the letters. An unknown one ends the command.
unfoldable pub read_options : Sign → Str → Options → Action Options
read_options sign [] o = pure o
read_options sign (c ∷ cs) o = elim (sign_option sign c o) [
  | none ↦ refuse (Reply.err_unknownmode (c ∷ []))
  | some o' ↦ read_options sign cs o'
]

-- validationNickName
unfoldable pub validation_nick_name :
    (me : Client) → Sign → (nickname : Str) → Channel → Action (Unit {0})
validation_nick_name me plus nickname ch =
    demand (is_participant nickname ch) (Reply.err_usernotinchannel me.nickname nickname ch.name)
validation_nick_name me minus nickname ch =
    demand (is_operator nickname ch) (Reply.err_nosuchnick me.nickname nickname)

-- validationKey
unfoldable pub validation_key : (me : Client) → Sign → (key : Str) → Channel → Action (Unit {0})
validation_key me plus key ch = do
  demand (not (is_set_key ch)) (Reply.err_keyset ch.name)
  demand (not (is_empty key)) (Reply.err_needmoreparams me.nickname (codes "PASS"))
  demand (ltb (length key) password_max_len) Reply.err_pass_password
validation_key me minus key ch = demand (str_eq key ch.key) (Reply.err_keyset ch.name)

-- validationInt: digits, with no leading zero but "0" itself.
unfoldable pub validation_int : (size : Str) → Action (Unit {0})
validation_int size = do
  demand (not (first size == b'0' && ltb 1 (length size))) Reply.err_invalidparam
  demand (all is_digit size) Reply.err_invalidparam

unfoldable pub validate_option :
    (me : Client) → Sign → (option : ℕ) → (param : Str) → Channel → Action (Unit {0})
validate_option me sign option param ch =
    if option == b'o'
    then validation_nick_name me sign param ch
    else (if option == b'k' then validation_key me sign param ch else validation_int param)

-- The loop of the validation. The two lists are equally long.
unfoldable pub validate_options :
    (me : Client) → Sign → (options : List ℕ) → (params : List Str) → Channel → Action (Unit {0})
validate_options me sign [] params ch = pure tt
validate_options me sign (o ∷ os) [] ch = undefined
validate_options me sign (o ∷ os) (p ∷ ps) ch = do
  validate_option me sign o p ch
  validate_options me sign os ps ch

-- The nickname is looked up in nickNameClientMap, and what is found is not tested.
unfoldable pub add_channel_operator : (nickname name : Str) → Action (Unit {0})
add_channel_operator nickname name = do
  s ← get
  update_channel name (set_mode operator_mode)
  p ← or_undefined (find nickname s.nick_name_client_map)
  update_channel name (add_operator nickname p)

unfoldable pub remove_channel_operator : (nickname name : Str) → Action (Unit {0})
remove_channel_operator nickname name = do
  update_channel name (remove_mode operator_mode)
  update_channel name (remove_operator nickname)

unfoldable pub set_channel_key : (key name : Str) → Action (Unit {0})
set_channel_key key name = do
  update_channel name (set_mode key_mode)
  update_channel name (set_key key)

unfoldable pub remove_channel_key : (name : Str) → Action (Unit {0})
remove_channel_key name = do
  update_channel name (remove_mode key_mode)
  update_channel name remove_key

unfoldable pub set_channel_user_limit : (size name : Str) → Action (Unit {0})
set_channel_user_limit size name = do
  update_channel name (set_mode limit_mode)
  update_channel name (set_limit (atoi_unsigned size))

unfoldable pub plus_execute : (name : Str) → (option : ℕ) → (param : Str) → Action (Unit {0})
plus_execute name option param =
    if option == b'o'
    then add_channel_operator param name
    else (if option == b'k' then set_channel_key param name else set_channel_user_limit param name)

unfoldable pub minus_execute : (name : Str) → (option : ℕ) → (param : Str) → Action (Unit {0})
minus_execute name option param = when (option == b'o') (remove_channel_operator param name)

unfoldable pub execute_options : Sign → (name : Str) → List ℕ → List Str → Action (Unit {0})
execute_options sign name [] params = pure tt
execute_options sign name (o ∷ os) [] = undefined
execute_options plus name (o ∷ os) (p ∷ ps) = do
  plus_execute name o p
  execute_options plus name os ps
execute_options minus name (o ∷ os) (p ∷ ps) = do
  minus_execute name o p
  execute_options minus name os ps

-- The options with no parameter. `-l` leaves the limit as it is.
unfoldable pub execute_flags : Sign → (name : Str) → Options → Action (Unit {0})
execute_flags plus name o = do
  when o.flag_i (update_channel name (set_mode invite_mode))
  when o.flag_t (update_channel name (set_mode topic_mode))
execute_flags minus name o = do
  when o.flag_i (update_channel name (remove_mode invite_mode))
  when o.flag_t (update_channel name (remove_mode topic_mode))
  when o.flag_l (update_channel name (remove_mode limit_mode))
  when o.flag_k (remove_channel_key name)

-- What handlePlusFlagOption and handleMinusFlagOption check before they change the channel.
unfoldable pub check_options :
    Cmd → (me : Client) → Sign → (options : Str) → (param : List Str) → Channel → Action Options
check_options c me sign options param ch = do
  o ← read_options sign options no_options
  demand (leb (length o.use_param_mode) 3) (Reply.err_needmoreparams me.nickname c.cmd_params)
  demand (length param == length o.use_param_mode && leb (length param) 3)
      (Reply.err_needmoreparams me.nickname c.cmd_params)
  validate_options me sign o.use_param_mode param ch
  pure o

-- handlePlusFlagOption and handleMinusFlagOption
unfoldable pub handle_flag_option :
    Cmd → (me : Client) → Sign → (name options : Str) → (param : List Str) → Action (Unit {0})
handle_flag_option c me sign name options param = do
  ch ← channel_at name
  o ← check_options c me sign options param ch
  execute_flags sign name o
  execute_options sign name o.use_param_mode param

-- " a b :c", the last token behind a ':'.
unfoldable pub join_mode : List Str → Str
join_mode [] = []
join_mode (t ∷ []) = codes " :" ++ t
join_mode (t ∷ u ∷ ts) = codes " " ++ t ++ join_mode (u ∷ ts)

unfoldable pub read_sign : Str → Action Sign
read_sign option =
    if first option == b'+'
    then pure plus
    else (if first option == b'-'
        then pure minus
        else refuse (Reply.err_unknownmode (first option ∷ [])))

-- A channel and at least one more token.
unfoldable pub change_mode :
    Env → Cmd → (me : Client) → (name option : Str) → (param : List Str) → Action (Unit {0})
change_mode env c me name option param = do
  sign ← read_sign option
  handle_flag_option c me sign name (drop 1 option) param
  after ← channel_at name
  broadcast_channel env (make_msg me.prefix (codes "MODE" ++ join_mode (name ∷ option ∷ param)))
      after none

-- `modeParse[0]` of an empty vector is undefined.
unfoldable pub mode_params : Env → Cmd → (me : Client) → List Str → Action (Unit {0})
mode_params env c me [] = undefined
mode_params env c me (name ∷ rest) = do
  s ← get
  demand (mem name s.channels) (Reply.err_nosuchchannel me.nickname name)
  ch ← channel_at name
  demand (is_participant me.nickname ch) (Reply.err_notonchannel me.nickname name)
  elim rest [
    | [] ↦ pure tt
    | option ∷ param ↦ do
      demand (is_operator me.nickname ch) (Reply.err_chanoprivsneeded me.nickname name)
      change_mode env c me name option param
  ]

unfoldable pub cmd_mode : Env → Cmd → Action (Unit {0})
cmd_mode env c = do me ← self c; mode_params env c me (tokens c.cmd_params)
