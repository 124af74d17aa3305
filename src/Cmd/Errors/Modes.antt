-- ===== src/Cmd/Errors/Modes.antt =====
-- The state where MODE throws (src/Cmd/CmdMode.cpp).
use ft_irc_refactor.Cmd.Errors.{atomic, sending, checks}
use ft_irc_refactor.Cmd.Context.{Cmd}
use ft_irc_refactor.Server.Effects.{
  Atomic-then, Atomic-Never, Atomic-ReadOnly, Atomic-bind, Atomic, Throws-bind, ReadOnly-raise,
  Throws-undefined, ReadOnly-bind, Throws-pure, ReadOnly-undefined, ReadOnly-option, Never,
  ReadOnly-pure, Throws, ReadOnly,
}
use ft_irc_refactor.Server.State.{◌>>◌, Env}
use ft_irc_refactor.Base.{drop, ℕ, List, [], ◌∷◌, Str}
use ft_irc_refactor.Channel.{Channel}
use ft_irc_refactor.Client.{Client}
use ft_irc_refactor.Cmd.Mode.{
  cmd_mode, mode_params, change_mode, handle_flag_option, sign_option, set_channel_user_limit,
  set_channel_key, remove_channel_key, remove_channel_operator, add_channel_operator, read_sign,
  execute_flags, execute_options, minus_execute, plus_execute, check_options, validate_options,
  validate_option, validation_int, validation_key, validation_nick_name, Options, Sign, plus, minus,
  read_options,
}

read_options-ReadOnly : (sign : Sign) (cs : Str) (o : Options) → ReadOnly (read_options sign cs o)
unfolding read_options
read_options-ReadOnly sign [] o = ReadOnly-pure o
read_options-ReadOnly sign (c ∷ cs) o =
    ReadOnly-option (sign_option sign c o) _ _ (ReadOnly-raise _)
      (λ o'. read_options-ReadOnly sign cs o')

nick_name-ReadOnly :
    (me : Client) (sign : Sign) (nick : Str) (ch : Channel)
    → ReadOnly (validation_nick_name me sign nick ch)
unfolding validation_nick_name
nick_name-ReadOnly me plus nick ch = search checks
nick_name-ReadOnly me minus nick ch = search checks

key-ReadOnly :
    (me : Client) (sign : Sign) (key : Str) (ch : Channel)
    → ReadOnly (validation_key me sign key ch)
unfolding validation_key
key-ReadOnly me plus key ch = search checks depth 10
key-ReadOnly me minus key ch = search checks

int-ReadOnly : (size : Str) → ReadOnly (validation_int size)
unfolding validation_int
int-ReadOnly size = search checks

option-ReadOnly :
    (me : Client) (sign : Sign) (option : ℕ) (param : Str) (ch : Channel)
    → ReadOnly (validate_option me sign option param ch)
unfolding validate_option
option-ReadOnly me sign option param ch =
    search (checks, nick_name-ReadOnly, key-ReadOnly, int-ReadOnly)

validate-ReadOnly :
    (me : Client) (sign : Sign) (os : List ℕ) (ps : List Str) (ch : Channel)
    → ReadOnly (validate_options me sign os ps ch)
unfolding validate_options
validate-ReadOnly me sign [] ps ch = ReadOnly-pure tt
validate-ReadOnly me sign (o ∷ os) [] ch = ReadOnly-undefined
validate-ReadOnly me sign (o ∷ os) (p ∷ ps) ch =
    ReadOnly-bind _ _ (option-ReadOnly me sign o p ch) (λ _. validate-ReadOnly me sign os ps ch)

check_options-ReadOnly :
    (c : Cmd) (me : Client) (sign : Sign) (options : Str) (params : List Str) (ch : Channel)
    → ReadOnly (check_options c me sign options params ch)
unfolding check_options
check_options-ReadOnly c me sign options params ch =
    search (checks, read_options-ReadOnly, validate-ReadOnly) depth 12

plus-Never : (name : Str) (o : ℕ) (p : Str) → Throws Never (plus_execute name o p)
unfolding plus_execute add_channel_operator set_channel_key set_channel_user_limit
plus-Never name o p = search sending depth 12

minus-Never : (name : Str) (o : ℕ) (p : Str) → Throws Never (minus_execute name o p)
unfolding minus_execute remove_channel_operator
minus-Never name o p = search sending depth 12

execute-Never :
    (sign : Sign) (name : Str) (os : List ℕ) (ps : List Str)
    → Throws Never (execute_options sign name os ps)
unfolding execute_options
execute-Never plus name [] ps = Throws-pure tt
execute-Never minus name [] ps = Throws-pure tt
execute-Never plus name (o ∷ os) [] = Throws-undefined
execute-Never minus name (o ∷ os) [] = Throws-undefined
execute-Never plus name (o ∷ os) (p ∷ ps) =
    Throws-bind _ _ (plus-Never name o p) (λ _. execute-Never plus name os ps)
execute-Never minus name (o ∷ os) (p ∷ ps) =
    Throws-bind _ _ (minus-Never name o p) (λ _. execute-Never minus name os ps)

flags-Never : (sign : Sign) (name : Str) (o : Options) → Throws Never (execute_flags sign name o)
unfolding execute_flags remove_channel_key
flags-Never plus name o = search sending depth 12
flags-Never minus name o = search sending depth 14

read_sign-ReadOnly : (option : Str) → ReadOnly (read_sign option)
unfolding read_sign
read_sign-ReadOnly option = search checks

-- What follows the checks.
changes-Never :
    (env : Env) (sign : Sign) (name : Str) (o : Options) (ps : List Str)
    → Throws Never (execute_flags sign name o >> execute_options sign name o.use_param_mode ps)
changes-Never env sign name o ps = search (sending, flags-Never, execute-Never)

handle_flag_option-Atomic :
    (c : Cmd) (me : Client) (sign : Sign) (name options : Str) (params : List Str)
    → Atomic (handle_flag_option c me sign name options params)
unfolding handle_flag_option
handle_flag_option-Atomic c me sign name options params =
    search (atomic, check_options-ReadOnly, Atomic-Never, sending, flags-Never, execute-Never) depth
      12

change_mode-Atomic :
    (env : Env) (c : Cmd) (me : Client) (name option : Str) (params : List Str)
    → Atomic (change_mode env c me name option params)
unfolding change_mode
change_mode-Atomic env c me name option params = Atomic-bind _ _ (read_sign-ReadOnly option) λ sign.
    Atomic-then _ _ (handle_flag_option-Atomic c me sign name (drop 1 option) params)
      (λ _. search sending)

mode_params-Atomic :
    (env : Env) (c : Cmd) (me : Client) (ps : List Str) → Atomic (mode_params env c me ps)
unfolding mode_params
mode_params-Atomic env c me [] = Atomic-ReadOnly _ ReadOnly-undefined
mode_params-Atomic env c me (name ∷ []) = search (atomic, Atomic-Never, sending) depth 14
mode_params-Atomic env c me (name ∷ option ∷ params) = search (atomic, change_mode-Atomic) depth 14

pub cmd_mode-Atomic : (env : Env) (c : Cmd) → Atomic (cmd_mode env c)
unfolding cmd_mode
cmd_mode-Atomic env c = search (atomic, mode_params-Atomic)
