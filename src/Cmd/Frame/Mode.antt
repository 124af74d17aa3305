-- ===== src/Cmd/Frame/Mode.antt =====
-- MODE (src/Cmd/CmdMode.cpp) inside a frame.
use ft_irc_refactor.Base.{ℕ, List, [], ◌∷◌, Str, str_key}
use ft_irc_refactor.Client.{Client}
use ft_irc_refactor.Channel.{Channel}
use ft_irc_refactor.Server.State.{Env, Server}
use ft_irc_refactor.Server.Keeps.{Keeps, Keeps-option, Keeps-bind, keeps_rules}
use ft_irc_refactor.Cmd.Context.{Cmd}
use ft_irc_refactor.Cmd.Mode.{
  cmd_mode, mode_params, change_mode, read_sign, handle_flag_option, check_options, execute_flags,
  execute_options, plus_execute, minus_execute, set_channel_key, set_channel_user_limit,
  add_channel_operator, remove_channel_operator, remove_channel_key, read_options, sign_option,
  validate_options, validate_option, validation_nick_name, validation_key, validation_int, Sign,
  plus, minus, Options,
}
use ft_irc_refactor.Cmd.Frame.{Quiet, Updates}
use ft_irc_refactor.Cmd.Frame.Acts.{act}
use ft_irc_refactor.Cmd.Frame.Seats.{same_seats}

module _ {P : Server → Type 0} where
  -- The checks of MODE change nothing, so they keep everything.
  read_options-Keeps : (sign : Sign) (cs : Str) (o : Options) → Keeps P (read_options sign cs o)
  unfolding read_options
  read_options-Keeps sign [] o = search keeps_rules
  read_options-Keeps sign (c ∷ cs) o =
      Keeps-option (sign_option sign c o) _ (read_options sign cs) (search keeps_rules)
        (read_options-Keeps sign cs)

  nick_name-Keeps :
      (me : Client) (sign : Sign) (nick : Str) (ch : Channel)
      → Keeps P (validation_nick_name me sign nick ch)
  unfolding validation_nick_name
  nick_name-Keeps me plus nick ch = search keeps_rules
  nick_name-Keeps me minus nick ch = search keeps_rules

  key-Keeps :
      (me : Client) (sign : Sign) (key : Str) (ch : Channel)
      → Keeps P (validation_key me sign key ch)
  unfolding validation_key
  key-Keeps me plus key ch = search keeps_rules depth 10
  key-Keeps me minus key ch = search keeps_rules

  int-Keeps : (size : Str) → Keeps P (validation_int size)
  unfolding validation_int
  int-Keeps size = search keeps_rules depth 10

  validate_option-Keeps :
      (me : Client) (sign : Sign) (o : ℕ) (param : Str) (ch : Channel)
      → Keeps P (validate_option me sign o param ch)
  unfolding validate_option
  validate_option-Keeps me sign o param ch =
      search (keeps_rules, nick_name-Keeps, key-Keeps, int-Keeps)

  validate_options-Keeps :
      (me : Client) (sign : Sign) (os : List ℕ) (params : List Str) (ch : Channel)
      → Keeps P (validate_options me sign os params ch)
  unfolding validate_options
  validate_options-Keeps me sign [] params ch = search keeps_rules
  validate_options-Keeps me sign (o ∷ os) [] ch = search keeps_rules
  validate_options-Keeps me sign (o ∷ os) (p ∷ ps) ch =
      Keeps-bind _ _ (validate_option-Keeps me sign o p ch)
        (λ _. validate_options-Keeps me sign os ps ch)

  pub check_options-Keeps :
      (c : Cmd) (me : Client) (sign : Sign) (options : Str) (param : List Str) (ch : Channel)
      → Keeps P (check_options c me sign options param ch)
  unfolding check_options
  check_options-Keeps c me sign options param ch =
      search (keeps_rules, read_options-Keeps, validate_options-Keeps) depth 12

  pub read_sign-Keeps : (option : Str) → Keeps P (read_sign option)
  unfolding read_sign
  read_sign-Keeps option = search keeps_rules depth 8

module _ {P : Server → Type 0} (quiet : Quiet P) (updates : Updates P) where
  plus_execute-Keeps : (name : Str) (o : ℕ) (param : Str) → Keeps P (plus_execute name o param)
  unfolding plus_execute add_channel_operator set_channel_key set_channel_user_limit
  plus_execute-Keeps name o param = search (act, updates, same_seats) depth 10

  minus_execute-Keeps : (name : Str) (o : ℕ) (param : Str) → Keeps P (minus_execute name o param)
  unfolding minus_execute remove_channel_operator
  minus_execute-Keeps name o param = search (act, updates, same_seats) depth 10

  execute_options-Keeps :
      (sign : Sign) (name : Str) (os : List ℕ) (params : List Str)
      → Keeps P (execute_options sign name os params)
  unfolding execute_options
  execute_options-Keeps plus name [] params = search act
  execute_options-Keeps minus name [] params = search act
  execute_options-Keeps plus name (o ∷ os) [] = search act
  execute_options-Keeps minus name (o ∷ os) [] = search act
  execute_options-Keeps plus name (o ∷ os) (p ∷ ps) =
      Keeps-bind _ _ (plus_execute-Keeps name o p) (λ _. execute_options-Keeps plus name os ps)
  execute_options-Keeps minus name (o ∷ os) (p ∷ ps) =
      Keeps-bind _ _ (minus_execute-Keeps name o p) (λ _. execute_options-Keeps minus name os ps)

  execute_flags-Keeps :
      (sign : Sign) (name : Str) (o : Options) → Keeps P (execute_flags sign name o)
  unfolding execute_flags remove_channel_key
  execute_flags-Keeps plus name o = search (act, updates, same_seats) depth 14
  execute_flags-Keeps minus name o = search (act, updates, same_seats) depth 14

  pub handle_flag_option-Keeps :
      (c : Cmd) (me : Client) (sign : Sign) (name options : Str) (param : List Str)
      → Keeps P (handle_flag_option c me sign name options param)
  unfolding handle_flag_option
  handle_flag_option-Keeps c me sign name options param =
      search (act, check_options-Keeps, execute_flags-Keeps, execute_options-Keeps) depth 12

-- For an invariant that the change of the options keeps.
module _ {P : Server → Type 0} (quiet : Quiet P)
    (change : (c : Cmd) (me : Client) (sign : Sign) (name options : Str) (param : List Str)
      → Keeps P (handle_flag_option c me sign name options param)) where
  change_mode-Keeps :
      (env : Env) (c : Cmd) (me : Client) (name option : Str) (param : List Str)
      → Keeps P (change_mode env c me name option param)
  unfolding change_mode
  change_mode-Keeps env c me name option param = search (act, read_sign-Keeps, change) depth 12

  mode_params-Keeps :
      (env : Env) (c : Cmd) (me : Client) (ts : List Str) → Keeps P (mode_params env c me ts)
  unfolding mode_params
  mode_params-Keeps env c me [] = search act
  mode_params-Keeps env c me (name ∷ []) = search act depth 14
  mode_params-Keeps env c me (name ∷ option ∷ param) = search (act, change_mode-Keeps) depth 16

  pub cmd_mode-Keeps : (env : Env) (c : Cmd) → Keeps P (cmd_mode env c)
  unfolding cmd_mode
  cmd_mode-Keeps env c = search (act, mode_params-Keeps) depth 8
