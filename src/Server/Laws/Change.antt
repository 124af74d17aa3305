-- ===== src/Server/Laws/Change.antt =====
-- MODE (src/Cmd/CmdMode.cpp): its checks and the options together.
use ft_irc_refactor.Cmd.Frame.Mode.{check_options-Keeps}
use ft_irc_refactor.Server.Laws.Options.{checked-Valids}
use ft_irc_refactor.Client.{Client}
use ft_irc_refactor.Server.Laws.Room.{checked_then, enter-Room, Room}
use ft_irc_refactor.Cmd.Mode.{
  check_options, minus, plus, Sign, execute_flags, execute_options, handle_flag_option,
}
use ft_irc_refactor.Cmd.Context.{Cmd}
use ft_irc_refactor.Channel.{Channel}
use ft_irc_refactor.Base.{Option-cases, ◌≡◌, refl, inl, inr, List, some, Str, find, ℕ_key, str_key}
use ft_irc_refactor.Server.State.{channel_at, Server, ◌>>=◌, ◌>>◌}
use ft_irc_refactor.Server.Laws.{Lawful}
use ft_irc_refactor.Server.Laws.Mode.{
  With, Agrees, after-Steps, plus_options-Runs, minus_options-Runs, plus_flags-Steps,
  minus_flags-Steps,
}

module _ (c : Cmd) (me : Client) (name options : Str) (ps : List Str) (ch : Channel) (s : Server)
    (there : find name s.channels ≡ some ch) (agrees : Agrees ch.participant s.nick_name_client_map)
    (h : Lawful s) where
  entered : Room name s.nick_name_client_map (With ch.participant) s
  entered = enter-Room name ch (With ch.participant) s there (h.ruled name ch there, refl) h

  quiet_check : (sign : Sign) → (check_options c me sign options ps ch s).1 ≡ s
  quiet_check sign = (check_options-Keeps {P = λ t. t ≡ s} c me sign options ps ch).at s refl

  options-Lawful :
      (sign : Sign)
      → Lawful
          ((check_options c me sign options ps ch >>= λ o.
              (execute_flags sign name o >> execute_options sign name o.use_param_mode ps))
            s).1
  options-Lawful plus = checked_then Lawful _ _ s (quiet_check plus) h λ o e.
      after-Steps name s.nick_name_client_map ch.participant agrees _ _ s
        (plus_flags-Steps name s.nick_name_client_map ch.participant agrees o) entered
        (plus_options-Runs name s.nick_name_client_map ch.participant agrees o.use_param_mode ps
          ((checked-Valids c me options ps ch).at s o e))
  options-Lawful minus = checked_then Lawful _ _ s (quiet_check minus) h λ o e.
      after-Steps name s.nick_name_client_map ch.participant agrees _ _ s
        (minus_flags-Steps name s.nick_name_client_map ch.participant agrees o) entered
        (minus_options-Runs name s.nick_name_client_map ch.participant agrees o.use_param_mode ps)

-- Where the participants of the channels stand in nickNameClientMap.
pub handle_flag_option-Lawful :
    (c : Cmd) (me : Client) (sign : Sign) (name options : Str) (ps : List Str) (s : Server)
    → ((ch : Channel)
        → find name s.channels ≡ some ch
        → Agrees ch.participant s.nick_name_client_map)
    → Lawful s
    → Lawful (handle_flag_option c me sign name options ps s).1
unfolding handle_flag_option channel_at ◌>>=◌
handle_flag_option-Lawful c me sign name options ps s agrees h =
    elim (Option-cases (find name s.channels)) [
      | inl e ↦ rw e h
      | inr (ch, e) ↦ rw e (options-Lawful c me name options ps ch s e (agrees ch e) h sign)
    ]
