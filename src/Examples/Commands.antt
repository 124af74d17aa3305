-- ===== src/Examples/Commands.antt =====
-- Examples for the commands (src/Cmd/).
use ft_irc_refactor.Base.{
  ◌≡◌, ◌≢◌, ◌↔◌, refl, some, false, [], ◌∷◌, Str, codes, find, ℕ_key, str_key,
}
use ft_irc_refactor.Channel.{Channel}
use ft_irc_refactor.Client.{Client}
use ft_irc_refactor.Server.State.{ok, throw, ◌>>=◌, deref}
use ft_irc_refactor.Cmd.Context.{Cmd}
use ft_irc_refactor.Cmd.Dispatch.{Verb, run_verb}
use ft_irc_refactor.Cmd.Register.{cmd_pass}
use ft_irc_refactor.Cmd.Part.{cmd_kick, kick_params, kick}
use ft_irc_refactor.Cmd.Split.{split, split_from}
use ft_irc_refactor.Cmd.Join.{check_join}
use ft_irc_refactor.Cmd.Admission.{Admits, check_join_iff, cmd_pass_iff}
use ft_irc_refactor.Cmd.Guards.{run_verb-unregistered}
use ft_irc_refactor.Cmd.Errors.Verbs.{is_partial, run_verb-unchanged}
use ft_irc_refactor.Server.Net.{make_msg, prefix_server}
use ft_irc_refactor.Reply
use ft_irc_refactor.Examples.{willing, guest, bob, holding, message}

abbrev kicking : Cmd
kicking = message (codes "KICK") (codes "#a carol")

abbrev refusal : Str
refusal = make_msg prefix_server (Reply.err_nosuchchannel (codes "bob") (codes "#a"))

kick-throws : (run_verb willing Verb.kick kicking (holding bob)).0 ≡ throw refusal
unfolding run_verb cmd_kick kick_params kick split split_from ◌>>=◌ deref find
kick-throws = refl

kick-is_partial : is_partial Verb.kick ≡ false
unfolding is_partial
kick-is_partial = refl

run_verb-unchanged_example : (run_verb willing Verb.kick kicking (holding bob)).1 ≡ holding bob
run_verb-unchanged_example =
    run_verb-unchanged willing Verb.kick kicking (holding bob) refusal kick-is_partial kick-throws

there : (c : Client) → find 0 (holding c).heap ≡ some c
unfolding find
there c = refl

join≢mode : Verb.join ≢ Verb.mode
join≢mode e = absurd (cc)

run_verb-unregistered_example :
    (run_verb willing Verb.join (message (codes "JOIN") (codes "#a")) (holding guest)).1.channels
    ≡ []
run_verb-unregistered_example =
    run_verb-unregistered willing (message (codes "JOIN") (codes "#a")) 0 guest (holding guest) refl
      (there guest) refl Verb.join join≢mode

-- A channel of mode +kl with one place left.
abbrev keyed : Channel
keyed = record {
  name = codes "#a";
  key = codes "key";
  topic = [];
  mode = (b'k', tt) ∷ (b'l', tt) ∷ [];
  participant = (codes "carol", 1) ∷ [];
  operator = [];
  limit = some 2;
  invited = [];
}

check_join_iff_example :
    ((check_join (codes "bob") (codes "#a") (codes "key") keyed (holding bob)).0 ≡ ok tt)
    ↔ Admits (codes "bob") (codes "key") keyed
check_join_iff_example = check_join_iff (codes "bob") (codes "#a") (codes "key") keyed (holding bob)

cmd_pass_iff_example :
    ((cmd_pass (message (codes "PASS") (codes "secret")) (holding guest)).0 ≡ ok tt)
    ↔ ((codes "secret" ≢ []) × ((false ≡ false) × (codes "secret" ≡ codes "secret")))
cmd_pass_iff_example =
    cmd_pass_iff (message (codes "PASS") (codes "secret")) 0 guest (holding guest) refl
      (there guest)
