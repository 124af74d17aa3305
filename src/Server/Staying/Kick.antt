-- ===== src/Server/Staying/Kick.antt =====
-- KICK (src/Cmd/CmdKick.cpp): whoever leaves does so at the word of an operator of the channel.
use ft_irc_refactor.Server.Keeps.{and_then-at}
use ft_irc_refactor.Cmd.Frame.Cast.{broadcast_channel-Keeps}
use ft_irc_refactor.Server.Net.{make_msg, broadcast_channel}
use ft_irc_refactor.Cmd.Dispatch.{Verb, verb_of}
use ft_irc_refactor.Cmd.Part.{leave_channel, kick, kick_params, cmd_kick, kick_comment}
use ft_irc_refactor.Client.{Client}
use ft_irc_refactor.Channel.{is_participant, is_operator, Channel, Ptr}
use ft_irc_refactor.Cmd.Context.{demand, Cmd}
use ft_irc_refactor.Base.{
  Option-cases, false, true, ◌≡◌, refl, inl, inr, Bool, List, [], ◌∷◌, Option, none, some, Str,
  find, ℕ_key, str_key,
}
use ft_irc_refactor.Server.State.{
  get, deref, Env, channel_at, Action, raise, Server, pure, ◌>>=◌, ◌>>◌,
}
use ft_irc_refactor.Reply
use ft_irc_refactor.Server.Staying.{Stays, Stays-Quiet}
use ft_irc_refactor.Server.Staying.Departure.{leave_channel-at}

-- The command is a KICK from a registered client that is an operator of the channel.
pub record Kicked (c : Cmd) (s : Server) (name : Str) : Type 0 where
  pub p : Ptr
  pub me : Client
  pub ch : Channel
  pub given : c.client ≡ some p
  pub there : find p s.heap ≡ some me
  pub registered : me.registered ≡ true
  pub held : find name s.channels ≡ some ch
  pub operator : is_operator me.nickname ch ≡ true
  pub verb : verb_of c.cmd ≡ Verb.kick

-- What follows a test.
pub guard-at :
    (P : Server → Type 0) (b : Bool) (text : Str) (n : Action (Unit {0})) (s : Server)
    → P s
    → (b ≡ true → P (n s).1)
    → P ((demand b text >> n) s).1
unfolding ◌>>=◌ pure raise
guard-at P true text n s h next = next refl
guard-at P false text n s h next = h

-- And what reads the state.
pub read-at :
    (P : Server → Type 0) (f : Server → Action (Unit {0})) (s : Server)
    → P (f s s).1
    → P ((get >>= f) s).1
unfolding ◌>>=◌
read-at P f s h = h

-- The parts of `kick`, from its end on.
abbrev pub sent_off : Env → (me : Client) → (name target : Str) → Channel → Action (Unit {0})
sent_off env me name target ch = do
  broadcast_channel env (make_msg me.prefix (Reply.rpl_kick name target kick_comment)) ch none
  leave_channel target name

abbrev pub behind_channel : Env → (me : Client) → (name target : Str) → Channel → Action (Unit {0})
behind_channel env me name target ch = do
  demand (is_participant me.nickname ch) (Reply.err_notonchannel me.nickname name)
  demand (is_operator me.nickname ch) (Reply.err_chanoprivsneeded me.nickname name)
  demand (is_participant target ch) (Reply.err_usernotinchannel me.nickname target name)
  sent_off env me name target ch

abbrev pub behind_name : Env → (me : Client) → (name target : Str) → Action (Unit {0})
behind_name env me name target = do ch ← channel_at name; behind_channel env me name target ch

module _ (own : Option Ptr) (excused : Str → Type 0) (before : Server) where
  abbrev Stay : Server → Type 0
  Stay = Stays own excused before

  sent_off-at :
      (env : Env) (me : Client) (name target : Str) (ch : Channel) (s : Server)
      → excused name
      → Stay s
      → Stay (sent_off env me name target ch s).1
  unfolding ◌>>=◌
  sent_off-at env me name target ch s free h =
      let message = make_msg me.prefix (Reply.rpl_kick name target kick_comment) in
      let told =
        (broadcast_channel-Keeps (Stays-Quiet own excused before) env message ch none).at s h in
      and_then-at Stay (broadcast_channel env message ch none s).0 _ _ told
        (λ _. leave_channel-at own excused before target name _ (λ d q held seat. inr free) told)

  abbrev Excuses : Client → Str → Server → Type 0
  Excuses me name s =
      (ch : Channel)
      → find name s.channels ≡ some ch
      → is_operator me.nickname ch ≡ true
      → excused name

  behind_channel-at :
      (env : Env) (me : Client) (name target : Str) (ch : Channel) (s : Server)
      → (is_operator me.nickname ch ≡ true → excused name)
      → Stay s
      → Stay (behind_channel env me name target ch s).1
  behind_channel-at env me name target ch s excuse h = guard-at Stay _ _ _ s h λ _.
      guard-at Stay _ _ _ s h λ operator.
        guard-at Stay _ _ _ s h λ _. sent_off-at env me name target ch s (excuse operator) h

  behind_name-at :
      (env : Env) (me : Client) (name target : Str) (s : Server)
      → Excuses me name s
      → Stay s
      → Stay (behind_name env me name target s).1
  unfolding ◌>>=◌ channel_at
  behind_name-at env me name target s excuse h = elim (Option-cases (find name s.channels)) [
    | inl e ↦ rw e h
    | inr (ch, e) ↦
        rw e (behind_channel-at env me name target ch s (λ operator. excuse ch e operator) h)
  ]

  kick-at :
      (env : Env) (me : Client) (name target : Str) (s : Server)
      → Excuses me name s
      → Stay s
      → Stay (kick env me name target s).1
  unfolding kick
  kick-at env me name target s excuse h = guard-at Stay _ _ _ s h λ _.
      read-at Stay _ s (guard-at Stay _ _ _ s h λ _. behind_name-at env me name target s excuse h)

  params-at :
      (env : Env) (c : Cmd) (me : Client) (ts : List Str) (s : Server)
      → ((name : Str) → Excuses me name s)
      → Stay s
      → Stay (kick_params env c me ts s).1
  unfolding kick_params raise
  params-at env c me (ch ∷ target ∷ []) s excuse h = kick-at env me ch target s (excuse ch) h
  params-at env c me (ch ∷ target ∷ comment ∷ []) s excuse h =
      kick-at env me ch target s (excuse ch) h
  params-at env c me _ s excuse h = h

  -- What the client that gives the command has to be.
  abbrev Excuse : Option Ptr → Type 0
  Excuse o =
      (p : Ptr) (me : Client) (name : Str) (ch : Channel)
      → o ≡ some p
      → find p before.heap ≡ some me
      → me.registered ≡ true
      → find name before.channels ≡ some ch
      → is_operator me.nickname ch ≡ true
      → excused name

  cmd_kick_from :
      (env : Env) (c : Cmd) (o : Option Ptr)
      → c.client ≡ o
      → Excuse o
      → Stay before
      → Stay (cmd_kick env c before).1
  unfolding cmd_kick ◌>>=◌ deref
  cmd_kick_from env c none is excuse h = rw is h
  cmd_kick_from env c (some p) is excuse h = elim (Option-cases (find p before.heap)) [
    | inl e ↦ rw (is, e) h
    | inr (me, e) ↦
        rw (is, e)
          (guard-at Stay _ _ _ before h λ old.
            params-at env _ me _ before (λ name ch held op. excuse p me name ch refl e old held op)
              h)
  ]

-- Only participants of a channel that the client is an operator of may leave.
pub cmd_kick-Stays :
    (own : Option Ptr) (before : Server) (env : Env) (c : Cmd)
    → verb_of c.cmd ≡ Verb.kick
    → Stays own (Kicked c before) before (cmd_kick env c before).1
cmd_kick-Stays own before env c verb =
    cmd_kick_from own (Kicked c before) before env c c.client refl
      (λ p me name ch given there registered held operator. record {
        p = p;
        me = me;
        ch = ch;
        given = given;
        there = there;
        registered = registered;
        held = held;
        operator = operator;
        verb = verb;
      })
      (λ name q here. inr (inr here))
