-- ===== src/Server/Laws/Mode.antt =====
-- MODE (src/Cmd/CmdMode.cpp): the options that have passed the checks leave a channel in order.
use ft_irc_refactor.Server.Laws.Methods.{
  set_limit-Ruled, remove_key-Ruled, set_key-Ruled, remove_operator-Ruled, add_operator-Ruled,
  set_mode-Ruled, remove_mode-Ruled,
}
use ft_irc_refactor.Server.Laws.Options.{Valid, Valids}
use ft_irc_refactor.Server.Laws.Room.{
  weaker, Room-Lawful, Runs-then, update_channel-Runs, Runs-when, Room, Runs,
}
use ft_irc_refactor.Cmd.Mode.{
  minus, plus, set_channel_user_limit, remove_channel_key, Options, remove_channel_operator,
  set_channel_key, execute_flags, execute_options, minus_execute, plus_execute,
  add_channel_operator,
}
use ft_irc_refactor.Channel.{
  limit_mode, topic_mode, invite_mode, remove_operator, add_operator, set_limit, operator_mode,
  remove_key, set_key, key_mode, remove_mode, Channel, set_mode, Ptr,
}
use ft_irc_refactor.Base.{
  atoi_unsigned, Bool-cases, Option-cases, false, true, ℕ, ◌≡◌, ◌∙◌, refl, inl, inr, Bool, List, [],
  ◌∷◌, some, Str, Map, is_some, mem, find, ℕ_key, str_key, ap, sym, subst, ◌==◌,
}
use ft_irc_refactor.Server.State.{
  undefined, modify, pure, update_channel, channel_at, when, Server, Action, ◌>>=◌, ◌>>◌,
}
use ft_irc_refactor.Server.Laws.{Ruled, Lawful}

-- The channel is in order, with these participants.
abbrev pub With : Map Str Ptr → Channel → Type 0
With part ch = Ruled ch × (ch.participant ≡ part)

-- The participants stand in nickNameClientMap as the clients they are.
abbrev pub Agrees : (part names : Map Str Ptr) → Type 0
Agrees part names = (n : Str) (p : Ptr) → find n part ≡ some p → find n names ≡ some p

methods : Unit {0}
unfolding set_mode remove_mode set_key remove_key set_limit add_operator remove_operator
methods = tt

module _ (name : Str) (names part : Map Str Ptr) (agrees : Agrees part names) where
  abbrev Here : Server → Type 0
  Here = Room name names (With part)

  abbrev Steps : Action (Unit {0}) → Type 0
  Steps m = Runs Here Here m

  -- One method, and two of them.
  one-Steps :
      (f : Channel → Channel)
      → ((ch : Channel) → Ruled ch → Ruled (f ch))
      → ((ch : Channel) → (f ch).participant ≡ ch.participant)
      → Steps (update_channel name f)
  one-Steps f keeps same = update_channel-Runs f (λ ch (r, e). (keeps ch r, same ch ∙ e))

  two-Steps :
      (f g : Channel → Channel)
      → ((ch : Channel) → Ruled ch → Ruled (g (f ch)))
      → ((ch : Channel) → (g (f ch)).participant ≡ ch.participant)
      → Steps (update_channel name f >> update_channel name g)
  two-Steps f g keeps same =
      Runs-then {Q = Room name names (λ d. With part (g d))} _ _
        (update_channel-Runs f (λ ch (r, e). (keeps ch r, same ch ∙ e)))
        (update_channel-Runs g (λ d h. h))

  when-Steps : (b : Bool) (m : Action (Unit {0})) → Steps m → Steps (when b m)
  when-Steps b m steps = Runs-when b m (λ _. steps) (λ _ s h. h)

  -- The pointer that is found under the nickname is the participant's.
  found_operator :
      (nick : Str) (q : Ptr) (s : Server)
      → find nick s.nick_name_client_map ≡ some q
      → add_channel_operator nick name s
        ≡ (update_channel name (set_mode operator_mode)
              >> update_channel name (add_operator nick q))
            s
  unfolding add_channel_operator ◌>>=◌ update_channel channel_at modify
  found_operator nick q s e = elim (Option-cases (find name s.channels)) [
    | inl f ↦ rw f refl
    | inr (ch, f) ↦ rw (f, e) refl
  ]

  add_channel_operator-Steps :
      (nick : Str) → mem nick part ≡ true → Steps (add_channel_operator nick name)
  unfolding methods
  add_channel_operator-Steps nick there = elim (Option-cases (find nick part)) [
    | inl e ↦ absurd (absent (sym there ∙ ap is_some e))
    | inr (q, e) ↦ record {
      at = λ s r. rw (found_operator nick q s (ap (find nick) r.same ∙ agrees nick q e)) (
          (Runs-then {Q = Here} _ _
              (one-Steps (set_mode operator_mode)
                (λ ch k. set_mode-Ruled operator_mode ch (refl, refl) k) (λ ch. refl))
              (update_channel-Runs (add_operator nick q) (λ ch (k, is). (
                add_operator-Ruled nick q ch (subst (λ m. find nick m ≡ some q) (sym is) e) k,
                is,
              )))).at
            s r);
    }
  ]
    where
      absent : true ≡ false → ⊥
      absent h = cc

  plus_execute-Steps : (o : ℕ) (p : Str) → Valid part o p → Steps (plus_execute name o p)
  unfolding plus_execute set_channel_key set_channel_user_limit methods
  plus_execute-Steps o p (operator, key) = elim (Bool-cases (o == b'o')) [
    | inl e ↦ rw e (add_channel_operator-Steps p (operator e))
    | inr e ↦ elim (Bool-cases (o == b'k')) [
      | inl f ↦
          rw (e, f)
            (two-Steps (set_mode key_mode) (set_key p) (λ ch r. set_key-Ruled p ch (key f) r)
              (λ ch. refl))
      | inr f ↦
          rw (e, f)
            (two-Steps (set_mode limit_mode) (set_limit (atoi_unsigned p))
              (λ ch r. set_limit-Ruled (atoi_unsigned p) ch r) (λ ch. refl))
    ]
  ]

  minus_execute-Steps : (o : ℕ) (p : Str) → Steps (minus_execute name o p)
  unfolding minus_execute remove_channel_operator methods
  minus_execute-Steps o p = when-Steps (o == b'o') _ (
      two-Steps (remove_mode operator_mode) (remove_operator p)
        (λ ch r. remove_operator-Ruled p _ (remove_mode-Ruled operator_mode ch refl r))
        (λ ch. refl))

  -- A step, and what follows it.
  pub after-Steps :
      (m n : Action (Unit {0})) (s : Server)
      → Steps m
      → Here s
      → ((t : Server) → Here t → Lawful (n t).1)
      → Lawful ((m >> n) s).1
  unfolding ◌>>=◌
  after-Steps m n s steps r next = let (ends, here) = steps.at s r in rw ends (next (m s).1 here)

  pub plus_options-Runs :
      (os : List ℕ) (ps : List Str)
      → Valids part os ps
      → (s : Server) → Here s
      → Lawful (execute_options plus name os ps s).1
  unfolding execute_options Valids pure undefined
  plus_options-Runs [] ps valid s r = Room-Lawful name names s (weaker (λ ch h. h.0) s r)
  plus_options-Runs (o ∷ os) [] valid s r = Room-Lawful name names s (weaker (λ ch h. h.0) s r)
  plus_options-Runs (o ∷ os) (p ∷ ps) (valid, rest) s r =
      after-Steps (plus_execute name o p) _ s (plus_execute-Steps o p valid) r
        (λ t here. plus_options-Runs os ps rest t here)

  pub minus_options-Runs :
      (os : List ℕ) (ps : List Str) (s : Server)
      → Here s
      → Lawful (execute_options minus name os ps s).1
  unfolding execute_options pure undefined
  minus_options-Runs [] ps s r = Room-Lawful name names s (weaker (λ ch h. h.0) s r)
  minus_options-Runs (o ∷ os) [] s r = Room-Lawful name names s (weaker (λ ch h. h.0) s r)
  minus_options-Runs (o ∷ os) (p ∷ ps) s r =
      after-Steps (minus_execute name o p) _ s (minus_execute-Steps o p) r
        (λ t here. minus_options-Runs os ps t here)

  pub plus_flags-Steps : (o : Options) → Steps (execute_flags plus name o)
  unfolding execute_flags methods
  plus_flags-Steps o =
      Runs-then {Q = Here} _ _
        (when-Steps o.flag_i _ (
          one-Steps (set_mode invite_mode) (λ ch r. set_mode-Ruled invite_mode ch (refl, refl) r)
            (λ ch. refl)))
        (when-Steps o.flag_t _ (
          one-Steps (set_mode topic_mode) (λ ch r. set_mode-Ruled topic_mode ch (refl, refl) r)
            (λ ch. refl)))

  cleared-Steps :
      (b : Bool) (c : ℕ)
      → (c == key_mode) ≡ false
      → Steps (when b (update_channel name (remove_mode c)))
  unfolding methods
  cleared-Steps b c other =
      when-Steps b _
        (one-Steps (remove_mode c) (λ ch r. remove_mode-Ruled c ch other r) (λ ch. refl))

  pub minus_flags-Steps : (o : Options) → Steps (execute_flags minus name o)
  unfolding execute_flags remove_channel_key methods
  minus_flags-Steps o = Runs-then {Q = Here} _ _ (cleared-Steps o.flag_i invite_mode refl) (
      Runs-then {Q = Here} _ _ (cleared-Steps o.flag_t topic_mode refl) (
        Runs-then {Q = Here} _ _ (cleared-Steps o.flag_l limit_mode refl) (
          when-Steps o.flag_k _ (
            two-Steps (remove_mode key_mode) remove_key (λ ch r. remove_key-Ruled ch r)
              (λ ch. refl)))))
