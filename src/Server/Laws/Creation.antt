-- ===== src/Server/Laws/Creation.antt =====
-- JOIN (src/Cmd/CmdJoin.cpp): the creator of a channel is its operator, and then its participant.
use ft_irc_refactor.Server.Net.{set_mode_unless_nul}
use ft_irc_refactor.Cmd.Join.{check_limit, check_join, is_no_key}
use ft_irc_refactor.Channel.{
  limit_mode, invite_mode, add_operator, new_channel, has_mode, key_mode, is_set_key, Channel,
  set_key, add_participant, Ptr, set_mode,
}
use ft_irc_refactor.Base.{
  not_found, str_eq, not_both, find-insert, insert, str_eq_iff, Bool-cases, is_empty,
  find-assign_cases, false, ℕ, ◌≡◌, ◌∙◌, refl, inl, inr, not, ◌||◌, ◌&&◌, [], Option, none, some,
  Str, find, assign, ℕ_key, str_key, ap, subst, if◌then◌else◌, arith,
}
use ft_irc_refactor.Server.State.{Server, pure, ok, ◌>>=◌}
use ft_irc_refactor.Server.Laws.{Ruled}

methods : Unit {0}
unfolding set_mode set_key set_mode_unless_nul new_channel add_operator is_set_key
methods = tt

-- The channel that createChannel makes, of this key, without and with its operator.
abbrev pub blank : (name key : Str) → Channel
blank name key =
    let stored : Str = if is_no_key key then [] else key in
    let mode : Option ℕ = if is_no_key key then none else some key_mode in
    set_mode_unless_nul mode
      (if is_empty stored then new_channel name else set_key stored (new_channel name))

abbrev pub made : (p : Ptr) → (nick name key : Str) → Channel
made p nick name key = add_operator nick p (blank name key)

-- It has the key that was given, if it has one, and no other mode.
pub record Fresh (p : Ptr) (nick key : Str) (ch : Channel) : Type 0 where
  invite : has_mode invite_mode ch ≡ false
  limit : has_mode limit_mode ch ≡ false
  keyed : has_mode key_mode ch ≡ is_set_key ch
  fits : (has_mode key_mode ch && (is_empty key || not (str_eq key ch.key))) ≡ false
  operators : (n : Str) (q : Ptr) → find n ch.operator ≡ some q → (nick ≡ n) × (p ≡ q)
  empty : ch.participant ≡ []

nothing : (n : Str) (q : Ptr) → find n [] ≡ some q → ⊥
unfolding find
nothing n q e = not_found e

only_one : (nick n : Str) (p q : Ptr) → find n (assign nick p []) ≡ some q → (nick ≡ n) × (p ≡ q)
only_one nick n p q e = elim (find-assign_cases nick n p q [] e) [
  | inl h ↦ h
  | inr h ↦ absurd (nothing n q h)
]

filled : (key : Str) → is_no_key key ≡ false → is_empty key ≡ false
filled key e = ground arith

pub made-Fresh : (p : Ptr) (nick name key : Str) → Fresh p nick key (made p nick name key)
unfolding methods find insert assign
made-Fresh p nick name key = elim (Bool-cases (is_no_key key)) [
  | inl e ↦ rw e (record {
    invite = refl;
    limit = refl;
    keyed = refl;
    fits = refl;
    operators = λ n q h. only_one nick n p q h;
    empty = refl;
  })
  | inr e ↦
      let some_byte = filled key e in
      rw (e, some_byte)
        (record {
          invite = refl;
          limit = refl;
          keyed = rw some_byte refl;
          fits = rw (some_byte, (str_eq_iff key key).1 refl) refl;
          operators = λ n q h. only_one nick n p q h;
          empty = refl;
        })
]

-- With its creator in it, it is in order.
pub joined-Ruled :
    (p : Ptr) (nick key : Str) (ch : Channel)
    → Fresh p nick key ch
    → Ruled (add_participant nick p ch)
unfolding add_participant is_set_key find
joined-Ruled p nick key ch f = record {
  operators = λ n q e.
      let (same, ptr) = f.operators n q e in
      rw f.empty (subst (λ x. find x (insert nick p []) ≡ some q) same (first ∙ ap some ptr));
  keyed = f.keyed;
  limited = λ e. absurd (not_both e f.limit);
}
  where
    first : find nick (insert nick p []) ≡ some p
    first = find-insert nick nick p [] ∙ rw ((str_eq_iff nick nick).1 refl) refl

-- The checks let its creator in.
pub passes :
    (p : Ptr) (nick name key : Str) (ch : Channel) (s : Server)
    → Fresh p nick key ch
    → check_join nick name key ch s ≡ (ok tt, s)
unfolding check_join check_limit ◌>>=◌ pure
passes p nick name key ch s f = rw (f.invite, f.fits, f.limit) refl
