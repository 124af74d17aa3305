-- ===== src/Server/Laws/Methods.antt =====
-- What the methods of Channel (src/Channel.cpp) do to the operators, the key and the limit.
use ft_irc_refactor.Server.Members.Renaming.{left_over}
use ft_irc_refactor.Channel.{
  is_set_key, remove_participant, add_participant, remove_operator, add_operator, set_limit,
  remove_key, remove_mode, limit_mode, set_mode, Ptr, Channel, key_mode, set_key,
}
use ft_irc_refactor.Base.{
  find-insert, str_eq_iff, insert, find-assign_cases, mem-erase, mem-insert, is_empty, false, true,
  ℕ, ◌≡◌, ◌∙◌, refl, inl, inr, Bool, some, Str, Map, find, ℕ_key, str_key, sym, subst,
  if◌then◌else◌, arith, ◌==◌,
}
use ft_irc_refactor.Server.Laws.{Ruled}

methods : Unit {0}
unfolding set_key set_mode set_limit add_participant add_operator remove_operator remove_key
    remove_mode remove_participant is_set_key
methods = tt

-- A mode without a meaning here.
abbrev pub Other : ℕ → Type 0
Other c = ((c == key_mode) ≡ false) × ((c == limit_mode) ≡ false)

pub set_mode-Ruled : (c : ℕ) (ch : Channel) → Other c → Ruled ch → Ruled (set_mode c ch)
unfolding methods
set_mode-Ruled c ch (key, limit) r = record {
  operators = r.operators;
  keyed = rw (mem-insert c key_mode tt ch.mode, key) r.keyed;
  limited = rw (mem-insert c limit_mode tt ch.mode, limit) r.limited;
}

pub remove_mode-Ruled :
    (c : ℕ) (ch : Channel) → (c == key_mode) ≡ false → Ruled ch → Ruled (remove_mode c ch)
unfolding methods
remove_mode-Ruled c ch key r = record {
  operators = r.operators;
  keyed = rw (mem-erase c key_mode ch.mode, key) r.keyed;
  limited =
      λ e. r.limited (one_left (c == limit_mode) _ (sym (mem-erase c limit_mode ch.mode) ∙ e));
}
  where
    one_left : (b m : Bool) → (if b then false else m) ≡ true → m ≡ true
    one_left true m e = absurd (cc)
    one_left false m e = e

-- setMode and setKey, and removeMode and removeKey.
pub set_key-Ruled :
    (key : Str) (ch : Channel)
    → is_empty key ≡ false
    → Ruled ch
    → Ruled (set_key key (set_mode key_mode ch))
unfolding methods
set_key-Ruled key ch some_byte r = record {
  operators = r.operators;
  keyed = rw (mem-insert key_mode key_mode tt ch.mode, some_byte) refl;
  limited = rw (mem-insert key_mode limit_mode tt ch.mode) r.limited;
}

pub remove_key-Ruled : (ch : Channel) → Ruled ch → Ruled (remove_key (remove_mode key_mode ch))
unfolding methods
remove_key-Ruled ch r = record {
  operators = r.operators;
  keyed = mem-erase key_mode key_mode ch.mode;
  limited = rw (mem-erase key_mode limit_mode ch.mode) r.limited;
}

-- setMode and setLimit.
pub set_limit-Ruled :
    (n : ℕ) (ch : Channel) → Ruled ch → Ruled (set_limit n (set_mode limit_mode ch))
unfolding methods
set_limit-Ruled n ch r = record {
  operators = r.operators;
  keyed = rw (mem-insert limit_mode key_mode tt ch.mode) r.keyed;
  limited = λ e. refl;
}

-- A participant becomes an operator.
pub add_operator-Ruled :
    (nick : Str) (p : Ptr) (ch : Channel)
    → find nick ch.participant ≡ some p
    → Ruled ch
    → Ruled (add_operator nick p ch)
unfolding methods
add_operator-Ruled nick p ch seat r = record {
  operators = λ n q e. elim (find-assign_cases nick n p q ch.operator e) [
    | inl (same, ptr) ↦
        subst (λ x. find x ch.participant ≡ some q) same
          (subst (λ x. find nick ch.participant ≡ some x) ptr seat)
    | inr old ↦ r.operators n q old
  ];
  keyed = r.keyed;
  limited = r.limited;
}

pub remove_operator-Ruled : (nick : Str) (ch : Channel) → Ruled ch → Ruled (remove_operator nick ch)
unfolding methods
remove_operator-Ruled nick ch r = record {
  operators = λ n p e. r.operators n p (left_over nick n p ch.operator e).1;
  keyed = r.keyed;
  limited = r.limited;
}

-- A new participant, if there is none of the nickname; otherwise nothing changes.
pub add_participant-Ruled :
    (nick : Str) (p : Ptr) (ch : Channel) → Ruled ch → Ruled (add_participant nick p ch)
unfolding methods
add_participant-Ruled nick p ch r = record {
  operators = λ n q e. still nick n p q ch.participant (r.operators n q e);
  keyed = r.keyed;
  limited = r.limited;
}
  where
    still :
        (nick n : Str) (p q : Ptr) (m : Map Str Ptr)
        → find n m ≡ some q
        → find n (insert nick p m) ≡ some q
    still nick n p q m e = ground (arith, str_eq_iff nick n, find-insert nick n p m, e)
