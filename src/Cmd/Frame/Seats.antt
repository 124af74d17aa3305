-- ===== src/Cmd/Frame/Seats.antt =====
-- What the methods of Channel (src/Channel.cpp) do to the participants.
use ft_irc_refactor.Base.{
  Once, erase-Once, find-erase, erase, ℕ, ◌≡◌, refl, some, Str, Map, find, ℕ_key, str_key, ap, sym,
  subst, arith,
}
use ft_irc_refactor.Cmd.Frame.{SameSeats, Plain}
use ft_irc_refactor.Channel.{
  remove_participant, remove_invited, remove_mode, remove_key, remove_operator, add_operator,
  add_invited, set_limit, set_mode, set_topic, set_key, Ptr, Channel,
}

-- A change of a channel in which nobody enters it.
pub record NoEntry (f : Channel → Channel) : Type 0 where
  pub entry :
      (ch : Channel) (n : Str) (p : Ptr)
      → find n (f ch).participant ≡ some p
      → find n ch.participant ≡ some p
  pub once : (ch : Channel) → Once ch.participant → Once (f ch).participant

methods : Unit {0}
unfolding set_key set_topic set_mode set_limit add_invited add_operator remove_operator remove_key
    remove_mode remove_participant remove_invited
methods = tt

pub set_key-SameSeats : (key : Str) → SameSeats (set_key key)
unfolding methods
set_key-SameSeats key = record { same = λ ch. refl }

pub set_topic-SameSeats : (topic : Str) → SameSeats (set_topic topic)
unfolding methods
set_topic-SameSeats topic = record { same = λ ch. refl }

pub set_mode-SameSeats : (c : ℕ) → SameSeats (set_mode c)
unfolding methods
set_mode-SameSeats c = record { same = λ ch. refl }

pub set_limit-SameSeats : (limit : ℕ) → SameSeats (set_limit limit)
unfolding methods
set_limit-SameSeats limit = record { same = λ ch. refl }

pub add_invited-SameSeats : (nick : Str) → SameSeats (add_invited nick)
unfolding methods
add_invited-SameSeats nick = record { same = λ ch. refl }

pub add_operator-SameSeats : (nick : Str) (q : Ptr) → SameSeats (add_operator nick q)
unfolding methods
add_operator-SameSeats nick q = record { same = λ ch. refl }

pub remove_operator-SameSeats : (nick : Str) → SameSeats (remove_operator nick)
unfolding methods
remove_operator-SameSeats nick = record { same = λ ch. refl }

pub remove_key-SameSeats : SameSeats remove_key
unfolding methods
remove_key-SameSeats = record { same = λ ch. refl }

pub remove_mode-SameSeats : (c : ℕ) → SameSeats (remove_mode c)
unfolding methods
remove_mode-SameSeats c = record { same = λ ch. refl }

pub remove_invited-SameSeats : (nick : Str) → SameSeats (remove_invited nick)
unfolding methods
remove_invited-SameSeats nick = record { same = λ ch. refl }

pub set_topic-Plain : (topic : Str) → Plain (set_topic topic)
unfolding methods
set_topic-Plain topic = record { rest = λ ch. refl }

pub add_invited-Plain : (nick : Str) → Plain (add_invited nick)
unfolding methods
add_invited-Plain nick = record { rest = λ ch. refl }

pub remove_invited-Plain : (nick : Str) → Plain (remove_invited nick)
unfolding methods
remove_invited-Plain nick = record { rest = λ ch. refl }

pub ruleset plain_changes = (set_topic-Plain, add_invited-Plain, remove_invited-Plain)

pub Plain-SameSeats : (f : Channel → Channel) → Plain f → SameSeats f
Plain-SameSeats f plain = record { same = λ ch. ap Channel.participant (plain.rest ch) }

pub SameSeats-NoEntry : (f : Channel → Channel) → SameSeats f → NoEntry f
SameSeats-NoEntry f seats = record {
  entry = λ ch n p e. subst (λ m. find n m ≡ some p) (seats.same ch) e;
  once = λ ch o. subst Once (sym (seats.same ch)) o;
}

pub kept_one :
    {V : Type 0} (nick n : Str) (p : V) (m : Map Str V)
    → find n (erase nick m) ≡ some p
    → find n m ≡ some p
kept_one nick n p m e = ground (arith, find-erase nick n m)

pub remove_participant-NoEntry : (nick : Str) → NoEntry (remove_participant nick)
unfolding methods
remove_participant-NoEntry nick = record {
  entry = λ ch n p e. kept_one nick n p ch.participant e;
  once = λ ch o. erase-Once nick ch.participant o;
}

pub ruleset same_seats = (
  set_key-SameSeats, set_topic-SameSeats, set_mode-SameSeats, set_limit-SameSeats,
  add_invited-SameSeats, add_operator-SameSeats, remove_operator-SameSeats, remove_key-SameSeats,
  remove_mode-SameSeats, remove_invited-SameSeats,
)
