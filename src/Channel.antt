-- ===== src/Channel.antt =====
-- include/Channel.hpp and src/Channel.cpp. A `Client*` is an address in the server's heap.
use ft_irc_refactor.Base.{
  ℕ, Bool, not, if◌then◌else◌, List, [], ◌∷◌, ◌++◌, Option, none, some, Str, str_eq, Map, ℕ_key,
  str_key, assign, insert, erase, mem, filter_by, is_empty,
}

abbrev pub Ptr : Type 0
Ptr = ℕ

abbrev pub Set : Type 0 → Type 0
Set K = Map K (Unit {0})

-- INVITE_MODE, TOPIC_MODE, KEY_MODE, OPERATOR_MODE, LIMIT_MODE and DEFAULT_LIMIT
abbrev pub invite_mode : ℕ
invite_mode = b'i'

abbrev pub topic_mode : ℕ
topic_mode = b't'

abbrev pub key_mode : ℕ
key_mode = b'k'

abbrev pub operator_mode : ℕ
operator_mode = b'o'

abbrev pub limit_mode : ℕ
limit_mode = b'l'

-- The constructor leaves `_limit` unwritten: `none` is that indeterminate value.
pub record Channel : Type 0 where
  pub name : Str
  pub key : Str
  pub topic : Str
  pub mode : Set ℕ
  pub participant : Map Str Ptr
  pub operator : Map Str Ptr
  pub limit : Option ℕ
  pub invited : List Str

unfoldable pub new_channel : Str → Channel
new_channel name = record {
  name = name;
  key = [];
  topic = [];
  mode = [];
  participant = [];
  operator = [];
  limit = none;
  invited = [];
}

unfoldable pub set_key : Str → Channel → Channel
set_key key ch = record ch { key = key }

unfoldable pub set_topic : Str → Channel → Channel
set_topic topic ch = record ch { topic = topic }

unfoldable pub set_mode : ℕ → Channel → Channel
set_mode c ch = record ch { mode = insert c tt ch.mode }

unfoldable pub add_participant : Str → Ptr → Channel → Channel
add_participant nick p ch = record ch { participant = insert nick p ch.participant }

unfoldable pub set_limit : ℕ → Channel → Channel
set_limit n ch = record ch { limit = some n }

unfoldable pub add_invited : Str → Channel → Channel
add_invited nick ch = record ch { invited = ch.invited ++ nick ∷ [] }

unfoldable pub add_operator : Str → Ptr → Channel → Channel
add_operator nick p ch = record ch { operator = assign nick p ch.operator }

unfoldable pub remove_operator : Str → Channel → Channel
remove_operator nick ch = record ch { operator = erase nick ch.operator }

unfoldable pub remove_key : Channel → Channel
remove_key ch = record ch { key = [] }

unfoldable pub remove_mode : ℕ → Channel → Channel
remove_mode c ch = record ch { mode = erase c ch.mode }

unfoldable pub remove_participant : Str → Channel → Channel
remove_participant nick ch = record ch { participant = erase nick ch.participant }

abbrev pub has_mode : ℕ → Channel → Bool
has_mode c ch = mem c ch.mode

abbrev pub is_operator : Str → Channel → Bool
is_operator nick ch = mem nick ch.operator

abbrev pub is_participant : Str → Channel → Bool
is_participant nick ch = mem nick ch.participant

unfoldable pub is_set_key : Channel → Bool
is_set_key ch = not (is_empty ch.key)

unfoldable pub remove_invited : Str → Channel → Channel
remove_invited nick ch = record ch { invited = filter_by (λ n. not (str_eq n nick)) ch.invited }

-- `std::find` over the invited nicknames.
unfoldable pub is_invited : Str → List Str → Bool
is_invited nick [] = Bool.false
is_invited nick (n ∷ ns) = if str_eq n nick then Bool.true else is_invited nick ns
