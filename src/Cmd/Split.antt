-- ===== src/Cmd/Split.antt =====
-- The parsing of a command line: src/Cmd/Cmd.cpp, and the splitters of CmdJoin.cpp, CmdKick.cpp,
-- CmdPrivmsg.cpp and cmdTopic.cpp.
pub mod Receivers
pub mod Tokens
use ft_irc_refactor.Base.{
  ℕ, zero, suc, ◌+◌, Bool, true, false, not, ◌||◌, List, [], ◌∷◌, ◌++◌, none, some, Str, ◌==◌, ltb,
  if◌then◌else◌, length, take, drop, all, is_empty, first, flush, find_char, is_space, is_cntrl,
  mem, insert, str_key,
}
use ft_irc_refactor.Channel.{Set}

-- The bytes up to the first white space.
unfoldable pub extract_cmd : Str → Str
unfolding is_space
extract_cmd [] = []
extract_cmd (c ∷ cs) = let rest = extract_cmd cs in if is_space c then [] else c ∷ rest

abbrev skip_space : Str → Str
skip_space [] = []
skip_space (c ∷ cs) = if is_space c then cs else c ∷ cs

-- What follows the command and one byte of white space.
unfoldable pub extract_cmd_params : (msg cmd : Str) → Str
unfolding is_space
extract_cmd_params msg cmd = skip_space (drop (length cmd) msg)

abbrev pub is_join_delim : ℕ → Bool
is_join_delim c = c == b',' || c == 32

unfoldable pub join_split_from : Str → Str → List Str
unfolding flush
join_split_from tmp [] = flush tmp []
join_split_from tmp (c ∷ cs) =
    let next = join_split_from [] cs in
    let more = join_split_from (tmp ++ c ∷ []) cs in
    if is_join_delim c then flush tmp next else more

unfoldable pub join_split : Str → List Str
unfolding join_split_from
join_split params = join_split_from [] params

-- As joinSplit, but a ':' begins the text, which runs to the end.
unfoldable pub privmsg_split_from : Str → Str → List Str
unfolding flush
privmsg_split_from tmp [] = flush tmp []
privmsg_split_from tmp (c ∷ cs) =
    let next = privmsg_split_from [] cs in
    let more = privmsg_split_from (tmp ++ c ∷ []) cs in
    if is_join_delim c
    then flush tmp next
    else (if c == b':' then flush tmp ((c ∷ cs) ∷ []) else more)

unfoldable pub privmsg_split : Str → List Str
unfolding privmsg_split_from
privmsg_split params = privmsg_split_from [] params

-- `split(delim)` from the position `start`: `rest` is the text from there on. The fuel bounds the
-- number of rounds of its loop.
unfoldable pub split_from : ℕ → ℕ → Str → List Str
unfolding find_char
split_from zero delim rest = []
split_from (suc fuel) delim rest = elim (find_char delim rest) [
  | none ↦ if is_empty rest then [] else rest ∷ []
  | some pos ↦
      let fields = split_from fuel delim (drop (pos + 1) rest) in
      if first rest == b':' then drop 1 rest ∷ [] else take pos rest ∷ fields
]

unfoldable pub split : ℕ → Str → List Str
unfolding split_from
split delim params = split_from (suc (length params)) delim params

-- At a space before a ':' the rest is one token; the text that is left over is one too.
unfoldable pub topic_split_from : Str → Str → List Str
topic_split_from tmp [] = tmp ∷ []
topic_split_from tmp (c ∷ cs) =
    let next = topic_split_from [] cs in
    let more = topic_split_from (tmp ++ c ∷ []) cs in
    if c == 32 then (if first cs == b':' then tmp ∷ cs ∷ [] else tmp ∷ next) else more

unfoldable pub topic_split : Str → List Str
unfolding topic_split_from
topic_split params = topic_split_from [] params

abbrev is_name_byte : ℕ → Bool
is_name_byte c = not (c == 32 || is_cntrl c)

-- At most 200 bytes, a '#' first, and no blank or control byte behind it.
unfoldable pub is_valid_channel_name : Str → Bool
unfolding is_cntrl
is_valid_channel_name channel =
    if ltb 200 (length channel) || not (first channel == b'#')
    then false
    else all is_name_byte (drop 1 channel)

unfoldable pub dup_receiver_from : Set Str → List Str → Bool
unfolding insert
dup_receiver_from seen [] = false
dup_receiver_from seen (r ∷ rs) =
    let rest = dup_receiver_from (insert r tt seen) rs in if mem r seen then true else rest

unfoldable pub is_dup_receiver : List Str → Bool
unfolding dup_receiver_from
is_dup_receiver receivers = dup_receiver_from [] receivers
