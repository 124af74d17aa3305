-- ===== src/Examples/Parsing.antt =====
-- Examples for the receive buffer (src/Client.cpp), the arguments (src/ArgParser.cpp) and the
-- splitters of src/Cmd/.
use ft_irc_refactor.Base.{
  ℕ, digits_value, is_digit, all, is_empty, ◌≡◌, ◌↔◌, ◌⊎◌, ◌<◌, ◌≤◌, refl, none, some, true, false,
  [], ◌∷◌, ◌++◌, Str, codes, crlf, find_crlf, length, arith,
}
use ft_irc_refactor.Client.{extract}
use ft_irc_refactor.Client.Extract.{extract-lossless, extract-append}
use ft_irc_refactor.Client.Stream.{Drains, Drains-append, Drains-frame, frame, IsLine}
use ft_irc_refactor.Args.{ok, server_port, check_password, server_password}
use ft_irc_refactor.Args.Checks.{
  server_port-accepts, check_password-accepts, server_password-accepts,
}
use ft_irc_refactor.Cmd.Split.{join_split, is_dup_receiver}
use ft_irc_refactor.Cmd.Split.Tokens.{Splits, join_split_iff}
use ft_irc_refactor.Cmd.Split.Receivers.{Distinct, is_dup_receiver_iff}

abbrev ping : Str
ping = codes "PING a"

abbrev buffer : Str
buffer = ping ++ (crlf ++ codes "NI")

program : Unit {0}
unfolding extract find_crlf server_port check_password server_password
program = tt

buffer-extract : extract buffer ≡ some (ping, codes "NI")
unfolding program
buffer-extract = refl

rest-extract : extract (codes "NI") ≡ none
unfolding program
rest-extract = refl

extract-lossless_example :
    (length ping ≤ 510)
    × (length (codes "NI") < length buffer)
    × (((buffer ≡ ping ++ (crlf ++ codes "NI")) × (find_crlf ping ≡ none))
        ⊎ (((buffer ≡ ping ++ codes "NI") × (length ping ≡ 510))
            × ((512 ≤ length buffer) × ((pos : ℕ) → find_crlf buffer ≡ some pos → 510 < pos))))
extract-lossless_example = extract-lossless buffer ping (codes "NI") buffer-extract

extract-append_example : extract (buffer ++ codes "CK") ≡ some (ping, codes "NI" ++ codes "CK")
extract-append_example = extract-append buffer (codes "CK") ping (codes "NI") buffer-extract

second-extract : extract (codes "NI" ++ (codes "CK" ++ crlf)) ≡ some (codes "NICK", [])
unfolding program
second-extract = refl

empty-extract : extract [] ≡ none
unfolding program
empty-extract = refl

second-Drains : Drains (codes "NI" ++ (codes "CK" ++ crlf)) (codes "NICK" ∷ []) []
second-Drains = Drains.more second-extract (Drains.done empty-extract)

Drains-append_example : Drains (buffer ++ (codes "CK" ++ crlf)) (ping ∷ codes "NICK" ∷ []) []
Drains-append_example =
    Drains-append (codes "CK" ++ crlf) (Drains.more buffer-extract (Drains.done rest-extract))
      second-Drains

ping-IsLine : IsLine ping
unfolding program
ping-IsLine = (refl, omega arith)

Drains-frame_example :
    Drains (frame (ping ∷ ping ∷ []) (codes "NI")) (ping ∷ ping ∷ []) (codes "NI")
Drains-frame_example =
    Drains-frame (ping ∷ ping ∷ []) (codes "NI") (ping-IsLine, (ping-IsLine, tt)) rest-extract

server_port-accepts_example : (server_port (some (codes "6667")) ≡ ok 6667) ↔ (
    (is_empty (codes "6667") ≡ false)
    × (all is_digit (codes "6667") ≡ true)
    × (length (codes "6667") ≤ 5)
    × (digits_value 0 (codes "6667") ≤ 65535)
    × (6667 ≡ digits_value 0 (codes "6667")))
server_port-accepts_example = server_port-accepts (codes "6667") 6667

accepted : check_password (some (codes "secret")) ≡ ok (codes "secret")
unfolding program
accepted = refl

check_password-accepts_example : server_password (some (codes "secret")) ≡ ok (codes "secret")
check_password-accepts_example =
    check_password-accepts (some (codes "secret")) (codes "secret") accepted

ten : server_password (some (codes "abcdefghij")) ≡ ok (codes "abcdefghij")
unfolding program
ten = refl

server_password-accepts_example :
    (check_password (some (codes "abcdefghij")) ≡ ok (codes "abcdefghij"))
    ⊎ (length (codes "abcdefghij") ≡ 10)
server_password-accepts_example =
    server_password-accepts (codes "abcdefghij") (codes "abcdefghij") ten

join_split_iff_example :
    (join_split (codes "#a,#b key") ≡ codes "#a" ∷ codes "#b" ∷ codes "key" ∷ [])
    ↔ Splits (codes "#a,#b key") (codes "#a" ∷ codes "#b" ∷ codes "key" ∷ [])
join_split_iff_example =
    join_split_iff (codes "#a,#b key") (codes "#a" ∷ codes "#b" ∷ codes "key" ∷ [])

is_dup_receiver_iff_example :
    (is_dup_receiver (codes "a" ∷ codes "b" ∷ codes "a" ∷ []) ≡ false)
    ↔ Distinct (codes "a" ∷ codes "b" ∷ codes "a" ∷ [])
is_dup_receiver_iff_example = is_dup_receiver_iff (codes "a" ∷ codes "b" ∷ codes "a" ∷ [])
