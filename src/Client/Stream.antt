-- ===== src/Client/Stream.antt =====
-- Client::extractMessage (src/Client.cpp), called until it returns false: the messages of a whole
-- receive buffer.
use ft_irc_refactor.Base.{
  ◌≤◌, ◌≡◌, refl, sym, subst, ◌∙◌, List, [], ◌∷◌, ◌++◌, none, some, Str, crlf, length, find_crlf,
  All,
}
use ft_irc_refactor.Client.{extract}
use ft_irc_refactor.Client.Extract.{extract-append, extract-line, some_pair}

-- The messages that the buffer gives, one after the other, and what stays in it.
pub data Drains : Str → List Str → Str → Type 0 where
  done : {b : Str} → extract b ≡ none → Drains b [] b
  more :
      {b m r rest : Str} {ms : List Str}
      → extract b ≡ some (m, r)
      → Drains r ms rest
      → Drains b (m ∷ ms) rest

-- Cut anywhere, a stream gives the same messages: those of the first part, and then those of what
-- it left together with the second part.
pub Drains-append :
    (d : Str) {b r rest : Str} {ms ns : List Str}
    → Drains b ms r
    → Drains (r ++ d) ns rest
    → Drains (b ++ d) (ms ++ ns) rest
Drains-append d (done e) k = k
Drains-append d (more e x) k = more (extract-append _ d _ _ e) (Drains-append d x k)

abbrev pub frame : List Str → Str → Str
frame [] tail = tail
frame (line ∷ lines) tail = line ++ (crlf ++ frame lines tail)

-- What a client may send: no CRLF inside, and at most 510 bytes.
abbrev pub IsLine : Str → Type 0
IsLine line = (find_crlf line ≡ none) × (length line ≤ 510)

-- Lines that are sent with their terminators come out as they went in, and what follows the last
-- of them, if it is no message yet, stays in the buffer.
pub Drains-frame :
    (lines : List Str) (tail : Str)
    → All IsLine lines
    → extract tail ≡ none
    → Drains (frame lines tail) lines tail
Drains-frame [] tail h e = done e
Drains-frame (line ∷ lines) tail h e =
    more (extract-line line (frame lines tail) h.0.0 h.0.1) (Drains-frame lines tail h.1 e)

-- No buffer gives two different sequences of messages.
pub Drains-unique :
    {b r s : Str} {ms ns : List Str} → Drains b ms r → Drains b ns s → (ms ≡ ns) × (r ≡ s)
Drains-unique (done e) (done f) = (refl, refl)
Drains-unique (done e) (more f y) = absurd (cc)
Drains-unique (more e x) (done f) = absurd (cc)
Drains-unique {s = s} (more {m = m} e x) (more {ms = ns} f y) =
    let (em, er) = some_pair (sym f ∙ e) in
    let (es, et) = Drains-unique x (subst (λ t. Drains t ns s) (sym er) y) in (cc, et)
