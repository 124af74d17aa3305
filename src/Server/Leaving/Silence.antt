-- ===== src/Server/Leaving/Silence.antt =====
-- The clients that have been silent for too long (checkPingTimeOut, src/Server.cpp).
use ft_irc_refactor.Base.{
  same_value, Option-cases, is_some, All, ap, Map, mem, subst, ltb-true, Bool-cases, sym, ltb, ◌∙◌,
  ◌∷◌, [], inr, refl, if◌then◌else◌, true, ℕ, ◌≡◌, ◌<◌, ◌+◌, ◌⊎◌, inl, List, some, find, ℕ_key,
  str_key,
}
use ft_irc_refactor.Server.Leaving.{mark-Marked, Leaving, Marked}
use ft_irc_refactor.Server.Objects.Teardown.{fd_there, absent}
use ft_irc_refactor.Server.Shutdown.{All-both, All-find, Alive, alive}
use ft_irc_refactor.Server.Ordered.{Ordered}
use ft_irc_refactor.Server.Objects.{held, Owned}
use mathlib.Core.Option
use ft_irc_refactor.Server.Keeps.{Keeps-for_each, Keeps-modify, Keeps}
use ft_irc_refactor.Server.Objects.Removal.{mark_client_for_removal_iff}
use ft_irc_refactor.Channel.{Ptr}
use ft_irc_refactor.Server.Teardown.{check_ping_time_out, silent_clients, wait_for_ping_max}
use ft_irc_refactor.Client.{Client}
use ft_irc_refactor.Server.Net.{mark_client_for_removal_cases, mark_client_for_removal}
use ft_irc_refactor.Server.State.{ok, pure, modify, deref, for_each, Action, ◌>>=◌, Server}

-- A list of clients with one of this descriptor.
Has : ℕ → List Client → Type 0
Has g [] = ⊥
Has g (c ∷ cs) = (c.fd ≡ g) ⊎ Has g cs

-- The entry of a client that is silent has its client in the list.
abbrev Listed : Server → List Client → ℕ × Ptr → Type 0
Listed s cs entry =
    (c : Client)
    → find entry.1 s.heap ≡ some c
    → c.last_ping_sent + wait_for_ping_max < s.now
    → Has entry.0 cs

abbrev longer : Server → Client → List Client → List Client
longer s c cs = if ltb (c.last_ping_sent + wait_for_ping_max) s.now then c ∷ cs else cs

first-Listed :
    (s : Server) (c : Client) (cs : List Client) (fd : ℕ) (p : Ptr)
    → find p s.heap ≡ some c
    → c.fd ≡ fd
    → Listed s (longer s c cs) (fd, p)
unfolding Has
first-Listed s c cs fd p there own d e less =
    let same = same_value (sym there ∙ e) in
    rw
      (ltb-true (c.last_ping_sent + wait_for_ping_max) s.now
        (subst (λ x. x.last_ping_sent + wait_for_ping_max < s.now) (sym same) less))
      (inl own)

later-Listed :
    (s : Server) (c : Client) (cs : List Client) (entry : ℕ × Ptr)
    → Listed s cs entry
    → Listed s (longer s c cs) entry
unfolding Has
later-Listed s c cs entry h d e less =
    elim (Bool-cases (ltb (c.last_ping_sent + wait_for_ping_max) s.now)) [
      | inl t ↦ rw t (inr (h d e less))
      | inr t ↦ rw t (h d e less)
    ]

-- The first loop runs to its end, reads only, and finds every client that is silent.
silent_clients-finds :
    (m : Map ℕ Ptr) (s : Server)
    → All (Alive s) m
    → (cs : List Client) × ((silent_clients m s ≡ (ok cs, s)) × All (Listed s cs) m)
unfolding silent_clients ◌>>=◌ deref pure
silent_clients-finds [] s h = ([], (refl, tt))
silent_clients-finds ((fd, p) ∷ m) s (here, there) = elim (Option-cases (find p s.heap)) [
  | inl e ↦ absurd (absent (ap (Option.map held) e) here)
  | inr (c, e) ↦
      let (cs, (ends, listed)) = silent_clients-finds m s there in
      (
        longer s c cs,
        (
          rw e (rw ends refl),
          (
            first-Listed s c cs fd p e (fd_there p c s fd e here),
            All-both _ _ _ m (λ entry _ h. later-Listed s c cs entry h) there listed,
          ),
        ),
      )
]

mark-clients : (fd : ℕ) (s : Server) → (mark_client_for_removal fd s).clients ≡ s.clients
mark-clients fd s = mark_client_for_removal_cases (λ t. t.clients ≡ s.clients) fd s refl refl

abbrev mark_one : Client → Action (Unit {0})
mark_one c = modify (mark_client_for_removal c.fd)

-- The second loop runs to its end.
marks-ok : (cs : List Client) (s : Server) → (for_each cs mark_one s).0 ≡ ok tt
unfolding for_each ◌>>=◌ modify
marks-ok [] s = refl
marks-ok (c ∷ cs) s = marks-ok cs (mark_client_for_removal c.fd s)

marks_keep : (g : ℕ) (cs : List Client) → Keeps (Marked g) (for_each cs mark_one)
marks_keep g cs = Keeps-for_each cs _ (λ c. Keeps-modify _ (mark-Marked g c.fd))

marks-all :
    (g : ℕ) (cs : List Client) (s : Server)
    → mem g s.clients ≡ true
    → Has g cs
    → Marked g (for_each cs mark_one s).1
unfolding for_each ◌>>=◌ modify Has
marks-all g [] s there h = absurd h
marks-all g (c ∷ cs) s there h = elim h [
  | inl e ↦ (marks_keep g cs).at (mark_client_for_removal c.fd s) (
      (mark_client_for_removal_iff c.fd g s).1
        (inr (e, subst (λ x. mem x s.clients ≡ true) (sym e) there)))
  | inr more ↦
      marks-all g cs (mark_client_for_removal c.fd s)
        (ap (λ m. mem g m) (mark-clients c.fd s) ∙ there) more
]

-- checkPingTimeOut runs to its end, and marks every client that has been silent for too long.
pub check_ping_time_out-marks :
    (s : Server)
    → Owned s
    → Ordered s
    → ((check_ping_time_out s).0 ≡ ok tt)
      × ((g : ℕ) → Leaving s.now g s → Marked g (check_ping_time_out s).1)
unfolding check_ping_time_out ◌>>=◌
check_ping_time_out-marks s owned ordered =
    let (cs, (ends, listed)) = silent_clients-finds s.clients s (alive s owned ordered) in
    rw ends (
      marks-ok cs s,
      λ g h. elim h [
        | inl m ↦ (marks_keep g cs).at s m
        | inr (p, (c, (held, (there, less)))) ↦
            marks-all g cs s (ap is_some held) (All-find _ g p s.clients listed held c there less)
      ],
    )
