-- ===== src/Program/Lawful.antt =====
-- What holds of the channels and of their participants from the server's start on (src/main.cpp,

-- src/Server.cpp).
use ft_irc_refactor.Server.Keeps.{and_then-at}
use ft_irc_refactor.Server.Members.Known.{Known}
use ft_irc_refactor.Server.Laws.{Lawful}
use ft_irc_refactor.Server.Members.{Seated}
use ft_irc_refactor.Server.Members.Serving.{run-Served, FreshRun}
use ft_irc_refactor.Server.Loop.{run, Poll}
use ft_irc_refactor.Program.{serve}
use ft_irc_refactor.Server.Startup.{init, Sockets, new_server}
use ft_irc_refactor.Base.{ℕ, ◌≤◌, List, Str, find, ℕ_key, str_key, length}
use ft_irc_refactor.Server.State.{Env, PollFd, ◌>>=◌}
use ft_irc_refactor.Program.Sound.{init-state, started}
use ft_irc_refactor.Server.Laws.Run.{Orderly, Orderly-served}

empty-Orderly :
    (fd : ℕ) (slots : List PollFd) (password : Str) (now : ℕ)
    → length slots ≤ 1
    → Orderly (record (new_server password now) { fd = fd; fds = slots })
unfolding new_server find
empty-Orderly fd slots password now few = record {
  place = record {
    owned = (started fd slots password now few).owned;
    seated = record {
      seat = λ name ch n p e f. absurd (cc);
      listed = λ p c e. absurd (cc);
      distinct = λ p q c d e f same named. absurd (cc);
      once = λ name ch e. absurd (cc);
    };
  };
  known = record { given = λ p c e r. absurd (cc); known = λ p c e n. absurd (cc) };
  lawful = record { ruled = λ name ch e. absurd (cc) };
}

-- From its start on, whatever the clients do and as long as `accept` gives no descriptor that a
-- client has: each participant of each channel is a living client that is registered and has the
-- nickname it stands under, and no nickname stands twice in a channel; each operator of a channel
-- is a participant of it, as the same client; mode +k is set exactly if there is a key, and in mode
-- +l there is a limit; no two living clients have the same nickname, but for those that have none
-- yet, and each that has given one is found under it in nickNameClientMap.
pub serve-Lawful :
    (env : Env) (k : Sockets) (port : ℕ) (events : List (ℕ × Poll)) (password : Str) (now : ℕ)
    → FreshRun env events (init k port (new_server password now)).1
    → let s = (serve env k port events (new_server password now)).1 in
      Seated s × (Lawful s × Known s)
unfolding serve ◌>>=◌
serve-Lawful env k port events password now fresh =
    let after =
      and_then-at Orderly (init k port (new_server password now)).0 (λ _. run env events) _ opened
        (λ _. run-Served Orderly-served env events _ fresh opened) in
    (after.place.seated, (after.lawful, after.known))
  where
    opened : Orderly (init k port (new_server password now)).1
    opened =
        init-state Orderly k port password now
          (λ fd slots few. empty-Orderly fd slots password now few)
