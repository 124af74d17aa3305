-- ===== src/Program.antt =====
-- src/main.cpp: the arguments, the server's start and the code that the program ends with.
pub mod Ending
pub mod Sound
pub mod Lawful
use ft_irc_refactor.Server.Loop.{run, Poll}
use ft_irc_refactor.Server.Startup.{init, new_server, Sockets}
use ft_irc_refactor.Base.{
  false, true, zero, suc, ℕ, ◌≡◌, ◌≢◌, ◌≤◌, ◌<◌, ◌+◌, ◌-◌, ◌∙◌, ◌↔◌, ◌⊎◌, refl, inl, inr, Bool, not,
  ◌||◌, ◌&&◌, List, [], ◌∷◌, ◌++◌, Option, none, some, Str, Map, is_some, mem, find, assign, ℕ_key,
  str_key, ap, sym, subst, if◌then◌else◌, arith, ◌==◌, codes, crlf, length,
}
use ft_irc_refactor.Server.State.{
  Action, Env, ok, throw, fault, sent, again, gone, failed, Outcome, ◌>>=◌, ◌>>◌,
}
use ft_irc_refactor.Args.{Checked, make_server}

-- How far the program has come: it has ended with a code, it is still serving, or it has met
-- undefined behaviour.
pub data Status : Type 0 where
  exited : ℕ → Status
  serving : Status
  lost : Status

-- The body of the `try` behind the constructor.
unfoldable pub serve : Env → Sockets → (port : ℕ) → List (ℕ × Poll) → Action Bool
serve env k port events = do init k port; run env events

-- What main returns when `run` has ended, or has thrown.
abbrev pub status_of : Outcome Bool → Status
status_of (ok true) = serving
status_of (ok false) = exited 0
status_of (throw e) = exited 1
status_of fault = lost

-- Behind the constructor, which may have thrown.
unfoldable pub start : Env → Sockets → (now : ℕ) → List (ℕ × Poll) → Checked (ℕ × Str) → Status
start env k now events (Checked.throw e) = exited 1
start env k now events (Checked.ok (port, password)) =
    status_of (serve env k port events (new_server password now)).0

-- main: `argv` has the name of the program first; `events` are what `run` meets.
unfoldable pub main : Env → Sockets → (now : ℕ) → List (ℕ × Poll) → (argv : List Str) → Status
main env k now events (program ∷ port ∷ password ∷ []) =
    start env k now events (make_server (some port) (some password))
main env k now events _ = exited 1

-- signalHandler: what it exits with, whatever the signal.
abbrev pub signal_handler : (signal : ℕ) → Status
signal_handler signal = exited 1
