-- ===== src/Program/Ending.antt =====
-- How the program ends (src/main.cpp).
use ft_irc_refactor.Server.Errors.{run-GoesOn}
use ft_irc_refactor.Server.Loop.{Poll}
use ft_irc_refactor.Server.Teardown.{err_socket_creation, max_clients}
use ft_irc_refactor.Program.{exited, status_of, lost, serving, main, start, serve, Status}
use ft_irc_refactor.Server.Startup.{init, open_socket, Sockets}
use ft_irc_refactor.Base.{
  Bool-cases, false, true, ℕ, ◌≡◌, ◌⊎◌, refl, inl, inr, Bool, ◌&&◌, List, [], ◌∷◌, Option, none,
  some, Str, ℕ_key, str_key,
}
use ft_irc_refactor.Server.State.{modify, Env, Server, ok, throw, Outcome, ◌>>=◌}
use ft_irc_refactor.Args.{Checked, make_server}

-- The three calls on the server's descriptor succeed, and there is one.
abbrev opens : Sockets → (port : ℕ) → Option ℕ → Bool
opens k port none = false
opens k port (some fd) = k.bind fd port && k.listen fd max_clients && k.set_nonblocking fd

abbrev opens_for : Sockets → Checked (ℕ × Str) → Bool
opens_for k (Checked.throw e) = false
opens_for k (Checked.ok (port, password)) = opens k port k.socket

-- There are three arguments, the port and the password are accepted, and the sockets open.
abbrev pub can_start : Sockets → List Str → Bool
can_start k (program ∷ port ∷ password ∷ []) = opens_for k (make_server (some port) (some password))
can_start k _ = false

-- init ends normally exactly where the sockets open.
abbrev Opened : Outcome (Unit {0}) → Bool → Type 0
Opened o b = ((o ≡ ok tt) × (b ≡ true)) ⊎ (((e : Str) × (o ≡ throw e)) × (b ≡ false))

open_socket-Opened :
    (k : Sockets) (port : ℕ) (o : Option ℕ) (s : Server)
    → Opened (open_socket k port o s).0 (opens k port o)
unfolding open_socket ◌>>=◌ modify
open_socket-Opened k port none s = inr ((err_socket_creation, refl), refl)
open_socket-Opened k port (some fd) s = elim (Bool-cases (k.bind fd port)) [
  | inr e ↦ rw e (inr ((_, refl), refl))
  | inl e ↦ elim (Bool-cases (k.listen fd max_clients)) [
    | inr e' ↦ rw (e, e') (inr ((_, refl), refl))
    | inl e' ↦ elim (Bool-cases (k.set_nonblocking fd)) [
      | inr e'' ↦ rw (e, e', e'') (inr ((_, refl), refl))
      | inl e'' ↦ rw (e, e', e'') (inl (refl, refl))
    ]
  ]
]

init-Opened :
    (k : Sockets) (port : ℕ) (s : Server) → Opened (init k port s).0 (opens k port k.socket)
unfolding init ◌>>=◌
init-Opened k port s = open_socket-Opened k port k.socket s

-- Not ended, or met with undefined behaviour.
abbrev Unended : Status → Type 0
Unended status = (status ≡ serving) ⊎ (status ≡ lost)

serve-ends :
    (env : Env) (k : Sockets) (port : ℕ) (events : List (ℕ × Poll)) (s : Server)
    → (Unended (status_of (serve env k port events s).0) × (opens k port k.socket ≡ true))
      ⊎ ((status_of (serve env k port events s).0 ≡ exited 1) × (opens k port k.socket ≡ false))
unfolding serve ◌>>=◌
serve-ends env k port events s = elim (init-Opened k port s) [
  | inr ((e, thrown), closed) ↦ inr (rw thrown refl, closed)
  | inl (opened, good) ↦ elim (run-GoesOn env events (init k port s).1) [
    | inl e ↦ inl (rw (opened, e) (inl refl), good)
    | inr e ↦ inl (rw (opened, e) (inr refl), good)
  ]
]

start-ends :
    (env : Env) (k : Sockets) (now : ℕ) (events : List (ℕ × Poll)) (args : Checked (ℕ × Str))
    → (Unended (start env k now events args) × (opens_for k args ≡ true))
      ⊎ ((start env k now events args ≡ exited 1) × (opens_for k args ≡ false))
unfolding start
start-ends env k now events (Checked.throw e) = inr (refl, refl)
start-ends env k now events (Checked.ok (port, password)) = serve-ends env k port events _

-- main ends by itself, and with code 1, exactly where the number of the arguments, the port or
-- the password is wrong or a call for the server's socket fails; else it serves on whatever
-- happens, unless undefined behaviour is met.
pub main-ends :
    (env : Env) (k : Sockets) (now : ℕ) (events : List (ℕ × Poll)) (argv : List Str)
    → (((main env k now events argv ≡ serving) ⊎ (main env k now events argv ≡ lost))
        × (can_start k argv ≡ true))
      ⊎ ((main env k now events argv ≡ exited 1) × (can_start k argv ≡ false))
unfolding main
main-ends env k now events (program ∷ port ∷ password ∷ []) =
    start-ends env k now events (make_server (some port) (some password))
main-ends env k now events [] = inr (refl, refl)
main-ends env k now events (a ∷ []) = inr (refl, refl)
main-ends env k now events (a ∷ b ∷ []) = inr (refl, refl)
main-ends env k now events (a ∷ b ∷ c ∷ d ∷ rest) = inr (refl, refl)
