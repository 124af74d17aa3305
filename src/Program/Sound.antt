-- ===== src/Program/Sound.antt =====
-- What holds of the server from its start on (src/main.cpp and src/Server.cpp).
use ft_irc_refactor.Server.Turning.Cleanup.{cleanup-Keeps}
use ft_irc_refactor.Cmd.Frame.Message.{handle_client_cmd-Keeps}
use ft_irc_refactor.Server.Keeps.{Keeps-modify, Keeps-deref, Keeps-bind}
use ft_irc_refactor.Cmd.Frame.{Quiet, Frame}
use ft_irc_refactor.Server.Net.{
  mark_client_for_removal_cases, disable_poll_out_event, update_clients, enable_poll_out_event,
}
use ft_irc_refactor.Server.Shutdown.{each_twice, destroy-closes}
use ft_irc_refactor.Server.Turning.Run.{run-Keeps}
use ft_irc_refactor.Channel.{Ptr}
use ft_irc_refactor.Server.Ordered.{ordered_turns, Ordered}
use ft_irc_refactor.Server.Registration.{registration_turns, Registration}
use ft_irc_refactor.Server.Objects.Run.{Owned-turns}
use ft_irc_refactor.Server.Turning.{Turns}
use ft_irc_refactor.Server.Capacity.{within_turns, Within}
use ft_irc_refactor.Server.Objects.{Owned}
use ft_irc_refactor.Server.Loop.{run, Poll}
use ft_irc_refactor.Server.Teardown.{forget_client, add_client, max_clients}
use ft_irc_refactor.Program.{serve}
use ft_irc_refactor.Server.Startup.{destroy, new_server, init, open_socket, Sockets}
use ft_irc_refactor.Base.{
  ap, ◌∙◌, Bool-cases, Option-cases, ℕ, ◌≡◌, ◌≤◌, refl, inl, inr, List, [], ◌∷◌, none, some, Str,
  find, ℕ_key, str_key, arith, length,
}
use ft_irc_refactor.Server.State.{
  update_client, and_then, PollFd, modify, Env, Server, ok, throw, fault, Outcome, ◌>>=◌,
}

-- The state that init leaves, however far it gets.
pub init-state :
    (P : Server → Type 0) (k : Sockets) (port : ℕ) (password : Str) (now : ℕ)
    → ((fd : ℕ) (slots : List PollFd)
        → length slots ≤ 1
        → P (record (new_server password now) { fd = fd; fds = slots }))
    → P (init k port (new_server password now)).1
unfolding init open_socket ◌>>=◌ modify new_server
init-state P k port password now h = elim (Option-cases k.socket) [
  | inl e ↦ rw e (h 0 [] (omega arith))
  | inr (fd, e) ↦ elim (Bool-cases (k.bind fd port)) [
    | inr e' ↦ rw (e, e') (h fd [] (omega arith))
    | inl e' ↦ elim (Bool-cases (k.listen fd max_clients)) [
      | inr l ↦ rw (e, e', l) (h fd [] (omega arith))
      | inl l ↦ elim (Bool-cases (k.set_nonblocking fd)) [
        | inr n ↦ rw (e, e', l, n) (h fd [] (omega arith))
        | inl n ↦ rw (e, e', l, n) (h fd _ (omega arith))
      ]
    ]
  ]
]

-- The rules that the server keeps.
pub record Sound (s : Server) : Type 0 where
  pub owned : Owned s
  pub within : Within s
  pub registration : Registration s
  pub ordered : Ordered s

pub started :
    (fd : ℕ) (slots : List PollFd) (password : Str) (now : ℕ)
    → length slots ≤ 1
    → Sound (record (new_server password now) { fd = fd; fds = slots })
unfolding new_server find
started fd slots password now few = record {
  owned = record { owned = λ g p e. absurd (cc); fresh = λ q le. refl };
  within = record { slots = omega (arith, few) };
  registration = record { each = λ p c e. absurd (cc) };
  ordered = record { ascending = tt };
}

after_init :
    (P : Server → Type 0) (env : Env) (events : List (ℕ × Poll)) (o : Outcome (Unit {0}))
    (s : Server)
    → Turns P
    → P s
    → P (and_then o (λ _. run env events) s).1
after_init P env events (ok _) s turns h = (run-Keeps turns env events).at s h
after_init P env events (throw e) s turns h = h
after_init P env events fault s turns h = h

serve_state :
    (P : Server → Type 0) (env : Env) (k : Sockets) (port : ℕ) (events : List (ℕ × Poll))
    (s : Server)
    → Turns P
    → P (init k port s).1
    → P (serve env k port events s).1
unfolding serve ◌>>=◌
serve_state P env k port events s turns h = after_init P env events (init k port s).0 _ turns h

-- From its start on, whatever the kernel and the clients do, the server keeps its rules:
-- `_clients` has its descriptors in order and holds no pointer to a deleted client, there are at
-- most MAX_CLIENTS slots besides the server's, and each client object that is registered has
-- given PASS, NICK and USER and has a nickname of letters and digits.
pub serve-Sound :
    (env : Env) (k : Sockets) (port : ℕ) (events : List (ℕ × Poll)) (password : Str) (now : ℕ)
    → Sound (serve env k port events (new_server password now)).1
serve-Sound env k port events password now = record {
  owned = serve_state Owned env k port events _ Owned-turns opened.owned;
  within = serve_state Within env k port events _ within_turns opened.within;
  registration =
      serve_state Registration env k port events _ registration_turns opened.registration;
  ordered = serve_state Ordered env k port events _ ordered_turns opened.ordered;
}
  where
    opened : Sound (init k port (new_server password now)).1
    opened =
        init-state Sound k port password now (λ fd slots few. started fd slots password now few)

-- `_fd` is what it was.
abbrev Listens : ℕ → Server → Type 0
Listens fd s = s.fd ≡ fd

module _ (fd : ℕ) where
  quiet : Quiet (Listens fd)
  unfolding enable_poll_out_event update_client
  quiet = record {
    edit = λ p f e. Keeps-bind _ _ (Keeps-deref p) (λ c. Keeps-modify _ (λ s h. h));
    register = λ p c s there ready h. h;
    nicked = λ p c s there old h. h;
    mark = λ g s h. mark_client_for_removal_cases (Listens fd) g s h h;
    poll_out = λ g s h. h;
    output = λ s n w h. h;
  }

  frame : Frame (Listens fd) (λ p g. Unit {0})
  unfolding update_clients
  frame = record {
    changes = λ p c f s there e h. h;
    channel = λ s chs h. h;
    nick = λ s m h. h;
    learn = λ p s c h there. tt;
    client = λ p g known s h. h;
  }

  listens_turns : Turns (Listens fd)
  unfolding disable_poll_out_event add_client forget_client
  listens_turns = record {
    slots = record {
      reads = record {
        mark = λ g s h. mark_client_for_removal_cases (Listens fd) g s h h;
        disable = λ g s h. h;
        output = λ s n w h. h;
        buffers = λ p c d s there same h. h;
        message = λ env c. handle_client_cmd-Keeps quiet frame env c;
      };
      accept = λ g host s e h. h;
    };
    tick = λ now s h. h;
    cleanup = cleanup-Keeps (λ p c s there h. h) (λ s h. h);
  }

init-Listens :
    (k : Sockets) (port fd : ℕ) (s : Server) → k.socket ≡ some fd → Listens fd (init k port s).1
unfolding init open_socket ◌>>=◌ modify
init-Listens k port fd s e = elim (Bool-cases (k.bind fd port)) [
  | inr b ↦ rw (e, b) refl
  | inl b ↦ elim (Bool-cases (k.listen fd max_clients)) [
    | inr l ↦ rw (e, b, l) refl
    | inl l ↦ elim (Bool-cases (k.set_nonblocking fd)) [
      | inr n ↦ rw (e, b, l, n) refl
      | inl n ↦ rw (e, b, l, n) refl
    ]
  ]
]

-- Whenever the destructor runs behind a socket that was opened, be it after a failed bind or after
-- any events: it ends normally, closes the server's socket and then twice the descriptor of each
-- client, and deletes every client.
pub serve-destroy :
    (env : Env) (k : Sockets) (port : ℕ) (events : List (ℕ × Poll)) (password : Str) (now : ℕ)
    (fd : ℕ)
    → k.socket ≡ some fd
    → let s = (serve env k port events (new_server password now)).1 in
      ((destroy s).0 ≡ ok (fd ∷ each_twice s.clients))
      × ((g : ℕ) (p : Ptr) → find g s.clients ≡ some p → find p (destroy s).1.heap ≡ none)
serve-destroy env k port events password now fd opened =
    let sound = serve-Sound env k port events password now in
    let end = (serve env k port events (new_server password now)).1 in
    let here =
      serve_state (Listens fd) env k port events (new_server password now) (listens_turns fd)
        (init-Listens k port fd _ opened) in
    let (closed, dead) = destroy-closes _ sound.owned sound.ordered in
    (closed ∙ ap (λ n. ok (n ∷ each_twice end.clients)) here, dead)
