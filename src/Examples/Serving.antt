-- ===== src/Examples/Serving.antt =====
-- Examples for the program from its start on (src/main.cpp, src/Server.cpp).
use ft_irc_refactor.Server.Shutdown.{each_twice}
use ft_irc_refactor.Channel.{Ptr}
use ft_irc_refactor.Program.Ending.{main-ends, can_start}
use ft_irc_refactor.Server.Leaving.Turn.{idle_turn-leaves}
use ft_irc_refactor.Server.Net.{get_client}
use ft_irc_refactor.Server.Ordered.{Ordered}
use ft_irc_refactor.Server.Teardown.{Accepted}
use ft_irc_refactor.Server.Loop.{Poll, run, turn}
use ft_irc_refactor.Server.Leaving.{Leaving}
use ft_irc_refactor.Client.{Client}
use ft_irc_refactor.Server.Registration.{run-Registration, Registration}
use ft_irc_refactor.Server.Capacity.{run-Within, Within}
use ft_irc_refactor.Program.Sound.{serve-destroy, serve-Sound, Sound}
use ft_irc_refactor.Program.{exited, lost, serving, serve, main}
use ft_irc_refactor.Server.Startup.{destroy, new_server, Sockets}
use ft_irc_refactor.Base.{
  false, true, ℕ, ◌≡◌, ◌⊎◌, refl, List, [], ◌∷◌, none, some, Str, find, ℕ_key, str_key, arith,
  codes,
}
use ft_irc_refactor.Server.State.{ok}
use ft_irc_refactor.Examples.{willing, idle, bob, holding, holding-Owned, session}

-- A kernel that grants everything, and one whose port is taken.
abbrev pub granting : Sockets
granting = record {
  socket = some 3;
  bind = λ fd port. true;
  listen = λ fd backlog. true;
  set_nonblocking = λ fd. true;
}

abbrev argv : List Str
argv = codes "ircserv" ∷ codes "6667" ∷ codes "secret" ∷ []

main-ends_example :
    (((main willing granting 0 session argv ≡ serving)
        ⊎ (main willing granting 0 session argv ≡ lost))
      × (can_start granting argv ≡ true))
    ⊎ ((main willing granting 0 session argv ≡ exited 1) × (can_start granting argv ≡ false))
main-ends_example = main-ends willing granting 0 session argv

serve-Sound_example : Sound (serve willing granting 6667 session (new_server (codes "secret") 0)).1
serve-Sound_example = serve-Sound willing granting 6667 session (codes "secret") 0

serve-destroy_example :
    let s = (serve willing granting 6667 session (new_server (codes "secret") 0)).1 in
    ((destroy s).0 ≡ ok (3 ∷ each_twice s.clients))
    × ((g : ℕ) (p : Ptr) → find g s.clients ≡ some p → find p (destroy s).1.heap ≡ none)
serve-destroy_example = serve-destroy willing granting 6667 session (codes "secret") 0 3 refl

idle-Within : Within idle
idle-Within = record { slots = omega arith }

run-Within_example : Within (run willing session idle).1
run-Within_example = run-Within willing session idle idle-Within

idle-Registration : Registration idle
unfolding find
idle-Registration = record { each = λ p c e. absurd (cc) }

run-Registration_example : Registration (run willing session idle).1
run-Registration_example = run-Registration willing session idle idle-Registration

holding-Ordered : (c : Client) → Ordered (holding c)
holding-Ordered c = record { ascending = (tt, tt) }

abbrev nobody : Accepted
nobody = record { peer = none; nonblocking = true }

idle_turn-leaves_example :
    let after = turn willing 300 (Poll.ready nobody (none ∷ none ∷ [])) (holding bob) in
    (after.0 ≡ ok tt) × ((g : ℕ) → Leaving 300 g (holding bob) → get_client g after.1 ≡ none)
idle_turn-leaves_example =
    idle_turn-leaves willing 300 nobody (none ∷ none ∷ []) (holding bob) (refl, (refl, tt))
      (holding-Owned bob refl) (holding-Ordered bob)
