-- ===== src/Server/Leaving/Turn.antt =====
-- How clients leave in the turns of run (src/Server.cpp).
use ft_irc_refactor.Server.Leaving.Silence.{check_ping_time_out-marks}
use ft_irc_refactor.Server.Leaving.{Leaving, Marked}
use ft_irc_refactor.Server.Objects.Run.{Owned-turns, Owned-slots}
use ft_irc_refactor.Server.Turning.Clients.{check_ping_time_out-Keeps}
use ft_irc_refactor.Server.Loop.{Revents, Poll, handle_slots, turn, handle_poll}
use ft_irc_refactor.Server.Objects.Teardown.{cleanup_marked_clients-Owned}
use ft_irc_refactor.Server.Ordered.{ordered_turns, Ordered}
use ft_irc_refactor.Server.Objects.{Owned}
use ft_irc_refactor.Server.Objects.Removal.{cleanup_marked_clients-removes}
use ft_irc_refactor.Server.Teardown.{Accepted, cleanup_marked_clients, check_ping_time_out}
use ft_irc_refactor.Server.Net.{get_client, is_marked_for_removal}
use ft_irc_refactor.Base.{
  ◌≢◌, suc, Option, zero, none, All, ap, subst, sym, ◌∙◌, ◌∷◌, [], refl, true, ℕ, ◌≡◌, ◌⊎◌, List,
  some, ℕ_key, str_key,
}
use ft_irc_refactor.Server.State.{Env, Outcome, ok, pure, modify, ◌>>=◌, Server}

Gone : ℕ → Outcome (Unit {0}) × Server → Type 0
Gone g after = (after.0 ≡ ok tt) × (get_client g after.1 ≡ none)

-- Where a client that had to leave is after a turn: a turn that poll let through either ends
-- normally, and the client is gone, or is cut short by an exception, and the mark stays.
abbrev pub Left : ℕ → Poll → Outcome (Unit {0}) × Server → Type 0
Left g poll after =
    ((poll ≡ Poll.interrupted) × ((after.0 ≡ ok tt) × (is_marked_for_removal g after.1 ≡ true)))
    ⊎ (((poll ≢ Poll.interrupted) × ((after.0 ≡ ok tt) × (get_client g after.1 ≡ none)))
        ⊎ ((after.0 ≢ ok tt) × (is_marked_for_removal g after.1 ≡ true)))

-- The state after the head of a turn.
abbrev pub checked : (now : ℕ) → Server → Server
checked now s = (check_ping_time_out (record s { now = now })).1

-- What the head of a turn does: it ends normally and marks who has to leave.
turn-checked :
    (env : Env) (now : ℕ) (poll : Poll) (s : Server)
    → Owned s
    → Ordered s
    → (turn env now poll s ≡ handle_poll env poll (checked now s))
      × (Owned (checked now s) × ((g : ℕ) → Leaving now g s → Marked g (checked now s)))
unfolding turn ◌>>=◌ modify is_marked_for_removal
turn-checked env now poll s owned ordered =
    let here = Owned-turns.tick now s owned in
    let (ends, marks) =
      check_ping_time_out-marks (record s { now = now }) here (ordered_turns.tick now s ordered) in
    (rw ends refl, ((check_ping_time_out-Keeps Owned-slots.reads).at _ here, marks))

no_events :
    (env : Env) (a : Accepted) (i : ℕ) (rs : List (Option Revents)) (s : Server)
    → All (λ r. r ≡ none) rs
    → handle_slots env a i rs s ≡ (ok tt, s)
unfolding handle_slots pure
no_events env a i [] s h = refl
no_events env a i (none ∷ rs) s (here, there) = no_events env a (suc i) rs s there
no_events env a i (some r ∷ rs) s (here, there) = absurd (cc)

idle_poll :
    (env : Env) (a : Accepted) (rs : List (Option Revents)) (s : Server)
    → All (λ r. r ≡ none) rs
    → handle_poll env (Poll.ready a rs) s ≡ cleanup_marked_clients s
unfolding handle_poll ◌>>=◌
idle_poll env a rs s h = rw (no_events env a zero rs s h) refl

-- A turn in which poll reports no event ends normally, and then every client is gone that was
-- marked or has been silent for more than 250 seconds.
pub idle_turn-leaves :
    (env : Env) (now : ℕ) (a : Accepted) (rs : List (Option Revents)) (s : Server)
    → All (λ r. r ≡ none) rs
    → Owned s
    → Ordered s
    → let after = turn env now (Poll.ready a rs) s in
      (after.0 ≡ ok tt) × ((g : ℕ) → Leaving now g s → get_client g after.1 ≡ none)
unfolding Gone
idle_turn-leaves env now a rs s quiet_slots owned ordered =
    let (same, (owned', marks)) = turn-checked env now (Poll.ready a rs) s owned ordered in
    let all = same ∙ idle_poll env a rs _ quiet_slots in
    (
      ap (λ r. r.0) all ∙ (cleanup_marked_clients-Owned _ owned').0,
      λ g leaving.
          subst (λ r. get_client g r.1 ≡ none) (sym all)
            ((cleanup_marked_clients-removes _ owned').0 g (marks g leaving)),
    )
