-- ===== src/Server/Leaving.antt =====
-- Who has to leave (markClientForRemoval and checkPingTimeOut, src/Server.cpp), and that no mark is
-- lost before the end of a turn.
pub mod Silence
pub mod Turn
use ft_irc_refactor.Server.Objects.Run.{Owned-turns, Owned-slots}
use ft_irc_refactor.Server.Turning.Clients.{check_ping_time_out-Keeps, handle_slots-Keeps}
use ft_irc_refactor.Server.Loop.{Revents, Poll, handle_slots, turn, handle_poll}
use ft_irc_refactor.Server.Objects.Teardown.{cleanup_marked_clients-Owned, fd_there, absent}
use ft_irc_refactor.Server.Shutdown.{All-both, All-find, Alive, alive}
use ft_irc_refactor.Server.Ordered.{ordered_turns, Ordered}
use ft_irc_refactor.Server.Objects.{held, Owned}
use mathlib.Core.Option
use ft_irc_refactor.Cmd.Frame.Message.{handle_client_cmd-Keeps}
use ft_irc_refactor.Cmd.Frame.{Frame, Quiet}
use ft_irc_refactor.Server.Keeps.{Keeps-for_each, Keeps-modify, Keeps-deref, Keeps-bind, Keeps}
use ft_irc_refactor.Server.Objects.Removal.{
  cleanup_marked_clients-removes, mark_client_for_removal_iff,
}
use ft_irc_refactor.Channel.{Ptr}
use ft_irc_refactor.Server.Teardown.{
  Accepted, cleanup_marked_clients, check_ping_time_out, silent_clients, wait_for_ping_max,
  add_client,
}
use ft_irc_refactor.Client.{Client}
use ft_irc_refactor.Server.Net.{
  get_client, mark_client_for_removal_cases, mark_client_for_removal, is_marked_for_removal,
  disable_poll_out_event, update_clients, enable_poll_out_event,
}
use ft_irc_refactor.Base.{
  suc, Option, zero, none, Option-cases, is_some, All, ap, Map, mem, subst, ltb-true, Bool-cases,
  sym, ltb, ◌∙◌, ◌∷◌, [], inr, refl, if◌then◌else◌, true, ℕ, ◌≡◌, ◌<◌, ◌+◌, ◌⊎◌, inl, List, some,
  find, ℕ_key, str_key,
}
use ft_irc_refactor.Server.State.{
  throw, raise, and_then, Env, Outcome, ok, pure, modify, deref, for_each, Action, ◌>>=◌,
  update_client, Server,
}
use ft_irc_refactor.Server.Turning.{Slots}

abbrev pub Marked : ℕ → Server → Type 0
Marked g s = is_marked_for_removal g s ≡ true

module _ (g : ℕ) where
  pub mark-Marked : (fd : ℕ) (s : Server) → Marked g s → Marked g (mark_client_for_removal fd s)
  mark-Marked fd s m = (mark_client_for_removal_iff fd g s).1 (inl m)

  edit-Marked : (p : Ptr) (f : Client → Client) → Keeps (Marked g) (update_client p f)
  unfolding update_client is_marked_for_removal
  edit-Marked p f = Keeps-bind _ _ (Keeps-deref p) (λ c. Keeps-modify _ (λ s m. m))

  quiet : Quiet (Marked g)
  unfolding enable_poll_out_event is_marked_for_removal
  quiet = record {
    edit = λ p f e. edit-Marked p f;
    register = λ p c s there ready m. m;
    nicked = λ p c s there old m. m;
    mark = mark-Marked;
    poll_out = λ fd s m. m;
    output = λ s n w m. m;
  }

  frame : Frame (Marked g) (λ p fd. Unit {0})
  unfolding update_clients is_marked_for_removal
  frame = record {
    changes = λ p c f s there e m. m;
    channel = λ s chs m. m;
    nick = λ s map m. m;
    learn = λ p s c m there. tt;
    client = λ p fd known s m. m;
  }

  -- No mark is lost before the end of a turn.
  pub marked_slots : Slots (Marked g)
  unfolding disable_poll_out_event add_client is_marked_for_removal
  marked_slots = record {
    reads = record {
      mark = mark-Marked;
      disable = λ fd s m. m;
      output = λ s n w m. m;
      buffers = λ p c d s there same m. m;
      message = λ env c. handle_client_cmd-Keeps quiet frame env c;
    };
    accept = λ fd host s e m. m;
  }

-- A client that has been silent for more than WAIT_FOR_PING_MAX seconds.
abbrev pub Silent : (now : ℕ) → ℕ → Server → Type 0
Silent now g s =
    (p : Ptr) × ((c : Client) × ((find g s.clients ≡ some p)
        × ((find p s.heap ≡ some c) × (c.last_ping_sent + wait_for_ping_max < now))))

-- One that is marked, or that has been silent for too long.
abbrev pub Leaving : (now : ℕ) → ℕ → Server → Type 0
Leaving now g s = (is_marked_for_removal g s ≡ true) ⊎ Silent now g s
