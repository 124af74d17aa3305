-- ===== src/Server/Objects/Run.antt =====
-- The objects over whole turns of the event loop (run, src/Server.cpp).
use ft_irc_refactor.Server.Turning.Run.{run-Keeps}
use ft_irc_refactor.Base.{ℕ, List, ap, ℕ_key}
use ft_irc_refactor.Client.{Client}
use ft_irc_refactor.Server.State.{Env, Server}
use ft_irc_refactor.Server.Net.{mark_client_for_removal_cases, disable_poll_out_event}
use ft_irc_refactor.Server.Loop.{Poll, run}
use ft_irc_refactor.Server.Objects.{Owned}
use ft_irc_refactor.Server.Objects.Teardown.{add_client-Owned, cleanup_marked_clients-Owned}
use ft_irc_refactor.Server.Objects.Messages.{handle_client_cmd-Owned}
use ft_irc_refactor.Server.Objects.Reading.{put-Owned}
use ft_irc_refactor.Server.Turning.{Slots, Turns}

pub Owned-slots : Slots Owned
unfolding disable_poll_out_event
Owned-slots = record {
  reads = record {
    mark = λ fd s o.
        mark_client_for_removal_cases Owned fd s o (record { owned = o.owned; fresh = o.fresh });
    disable = λ fd s o. record { owned = o.owned; fresh = o.fresh };
    output = λ s n w o. record { owned = o.owned; fresh = o.fresh };
    buffers = λ p c d s e same o. put-Owned p c d s e (ap Client.fd same) o;
    message = λ env c. record { at = handle_client_cmd-Owned env c };
  };
  accept = λ fd host s e o. add_client-Owned fd host s o;
}

pub Owned-turns : Turns Owned
Owned-turns = record {
  slots = Owned-slots;
  tick = λ now s o. record { owned = o.owned; fresh = o.fresh };
  cleanup = record { at = λ s o. (cleanup_marked_clients-Owned s o).1 };
}

-- Whatever events the loop of `run` meets, and whatever the kernel answers: `_clients` holds no
-- pointer to a deleted client, each client stands in it under its own descriptor, and no new
-- client gets the address of a living one, if this holds where the loop starts.
pub run-Owned :
    (env : Env) (events : List (ℕ × Poll)) (s : Server) → Owned s → Owned (run env events s).1
run-Owned env events s o = (run-Keeps Owned-turns env events).at s o
