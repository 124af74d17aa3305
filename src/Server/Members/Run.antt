-- ===== src/Server/Members/Run.antt =====
-- The participants over whole turns of the loop (run, src/Server.cpp).
use ft_irc_refactor.Server.Members.Serving.{run-Served, FreshRun, Served}
use ft_irc_refactor.Server.Turning.{Reads}
use ft_irc_refactor.Client.{Client}
use ft_irc_refactor.Base.{◌∙◌, ap, ℕ, refl, List, ℕ_key, str_key}
use ft_irc_refactor.Server.Members.{put-Seated, quiet, Seated, same-Seated}
use ft_irc_refactor.Server.Members.Messages.{handle_client_cmd-Seated}
use ft_irc_refactor.Server.Members.Leaving.{forget_client-Seated, add_client-Seated}
use ft_irc_refactor.Server.Turning.Cleanup.{cleanup-Keeps}
use ft_irc_refactor.Server.Objects.Run.{Owned-slots, Owned-turns}
use ft_irc_refactor.Server.Net.{disable_poll_out_event}
use ft_irc_refactor.Server.Objects.Teardown.{add_client-Owned}
use ft_irc_refactor.Server.Objects.{Owned}
use ft_irc_refactor.Server.Loop.{Poll, run}
use ft_irc_refactor.Server.State.{Server, Env}

-- With the objects in order.
pub record InPlace (s : Server) : Type 0 where
  pub owned : Owned s
  pub seated : Seated s

reads : Reads InPlace
unfolding disable_poll_out_event
reads = record {
  mark = λ fd s h. record {
    owned = Owned-slots.reads.mark fd s h.owned;
    seated = quiet.mark fd s h.seated;
  };
  disable = λ fd s h. record {
    owned = Owned-slots.reads.disable fd s h.owned;
    seated = same-Seated s _ refl refl refl h.seated;
  };
  output = λ s n w h. record {
    owned = Owned-slots.reads.output s n w h.owned;
    seated = quiet.output s n w h.seated;
  };
  buffers = λ p c d s there same h. record {
    owned = Owned-slots.reads.buffers p c d s there same h.owned;
    seated =
        put-Seated p c d s there (ap Client.fd same) (ap Client.nickname same)
          (λ r. ap (λ x. x.registered) same ∙ r) h.seated;
  };
  message = λ env c. record {
    at = λ s h. record {
      owned = (Owned-slots.reads.message env c).at s h.owned;
      seated = handle_client_cmd-Seated env c s h.seated;
    };
  };
}

pub InPlace-served : Served InPlace
InPlace-served = record {
  reads = reads;
  cleanup = record {
    at = λ s h. record {
      owned = Owned-turns.cleanup.at s h.owned;
      seated =
          (cleanup-Keeps forget_client-Seated (λ t k. same-Seated t _ refl refl refl k)).at s
            h.seated;
    };
  };
  accept = λ fd host s free h. record {
    owned = add_client-Owned fd host s h.owned;
    seated = add_client-Seated fd host s free h.owned h.seated;
  };
  tick = λ now s h. record {
    owned = Owned-turns.tick now s h.owned;
    seated = same-Seated s _ refl refl refl h.seated;
  };
}

-- Whatever events the loop of `run` meets: each participant of each channel is a living client
-- that is registered and has the nickname it stands under, no nickname stands twice in a channel,
-- each living client stands in `_clients` under its descriptor, and no two of them have the same
-- nickname, but for those that have none yet, if this and the order of the objects hold where the
-- loop starts and `accept` never gives a descriptor that a client has.
pub run-Seated :
    (env : Env) (events : List (ℕ × Poll)) (s : Server)
    → FreshRun env events s
    → Owned s
    → Seated s
    → Seated (run env events s).1
run-Seated env events s fresh owned seated =
    (run-Served InPlace-served env events s fresh
      (record { owned = owned; seated = seated })).seated
