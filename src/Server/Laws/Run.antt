-- ===== src/Server/Laws/Run.antt =====
-- The channels over whole turns of the loop (run, src/Server.cpp).
use ft_irc_refactor.Server.Laws.Message.{handle_client_cmd-Lawful}
use ft_irc_refactor.Client.{Client}
use ft_irc_refactor.Server.Laws.Leave.{forget_client-Lawful}
use ft_irc_refactor.Server.Members.Leaving.{forget_client-Seated}
use ft_irc_refactor.Server.Turning.Cleanup.{cleanup-Keeps}
use ft_irc_refactor.Server.Members.{same-Seated, Seated}
use ft_irc_refactor.Server.Turning.{Reads}
use ft_irc_refactor.Server.Teardown.{cleanup_marked_clients, add_client}
use ft_irc_refactor.Server.Keeps.{Keeps}
use ft_irc_refactor.Server.Net.{disable_poll_out_event}
use ft_irc_refactor.Server.Members.Known.{
  forget_client-Known, put-Known, same-Known, add_client-Known, Known, known_quiet,
}
use ft_irc_refactor.Base.{◌∙◌, refl, ℕ_key, str_key, ap, sym}
use ft_irc_refactor.Server.State.{Server}
use ft_irc_refactor.Server.Laws.{Lawful, same-Lawful, Lawful-Quiet}
use ft_irc_refactor.Server.Members.Run.{InPlace, InPlace-served}
use ft_irc_refactor.Server.Members.Serving.{Served}

-- The objects, the clients and the channels.
pub record Orderly (s : Server) : Type 0 where
  pub place : InPlace s
  pub known : Known s
  pub lawful : Lawful s

reads : Reads Orderly
unfolding disable_poll_out_event
reads = record {
  mark = λ fd s h. record {
    place = InPlace-served.reads.mark fd s h.place;
    known = known_quiet.mark fd s h.known;
    lawful = Lawful-Quiet.mark fd s h.lawful;
  };
  disable = λ fd s h. record {
    place = InPlace-served.reads.disable fd s h.place;
    known = same-Known s _ refl refl h.known;
    lawful = same-Lawful s _ refl h.lawful;
  };
  output = λ s n w h. record {
    place = InPlace-served.reads.output s n w h.place;
    known = known_quiet.output s n w h.known;
    lawful = Lawful-Quiet.output s n w h.lawful;
  };
  buffers = λ p c d s there same h. record {
    place = InPlace-served.reads.buffers p c d s there same h.place;
    known =
        put-Known p c d s there (ap Client.nickname same) (λ n. sym (ap (λ x. x.nick) same) ∙ n)
          (λ r.
            ap (λ x. x.nick) same ∙ h.known.given p c there (sym (ap (λ x. x.registered) same) ∙ r))
          h.known;
    lawful = same-Lawful s _ refl h.lawful;
  };
  message = λ env c. record {
    at = λ s h.
        let (lawful', known') = handle_client_cmd-Lawful env c s h.place.seated h.known h.lawful in
        record {
          place = (InPlace-served.reads.message env c).at s h.place;
          known = known';
          lawful = lawful';
        };
  };
}

-- The clients that go, with what their going relies on.
abbrev Kept : Server → Type 0
Kept s = Seated s × (Known s × Lawful s)

cleanup-Kept : Keeps Kept cleanup_marked_clients
cleanup-Kept =
    cleanup-Keeps
      (λ p c s there (seated, (known, lawful)). (
        forget_client-Seated p c s there seated,
        (forget_client-Known p c s there seated known, forget_client-Lawful p c s lawful),
      ))
      (λ s (seated, (known, lawful)). (
        same-Seated s _ refl refl refl seated,
        (same-Known s _ refl refl known, same-Lawful s _ refl lawful),
      ))

pub Orderly-served : Served Orderly
unfolding add_client
Orderly-served = record {
  reads = reads;
  cleanup = record {
    at = λ s h.
        let (_, (known', lawful')) = cleanup-Kept.at s (h.place.seated, (h.known, h.lawful)) in
        record { place = InPlace-served.cleanup.at s h.place; known = known'; lawful = lawful' };
  };
  accept = λ fd host s free h. record {
    place = InPlace-served.accept fd host s free h.place;
    known = add_client-Known fd host s h.known;
    lawful = same-Lawful s _ refl h.lawful;
  };
  tick = λ now s h. record {
    place = InPlace-served.tick now s h.place;
    known = same-Known s _ refl refl h.known;
    lawful = same-Lawful s _ refl h.lawful;
  };
}
