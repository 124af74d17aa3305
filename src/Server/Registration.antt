-- ===== src/Server/Registration.antt =====
-- What is true of every client object in every turn of the loop (run, src/Server.cpp): who is
-- registered has given PASS, NICK and USER, and what a nickname is made of.
use ft_irc_refactor.Server.Turning.Cleanup.{cleanup-Keeps}
use ft_irc_refactor.Server.Turning.Run.{run-Keeps}
use ft_irc_refactor.Cmd.Frame.Message.{handle_client_cmd-Keeps}
use ft_irc_refactor.Server.Loop.{run, Poll}
use ft_irc_refactor.Server.Keeps.{Keeps}
use ft_irc_refactor.Cmd.Proper.{
  set_nick_status-Proper, set_registered_status-Proper, Proper, like, new_client-Proper,
}
use ft_irc_refactor.Cmd.Frame.{IsEdit, Frame, Quiet}
use ft_irc_refactor.Client.{Client}
use ft_irc_refactor.Server.Teardown.{forget_client, add_client}
use ft_irc_refactor.Server.Net.{
  mark_client_for_removal_cases, disable_poll_out_event, update_clients, enable_poll_out_event,
  mark_client_for_removal,
}
use ft_irc_refactor.Channel.{Ptr}
use ft_irc_refactor.Base.{
  find-assign_cases, Option-cases, find-erase, erase, ℕ, ◌≡◌, inl, inr, List, some, Str, Map, find,
  assign, ℕ_key, str_key, ap, subst, arith,
}
use ft_irc_refactor.Server.State.{put, modify, deref, Env, update_client, Server, ◌>>=◌}
use ft_irc_refactor.Server.Turning.{Slots, Turns}

pub record Registration (s : Server) : Type 0 where
  pub each : (p : Ptr) (c : Client) → find p s.heap ≡ some c → Proper c

-- The heap with one object that is new or has changed.
assigned :
    (p q : Ptr) (c d : Client) (m : Map Ptr Client)
    → Proper d
    → ((e : Client) → find q m ≡ some e → Proper e)
    → find q (assign p d m) ≡ some c
    → Proper c
assigned p q c d m here there e = elim (find-assign_cases p q d c m e) [
  | inl (_, same) ↦ subst Proper same here
  | inr old ↦ there c old
]

put-Registration :
    (p : Ptr) (d : Client) (s : Server) → Proper d → Registration s → Registration (put p d s)
put-Registration p d s here r = record { each = λ q c e. assigned p q c d s.heap here (r.each q) e }

edit-Registration :
    (p : Ptr) (f : Client → Client) → IsEdit f → Keeps Registration (update_client p f)
unfolding update_client ◌>>=◌ deref modify
edit-Registration p f edit = record {
  at = λ s r. elim (Option-cases (find p s.heap)) [
    | inl e ↦ rw e r
    | inr (c, e) ↦ rw e (put-Registration p (f c) s (edit.change.proper c (r.each p c e)) r)
  ];
}

mark-Registration :
    (fd : ℕ) (s : Server) → Registration s → Registration (mark_client_for_removal fd s)
mark-Registration fd s r =
    mark_client_for_removal_cases Registration fd s r (record { each = r.each })

quiet : Quiet Registration
unfolding enable_poll_out_event
quiet = record {
  edit = edit-Registration;
  register = λ p c s there ready r.
      put-Registration p _ s (set_registered_status-Proper c ready (r.each p c there)) r;
  nicked =
      λ p c s there old r. put-Registration p _ s (set_nick_status-Proper c (r.each p c there)) r;
  mark = mark-Registration;
  poll_out = λ fd s r. record { each = r.each };
  output = λ s n w r. record { each = r.each };
}

frame : Frame Registration (λ p fd. Unit {0})
unfolding update_clients
frame = record {
  changes = λ p c f s there e r. put-Registration p _ s (e.proper c (r.each p c there)) r;
  channel = λ s chs r. record { each = r.each };
  nick = λ s m r. record { each = r.each };
  learn = λ p s c r there. tt;
  client = λ p fd known s r. record { each = r.each };
}

add_client-Registration :
    (fd : ℕ) (host : Str) (s : Server) → Registration s → Registration (add_client fd host s)
unfolding add_client
add_client-Registration fd host s r = record {
  each = λ q c e. assigned s.next_ptr q c _ s.heap (new_client-Proper fd host s.now) (r.each q) e;
}

registration_slots : Slots Registration
unfolding disable_poll_out_event
registration_slots = record {
  reads = record {
    mark = mark-Registration;
    disable = λ fd s r. record { each = r.each };
    output = λ s n w r. record { each = r.each };
    buffers = λ p c d s there same r.
        put-Registration p d s
          (like c d (ap Client.register_status same) (ap Client.nickname same) (r.each p c there))
          r;
    message = λ env c. handle_client_cmd-Keeps quiet frame env c;
  };
  accept = λ fd host s e r. add_client-Registration fd host s r;
}

still_there :
    (p q : Ptr) (m : Map Ptr Client) (c : Client) → find q (erase p m) ≡ some c → find q m ≡ some c
still_there p q m c e = ground (arith, find-erase p q m)

forget_client-Registration :
    (p : Ptr) (c : Client) (s : Server)
    → find p s.heap ≡ some c
    → Registration s
    → Registration (forget_client p c s)
unfolding forget_client
forget_client-Registration p c s there r = record {
  each = λ q d e. r.each q d (still_there p q s.heap d e);
}

pub registration_turns : Turns Registration
registration_turns = record {
  slots = registration_slots;
  tick = λ now s r. record { each = r.each };
  cleanup = cleanup-Keeps forget_client-Registration (λ s r. record { each = r.each });
}

-- Whatever clients send: a client object that counts as registered has given the password, a
-- nickname and a user name, and every nickname has at most 20 bytes (NICK_MAX_LEN), all of them
-- letters or digits, if this holds where the loop starts.
pub run-Registration :
    (env : Env) (events : List (ℕ × Poll)) (s : Server)
    → Registration s
    → Registration (run env events s).1
run-Registration env events s r = (run-Keeps registration_turns env events).at s r
