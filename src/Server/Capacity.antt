-- ===== src/Server/Capacity.antt =====
-- The number of slots that poll is given: acceptClient, with MAX_CLIENTS, and what else changes
-- `_fds` (src/Server.cpp).
use ft_irc_refactor.Server.Turning.Cleanup.{cleanup-Keeps}
use ft_irc_refactor.Base.{
  find, some, length-append, filter_by, Bool-cases, false, suc, ℕ, ◌≡◌, ◌≤◌, refl, inl, inr, Bool,
  List, [], ◌∷◌, Str, is_some, ℕ_key, str_key, ap, arith, length,
}
use ft_irc_refactor.Server.Turning.Run.{run-Keeps}
use ft_irc_refactor.Server.Loop.{run, Poll}
use ft_irc_refactor.Client.{Client}
use ft_irc_refactor.Server.Keeps.{Keeps-modify, Keeps-deref, Keeps-bind}
use ft_irc_refactor.Channel.{Ptr}
use ft_irc_refactor.Cmd.Frame.Message.{handle_client_cmd-Keeps}
use ft_irc_refactor.Cmd.Frame.{Quiet, Frame}
use ft_irc_refactor.Server.Teardown.{max_clients, is_full, forget_client, add_client}
use ft_irc_refactor.Server.Net.{
  mark_client_for_removal_cases, is_fd, disable_poll_out_event, update_clients,
  enable_poll_out_event, mark_client_for_removal, update_slot,
}
use ft_irc_refactor.Server.State.{update_client, PollFd, Env, Server}
use ft_irc_refactor.Server.Turning.{Slots, Turns}

-- The server's slot, and those of the clients.
abbrev pub max_slots : ℕ
max_slots = suc max_clients

pub record Within (s : Server) : Type 0 where
  pub slots : length s.fds ≤ max_slots

length-update_slot :
    (fd : ℕ) (f : PollFd → PollFd) (ps : List PollFd) → length (update_slot fd f ps) ≡ length ps
unfolding update_slot
length-update_slot fd f [] = refl
length-update_slot fd f (p ∷ ps) = elim (Bool-cases (is_fd fd p.fd)) [
  | inl e ↦ rw e refl
  | inr e ↦ rw e (ap suc (length-update_slot fd f ps))
]

length-filter_by : {A : Type 0} (p : A → Bool) (xs : List A) → length (filter_by p xs) ≤ length xs
length-filter_by p [] = omega arith
length-filter_by p (x ∷ xs) = ground (arith, length-filter_by p xs)

-- Some slots are like the ones before, others are new.
same_number :
    (s : Server) (fd : ℕ) (f : PollFd → PollFd) (t : Server)
    → t.fds ≡ update_slot fd f s.fds
    → Within s
    → Within t
same_number s fd f t e w = record {
  slots = omega (arith, ap length e, length-update_slot fd f s.fds, w.slots);
}

room : (s : Server) → is_full s ≡ false → length s.fds ≤ max_clients
room s e = ground arith

mark-Within : (fd : ℕ) (s : Server) → Within s → Within (mark_client_for_removal fd s)
mark-Within fd s w = mark_client_for_removal_cases Within fd s w (same_number s fd _ _ refl w)

within : Quiet Within
unfolding enable_poll_out_event update_client
within = record {
  edit = λ p f e.
      Keeps-bind _ _ (Keeps-deref p) (λ c. Keeps-modify _ (λ s w. record { slots = w.slots }));
  register = λ p c s there ready w. record { slots = w.slots };
  nicked = λ p c s there old w. record { slots = w.slots };
  mark = mark-Within;
  poll_out = λ fd s w. same_number s fd _ _ refl w;
  output = λ s n wire w. record { slots = w.slots };
}

frame : Frame Within (λ p fd. Unit {0})
unfolding update_clients
frame = record {
  changes = λ p c f s there e w. record { slots = w.slots };
  channel = λ s chs w. record { slots = w.slots };
  nick = λ s m w. record { slots = w.slots };
  learn = λ p s c w there. tt;
  client = λ p fd known s w. record { slots = w.slots };
}

add_client-Within :
    (fd : ℕ) (host : Str) (s : Server)
    → is_full s ≡ false
    → Within s
    → Within (add_client fd host s)
unfolding add_client
add_client-Within fd host s e w = record {
  slots =
      omega (arith, room s e, length-append s.fds (record { fd = some fd; pollout = false } ∷ []));
}

within_slots : Slots Within
unfolding disable_poll_out_event
within_slots = record {
  reads = record {
    mark = mark-Within;
    disable = λ fd s w. same_number s fd _ _ refl w;
    output = λ s n wire w. record { slots = w.slots };
    buffers = λ p c d s e same w. record { slots = w.slots };
    message = λ env c. handle_client_cmd-Keeps within frame env c;
  };
  accept = add_client-Within;
}

forget_client-Within :
    (p : Ptr) (c : Client) (s : Server)
    → find p s.heap ≡ some c
    → Within s
    → Within (forget_client p c s)
unfolding forget_client
forget_client-Within p c s there w = same_number s c.fd _ _ refl w

clear-Within :
    (s : Server)
    → Within s
    → Within (record s { to_remove = []; fds = filter_by (λ slot. is_some slot.fd) s.fds })
clear-Within s w = record {
  slots = omega (arith, length-filter_by (λ slot. is_some slot.fd) s.fds, w.slots);
}

pub within_turns : Turns Within
within_turns = record {
  slots = within_slots;
  tick = λ now s w. record { slots = w.slots };
  cleanup = cleanup-Keeps forget_client-Within clear-Within;
}

-- Whatever connections come, `_fds` never has more than the slot of the server and MAX_CLIENTS
-- others, those of descriptor -1 included, if this holds where the loop starts.
pub run-Within :
    (env : Env) (events : List (ℕ × Poll)) (s : Server) → Within s → Within (run env events s).1
run-Within env events s w = (run-Keeps within_turns env events).at s w
