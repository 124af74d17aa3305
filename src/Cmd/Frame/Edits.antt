-- ===== src/Cmd/Frame/Edits.antt =====
-- The methods of Client (src/Client.cpp) that the commands use, inside a frame, and the invariants
use ft_irc_refactor.Base.{
  Option, find-assign_same, is_alnum, ◌≤◌, ◌≡◌, find, ℕ_key, some, ℕ, true, Str, refl, str_key,
  length, all,
}
-- that no change of a nickname or of a channel can break.
use ft_irc_refactor.Cmd.Frame.{Moves, Channels, GoodNick, Frame, IsEdit, IsChange}
use ft_irc_refactor.Cmd.Proper.{
  set_nickname-Proper, set_user_status-Proper, set_nick_status-Proper, set_pass_status-Proper, like,
}
use ft_irc_refactor.Client.{
  Client, set_nickname, set_username, set_realname, set_servername, update_last_ping_sent,
  set_pass_status, set_nick_status, set_user_status, set_registered_status, set_prefix,
  append_to_send_buffer, clear_send_buffer,
}
use ft_irc_refactor.Channel.{Ptr}
use ft_irc_refactor.Server.State.{put, Server}
use ft_irc_refactor.Server.Net.{add_client_by_nickname, update_nick_name_client_map}
use ft_irc_refactor.Cmd.Register.{nick_max_len, rename_in_channels}

edits : Unit {0}
unfolding set_nickname set_username set_realname set_servername update_last_ping_sent
    set_pass_status set_nick_status set_user_status set_registered_status set_prefix
    append_to_send_buffer clear_send_buffer
edits = tt

pub set_nickname-IsChange :
    (t : Str) → length t ≤ nick_max_len → all is_alnum t ≡ true → IsChange (set_nickname t)
unfolding edits
set_nickname-IsChange t less good = record {
  same_fd = λ c. refl;
  same_recv = λ c. refl;
  proper = λ c h. set_nickname-Proper t c less good h;
}

pub set_username-IsEdit : (t : Str) → IsEdit (set_username t)
unfolding edits
set_username-IsEdit t = record {
  change = record {
    same_fd = λ c. refl;
    same_recv = λ c. refl;
    proper = λ c h. like c _ refl refl h;
  };
  same_nickname = λ c. refl;
  same_nick = λ c. refl;
  same_registered = λ c. refl;
}

pub set_realname-IsEdit : (t : Str) → IsEdit (set_realname t)
unfolding edits
set_realname-IsEdit t = record {
  change = record {
    same_fd = λ c. refl;
    same_recv = λ c. refl;
    proper = λ c h. like c _ refl refl h;
  };
  same_nickname = λ c. refl;
  same_nick = λ c. refl;
  same_registered = λ c. refl;
}

pub set_servername-IsEdit : (t : Str) → IsEdit (set_servername t)
unfolding edits
set_servername-IsEdit t = record {
  change = record {
    same_fd = λ c. refl;
    same_recv = λ c. refl;
    proper = λ c h. like c _ refl refl h;
  };
  same_nickname = λ c. refl;
  same_nick = λ c. refl;
  same_registered = λ c. refl;
}

pub ping-IsEdit : (n : ℕ) → IsEdit (update_last_ping_sent n)
unfolding edits
ping-IsEdit n = record {
  change = record {
    same_fd = λ c. refl;
    same_recv = λ c. refl;
    proper = λ c h. like c _ refl refl h;
  };
  same_nickname = λ c. refl;
  same_nick = λ c. refl;
  same_registered = λ c. refl;
}

pub set_pass_status-IsEdit : IsEdit (set_pass_status true)
unfolding edits
set_pass_status-IsEdit = record {
  change = record { same_fd = λ c. refl; same_recv = λ c. refl; proper = set_pass_status-Proper };
  same_nickname = λ c. refl;
  same_nick = λ c. refl;
  same_registered = λ c. refl;
}

pub set_nick_status-IsChange : IsChange (set_nick_status true)
unfolding edits
set_nick_status-IsChange = record {
  same_fd = λ c. refl;
  same_recv = λ c. refl;
  proper = set_nick_status-Proper;
}

pub set_user_status-IsEdit : IsEdit (set_user_status true)
unfolding edits
set_user_status-IsEdit = record {
  change = record { same_fd = λ c. refl; same_recv = λ c. refl; proper = set_user_status-Proper };
  same_nickname = λ c. refl;
  same_nick = λ c. refl;
  same_registered = λ c. refl;
}

pub set_prefix-IsEdit : IsEdit set_prefix
unfolding edits
set_prefix-IsEdit = record {
  change = record {
    same_fd = λ c. refl;
    same_recv = λ c. refl;
    proper = λ c h. like c _ refl refl h;
  };
  same_nickname = λ c. refl;
  same_nick = λ c. refl;
  same_registered = λ c. refl;
}

pub append_to_send_buffer-IsEdit : (t : Str) → IsEdit (append_to_send_buffer t)
unfolding edits
append_to_send_buffer-IsEdit t = record {
  change = record {
    same_fd = λ c. refl;
    same_recv = λ c. refl;
    proper = λ c h. like c _ refl refl h;
  };
  same_nickname = λ c. refl;
  same_nick = λ c. refl;
  same_registered = λ c. refl;
}

pub clear_send_buffer-IsEdit : (n : ℕ) → IsEdit (clear_send_buffer n)
unfolding edits
clear_send_buffer-IsEdit n = record {
  change = record {
    same_fd = λ c. refl;
    same_recv = λ c. refl;
    proper = λ c h. like c _ refl refl h;
  };
  same_nickname = λ c. refl;
  same_nick = λ c. refl;
  same_registered = λ c. refl;
}

pub ruleset edit_rules = (
  set_username-IsEdit, set_realname-IsEdit, set_servername-IsEdit, ping-IsEdit,
  set_pass_status-IsEdit, set_user_status-IsEdit, set_prefix-IsEdit, append_to_send_buffer-IsEdit,
  clear_send_buffer-IsEdit,
)

pub set_prefix-IsChange : IsChange set_prefix
set_prefix-IsChange = set_prefix-IsEdit.change

module _ {P : Server → Type 0} {Known : Ptr → ℕ → Type 0} (frame : Frame P Known) where
  -- A nickname, wherever the object stands.
  with_nickname :
      (p : Ptr) (c : Client) (t : Str) (s : Server)
      → find p s.heap ≡ some c
      → GoodNick t
      → P s
      → P (put p (set_nickname t c) s)
  with_nickname p c t s there good h =
      frame.changes p c _ s there (set_nickname-IsChange t good.0 good.1) h

  frame_channels : Channels P
  frame_channels = record { channel = λ s chs fewer tidy h. frame.channel s chs h }

  pub frame-Moves : (own : Option Ptr) → Moves P own
  unfolding add_client_by_nickname update_nick_name_client_map rename_in_channels
  frame-Moves own = record {
    channels = frame_channels;
    join = λ p c name ch s is there registered e h. frame.channel s _ h;
    names = λ p is. record {
      named = λ c t s there new good unused h.
          frame.changes p (set_nickname t c) _ _ (find-assign_same p _ s.heap)
            set_nick_status-IsChange (frame.nick _ _ (with_nickname p c t s there good h));
      renamed = λ c t s there old good unused h. frame.channel _ _ (
          frame.nick _ _ (
            frame.client p c.fd (frame.learn p s c h there) _ (
              frame.changes p (set_nickname t c) _ _ (find-assign_same p _ s.heap)
                set_prefix-IsChange (with_nickname p c t s there good h))));
    };
  }
