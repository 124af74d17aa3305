-- ===== src/Server/Laws.antt =====
-- The operators, the key and the limit of a channel (include/Channel.hpp), as the commands
-- (src/Cmd/) and removeClientFromServer (src/Server.cpp) keep them.
pub mod Methods
pub mod Room
pub mod Leave
pub mod Options
pub mod Mode
pub mod Change
pub mod Creation
pub mod Join
pub mod Rename
pub mod Message
pub mod Run
use ft_irc_refactor.Cmd.Frame.{Plains, Quiet}
use ft_irc_refactor.Server.Members.Renaming.{find-map}
use ft_irc_refactor.Server.Net.{mark_client_for_removal_cases, enable_poll_out_event}
use ft_irc_refactor.Channel.{limit_mode, is_set_key, key_mode, has_mode, Ptr, Channel}
use ft_irc_refactor.Base.{
  str_eq_iff, not_both, find-assign, same_value, str_eq, Bool-cases, Option-cases, map,
  find-assign_cases, false, true, zero, suc, ℕ, ◌≡◌, ◌≢◌, ◌≤◌, ◌<◌, ◌+◌, ◌-◌, ◌∙◌, ◌↔◌, ◌⊎◌, refl,
  inl, inr, Bool, not, ◌||◌, ◌&&◌, List, [], ◌∷◌, ◌++◌, Option, none, some, Str, Map, is_some, mem,
  find, assign, ℕ_key, str_key, ap, sym, subst, if◌then◌else◌, arith, ◌==◌, codes, crlf, length,
}
use ft_irc_refactor.Server.State.{
  modify, deref, channel_at, update_client, update_channel, Server, ok, throw, fault, sent, again,
  gone, failed, Outcome, ◌>>=◌, ◌>>◌,
}

-- Each operator is a participant, as the same client; mode +k is set exactly if there is a key; and
-- in mode +l there is a limit.
pub record Ruled (ch : Channel) : Type 0 where
  pub operators : (n : Str) (p : Ptr) → find n ch.operator ≡ some p → find n ch.participant ≡ some p
  pub keyed : has_mode key_mode ch ≡ is_set_key ch
  pub limited : has_mode limit_mode ch ≡ true → is_some ch.limit ≡ true

-- Each channel is so.
pub record Lawful (s : Server) : Type 0 where
  pub ruled : (name : Str) (ch : Channel) → find name s.channels ≡ some ch → Ruled ch

pub same-Lawful : (s t : Server) → t.channels ≡ s.channels → Lawful s → Lawful t
same-Lawful s t channels h = record {
  ruled = λ name ch e. h.ruled name ch (subst (λ x. find name x ≡ some ch) channels e);
}

pub Lawful-Quiet : Quiet Lawful
unfolding enable_poll_out_event update_client ◌>>=◌ deref modify
Lawful-Quiet = record {
  edit = λ p f edit. record {
    at = λ s h. elim (Option-cases (find p s.heap)) [
      | inl e ↦ rw e h
      | inr (c, e) ↦ rw e (same-Lawful s _ refl h)
    ];
  };
  register = λ p c s there ready h. same-Lawful s _ refl h;
  nicked = λ p c s there old h. same-Lawful s _ refl h;
  mark = λ fd s h. mark_client_for_removal_cases Lawful fd s h (same-Lawful s _ refl h);
  poll_out = λ fd s h. same-Lawful s _ refl h;
  output = λ s n w h. same-Lawful s _ refl h;
}

-- One channel is replaced, and the others are in order.
pub placed-Lawful :
    (name : Str) (ch : Channel) (s : Server)
    → Ruled ch
    → ((k : Str) (d : Channel) → name ≢ k → find k s.channels ≡ some d → Ruled d)
    → Lawful (record s { channels = assign name ch s.channels })
placed-Lawful name ch s ruled others = record {
  ruled = λ k d e. elim (Bool-cases (str_eq name k)) [
    | inl t ↦ subst Ruled (same_value (rw (find-assign name k ch s.channels, t) at e)) ruled
    | inr f ↦
        others k d (λ same. not_both ((str_eq_iff name k).1 same) f)
          (rw (find-assign name k ch s.channels, f) at e)
  ];
}

pub assign-Lawful :
    (name : Str) (ch : Channel) (s : Server)
    → Ruled ch
    → Lawful s
    → Lawful (record s { channels = assign name ch s.channels })
assign-Lawful name ch s ruled h = placed-Lawful name ch s ruled (λ k d differ e. h.ruled k d e)

-- Each channel is.
pub map-Lawful :
    (f : Channel → Channel) (s t : Server)
    → t.channels ≡ map (λ entry. (entry.0, f entry.1)) s.channels
    → ((name : Str) (ch : Channel) → find name s.channels ≡ some ch → Ruled ch → Ruled (f ch))
    → Lawful s
    → Lawful t
map-Lawful f s t channels keeps h = record {
  ruled = λ name d e.
      let (ch, (held, is)) =
        find-map f name s.channels d (subst (λ x. find name x ≡ some d) channels e) in
      subst Ruled is (keeps name ch held (h.ruled name ch held));
}

-- The topic and the invitations do not matter.
pub plain-Lawful : Plains Lawful
unfolding update_channel channel_at ◌>>=◌ modify is_set_key
plain-Lawful name f plain = record {
  at = λ s h. elim (Option-cases (find name s.channels)) [
    | inl e ↦ rw e h
    | inr (ch, e) ↦
        let r = h.ruled name ch e in
        rw e (
          assign-Lawful name (f ch) s
            (subst Ruled (sym (plain.rest ch))
              (record { operators = r.operators; keyed = r.keyed; limited = r.limited }))
            h)
  ];
}
