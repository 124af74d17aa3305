-- ===== src/Cmd/Errors.antt =====
-- Exceptions of the commands (src/Cmd/): where a handler throws, what it has done before.
pub mod Handlers
pub mod Modes
pub mod Verbs
use ft_irc_refactor.Base.{
  ℕ_key, str_eq, find, Map, ℕ, ◌≡◌, [], ◌∷◌, Option, none, some, Str, inl, inr, Bool-cases,
  Option-cases,
}
use ft_irc_refactor.Channel.{Ptr, Channel}
use ft_irc_refactor.Client.{Client}
use ft_irc_refactor.Server.State.{
  ◌>>=◌, ask, Env, throw, Action, SendResult, sent, again, gone, failed,
}
use ft_irc_refactor.Server.Effects.{
  Throws-update_client, ReadOnly, Throws, Never, Atomic, reading, throwing, ReadOnly-ask,
  ReadOnly-bind, Throws-bind, Throws-for_each, Atomic-bind, Atomic-ReadOnly, Atomic-Never,
  Atomic-if, Throws-modify,
}
use ft_irc_refactor.Server.Net.{
  find_nickname, cast_msg, cast_to, send, after_send, broadcast_channel, cast_participant,
  broadcast_all, get_client_by_nickname,
}
use ft_irc_refactor.Cmd.Context.{Cmd, reply}
use ft_irc_refactor.Cmd.Register.{cmd_pass}

find_nickname-Never :
    (heap : Map Ptr Client) (nick : Str) (m : Map ℕ Ptr) (e : Str)
    → ¬ (find_nickname heap nick m ≡ throw e)
unfolding find_nickname
find_nickname-Never heap nick [] e h = absurd (cc)
find_nickname-Never heap nick ((fd, p) ∷ m) e h = elim (Option-cases (find p heap)) [
  | inl x ↦ absurd (let k = rw (x, find_nickname) at h in (cc))
  | inr (c, x) ↦ elim (Bool-cases (str_eq c.nickname nick)) [
    | inl y ↦ absurd (let k = rw (x, find_nickname, y) at h in (cc))
    | inr y ↦ find_nickname-Never heap nick m e (rw (x, find_nickname, y) at h)
  ]
]

module _ {E : Str → Type 0} where
  pub send-Throws : (env : Env) (fd : ℕ) (bytes : Str) → Throws E (send env fd bytes)
  unfolding send
  send-Throws env fd bytes = search throwing

  after_send-Throws :
      (fd : ℕ) (p : Ptr) (m t : Str) (r : SendResult) → Throws E (after_send fd p m t r)
  unfolding after_send
  after_send-Throws fd p m t (sent n) = search throwing
  after_send-Throws fd p m t again = search throwing
  after_send-Throws fd p m t gone = search throwing
  after_send-Throws fd p m t failed = search throwing

  cast_to-Throws : (env : Env) (fd : ℕ) (m : Str) (p : Option Ptr) → Throws E (cast_to env fd m p)
  unfolding cast_to
  cast_to-Throws env fd m none = search throwing
  cast_to-Throws env fd m (some p) = search (throwing, send-Throws, after_send-Throws)

  pub cast_msg-Throws : (env : Env) (fd : ℕ) (m : Str) → Throws E (cast_msg env fd m)
  unfolding cast_msg
  cast_msg-Throws env fd m = search (throwing, cast_to-Throws)

  cast_participant-Throws :
      (env : Env) (m : Str) (from : Option ℕ) (x : Str × Ptr)
      → Throws E (cast_participant env m from x)
  unfolding cast_participant
  cast_participant-Throws env m from (nick, p) = search (throwing, cast_msg-Throws)

  pub broadcast_channel-Throws :
      (env : Env) (m : Str) (ch : Channel) (from : Option ℕ)
      → Throws E (broadcast_channel env m ch from)
  unfolding broadcast_channel
  broadcast_channel-Throws env m ch from = Throws-for_each _ _ (cast_participant-Throws env m from)

  pub broadcast_all-Throws : (env : Env) (m : Str) → Throws E (broadcast_all env m)
  unfolding broadcast_all
  broadcast_all-Throws env m = search (throwing, cast_msg-Throws)

  pub reply-Throws : (env : Env) (c : Cmd) (text : Str) → Throws E (reply env c text)
  unfolding reply
  reply-Throws env c text = cast_msg-Throws env _ _

  pub by_nickname-Throws : (nick : Str) → Throws E (get_client_by_nickname nick)
  unfolding get_client_by_nickname ask
  by_nickname-Throws nick = record {
    kind = λ s e h. absurd (find_nickname-Never s.heap nick s.clients e h);
  }

  pub ruleset sending = (
    throwing, cast_msg-Throws, broadcast_channel-Throws, broadcast_all-Throws, reply-Throws,
    by_nickname-Throws,
  )

pub by_nickname-ReadOnly : (nick : Str) → ReadOnly (get_client_by_nickname nick)
unfolding get_client_by_nickname
by_nickname-ReadOnly nick = ReadOnly-ask _

pub ruleset checks = (reading, by_nickname-ReadOnly)

-- Checks, and then statements that do not throw.
pub ruleset atomic = (checks, Atomic-bind, Atomic-if)
