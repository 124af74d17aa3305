-- ===== src/Cmd/Frame/Cast.antt =====
-- Marking and sending (src/Server.cpp) inside a quiet.
use ft_irc_refactor.Cmd.Frame.Edits.{edit_rules}
use ft_irc_refactor.Base.{ℕ, Option, none, some, Str, str_key}
use ft_irc_refactor.Client.{Client}
use ft_irc_refactor.Channel.{Ptr, Channel}
use ft_irc_refactor.Server.State.{Env, Server, SendResult, sent, ok, get, modify, update_client}
use ft_irc_refactor.Server.Keeps.{
  Keeps, Keeps-bind, Keeps-modify, Keeps-for_each, Keeps-attempt, Keeps-pure, Keeps-ask,
  Keeps-undefined, keeps_rules,
}
use ft_irc_refactor.Server.Net.{
  mark_client_for_removal, enable_poll_out_event, cast_msg, cast_to, after_send, send,
  broadcast_channel, broadcast_all, cast_participant,
}
use ft_irc_refactor.Cmd.Context.{Cmd, reply}
use ft_irc_refactor.Cmd.Frame.{IsEdit, Quiet}

module _ {P : Server → Type 0} (quiet : Quiet P) where
  pub mark-Keeps : (fd : ℕ) → Keeps P (modify (mark_client_for_removal fd))
  mark-Keeps fd = Keeps-modify _ (quiet.mark fd)

  pub poll_out-Keeps : (fd : ℕ) → Keeps P (modify (enable_poll_out_event fd))
  poll_out-Keeps fd = Keeps-modify _ (quiet.poll_out fd)

  pub edit-Keeps : (p : Ptr) (f : Client → Client) → IsEdit f → Keeps P (update_client p f)
  edit-Keeps = quiet.edit

  pub after_send-Keeps :
      (fd : ℕ) (p : Ptr) (msg tosend : Str) (r : SendResult)
      → Keeps P (after_send fd p msg tosend r)
  unfolding after_send
  after_send-Keeps fd p msg tosend (sent n) =
      search (keeps_rules, edit_rules, edit-Keeps, mark-Keeps, poll_out-Keeps)
  after_send-Keeps fd p msg tosend _ =
      search (keeps_rules, edit_rules, edit-Keeps, mark-Keeps, poll_out-Keeps)

  pub send-Keeps : (env : Env) (fd : ℕ) (bytes : Str) → Keeps P (send env fd bytes)
  unfolding send
  send-Keeps env fd bytes =
      Keeps-bind get _ (Keeps-ask ok)
        λ s. Keeps-bind _ _ (Keeps-modify _ (λ t. quiet.output t _ _)) (λ _. Keeps-pure _)

  cast_to-Keeps : (env : Env) (fd : ℕ) (msg : Str) (o : Option Ptr) → Keeps P (cast_to env fd msg o)
  unfolding cast_to
  cast_to-Keeps env fd msg none = search keeps_rules
  cast_to-Keeps env fd msg (some p) = search (keeps_rules, send-Keeps, after_send-Keeps)

  pub cast_msg-Keeps : (env : Env) (fd : ℕ) (msg : Str) → Keeps P (cast_msg env fd msg)
  unfolding cast_msg
  cast_msg-Keeps env fd msg = search (keeps_rules, cast_to-Keeps)

  pub cast_participant-Keeps :
      (env : Env) (msg : Str) (sender : Option ℕ) (entry : Str × Ptr)
      → Keeps P (cast_participant env msg sender entry)
  unfolding cast_participant
  cast_participant-Keeps env msg sender (nick, p) = search (keeps_rules, cast_msg-Keeps)

  pub broadcast_channel-Keeps :
      (env : Env) (msg : Str) (ch : Channel) (sender : Option ℕ)
      → Keeps P (broadcast_channel env msg ch sender)
  unfolding broadcast_channel
  broadcast_channel-Keeps env msg ch sender = search (keeps_rules, cast_participant-Keeps)

  pub broadcast_all-Keeps : (env : Env) (msg : Str) → Keeps P (broadcast_all env msg)
  unfolding broadcast_all
  broadcast_all-Keeps env msg = search (keeps_rules, cast_msg-Keeps)

  pub reply-Keeps : (env : Env) (c : Cmd) (text : Str) → Keeps P (reply env c text)
  unfolding reply
  reply-Keeps env c text = cast_msg-Keeps env _ _

  pub ruleset cast_rules = (keeps_rules, cast_msg-Keeps, broadcast_channel-Keeps, reply-Keeps)
