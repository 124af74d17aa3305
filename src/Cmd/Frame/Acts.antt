-- ===== src/Cmd/Frame/Acts.antt =====
-- What the commands (src/Cmd/) are made of, inside a frame.
use ft_irc_refactor.Base.{ℕ, Option, Str, ℕ_key, str_key}
use ft_irc_refactor.Cmd.Frame.{IsEdit, Quiet}
use ft_irc_refactor.Cmd.Frame.Edits.{edit_rules}
use ft_irc_refactor.Server.State.{Env, Server, modify, update_client}
use ft_irc_refactor.Client.{Client}
use ft_irc_refactor.Channel.{Ptr, Channel}
use ft_irc_refactor.Server.Keeps.{
  Keeps, Keeps-bind, Keeps-deref, Keeps-modify, Keeps-for_each, Keeps-attempt, Keeps-pure,
  Keeps-ask, Keeps-undefined, keeps_rules,
}
use ft_irc_refactor.Server.Net.{
  mark_client_for_removal, cast_msg, broadcast_channel, get_client_by_nickname,
}
use ft_irc_refactor.Cmd.Context.{Cmd, reply}
use ft_irc_refactor.Cmd.Frame.Cast.{
  cast_msg-Keeps, broadcast_channel-Keeps, reply-Keeps, mark-Keeps,
}

module _ {P : Server → Type 0} (quiet : Quiet P) where
  pub update-Keeps : (p : Ptr) (f : Client → Client) → IsEdit f → Keeps P (update_client p f)
  update-Keeps = quiet.edit

  pub casts-Keeps : (env : Env) (fd : ℕ) (msg : Str) → Keeps P (cast_msg env fd msg)
  casts-Keeps = cast_msg-Keeps quiet

  pub broadcast-Keeps :
      (env : Env) (msg : Str) (ch : Channel) (sender : Option ℕ)
      → Keeps P (broadcast_channel env msg ch sender)
  broadcast-Keeps = broadcast_channel-Keeps quiet

  pub replies-Keeps : (env : Env) (c : Cmd) (text : Str) → Keeps P (reply env c text)
  replies-Keeps = reply-Keeps quiet

  pub by_nickname-Keeps : (nick : Str) → Keeps P (get_client_by_nickname nick)
  unfolding get_client_by_nickname
  by_nickname-Keeps nick = Keeps-ask _

  pub ruleset act = (
    keeps_rules, edit_rules, update-Keeps, casts-Keeps, broadcast-Keeps, replies-Keeps,
    by_nickname-Keeps,
  )

  pub marks-Keeps : (fd : ℕ) → Keeps P (modify (mark_client_for_removal fd))
  marks-Keeps = mark-Keeps quiet
