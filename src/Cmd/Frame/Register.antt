-- ===== src/Cmd/Frame/Register.antt =====
-- CAP, PASS, USER, PING and QUIT, and the checks of NICK (src/Cmd/) inside a frame.
use ft_irc_refactor.Client.{set_registered_status, Client}
use ft_irc_refactor.Base.{
  inl, inr, refl, Bool-cases, none, true, ℕ_key, find, ◌&&◌, ◌≡◌, List, ◌∷◌, Option, some, Str,
  str_key,
}
use ft_irc_refactor.Channel.{Ptr}
use ft_irc_refactor.Server.State.{
  ◌>>◌, ◌>>=◌, and_then, modify, deref, when, update_client, Action, found, Env, Server,
}
use ft_irc_refactor.Server.Keeps.{found-some, Keeps-bind, Keeps-ask-bind, Keeps}
use ft_irc_refactor.Cmd.Context.{self, Cmd}
use ft_irc_refactor.Cmd.Register.{
  cmd_cap, cmd_pass, cmd_user, cmd_ping, cmd_quit, check_nick, print_welcome, print_motd,
  check_username, check_realname, user_tokens, user_realname,
}
use ft_irc_refactor.Cmd.Frame.{Quiet}
use ft_irc_refactor.Cmd.Frame.Acts.{act, marks-Keeps}

-- The end of cmdUser.
finish : Env → Cmd → Ptr → Client → Action (Unit {0})
finish env c p now =
    when (now.pass && now.nick && now.user)
      (do update_client p (set_registered_status true); print_welcome env c)

module _ {P : Server → Type 0} (quiet : Quiet P) where
  pub cmd_cap-Keeps : (env : Env) (c : Cmd) → Keeps P (cmd_cap env c)
  unfolding cmd_cap
  cmd_cap-Keeps env c = search act

  pub cmd_pass-Keeps : (c : Cmd) → Keeps P (cmd_pass c)
  unfolding cmd_pass
  cmd_pass-Keeps c = search act depth 12

  pub check_nick-Keeps : (c : Cmd) (str : Str) → Keeps P (check_nick c str)
  unfolding check_nick
  check_nick-Keeps c str = search act depth 14

  pub print_motd-Keeps :
      (env : Env) (c : Cmd) (nick : Str) (motd : Option (List Str))
      → Keeps P (print_motd env c nick motd)
  unfolding print_motd
  print_motd-Keeps env c nick none = search act
  print_motd-Keeps env c nick (some lines) = search act

  pub print_welcome-Keeps : (env : Env) (c : Cmd) → Keeps P (print_welcome env c)
  unfolding print_welcome
  print_welcome-Keeps env c = search (act, print_motd-Keeps) depth 16

  pub check_username-Keeps : (c : Cmd) (str : Str) → Keeps P (check_username c str)
  unfolding check_username
  check_username-Keeps c str = search act depth 12

  pub check_realname-Keeps : (c : Cmd) (str : Str) → Keeps P (check_realname c str)
  unfolding check_realname
  check_realname-Keeps c str = search act depth 12

  pub user_realname-Keeps :
      (c : Cmd) (p : Ptr) (token : Str) (rest : List Str) → Keeps P (user_realname c p token rest)
  unfolding user_realname
  user_realname-Keeps c p token rest = search (act, check_realname-Keeps) depth 12

  pub user_tokens-Keeps : (c : Cmd) (p : Ptr) (ts : List Str) → Keeps P (user_tokens c p ts)
  unfolding user_tokens
  user_tokens-Keeps c p (user ∷ host ∷ server ∷ name ∷ rest) =
      search (act, check_username-Keeps, user_realname-Keeps) depth 12
  user_tokens-Keeps c p _ = search act

  finish_at :
      (env : Env) (c : Cmd) (p : Ptr) (s : Server)
      → P s
      → (o : Option Client) → find p s.heap ≡ o
      → P (and_then (found o) (finish env c p) s).1
  unfolding update_client ◌>>=◌ deref modify finish
  finish_at env c p s h none e = h
  finish_at env c p s h (some me) e = elim (Bool-cases (me.pass && me.nick && me.user)) [
    | inl t ↦ rw (t, e) ((print_welcome-Keeps env c).at _ (quiet.register p me s e t h))
    | inr f ↦ rw f h
  ]

  finish-Keeps :
      (env : Env) (c : Cmd) (p : Ptr) → c.client ≡ some p → Keeps P (self c >>= finish env c p)
  unfolding ◌>>=◌ deref
  finish-Keeps env c p own = record {
    at = λ s h. rw own (finish_at env _ p s h (find p s.heap) refl);
  }

  pub cmd_user-Keeps : (env : Env) (c : Cmd) → Keeps P (cmd_user env c)
  unfolding cmd_user finish
  cmd_user-Keeps env c = Keeps-bind _ _ (search act) λ me. Keeps-bind _ _ (search act) λ _.
      Keeps-bind _ _ (search act) λ _. Keeps-bind _ _ (search act) λ _.
        Keeps-ask-bind _ _ λ s p h e. Keeps-bind _ _ (user_tokens-Keeps c p _) λ _.
          Keeps-bind _ _ (search act)
            λ _. Keeps-bind _ _ (search act) λ _. finish-Keeps env c p (found-some c.client p e)

  pub cmd_ping-Keeps : (env : Env) (c : Cmd) → Keeps P (cmd_ping env c)
  unfolding cmd_ping
  cmd_ping-Keeps env c = search act depth 12

  pub cmd_quit-Keeps : (c : Cmd) → Keeps P (cmd_quit c)
  unfolding cmd_quit
  cmd_quit-Keeps c = search (act, marks-Keeps)
