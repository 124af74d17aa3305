-- ===== src/Cmd/Frame/Joining.antt =====
-- JOIN as a whole (src/Cmd/CmdJoin.cpp) inside a frame: an invariant that joining one channel
-- keeps, where the client that gives the command is registered.
use ft_irc_refactor.Base.{
  same_value, Option-cases, Bool-cases, ◌≡◌, ◌∙◌, refl, inl, inr, List, [], ◌∷◌, Option, none, some,
  Str, find, ℕ_key, str_key, ap, sym, if◌then◌else◌,
}
use ft_irc_refactor.Cmd.Frame.Cast.{reply-Keeps}
use ft_irc_refactor.Reply
use ft_irc_refactor.Cmd.Join.{
  cmd_join, join_registered, check_channel_names, join_channels, join_channel,
}
use ft_irc_refactor.Server.State.{deref, ◌>>=◌, Env, Server}
use ft_irc_refactor.Client.{Client}
use ft_irc_refactor.Channel.{Ptr}
use ft_irc_refactor.Server.Keeps.{Keeps, Keeps-bind}
use ft_irc_refactor.Cmd.Context.{reply, Cmd}
use ft_irc_refactor.Cmd.Frame.{Quiet}
use ft_irc_refactor.Cmd.Frame.Acts.{act}
use ft_irc_refactor.Cmd.Frame.Join.{IsRegistered, both_quiet, quiet_branch}

-- For an invariant that joining one channel keeps.
module _ {P : Server → Type 0} (quiet : Quiet P) where
  abbrev Joins : Env → Cmd → Type 0
  Joins env c = (name key : Str) → Keeps P (join_channel env c name key)

  join_channels-Keeps :
      (env : Env) (c : Cmd) (channel key : List Str)
      → Joins env c
      → Keeps P (join_channels env c channel key)
  unfolding join_channels
  join_channels-Keeps env c [] key joins = search act
  join_channels-Keeps env c (ch ∷ chs) [] joins =
      Keeps-bind _ _ (joins ch []) (λ _. join_channels-Keeps env c chs [] joins)
  join_channels-Keeps env c (ch ∷ chs) (k ∷ ks) joins =
      Keeps-bind _ _ (joins ch k) (λ _. join_channels-Keeps env c chs ks joins)

  names_ok-Keeps : (nick : Str) (chs : List Str) → Keeps P (check_channel_names nick chs)
  unfolding check_channel_names
  names_ok-Keeps nick [] = search act
  names_ok-Keeps nick (ch ∷ chs) = Keeps-bind _ _ (search act) (λ _. names_ok-Keeps nick chs)

  join_registered-Keeps :
      (env : Env) (c : Cmd) (nick : Str) → Joins env c → Keeps P (join_registered env c nick)
  unfolding join_registered
  join_registered-Keeps env c nick joins =
      search (act, names_ok-Keeps, join_channels-Keeps) depth 10

module _ (c : Cmd) where
  same_client :
      (p q : Ptr) (me d : Client) (s : Server)
      → c.client ≡ some p
      → c.client ≡ some q
      → find p s.heap ≡ some me
      → find q s.heap ≡ some d
      → me ≡ d
  same_client p q me d s own own' there there' =
      same_value (sym there ∙ ap (λ x. find x s.heap) (one own own') ∙ there')
    where
      one : {o : Option Ptr} {a b : Ptr} → o ≡ some a → o ≡ some b → a ≡ b
      one e f = cc

module _ {P : Server → Type 0} (quiet : Quiet P) (env : Env) where
  -- Whatever else the command is.
  abbrev pub JoinsOf : Option Ptr → Type 0
  JoinsOf own =
      (c : Cmd)
      → own ≡ c.client
      → (name key : Str) → Keeps (λ s. P s × IsRegistered c.client s) (join_channel env c name key)

  cmd_join-at :
      (c : Cmd) (p : Ptr) (me : Client) (s : Server)
      → JoinsOf c.client
      → c.client ≡ some p
      → find p s.heap ≡ some me
      → P s
      → P
          ((if me.registered
              then join_registered env c me.nickname
              else reply env c (Reply.err_notregistered me.nickname))
            s).1
  cmd_join-at c p me s joins own there h = elim (Bool-cases me.registered) [
    | inl old ↦
        rw old
          ((join_registered-Keeps (both_quiet quiet (quiet_branch c.client)) env c me.nickname
              (joins c refl)).at
            s
            (
              h,
              λ q d own' there'.
                  ap (λ x. x.registered) (sym (same_client c p q me d s own own' there there'))
                  ∙ old,
            )).0
    | inr new ↦ rw new ((reply-Keeps quiet env c _).at s h)
  ]

  cmd_join_from :
      (c : Cmd) (o : Option Ptr) (s : Server)
      → JoinsOf o
      → c.client ≡ o
      → P s
      → P (cmd_join env c s).1
  unfolding cmd_join ◌>>=◌ deref
  cmd_join_from c none s joins own h = rw own h
  cmd_join_from c (some p) s joins own h = elim (Option-cases (find p s.heap)) [
    | inl e ↦ rw (own, e) h
    | inr (me, there) ↦ rw (own, there) (cmd_join-at _ p me s joins refl there h)
  ]

  pub cmd_join-Keeps : (c : Cmd) → JoinsOf c.client → Keeps P (cmd_join env c)
  cmd_join-Keeps c joins = record { at = λ s h. cmd_join_from c c.client s joins refl h }
