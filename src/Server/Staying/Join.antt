-- ===== src/Server/Staying/Join.antt =====
-- JOIN and NICK (src/Cmd/CmdJoin.cpp, CmdNick.cpp): nobody leaves a channel.
use ft_irc_refactor.Cmd.Frame.Join.{send_topic-Keeps, name_str-Keeps, check_join-Keeps}
use ft_irc_refactor.Cmd.Frame.Acts.{act}
use ft_irc_refactor.Cmd.Frame.Seats.{remove_invited-SameSeats, add_operator-SameSeats}
use ft_irc_refactor.Server.Keeps.{and_then-at, Keeps}
use ft_irc_refactor.Cmd.Context.{Cmd}
use ft_irc_refactor.Cmd.Join.{enter_channel, check_join, is_no_key, join_channel, create_channel}
use ft_irc_refactor.Cmd.Frame.{Updates, Quiet}
use ft_irc_refactor.Channel.{key_mode, add_participant, add_operator, Ptr}
use ft_irc_refactor.Base.{
  Option-cases, ◌≡◌, refl, inl, inr, not, [], Option, none, some, Str, mem, find, ℕ_key, str_key,
  if◌then◌else◌,
}
use ft_irc_refactor.Server.State.{
  channel_at, update_channel, deref, when, modify, Env, pure, Server, ◌>>=◌, ◌>>◌,
}
use ft_irc_refactor.Server.Staying.{Stays, Stays-Quiet}
use ft_irc_refactor.Server.Staying.Steps.{
  open_channel-at, Wider-Keeps, add_participant-Wider, stays-Updates,
}

module _ {P : Server → Type 0} (quiet : Quiet P) (updates : Updates P)
    (enter : (nick : Str) (p : Ptr) (name : Str)
      → Keeps P (update_channel name (add_participant nick p))) where
  enter_channel-Keeps :
      (env : Env) (c : Cmd) (p : Ptr) (name : Str) → Keeps P (enter_channel env c p name)
  unfolding enter_channel
  enter_channel-Keeps env c p name =
      search (act, enter, updates, remove_invited-SameSeats, name_str-Keeps, send_topic-Keeps) depth
        24

  behind_creation-Keeps :
      (env : Env) (c : Cmd) (p : Ptr) (nick name key : Str)
      → Keeps P
          (channel_at name >>= λ ch. (check_join nick name key ch >> enter_channel env c p name))
  behind_creation-Keeps env c p nick name key =
      search (act, check_join-Keeps, enter_channel-Keeps) depth 10

module _ (own : Option Ptr) (excused : Str → Type 0) (before : Server) where
  abbrev Stay : Server → Type 0
  Stay = Stays own excused before

  -- A channel is created only where there is none of the name.
  create_channel-at :
      (p : Ptr) (nick name key : Str) (s : Server)
      → find name s.channels ≡ none
      → Stay s
      → Stay (create_channel p nick name key s).1
  unfolding create_channel ◌>>=◌ modify
  create_channel-at p nick name key s free h =
      (stays-Updates own excused before name (add_operator nick p)
          (add_operator-SameSeats nick p)).at
        _
        (open_channel-at own excused before name (if is_no_key key then [] else key)
          (if is_no_key key then none else some key_mode) s free h)

  created-at :
      (p : Ptr) (nick name key : Str) (s : Server)
      → Stay s
      → Stay (when (not (mem name s.channels)) (create_channel p nick name key) s).1
  unfolding pure
  created-at p nick name key s h = elim (Option-cases (find name s.channels)) [
    | inl e ↦ rw e (create_channel-at p nick name key s e h)
    | inr (ch, e) ↦ rw e h
  ]

  behind :
      (env : Env) (c : Cmd) (p : Ptr) (nick name key : Str)
      → Keeps Stay
          (channel_at name >>= λ ch. (check_join nick name key ch >> enter_channel env c p name))
  behind =
      behind_creation-Keeps (Stays-Quiet own excused before) (stays-Updates own excused before)
        (λ nick p name.
          Wider-Keeps own excused before name (add_participant nick p)
            (add_participant-Wider nick p))

  join_channel_from :
      (env : Env) (c : Cmd) (name key : Str) (o : Option Ptr) (s : Server)
      → c.client ≡ o
      → Stay s
      → Stay (join_channel env c name key s).1
  unfolding join_channel ◌>>=◌ deref
  join_channel_from env c name key none s is h = rw is h
  join_channel_from env c name key (some p) s is h = elim (Option-cases (find p s.heap)) [
    | inl e ↦ rw (is, e) h
    | inr (me, e) ↦
        let first = created-at p me.nickname name key s h in
        rw (is, e)
          (and_then-at Stay
            (when (not (mem name s.channels)) (create_channel p me.nickname name key) s).0 _ _ first
            (λ _. (behind env _ p me.nickname name key).at _ first))
  ]

  pub join_channel-Stays :
      (env : Env) (c : Cmd) (name key : Str) → Keeps Stay (join_channel env c name key)
  join_channel-Stays env c name key = record {
    at = λ s h. join_channel_from env c name key c.client s refl h;
  }
