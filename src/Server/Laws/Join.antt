-- ===== src/Server/Laws/Join.antt =====
-- JOIN (src/Cmd/CmdJoin.cpp): whoever enters a channel, it stays in order.
use ft_irc_refactor.Server.Laws.Methods.{add_participant-Ruled}
use ft_irc_refactor.Server.Laws.Room.{checked_then}
use ft_irc_refactor.Server.Keeps.{Keeps}
use ft_irc_refactor.Cmd.Frame.Join.{check_join-Keeps, entered-Keeps, entered}
use ft_irc_refactor.Client.{Client}
use ft_irc_refactor.Server.Net.{set_channels}
use ft_irc_refactor.Cmd.Context.{Cmd}
use ft_irc_refactor.Cmd.Join.{create_channel, join_channel, enter_channel, check_join}
use ft_irc_refactor.Channel.{Channel, add_participant, Ptr}
use ft_irc_refactor.Base.{
  same_value, sym, Option-cases, find-assign_same, not_found, find-assign_cases, ◌≡◌, ◌≢◌, ◌∙◌,
  refl, inl, inr, Option, none, some, Str, find, assign, ℕ_key, str_key, ap, subst,
}
use ft_irc_refactor.Server.State.{
  modify, deref, channel_at, update_channel, Server, pure, Env, ok, ◌>>=◌,
}
use ft_irc_refactor.Server.Laws.{placed-Lawful, Ruled, Lawful, Lawful-Quiet, plain-Lawful}
use ft_irc_refactor.Server.Laws.Creation.{blank, made, made-Fresh, joined-Ruled, passes}

module _ (env : Env) (c : Cmd) (p : Ptr) (me : Client) (name : Str) where
  enter_channel-Lawful :
      (ch : Channel) (s : Server)
      → find p s.heap ≡ some me
      → find name s.channels ≡ some ch
      → Ruled (add_participant me.nickname p ch)
      → ((k : Str) (d : Channel) → name ≢ k → find k s.channels ≡ some d → Ruled d)
      → Lawful (enter_channel env c p name s).1
  unfolding enter_channel entered update_channel channel_at deref ◌>>=◌ modify
  enter_channel-Lawful ch s there held ruled others =
      rw (there, held, held)
        ((entered-Keeps Lawful-Quiet plain-Lawful env c me ch name).at _
          (placed-Lawful name _ s ruled others))

-- The command, when its client is the one at this address.
abbrev pub given : Cmd → Ptr → Cmd
given c p = record c { client = some p }

-- A new channel of this name.
module _ (p : Ptr) (nick name key : Str) (s : Server) where
  abbrev pub opened : Server
  opened = record s {
    channels = assign name (made p nick name key) (assign name (blank name key) s.channels);
  }

  pub created : find name s.channels ≡ none → create_channel p nick name key s ≡ (ok tt, opened)
  unfolding create_channel set_channels update_channel channel_at ◌>>=◌ modify
  created new = rw (find-assign_same name (blank name key) s.channels) refl

module _ (env : Env) (c : Cmd) (p : Ptr) (me : Client) (name key : Str) (s : Server)
    (there : find p s.heap ≡ some me) (h : Lawful s) where
  old_channel :
      (ch : Channel)
      → find name s.channels ≡ some ch
      → Lawful (join_channel env (given c p) name key s).1
  unfolding join_channel channel_at deref ◌>>=◌ pure
  old_channel ch held =
      rw (there, held, held)
        (checked_then Lawful (check_join me.nickname name key ch)
          (λ _. enter_channel env (given c p) p name) s
          ((check_join-Keeps {P = λ t. t ≡ s} me.nickname name key ch).at s refl) h
          λ _ _.
            enter_channel-Lawful env (given c p) p me name ch s there held
              (add_participant-Ruled me.nickname p ch (h.ruled name ch held))
              (λ k d differ e. h.ruled k d e))

  others :
      (k : Str) (d : Channel)
      → name ≢ k
      → find k (opened p me.nickname name key s).channels ≡ some d
      → Ruled d
  others k d differ e =
      elim (find-assign_cases name k _ d (assign name (blank name key) s.channels) e) [
        | inl (same, _) ↦ absurd (differ same)
        | inr f ↦ elim (find-assign_cases name k _ d s.channels f) [
          | inl (same, _) ↦ absurd (differ same)
          | inr old ↦ h.ruled k d old
        ]
      ]

  new_channel-Lawful :
      find name s.channels ≡ none → Lawful (join_channel env (given c p) name key s).1
  unfolding join_channel channel_at deref ◌>>=◌ pure
  new_channel-Lawful new =
      let fresh = made-Fresh p me.nickname name key in
      let held =
        find-assign_same name (made p me.nickname name key)
          (assign name (blank name key) s.channels) in
      rw
        (
          there,
          new,
          created p me.nickname name key s new,
          held,
          passes p me.nickname name key _ (opened p me.nickname name key s) fresh,
        )
        (enter_channel-Lawful env (given c p) p me name (made p me.nickname name key)
          (opened p me.nickname name key s) there held (joined-Ruled p me.nickname key _ fresh)
          others)

  joined-Lawful : Lawful (join_channel env (given c p) name key s).1
  joined-Lawful = elim (Option-cases (find name s.channels)) [
    | inl new ↦ new_channel-Lawful new
    | inr (ch, held) ↦ old_channel ch held
  ]

no_client :
    (env : Env) (c : Cmd) (name key : Str) (s : Server) (o : Option Ptr)
    → c.client ≡ o
    → ((p : Ptr) → o ≡ some p → find p s.heap ≡ none)
    → (join_channel env c name key s).1 ≡ s
unfolding join_channel ◌>>=◌ deref
no_client env c name key s none own dead = rw own refl
no_client env c name key s (some p) own dead = rw (own, dead p refl) refl

-- An invariant that JOIN keeps where its client is living.
pub join_channel-Keeps :
    (P : Server → Type 0) (env : Env) (c : Cmd) (name key : Str)
    → ((p : Ptr) (me : Client) (s : Server)
        → find p s.heap ≡ some me
        → P s
        → P (join_channel env (given c p) name key s).1)
    → Keeps P (join_channel env c name key)
join_channel-Keeps P env c name key joins = record { at = λ s h. from c.client s refl h }
  where
    from : (o : Option Ptr) (s : Server) → c.client ≡ o → P s → P (join_channel env c name key s).1
    from none s own h =
        subst P (sym (no_client env c name key s none own (λ p e. absurd (not_found e)))) h
    from (some p) s own h = elim (Option-cases (find p s.heap)) [
      | inl e ↦
          subst P
            (sym (
              no_client env c name key s (some p) own
                (λ q is. ap (λ x. find x s.heap) (sym (same_value is)) ∙ e)))
            h
      | inr (me, there) ↦
          subst (λ d. P (join_channel env d name key s).1)
            (sym (ap (λ o. record c { client = o }) own)) (joins p me s there h)
    ]

pub join_channel-Lawful :
    (env : Env) (c : Cmd) (name key : Str) → Keeps Lawful (join_channel env c name key)
join_channel-Lawful env c name key =
    join_channel-Keeps Lawful env c name key
      (λ p me s there h. joined-Lawful env c p me name key s there h)
