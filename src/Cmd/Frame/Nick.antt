-- ===== src/Cmd/Frame/Nick.antt =====
-- NICK (src/Cmd/CmdNick.cpp) inside a frame.
use ft_irc_refactor.Base.{
  ◌≢◌, [], ◌∷◌, is_empty, same_value, codes, ◌++◌, Bool-cases, find-assign_same, Option-cases, leb,
  false, true, ◌≡◌, ◌≤◌, ◌∙◌, refl, inl, inr, Bool, not, Option, none, some, Str, is_some, find,
  ℕ_key, str_key, ap, sym, subst, if◌then◌else◌, arith, length,
}
use ft_irc_refactor.Cmd.Errors.Handlers.{check_nick-ReadOnly}
use ft_irc_refactor.Reply
use ft_irc_refactor.Cmd.Frame.Cast.{broadcast_all-Keeps}
use ft_irc_refactor.Cmd.Frame.Join.{quiet_branch, both_quiet, IsRegistered}
use ft_irc_refactor.Server.Keeps.{Keeps}
use ft_irc_refactor.Client.{set_nick_status, Client, set_nickname, set_prefix}
use ft_irc_refactor.Server.Net.{
  make_msg, update_clients, update_nick_name_client_map, add_client_by_nickname, broadcast_all,
  find_nickname, get_client_by_nickname,
}
use ft_irc_refactor.Channel.{Ptr}
use ft_irc_refactor.Cmd.Context.{self, demand, Cmd}
use ft_irc_refactor.Server.State.{
  or_undefined, Action, modify, deref, update_client, Env, require, Server, ok, throw, fault,
  Outcome, ◌>>=◌, ◌>>◌, found, and_then,
}
use ft_irc_refactor.Server.Effects.{
  Learns-known, Learns-require, Learns-later, Learns, ReadOnly, reading, bind-ok, require_iff,
}
use ft_irc_refactor.Cmd.Frame.{new_name, first_name, Names, Unused, GoodNick, Quiet}
use ft_irc_refactor.Cmd.Register.{
  cmd_nick, rename_in_channels, nick_max_len, apply_nick, check_nick, rename_registered,
}

-- What checkNick finds where it ends normally.
check_nick-Learns : (c : Cmd) (str : Str) → Learns (GoodNick str) (check_nick c str)
unfolding check_nick
check_nick-Learns c str = Learns-later _ _ λ me. Learns-require _ _ _ λ some_byte.
    Learns-require _ _ _ λ less.
      Learns-require _ _ _ λ good. Learns-known _ (le_of_leb less, good, some_bytes str some_byte)
  where
    le_of_leb : leb (length str) nick_max_len ≡ true → length str ≤ nick_max_len
    le_of_leb e = ground arith

    some_bytes : (str : Str) → not (is_empty str) ≡ true → str ≢ []
    some_bytes [] e is = absurd (cc)
    some_bytes (b ∷ bs) e is = absurd (cc)

free_name :
    (o : Outcome (Option Ptr)) (text : Str) (s : Server)
    → (and_then o (λ found. demand (not (is_some found)) text) s).0 ≡ ok tt
    → o ≡ ok none
unfolding ◌>>=◌
free_name (ok none) text s e = refl
free_name (ok (some p)) text s e = absurd (cc)
free_name (throw d) text s e = absurd (cc)
free_name fault text s e = absurd (cc)

free_behind :
    (a b c : Bool) (d e f text str : Str) (s : Server)
    → ((require a d
          >> (require b e
              >> (require c f
                  >> (get_client_by_nickname str >>= λ found. demand (not (is_some found)) text))))
        s).0
      ≡ ok tt
    → Unused str s
unfolding get_client_by_nickname ◌>>=◌
free_behind a b c d e f text str s h =
    let (_, h1) = (require_iff a d _ s tt).0 h in
    let (_, h2) = (require_iff b e _ s tt).0 h1 in
    let (_, h3) = (require_iff c f _ s tt).0 h2 in
    free_name (find_nickname s.heap str s.clients) text s h3

self-ReadOnly : (c : Cmd) → ReadOnly (self c)
self-ReadOnly c = search reading

-- Where checkNick ends normally, no client has the nickname.
check_nick-Unused :
    (c : Cmd) (str : Str) (s : Server) → (check_nick c str s).0 ≡ ok tt → Unused str s
unfolding check_nick
check_nick-Unused c str s e =
    let (me, (_, rest)) = bind-ok (self c) _ s tt e in
    subst (Unused str) ((self-ReadOnly c).same s) (free_behind _ _ _ _ _ _ _ str _ rest)

-- A client's registration is not touched by its nickname and its prefix.
named_registered :
    (t : Str) (c : Client) → (set_prefix (set_nickname t c)).registered ≡ c.registered
unfolding set_prefix set_nickname
named_registered t c = refl

module _ {P : Server → Type 0} (quiet : Quiet P) (env : Env) where
  -- The end of NICK from a registered client: all are told, and then its status is set.
  tell-Keeps :
      (p : Ptr) (msg : Str) → Keeps (λ s. P s × IsRegistered (some p) s) (broadcast_all env msg)
  tell-Keeps p msg = broadcast_all-Keeps (both_quiet quiet (quiet_branch (some p))) env msg

  status-at :
      (p : Ptr) (s : Server)
      → P s
      → IsRegistered (some p) s
      → P (update_client p (set_nick_status true) s).1
  unfolding update_client ◌>>=◌ deref modify
  status-at p s h r = elim (Option-cases (find p s.heap)) [
    | inl e ↦ rw e h
    | inr (c, e) ↦ rw e (quiet.nicked p c s e (r p c refl e) h)
  ]

  told-at :
      (p : Ptr) (o : Outcome (Unit {0})) (s : Server)
      → P s
      → IsRegistered (some p) s
      → P (and_then o (λ _. update_client p (set_nick_status true)) s).1
  told-at p (ok _) s h r = status-at p s h r
  told-at p (throw e) s h r = h
  told-at p fault s h r = h

  abbrev steps : Cmd → Client → Ptr → Bool → Action (Unit {0})
  steps c me p old = do
    update_client p (set_nickname c.cmd_params)
    if old
        then rename_registered env p me.fd me.nickname c.cmd_params
        else modify (add_client_by_nickname c.cmd_params p)
    update_client p (set_nick_status true)

  renamed-IsRegistered :
      (p : Ptr) (me : Client) (t : Str) (s : Server)
      → me.registered ≡ true
      → IsRegistered (some p) (new_name p me t s)
  unfolding rename_in_channels update_nick_name_client_map update_clients set_prefix set_nickname
  renamed-IsRegistered p me t s old q d own found =
      ap (λ x. x.registered)
        (sym (
          same_value (
            sym (find-assign_same p _ _)
            ∙ subst (λ x. find x (new_name p me t s).heap ≡ some d) (sym (same_value own)) found)))
      ∙ old

  renaming-at :
      (c : Cmd) (me : Client) (p : Ptr) (s : Server)
      → find p s.heap ≡ some me
      → P (new_name p me c.cmd_params s)
      → IsRegistered (some p) (new_name p me c.cmd_params s)
      → P (steps c me p true s).1
  unfolding rename_registered update_client ◌>>=◌ deref modify
  renaming-at c me p s there h r =
      let (h', r') =
        (tell-Keeps p (make_msg (codes ":" ++ me.nickname) (Reply.rpl_nick c.cmd_params))).at
          (new_name p me c.cmd_params s) (h, r) in
      rw (there, find-assign_same p) (told-at p _ _ h' r')

  naming-at :
      (c : Cmd) (me : Client) (p : Ptr) (s : Server)
      → find p s.heap ≡ some me
      → P (first_name p me c.cmd_params s)
      → P (steps c me p false s).1
  unfolding update_client ◌>>=◌ deref modify add_client_by_nickname
  naming-at c me p s there h = rw (there, find-assign_same p) h

  apply_nick-at :
      (c : Cmd) (me : Client) (p : Ptr) (names : Names P p) (s : Server)
      → find p s.heap ≡ some me
      → GoodNick c.cmd_params
      → Unused c.cmd_params s
      → P s
      → P (apply_nick env c me p s).1
  unfolding apply_nick
  apply_nick-at c me p names s there good unused h = elim (Bool-cases me.registered) [
    | inl old ↦
        subst (λ b. P (steps c me p b s).1) (sym old)
          (renaming-at c me p s there (names.renamed me c.cmd_params s there old good unused h)
            (renamed-IsRegistered p me c.cmd_params s old))
    | inr new ↦
        subst (λ b. P (steps c me p b s).1) (sym new)
          (naming-at c me p s there (names.named me c.cmd_params s there new good unused h))
  ]

  -- What follows the check of the password.
  checked-at :
      (c : Cmd) (me : Client) (p : Ptr) (names : Names P p) (o : Outcome (Unit {0})) (s : Server)
      → c.client ≡ some p
      → find p s.heap ≡ some me
      → (o ≡ ok tt → GoodNick c.cmd_params × Unused c.cmd_params s)
      → P s
      → P (and_then o (λ _. or_undefined c.client >>= apply_nick env c me) s).1
  unfolding ◌>>=◌
  checked-at c me p names (ok _) s own there learnt h =
      let (good, unused) = learnt refl in rw own (apply_nick-at _ me p names s there good unused h)
  checked-at c me p names (throw e) s own there learnt h = h
  checked-at c me p names fault s own there learnt h = h

  behind-at :
      (c : Cmd) (me : Client) (p : Ptr) (names : Names P p) (s : Server)
      → c.client ≡ some p
      → find p s.heap ≡ some me
      → P s
      → P ((check_nick c c.cmd_params >> (or_undefined c.client >>= apply_nick env c me)) s).1
  unfolding ◌>>=◌
  behind-at c me p names s own there h =
      let o = (check_nick c c.cmd_params s).0 in
      subst (λ t. P (and_then o (λ _. or_undefined c.client >>= apply_nick env c me) t).1)
        (sym ((check_nick-ReadOnly c c.cmd_params).same s))
        (checked-at c me p names o s own there
          (λ e. (
            (check_nick-Learns c c.cmd_params).learnt s tt e,
            check_nick-Unused c c.cmd_params s e,
          ))
          h)

  pass-at :
      (b : Bool) (text : Str) (c : Cmd) (me : Client) (p : Ptr) (names : Names P p) (s : Server)
      → c.client ≡ some p
      → find p s.heap ≡ some me
      → P s
      → P
          ((demand b text
              >> (check_nick c c.cmd_params >> (or_undefined c.client >>= apply_nick env c me)))
            s).1
  unfolding ◌>>=◌
  pass-at true text c me p names s own there h = behind-at c me p names s own there h
  pass-at false text c me p names s own there h = h

  cmd_nick_from :
      (c : Cmd) (o : Option Ptr) (s : Server)
      → c.client ≡ o
      → ((p : Ptr) → o ≡ some p → Names P p)
      → P s
      → P (cmd_nick env c s).1
  unfolding cmd_nick ◌>>=◌ deref
  cmd_nick_from c none s own names h = rw own h
  cmd_nick_from c (some p) s own names h = elim (Option-cases (find p s.heap)) [
    | inl e ↦ rw (own, e) h
    | inr (me, there) ↦ rw (own, there) (pass-at me.pass _ _ me p (names p refl) s refl there h)
  ]

  pub cmd_nick-Keeps :
      (c : Cmd) → ((p : Ptr) → c.client ≡ some p → Names P p) → Keeps P (cmd_nick env c)
  cmd_nick-Keeps c names = record { at = λ s h. cmd_nick_from c c.client s refl names h }
