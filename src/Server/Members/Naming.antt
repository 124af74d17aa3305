-- ===== src/Server/Members/Naming.antt =====
-- NICK (src/Cmd/CmdNick.cpp): the client is found under its new nickname, and the others under theirs.
use ft_irc_refactor.Server.Members.Moves.{twice}
use ft_irc_refactor.Cmd.Register.{rename_in_channels}
use ft_irc_refactor.Server.Members.Names.{stored_name, unused_name}
use ft_irc_refactor.Server.Members.{Seated}
use ft_irc_refactor.Base.{
  unlike, find-assign, erase, find-assign_same, find-erase, false, str_eq, true, ◌≡◌, ◌≢◌, ◌∙◌,
  refl, inl, inr, [], some, Str, find, assign, ℕ_key, str_key, ap, sym, subst,
}
use ft_irc_refactor.Server.State.{Server}
use ft_irc_refactor.Cmd.Frame.{new_name, first_name, GoodNick, Unused}
use ft_irc_refactor.Client.{set_nickname, set_prefix, Client, set_nick_status}
use ft_irc_refactor.Channel.{Ptr}
use ft_irc_refactor.Server.Net.{update_clients, update_nick_name_client_map, add_client_by_nickname}
use ft_irc_refactor.Server.Distinct.{replaced}
use ft_irc_refactor.Server.Members.Known.{Known}

-- A nickname is given; the entries of the others stay.
module _ (p : Ptr) (d : Client) (t : Str) (s u : Server)
    (heap : (r : Ptr) → find r u.heap ≡ find r (assign p d s.heap))
    (here : find t u.nick_name_client_map ≡ some p) (name : d.nickname ≡ t) (some_byte : t ≢ [])
    (nicked : d.nick ≡ true) where
  given-Known :
      ((q : Ptr) (e : Client)
        → p ≢ q
        → find q s.heap ≡ some e
        → e.nickname ≢ []
        → find e.nickname u.nick_name_client_map ≡ find e.nickname s.nick_name_client_map)
      → Known s
      → Known u
  given-Known others h = record {
    given = λ q e found r. elim (replaced p q d e s.heap (sym (heap q) ∙ found)) [
      | inl (_, is) ↦ subst (λ x. x.nick ≡ true) is nicked
      | inr (_, old) ↦ h.given q e old r
    ];
    known = λ q e found n. elim (replaced p q d e s.heap (sym (heap q) ∙ found)) [
      | inl (pq, is) ↦
          let same = sym name ∙ ap (λ x. x.nickname) is in
          (
            λ z. some_byte (same ∙ z),
            subst (λ x. find x u.nick_name_client_map ≡ some q) same
                (subst (λ x. find t u.nick_name_client_map ≡ some x) pq here),
          )
      | inr (differ, old) ↦
          let (some_byte', held) = h.known q e old n in
          (some_byte', others q e differ old some_byte' ∙ held)
    ];
  }

-- No other client has a nickname that checkNick has found unused.
no_other :
    (t : Str) (s : Server) (q : Ptr) (e : Client)
    → Unused t s
    → Seated s
    → find q s.heap ≡ some e
    → str_eq t e.nickname ≡ false
no_other t s q e unused h old =
    unlike t e.nickname
      (λ same. unused_name s.heap t s.clients e.fd q e unused (h.listed q e old) old (sym same))

module _ (p : Ptr) (c : Client) (t : Str) (s : Server) (there : find p s.heap ≡ some c)
    (good : GoodNick t) (unused : Unused t s) (seated : Seated s) where
  pub first_name-Known : Known s → Known (first_name p c t s)
  unfolding add_client_by_nickname set_nick_status
  first_name-Known h =
      given-Known p (set_nick_status true (set_nickname t c)) t s (first_name p c t s)
        (λ r. twice p r (set_nickname t c) (set_nick_status true (set_nickname t c)) s.heap)
        (find-assign_same t p s.nick_name_client_map) (stored_name t c good.1) good.2 refl
        (λ q e differ old some_byte.
          rw (find-assign t e.nickname p s.nick_name_client_map, no_other t s q e unused seated old)
            refl)
        h

  nick_kept : (set_prefix (set_nickname t c)).nick ≡ c.nick
  unfolding set_prefix set_nickname
  nick_kept = refl

  prefix_kept : (set_prefix (set_nickname t c)).nickname ≡ (set_nickname t c).nickname
  unfolding set_prefix
  prefix_kept = refl

  pub new_name-Known : c.registered ≡ true → Known s → Known (new_name p c t s)
  unfolding rename_in_channels update_nick_name_client_map update_clients
  new_name-Known registered h =
      let nicked = h.given p c there registered in
      let old_name = (h.known p c there nicked).0 in
      given-Known p (set_prefix (set_nickname t c)) t s (new_name p c t s)
        (λ r. twice p r (set_nickname t c) (set_prefix (set_nickname t c)) s.heap)
        (find-assign_same t p (erase c.nickname s.nick_name_client_map))
        (prefix_kept ∙ stored_name t c good.1) good.2 (nick_kept ∙ nicked)
        (λ q e differ old some_byte.
          rw
            (
              find-assign t e.nickname p (erase c.nickname s.nick_name_client_map),
              no_other t s q e unused seated old,
              find-erase c.nickname e.nickname s.nick_name_client_map,
              unlike c.nickname e.nickname
                  (λ same. differ (seated.distinct p q c e there old same old_name)),
            )
            refl)
        h
