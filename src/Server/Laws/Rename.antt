-- ===== src/Server/Laws/Rename.antt =====
-- NICK (src/Cmd/CmdNick.cpp): a participant that is renamed stays an operator, if it was one.
use ft_irc_refactor.Server.Members.Names.{unused_name}
use ft_irc_refactor.Server.Members.{Seated}
use ft_irc_refactor.Server.Members.Renaming.{left_over}
use ft_irc_refactor.Cmd.Frame.{new_name, first_name, Unused}
use ft_irc_refactor.Client.{Client}
use ft_irc_refactor.Cmd.Register.{rename_in, rename_in_channels}
use ft_irc_refactor.Server.Net.{update_clients, update_nick_name_client_map, add_client_by_nickname}
use ft_irc_refactor.Channel.{
  is_operator, is_participant, is_set_key, remove_operator, add_operator, remove_participant,
  add_participant, Channel, Ptr,
}
use ft_irc_refactor.Base.{
  unlike, Option-cases, not_found, str_eq_iff, str_eq, find-erase, Bool-cases, find-insert,
  find-assign_cases, insert, erase, false, true, ◌≡◌, ◌≢◌, ◌∙◌, ◌⊎◌, refl, inl, inr, none, some,
  Str, Map, is_some, mem, find, assign, ℕ_key, str_key, ap, sym, subst, arith,
}
use ft_irc_refactor.Server.State.{Server}
use ft_irc_refactor.Server.Laws.{Ruled, Lawful, same-Lawful, map-Lawful}

-- Who is an operator of the renamed channel.
renamed_operator :
    (old t n : Str) (p q : Ptr) (m : Map Str Ptr)
    → find n (assign t p (erase old m)) ≡ some q
    → ((t ≡ n) × (p ≡ q)) ⊎ ((old ≢ n) × (find n m ≡ some q))
renamed_operator old t n p q m e = elim (find-assign_cases t n p q (erase old m) e) [
  | inl h ↦ inl h
  | inr h ↦ inr (left_over old n q m h)
]

module _ (old t : Str) (p : Ptr) (ch : Channel) (free : find t ch.participant ≡ none) where
  -- The renamed one.
  moved_there : find t (insert t p (erase old ch.participant)) ≡ some p
  moved_there = ground (
    arith,
    find-insert t t p (erase old ch.participant),
    find-erase old t ch.participant,
    str_eq_iff t t,
    free,
  )

  -- And another.
  pub moved_other :
      (n : Str) (q : Ptr)
      → old ≢ n
      → find n ch.participant ≡ some q
      → find n (insert t p (erase old ch.participant)) ≡ some q
  moved_other n q differ e = elim (Bool-cases (str_eq t n)) [
    | inl same ↦ absurd (
        not_found
          (sym (subst (λ x. find x ch.participant ≡ none) ((str_eq_iff t n).0 same) free) ∙ e))
    | inr other ↦
        rw
          (
            find-insert t n p (erase old ch.participant),
            other,
            find-erase old n ch.participant,
            unlike old n differ,
          )
          e
  ]

  not_operator :
      (n : Str) → mem old ch.operator ≡ false → (q : Ptr) → find n ch.operator ≡ some q → old ≢ n
  not_operator n absent q e same =
      wrong (sym absent ∙ ap is_some (subst (λ x. find x ch.operator ≡ some q) (sym same) e))
    where
      wrong : false ≡ true → ⊥
      wrong h = cc

  rename_in-Ruled : Ruled ch → Ruled (rename_in old t p ch)
  unfolding rename_in add_participant remove_participant add_operator remove_operator is_set_key
  rename_in-Ruled r = elim (Bool-cases (is_participant old ch)) [
    | inr a ↦ rw a r
    | inl a ↦ elim (Bool-cases (is_operator old ch)) [
      | inl b ↦
          rw (a, b)
            (record {
              operators = λ n q e. elim (renamed_operator old t n p q ch.operator e) [
                | inl (same, ptr) ↦
                    subst (λ x. find x (insert t p (erase old ch.participant)) ≡ some q) same
                      (moved_there ∙ ap some ptr)
                | inr (differ, was) ↦ moved_other n q differ (r.operators n q was)
              ];
              keyed = r.keyed;
              limited = r.limited;
            })
      | inr b ↦
          rw (a, b)
            (record {
              operators = λ n q e. moved_other n q (not_operator n b q e) (r.operators n q e);
              keyed = r.keyed;
              limited = r.limited;
            })
    ]
  ]

-- A nickname that no client has is no participant.
pub Unused-seat :
    (t : Str) (name : Str) (ch : Channel) (s : Server)
    → Unused t s
    → Seated s
    → find name s.channels ≡ some ch
    → find t ch.participant ≡ none
Unused-seat t name ch s unused h held = elim (Option-cases (find t ch.participant)) [
  | inl e ↦ e
  | inr (q, e) ↦
      let m = h.seat name ch t q held e in
      absurd (
        unused_name s.heap t s.clients m.client.fd q m.client unused (h.listed q m.client m.there)
          m.there m.name)
]

pub first_name-Lawful :
    (p : Ptr) (c : Client) (t : Str) (s : Server) → Lawful s → Lawful (first_name p c t s)
unfolding add_client_by_nickname
first_name-Lawful p c t s h = same-Lawful s _ refl h

pub new_name-Lawful :
    (p : Ptr) (c : Client) (t : Str) (s : Server)
    → Unused t s
    → Seated s
    → Lawful s
    → Lawful (new_name p c t s)
unfolding rename_in_channels update_nick_name_client_map update_clients
new_name-Lawful p c t s unused seated h =
    map-Lawful (rename_in c.nickname t p) s _ refl
      (λ name ch held r.
        rename_in-Ruled c.nickname t p ch (Unused-seat t name ch s unused seated held) r)
      h
