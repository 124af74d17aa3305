-- ===== src/Cmd/Members.antt =====
-- The participants and operators of a channel when a nickname changes (src/Cmd/CmdNick.cpp) or goes
-- (IrcServer::removeClientFromServer, src/Server.cpp).
use ft_irc_refactor.Base.{
  find-assign_same, unlike, subst, ◌≡◌, ◌≢◌, refl, ap, inl, inr, true, false, ◌||◌, Option, none,
  some, Str, Map, str_eq, str_eq_iff, is_some, find, mem, insert, erase, find-erase, find-insert,
  str_key, if◌then◌else◌, Bool-cases,
}
use ft_irc_refactor.Channel.{
  Ptr, Channel, is_participant, is_operator, remove_participant, remove_operator, add_participant,
  add_operator,
}
use ft_irc_refactor.Server.Teardown.{leave}
use ft_irc_refactor.Cmd.Register.{rename_in}

none_of : (o : Option Ptr) → is_some o ≡ false → o ≡ none
none_of none h = refl
none_of (some p) h = absurd (cc)

-- A map without the nickname.
pub without :
    (nick q : Str) (m : Map Str Ptr)
    → mem nick m ≡ false
    → find q m ≡ (if str_eq nick q then none else find q m)
without nick q m e = elim (Bool-cases (str_eq nick q)) [
  | inl same ↦
      rw same (subst (λ x. find x m ≡ none) ((str_eq_iff nick q).0 same) (none_of (find nick m) e))
  | inr other ↦ rw other refl
]

-- What `leave` leaves of the members of one channel.
pub leave-members :
    (nick q : Str) (ch : Channel)
    → (find q (leave nick ch).participant ≡ (if str_eq nick q then none else find q ch.participant))
      × (find q (leave nick ch).operator ≡ (if str_eq nick q then none else find q ch.operator))
unfolding leave remove_participant remove_operator
leave-members nick q ch = elim (Bool-cases (is_participant nick ch)) [
  | inl a ↦ elim (Bool-cases (is_operator nick ch)) [
    | inl b ↦ rw (a, b) (find-erase nick q ch.participant, find-erase nick q ch.operator)
    | inr b ↦ rw (a, b) (find-erase nick q ch.participant, without nick q ch.operator b)
  ]
  | inr a ↦ elim (Bool-cases (is_operator nick ch)) [
    | inl b ↦ rw (a, b) (without nick q ch.participant a, find-erase nick q ch.operator)
    | inr b ↦ rw (a, b) (without nick q ch.participant a, without nick q ch.operator b)
  ]
]

-- The participants after the change.
moved :
    (old new q : Str) (p : Ptr) (m : Map Str Ptr)
    → str_eq old new ≡ false
    → mem new m ≡ false
    → find q (insert new p (erase old m))
      ≡ (if str_eq new q then some p else (if str_eq old q then none else find q m))
moved old new q p m differ free =
    rw (find-insert new q p (erase old m), find-erase old q m, find-erase old new m, differ, free)
      refl

-- When a participant changes its nickname to one that is not a participant, the new one is a
-- participant with the client that was given, and the old one is none; the new one is an operator
-- exactly if one of the two was, and the participants of any other nickname stay.
pub rename_in-members :
    (old new q : Str) (p : Ptr) (ch : Channel)
    → old ≢ new
    → is_participant old ch ≡ true
    → is_participant new ch ≡ false
    → (find q (rename_in old new p ch).participant
        ≡ (if str_eq new q then some p else (if str_eq old q then none else find q ch.participant)))
      × (is_operator new (rename_in old new p ch) ≡ (is_operator old ch || is_operator new ch))
unfolding rename_in add_participant remove_participant add_operator remove_operator
rename_in-members old new q p ch differ there free =
    let apart = unlike old new differ in
    elim (Bool-cases (is_operator old ch)) [
      | inl b ↦
          rw (there, b)
            (
              moved old new q p ch.participant apart free,
              ap is_some (find-assign_same new p (erase old ch.operator)),
            )
      | inr b ↦ rw (there, b) (moved old new q p ch.participant apart free, refl)
    ]
