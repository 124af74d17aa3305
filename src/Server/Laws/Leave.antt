-- ===== src/Server/Laws/Leave.antt =====
-- PART and KICK (src/Cmd/CmdPart.cpp, CmdKick.cpp) and removeClientFromServer (src/Server.cpp):
-- a nickname that leaves a channel is no operator of it any more.
use ft_irc_refactor.Cmd.Members.{leave-members}
use ft_irc_refactor.Server.Members.Renaming.{left_over}
use ft_irc_refactor.Client.{Client}
use ft_irc_refactor.Server.Laws.Room.{
  Room-Lawful, Runs-modify, weaker, Runs-when, channel_at-Runs, update_channel-Runs, Runs-then,
  enter-Room, Room, Runs,
}
use ft_irc_refactor.Server.Teardown.{leave, forget_client}
use ft_irc_refactor.Server.Keeps.{Keeps}
use ft_irc_refactor.Cmd.Part.{leave_channel}
use ft_irc_refactor.Server.Net.{remove_channel}
use ft_irc_refactor.Channel.{
  is_participant, limit_mode, key_mode, is_operator, is_set_key, has_mode, remove_operator,
  remove_participant, Ptr, Channel,
}
use ft_irc_refactor.Base.{
  is_empty, unlike, Bool-cases, not_found, find-erase, str_eq, Option-cases, erase, false, true,
  ◌≡◌, ◌≢◌, ◌∙◌, refl, inl, inr, Option, none, some, Str, Map, is_some, find, ℕ_key, str_key, sym,
  subst, if◌then◌else◌,
}
use ft_irc_refactor.Server.State.{channel_at, update_channel, Server, ◌>>=◌}
use ft_irc_refactor.Server.Laws.{Ruled, Lawful, map-Lawful}

-- All but the operator of this nickname are participants.
record Leaving (nick : Str) (ch : Channel) : Type 0 where
  operators :
      (n : Str) (p : Ptr) → nick ≢ n → find n ch.operator ≡ some p → find n ch.participant ≡ some p
  keyed : has_mode key_mode ch ≡ is_set_key ch
  limited : has_mode limit_mode ch ≡ true → is_some ch.limit ≡ true

kept_other :
    (nick n : Str) (p : Ptr) (m : Map Str Ptr)
    → nick ≢ n
    → find n m ≡ some p
    → find n (erase nick m) ≡ some p
kept_other nick n p m differ e = rw (find-erase nick n m, unlike nick n differ) e

remove_participant-Leaving :
    (nick : Str) (ch : Channel) → Ruled ch → Leaving nick (remove_participant nick ch)
unfolding remove_participant is_set_key
remove_participant-Leaving nick ch r = record {
  operators = λ n p differ e. kept_other nick n p ch.participant differ (r.operators n p e);
  keyed = r.keyed;
  limited = r.limited;
}

remove_operator-Leaves :
    (nick : Str) (ch : Channel) → Leaving nick ch → Ruled (remove_operator nick ch)
unfolding remove_operator is_set_key
remove_operator-Leaves nick ch l = record {
  operators =
      λ n p e. let (differ, old) = left_over nick n p ch.operator e in l.operators n p differ old;
  keyed = l.keyed;
  limited = l.limited;
}

no_operator-Leaves :
    (nick : Str) (ch : Channel) → is_operator nick ch ≡ false → Leaving nick ch → Ruled ch
no_operator-Leaves nick ch none_there l = record {
  operators = λ n p e.
      l.operators n p
        (λ same. not_found (
          sym (
            subst (λ x. find x ch.operator ≡ none) same (nobody (find nick ch.operator) none_there))
          ∙ e))
        e;
  keyed = l.keyed;
  limited = l.limited;
}
  where
    nobody : (o : Option Ptr) → is_some o ≡ false → o ≡ none
    nobody none e = refl
    nobody (some p) e = absurd (cc)

erase-Lawful : (name : Str) (s : Server) → Lawful s → Lawful (remove_channel name s)
unfolding remove_channel
erase-Lawful name s h = record {
  ruled = λ k ch e. h.ruled k ch (left_over name k ch s.channels e).1;
}

module _ (nick name : Str) (names : Map Str Ptr) where
  leave_channel-Runs : Runs (Room name names Ruled) Lawful (leave_channel nick name)
  unfolding leave_channel
  leave_channel-Runs =
      Runs-then _ _
        (update_channel-Runs (remove_participant nick) (remove_participant-Leaving nick))
        (channel_at-Runs _ λ ch left.
          Runs-then {Q = Room name names Ruled} _ _
            (Runs-when (is_operator nick ch) _
              (λ there.
                update_channel-Runs (remove_operator nick)
                  λ d is. remove_operator-Leaves nick d (subst (Leaving nick) (sym is) left))
              (λ absent.
                weaker λ d is. subst Ruled (sym is) (no_operator-Leaves nick ch absent left)))
            (channel_at-Runs _ λ after ruled.
              Runs-when (is_empty after.participant) _
                (λ gone. Runs-modify (remove_channel name) λ s r.
                  erase-Lawful name s
                    (Room-Lawful name names s (weaker (λ d is. subst Ruled (sym is) ruled) s r)))
                (λ stays s r.
                  Room-Lawful name names s (weaker (λ d is. subst Ruled (sym is) ruled) s r))))

pub missing :
    (nick name : Str) (s : Server) → find name s.channels ≡ none → (leave_channel nick name s).1 ≡ s
unfolding leave_channel update_channel channel_at ◌>>=◌
missing nick name s e = rw e refl

pub leave_channel-Lawful : (nick name : Str) → Keeps Lawful (leave_channel nick name)
leave_channel-Lawful nick name = record {
  at = λ s h. elim (Option-cases (find name s.channels)) [
    | inl e ↦ subst Lawful (sym (missing nick name s e)) h
    | inr (ch, e) ↦
        ((leave_channel-Runs nick name s.nick_name_client_map).at s
          (enter-Room name ch Ruled s e (h.ruled name ch e) h)).1
  ];
}

-- The key and the limit stay, when a client goes.
module _ (nick : Str) (ch : Channel) (r : Ruled ch) where
  leave_lock :
      (has_mode key_mode (leave nick ch) ≡ is_set_key (leave nick ch))
      × (has_mode limit_mode (leave nick ch) ≡ true → is_some (leave nick ch).limit ≡ true)
  unfolding leave remove_participant remove_operator is_set_key
  leave_lock = elim (Bool-cases (is_participant nick ch)) [
    | inl a ↦ elim (Bool-cases (is_operator nick ch)) [
      | inl b ↦ rw (a, b) (r.keyed, r.limited)
      | inr b ↦ rw (a, b) (r.keyed, r.limited)
    ]
    | inr a ↦ elim (Bool-cases (is_operator nick ch)) [
      | inl b ↦ rw (a, b) (r.keyed, r.limited)
      | inr b ↦ rw (a, b) (r.keyed, r.limited)
    ]
  ]

  other_nick :
      (n : Str) (p : Ptr)
      → (if str_eq nick n then none else find n ch.operator) ≡ some p
      → (str_eq nick n ≡ false) × (find n ch.operator ≡ some p)
  other_nick n p e = elim (Bool-cases (str_eq nick n)) [
    | inl same ↦ absurd (not_found (rw same at e))
    | inr other ↦ (other, rw other at e)
  ]

  leave-Ruled : Ruled (leave nick ch)
  leave-Ruled = record {
    operators = λ n p e.
        let (other, old) = other_nick n p (sym (leave-members nick n ch).1 ∙ e) in
        (leave-members nick n ch).0 ∙ rw other (r.operators n p old);
    keyed = leave_lock.0;
    limited = leave_lock.1;
  }

pub forget_client-Lawful :
    (p : Ptr) (c : Client) (s : Server) → Lawful s → Lawful (forget_client p c s)
unfolding forget_client
forget_client-Lawful p c s h =
    map-Lawful (leave c.nickname) s _ refl (λ name ch held r. leave-Ruled c.nickname ch r) h
