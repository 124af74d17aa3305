-- ===== src/Server/Occupied.antt =====
-- The participants that a channel has (src/Cmd/): at least one, in a state between messages.
pub mod Leave
pub mod Departs
pub mod Message
pub mod Kick
pub mod Fate
pub mod Removal
use ft_irc_refactor.Server.Members.Renaming.{unchanged, find-map, participants}
use ft_irc_refactor.Cmd.Frame.{Names, Updates, Quiet}
use ft_irc_refactor.Cmd.Register.{rename_in, rename_in_channels}
use ft_irc_refactor.Channel.{is_participant, Ptr, Channel}
use ft_irc_refactor.Server.Net.{
  mark_client_for_removal_cases, update_clients, update_nick_name_client_map,
  add_client_by_nickname, enable_poll_out_event,
}
use ft_irc_refactor.Base.{
  erase, not_both, str_eq_iff, Option-cases, mem-insert, str_eq, insert, find-assign_same, unlike,
  Bool-cases, same_value, find-assign, is_empty, false, true, zero, suc, ℕ, ◌≡◌, ◌≢◌, ◌≤◌, ◌<◌, ◌+◌,
  ◌-◌, ◌∙◌, ◌↔◌, ◌⊎◌, refl, inl, inr, Bool, not, ◌||◌, ◌&&◌, List, [], ◌∷◌, ◌++◌, Option, none,
  some, Str, Map, is_some, mem, find, assign, ℕ_key, str_key, ap, sym, subst, if◌then◌else◌, arith,
  ◌==◌, codes, crlf, length,
}
use ft_irc_refactor.Server.State.{
  modify, deref, channel_at, update_client, update_channel, Server, ok, throw, fault, sent, again,
  gone, failed, Outcome, ◌>>=◌, ◌>>◌,
}

-- Each channel has a participant.
pub record Occupied (s : Server) : Type 0 where
  pub someone :
      (name : Str) (ch : Channel) → find name s.channels ≡ some ch → is_empty ch.participant ≡ false

same-Occupied : (s t : Server) → t.channels ≡ s.channels → Occupied s → Occupied t
same-Occupied s t channels h = record {
  someone = λ name ch e. h.someone name ch (subst (λ x. find name x ≡ some ch) channels e);
}

pub Occupied-Quiet : Quiet Occupied
unfolding enable_poll_out_event update_client ◌>>=◌ deref modify
Occupied-Quiet = record {
  edit = λ p f edit. record {
    at = λ s h. elim (Option-cases (find p s.heap)) [
      | inl e ↦ rw e h
      | inr (c, e) ↦ rw e (same-Occupied s _ refl h)
    ];
  };
  register = λ p c s there ready h. same-Occupied s _ refl h;
  nicked = λ p c s there old h. same-Occupied s _ refl h;
  mark = λ fd s h. mark_client_for_removal_cases Occupied fd s h (same-Occupied s _ refl h);
  poll_out = λ fd s h. same-Occupied s _ refl h;
  output = λ s n w h. same-Occupied s _ refl h;
}

-- One channel has changed.
pub settled :
    (name : Str) (s t : Server)
    → ((k : Str) (d : Channel) → name ≢ k → find k t.channels ≡ some d → find k s.channels ≡ some d)
    → ((d : Channel) → find name t.channels ≡ some d → is_empty d.participant ≡ false)
    → Occupied s
    → Occupied t
settled name s t others here h = record {
  someone = λ k d e. elim (Bool-cases (str_eq name k)) [
    | inl b ↦ here d (subst (λ x. find x t.channels ≡ some d) (sym ((str_eq_iff name k).0 b)) e)
    | inr b ↦ h.someone k d (others k d (λ same. not_both ((str_eq_iff name k).1 same) b) e)
  ];
}

pub other_channel :
    (name k : Str) (ch d : Channel) (m : Map Str Channel)
    → name ≢ k
    → find k (assign name ch m) ≡ some d
    → find k m ≡ some d
other_channel name k ch d m differ e = rw (find-assign name k ch m, unlike name k differ) at e

pub same_channel :
    (name : Str) (ch d : Channel) (m : Map Str Channel)
    → find name (assign name ch m) ≡ some d
    → ch ≡ d
same_channel name ch d m e = same_value (sym (find-assign_same name ch m) ∙ e)

pub placed-Occupied :
    (name : Str) (ch : Channel) (s : Server)
    → is_empty ch.participant ≡ false
    → Occupied s
    → Occupied (record s { channels = assign name ch s.channels })
placed-Occupied name ch s full h =
    settled name s _ (λ k d differ e. other_channel name k ch d s.channels differ e)
      (λ d e.
        subst (λ x. is_empty x.participant ≡ false) (same_channel name ch d s.channels e) full)
      h

pub Occupied-Updates : Updates Occupied
unfolding update_channel channel_at ◌>>=◌ modify
Occupied-Updates name f same = record {
  at = λ s h. elim (Option-cases (find name s.channels)) [
    | inl e ↦ rw e h
    | inr (ch, e) ↦
        rw e (placed-Occupied name (f ch) s (ap is_empty (same.same ch) ∙ h.someone name ch e) h)
  ];
}

-- A map with an entry.
filled_map : (nick : Str) (m : Map Str Ptr) → mem nick m ≡ true → is_empty m ≡ false
unfolding find
filled_map nick [] e = absurd (not_both e refl)
filled_map nick (x ∷ m) e = refl

pub entered_map : (nick : Str) (p : Ptr) (m : Map Str Ptr) → is_empty (insert nick p m) ≡ false
entered_map nick p m =
    filled_map nick (insert nick p m)
      (mem-insert nick nick p m ∙ rw ((str_eq_iff nick nick).1 refl) refl)

renamed_room :
    (old t : Str) (p : Ptr) (ch : Channel)
    → is_empty ch.participant ≡ false
    → is_empty (rename_in old t p ch).participant ≡ false
renamed_room old t p ch full = elim (Bool-cases (is_participant old ch)) [
  | inl b ↦ ap is_empty (participants old t p ch b) ∙ entered_map t p (erase old ch.participant)
  | inr b ↦ ap is_empty (unchanged old t p ch b) ∙ full
]

pub Occupied-Names : (p : Ptr) → Names Occupied p
unfolding add_client_by_nickname rename_in_channels update_nick_name_client_map update_clients
Occupied-Names p = record {
  named = λ c t s there new good unused h. same-Occupied s _ refl h;
  renamed = λ c t s there old good unused h. record {
    someone = λ name d e.
        let (ch, (held, is)) = find-map (rename_in c.nickname t p) name s.channels d e in
        subst (λ x. is_empty x.participant ≡ false) is
          (renamed_room c.nickname t p ch (h.someone name ch held));
  };
}
