-- ===== src/Server/Members/Renaming.antt =====
-- The nickname of a registered client changes (src/Cmd/CmdNick.cpp): the participants stay living
-- clients under their nicknames.
use ft_irc_refactor.Base.{
  Option, Once, insert-Once, erase-Once, same_value, not_both, not_found, is_alnum, all,
  find-assign, find-assign_same, ==_iff, ◌∙◌, true, find-assign_cases, find-erase, str_eq,
  str_eq_iff, erase, insert, map, mem, Bool-cases, false, ℕ, ◌≡◌, ◌≢◌, ◌⊎◌, refl, inl, inr, [], ◌∷◌,
  some, Str, Map, is_some, find, assign, ℕ_key, str_key, ap, sym, subst, ◌==◌,
}
use ft_irc_refactor.Server.Net.{update_clients, update_nick_name_client_map}
use ft_irc_refactor.Client.{set_nickname, set_prefix, Client}
use ft_irc_refactor.Cmd.Register.{rename_in_channels, rename_in}
use ft_irc_refactor.Channel.{
  is_operator, remove_operator, add_operator, remove_participant, is_participant, add_participant,
  Channel, Ptr,
}
use ft_irc_refactor.Server.State.{Server}
use ft_irc_refactor.Server.Members.{Member, Seated}
use ft_irc_refactor.Server.Members.Names.{stored_name}
use ft_irc_refactor.Server.Members.Moves.{
  renewed_name, not_me, other-Member, still_listed, twice, channel-Seated, join-Seated,
  named-Seated,
}
use ft_irc_refactor.Cmd.Frame.{Unused, GoodNick, Channels, Moves, new_name}

-- A participant of another nickname.
pub left_over :
    {V : Type 0} (old n : Str) (q : V) (m : Map Str V)
    → find n (erase old m) ≡ some q
    → (old ≢ n) × (find n m ≡ some q)
left_over old n q m e = elim (Bool-cases (str_eq old n)) [
  | inl same ↦ absurd (not_found (rw (find-erase old n m, same) at e))
  | inr other ↦
      (λ is. not_both ((str_eq_iff old n).1 is) other, rw (find-erase old n m, other) at e)
]

-- Who is a participant behind the erasure and the insertion.
inserted :
    (old t n : Str) (p q : Ptr) (m : Map Str Ptr)
    → find n (insert t p (erase old m)) ≡ some q
    → ((t ≡ n) × (p ≡ q)) ⊎ ((old ≢ n) × (find n m ≡ some q))
unfolding insert
inserted old t n p q m e = elim (Bool-cases (mem t (erase old m))) [
  | inl b ↦ inr (left_over old n q m (rw b at e))
  | inr b ↦ elim (find-assign_cases t n p q (erase old m) (rw b at e)) [
    | inl h ↦ inl h
    | inr h ↦ inr (left_over old n q m h)
  ]
]

not_there :
    (old n : Str) (q : Ptr) (m : Map Str Ptr) → mem old m ≡ false → find n m ≡ some q → old ≢ n
not_there old n q m absent e same =
    wrong (sym absent ∙ ap is_some (subst (λ x. find x m ≡ some q) (sym same) e))
  where
    wrong : false ≡ true → ⊥
    wrong h = cc

pub participants :
    (old t : Str) (p : Ptr) (ch : Channel)
    → is_participant old ch ≡ true
    → (rename_in old t p ch).participant ≡ insert t p (erase old ch.participant)
unfolding rename_in add_participant remove_participant add_operator remove_operator
participants old t p ch there = elim (Bool-cases (is_operator old ch)) [
  | inl b ↦ rw (there, b) refl
  | inr b ↦ rw (there, b) refl
]

pub unchanged :
    (old t : Str) (p : Ptr) (ch : Channel)
    → is_participant old ch ≡ false
    → (rename_in old t p ch).participant ≡ ch.participant
unfolding rename_in
unchanged old t p ch absent = rw absent refl

pub who :
    (old t n : Str) (p q : Ptr) (ch : Channel)
    → find n (rename_in old t p ch).participant ≡ some q
    → ((t ≡ n) × (p ≡ q)) ⊎ ((old ≢ n) × (find n ch.participant ≡ some q))
who old t n p q ch e = elim (Bool-cases (is_participant old ch)) [
  | inl b ↦
      inserted old t n p q ch.participant
        (subst (λ m. find n m ≡ some q) (participants old t p ch b) e)
  | inr b ↦
      let there = subst (λ m. find n m ≡ some q) (unchanged old t p ch b) e in
      inr (not_there old n q ch.participant b there, there)
]

rename_in-Once :
    (old t : Str) (p : Ptr) (ch : Channel)
    → Once ch.participant
    → Once (rename_in old t p ch).participant
rename_in-Once old t p ch once = elim (Bool-cases (is_participant old ch)) [
  | inl b ↦
      subst Once (sym (participants old t p ch b))
        (insert-Once t p (erase old ch.participant) (erase-Once old ch.participant once))
  | inr b ↦ subst Once (sym (unchanged old t p ch b)) once
]

-- A channel of the list in which all have changed.
pub find-map :
    (f : Channel → Channel) (name : Str) (chs : Map Str Channel) (d : Channel)
    → find name (map (λ entry. (entry.0, f entry.1)) chs) ≡ some d
    → (ch : Channel) × ((find name chs ≡ some ch) × (f ch ≡ d))
unfolding find
find-map f name [] d e = absurd (cc)
find-map f name ((k, ch) ∷ chs) d e = elim (Bool-cases (str_eq k name)) [
  | inl b ↦ (ch, (rw b refl, same_value (rw b at e)))
  | inr b ↦ let (old, (there, is)) = find-map f name chs d (rw b at e) in (old, (rw b there, is))
]

-- The object under its new name.
abbrev with_name : Client → Str → Client
with_name c t = set_prefix (set_nickname t c)

with_name-fd : (c : Client) (t : Str) → (with_name c t).fd ≡ c.fd
unfolding set_prefix set_nickname
with_name-fd c t = refl

with_name-registered : (c : Client) (t : Str) → (with_name c t).registered ≡ c.registered
unfolding set_prefix set_nickname
with_name-registered c t = refl

with_name-nickname : (c : Client) (t : Str) → all is_alnum t ≡ true → (with_name c t).nickname ≡ t
unfolding set_prefix
with_name-nickname c t good = stored_name t c good

-- An entry that is erased and set again is where it was.
reset :
    (fd g : ℕ) (p : Ptr) (m : Map ℕ Ptr)
    → find fd m ≡ some p
    → find g (assign fd p (erase fd m)) ≡ find g m
reset fd g p m there = elim (Bool-cases (fd == g)) [
  | inl e ↦
      rw (find-assign fd g p (erase fd m), e) (sym there ∙ ap (λ x. find x m) ((==_iff fd g).0 e))
  | inr e ↦ rw (find-assign fd g p (erase fd m), find-erase fd g m, e) refl
]

module _ (p : Ptr) (c : Client) (t : Str) (s : Server) (there : find p s.heap ≡ some c)
    (registered : c.registered ≡ true) (good : GoodNick t) (unused : Unused t s)
    (h : Seated s) where
  heap_of : (r : Ptr) → find r (new_name p c t s).heap ≡ find r (assign p (with_name c t) s.heap)
  unfolding rename_in_channels update_nick_name_client_map update_clients
  heap_of r = twice p r (set_nickname t c) (with_name c t) s.heap

  clients_of : (g : ℕ) → find g (new_name p c t s).clients ≡ find g s.clients
  unfolding rename_in_channels update_nick_name_client_map update_clients
  clients_of g = reset c.fd g p s.clients (h.listed p c there)

  -- The member that is renamed.
  renamed-Member : (q : Ptr) → p ≡ q → Member t q (new_name p c t s)
  renamed-Member q same = record {
    client = with_name c t;
    there =
        heap_of q
        ∙ subst (λ x. find x (assign p (with_name c t) s.heap) ≡ some (with_name c t)) same
            (find-assign_same p (with_name c t) s.heap);
    name = with_name-nickname c t good.1;
    registered = with_name-registered c t ∙ registered;
  }

  renamed_seat :
      (n : Str) (q : Ptr) (ch : Channel) (name : Str)
      → find name s.channels ≡ some ch
      → find n (rename_in c.nickname t p ch).participant ≡ some q
      → Member n q (new_name p c t s)
  renamed_seat n q ch name held e = elim (who c.nickname t n p q ch e) [
    | inl (nick, ptr) ↦ subst (λ x. Member x q (new_name p c t s)) nick (renamed-Member q ptr)
    | inr (differ, seat) ↦
        let m = h.seat name ch n q held seat in
        other-Member p q c (with_name c t) n s (new_name p c t s) heap_of
          (λ same. differ (ap (λ x. x.nickname) (not_me p q c n s there m same) ∙ m.name)) m
  ]

  pub renamed-Seated : Seated (new_name p c t s)
  unfolding rename_in_channels update_nick_name_client_map update_clients
  renamed-Seated = record {
    seat = λ name d n q e f.
        let (ch, (held, is)) = find-map (rename_in c.nickname t p) name s.channels d e in
        renamed_seat n q ch name held (subst (λ x. find n x.participant ≡ some q) (sym is) f);
    listed =
        still_listed p c (with_name c t) s (new_name p c t s) there (with_name-fd c t) heap_of
          clients_of h;
    distinct =
        renewed_name p (with_name c t) t s (new_name p c t s) heap_of
          (with_name-nickname c t good.1) unused h;
    once = λ name d e.
        let (ch, (held, is)) = find-map (rename_in c.nickname t p) name s.channels d e in
        subst (λ x. Once x.participant) is (rename_in-Once c.nickname t p ch (h.once name ch held));
  }

channels : Channels Seated
channels = record { channel = channel-Seated }

pub seated-Moves : (own : Option Ptr) → Moves Seated own
seated-Moves own = record {
  channels = channels;
  join =
      λ p c name ch s is there registered held h. join-Seated p c name ch s there registered held h;
  names = λ p is. record {
    named = λ c t s there new good unused h. named-Seated p c t s there new good unused h;
    renamed = λ c t s there old good unused h. renamed-Seated p c t s there old good unused h;
  };
}
