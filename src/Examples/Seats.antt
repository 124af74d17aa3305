-- ===== src/Examples/Seats.antt =====
-- Examples for the participants of a channel (src/Server.cpp, src/Cmd/).
use ft_irc_refactor.Server.Members.Privmsg.Outcomes.{AllOrNothing, cmd_privmsg-delivers}
use ft_irc_refactor.Cmd.Privmsg.{Targets, read_targets, no_targets, cmd_privmsg, add_target}
use ft_irc_refactor.Cmd.Split.{privmsg_split}
use ft_irc_refactor.Server.State.{pure, for_each, modify, deref, ok, ◌>>=◌, Server}
use ft_irc_refactor.Cmd.Context.{Cmd}
use ft_irc_refactor.Base.{
  Once, same_value, Option, str_eq_iff, false, true, ℕ, ◌≡◌, ◌∙◌, ◌⊎◌, refl, inl, inr, [], ◌∷◌,
  ◌++◌, none, some, Str, Map, find, ℕ_key, str_key, ap, sym, subst, arith, codes, Bool-cases, Key,
}
use ft_irc_refactor.Server.Leaving.Turn.{checked}
use ft_irc_refactor.Server.Teardown.{silent_clients, check_ping_time_out}
use ft_irc_refactor.Server.Output.{output}
use ft_irc_refactor.Channel.{Ptr}
use ft_irc_refactor.Server.Net.{broadcast_channel}
use ft_irc_refactor.Server.Loop.{run, Poll}
use ft_irc_refactor.Server.Objects.{Owned}
use ft_irc_refactor.Client.{Client}
use ft_irc_refactor.Examples.{willing, bob, holding, message}
use ft_irc_refactor.Examples.Channels.{carol, room}
use ft_irc_refactor.Server.Members.{Seated}
use ft_irc_refactor.Server.Members.Serving.{FreshRun}
use ft_irc_refactor.Server.Members.Run.{run-Seated}
use ft_irc_refactor.Server.Members.Broadcast.{broadcast_channel-delivers}
use ft_irc_refactor.Server.Members.Hearing.{heard}

-- bob and carol are in the channel.
abbrev pub pair : Server
pair = record (holding bob) {
  clients = (4, 0) ∷ (5, 1) ∷ [];
  nick_name_client_map = (codes "bob", 0) ∷ (codes "carol", 1) ∷ [];
  heap = (0, bob) ∷ (1, carol) ∷ [];
  next_ptr = 2;
  channels = (codes "#a", room) ∷ [];
}

module _ {K V : Type 0} ⦃key : Key K⦄ where
  pub first_or_later :
      (k j : K) (v w : V) (m : Map K V)
      → find k ((j, v) ∷ m) ≡ some w
      → ((j ≡ k) × (v ≡ w)) ⊎ (find k m ≡ some w)
  unfolding find
  first_or_later k j v w m e = elim (Bool-cases (key.eqb j k)) [
    | inl t ↦ inl ((key.eqb_iff j k).0 t, same_value (rw t at e))
    | inr t ↦ inr (rw t at e)
  ]

  pub none_left : (k : K) (w : V) → find k [] ≡ some w → ⊥
  unfolding find
  none_left k w e = absurd (cc)

  pub one_of_two :
      (k i j : K) (u v w : V)
      → find k ((i, u) ∷ (j, v) ∷ []) ≡ some w
      → ((i ≡ k) × (u ≡ w)) ⊎ ((j ≡ k) × (v ≡ w))
  one_of_two k i j u v w e = elim (first_or_later k i u w ((j, v) ∷ []) e) [
    | inl h ↦ inl h
    | inr h ↦ elim (first_or_later k j v w [] h) [
      | inl g ↦ inr g
      | inr g ↦ absurd (none_left k w g)
    ]
  ]

two_names : codes "bob" ≡ codes "carol" → ⊥
two_names e = absurd (let k : false ≡ true = (str_eq_iff (codes "bob") (codes "carol")).1 e in (cc))

room-Once : Once room.participant
unfolding find Once
room-Once = (refl, (refl, tt))

pub pair-Seated : Seated pair
unfolding find
pair-Seated = record {
  once = λ name ch e. elim (first_or_later name (codes "#a") room ch [] e) [
    | inr h ↦ absurd (none_left name ch h)
    | inl (_, is) ↦ subst (λ x. Once x.participant) is room-Once
  ];
  seat = λ name ch n p e f. elim (first_or_later name (codes "#a") room ch [] e) [
    | inr h ↦ absurd (none_left name ch h)
    | inl (_, is) ↦
        elim (one_of_two n (codes "bob") (codes "carol") 0 1 p
          (subst (λ x. find n x.participant ≡ some p) (sym is) f)) [
            | inl (nick, ptr) ↦ record {
              client = bob;
              there = subst (λ x. find x pair.heap ≡ some bob) ptr refl;
              name = nick;
              registered = refl;
            }
            | inr (nick, ptr) ↦ record {
              client = carol;
              there = subst (λ x. find x pair.heap ≡ some carol) ptr refl;
              name = nick;
              registered = refl;
            }
          ]
  ];
  listed = λ p c e. elim (one_of_two p 0 1 bob carol c e) [
    | inl (ptr, is) ↦ subst (λ x. find x.fd pair.clients ≡ some p) is (ap some ptr)
    | inr (ptr, is) ↦ subst (λ x. find x.fd pair.clients ≡ some p) is (ap some ptr)
  ];
  distinct = λ p q c d e f same named. elim (one_of_two p 0 1 bob carol c e) [
    | inl (pp, cb) ↦ elim (one_of_two q 0 1 bob carol d f) [
      | inl (qq, db) ↦ sym pp ∙ qq
      | inr (qq, db) ↦
          absurd (two_names (ap Client.nickname cb ∙ same ∙ sym (ap Client.nickname db)))
    ]
    | inr (pp, cb) ↦ elim (one_of_two q 0 1 bob carol d f) [
      | inl (qq, db) ↦
          absurd (two_names (ap Client.nickname db ∙ sym same ∙ sym (ap Client.nickname cb)))
      | inr (qq, db) ↦ sym pp ∙ qq
    ]
  ];
}

room_held : find (codes "#a") pair.channels ≡ some room
unfolding find
room_held = refl

pub pair-Owned : Owned pair
unfolding find
pair-Owned = record { owned = λ fd p h. ground arith; fresh = λ q h. ground arith }

-- A third client connects.
abbrev pub third : Poll
third =
    Poll.ready (record { peer = some (6, codes "host"); nonblocking = true })
      (some (record { pollin = true; pollout = false; broken = false; received = none }) ∷ [])

six_free : find 6 (checked 1 pair).clients ≡ none
unfolding check_ping_time_out silent_clients ◌>>=◌ deref find modify for_each pure
six_free = refl

pub peer_fd :
    {fd : ℕ} {host : Str}
    → ◌≡◌ {A = Option (ℕ × Str)} (some (6, codes "host")) (some (fd, host))
    → 6 ≡ fd
peer_fd e = cc

pub third-FreshRun : FreshRun willing ((1, third) ∷ []) pair
third-FreshRun = (
  (λ e fd host is. subst (λ x. find x (checked 1 pair).clients ≡ none) (peer_fd is) six_free, tt),
  tt,
)

run-Seated_example : Seated (run willing ((1, third) ∷ []) pair).1
run-Seated_example = run-Seated willing ((1, third) ∷ []) pair third-FreshRun pair-Owned pair-Seated

broadcast_channel-delivers_example :
    let after = broadcast_channel willing (codes "hi") room (some 4) pair in
    (after.0 ≡ ok tt)
    × ((p : Ptr) (c : Client)
        → find p pair.heap ≡ some c
        → output c.fd p after.1
          ≡ output c.fd p pair ++ heard (some 4) (codes "hi") c.fd c.nickname p room.participant)
broadcast_channel-delivers_example =
    broadcast_channel-delivers willing (codes "hi") (codes "#a") room (some 4) pair
      (λ k fd bytes. refl) pair-Seated room_held

-- bob says something in the channel.
hello : Cmd
hello = message (codes "PRIVMSG") (codes "#a :hi")

abbrev hello_targets : Targets
hello_targets = record { ch_flag = true; receivers = codes "#a" ∷ []; msg = codes ":hi" }

hello_split :
    read_targets willing hello bob true (privmsg_split hello.cmd_params) no_targets pair
    ≡ (ok hello_targets, pair)
unfolding hello read_targets privmsg_split add_target pure
hello_split = refl

cmd_privmsg-delivers_example :
    AllOrNothing hello bob hello_targets pair (cmd_privmsg willing hello pair)
unfolding hello find
cmd_privmsg-delivers_example =
    cmd_privmsg-delivers willing hello 0 bob hello_targets pair (λ k fd bytes. refl) pair-Seated
      refl refl refl hello_split
