-- ===== src/Server/Occupied/Removal.antt =====
-- IrcServer::removeClientFromServer (src/Server.cpp): what it leaves of the channels.
use ft_irc_refactor.Base.{
  not_found, map, Option-cases, Bool-cases, ◌≡◌, ◌∙◌, ◌⊎◌, refl, inl, inr, none, some, Str, Map,
  find, ℕ_key, str_key, sym,
}
use ft_irc_refactor.Server.State.{ok, ◌>>=◌, Server, modify, deref}
use ft_irc_refactor.Channel.{
  Channel, Ptr, is_operator, is_participant, remove_participant, remove_operator,
}
use ft_irc_refactor.Client.{Client}
use ft_irc_refactor.Cmd.Members.{leave-members}
use ft_irc_refactor.Server.Teardown.{leave, forget_client, remove_client_from_server}
use ft_irc_refactor.Server.Members.Renaming.{find-map}
use ft_irc_refactor.Server.Staying.Message.{map-find}
use ft_irc_refactor.Server.Occupied.Departs.{Without}

leave-rest :
    (nick : Str) (ch : Channel)
    → record (leave nick ch) { participant = ch.participant; operator = ch.operator } ≡ ch
unfolding leave remove_participant remove_operator
leave-rest nick ch = elim (Bool-cases (is_participant nick ch)) [
  | inl a ↦ elim (Bool-cases (is_operator nick ch)) [
    | inl b ↦ rw (a, b) refl
    | inr b ↦ rw (a, b) refl
  ]
  | inr a ↦ elim (Bool-cases (is_operator nick ch)) [
    | inl b ↦ rw (a, b) refl
    | inr b ↦ rw (a, b) refl
  ]
]

-- A change of all channels adds none.
map-none :
    (f : Channel → Channel) (name : Str) (chs : Map Str Channel)
    → find name chs ≡ none
    → find name (map (λ entry. (entry.0, f entry.1)) chs) ≡ none
map-none f name chs new =
    elim (Option-cases (find name (map (λ entry. (entry.0, f entry.1)) chs))) [
      | inl none_there ↦ none_there
      | inr (d, there) ↦
          let (ch, (held, is)) = find-map f name chs d there in absurd (not_found (sym new ∙ held))
    ]

-- When a client is removed from the server, no error comes, and each channel loses its nickname, as
-- a participant and as an operator, and nothing else: it stays, even if nobody is left in it, and
-- no channel is new. The client must be alive.
pub remove_client_from_server-Without :
    (p : Ptr) (c : Client) (s : Server) (name : Str)
    → find p s.heap ≡ some c
    → ((remove_client_from_server (some p) s).0 ≡ ok tt)
      × (((find name s.channels ≡ none)
            × (find name (remove_client_from_server (some p) s).1.channels ≡ none))
          ⊎ ((ch : Channel) × ((d : Channel) × ((find name s.channels ≡ some ch)
                  × ((find name (remove_client_from_server (some p) s).1.channels ≡ some d)
                      × Without c.nickname ch d)))))
unfolding remove_client_from_server forget_client ◌>>=◌ deref modify
remove_client_from_server-Without p c s name there = rw there (
  refl,
  elim (Option-cases (find name s.channels)) [
    | inl new ↦ inl (new, map-none (leave c.nickname) name s.channels new)
    | inr (ch, held) ↦ inr (
      ch,
      (
        leave c.nickname ch,
        (
          held,
          (
            map-find (leave c.nickname) name s.channels ch held,
            (leave-rest c.nickname ch, λ q. leave-members c.nickname q ch),
          ),
        ),
      ),
    )
  ],
)
