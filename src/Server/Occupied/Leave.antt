-- ===== src/Server/Occupied/Leave.antt =====
-- PART and KICK (src/Cmd/CmdPart.cpp, CmdKick.cpp): whether the channel has a participant then.
use ft_irc_refactor.Server.Laws.Leave.{missing}
use ft_irc_refactor.Server.Members.Renaming.{left_over}
use ft_irc_refactor.Server.Keeps.{Keeps}
use ft_irc_refactor.Channel.{is_operator, remove_participant, Channel, remove_operator}
use ft_irc_refactor.Server.Net.{remove_channel}
use ft_irc_refactor.Cmd.Part.{leave_channel}
use ft_irc_refactor.Base.{
  Option-cases, erase, find-assign_same, is_empty, Bool-cases, ◌≡◌, ◌≢◌, refl, inl, inr, some, Str,
  Map, find, assign, ℕ_key, str_key, sym, subst,
}
use ft_irc_refactor.Server.State.{Server, pure, modify, channel_at, update_channel, ◌>>=◌}
use ft_irc_refactor.Server.Occupied.{Occupied, settled, other_channel, placed-Occupied}

-- One channel has gone.
dropped :
    (name : Str) (s : Server) (m : Map Str Channel)
    → ((k : Str) (d : Channel) → name ≢ k → find k m ≡ some d → find k s.channels ≡ some d)
    → Occupied s
    → Occupied (record s { channels = erase name m })
dropped name s m others h =
    settled name s (record s { channels = erase name m })
      (λ k d differ e. others k d differ (left_over name k d m e).1)
      (λ d e. absurd ((left_over name name d m e).0 refl)) h

-- Leaving a channel that is there: what is found then.
departed :
    (nick name : Str) (ch : Channel) (s : Server)
    → find name s.channels ≡ some ch
    → Occupied s
    → Occupied (leave_channel nick name s).1
unfolding leave_channel update_channel channel_at ◌>>=◌ modify pure remove_channel remove_operator
departed nick name ch s held h =
    let left = remove_participant nick ch in
    let first = assign name left s.channels in
    elim (Bool-cases (is_operator nick left)) [
      | inl op ↦
          let last = assign name (remove_operator nick left) first in
          elim (Bool-cases (is_empty left.participant)) [
            | inl vacant ↦
                rw
                  (
                    held,
                    find-assign_same name left s.channels,
                    op,
                    find-assign_same name left s.channels,
                    find-assign_same name (remove_operator nick left) first,
                    vacant,
                  )
                  (dropped name s last
                    (λ k d differ e.
                      other_channel name k left d s.channels differ
                        (other_channel name k (remove_operator nick left) d first differ e))
                    h)
            | inr full ↦
                rw
                  (
                    held,
                    find-assign_same name left s.channels,
                    op,
                    find-assign_same name left s.channels,
                    find-assign_same name (remove_operator nick left) first,
                    full,
                  )
                  (placed-Occupied name (remove_operator nick left) (record s { channels = first })
                    full (placed-Occupied name left s full h))
          ]
      | inr op ↦ elim (Bool-cases (is_empty left.participant)) [
        | inl vacant ↦
            rw
              (
                held,
                find-assign_same name left s.channels,
                op,
                find-assign_same name left s.channels,
                vacant,
              )
              (dropped name s first
                (λ k d differ e. other_channel name k left d s.channels differ e) h)
        | inr full ↦
            rw
              (
                held,
                find-assign_same name left s.channels,
                op,
                find-assign_same name left s.channels,
                full,
              )
              (placed-Occupied name left s full h)
      ]
    ]

pub leave_channel-Occupied : (nick name : Str) → Keeps Occupied (leave_channel nick name)
leave_channel-Occupied nick name = record {
  at = λ s h. elim (Option-cases (find name s.channels)) [
    | inl e ↦ subst Occupied (sym (missing nick name s e)) h
    | inr (ch, e) ↦ departed nick name ch s e h
  ];
}
