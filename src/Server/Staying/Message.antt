-- ===== src/Server/Staying/Message.antt =====
-- Who leaves a channel in a message (handleClientCmd, src/Cmd/Cmd.cpp).
use ft_irc_refactor.Cmd.Frame.Members.{leave_channel-Keeps, cmd_kick-Keeps}
use ft_irc_refactor.Cmd.Frame.Mode.{handle_flag_option-Keeps}
use ft_irc_refactor.Client.{Client}
use ft_irc_refactor.Server.Laws.Rename.{Unused-seat, moved_other}
use ft_irc_refactor.Cmd.Dispatch.{handle_client_cmd}
use ft_irc_refactor.Cmd.Frame.Join.{joined-Keeps}
use ft_irc_refactor.Server.Members.Renaming.{participants}
use ft_irc_refactor.Server.Members.Known.{Known}
use ft_irc_refactor.Cmd.Frame.Joining.{cmd_join-Keeps}
use ft_irc_refactor.Cmd.Frame.Rooms.{plain-Keeps, seats-Keeps}
use ft_irc_refactor.Server.Members.{Seated}
use ft_irc_refactor.Cmd.Frame.Message.{client_cmd-at, Rooms}
use ft_irc_refactor.Cmd.Frame.{new_name, Unused, Names, Updates}
use ft_irc_refactor.Server.Net.{update_clients, update_nick_name_client_map, add_client_by_nickname}
use ft_irc_refactor.Cmd.Context.{Cmd}
use ft_irc_refactor.Cmd.Register.{rename_in_channels, rename_in}
use ft_irc_refactor.Channel.{is_participant, Ptr, Channel}
use ft_irc_refactor.Base.{
  not_both, str_eq_iff, same_value, str_eq, Bool-cases, not_found, map, ◌≡◌, ◌≢◌, ◌∙◌, ◌⊎◌, refl,
  inl, inr, [], ◌∷◌, Option, none, some, Str, Map, find, ℕ_key, str_key, ap, sym, subst,
}
use ft_irc_refactor.Server.State.{Server, Env}
use ft_irc_refactor.Server.Members.Renaming.{unchanged, participants}
use ft_irc_refactor.Server.Staying.{Stays, further}
use ft_irc_refactor.Server.Staying.Steps.{stays-Updates}
use ft_irc_refactor.Server.Staying.Join.{join_channel-Stays}
use ft_irc_refactor.Server.Staying.Part.{owner, Holds, Holds-Quiet, cmd_part-Holds}
use ft_irc_refactor.Server.Staying.Kick.{Kicked, cmd_kick-Stays}
use ft_irc_refactor.Server.Members.Entering.{In}
use ft_irc_refactor.Server.Laws.Message.{Told-Quiet, Told-Channels, Told-Moves}

-- A channel of a list in which all change.
pub map-find :
    (f : Channel → Channel) (name : Str) (chs : Map Str Channel) (ch : Channel)
    → find name chs ≡ some ch
    → find name (map (λ entry. (entry.0, f entry.1)) chs) ≡ some (f ch)
unfolding find
map-find f name [] ch e = absurd (not_found e)
map-find f name ((k, d) ∷ chs) ch e = elim (Bool-cases (str_eq k name)) [
  | inl b ↦ rw b (ap (λ x. some (f x)) (same_value (rw b at e)))
  | inr b ↦ rw b (map-find f name chs ch (rw b at e))
]

-- A participant of another nickname, when one is renamed.
renamed_seat :
    (old t : Str) (p : Ptr) (ch : Channel) (n : Str) (q : Ptr)
    → find t ch.participant ≡ none
    → old ≢ n
    → find n ch.participant ≡ some q
    → find n (rename_in old t p ch).participant ≡ some q
renamed_seat old t p ch n q free differ seat = elim (Bool-cases (is_participant old ch)) [
  | inl b ↦
      subst (λ m. find n m ≡ some q) (sym (participants old t p ch b))
        (moved_other old t p ch free n q differ seat)
  | inr b ↦ subst (λ m. find n m ≡ some q) (sym (unchanged old t p ch b)) seat
]

module _ (own : Option Ptr) (excused : Str → Type 0) (before : Server) where
  abbrev Hold : Server → Type 0
  Hold = Holds own excused before

  renamed-Stays :
      (p : Ptr) (c : Client) (t : Str) (s : Server)
      → own ≡ some p
      → find p s.heap ≡ some c
      → Unused t s
      → Hold s
      → Stays own excused before (new_name p c t s)
  unfolding rename_in_channels update_nick_name_client_map update_clients
  renamed-Stays p c t s mine there unused (told, stays) =
      further own excused before s (new_name p c t s) step stays
    where
      step :
          (name : Str) (q : Ptr)
          → In s name q
          → (own ≡ some q) ⊎ (excused name ⊎ In (new_name p c t s) name q)
      step name q (ch, (held, (n, seat))) = elim (Bool-cases (str_eq c.nickname n)) [
        | inl b ↦ inl (
            mine
            ∙ ap some (
                owner p q c.nickname name ch s told (c, (there, refl)) held
                  (subst (λ x. find x ch.participant ≡ some q) (sym ((str_eq_iff c.nickname n).0 b))
                    seat)))
        | inr b ↦ inr (
            inr (
              rename_in c.nickname t p ch,
              (
                map-find (rename_in c.nickname t p) name s.channels ch held,
                (
                  n,
                  renamed_seat c.nickname t p ch n q (Unused-seat t name ch s unused told.0 held)
                      (λ same. not_both ((str_eq_iff c.nickname n).1 same) b) seat,
                ),
              ),
            ))
      ]

  Hold-Names : (p : Ptr) → own ≡ some p → Names Hold p
  unfolding add_client_by_nickname
  Hold-Names p mine = record {
    named = λ c t s there new good unused (told, stays).
        (((Told-Moves own).names p mine).named c t s there new good unused told, stays);
    renamed = λ c t s there old good unused (told, stays). (
      ((Told-Moves own).names p mine).renamed c t s there old good unused told,
      renamed-Stays p c t s mine there unused (told, stays),
    );
  }

  Hold-Updates : Updates Hold
  Hold-Updates name f same = record {
    at = λ s (told, stays). (
      (seats-Keeps Told-Channels name f same).at s told,
      (stays-Updates own excused before name f same).at s stays,
    );
  }

  Hold-Rooms : (env : Env) (c : Cmd) → c.client ≡ own → Rooms Hold env c
  Hold-Rooms env c same = record {
    join = cmd_join-Keeps (Holds-Quiet own excused before) env c λ d _ name key. record {
      at = λ s ((told, stays), registered).
          let (told', registered') =
            (joined-Keeps Told-Quiet env d (Told-Moves d.client) name key).at s
              (told, registered) in
          ((told', (join_channel-Stays own excused before env d name key).at s stays), registered');
    };
    part = cmd_part-Holds own excused before env c same;
    plain = plain-Keeps Hold-Updates;
    change = handle_flag_option-Keeps (Holds-Quiet own excused before) Hold-Updates;
  }

-- Whoever is in a channel before a message and not behind it is the client that sent the message,
-- or the message is a KICK from a registered client that is an operator of that channel. Before the
-- message the participants must be living clients, and found under their nicknames.
pub handle_client_cmd-leaves :
    (env : Env) (c : Cmd) (s : Server) (name : Str) (q : Ptr)
    → Seated s
    → Known s
    → In s name q
    → (c.client ≡ some q) ⊎ (Kicked c s name ⊎ In (handle_client_cmd env c s).1 name q)
handle_client_cmd-leaves env c s name q seated known here =
    (client_cmd-at (Holds-Quiet c.client (Kicked c s) s) env c
        (λ p mine. Hold-Names c.client (Kicked c s) s p mine)
        (Hold-Rooms c.client (Kicked c s) s env c refl) s
        ((seated, known), λ k r was. inr (inr was))
        (λ verb. (
          (cmd_kick-Keeps Told-Quiet (leave_channel-Keeps Told-Channels) env c).at s
              (seated, known),
          cmd_kick-Stays c.client s env c verb,
        ))).1
      name q here
