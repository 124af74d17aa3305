-- ===== src/Cmd/Authority.antt =====
-- Who may change a channel: the checks of KICK (src/Cmd/CmdKick.cpp), MODE (src/Cmd/CmdMode.cpp)
-- and INVITE (src/Cmd/CmdInvite.cpp).
use ft_irc_refactor.Base.{
  ◌≡◌, inl, inr, true, not, ◌||◌, some, Str, List, ◌∷◌, find, str_key, Option-cases,
}
use ft_irc_refactor.Channel.{Channel, is_participant, is_operator, has_mode, invite_mode}
use ft_irc_refactor.Client.{Client}
use ft_irc_refactor.Server.State.{Env, Server, Action, ok, ◌>>=◌, channel_at, get}
use ft_irc_refactor.Server.Effects.{require_iff}
use ft_irc_refactor.Cmd.Context.{Cmd}
use ft_irc_refactor.Cmd.Part.{kick}
use ft_irc_refactor.Cmd.Mode.{mode_params}
use ft_irc_refactor.Cmd.Invite.{check_invite}

get_ok :
    {B : Type 0} (f : Server → Action B) (s : Server) (o : B)
    → ((get >>= f) s).0 ≡ ok o
    → (f s s).0 ≡ ok o
unfolding ◌>>=◌
get_ok f s o h = h

-- A statement that reads a channel ends only where the channel is there.
channel_at_ok :
    {B : Type 0} (name : Str) (f : Channel → Action B) (s : Server) (o : B)
    → ((channel_at name >>= f) s).0 ≡ ok o
    → (ch : Channel) × ((find name s.channels ≡ some ch) × ((f ch s).0 ≡ ok o))
unfolding ◌>>=◌ channel_at
channel_at_ok name f s o h = elim (Option-cases (find name s.channels)) [
  | inl e ↦ absurd (let k = rw e at h in (cc))
  | inr (ch, e) ↦ (ch, (e, rw e at h))
]

-- KICK ends normally only where the channel exists, the client that gives it is a participant and
-- an operator of the channel, and the target is a participant.
pub kick-is_operator :
    (env : Env) (me : Client) (name target : Str) (s : Server)
    → (kick env me name target s).0 ≡ ok tt
    → (ch : Channel) × ((find name s.channels ≡ some ch)
        × ((is_participant me.nickname ch ≡ true)
            × ((is_operator me.nickname ch ≡ true) × (is_participant target ch ≡ true))))
unfolding kick
kick-is_operator env me name target s h =
    let (a, h1) = (require_iff _ _ _ s tt).0 h in
    let (b, h2) = (require_iff _ _ _ s tt).0 (get_ok _ s tt h1) in
    let (ch, (e, h3)) = channel_at_ok name _ s tt h2 in
    let (d, h4) = (require_iff _ _ _ s tt).0 h3 in
    let (f, h5) = (require_iff _ _ _ s tt).0 h4 in
    let (g, h6) = (require_iff _ _ _ s tt).0 h5 in (ch, (e, (d, (f, g))))

-- MODE with an option ends normally only where the channel exists and the client that gives it is
-- a participant and an operator of the channel.
pub mode_params-is_operator :
    (env : Env) (c : Cmd) (me : Client) (name option : Str) (param : List Str) (s : Server)
    → (mode_params env c me (name ∷ option ∷ param) s).0 ≡ ok tt
    → (ch : Channel) × ((find name s.channels ≡ some ch)
        × ((is_participant me.nickname ch ≡ true) × (is_operator me.nickname ch ≡ true)))
unfolding mode_params
mode_params-is_operator env c me name option param s h =
    let (b, h2) = (require_iff _ _ _ s tt).0 (get_ok _ s tt h) in
    let (ch, (e, h3)) = channel_at_ok name _ s tt h2 in
    let (d, h4) = (require_iff _ _ _ s tt).0 h3 in
    let (f, h5) = (require_iff _ _ _ s tt).0 h4 in (ch, (e, (d, f)))

-- The checks of INVITE pass only where the channel exists and the client that gives it is a
-- participant, and an operator if the channel is +i.
pub check_invite-is_operator :
    (me : Client) (target name : Str) (s : Server)
    → (check_invite me target name s).0 ≡ ok tt
    → (ch : Channel) × ((find name s.channels ≡ some ch)
        × ((is_participant me.nickname ch ≡ true)
            × ((not (has_mode invite_mode ch) || is_operator me.nickname ch) ≡ true)))
unfolding check_invite
check_invite-is_operator me target name s h =
    let (a, h1) = (require_iff _ _ _ s tt).0 h in
    let (b, h2) = (require_iff _ _ _ s tt).0 (get_ok _ s tt h1) in
    let (ch, (e, h3)) = channel_at_ok name _ s tt h2 in
    let (d, h4) = (require_iff _ _ _ s tt).0 h3 in
    let (f, h5) = (require_iff _ _ _ s tt).0 h4 in (ch, (e, (d, f)))
