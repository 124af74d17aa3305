-- ===== src/Server/Staying/Part.antt =====
-- PART (src/Cmd/CmdPart.cpp): only the client that gives the command leaves.
use ft_irc_refactor.Cmd.Frame.Cast.{reply-Keeps}
use ft_irc_refactor.Cmd.Split.{is_valid_channel_name}
use ft_irc_refactor.Cmd.Frame.Members.{part_found-Keeps, parts-Keeps, leave_channel-Keeps}
use ft_irc_refactor.Cmd.Context.{Cmd}
use ft_irc_refactor.Cmd.Frame.Join.{both_quiet}
use ft_irc_refactor.Cmd.Part.{cmd_part, leave_channel, part_channel}
use ft_irc_refactor.Server.Keeps.{Keeps}
use ft_irc_refactor.Cmd.Frame.{Quiet, Channels}
use ft_irc_refactor.Client.{set_nick_status, set_registered_status, Client}
use ft_irc_refactor.Server.Net.{mark_client_for_removal_cases, enable_poll_out_event}
use ft_irc_refactor.Channel.{Channel, Ptr}
use ft_irc_refactor.Base.{
  find-assign, same_value, Option-cases, ==_iff, Bool-cases, ◌≡◌, ◌∙◌, refl, inl, inr, Option, none,
  some, Str, find, ℕ_key, str_key, ap, sym, subst, ◌==◌,
}
use ft_irc_refactor.Server.State.{modify, deref, update_client, Env, put, Server, ◌>>=◌}
use ft_irc_refactor.Server.Staying.{Stays, Stays-Quiet}
use ft_irc_refactor.Server.Staying.Departure.{leave_channel-at}
use ft_irc_refactor.Server.Laws.Message.{Told, Told-Quiet, Told-Channels}

-- The object at this address has the nickname.
abbrev pub Called : Ptr → Str → Server → Type 0
Called p nick s = (c : Client) × ((find p s.heap ≡ some c) × (c.nickname ≡ nick))

put-Called :
    (p q : Ptr) (c d : Client) (nick : Str) (s : Server)
    → find q s.heap ≡ some c
    → d.nickname ≡ c.nickname
    → Called p nick s
    → Called p nick (put q d s)
put-Called p q c d nick s there same (e, (found, name)) = elim (Bool-cases (q == p)) [
  | inl t ↦
      let here = (==_iff q p).0 t in
      let is = same_value (sym there ∙ subst (λ x. find x s.heap ≡ some e) (sym here) found) in
      (d, (rw (find-assign q p d s.heap, t) refl, same ∙ ap (λ x. x.nickname) is ∙ name))
  | inr f ↦ (e, (rw (find-assign q p d s.heap, f) found, name))
]

Called-Quiet : (p : Ptr) (nick : Str) → Quiet (Called p nick)
unfolding enable_poll_out_event set_registered_status set_nick_status update_client ◌>>=◌ deref
    modify
Called-Quiet p nick = record {
  edit = λ q f edit. record {
    at = λ s h. elim (Option-cases (find q s.heap)) [
      | inl e ↦ rw e h
      | inr (c, e) ↦ rw e (put-Called p q c (f c) nick s e (edit.same_nickname c) h)
    ];
  };
  register = λ q c s there ready h. put-Called p q c _ nick s there refl h;
  nicked = λ q c s there old h. put-Called p q c _ nick s there refl h;
  mark = λ fd s h. mark_client_for_removal_cases (Called p nick) fd s h h;
  poll_out = λ fd s h. h;
  output = λ s n w h. h;
}

Called-Channels : (p : Ptr) (nick : Str) → Channels (Called p nick)
Called-Channels p nick = record { channel = λ s chs fewer tidy h. h }

-- It is the participant of this nickname.
pub owner :
    (p q : Ptr) (nick name : Str) (ch : Channel) (s : Server)
    → Told s
    → Called p nick s
    → find name s.channels ≡ some ch
    → find nick ch.participant ≡ some q
    → p ≡ q
owner p q nick name ch s (seated, known) (c, (there, called)) held seat =
    let m = seated.seat name ch nick q held seat in
    let named = (known.known q m.client m.there (known.given q m.client m.there m.registered)).0 in
    sym (seated.distinct q p m.client c m.there there (m.name ∙ sym called) named)

module _ (own : Option Ptr) (excused : Str → Type 0) (before : Server) where
  abbrev pub Holds : Server → Type 0
  Holds s = Told s × Stays own excused before s

  pub Holds-Quiet : Quiet Holds
  Holds-Quiet = both_quiet Told-Quiet (Stays-Quiet own excused before)

  own_leave-Keeps :
      (p : Ptr) (nick name : Str)
      → own ≡ some p
      → Keeps (λ s. Holds s × Called p nick s) (leave_channel nick name)
  own_leave-Keeps p nick name mine = record {
    at = λ s ((told, stays), called). (
      (
        (leave_channel-Keeps Told-Channels nick name).at s told,
        leave_channel-at own excused before nick name s
            (λ ch q held seat.
              inl (mine ∙ ap some (owner p q nick name ch s told called held seat)))
            stays,
      ),
      (leave_channel-Keeps (Called-Channels p nick) nick name).at s called,
    );
  }

  part_channel_from :
      (env : Env) (c : Cmd) (name : Str) (o : Option Ptr) (s : Server)
      → c.client ≡ o
      → own ≡ o
      → Holds s
      → Holds (part_channel env c name s).1
  unfolding part_channel ◌>>=◌ deref
  part_channel_from env c name none s is mine h = rw is h
  part_channel_from env c name (some p) s is mine h = elim (Option-cases (find p s.heap)) [
    | inl e ↦ rw (is, e) h
    | inr (me, e) ↦ elim (Bool-cases (is_valid_channel_name name)) [
      | inl v ↦
          rw (is, e, v)
            ((part_found-Keeps (both_quiet Holds-Quiet (Called-Quiet p me.nickname)) me
                (λ name. own_leave-Keeps p me.nickname name mine) env _ name
                (find name s.channels)).at
              s (h, (me, (e, refl)))).0
      | inr v ↦ rw (is, e, v) ((reply-Keeps Holds-Quiet env _ _).at s h)
    ]
  ]

  pub cmd_part-Holds : (env : Env) (c : Cmd) → c.client ≡ own → Keeps Holds (cmd_part env c)
  cmd_part-Holds env c same =
      parts-Keeps Holds-Quiet env c
        (λ name. record { at = λ s h. part_channel_from env c name c.client s refl (sym same) h })
