-- ===== src/Server/Staying.antt =====
-- Who stays in the channels, and who is made to leave (src/Cmd/).
pub mod Steps
pub mod Departure
pub mod Join
pub mod Part
pub mod Kick
pub mod Message
use ft_irc_refactor.Cmd.Frame.{Quiet}
use ft_irc_refactor.Server.Net.{mark_client_for_removal_cases, enable_poll_out_event}
use ft_irc_refactor.Channel.{Ptr}
use ft_irc_refactor.Base.{
  Option-cases, false, true, zero, suc, ℕ, ◌≡◌, ◌≢◌, ◌≤◌, ◌<◌, ◌+◌, ◌-◌, ◌∙◌, ◌↔◌, ◌⊎◌, refl, inl,
  inr, Bool, not, ◌||◌, ◌&&◌, List, [], ◌∷◌, ◌++◌, Option, none, some, Str, Map, is_some, mem, find,
  assign, ℕ_key, str_key, ap, sym, subst, if◌then◌else◌, arith, ◌==◌, codes, crlf, length,
}
use ft_irc_refactor.Server.State.{
  modify, deref, update_client, Server, ok, throw, fault, sent, again, gone, failed, Outcome, ◌>>=◌,
  ◌>>◌,
}
use ft_irc_refactor.Server.Members.Entering.{In}

module _ (own : Option Ptr) (excused : Str → Type 0) (before : Server) where
  -- All who have been in a channel are in it still, but for one client and some channels.
  abbrev pub Stays : Server → Type 0
  Stays s =
      (name : Str) (q : Ptr) → In before name q → (own ≡ some q) ⊎ (excused name ⊎ In s name q)

  pub Stays-Quiet : Quiet Stays
  unfolding enable_poll_out_event update_client ◌>>=◌ deref modify
  Stays-Quiet = record {
    edit = λ p f edit. record {
      at = λ s h. elim (Option-cases (find p s.heap)) [ inl e ↦ rw e h | inr (c, e) ↦ rw e h ];
    };
    register = λ p c s there ready h. h;
    nicked = λ p c s there old h. h;
    mark = λ fd s h. mark_client_for_removal_cases Stays fd s h h;
    poll_out = λ fd s h. h;
    output = λ s n w h. h;
  }

  -- A change after which each participant is in its channel, or one that does not matter.
  pub further :
      (s t : Server)
      → ((name : Str) (q : Ptr) → In s name q → (own ≡ some q) ⊎ (excused name ⊎ In t name q))
      → Stays s
      → Stays t
  further s t step h name q was = elim (h name q was) [
    | inl mine ↦ inl mine
    | inr (inl free) ↦ inr (inl free)
    | inr (inr here) ↦ step name q here
  ]
