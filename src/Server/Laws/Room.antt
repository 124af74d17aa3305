-- ===== src/Server/Laws/Room.antt =====
-- Runs of statements over one channel (src/Cmd/): that they end without an exception, and what the
-- channel is like then.
use ft_irc_refactor.Channel.{Channel, Ptr}
use ft_irc_refactor.Base.{
  not_both, same_value, find-assign_cases, str_eq_iff, find-assign_same, str_eq, Bool-cases, false,
  true, ◌≡◌, ◌≢◌, ◌∙◌, refl, inl, inr, Bool, some, Str, Map, find, ℕ_key, str_key, sym, subst,
}
use ft_irc_refactor.Server.State.{
  fault, throw, ok, and_then, Outcome, when, channel_at, update_channel, modify, pure, Action,
  Server, ◌>>=◌, ◌>>◌,
}
use ft_irc_refactor.Server.Laws.{Ruled, Lawful}

-- The channel under the name is as `Q` says, the others are in order, and the nicknames lead where
-- they did.
pub record Room (name : Str) (names : Map Str Ptr) (Q : Channel → Type 0) (s : Server)
    : Type 0 where
  pub here : Channel
  pub there : find name s.channels ≡ some here
  pub holds : Q here
  pub others : (k : Str) (ch : Channel) → name ≢ k → find k s.channels ≡ some ch → Ruled ch
  pub same : s.nick_name_client_map ≡ names

pub enter-Room :
    (name : Str) (ch : Channel) (Q : Channel → Type 0) (s : Server)
    → find name s.channels ≡ some ch
    → Q ch
    → Lawful s
    → Room name s.nick_name_client_map Q s
enter-Room name ch Q s there q h = record {
  here = ch;
  there = there;
  holds = q;
  others = λ k d differ e. h.ruled k d e;
  same = refl;
}

pub Room-Lawful :
    (name : Str) (names : Map Str Ptr) (s : Server) → Room name names Ruled s → Lawful s
Room-Lawful name names s r = record {
  ruled = λ k ch e. elim (Bool-cases (str_eq name k)) [
    | inl t ↦
        let same = (str_eq_iff name k).0 t in
        subst Ruled
          (same_value (sym r.there ∙ subst (λ x. find x s.channels ≡ some ch) (sym same) e)) r.holds
    | inr f ↦ r.others k ch (λ same. not_both ((str_eq_iff name k).1 same) f) e
  ];
}

-- From each state with `P` the statements end normally, in one with `Q`.
pub record Runs (P Q : Server → Type 0) (m : Action (Unit {0})) : Type 0 where
  pub at : (s : Server) → P s → ((m s).0 ≡ ok tt) × Q (m s).1

module _ {P Q R : Server → Type 0} where
  pub Runs-then : (m n : Action (Unit {0})) → Runs P Q m → Runs Q R n → Runs P R (m >> n)
  unfolding ◌>>=◌
  Runs-then m n first second = record {
    at = λ s h. let (ends, q) = first.at s h in rw ends (second.at (m s).1 q);
  }

module _ {P Q : Server → Type 0} where
  pub Runs-when :
      (b : Bool) (m : Action (Unit {0}))
      → (b ≡ true → Runs P Q m)
      → (b ≡ false → (s : Server) → P s → Q s)
      → Runs P Q (when b m)
  unfolding pure
  Runs-when true m taken other = taken refl
  Runs-when false m taken other = record { at = λ s h. (refl, other refl s h) }

  pub Runs-modify : (f : Server → Server) → ((s : Server) → P s → Q (f s)) → Runs P Q (modify f)
  unfolding modify
  Runs-modify f step = record { at = λ s h. (refl, step s h) }

module _ {P : Server → Type 0} where
  pub Runs-pure : Runs P P (pure tt)
  unfolding pure
  Runs-pure = record { at = λ s h. (refl, h) }

module _ {name : Str} {names : Map Str Ptr} where
  pub weaker :
      {Q R : Channel → Type 0}
      → ((ch : Channel) → Q ch → R ch)
      → (s : Server) → Room name names Q s
      → Room name names R s
  weaker step s r = record {
    here = r.here;
    there = r.there;
    holds = step r.here r.holds;
    others = r.others;
    same = r.same;
  }

module _ {name : Str} {names : Map Str Ptr} {Q : Channel → Type 0} where
  pub update_channel-Runs :
      {R : Channel → Type 0} (f : Channel → Channel)
      → ((ch : Channel) → Q ch → R (f ch))
      → Runs (Room name names Q) (Room name names R) (update_channel name f)
  unfolding update_channel channel_at ◌>>=◌ modify
  update_channel-Runs f step = record {
    at = λ s r. rw r.there (
      refl,
      record {
        here = f r.here;
        there = find-assign_same name (f r.here) s.channels;
        holds = step r.here r.holds;
        others = λ k ch differ e. elim (find-assign_cases name k (f r.here) ch s.channels e) [
          | inl (same, _) ↦ absurd (differ same)
          | inr old ↦ r.others k ch differ old
        ];
        same = r.same;
      },
    );
  }

  -- What is found is known to be the channel.
  pub channel_at-Runs :
      {R : Server → Type 0} (next : Channel → Action (Unit {0}))
      → ((ch : Channel) → Q ch → Runs (Room name names (λ d. d ≡ ch)) R (next ch))
      → Runs (Room name names Q) R (channel_at name >>= next)
  unfolding channel_at ◌>>=◌
  channel_at-Runs next step = record {
    at = λ s r. rw r.there (
        (step r.here r.holds).at s (record {
          here = r.here;
          there = r.there;
          holds = refl;
          others = r.others;
          same = r.same;
        }));
  }

-- What follows a check that has changed nothing.
pub checked_then :
    (P : Server → Type 0) {A : Type 0} (m : Action A) (k : A → Action (Unit {0})) (s : Server)
    → (m s).1 ≡ s
    → P s
    → ((a : A) → (m s).0 ≡ ok a → P (k a s).1)
    → P ((m >>= k) s).1
unfolding ◌>>=◌
checked_then P m k s same h next =
    follow P (m s).0 (m s).1 k (subst P (sym same) h)
      (λ a e. subst (λ t. P (k a t).1) (sym same) (next a e))
  where
    follow :
        (P : Server → Type 0) {A : Type 0} (o : Outcome A) (t : Server) (k : A → Action (Unit {0}))
        → P t
        → ((a : A) → o ≡ ok a → P (k a t).1)
        → P (and_then o k t).1
    follow P (ok a) t k h next = next a refl
    follow P (throw e) t k h next = h
    follow P fault t k h next = h
