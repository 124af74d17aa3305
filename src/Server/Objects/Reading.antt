-- ===== src/Server/Objects/Reading.antt =====
-- Reading from a client (processClientRead, src/Server.cpp): its loop, and the client
-- objects.

use ft_irc_refactor.Server.Turning.Messages.{body, next, with_rest}
use mathlib.Core.Option
use ft_irc_refactor.Base.{
  ℕ, zero, suc, ◌<◌, ◌≡◌, ap, sym, ◌∙◌, refl, inl, inr, Bool, true, false, not, ◌||◌, Option, none,
  some, Str, length, is_some, find, find-assign, ℕ_key, arith, Bool-cases, Option-cases, ==_iff,
}
use ft_irc_refactor.Channel.{Ptr}
use ft_irc_refactor.Client.{Client, extract, extract_message}
use ft_irc_refactor.Client.Extract.{extract-lossless}
use ft_irc_refactor.Server.State.{
  put, undefined, Env, Server, Outcome, ok, throw, fault, pure, ◌>>=◌, deref, modify, update_client,
  and_then, attempt,
}
use ft_irc_refactor.Server.Net.{get_client, is_marked_for_removal}
use ft_irc_refactor.Server.Loop.{logged, handle_message, read_loop}
use ft_irc_refactor.Server.Objects.{Held, held, object_at, Owned}
use ft_irc_refactor.Server.Objects.Messages.{handle_client_cmd-objects, handle_client_cmd-Owned}
use ft_irc_refactor.Cmd.Dispatch.{handle_client_cmd}

get_fd : ℕ → Option (Str × Client) → ℕ
get_fd n none = n
get_fd n (some (m, c)) = c.fd

get_rest : Option (Str × Client) → Option (Str × Str)
get_rest none = none
get_rest (some (m, c)) = some (m, c.recv_buffer)

taken_from :
    (c d : Client) (m : Str) (x : Option (Str × Str))
    → with_rest c x ≡ some (m, d)
    → (d.fd ≡ c.fd) × (x ≡ some (m, d.recv_buffer))
unfolding get_fd get_rest with_rest
taken_from c d m none e = absurd (cc)
taken_from c d m (some (m', r)) e = (sym (ap (get_fd c.fd) e), ap get_rest e)

-- What a message taken from the buffer leaves: the descriptor, and a shorter buffer.
taken :
    (c d : Client) (m : Str)
    → extract_message c ≡ some (m, d)
    → (d.fd ≡ c.fd) × (length d.recv_buffer < length c.recv_buffer)
unfolding extract_message with_rest
taken c d m e =
    let (same, from) = taken_from c d m (extract c.recv_buffer) e in
    (same, (extract-lossless c.recv_buffer m d.recv_buffer from).1)

pub put-Owned :
    (p : Ptr) (c d : Client) (s : Server)
    → find p s.heap ≡ some c
    → d.fd ≡ c.fd
    → Owned s
    → Owned (put p d s)
put-Owned p c d s there same o = record {
  owned = λ g q e. ground (arith, ==_iff p q, find-assign p q d s.heap, o.owned g q);
  fresh = λ q le. ground (arith, ==_iff p q, find-assign p q d s.heap, o.fresh q);
}

put-at : (p : Ptr) (d : Client) (s : Server) → object_at p (put p d s) ≡ some (held d)
put-at p d s = rw (find-assign p p d s.heap) (rw ((==_iff p p).1 refl) refl)

logged-state : (P : Server → Type 0) (o : Outcome Bool) (s : Server) → P s → P (logged o s).1
unfolding pure undefined
logged-state P (ok b) s h = h
logged-state P (throw e) s h = h
logged-state P fault s h = h

-- The state after a message.
abbrev after : Env → ℕ → Str → Server → Server
after env fd m s = (handle_message env fd m s).1

after-Owned : (env : Env) (fd : ℕ) (m : Str) (s : Server) → Owned s → Owned (after env fd m s)
unfolding handle_message ◌>>=◌ attempt
after-Owned env fd m s o =
    logged-state Owned (handle_client_cmd env _ s).0 _ (handle_client_cmd-Owned env _ s o)

after-objects :
    (env : Env) (fd : ℕ) (m : Str) (s : Server)
    → Owned s
    → (q : Ptr) → object_at q (after env fd m s) ≡ object_at q s
unfolding handle_message ◌>>=◌ attempt
after-objects env fd m s o q =
    logged-state (λ t. object_at q t ≡ object_at q s) (handle_client_cmd env _ s).0 _
      (handle_client_cmd-objects env _ s o q)

held_size : (c : Client) (h : Held) → some (held c) ≡ some h → length c.recv_buffer ≡ length h.1
held_size c h e = ap size e
  where
    size : Option Held → ℕ
    size none = 0
    size (some x) = length x.1

module _ (env : Env) (fd : ℕ) (p : Ptr) where
  next-eq :
      (n k : ℕ) (o : Outcome Bool) (s : Server)
      → read_loop env n fd p s ≡ read_loop env k fd p s
      → and_then o (next env fd p n) s ≡ and_then o (next env fd p k) s
  next-eq n k (ok true) s h = h
  next-eq n k (ok false) s h = refl
  next-eq n k (throw e) s h = refl
  next-eq n k fault s h = refl

  body-eq :
      (n k : ℕ) (x : Option (Str × Client)) (c : Client) (s : Server)
      → find p s.heap ≡ some c
      → ((m : Str) (d : Client)
          → x ≡ some (m, d)
          → read_loop env n fd p (after env fd m (put p d s))
            ≡ read_loop env k fd p (after env fd m (put p d s)))
      → body env fd p n x s ≡ body env fd p k x s
  unfolding ◌>>=◌ deref update_client modify
  body-eq n k none c s e h = refl
  body-eq n k (some (m, d)) c s e h = rw e (next-eq n k _ _ (h m d refl))

  -- The loop ends: two amounts of fuel above the number of bytes in the receive buffer give the
  -- same result.
  pub read_loop-fuel :
      (n k : ℕ) (s : Server) (h : Held)
      → Owned s
      → object_at p s ≡ some h
      → length h.1 < n
      → length h.1 < k
      → read_loop env n fd p s ≡ read_loop env k fd p s
  unfolding read_loop ◌>>=◌ deref
  read_loop-fuel zero k s h o at less less' = absurd (omega arith)
  read_loop-fuel (suc n) zero s h o at less less' = absurd (omega arith)
  read_loop-fuel (suc n) (suc k) s h o at less less' =
      elim (Bool-cases (not (is_some (get_client fd s)) || is_marked_for_removal fd s)) [
        | inl e ↦ rw e refl
        | inr e ↦ elim (Option-cases (find p s.heap)) [
          | inl e1 ↦ rw (e, e1) refl
          | inr (c, e1) ↦
              rw (e, e1)
                (body-eq n k (extract_message c) c s e1 λ m d e2.
                  let (same, shorter) = taken c d m e2 in
                  let o' = put-Owned p c d s e1 same o in
                  let size = held_size c h (sym (ap (Option.map held) e1) ∙ at) in
                  read_loop-fuel n k _ (held d) (after-Owned env fd m _ o')
                    (after-objects env fd m _ o' p ∙ put-at p d s)
                    (omega (arith, size, shorter, less)) (omega (arith, size, shorter, less')))
        ]
      ]
