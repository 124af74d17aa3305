-- ===== src/Server/Turning/Messages.antt =====
-- The messages of a client (processClientRead, src/Server.cpp) inside the frame of the loop.
use ft_irc_refactor.Base.{
  subst, false, true, zero, suc, ℕ, ◌≡◌, refl, inl, inr, Bool, not, ◌||◌, Option, none, some, Str,
  is_some, find, ℕ_key, Option-cases, Bool-cases, ap, if◌then◌else◌,
}
use ft_irc_refactor.Channel.{Ptr}
use ft_irc_refactor.Client.{Client, extract, extract_message}
use ft_irc_refactor.Server.State.{
  ok, throw, fault, Env, Server, Outcome, Action, pure, update_client, ◌>>=◌, ◌>>◌, deref, modify,
}
use ft_irc_refactor.Server.Keeps.{
  Keeps-pure, Keeps-attempt, Keeps-if, Keeps-bind, Keeps, Keeps-modify, Keeps-ask, keeps_rules,
}
use ft_irc_refactor.Server.Net.{
  get_client, mark_client_for_removal, disable_poll_out_event, is_marked_for_removal, send,
}
use ft_irc_refactor.Server.Loop.{logged, handle_message, read_loop}
use ft_irc_refactor.Cmd.Dispatch.{make_cmd}
use ft_irc_refactor.Server.Turning.{SameButBuffers, Reads}

unfoldable pub with_rest : Client → Option (Str × Str) → Option (Str × Client)
with_rest c none = none
with_rest c (some (message, rest)) = some (message, record c { recv_buffer = rest })

client_of : Client → Option (Str × Client) → Client
client_of c none = c
client_of c (some (m, d)) = d

from_rest :
    (c d : Client) (m : Str) (x : Option (Str × Str))
    → with_rest c x ≡ some (m, d)
    → SameButBuffers c d
unfolding with_rest client_of
from_rest c d m none e = absurd (cc)
from_rest c d m (some (m', r)) e = subst (SameButBuffers c) (ap (client_of c) e) refl

-- What a message taken from the buffer leaves.
extract_message-SameButBuffers :
    (c d : Client) (m : Str) → extract_message c ≡ some (m, d) → SameButBuffers c d
unfolding extract_message with_rest
extract_message-SameButBuffers c d m e = from_rest c d m (extract c.recv_buffer) e

module _ (env : Env) (fd : ℕ) (p : Ptr) where
  abbrev pub next : ℕ → Bool → Action Bool
  next n alive = if alive then read_loop env n fd p else pure false

  -- What follows an extraction in the loop over the messages.
  abbrev pub body : ℕ → Option (Str × Client) → Action Bool
  body n none = pure true
  body n (some (m, d)) = do update_client p (λ _. d); alive ← handle_message env fd m; next n alive

module _ {P : Server → Type 0} (reads : Reads P) where
  pub edit-Keeps :
      (p : Ptr) (f : Client → Client)
      → ((c : Client) → SameButBuffers c (f c))
      → Keeps P (update_client p f)
  unfolding update_client ◌>>=◌ deref modify
  edit-Keeps p f same = record {
    at = λ s h. elim (Option-cases (find p s.heap)) [
      | inl e ↦ rw e h
      | inr (c, e) ↦ rw e (reads.buffers p c (f c) s e (same c) h)
    ];
  }

  pub mark-Keeps : (fd : ℕ) → Keeps P (modify (mark_client_for_removal fd))
  mark-Keeps fd = Keeps-modify _ (reads.mark fd)

  pub disable-Keeps : (fd : ℕ) → Keeps P (modify (disable_poll_out_event fd))
  disable-Keeps fd = Keeps-modify _ (reads.disable fd)

  pub send-Keeps : (env : Env) (fd : ℕ) (bytes : Str) → Keeps P (send env fd bytes)
  unfolding send ◌>>=◌ modify
  send-Keeps env fd bytes = record { at = λ s h. reads.output s _ _ h }

  logged-Keeps : (o : Outcome Bool) → Keeps P (logged o)
  logged-Keeps (ok b) = search keeps_rules
  logged-Keeps (throw e) = search keeps_rules
  logged-Keeps fault = search keeps_rules

  handle_message-Keeps : (env : Env) (fd : ℕ) (m : Str) → Keeps P (handle_message env fd m)
  unfolding handle_message
  handle_message-Keeps env fd m =
      Keeps-bind _ _ (Keeps-ask _)
        λ s. Keeps-attempt _ _ (reads.message env (make_cmd m fd (get_client fd s))) logged-Keeps

  next-Keeps :
      (env : Env) (n fd : ℕ) (p : Ptr) (m : Str)
      → Keeps P (read_loop env n fd p)
      → Keeps P (handle_message env fd m >>= next env fd p n)
  next-Keeps env n fd p m loop =
      Keeps-bind _ _ (handle_message-Keeps env fd m)
        λ alive. Keeps-if alive _ _ (λ _. loop) (λ _. Keeps-pure false)

  body-at :
      (env : Env) (n fd : ℕ) (p : Ptr) (x : Option (Str × Client)) (c : Client) (s : Server)
      → find p s.heap ≡ some c
      → ((m : Str) (d : Client) → x ≡ some (m, d) → SameButBuffers c d)
      → Keeps P (read_loop env n fd p)
      → P s
      → P (body env fd p n x s).1
  unfolding ◌>>=◌ deref update_client modify
  body-at env n fd p none c s e same loop h = h
  body-at env n fd p (some (m, d)) c s e same loop h =
      rw e ((next-Keeps env n fd p m loop).at _ (reads.buffers p c d s e (same m d refl) h))

  read_loop-at :
      (env : Env) (fd : ℕ) (p : Ptr) (n : ℕ) (s : Server) → P s → P (read_loop env n fd p s).1
  unfolding read_loop ◌>>=◌ deref
  read_loop-at env fd p zero s h = h
  read_loop-at env fd p (suc n) s h =
      elim (Bool-cases (not (is_some (get_client fd s)) || is_marked_for_removal fd s)) [
        | inl e ↦ rw e h
        | inr e ↦ elim (Option-cases (find p s.heap)) [
          | inl e1 ↦ rw (e, e1) h
          | inr (c, e1) ↦
              rw (e, e1)
                (body-at env n fd p (extract_message c) c s e1
                  (λ m d. extract_message-SameButBuffers c d m)
                  (record { at = read_loop-at env fd p n }) h)
        ]
      ]

  pub loop-Keeps : (env : Env) (n fd : ℕ) (p : Ptr) → Keeps P (read_loop env n fd p)
  loop-Keeps env n fd p = record { at = read_loop-at env fd p n }
