-- ===== src/Server/Output.antt =====
-- The bytes on their way to a client (castMsg and processClientWrite, src/Server.cpp): what `send`
-- took for its descriptor, and then what waits in its send buffer.
use ft_irc_refactor.Base.{
  ltb-false, le_of_ltb, Option-cases, take-all, drop-all, length-zero, length-take, ◌↔◌,
  find-assign_same, ==_refl, ℕ, ◌≤◌, ◌≡◌, ◌≢◌, ap, sym, ◌∙◌, refl, inl, inr, ◌⊎◌, List, [], ◌∷◌,
  ◌++◌, Option, none, some, if◌then◌else◌, Str, length, take, drop, ltb, find, ℕ_key, ◌==◌, arith,
  Bool-cases, length-append, take-append-drop, length-drop, is_empty,
}
use mathlib.Core.List.{append_assoc, append-nil}
use ft_irc_refactor.Channel.{Ptr}
use ft_irc_refactor.Client.{Client, append_to_send_buffer, clear_send_buffer}
use ft_irc_refactor.Server.State.{
  pure, Env, Server, SendResult, sent, again, gone, failed, ◌>>=◌, deref, modify, update_client,
}
use ft_irc_refactor.Server.Net.{cast_msg, cast_to, send, after_send, enable_poll_out_event}
use ft_irc_refactor.Server.Loop.{write_buffer, after_write}

-- The bytes that `send` took for a descriptor, in order.
unfoldable pub sent_to : ℕ → List (ℕ × Str) → Str
sent_to fd [] = []
sent_to fd ((g, bytes) ∷ w) =
    let before = sent_to fd w in if g == fd then before ++ bytes else before

abbrev pub waiting : Option Client → Str
waiting none = []
waiting (some c) = c.send_buffer

unfoldable pub output : ℕ → Ptr → Server → Str
unfolding sent_to
output fd p s = sent_to fd s.wire ++ waiting (find p s.heap)

-- What waits after a send of `n` of the bytes `buffer ++ msg`.
abbrev kept : ℕ → (buffer msg : Str) → Str
kept n buffer msg = if ltb n (length msg) then buffer ++ drop n (buffer ++ msg) else drop n buffer

drop_nil : (n : ℕ) → drop {A = ℕ} n [] ≡ []
drop_nil n = drop-all n [] (omega arith)

-- The lists of such a send: what went before, the buffer and the message.
whole :
    (n : ℕ) (w b m : Str)
    → (b ≡ []) ⊎ (n ≡ length (b ++ m))
    → (w ++ take n (b ++ m)) ++ kept n b m ≡ (w ++ b) ++ m
whole n w b m (inl e) = elim (Bool-cases (ltb n (length m))) [
  | inl less ↦
      rw (e, less)
        (append_assoc w (take n m) (drop n m)
          ∙ ap (λ x. w ++ x) (take-append-drop n m)
          ∙ ap (λ x. x ++ m) (sym (append-nil w)))
  | inr more ↦
      rw (e, more)
        (rw (drop_nil n, take-all n m (le_of_ltb n (length m) more))
          (append-nil (w ++ m) ∙ ap (λ x. x ++ m) (sym (append-nil w))))
]
whole n w b m (inr e) =
    let enough : length (b ++ m) ≤ n = omega (arith, e) in
    let long = length-append b m in
    rw
      (
        ltb-false n (length m) (omega (arith, e, long)),
        take-all n (b ++ m) enough,
        drop-all n b (omega (arith, e, long)),
      )
      (append-nil (w ++ (b ++ m)) ∙ sym (append_assoc w b m))

lengths :
    (n : ℕ) (w b m : Str)
    → n ≤ length (b ++ m)
    → m ≢ []
    → length ((w ++ take n (b ++ m)) ++ kept n b m) ≡ length ((w ++ b) ++ m)
    → (length b ≡ 0) ⊎ (n ≡ length (b ++ m))
lengths n w b [] bound some_bytes e = absurd (some_bytes refl)
lengths n w b (x ∷ m) bound some_bytes e = ground (
  arith,
  length-append (w ++ take n (b ++ x ∷ m)) (kept n b (x ∷ m)),
  length-append (w ++ b) (x ∷ m),
  length-append w (take n (b ++ x ∷ m)),
  length-append w b,
  length-append b (x ∷ m),
  length-take n (b ++ x ∷ m) bound,
  length-append b (drop n (b ++ x ∷ m)),
  length-drop n (b ++ x ∷ m),
  length-drop n b,
  e,
  bound,
)

module _ (env : Env) (fd : ℕ) (msg : Str) (p : Ptr) (c : Client) (s : Server)
    (held : find fd s.clients ≡ some p) (there : find p s.heap ≡ some c) where
  cast_sent :
      (n : ℕ)
      → env.send s.sends fd (c.send_buffer ++ msg) ≡ sent n
      → output fd p (cast_msg env fd msg s).1
        ≡ (sent_to fd s.wire ++ take n (c.send_buffer ++ msg)) ++ kept n c.send_buffer msg
  unfolding cast_msg cast_to send after_send ◌>>=◌ deref modify update_client output
      append_to_send_buffer clear_send_buffer enable_poll_out_event
  cast_sent n e = elim (Bool-cases (ltb n (length msg))) [
    | inl less ↦ rw (held, there, e, less, there, ==_refl fd, find-assign_same p) refl
    | inr more ↦ rw (held, there, e, more, there, ==_refl fd, find-assign_same p) refl
  ]

  before : output fd p s ≡ sent_to fd s.wire ++ c.send_buffer
  unfolding output
  before = rw there refl

  -- The stream gets the message.
  pub cast_msg-output :
      (n : ℕ)
      → env.send s.sends fd (c.send_buffer ++ msg) ≡ sent n
      → (c.send_buffer ≡ []) ⊎ (n ≡ length (c.send_buffer ++ msg))
      → output fd p (cast_msg env fd msg s).1 ≡ output fd p s ++ msg
  cast_msg-output n e h =
      cast_sent n e
      ∙ whole n (sent_to fd s.wire) c.send_buffer msg h
      ∙ ap (λ x. x ++ msg) (sym before)

  -- A send that takes `n` of the waiting bytes and the message keeps the stream to the client in
  -- order and whole exactly if nothing waited, or all was taken.
  pub cast_msg-output_iff :
      (n : ℕ)
      → env.send s.sends fd (c.send_buffer ++ msg) ≡ sent n
      → n ≤ length (c.send_buffer ++ msg)
      → msg ≢ []
      → (output fd p (cast_msg env fd msg s).1 ≡ output fd p s ++ msg)
        ↔ ((c.send_buffer ≡ []) ⊎ (n ≡ length (c.send_buffer ++ msg)))
  cast_msg-output_iff n e bound some_bytes = (forth, cast_msg-output n e)
    where
      forth :
          output fd p (cast_msg env fd msg s).1 ≡ output fd p s ++ msg
          → (c.send_buffer ≡ []) ⊎ (n ≡ length (c.send_buffer ++ msg))
      forth h =
          elim (lengths n (sent_to fd s.wire) c.send_buffer msg bound some_bytes
            (ap length (sym (cast_sent n e) ∙ h ∙ ap (λ x. x ++ msg) before))) [
              | inl zero ↦ inl (length-zero c.send_buffer zero)
              | inr all ↦ inr all
            ]

result : (r : SendResult) → ((n : ℕ) × (r ≡ sent n)) ⊎ (r ≡ again) ⊎ (r ≡ gone) ⊎ (r ≡ failed)
result (sent n) = inl (n, refl)
result again = inr (inl refl)
result gone = inr (inr (inl refl))
result failed = inr (inr (inr refl))

-- A write of the send buffer neither loses nor repeats nor reorders a byte of the stream to the
-- client, however much of it the kernel takes, and whatever error it gives.
pub write_buffer-output :
    (env : Env) (fd : ℕ) (p : Ptr) (s : Server)
    → output fd p (write_buffer env fd p s).1 ≡ output fd p s
unfolding write_buffer send after_write ◌>>=◌ deref modify update_client output clear_send_buffer
    pure
write_buffer-output env fd p s = elim (Option-cases (find p s.heap)) [
  | inl e ↦ rw (e, e) refl
  | inr (c, e) ↦ elim (Bool-cases (is_empty c.send_buffer)) [
    | inl empty ↦ rw (e, empty, e) refl
    | inr some_bytes ↦ elim (result (env.send s.sends fd c.send_buffer)) [
      | inl (n, r) ↦
          rw (e, some_bytes, r, e, ==_refl fd, find-assign_same p)
            (append_assoc (sent_to fd s.wire) (take n c.send_buffer) (drop n c.send_buffer)
              ∙ ap (λ x. sent_to fd s.wire ++ x) (take-append-drop n c.send_buffer))
      | inr (inl r) ↦ rw (e, some_bytes, r, e) refl
      | inr (inr (inl r)) ↦ rw (e, some_bytes, r, e) refl
      | inr (inr (inr r)) ↦ rw (e, some_bytes, r, e) refl
    ]
  ]
]
