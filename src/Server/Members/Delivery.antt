-- ===== src/Server/Members/Delivery.antt =====
-- The messages of a channel reach its participants (broadcastMsg, castMsg: src/Server.cpp).
use ft_irc_refactor.Base.{
  subst, Map, not_both, if◌then◌else◌, same_value, find-assign, Bool-cases, ==_iff, take,
  length-append, ltb-false, ltb, false, suc, ℕ, ◌≡◌, ◌≢◌, ◌∙◌, refl, inl, inr, [], ◌∷◌, ◌++◌, some,
  Str, find, assign, ℕ_key, str_key, ap, sym, arith, ◌==◌, length,
}
use ft_irc_refactor.Server.Net.{find_nickname, after_send, cast_to, send, cast_msg}
use ft_irc_refactor.Server.State.{update_client, modify, deref, put, Server, Env, ok, sent, ◌>>=◌}
use mathlib.Core.List.{append_assoc, append-nil}
use ft_irc_refactor.Client.{clear_send_buffer, Client}
use ft_irc_refactor.Channel.{Ptr}
use ft_irc_refactor.Server.Members.{Seated, same-Seated, put-Seated}
use ft_irc_refactor.Server.Output.{output, sent_to, cast_msg-output}

-- A kernel that takes every byte that it is given.
abbrev pub TakesAll : Env → Type 0
TakesAll env = (k fd : ℕ) (bytes : Str) → env.send k fd bytes ≡ sent (length bytes)

-- The state after such a send to `q`, which is the client `d`.
abbrev pub told : Ptr → Client → Str → Server → Server
told q d msg s = record s {
  sends = suc s.sends;
  wire = (d.fd, take (length (d.send_buffer ++ msg)) (d.send_buffer ++ msg)) ∷ s.wire;
  heap = assign q (clear_send_buffer (length (d.send_buffer ++ msg)) d) s.heap;
}

not_less : (b m : Str) → ltb (length (b ++ m)) (length m) ≡ false
not_less b m = ltb-false (length (b ++ m)) (length m) (omega (arith, length-append b m))

unequal : (p q : ℕ) → p ≢ q → (p == q) ≡ false
unequal p q differ = ground (arith, ==_iff p q, differ)

module _ (env : Env) (takes : TakesAll env) (msg : Str) where
  pub cast_msg-told :
      (q : Ptr) (d : Client) (s : Server)
      → find d.fd s.clients ≡ some q
      → find q s.heap ≡ some d
      → cast_msg env d.fd msg s ≡ (ok tt, told q d msg s)
  unfolding cast_msg cast_to send after_send ◌>>=◌ deref modify update_client
  cast_msg-told q d s held there =
      rw (held, there, takes s.sends d.fd (d.send_buffer ++ msg), not_less d.send_buffer msg, there)
        refl

  told-Seated :
      (q : Ptr) (d : Client) (s : Server)
      → find q s.heap ≡ some d
      → Seated s
      → Seated (told q d msg s)
  unfolding clear_send_buffer
  told-Seated q d s there h =
      same-Seated (put q (clear_send_buffer (length (d.send_buffer ++ msg)) d) s) _ refl refl refl
        (put-Seated q d _ s there refl refl (λ r. r) h)

-- What a statement that only sends does: each client gets `text` of its address, descriptor and
-- nickname, behind all that has gone or waits for it.
pub record Sent (text : Ptr → ℕ → Str → Str) (s t : Server) : Type 0 where
  pub seated : Seated t
  pub same_channels : t.channels ≡ s.channels
  pub same_clients : t.clients ≡ s.clients
  pub names :
      (nick : Str) (m : Map ℕ Ptr) → find_nickname t.heap nick m ≡ find_nickname s.heap nick m
  pub still :
      (p : Ptr) (c : Client)
      → find p s.heap ≡ some c
      → (e : Client) × ((find p t.heap ≡ some e) × ((e.fd ≡ c.fd) × (e.nickname ≡ c.nickname)))
  pub streams :
      (p : Ptr) (c : Client)
      → find p s.heap ≡ some c
      → output c.fd p t ≡ output c.fd p s ++ text p c.fd c.nickname

pub nothing-Sent : (s : Server) → Seated s → Sent (λ p fd nick. []) s s
nothing-Sent s h = record {
  seated = h;
  same_channels = refl;
  same_clients = refl;
  names = λ nick m. refl;
  still = λ p c there. (c, (there, (refl, refl)));
  streams = λ p c there. sym (append-nil (output c.fd p s));
}

-- The same texts, in other words.
pub like-Sent :
    (f g : Ptr → ℕ → Str → Str) (s t : Server)
    → ((p : Ptr) (c : Client) → find p s.heap ≡ some c → f p c.fd c.nickname ≡ g p c.fd c.nickname)
    → Sent f s t
    → Sent g s t
like-Sent f g s t same sends = record {
  seated = sends.seated;
  same_channels = sends.same_channels;
  same_clients = sends.same_clients;
  names = sends.names;
  still = sends.still;
  streams = λ p c there. sends.streams p c there ∙ ap (λ x. output c.fd p s ++ x) (same p c there);
}

-- One after the other.
pub then-Sent :
    (f g : Ptr → ℕ → Str → Str) (s t u : Server)
    → Sent f s t
    → Sent g t u
    → Sent (λ p fd nick. f p fd nick ++ g p fd nick) s u
then-Sent f g s t u first second = record {
  seated = second.seated;
  same_channels = second.same_channels ∙ first.same_channels;
  same_clients = second.same_clients ∙ first.same_clients;
  names = λ nick m. second.names nick m ∙ first.names nick m;
  still = λ p c there.
      let (d, (here, (fd, nick))) = first.still p c there in
      let (e, (found, (fd', nick'))) = second.still p d here in
      (e, (found, (fd' ∙ fd, nick' ∙ nick)));
  streams = λ p c there.
      let (d, (here, (fd, nick))) = first.still p c there in
      subst (λ x. output x p u ≡ output x p t ++ g p x c.nickname) fd
        (subst (λ x. output d.fd p u ≡ output d.fd p t ++ g p d.fd x) nick
          (second.streams p d here))
      ∙ ap (λ x. x ++ g p c.fd c.nickname) (first.streams p c there)
      ∙ append_assoc (output c.fd p s) (f p c.fd c.nickname) (g p c.fd c.nickname);
}

-- A nickname is looked up as before where an object has been replaced by one of the same nickname.
same_names :
    (q : Ptr) (d d' : Client) (heap : Map Ptr Client) (nick : Str) (m : Map ℕ Ptr)
    → find q heap ≡ some d
    → d'.nickname ≡ d.nickname
    → find_nickname (assign q d' heap) nick m ≡ find_nickname heap nick m
unfolding find_nickname
same_names q d d' heap nick [] there same = refl
same_names q d d' heap nick ((fd, p) ∷ rest) there same =
    ground (arith, find-assign q p d' heap, ==_iff q p, same_names q d d' heap nick rest there same)

-- Two clients have two descriptors.
two_fds :
    (p q : Ptr) (c d : Client) (s : Server)
    → find p s.heap ≡ some c
    → find q s.heap ≡ some d
    → Seated s
    → p ≢ q
    → (d.fd == c.fd) ≡ false
two_fds p q c d s here there h differ = elim (Bool-cases (d.fd == c.fd)) [
  | inr e ↦ e
  | inl e ↦ absurd (
      differ (
        same_value (
          sym (h.listed p c here)
          ∙ ap (λ x. find x s.clients) (sym ((==_iff d.fd c.fd).0 e))
          ∙ h.listed q d there)))
]

module _ (env : Env) (takes : TakesAll env) (msg : Str) where
  told-others :
      (q : Ptr) (d : Client) (s : Server) (p : Ptr) (c : Client)
      → find q s.heap ≡ some d
      → Seated s
      → p ≢ q
      → find p s.heap ≡ some c
      → output c.fd p (told q d msg s) ≡ output c.fd p s
  unfolding output sent_to
  told-others q d s p c there h differ here =
      rw
        (
          two_fds p q c d s here there h differ,
          find-assign q p (clear_send_buffer (length (d.send_buffer ++ msg)) d) s.heap,
          unequal q p (λ e. differ (sym e)),
        )
        refl

  told-still :
      (q : Ptr) (d : Client) (s : Server) (p : Ptr) (c : Client)
      → find q s.heap ≡ some d
      → find p s.heap ≡ some c
      → (e : Client) × ((find p (told q d msg s).heap ≡ some e)
          × ((e.fd ≡ c.fd) × (e.nickname ≡ c.nickname)))
  unfolding clear_send_buffer
  told-still q d s p c there here = elim (Bool-cases (q == p)) [
    | inl e ↦
        let same = same_value (sym there ∙ ap (λ x. find x s.heap) ((==_iff q p).0 e) ∙ here) in
        (
          clear_send_buffer (length (d.send_buffer ++ msg)) d,
          (
            rw (find-assign q p (clear_send_buffer (length (d.send_buffer ++ msg)) d) s.heap, e)
                refl,
            (ap Client.fd same, ap Client.nickname same),
          ),
        )
    | inr e ↦ (
      c,
      (
        rw (find-assign q p (clear_send_buffer (length (d.send_buffer ++ msg)) d) s.heap, e) here,
        (refl, refl),
      ),
    )
  ]

  told-mine :
      (q : Ptr) (d : Client) (s : Server) (p : Ptr) (c : Client)
      → find q s.heap ≡ some d
      → find p s.heap ≡ some c
      → q ≡ p
      → Seated s
      → output c.fd p (told q d msg s) ≡ output c.fd p s ++ msg
  told-mine q d s p c there here same h =
      let is = same_value (sym there ∙ ap (λ x. find x s.heap) same ∙ here) in
      subst (λ x. output x.fd p (told q d msg s) ≡ output x.fd p s ++ msg) is
        (subst (λ x. output d.fd x (told q d msg s) ≡ output d.fd x s ++ msg) same
          (ap (λ r. output d.fd q r.1)
              (sym (cast_msg-told env takes msg q d s (h.listed q d there) there))
            ∙ cast_msg-output env d.fd msg q d s (h.listed q d there) there _
                (takes s.sends d.fd (d.send_buffer ++ msg)) (inr refl)))

  pub told-Sent :
      (q : Ptr) (d : Client) (s : Server)
      → find q s.heap ≡ some d
      → Seated s
      → Sent (λ p fd nick. if q == p then msg else []) s (told q d msg s)
  unfolding clear_send_buffer
  told-Sent q d s there h = record {
    seated = told-Seated env takes msg q d s there h;
    same_channels = refl;
    same_clients = refl;
    names = λ nick m. same_names q d _ s.heap nick m there refl;
    still = λ p c here. told-still q d s p c there here;
    streams = λ p c here. elim (Bool-cases (q == p)) [
      | inl e ↦ rw e (told-mine q d s p c there here ((==_iff q p).0 e) h)
      | inr e ↦ rw e (
          told-others q d s p c there h (λ is. not_both ((==_iff q p).1 (sym is)) e) here
          ∙ sym (append-nil (output c.fd p s)))
    ];
  }
