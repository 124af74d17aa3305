-- ===== src/Server/State.antt =====
-- The state of IrcServer (include/Server.hpp), the objects it owns, and what the server asks of
-- the kernel. A statement is a function on this state that ends normally, throws a CmdException,
-- or meets undefined behaviour (`fault`: a dangling or null pointer, an end iterator).
use ft_irc_refactor.Base.{
  ℕ, suc, Bool, true, false, List, Option, none, some, Str, Map, ℕ_key, str_key, assign,
  if◌then◌else◌,
}
use ft_irc_refactor.Base
use ft_irc_refactor.Client.{Client}
use ft_irc_refactor.Channel.{Ptr, Set, Channel}

-- What one call of `send` returned: a number of bytes, or -1 with errno EAGAIN or EWOULDBLOCK
-- (`again`), EPIPE, ECONNRESET or ENOTCONN (`gone`), or any other (`failed`).
pub data SendResult : Type 0 where
  sent : ℕ → SendResult
  again gone failed : SendResult

-- The kernel and the C library: the result of the n-th call of `send`, by descriptor and bytes;
-- the lines of the MOTD file, if it opens; strftime.
pub record Env : Type 0 where
  pub send : ℕ → ℕ → Str → SendResult
  pub motd : Option (List Str)
  pub format_date : ℕ → Str

-- struct pollfd: `none` is the descriptor -1; POLLIN is always requested.
pub record PollFd : Type 0 where
  pub fd : Option ℕ
  pub pollout : Bool

pub record Server : Type 0 where
  pub fd : ℕ
  pub password : Str
  pub start_time : ℕ
  pub fds : List PollFd
  pub clients : Map ℕ Ptr
  pub channels : Map Str Channel
  pub nick_name_client_map : Map Str Ptr
  pub to_remove : Set ℕ
  -- The client objects that are allocated, and the next address.
  pub heap : Map Ptr Client
  pub next_ptr : Ptr
  -- What time(NULL) returns, the calls of `send` made, and the bytes they took, newest first.
  pub now : ℕ
  pub sends : ℕ
  pub wire : List (ℕ × Str)

pub data Outcome (A : Type 0) : Type 0 where
  ok : A → Outcome A
  throw : Str → Outcome A
  fault : Outcome A

abbrev pub Action : Type 0 → Type 0
Action A = Server → Outcome A × Server

module _ {A : Type 0} where
  unfoldable pub pure : A → Action A
  pure a s = (ok a, s)

  unfoldable pub raise : Str → Action A
  raise e s = (throw e, s)

  unfoldable pub undefined : Action A
  undefined s = (fault, s)

  -- An answer that the state gives, and that leaves it as it is.
  unfoldable pub ask : (Server → Outcome A) → Action A
  ask f s = (f s, s)

  abbrev pub found : Option A → Outcome A
  found none = fault
  found (some a) = ok a

  -- A pointer or an iterator that must not be null, or end.
  abbrev pub or_undefined : Option A → Action A
  or_undefined o = ask (λ _. found o)

module _ {A B : Type 0} where
  abbrev pub and_then : Outcome A → (A → Action B) → Action B
  and_then (ok a) f s = f a s
  and_then (throw e) f s = (throw e, s)
  and_then fault f s = (fault, s)

  -- To unfold this is to unfold the actions above too.
  infixl 5 ◌>>=◌ ◌>>◌
  unfoldable pub ◌>>=◌ : Action A → (A → Action B) → Action B
  unfolding pure raise undefined ask
  ◌>>=◌ m f s = let (o, t) = m s in and_then o f t

  abbrev pub ◌>>◌ : Action A → Action B → Action B
  m >> n = m >>= λ _. n

  -- `try`: what follows is told how the action ended.
  unfoldable pub attempt : Action A → (Outcome A → Action B) → Action B
  attempt m f s = let (o, t) = m s in f o t

abbrev pub get : Action Server
get = ask ok

unfoldable pub modify : (Server → Server) → Action (Unit {0})
modify f s = (ok tt, f s)

-- `if (!b) throw CmdException(e);`
abbrev pub require : Bool → Str → Action (Unit {0})
require b e = if b then pure tt else raise e

abbrev pub when : Bool → Action (Unit {0}) → Action (Unit {0})
when b m = if b then m else pure tt

-- A loop over a container that the body does not change.
unfoldable pub for_each : {A : Type 0} → List A → (A → Action (Unit {0})) → Action (Unit {0})
for_each List.[] f = pure tt
for_each (List.◌∷◌ x xs) f = do f x; for_each xs f

-- `*p`
unfoldable pub deref : Ptr → Action Client
deref p = do s ← get; or_undefined (Base.find p s.heap)

-- `p->...`, a method of Client that changes it.
unfoldable pub update_client : Ptr → (Client → Client) → Action (Unit {0})
update_client p f = do c ← deref p; modify (λ s. record s { heap = assign p (f c) s.heap })

-- The state when the object at `p` is replaced.
abbrev pub put : Ptr → Client → Server → Server
put p d s = record s { heap = assign p d s.heap }

-- What a `Channel*` found under a name points to now.
unfoldable pub channel_at : Str → Action Channel
channel_at name = do s ← get; or_undefined (Base.find name s.channels)

-- A method of Channel that changes it, through a pointer found in `_channels`.
unfoldable pub update_channel : Str → (Channel → Channel) → Action (Unit {0})
update_channel name f = do
  ch ← channel_at name
  modify (λ s. record s { channels = assign name (f ch) s.channels })
