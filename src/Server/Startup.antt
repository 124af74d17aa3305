-- ===== src/Server/Startup.antt =====
-- src/Server.cpp: the constructor's state, the sockets of init, and the destructor.
use ft_irc_refactor.Server.Teardown.{max_clients, err_socket_creation}
use ft_irc_refactor.Channel.{Ptr}
use ft_irc_refactor.Base.{
  erase, leb, false, ℕ, Bool, List, [], ◌∷◌, ◌++◌, Option, none, some, Str, Map, ℕ_key, str_key,
  codes,
}
use ft_irc_refactor.Server.State.{
  deref, modify, pure, get, require, raise, ◌>>=◌, ◌>>◌, Server, Action,
}

abbrev pub buffer_size : ℕ
buffer_size = 513

abbrev err_buffer_size : Str
err_buffer_size = codes "buffer size error."

abbrev err_socket_bind : Str
err_socket_bind = codes "socket binding error."

abbrev err_socket_listen : Str
err_socket_listen = codes "socket listening error."

abbrev err_set_nonblocking : Str
err_set_nonblocking = codes "failed to set socket to non-blocking mode."

-- What the kernel answers: the descriptor of `socket`, or -1; and whether `bind`, `listen` and
-- `fcntl` succeed on it.
pub record Sockets : Type 0 where
  pub socket : Option ℕ
  pub bind : (fd port : ℕ) → Bool
  pub listen : (fd backlog : ℕ) → Bool
  pub set_nonblocking : (fd : ℕ) → Bool

-- The members when the constructor has ended. `_fd` has no value before init: 0 stands for it, and for
-- the -1 that init leaves where there is no socket.
unfoldable pub new_server : (password : Str) → (now : ℕ) → Server
new_server password now = record {
  fd = 0;
  password = password;
  start_time = now;
  fds = [];
  clients = [];
  channels = [];
  nick_name_client_map = [];
  to_remove = [];
  heap = [];
  next_ptr = 0;
  now = now;
  sends = 0;
  wire = [];
}

-- What init does with the descriptor. `port` is `_port`, which nothing else reads.
unfoldable pub open_socket : Sockets → (port : ℕ) → Option ℕ → Action (Unit {0})
open_socket k port none = raise err_socket_creation
open_socket k port (some fd) = do
  modify (λ s. record s { fd = fd })
  require (k.bind fd port) err_socket_bind
  require (k.listen fd max_clients) err_socket_listen
  require (k.set_nonblocking fd) err_set_nonblocking
  modify (λ s. record s { fds = s.fds ++ record { fd = some fd; pollout = false } ∷ [] })

unfoldable pub init : Sockets → (port : ℕ) → Action (Unit {0})
init k port = do require (leb 4 buffer_size) err_buffer_size; open_socket k port k.socket

-- The loop of the destructor: what it closes. A pointer that is deleted must be alive, and ~Client
-- (src/Client.cpp) closes the descriptor of the client once more.
unfoldable pub delete_clients : Map ℕ Ptr → Action (List ℕ)
delete_clients [] = pure []
delete_clients ((fd, p) ∷ rest) = do
  client ← deref p
  modify (λ s. record s { heap = erase p s.heap })
  closed ← delete_clients rest
  pure (fd ∷ client.fd ∷ closed)

-- ~IrcServer: the descriptors that it closes, in order.
unfoldable pub destroy : Action (List ℕ)
destroy = do
  s ← get
  closed ← delete_clients s.clients
  modify (λ t. record t { clients = []; fds = []; nick_name_client_map = [] })
  pure (s.fd ∷ closed)
