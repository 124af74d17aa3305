-- ===== src/Server/Turning/Cleanup.antt =====
-- The end of the clients that are marked (cleanupMarkedClients, src/Server.cpp) inside the frame
-- of the loop.
use ft_irc_refactor.Server.Net.{get_client}
use ft_irc_refactor.Server.Keeps.{
  Keeps-modify, Keeps-for_each, Keeps-ask, keeps_rules, Keeps-bind, Keeps,
}
use ft_irc_refactor.Server.Teardown.{
  cleanup_marked_clients, teardown, remove_client_from_server, forget_client,
}
use ft_irc_refactor.Client.{Client}
use ft_irc_refactor.Channel.{Ptr}
use ft_irc_refactor.Base.{
  Option-cases, filter_by, ℕ, ◌≡◌, inl, inr, [], Option, none, some, is_some, find, ℕ_key, str_key,
}
use ft_irc_refactor.Server.State.{modify, deref, Server, ◌>>=◌}

module _ {P : Server → Type 0}
    (forget : (p : Ptr) (c : Client) (s : Server)
      → find p s.heap ≡ some c
      → P s
      → P (forget_client p c s))
    (clear : (s : Server)
      → P s
      → P (record s { to_remove = []; fds = filter_by (λ slot. is_some slot.fd) s.fds })) where
  remove-Keeps : (o : Option Ptr) → Keeps P (remove_client_from_server o)
  unfolding remove_client_from_server ◌>>=◌ deref modify
  remove-Keeps none = search keeps_rules
  remove-Keeps (some p) = record {
    at = λ s h. elim (Option-cases (find p s.heap)) [
      | inl e ↦ rw e h
      | inr (c, e) ↦ rw e (forget p c s e h)
    ];
  }

  teardown-Keeps : (x : ℕ × Unit {0}) → Keeps P (teardown x)
  unfolding teardown
  teardown-Keeps (fd, _) = Keeps-bind _ _ (Keeps-ask _) λ s. remove-Keeps (get_client fd s)

  pub cleanup-Keeps : Keeps P cleanup_marked_clients
  unfolding cleanup_marked_clients
  cleanup-Keeps =
      Keeps-bind _ _ (Keeps-ask _)
        λ s. Keeps-bind _ _ (Keeps-for_each s.to_remove _ teardown-Keeps) λ _. Keeps-modify _ clear
