-- ===== src/Examples/Running.antt =====
-- Examples for the server (src/Server.cpp).
use ft_irc_refactor.Base.{
  ℕ, ◌≡◌, ◌≢◌, ◌↔◌, ◌⊎◌, refl, none, some, true, [], ◌∷◌, ◌++◌, codes, find, length, ℕ_key, All,
  arith,
}
use ft_irc_refactor.Client.{Client}
use ft_irc_refactor.Server.State.{Server, ok, fault}
use ft_irc_refactor.Server.Net.{cast_msg, get_client, is_marked_for_removal}
use ft_irc_refactor.Server.Loop.{run, read_loop, write_buffer}
use ft_irc_refactor.Server.Teardown.{cleanup_marked_clients}
use ft_irc_refactor.Server.Output.{output, cast_msg-output_iff, write_buffer-output}
use ft_irc_refactor.Server.Errors.{run-GoesOn}
use ft_irc_refactor.Server.Objects.{Owned, object_at, held}
use ft_irc_refactor.Server.Objects.Messages.{handle_client_cmd-objects}
use ft_irc_refactor.Server.Objects.Reading.{read_loop-fuel}
use ft_irc_refactor.Server.Objects.Run.{run-Owned}
use ft_irc_refactor.Server.Objects.Removal.{HasFd, cleanup_marked_clients-removes}
use ft_irc_refactor.Cmd.Dispatch.{handle_client_cmd}
use ft_irc_refactor.Examples.{
  session, willing, idle, idle-Owned, bob, holding, holding-Owned, message,
}

run-Owned_example : Owned (run willing session idle).1
run-Owned_example = run-Owned willing session idle idle-Owned

run-GoesOn_example :
    ((run willing session idle).0 ≡ ok true) ⊎ ((run willing session idle).0 ≡ fault)
run-GoesOn_example = run-GoesOn willing session idle

there : (c : Client) → find 0 (holding c).heap ≡ some c
unfolding find
there c = refl

by_fd : (c : Client) → find 4 (holding c).clients ≡ some 0
unfolding find
by_fd c = refl

some_bytes : codes "hi" ≢ []
some_bytes e = absurd (cc)

cast_msg-output_iff_example :
    (output 4 0 (cast_msg willing 4 (codes "hi") (holding bob)).1
      ≡ output 4 0 (holding bob) ++ codes "hi")
    ↔ ((codes "abc" ≡ []) ⊎ (5 ≡ length (codes "abc" ++ codes "hi")))
cast_msg-output_iff_example =
    cast_msg-output_iff willing 4 (codes "hi") 0 bob (holding bob) (by_fd bob) (there bob) 5 refl
      (omega arith) some_bytes

write_buffer-output_example :
    output 4 0 (write_buffer willing 4 0 (holding bob)).1 ≡ output 4 0 (holding bob)
write_buffer-output_example = write_buffer-output willing 4 0 (holding bob)

bob-Owned : Owned (holding bob)
bob-Owned = holding-Owned bob refl

bob-object : object_at 0 (holding bob) ≡ some (held bob)
unfolding find
bob-object = refl

read_loop-fuel_example :
    read_loop willing 20 4 0 (holding bob) ≡ read_loop willing 30 4 0 (holding bob)
read_loop-fuel_example =
    read_loop-fuel willing 4 0 20 30 (holding bob) (held bob) bob-Owned bob-object (omega arith)
      (omega arith)

handle_client_cmd-objects_example :
    object_at 0 (handle_client_cmd willing (message (codes "NICK") (codes "carol")) (holding bob)).1
    ≡ object_at 0 (holding bob)
handle_client_cmd-objects_example =
    handle_client_cmd-objects willing (message (codes "NICK") (codes "carol")) (holding bob)
      bob-Owned 0

-- The descriptor of the client is marked.
abbrev leaving : Server
leaving = record (holding bob) { to_remove = (4, tt) ∷ [] }

leaving-Owned : Owned leaving
leaving-Owned = record { owned = bob-Owned.owned; fresh = bob-Owned.fresh }

cleanup_marked_clients-removes_example :
    ((g : ℕ)
      → is_marked_for_removal g leaving ≡ true
      → get_client g (cleanup_marked_clients leaving).1 ≡ none)
    × (((cleanup_marked_clients leaving).1.to_remove ≡ [])
        × All HasFd (cleanup_marked_clients leaving).1.fds)
cleanup_marked_clients-removes_example = cleanup_marked_clients-removes leaving leaving-Owned
