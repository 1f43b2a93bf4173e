-- ===== src/Fcgi/Pool/Twice.antt =====
-- A socket that is given back twice to a limited pool.
use tube.Common.{ℕ, true, some, ◌≡◌, refl}
use tube.Common.Int.{ℤ, pos, negsuc}
use tube.Fcgi.Pool.{
  Pool, unless_initialized, initialize, take_socket, alloc_limited, alloc_connection,
  reclaim_limited, reclaim_connection,
}

module _ (socket : ℕ → ℤ) where
  -- Giving back and asking, by the limit.
  pub alloc_connection-reclaim :
      (p : Pool) (sock : ℤ) (n : ℕ)
      → p.max_n_sockets ≡ pos n
      → p.initialized ≡ true
      → alloc_connection socket (reclaim_connection socket p sock)
        ≡ record { sock = sock; is_connected = some true; pool = p }
  unfolding alloc_connection alloc_limited reclaim_connection reclaim_limited initialize
      unless_initialized take_socket
  alloc_connection-reclaim p sock n limited ready = rw (limited, ready) refl

  -- Giving back changes neither the limit nor whether the pool is initialized.
  pub reclaim_connection-kept :
      (p : Pool) (sock : ℤ)
      → ((reclaim_connection socket p sock).max_n_sockets ≡ p.max_n_sockets)
        × ((reclaim_connection socket p sock).initialized ≡ p.initialized)
  unfolding reclaim_connection reclaim_limited
  reclaim_connection-kept p sock = by_limit p.max_n_sockets
    where
      by_limit :
          (limit : ℤ)
          → ((reclaim_limited socket limit p sock).max_n_sockets ≡ p.max_n_sockets)
            × ((reclaim_limited socket limit p sock).initialized ≡ p.initialized)
      by_limit (pos n) = (refl, refl)
      by_limit (negsuc n) = (refl, refl)
