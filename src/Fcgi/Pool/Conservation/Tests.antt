-- ===== src/Fcgi/Pool/Conservation/Tests.antt =====
-- A pool of two connections, one of them taken.
use tube.Common.{ℕ, [], ◌∷◌, ◌≡◌, ◌↔◌}
use tube.Common.Int.{ℤ, pos, negsuc}
use tube.Fcgi.Pool.{
  new_pool, open_sockets, unless_initialized, initialize, take_socket, alloc_limited,
  alloc_connection,
}
use tube.Fcgi.Pool.Conservation.{
  IsDescriptor, Run, start, taken, Conserves, Run-Conserves, alloc_connection-refuses,
}

abbrev numbered : ℕ → ℤ
numbered i = pos i

first-IsDescriptor : IsDescriptor (alloc_connection numbered (new_pool (pos 2))).sock
unfolding new_pool open_sockets unless_initialized initialize take_socket alloc_limited
    alloc_connection
first-IsDescriptor = tt

one_taken :
    Run numbered 2
      (alloc_connection numbered (new_pool (pos 2))).pool
      ((alloc_connection numbered (new_pool (pos 2))).sock ∷ [])
one_taken = taken start first-IsDescriptor

Run-Conserves_example :
    Conserves numbered 2
      (alloc_connection numbered (new_pool (pos 2))).pool
      ((alloc_connection numbered (new_pool (pos 2))).sock ∷ [])
Run-Conserves_example = Run-Conserves numbered 2 (λ i. tt) one_taken

alloc_connection-refuses_example :
    ((alloc_connection numbered (alloc_connection numbered (new_pool (pos 2))).pool).sock
      ≡ negsuc 0)
    ↔ (◌≡◌ {A = ℕ} 1 2)
alloc_connection-refuses_example = alloc_connection-refuses numbered 2 (λ i. tt) one_taken
