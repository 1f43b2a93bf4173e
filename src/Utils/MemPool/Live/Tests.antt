-- ===== src/Utils/MemPool/Live/Tests.antt =====
-- A pool from which one object is allocated.
use tube.Common.{◌+◌, ◌≤◌, [], ◌∷◌, false, ◌≡◌, refl, arith}
use tube.Utils.MemPool.{align_size, MemPool, new_pool, initialize, is_inside_pool, alloc_object}
use tube.Utils.MemPool.Live.{count, start, allocated, Run-once}

abbrev small_pool : MemPool
small_pool = initialize 20 (new_pool 65536 100)

outside : is_inside_pool 9 small_pool ≡ false
unfolding new_pool initialize align_size
outside = refl

Run-once_example :
    count 65536 ((alloc_object 9 small_pool).0 ∷ [])
      + count 65536 (alloc_object 9 small_pool).1.free_stack
    ≤ 1
Run-once_example = Run-once (allocated 9 (start 20 100 65536 (omega arith)) outside refl) 65536
