-- ===== src/Http/Cache/Loads.antt =====
-- A load of IOCache, and the access after it.
use tube.Common.{
  ℕ, ◌<◌, ◌≤◌, Bytes, bytes_eq_refl, true, false, none, some, leb, ◌==◌, take, ◌≡◌, refl, arith,
}
use tube.Http.Cache.{
  IoCacheEntry, IoCache, entry_at, insert_path, add_entry, move_entry, copied, data_copy, is_fresh,
  sync_cache, access_cache, create_cache_entry, finish_load,
}

-- In a cache that is switched on, when a file that is below the size limit has been loaded under a path
-- that the map did not have: the next access with that path and size, and with a modification time
-- that is above 0 and not later than that of the load, copies what was loaded.
pub access_cache-finish_load :
    (path content : Bytes) (mtime later file_size : ℕ) (c : IoCache)
    → 0 < c.max_cache_entry
    → file_size < c.max_entry_size
    → c.entry_map path ≡ none
    → 0 < mtime
    → mtime ≤ later
    → (d : IoCache) × (access_cache path mtime file_size
          (finish_load path later file_size (some content) c).0
        ≡ some (d, copied (take file_size content)))
unfolding access_cache finish_load create_cache_entry sync_cache is_fresh add_entry insert_path
    entry_at data_copy
access_cache-finish_load path content mtime later file_size c enabled small absent some_time newer =
    (
      move_entry path c.next_node entry (add_entry entry c),
      rw small_enough (rw (on, bytes_eq_refl path) (rw absent (rw self (rw fresh refl)))),
    )
  where
    entry : IoCacheEntry
    entry = record { path = path; last_mtime = later; file_content = content; size = file_size }

    small_enough : leb c.max_entry_size file_size ≡ false
    small_enough = ground (arith, small)

    on : (c.max_cache_entry == 0) ≡ false
    on = ground (arith, enabled)

    self : (c.next_node == c.next_node) ≡ true
    self = ground arith

    fresh : is_fresh entry mtime file_size ≡ true
    fresh = ground (arith, newer, some_time)
