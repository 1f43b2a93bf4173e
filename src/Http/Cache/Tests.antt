-- ===== src/Http/Cache/Tests.antt =====
-- Caches of at most two files.
use tube.Common.{ℕ, Bytes, codes, some, ◌≡◌, refl, arith}
use tube.Http.Cache.{
  IoCacheEntry, IoCache, new_cache, entry_at, Answer, copied, access_cache, finish_load,
}
use tube.Http.Cache.Iterators.{start, loaded, access_cache-Run}
use tube.Http.Cache.Loads.{access_cache-finish_load}

abbrev one_file : IoCache
one_file = (finish_load (codes "/a") 9 4 (some (codes "page")) (new_cache 2 4096)).0

access_cache-Run_example :
    (s : IoCache × Answer) × (access_cache (codes "/a") 9 4 one_file ≡ some s)
    × ((p : Bytes) (n : ℕ)
        → s.0.entry_map p ≡ some n
        → (e : IoCacheEntry) × (entry_at n s.0.entries ≡ some e) × (e.path ≡ p))
access_cache-Run_example =
    access_cache-Run (loaded (codes "/a") 9 4 (some (codes "page")) (start 2 4096)) (codes "/a") 9 4

access_cache-finish_load_example :
    (d : IoCache) × (access_cache (codes "/a") 8 4 one_file ≡ some (d, copied (codes "page")))
unfolding new_cache
access_cache-finish_load_example =
    access_cache-finish_load (codes "/a") (codes "page") 8 9 4 (new_cache 2 4096) (omega arith)
      (omega arith) refl (omega arith) (omega arith)
