-- ===== src/Http/Cache.antt =====
-- http/io_cache.cc: IOCache. The lock is held from the start of an access to its answer, or to the
-- reading of the file; access_cache, up to there, and finish_load, from there, are each one step.
pub mod Entries
pub mod Iterators
pub mod Loads
mod Tests
use tube.Common.{
  ℕ, suc, ◌+◌, Bytes, bytes_eq, Bool, true, false, not, ◌&&◌, List, [], ◌∷◌, ◌++◌, Option, none,
  some, ltb, leb, ◌==◌, if◌then◌else◌, length, take, drop,
}

-- file_content is all the memory of the new array.
pub record IoCacheEntry : Type 0 where
  pub path : Bytes
  pub last_mtime : ℕ
  pub file_content : Bytes
  pub size : ℕ

-- A list iterator is the number of its node; next_node has not been one. The map from paths to
-- iterators is a function.
pub record IoCache : Type 0 where
  pub max_cache_entry : ℕ
  pub max_entry_size : ℕ
  pub entries : List (ℕ × IoCacheEntry)
  pub entry_map : Bytes → Option ℕ
  pub next_node : ℕ

-- IOCache's constructor, with what the two setters then put in.
pub new_cache : ℕ → ℕ → IoCache
new_cache max_cache_entry max_entry_size = record {
  max_cache_entry = max_cache_entry;
  max_entry_size = max_entry_size;
  entries = [];
  entry_map = λ path. none;
  next_node = 0;
}

-- What `*it` is, for an iterator of the list.
pub entry_at : ℕ → List (ℕ × IoCacheEntry) → Option IoCacheEntry
entry_at n [] = none
entry_at n (e ∷ es) = if e.0 == n then some e.1 else entry_at n es

pub erase_node : ℕ → List (ℕ × IoCacheEntry) → List (ℕ × IoCacheEntry)
erase_node n [] = []
erase_node n (e ∷ es) = if e.0 == n then es else e ∷ erase_node n es

pub erase_path : Bytes → (Bytes → Option ℕ) → Bytes → Option ℕ
erase_path path m p = if bytes_eq path p then none else m p

-- std::map::insert leaves a key that is there as it is.
pub insert_path : Bytes → ℕ → (Bytes → Option ℕ) → Bytes → Option ℕ
insert_path path n m p = if bytes_eq path p then kept (m p) else m p
  where
    kept : Option ℕ → Option ℕ
    kept none = some n
    kept (some old) = some old

pub add_entry : IoCacheEntry → IoCache → IoCache
add_entry entry c = record {
  max_cache_entry = c.max_cache_entry;
  max_entry_size = c.max_entry_size;
  entries = (c.next_node, entry) ∷ c.entries;
  entry_map = insert_path entry.path c.next_node c.entry_map;
  next_node = suc c.next_node;
}

-- remove_entry, for an iterator of the map under path that stands at entry n of the list.
pub remove_entry : Bytes → ℕ → IoCache → IoCache
remove_entry path n c = record {
  max_cache_entry = c.max_cache_entry;
  max_entry_size = c.max_entry_size;
  entries = erase_node n c.entries;
  entry_map = erase_path path c.entry_map;
  next_node = c.next_node;
}

pub move_entry : Bytes → ℕ → IoCacheEntry → IoCache → IoCache
move_entry path n entry c = add_entry entry (remove_entry path n c)

-- What `*--end()` is, and the list without it, for a list that has a first entry.
pub last_path : ℕ × IoCacheEntry → List (ℕ × IoCacheEntry) → Bytes
last_path e [] = e.1.path
last_path e (f ∷ es) = last_path f es

pub but_last : ℕ × IoCacheEntry → List (ℕ × IoCacheEntry) → List (ℕ × IoCacheEntry)
but_last e [] = []
but_last e (f ∷ es) = e ∷ but_last f es

pub without_last : ℕ × IoCacheEntry → List (ℕ × IoCacheEntry) → IoCache → IoCache
without_last e es c = record {
  max_cache_entry = c.max_cache_entry;
  max_entry_size = c.max_entry_size;
  entries = but_last e es;
  entry_map = erase_path (last_path e es) c.entry_map;
  next_node = c.next_node;
}

-- `none` on an empty list, whose `--end()` is not defined.
pub drop_entry : IoCache → Option IoCache
drop_entry c = dropped c.entries
  where
    dropped : List (ℕ × IoCacheEntry) → Option IoCache
    dropped [] = none
    dropped (e ∷ es) = some (without_last e es c)

-- What an access has when it gives up the lock: NULL, a copy of the file, or the file to read.
pub data Answer : Type 0 where
  null : Answer
  copied : Bytes → Answer
  loading : Answer

-- load_cache up to its unlock.
pub load_cache : IoCache → Option (IoCache × Answer)
load_cache c =
    if leb c.max_cache_entry (length c.entries) then unlocked (drop_entry c) else some (c, loading)
  where
    unlocked : Option IoCache → Option (IoCache × Answer)
    unlocked none = none
    unlocked (some d) = some (d, loading)

pub data_copy : IoCacheEntry → Bytes
data_copy e = take e.size e.file_content

pub is_fresh : IoCacheEntry → ℕ → ℕ → Bool
is_fresh e mtime file_size =
    leb mtime e.last_mtime && not (e.last_mtime == 0) && e.size == file_size

pub sync_cache : ℕ → IoCacheEntry → Bytes → ℕ → ℕ → IoCache → Option (IoCache × Answer)
sync_cache n e path mtime file_size c =
    if is_fresh e mtime file_size
    then some (move_entry path n e c, copied (data_copy e))
    else load_cache (remove_entry path n c)

-- access_cache up to the unlock; `none` is behaviour that is not defined.
pub access_cache : Bytes → ℕ → ℕ → IoCache → Option (IoCache × Answer)
access_cache path mtime file_size c =
    if c.max_cache_entry == 0 then some (c, null) else found (c.entry_map path)
  where
    at : ℕ → Option IoCacheEntry → Option (IoCache × Answer)
    at n none = none
    at n (some e) = sync_cache n e path mtime file_size c

    found : Option ℕ → Option (IoCache × Answer)
    found none = load_cache c
    found (some n) = at n (entry_at n c.entries)

-- What IOCacheEntry's constructor has in file_content is `read`: `none` when the file does not open
-- or a read fails. A file that is too large is not opened.
pub create_cache_entry : Bytes → ℕ → ℕ → Option Bytes → IoCache → Option IoCacheEntry
create_cache_entry path mtime file_size read c =
    if leb c.max_entry_size file_size then none else opened read
  where
    opened : Option Bytes → Option IoCacheEntry
    opened none = none
    opened (some content) =
        some (record { path = path; last_mtime = mtime; file_content = content; size = file_size })

-- The end of load_cache, behind its unlock.
pub finish_load : Bytes → ℕ → ℕ → Option Bytes → IoCache → IoCache × Option Bytes
finish_load path mtime file_size read c = locked (create_cache_entry path mtime file_size read c)
  where
    locked : Option IoCacheEntry → IoCache × Option Bytes
    locked none = (c, none)
    locked (some entry) = (add_entry entry c, some (data_copy entry))
