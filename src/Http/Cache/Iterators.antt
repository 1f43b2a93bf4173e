-- ===== src/Http/Cache/Iterators.antt =====
-- The iterators that IOCache keeps in its map.
use tube.Common.{
  ℕ, suc, ◌<◌, Bytes, bytes_eq, bytes_eq→eq, bytes_eq_refl, true, false, List, [], ◌∷◌, Option,
  none, some, leb, leb→le, ◌==◌, ==_iff, if◌then◌else◌, length, All, ◌≡◌, refl, sym, ◌∙◌, subst,
  arith, Bool-cases, Option-cases, inl, inr, ◌⊎◌, ◌≢◌,
}
use tube.Http.Cache.{
  IoCacheEntry, IoCache, entry_at, erase_path, insert_path, add_entry, remove_entry, move_entry,
  last_path, but_last, without_last, drop_entry, Answer, null, copied, loading, load_cache,
  data_copy, is_fresh, sync_cache, access_cache, create_cache_entry, finish_load, new_cache,
}
use tube.Http.Cache.Entries.{entry_at-erase, All-erase, All-but_last, entry_at-but_last, not_at_new}

-- Nodes of the list are older than the next one, and an iterator of the map stands at an entry with
-- its path.
pub record IsValid (c : IoCache) : Type 0 where
  pub older : All (λ e. e.0 < c.next_node) c.entries
  pub points :
      (path : Bytes) (n : ℕ)
      → c.entry_map path ≡ some n
      → (e : IoCacheEntry) × (entry_at n c.entries ≡ some e) × (e.path ≡ path)

All-younger :
    (next : ℕ) (es : List (ℕ × IoCacheEntry))
    → All (λ e. e.0 < next) es
    → All (λ e. e.0 < suc next) es
All-younger next [] all = tt
All-younger next (e ∷ es) all = (omega (arith, all.0), All-younger next es all.1)

kept-erase_path :
    (path : Bytes) (m : Bytes → Option ℕ) (p : Bytes) (n : ℕ)
    → erase_path path m p ≡ some n
    → (m p ≡ some n) × (path ≢ p)
unfolding erase_path
kept-erase_path path m p n h = elim (Bool-cases (bytes_eq path p)) [
  | inl same ↦ cc (subst (λ b. (if b then none else m p) ≡ some n) same h)
  | inr other ↦ (
    subst (λ b. (if b then none else m p) ≡ some n) other h,
    λ eq. cc (subst (λ q. bytes_eq path q ≡ true) eq (bytes_eq_refl path)),
  )
]

kept-insert_path :
    (path : Bytes) (new : ℕ) (m : Bytes → Option ℕ) (p : Bytes) (n : ℕ)
    → insert_path path new m p ≡ some n
    → (m p ≡ some n) ⊎ ((new ≡ n) × (path ≡ p))
unfolding insert_path
kept-insert_path path new m p n h = elim (Bool-cases (bytes_eq path p)) [
  | inl same ↦ elim (Option-cases (m p)) [
    | inl nothing ↦ inr (ground (arith, h, same, nothing), bytes_eq→eq path p same)
    | inr old ↦ inl (ground (arith, h, same, old.1))
  ]
  | inr other ↦ inl (ground (arith, h, other))
]

add_entry-IsValid : (entry : IoCacheEntry) {c : IoCache} → IsValid c → IsValid (add_entry entry c)
unfolding add_entry entry_at
add_entry-IsValid entry {c} v = record {
  older = (omega arith, All-younger c.next_node c.entries v.older);
  points = λ path n h. elim (kept-insert_path entry.path c.next_node c.entry_map path n h) [
    | inl old ↦ rw (before n (v.points path n old).0 (v.points path n old).1) (v.points path n old)
    | inr new ↦ rw (here n new.0) (entry, refl, new.1)
  ];
}
  where
    before : (n : ℕ) (e : IoCacheEntry) → entry_at n c.entries ≡ some e → (c.next_node == n) ≡ false
    before n e at = ground (arith, not_at_new c.next_node n e c.entries v.older at)

    here : (n : ℕ) → c.next_node ≡ n → (c.next_node == n) ≡ true
    here n eq = ground (arith, eq)

-- Two paths of the map do not share an iterator.
same_iterator :
    {c : IoCache}
    → IsValid c
    → (p q : Bytes) (n : ℕ) → c.entry_map p ≡ some n
    → c.entry_map q ≡ some n
    → p ≡ q
same_iterator v p q n hp hq =
    cc ((v.points p n hp).1, (v.points p n hp).2, (v.points q n hq).1, (v.points q n hq).2)

remove_entry-IsValid :
    (path : Bytes) (n : ℕ) {c : IoCache}
    → c.entry_map path ≡ some n
    → IsValid c
    → IsValid (remove_entry path n c)
unfolding remove_entry
remove_entry-IsValid path n {c} at v = record {
  older = All-erase (λ e. e.0 < c.next_node) n c.entries v.older;
  points = λ p k h.
      rw (entry_at-erase k n c.entries (other p k h))
        (v.points p k (kept-erase_path path c.entry_map p k h).0);
}
  where
    other : (p : Bytes) (k : ℕ) → erase_path path c.entry_map p ≡ some k → (n == k) ≡ false
    other p k h = elim (Bool-cases (n == k)) [
      | inl same ↦ absurd (
          (kept-erase_path path c.entry_map p k h).1 (
            same_iterator v path p k
              (subst (λ i. c.entry_map path ≡ some i) ((==_iff n k).0 same) at)
              (kept-erase_path path c.entry_map p k h).0))
      | inr different ↦ different
    ]

first-cases :
    {A : Type 0} (xs : List A) → 0 < length xs → (x : A) × (rest : List A) × (xs ≡ x ∷ rest)
first-cases [] some_there = ground arith
first-cases (x ∷ xs) some_there = (x, xs, refl)

drop_entry-IsValid :
    {c : IoCache}
    → 0 < length c.entries
    → IsValid c
    → (d : IoCache) × (drop_entry c ≡ some d) × IsValid d
unfolding drop_entry without_last
drop_entry-IsValid {c} some_entry v =
    let (e, es, eq) = first-cases c.entries some_entry in
    (
      without_last e es c,
      rw eq refl,
      record { older = kept_older e es eq; points = kept_points e es eq },
    )
  where
    kept_older :
        (e : ℕ × IoCacheEntry) (es : List (ℕ × IoCacheEntry))
        → c.entries ≡ e ∷ es
        → All (λ e. e.0 < c.next_node) (but_last e es)
    kept_older e es eq =
        All-but_last (λ e. e.0 < c.next_node) e es (subst (All (λ e. e.0 < c.next_node)) eq v.older)

    kept_points :
        (e : ℕ × IoCacheEntry) (es : List (ℕ × IoCacheEntry))
        → c.entries ≡ e ∷ es
        → (path : Bytes) (n : ℕ) → erase_path (last_path e es) c.entry_map path ≡ some n
        → (f : IoCacheEntry) × (entry_at n (but_last e es) ≡ some f) × (f.path ≡ path)
    kept_points e es eq path n h =
        let (there, other) = kept-erase_path (last_path e es) c.entry_map path n h in
        let (f, at, named) = v.points path n there in
        elim (entry_at-but_last n f e es (subst (λ l. entry_at n l ≡ some f) eq at)) [
          | inl left ↦ (f, left, named)
          | inr last ↦ absurd (other (sym last ∙ named))
        ]

-- The access does nothing that C++ leaves open, and leaves a valid cache.
abbrev pub IsDefined : Option (IoCache × Answer) → Type 0
IsDefined r = (s : IoCache × Answer) × (r ≡ some s) × IsValid s.0

load_cache-IsDefined : {c : IoCache} → 0 < c.max_cache_entry → IsValid c → IsDefined (load_cache c)
unfolding load_cache
load_cache-IsDefined {c} enabled v = elim (Bool-cases (leb c.max_cache_entry (length c.entries))) [
  | inl full ↦
      let (d, dropped, valid) = drop_entry-IsValid (omega (arith, enabled, leb→le _ _ full)) v in
      rw (full, dropped) ((d, loading), refl, valid)
  | inr room ↦ rw room ((c, loading), refl, v)
]

access_cache-IsDefined :
    (path : Bytes) (mtime file_size : ℕ) {c : IoCache}
    → IsValid c
    → IsDefined (access_cache path mtime file_size c)
unfolding access_cache sync_cache move_entry
access_cache-IsDefined path mtime file_size {c} v = elim (Bool-cases (c.max_cache_entry == 0)) [
  | inl disabled ↦ rw disabled ((c, null), refl, v)
  | inr enabled ↦ elim (Option-cases (c.entry_map path)) [
    | inl nothing ↦ rw (enabled, nothing) (load_cache-IsDefined (ground arith) v)
    | inr found ↦
        let (n, at) = found in
        let (e, there, named) = v.points path n at in
        rw (enabled, at, there)
          (elim (Bool-cases (is_fresh e mtime file_size)) [
            | inl fresh ↦ rw fresh (
              (move_entry path n e c, copied (data_copy e)),
              refl,
              add_entry-IsValid e (remove_entry-IsValid path n at v),
            )
            | inr stale ↦ rw stale (
                load_cache-IsDefined (unfold remove_entry in ground arith)
                  (remove_entry-IsValid path n at v))
          ])
  ]
]

-- What the threads of a server have done with a cache: accesses, each up to its answer or to the
-- reading of a file, and the ends of such loads, in any order, with whatever the files have.
pub data Run : IoCache → Type 0 where
  start : (max_cache_entry max_entry_size : ℕ) → Run (new_cache max_cache_entry max_entry_size)
  accessed :
      {c : IoCache} (path : Bytes) (mtime file_size : ℕ) (s : IoCache × Answer)
      → Run c
      → access_cache path mtime file_size c ≡ some s
      → Run s.0
  loaded :
      {c : IoCache} (path : Bytes) (mtime file_size : ℕ) (read : Option Bytes)
      → Run c
      → Run (finish_load path mtime file_size read c).0

finish_load-IsValid :
    (path : Bytes) (mtime file_size : ℕ) (read : Option Bytes) {c : IoCache}
    → IsValid c
    → IsValid (finish_load path mtime file_size read c).0
unfolding finish_load
finish_load-IsValid path mtime file_size read {c} v =
    elim (Option-cases (create_cache_entry path mtime file_size read c)) [
      | inl failed ↦ rw failed v
      | inr there ↦ rw there.1 (add_entry-IsValid there.0 v)
    ]

some_eq : {A : Type 0} {x y : A} → some x ≡ some y → x ≡ y
some_eq eq = cc

Run-IsValid : {c : IoCache} → Run c → IsValid c
Run-IsValid (start n size) = unfold new_cache in record { older = tt; points = λ path n h. cc }
Run-IsValid (accessed {c} path mtime file_size s run e) =
    let (r, eq, valid) = access_cache-IsDefined path mtime file_size (Run-IsValid run) in
    subst (λ t. IsValid t.0) (some_eq (sym eq ∙ e)) valid
Run-IsValid (loaded path mtime file_size read run) =
    finish_load-IsValid path mtime file_size read (Run-IsValid run)

-- In every such history an access is defined: an iterator that the map gives stands in the list, and
-- the last entry is dropped only from a list that has one. After it each iterator of the map stands at
-- an entry with its path.
pub access_cache-Run :
    {c : IoCache}
    → Run c
    → (path : Bytes) (mtime file_size : ℕ)
    → (s : IoCache × Answer) × (access_cache path mtime file_size c ≡ some s)
      × ((p : Bytes) (n : ℕ)
          → s.0.entry_map p ≡ some n
          → (e : IoCacheEntry) × (entry_at n s.0.entries ≡ some e) × (e.path ≡ p))
access_cache-Run run path mtime file_size =
    let (s, eq, valid) = access_cache-IsDefined path mtime file_size (Run-IsValid run) in
    (s, eq, valid.points)
