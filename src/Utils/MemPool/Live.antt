-- ===== src/Utils/MemPool/Live.antt =====
-- The objects that are live in a history of a pool.
mod Tests
use tube.Common.{
  ℕ, zero, suc, ◌+◌, ◌-◌, ◌*◌, ◌/◌, ◌%◌, ◌≤◌, ◌<◌, Bool, true, false, List, [], ◌∷◌, ◌++◌, Option,
  none, some, ltb, leb, ◌&&◌, ◌==◌, ==_iff, if◌then◌else◌, All, ◌≡◌, refl, ap, sym, ◌∙◌, subst,
  arith, Bool-cases, inl, inr,
}
use native.Mathlib.Nat.{suc-mul, div-mul-le_self}
use tube.Utils.MemPool.{
  align_size, block_mask, chunk_mask, MemPool, new_pool, fill, initialize, is_inside_pool,
  alloc_top, alloc_object, free_object,
}

-- For both masks, aligning gives the least multiple of mask + 1 that is not less.
pub align_size_lem :
    (x : ℕ)
    → ((align_size x block_mask % 16 ≡ 0)
        × (x ≤ align_size x block_mask)
        × (align_size x block_mask < x + 16))
      × ((align_size x chunk_mask % 16384 ≡ 0)
          × (x ≤ align_size x chunk_mask)
          × (align_size x chunk_mask < x + 16384))
unfolding align_size
align_size_lem x =
    ((omega arith, omega arith, omega arith), (omega arith, omega arith, omega arith))

abbrev pub count : ℕ → List ℕ → ℕ
count x [] = 0
count x (y ∷ l) = if y == x then suc (count x l) else count x l

-- What was done with a pool, and the objects that were allocated and not yet freed. malloc answers a
-- pointer outside the block that is not live; only live objects are freed.
pub data Run : MemPool → List ℕ → Type 0 where
  start :
      (obj_size blk_size : ℕ) (mapped : ℕ)
      → 0 < obj_size
      → Run (initialize obj_size (new_pool mapped blk_size)) []
  allocated :
      (malloced : ℕ) {p : MemPool} {live : List ℕ}
      → Run p live
      → is_inside_pool malloced p ≡ false
      → count malloced live ≡ 0
      → Run (alloc_object malloced p).1 ((alloc_object malloced p).0 ∷ live)
  freed :
      {p : MemPool} (before after : List ℕ) (ptr : ℕ)
      → Run p (before ++ ptr ∷ after)
      → Run (free_object ptr p) (before ++ after)

-- Every free object is in the block, and an address is live or free once at most.
record Apart (p : MemPool) (live : List ℕ) : Type 0 where
  inside : All (λ ptr. is_inside_pool ptr p ≡ true) p.free_stack
  once : (x : ℕ) → count x live + count x p.free_stack ≤ 1

count-fill :
    (size n cur : ℕ) (stack : List ℕ) (x : ℕ)
    → 0 < size
    → count x stack ≤ 1
    → (cur ≤ x → count x stack ≡ 0)
    → count x (fill size n cur stack) ≤ 1
unfolding fill
count-fill size zero cur stack x pos one later = one
count-fill size (suc n) cur stack x pos one later =
    count-fill size n (cur + size) (cur ∷ stack) x pos (ground (arith, later))
      (λ le. ground (arith, later))

inside-fill :
    (p : MemPool) (size n cur : ℕ) (stack : List ℕ)
    → p.blk_ptr ≤ cur
    → cur + n * size ≤ p.blk_ptr + p.blk_size
    → 0 < size
    → All (λ ptr. is_inside_pool ptr p ≡ true) stack
    → All (λ ptr. is_inside_pool ptr p ≡ true) (fill size n cur stack)
unfolding fill
inside-fill p size zero cur stack low high pos h = h
inside-fill p size (suc n) cur stack low high pos h =
    inside-fill p size n (cur + size) (cur ∷ stack) (omega (arith, low)) (suc_times high) pos
      (here, h)
  where
    suc_times :
        cur + suc n * size ≤ p.blk_ptr + p.blk_size
        → (cur + size) + n * size ≤ p.blk_ptr + p.blk_size
    suc_times le = omega (arith, le, suc-mul n size)

    here : is_inside_pool cur p ≡ true
    here = ground (arith, low, pos, suc_times high)

not_inside :
    (p : MemPool) (x : ℕ) (stack : List ℕ)
    → All (λ ptr. is_inside_pool ptr p ≡ true) stack
    → is_inside_pool x p ≡ false
    → count x stack ≡ 0
not_inside p x [] h out = refl
not_inside p x (y ∷ stack) h out = elim (Bool-cases (y == x)) [
  | inl same ↦ cc (subst (λ z. is_inside_pool z p ≡ true) ((==_iff y x).0 same) h.0)
  | inr other ↦ rw other (not_inside p x stack h.1 out)
]

count-without :
    (before after : List ℕ) (ptr x : ℕ)
    → count x (before ++ ptr ∷ after) ≡ count x (ptr ∷ []) + count x (before ++ after)
count-without [] after ptr x = ground arith
count-without (b ∷ before) after ptr x = ground (arith, count-without before after ptr x)

start-Apart :
    (obj_size : ℕ) (p : MemPool)
    → 0 < obj_size
    → p.free_stack ≡ []
    → Apart (initialize obj_size p) []
unfolding initialize
start-Apart obj_size p pos nothing = elim (Bool-cases (p.blk_ptr == 0)) [
  | inl null ↦ rw null (record {
    inside = subst (All (λ ptr. is_inside_pool ptr p ≡ true)) (sym nothing) tt;
    once = λ x. subst (λ l. 0 + count x l ≤ 1) (sym nothing) (omega arith);
  })
  | inr mapped ↦ rw mapped (record {
    inside = inside-fill p size (p.blk_size / size) p.blk_ptr [] (omega arith) room size_pos tt;
    once = λ x. omega (
      arith,
      count-fill size (p.blk_size / size) p.blk_ptr [] x size_pos (omega arith) (λ le. refl),
    );
  })
]
  where
    size : ℕ
    size = align_size obj_size block_mask

    size_pos : 0 < size
    size_pos = omega (arith, (align_size_lem obj_size).0.1, pos)

    room : p.blk_ptr + p.blk_size / size * size ≤ p.blk_ptr + p.blk_size
    room = omega (arith, div-mul-le_self p.blk_size size)

allocated-Apart :
    (malloced : ℕ) (p : MemPool) (live stack : List ℕ)
    → p.free_stack ≡ stack
    → Apart p live
    → is_inside_pool malloced p ≡ false
    → count malloced live ≡ 0
    → Apart (alloc_top malloced p stack).1 ((alloc_top malloced p stack).0 ∷ live)
unfolding alloc_top
allocated-Apart malloced p live [] e h out fresh = record {
  inside = h.inside;
  once = λ x. elim (Bool-cases (malloced == x)) [
    | inl same ↦ rw same (
        omega
          (arith, ap (count x) e, subst (λ y. count y live ≡ 0) ((==_iff malloced x).0 same) fresh))
    | inr other ↦ rw other (h.once x)
  ];
}
allocated-Apart malloced p live (ptr ∷ stack) e h out fresh = record {
  inside = (subst (All (λ x. is_inside_pool x p ≡ true)) e h.inside).1;
  once = λ x. ground (arith, h.once x, ap (count x) e);
}

freed-Apart :
    (p : MemPool) (before after : List ℕ) (ptr : ℕ)
    → Apart p (before ++ ptr ∷ after)
    → Apart (free_object ptr p) (before ++ after)
unfolding free_object
freed-Apart p before after ptr h = elim (Bool-cases (is_inside_pool ptr p)) [
  | inl pooled ↦ rw pooled (record {
    inside = (pooled, h.inside);
    once = λ x. ground (arith, h.once x, count-without before after ptr x);
  })
  | inr other ↦ rw other (record {
    inside = h.inside;
    once = λ x. omega (arith, h.once x, count-without before after ptr x);
  })
]

Run-Apart : {p : MemPool} {live : List ℕ} → Run p live → Apart p live
unfolding alloc_object
Run-Apart (start obj_size blk_size mapped pos) =
    start-Apart obj_size (new_pool mapped blk_size) pos (unfold new_pool in refl)
Run-Apart (allocated malloced {p} {live} run out fresh) =
    allocated-Apart malloced p live p.free_stack refl (Run-Apart run) out fresh
Run-Apart (freed {p} before after ptr run) = freed-Apart p before after ptr (Run-Apart run)

-- In every history no two live objects have the same address, and no live object is on the stack of
-- the free ones, where no address is twice either.
pub Run-once :
    {p : MemPool} {live : List ℕ} → Run p live → (x : ℕ) → count x live + count x p.free_stack ≤ 1
Run-once run = (Run-Apart run).once
