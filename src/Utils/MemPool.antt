-- ===== src/Utils/MemPool.antt =====
-- utils/mempool.cc and utils/mempool.h: a pool of objects of one size in a block, with a stack of the
-- free ones. A pointer is its address; what mmap and malloc answer are arguments; the stack is the
-- list of its entries with the top first.
pub mod Live
use tube.Common.{
  ℕ, zero, suc, ◌+◌, ◌-◌, ◌/◌, ◌%◌, ◌^◌, Bool, true, false, List, [], ◌∷◌, Option, none, some, ltb,
  leb, ◌&&◌, ◌||◌, ◌==◌, if◌then◌else◌,
}

-- (x + mask) & ~mask, for a mask of low bits
pub align_size : ℕ → ℕ → ℕ
align_size x mask = (x + mask) - (x + mask) % suc mask

abbrev pub chunk_mask : ℕ
chunk_mask = 16383

abbrev pub block_mask : ℕ
block_mask = 15

pub record MemPool : Type 0 where
  pub blk_ptr : ℕ
  pub blk_size : ℕ
  pub free_stack : List ℕ
  pub obj_size : ℕ

-- The constructor, by the answer of mmap. MAP_FAILED is the address -1: no null pointer, but negative
-- as a long, which is what a failure is recognized by.
pub new_pool : ℕ → ℕ → MemPool
new_pool mapped blk_size = record {
  blk_ptr = mapped;
  blk_size = if mapped == 0 || leb (2 ^ 63) mapped then 0 else align_size blk_size chunk_mask;
  free_stack = [];
  obj_size = 0;
}

-- The loop of initialize.
pub fill : ℕ → ℕ → ℕ → List ℕ → List ℕ
fill obj_size zero cur_ptr stack = stack
fill obj_size (suc n) cur_ptr stack = fill obj_size n (cur_ptr + obj_size) (cur_ptr ∷ stack)

pub initialize : ℕ → MemPool → MemPool
initialize obj_size p =
    let aligned = align_size obj_size block_mask in
    if p.blk_ptr == 0 then record p { obj_size = aligned } else record p {
      obj_size = aligned;
      free_stack = fill aligned (p.blk_size / aligned) p.blk_ptr [];
    }

abbrev pub is_inside_pool : ℕ → MemPool → Bool
is_inside_pool ptr p = leb p.blk_ptr ptr && ltb ptr (p.blk_ptr + p.blk_size)

-- MemoryPool::alloc_object, with what malloc would answer.
pub alloc_top : ℕ → MemPool → List ℕ → ℕ × MemPool
alloc_top malloced p [] = (malloced, p)
alloc_top malloced p (ptr ∷ stack) = (ptr, record p { free_stack = stack })

pub alloc_object : ℕ → MemPool → ℕ × MemPool
alloc_object malloced p = alloc_top malloced p p.free_stack

-- MemoryPool::free_object; free() of the other pointers does not touch the pool.
pub free_object : ℕ → MemPool → MemPool
free_object ptr p = if is_inside_pool ptr p then record p { free_stack = ptr ∷ p.free_stack } else p
