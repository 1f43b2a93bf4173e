-- ===== src/Core/Sharing.antt =====
-- core/buffer.cc: CowInfo, the copy constructor and assignment, and copy_for_write: several Buffer
-- objects over shared pages.
pub mod Isolation
use tube.Common.{
  ℕ, ◌+◌, Bytes, Bool, true, false, ◌&&◌, List, [], ◌∷◌, ◌++◌, Option, none, some, ltb, ◌==◌,
  if◌then◌else◌, get_elem?, set, count_if,
}
use tube.Core.Buffer.{Buffer, append, pop, read_from_fd, new_buffer}

-- A Buffer object: its cow_info_ pointer and its own fields.
pub record Handle : Type 0 where
  pub cow : ℕ
  pub borrowed : Bool
  pub left_offset : ℕ
  pub right_offset : ℕ
  pub size : ℕ

-- The page lists by CowInfo address, the next unused address, and the live Buffer objects.
pub record World : Type 0 where
  pub pages_at : ℕ → List Bytes
  pub next_cow : ℕ
  pub handles : List Handle

abbrev pub update : (ℕ → List Bytes) → ℕ → List Bytes → ℕ → List Bytes
update f c ps x = if x == c then ps else f x

-- What one object sees: its fields over the pages it points to.
abbrev pub view : World → Handle → Buffer
view w h = record {
  pages = w.pages_at h.cow;
  left_offset = h.left_offset;
  right_offset = h.right_offset;
  size = h.size;
}

-- cow_info_.use_count()
pub use_count : World → ℕ → ℕ
use_count w c = count_if (λ h. h.cow == c) w.handles

pub need_copy_for_write : World → Handle → Bool
need_copy_for_write w h = h.borrowed && ltb 1 (use_count w h.cow)

-- Buffer(): fresh pages of its own. The new object is the last.
pub create : ℕ → World → World
create junk w =
    let b = new_buffer junk in
    record {
      pages_at = update w.pages_at w.next_cow b.pages;
      next_cow = w.next_cow + 1;
      handles =
          w.handles
          ++ record {
            cow = w.next_cow;
            borrowed = false;
            left_offset = b.left_offset;
            right_offset = b.right_offset;
            size = b.size;
          }
            ∷ [];
    }

-- Buffer(const Buffer&): shares the pages and marks itself borrowed.
pub copy : Handle → World → World
copy h w = record w { handles = w.handles ++ record h { borrowed = true } ∷ [] }

-- operator=
pub assign : ℕ → Handle → World → World
assign i h w = record w { handles = set w.handles i (record h { borrowed = true }) }

-- copy_for_write of object `i`: its own copy of every page.
pub copy_for_write : ℕ → Handle → World → World
copy_for_write i h w = record {
  pages_at = update w.pages_at w.next_cow (w.pages_at h.cow);
  next_cow = w.next_cow + 1;
  handles = set w.handles i (record h { cow = w.next_cow; borrowed = false });
}

-- A write through object `i` to the pages that it points to.
pub store : ℕ → Handle → Buffer → World → World
store i h b w = record w {
  pages_at = update w.pages_at h.cow b.pages;
  handles =
      set w.handles i
        (record h { left_offset = b.left_offset; right_offset = b.right_offset; size = b.size });
}

-- The frame of append, pop and read_from_fd: copy first if the pages are shared and borrowed.
pub write_through : (Buffer → Buffer) → ℕ → Handle → World → World
write_through op i h w =
    let own = record h { cow = w.next_cow; borrowed = false } in
    if need_copy_for_write w h
    then store i own (op (view w h)) (copy_for_write i h w)
    else store i h (op (view w h)) w

pub append_at : ℕ → Bytes → ℕ → Handle → World → World
append_at junk bytes = write_through (λ b. append junk b bytes)

pub pop_at : ℕ → ℕ → Handle → World → World
pop_at n = write_through (λ b. (pop b n).1)

pub read_at : ℕ → Option Bytes → ℕ → Handle → World → World
read_at junk answer = write_through (read_from_fd junk answer)
