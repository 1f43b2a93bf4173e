-- ===== src/Core/Buffer.antt =====
-- core/buffer.cc: the pages and offsets of a Buffer that shares its pages with no other. Sharing is
-- in Core/Sharing. A page is the list of its kPageSize bytes; what malloc leaves in a fresh page is
-- unspecified, and is the byte `junk` in each place.
pub mod Repr
pub mod Grow
pub mod Append
pub mod Pop
pub mod Copy
pub mod Transfer
mod Tests
use tube.Common.{
  ℕ, zero, suc, ◌+◌, ◌-◌, ◌*◌, ◌/◌, ◌%◌, min, Bytes, Bool, true, false, List, [], ◌∷◌, ◌++◌, Option,
  none, some, ltb, leb, ◌==◌, if◌then◌else◌, length, take, drop, replicate,
}

unfoldable pub page_size : ℕ
page_size = 8192

pub record Buffer : Type 0 where
  pub pages : List Bytes
  pub left_offset : ℕ
  pub right_offset : ℕ
  pub size : ℕ

-- memcpy to an offset of a page
abbrev pub write_at : Bytes → ℕ → Bytes → Bytes
write_at page off bytes = take off page ++ (bytes ++ drop (off + length bytes) page)

-- pages_.back() overwritten
abbrev pub update_last : (Bytes → Bytes) → List Bytes → List Bytes
update_last f [] = []
update_last f (p ∷ []) = f p ∷ []
update_last f (p ∷ q ∷ ps) = p ∷ update_last f (q ∷ ps)

-- pages_.pop_front() `n` times, each guarded by pages_.size() > 1
pub drop_pages : ℕ → List Bytes → List Bytes
drop_pages zero ps = ps
drop_pages (suc n) [] = []
drop_pages (suc n) (p ∷ []) = p ∷ []
drop_pages (suc n) (p ∷ q ∷ ps) = drop_pages n (q ∷ ps)

-- pop: refused beyond the size. An emptied buffer starts its page anew.
pub pop : Buffer → ℕ → Bool × Buffer
pop b pop_size = if ltb b.size pop_size then (false, b) else (
  true,
  record {
    pages = drop_pages ((pop_size + b.left_offset) / page_size) b.pages;
    left_offset = if b.size - pop_size == 0 then 0 else (pop_size + b.left_offset) % page_size;
    right_offset = if b.size - pop_size == 0 then page_size else b.right_offset;
    size = b.size - pop_size;
  },
)

-- pop_page: the number of bytes left in the first page is returned whatever pop answers.
pub pop_page : Buffer → ℕ × Buffer
pop_page b = let n = page_size - b.left_offset in (n, (pop b n).1)

pub clear : Buffer → Buffer
clear b = (pop b b.size).1

-- The do-while loop of copy_front: from the offset in the first page, then whole pages. Behind the
-- last page the source would read past the list; there are no bytes there.
pub copy_loop : ℕ → ℕ → List Bytes → Bytes
copy_loop off sz [] = []
copy_loop off sz (p ∷ ps) =
    let ncopy = min sz (page_size - off) in
    let more = copy_loop 0 (sz - ncopy) ps in
    take ncopy (drop off p) ++ (if sz - ncopy == 0 then [] else more)

-- copy_front into memory; `none` for false
unfoldable pub copy_front : Buffer → ℕ → Option Bytes
copy_front b sz = if ltb b.size sz then none else some (copy_loop b.left_offset sz b.pages)

-- get_page_segment over the pages in order: the first loses the left offset, the last the right one.
pub segments : ℕ → ℕ → List Bytes → List Bytes
segments left right [] = []
segments left right (p ∷ []) = take (page_size - left - right) (drop left p) ∷ []
segments left right (p ∷ q ∷ ps) = drop left p ∷ segments 0 right (q ∷ ps)

-- The bytes that write_to_fd hands to writev: at most two pages, the right offset taken from the
-- second even where more pages follow.
pub offered_bytes : ℕ → ℕ → List Bytes → Bytes
offered_bytes left right [] = []
offered_bytes left right (p ∷ []) = take (page_size - left - right) (drop left p)
offered_bytes left right (p ∷ q ∷ _) = drop left p ++ take (page_size - right) q

pub offered : Buffer → Bytes
offered b = offered_bytes b.left_offset b.right_offset b.pages

-- write_to_fd, by the answer of writev: `none` for an error, else the number of bytes that it took.
-- The result holds the bytes sent and the buffer behind them.
pub write_to_fd : Option ℕ → Buffer → Bytes × Buffer
write_to_fd answer b = if b.size == 0 then ([], b) else (elim answer [
  | none ↦ ([], b)
  | some n ↦ if ltb 0 n then (take n (offered b), (pop b n).1) else ([], b)
])

module _ (junk : ℕ) where
  pub fresh_page : Bytes
  fresh_page = replicate page_size junk

  unfoldable pub new_buffer : Buffer
  new_buffer = record {
    pages = fresh_page ∷ [];
    left_offset = 0;
    right_offset = page_size;
    size = 0;
  }

  -- The `while (true)` loop of append: new pages for the bytes left, and the last one's free room.
  pub append_loop : ℕ → Bytes → List Bytes × ℕ
  append_loop zero bytes = ([], 0)
  append_loop (suc fuel) bytes =
      let page = write_at fresh_page 0 (take page_size bytes) in
      let rest = append_loop fuel (drop page_size bytes) in
      if ltb (length bytes) page_size
      then (page ∷ [], page_size - length bytes)
      else (page ∷ rest.0, rest.1)

  -- append(ptr, sz): into the last page, and on new pages for what does not fit there.
  pub append : Buffer → Bytes → Buffer
  append b bytes =
      let at = page_size - b.right_offset in
      let room = b.right_offset in
      let rest = drop room bytes in
      let grown = append_loop (suc (length rest / page_size)) rest in
      if ltb (length bytes) room
      then record b {
        pages = update_last (λ p. write_at p at bytes) b.pages;
        right_offset = room - length bytes;
        size = b.size + length bytes;
      }
      else record b {
        pages = update_last (λ p. write_at p at (take room bytes)) b.pages ++ grown.0;
        right_offset = grown.1;
        size = b.size + length bytes;
      }

  pub append_all : Buffer → List Bytes → Buffer
  append_all b [] = b
  append_all b (s ∷ ss) = append_all (append b s) ss

  -- append(Buffer&): segment by segment
  pub append_buffer : Buffer → Buffer → Buffer
  append_buffer b other = append_all b (segments other.left_offset other.right_offset other.pages)

  -- The chunks of copy_loop, appended to another buffer.
  pub copy_buffer_loop : Buffer → ℕ → ℕ → List Bytes → Buffer
  copy_buffer_loop into off sz [] = into
  copy_buffer_loop into off sz (p ∷ ps) =
      let ncopy = min sz (page_size - off) in
      let into' = append into (take ncopy (drop off p)) in
      let more = copy_buffer_loop into' 0 (sz - ncopy) ps in if sz - ncopy == 0 then into' else more

  -- copy_front(Buffer&, size)
  pub copy_front_buffer : Buffer → Buffer → ℕ → Bool × Buffer
  copy_front_buffer b into sz =
      if ltb b.size sz
      then (false, into)
      else (true, copy_buffer_loop into b.left_offset sz b.pages)

  -- read_from_fd, by the answer of readv: `none` for an error, else the bytes that it stored, first
  -- into the free room of the last page and then into the extra page.
  pub read_from_fd : Option Bytes → Buffer → Buffer
  read_from_fd none b = b
  read_from_fd (some bytes) b =
      let room = b.right_offset in
      let first = update_last (λ p. write_at p (page_size - room) (take room bytes)) b.pages in
      let extra = write_at fresh_page 0 (drop room bytes) in
      if leb room (length bytes)
      then record b {
        pages = first ++ extra ∷ [];
        right_offset = page_size + room - length bytes;
        size = b.size + length bytes;
      }
      else record b {
        pages = first;
        right_offset = room - length bytes;
        size = b.size + length bytes;
      }
