-- ===== src/Core/Buffer/Repr.antt =====
-- When a Buffer holds a byte string, and what that says of its pages.
use tube.Common.{
  ℕ, suc, ◌+◌, ◌-◌, ◌*◌, ◌≤◌, ◌<◌, Bytes, List, [], ◌∷◌, ◌++◌, ◌≡◌, refl, sym, ap, ◌∙◌, arith,
  length, take, drop, All, length-append, length-take, length-drop, take-append-drop,
  take-append_le, drop-append_le, drop-append_add, append_assoc, append-nil, length-replicate,
  take_front, drop_front,
}
use tube.Core.Buffer.{page_size, Buffer, write_at, update_last, fresh_page, new_buffer}

abbrev pub flatten : List Bytes → Bytes
flatten [] = []
flatten (p ∷ ps) = p ++ flatten ps

abbrev pub IsPage : Bytes → Type 0
IsPage p = length p ≡ page_size

-- The buffer's pages are full pages whose bytes, in order, are `left_offset` spent ones, the bytes
-- held, and `right_offset` free ones.
pub record Holds (b : Buffer) (body : Bytes) : Type 0 where
  pub spent : Bytes
  pub free : Bytes
  pub bytes : flatten b.pages ≡ spent ++ (body ++ free)
  pub spent_length : length spent ≡ b.left_offset
  pub body_length : length body ≡ b.size
  pub free_length : length free ≡ b.right_offset
  pub full_pages : All IsPage b.pages
  pub left_fits : b.left_offset < page_size
  pub right_fits : b.right_offset ≤ page_size
  pub some_page : 0 < length b.pages

pub page_size_pos : 0 < page_size
unfolding page_size
page_size_pos = omega arith

pub length-flatten : (ps : List Bytes) → All IsPage ps → length (flatten ps) ≡ length ps * page_size
unfolding page_size
length-flatten [] h = omega arith
length-flatten (p ∷ ps) h = length-append p (flatten ps) ∙ omega (arith, length-flatten ps h.1, h.0)

pub flatten-append : (ps qs : List Bytes) → flatten (ps ++ qs) ≡ flatten ps ++ flatten qs
flatten-append [] qs = refl
flatten-append (p ∷ ps) qs = ap (λ t. p ++ t) (flatten-append ps qs) ∙ sym (append_assoc p _ _)

pub fresh_page-IsPage : (junk : ℕ) → IsPage (fresh_page junk)
unfolding fresh_page
fresh_page-IsPage junk = length-replicate page_size junk

pub length-write_at :
    (p : Bytes) (off : ℕ) (bytes : Bytes)
    → off + length bytes ≤ length p
    → length (write_at p off bytes) ≡ length p
length-write_at p off bytes h = omega (
  arith,
  length-append (take off p) (bytes ++ drop (off + length bytes) p),
  length-append bytes (drop (off + length bytes) p),
  length-take off p,
  length-drop (off + length bytes) p,
)

-- The number of bytes over all pages.
pub Holds-total :
    {b : Buffer} {body : Bytes}
    → Holds b body
    → length b.pages * page_size ≡ b.left_offset + b.size + b.right_offset
Holds-total {b} {body} h = omega (
  arith,
  length-flatten b.pages h.full_pages,
  ap length h.bytes,
  length-append h.spent (body ++ h.free),
  length-append body h.free,
  h.spent_length,
  h.body_length,
  h.free_length,
)

write_at_split :
    (pre free bytes : Bytes) (off : ℕ)
    → length pre ≡ off
    → write_at (pre ++ free) off bytes ≡ pre ++ (bytes ++ drop (length bytes) free)
write_at_split pre free bytes off e =
    rw (← e)
      (rw (take_front pre free) (rw (drop-append_add (length pre) (length bytes) pre free refl)))

-- Of two ways to split one byte string, the one with the shorter front splits the other's front.
pub split_front :
    (p rest pre post : Bytes)
    → p ++ rest ≡ pre ++ post
    → length p ≤ length pre
    → (pre ≡ p ++ drop (length p) pre) × (rest ≡ drop (length p) pre ++ post)
split_front p rest pre post e h = (
  sym (take-append-drop (length p) pre) ∙ ap (λ t. t ++ drop (length p) pre) front,
  sym (drop_front p rest) ∙ ap (drop (length p)) e ∙ drop-append_le (length p) pre post h,
)
  where
    front : take (length p) pre ≡ p
    front =
        sym (take-append_le (length p) pre post h)
        ∙ ap (take (length p)) (sym e)
        ∙ take_front p rest

-- A write into the free end of the last page replaces the end of the bytes.
pub flatten-update_last :
    (ps : List Bytes) (room : ℕ) (bytes : Bytes)
    → All IsPage ps
    → 0 < length ps
    → room ≤ page_size
    → (pre free : Bytes) → flatten ps ≡ pre ++ free
    → length free ≡ room
    → flatten (update_last (λ p. write_at p (page_size - room) bytes) ps)
      ≡ pre ++ (bytes ++ drop (length bytes) free)
flatten-update_last [] room bytes full some_page fits pre free e l = absurd (omega arith)
flatten-update_last (p ∷ []) room bytes full some_page fits pre free e l =
    append-nil _
    ∙ ap (λ t. write_at t (page_size - room) bytes) whole
    ∙ write_at_split pre free bytes (page_size - room)
        (omega (arith, ap length whole, length-append pre free, full.0))
  where
    whole : p ≡ pre ++ free
    whole = sym (append-nil p) ∙ e
flatten-update_last (p ∷ q ∷ ps) room bytes full some_page fits pre free e l =
    ap (λ t. p ++ t)
      (flatten-update_last (q ∷ ps) room bytes full.1 (omega arith) fits (drop (length p) pre) free
        split.1 l)
    ∙ sym (append_assoc p (drop (length p) pre) _)
    ∙ ap (λ t. t ++ (bytes ++ drop (length bytes) free)) (sym split.0)
  where
    long : length p ≤ length pre
    long = omega (
      arith,
      ap length e,
      length-append p (flatten (q ∷ ps)),
      length-append q (flatten ps),
      length-append pre free,
      full.0,
      full.1.0,
    )

    split : (pre ≡ p ++ drop (length p) pre) × (flatten (q ∷ ps) ≡ drop (length p) pre ++ free)
    split = split_front p (flatten (q ∷ ps)) pre free e long

pub All-update_last :
    (f : Bytes → Bytes) (ps : List Bytes)
    → ((p : Bytes) → IsPage p → IsPage (f p))
    → All IsPage ps
    → All IsPage (update_last f ps)
All-update_last f [] keep h = tt
All-update_last f (p ∷ []) keep h = (keep p h.0, tt)
All-update_last f (p ∷ q ∷ ps) keep h = (h.0, All-update_last f (q ∷ ps) keep h.1)

pub length-update_last :
    (f : Bytes → Bytes) (ps : List Bytes) → length (update_last f ps) ≡ length ps
length-update_last f [] = refl
length-update_last f (p ∷ []) = refl
length-update_last f (p ∷ q ∷ ps) = ap suc (length-update_last f (q ∷ ps))

-- The bytes held, read off the pages and offsets.
unfoldable pub content : Buffer → Bytes
content b = take b.size (drop b.left_offset (flatten b.pages))

-- What a buffer holds is determined by its pages and offsets.
pub Holds-content : {b : Buffer} {body : Bytes} → Holds b body → body ≡ content b
unfolding content
Holds-content {b} {body} h =
    sym (take_front body h.free)
    ∙ ap (λ n. take n (body ++ h.free)) h.body_length
    ∙ ap (take b.size) (
        sym (drop_front h.spent (body ++ h.free))
        ∙ ap (λ n. drop n (h.spent ++ (body ++ h.free))) h.spent_length
        ∙ ap (drop b.left_offset) (sym h.bytes))

pub new_buffer-Holds : (junk : ℕ) → Holds (new_buffer junk) []
unfolding new_buffer
new_buffer-Holds junk = record {
  spent = [];
  free = fresh_page junk;
  bytes = append-nil _;
  spent_length = refl;
  body_length = refl;
  free_length = fresh_page-IsPage junk;
  full_pages = (fresh_page-IsPage junk, tt);
  left_fits = page_size_pos;
  right_fits = omega arith;
  some_page = omega arith;
}
