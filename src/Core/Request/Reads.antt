-- ===== src/Core/Request/Reads.antt =====
-- read_data against the bytes that the input buffer holds.
use tube.Common.{
  ℕ, ◌≤◌, ◌<◌, Bytes, true, false, Option, ltb, length, take, append-nil, ◌≡◌, refl, arith,
}
use tube.Common.Int.{pos, ◌+ℤ◌, eq_of_parts, int_laws}
use tube.Core.Buffer.{Buffer, copy_front}
use tube.Core.Buffer.Repr.{Holds}
use tube.Core.Buffer.Copy.{copy_front-Holds}
use tube.Core.Request.{from_buffer, to_read, stored, read_data}

copied_front :
    (n : ℕ) {b : Buffer} {body : Bytes}
    → Holds b body
    → n ≤ length body
    → stored (copy_front b n) ≡ take n body
copied_front n {b} {body} h le = rw (copy_front-Holds n h) (rw not_less)
  where
    not_less : ltb (length body) n ≡ false
    not_less = ground arith

-- Reading less than the input buffer holds stores the front of it, returns its length, and leaves the
-- buffer with all its bytes: the next read gives them again.
pub read_data-front :
    (n : ℕ) (answer : Option Bytes) {b : Buffer} {body : Bytes}
    → Holds b body
    → n < length body
    → read_data n answer b ≡ ((take n body, pos n), b)
unfolding read_data from_buffer to_read
read_data-front n answer {b} {body} h lt =
    rw (some_there, less) (rw (copied_front n h (omega (arith, lt)), append-nil) (rw add_none refl))
  where
    some_there : ltb 0 b.size ≡ true
    some_there = ground (arith, h.body_length, lt)

    less : ltb n b.size ≡ true
    less = ground (arith, h.body_length, lt)

    add_none : pos n +ℤ pos 0 ≡ pos n
    add_none = eq_of_parts _ _ (grind int_laws)
