-- ===== src/Http/Body/Unread.antt =====
-- What do_parse finds behind a body, read or unread.
mod Tests
use tube.Common.{
  ℕ, ◌+◌, ◌-◌, ◌%◌, ◌^◌, ◌≤◌, ◌<◌, Bytes, Bool, true, false, [], ◌++◌, Option, none, some, ltb,
  lt→ltb, ◌==◌, if◌then◌else◌, length, length-append, take, drop, take_front, drop_front, ◌≡◌, refl,
  ap, sym, ◌∙◌, subst, arith, Bool-cases, inl, inr,
}
use tube.Common.Int.{ℤ, pos}
use tube.Core.Buffer.{Buffer, pop, clear}
use tube.Core.Buffer.Repr.{Holds}
use tube.Core.Buffer.Pop.{pop-Holds}
use tube.Core.Request.{read_data}
use tube.Core.Request.Reads.{read_data-front}
use tube.Http.Body.{Input, count_read, posted, http_read_data, skip_posted}

-- A connection whose buffer holds a posted body, not empty and shorter than 2 ^ 64, and behind it the
-- start of another request. When the handler reads none of the body, do_parse skips it and goes on
-- with the next request. When the handler reads all of it, do_parse goes on with the body, as if it
-- were a request.
pub skip_posted-read :
    (answer : Option Bytes) {b : Buffer} (body next : Bytes)
    → Holds b (body ++ next)
    → 0 < length body
    → length body < 2 ^ 64
    → 0 < length next
    → (let read = http_read_data (length body) answer (posted b body) in
        ((skip_posted (posted b body)).0 ≡ true)
        × Holds (skip_posted (posted b body)).1.buffer next
        × (read.0 ≡ (body, pos (length body)))
        × (skip_posted read.1 ≡ (true, record { buffer = b; bytes_should_skip = 0 }))
        × Holds (skip_posted read.1).1.buffer (body ++ next))
unfolding skip_posted http_read_data count_read posted
skip_posted-read answer {b} body next h some_body fits more =
    rw (some_length, shorter, read) (rw all_read (refl, behind, refl, refl, h))
  where
    some_length : (length body == 0) ≡ false
    some_length = ground arith

    shorter : ltb (length body) b.size ≡ true
    shorter = ground (arith, h.body_length, length-append body next, more)

    behind : Holds (pop b (length body)).1 next
    behind =
        subst (Holds (pop b (length body)).1) (drop_front body next)
          (pop-Holds (length body) h (omega (arith, length-append body next))).1

    read : read_data (length body) answer b ≡ ((body, pos (length body)), b)
    read =
        subst (λ front. read_data (length body) answer b ≡ ((front, pos (length body)), b))
          (take_front body next)
          (read_data-front (length body) answer h (omega (arith, length-append body next, more)))

    sum : length body + 2 ^ 64 - length body ≡ 2 ^ 64
    sum = omega arith

    all_read : count_read (length body) (pos (length body)) ≡ 0
    all_read = rw (lt→ltb _ _ some_body) (rw sum refl)
