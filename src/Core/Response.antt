-- ===== src/Core/Response.antt =====
-- core/wrapper.cc: Response, over the output stream of its connection. What the operating system
-- answers to the writes of a flush is a list of answers; the socket is blocking meanwhile.
pub mod Flush
pub mod Conserves
use tube.Common.{
  ℕ, zero, suc, ◌||◌, ◌+◌, ◌*◌, ◌^◌, Bytes, Bool, true, false, not, ◌&&◌, List, [], ◌∷◌, ◌++◌,
  Option, none, some, ltb, if◌then◌else◌, length,
}
use tube.Common.Int.{ℤ, pos, negsuc, ltb_ℤ, leb_ℤ, ◌+ℤ◌}
use tube.Core.Stream.{Stream, is_done, write_into_output, append_data, output_code}
use tube.Core.Connection.{Connection, has_continuation}

-- response_code() is kStageKeepLock, for a response that is inactive or not.
unfoldable pub keeps_lock : Bool → Connection → Bool
keeps_lock inactive conn = has_continuation conn || (not inactive && not (is_done conn.out_stream))

-- Response::~Response puts the connection into the write-back stage.
unfoldable pub flushes_silently : Bool → Connection → Bool
flushes_silently inactive conn = keeps_lock inactive conn && not (has_continuation conn)

abbrev pub max_memory_sizes : ℕ
max_memory_sizes = 4 * 2 ^ 20

pub prepend : Bytes → Option (Bytes × ℤ × Stream) → Option (Bytes × ℤ × Stream)
prepend sent none = none
prepend sent (some (rest, code, out)) = some (sent ++ rest, code, out)

-- One round of flush_data behind its write: by what the write returned, with what it sent, the sum so
-- far and the stream it left.
pub flush_step :
    ℤ → Bytes → ℕ → Stream → (ℕ → Option (Bytes × ℤ × Stream)) → Option (Bytes × ℤ × Stream)
flush_step (negsuc n) sent nwrite out rounds = some (sent, negsuc n, out)
flush_step (pos zero) sent nwrite out rounds = some (sent, pos nwrite, out)
flush_step (pos (suc n)) sent nwrite out rounds = prepend sent (rounds (nwrite + suc n))

-- The loop of flush_data: what was sent, what it returns and the stream. Without a further answer
-- the write blocks, and the loop has not ended.
pub flush_loop : List (Option ℕ) → ℕ → Stream → Option (Bytes × ℤ × Stream)
flush_loop [] nwrite out = if is_done out then some ([], pos nwrite, out) else none
flush_loop (answer ∷ more) nwrite out =
    let r = write_into_output answer out in
    flush_step (output_code answer out) r.0 nwrite r.1 (λ sum. flush_loop more sum r.1)

-- Response::flush_data
pub flush_data : List (Option ℕ) → Stream → Option (Bytes × ℤ × Stream)
flush_data answers out = flush_loop answers 0 out

-- What write_data makes of the flush: an error is passed on.
pub after_flush : ℕ → Option (Bytes × ℤ × Stream) → Option (Bytes × ℤ × Stream)
after_flush size none = none
after_flush size (some (sent, code, after)) =
    some (sent, if leb_ℤ code (pos 0) then code else pos size, after)

-- Response::write_data; `junk` is what a new page holds.
pub write_data : ℕ → ℕ → List (Option ℕ) → Bytes → Stream → Option (Bytes × ℤ × Stream)
write_data junk max_mem answers bytes out =
    let appended = append_data junk bytes out in
    if ltb max_mem appended.memory_usage
    then after_flush (length bytes) (flush_data answers appended)
    else some ([], pos (length bytes), appended)
