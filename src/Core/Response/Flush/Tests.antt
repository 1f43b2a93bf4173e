-- ===== src/Core/Response/Flush/Tests.antt =====
-- A flush of a file of two bytes, taken one by one.
use tube.Common.{codes, true, [], ◌∷◌, some, ◌≡◌, refl, arith}
use tube.Common.Int.{pos}
use tube.Core.Buffer.{page_size}
use tube.Core.Stream.{
  Stream, file_sender, is_done, writeable_size, should_send, is_eof, write_writeable, wrote,
  write_front, write_into_output,
}
use tube.Core.Response.{flush_data}
use tube.Core.Response.Flush.{Takes, flush_data-sends}

abbrev two_bytes : Stream
two_bytes = record { writeables = file_sender (codes "ok") 0 2 ∷ []; memory_usage = 0 }

two_answers-Takes : Takes (some 1 ∷ some 1 ∷ []) two_bytes
unfolding page_size should_send is_eof writeable_size write_writeable wrote write_front
    write_into_output
two_answers-Takes = (0, refl, omega arith, (0, refl, omega arith, tt))

flush_data-sends_example :
    (after : Stream) × (flush_data (some 1 ∷ some 1 ∷ []) two_bytes
      ≡ some (codes "ok", pos 2, after))
    × (is_done after ≡ true)
unfolding writeable_size
flush_data-sends_example =
    flush_data-sends (some 1 ∷ some 1 ∷ []) two_bytes (codes "ok") (omega arith, tt)
      (codes "ok", [], (refl, refl), refl, refl) two_answers-Takes (omega arith)
