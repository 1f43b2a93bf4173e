-- ===== src/Core/Stream/Usage/Tests.antt =====
-- The account of a stream with one file, and a buffer that is not counted.
use tube.Common.{
  ◌-◌, ◌^◌, ◌<◌, ◌≤◌, codes, [], ◌∷◌, some, length, length-append, ap, ◌≡◌, refl, arith,
}
use tube.Core.Buffer.{Buffer, new_buffer, append, offered, write_to_fd}
use tube.Core.Buffer.Transfer.{offered-Holds, write_to_fd-Holds}
use tube.Core.Buffer.Repr.{Holds, new_buffer-Holds}
use tube.Core.Buffer.Append.{append-Holds}
use tube.Core.Stream.{
  buffer, file_sender, Stream, empty_stream, write_writeable, write_into_output, append_buffer,
  memory_of,
}
use tube.Core.Stream.Usage.{used, append_buffer_wraps}

abbrev one_file : Stream
one_file = record { writeables = file_sender (codes "a file") 2 3 ∷ []; memory_usage = 0 }

no_usage : used one_file.writeables ≡ 0
unfolding memory_of
no_usage = refl

abbrev hello : Buffer
hello = append 0 (new_buffer 0) (codes "hello")

hello-Holds : Holds hello (codes "hello")
hello-Holds = append-Holds 0 (codes "hello") (new_buffer-Holds 0)

one_offered : 1 ≤ length (offered hello)
one_offered = omega (arith, (offered-Holds hello-Holds).2 (omega arith))

one_sent : 0 < length (write_writeable (some 1) (buffer hello)).0
unfolding write_writeable
one_sent =
    let sent = (write_to_fd (some 1) hello).0 in
    omega (
      arith,
      length-append sent (codes "ello"),
      ap length (write_to_fd-Holds 1 hello-Holds one_offered).1,
    )

append_buffer_wraps_example :
    (write_into_output (some 1) (append_buffer hello empty_stream)).1.memory_usage
    ≡ 2 ^ 64 - length (write_writeable (some 1) (buffer hello)).0
append_buffer_wraps_example =
    append_buffer_wraps 1 hello (codes "hello") hello-Holds one_offered one_sent (omega arith)
