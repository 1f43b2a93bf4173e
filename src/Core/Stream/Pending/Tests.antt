-- ===== src/Core/Stream/Pending/Tests.antt =====
-- A stream with a buffer and a file.
use tube.Common.{
  ℕ, ◌+◌, ◌^◌, ◌≤◌, ◌<◌, Bytes, codes, [], ◌∷◌, ◌++◌, none, some, drop, take, length, arith, ◌≡◌,
  refl,
}
use tube.Common.Int.{pos}
use tube.Core.Buffer.{Buffer, page_size, new_buffer, append}
use tube.Core.Buffer.Repr.{Holds, new_buffer-Holds}
use tube.Core.Buffer.Append.{append-Holds}
use tube.Core.Stream.{
  buffer, file_sender, Stream, write_into_output, append_file, append_buffer, append_data,
  should_send,
}
use tube.Core.Stream.Pending.{SendsAll, Advances, write_into_output-SendsAll, append-SendsAll}

abbrev pub hello : Buffer
hello = append 0 (new_buffer 0) (codes "hello")

pub hello-Holds : Holds hello (codes "hello")
hello-Holds = append-Holds 0 (codes "hello") (new_buffer-Holds 0)

abbrev file_first : Stream
file_first = record {
  writeables = file_sender (codes "a file") 2 3 ∷ buffer hello ∷ [];
  memory_usage = 5;
}

file_first-SendsAll : SendsAll file_first.writeables (codes "filhello")
file_first-SendsAll =
    (codes "fil", codes "hello", (refl, refl), (codes "hello", [], hello-Holds, refl, refl), refl)

write_into_output-SendsAll_example :
    let (sent, out) = write_into_output (some 3) file_first in
    (left : Bytes) × SendsAll out.writeables left
    × (sent ++ left ≡ codes "filhello")
    × Advances file_first.writeables sent out.writeables
write_into_output-SendsAll_example =
    write_into_output-SendsAll (some 3) file_first (codes "filhello") file_first-SendsAll
      three_offered
  where
    three_offered : 3 ≤ should_send 3
    three_offered = unfold should_send page_size in omega arith

append-SendsAll_example :
    ((bytes : Bytes)
      → SendsAll (append_data 0 bytes file_first).writeables (codes "filhello" ++ bytes))
    × ((file : Bytes) (offset : ℕ)
        → offset ≤ length file
        → length file < 2 ^ 64
        → SendsAll
            (append_file file offset none file_first).writeables
            (codes "filhello" ++ drop offset file))
    × ((file : Bytes) (offset len : ℕ)
        → offset + len ≤ length file
        → length file < 2 ^ 64
        → SendsAll
            (append_file file offset (some (pos len)) file_first).writeables
            (codes "filhello" ++ take len (drop offset file)))
    × ((b : Buffer) (more : Bytes)
        → Holds b more
        → SendsAll (append_buffer b file_first).writeables (codes "filhello" ++ more))
append-SendsAll_example = append-SendsAll 0 file_first (codes "filhello") file_first-SendsAll
