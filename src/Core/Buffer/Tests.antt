-- ===== src/Core/Buffer/Tests.antt =====
-- Runs of a Buffer, and its theorems at concrete buffers.
use tube.Common.{codes, ◌++◌, ◌≡◌, refl, arith, true, length, some, ◌≤◌}
use tube.Core.Buffer.{
  Buffer, page_size, fresh_page, new_buffer, append_loop, append, pop, drop_pages, copy_front,
  offered, offered_bytes, write_to_fd,
}
use tube.Core.Buffer.Repr.{Holds, new_buffer-Holds, content}
use tube.Core.Buffer.Append.{append-Holds}
use tube.Core.Buffer.Pop.{pop-Holds}
use tube.Core.Buffer.Copy.{copy_front-Holds}
use tube.Core.Buffer.Transfer.{write_to_fd-Holds}

abbrev hello : Buffer
hello = append 7 (new_buffer 7) (codes "hello")

hello-Holds : Holds hello (codes "hello")
hello-Holds = append-Holds 7 (codes "hello") (new_buffer-Holds 7)

holds_hello : content (pop hello 2).1 ≡ codes "llo"
unfolding content pop append new_buffer append_loop fresh_page page_size drop_pages
holds_hello = refl

append-Holds_example : Holds (append 7 hello (codes ", world")) (codes "hello, world")
append-Holds_example = append-Holds 7 (codes ", world") hello-Holds

pop-Holds_example : ((pop hello 2).0 ≡ true) × Holds (pop hello 2).1 (codes "llo")
pop-Holds_example = pop-Holds 2 hello-Holds (omega arith)

copy_front-Holds_example : copy_front hello 2 ≡ some (codes "he")
copy_front-Holds_example = copy_front-Holds 2 hello-Holds

offered_enough : 3 ≤ length (offered hello)
unfolding offered offered_bytes append new_buffer append_loop fresh_page page_size
offered_enough = omega arith

write_to_fd-Holds_example :
    Holds (write_to_fd (some 3) hello).1 (codes "lo")
    × ((write_to_fd (some 3) hello).0 ++ codes "lo" ≡ codes "hello")
write_to_fd-Holds_example = write_to_fd-Holds 3 hello-Holds offered_enough
