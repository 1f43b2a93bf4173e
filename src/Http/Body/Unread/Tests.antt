-- ===== src/Http/Body/Unread/Tests.antt =====
-- A posted form of five bytes with a pipelined request behind it.
use tube.Common.{none, true, arith, codes, ◌++◌, ◌≡◌}
use tube.Common.Int.{pos}
use tube.Core.Buffer.{Buffer, new_buffer, append}
use tube.Core.Buffer.Repr.{Holds, new_buffer-Holds}
use tube.Core.Buffer.Append.{append-Holds}
use tube.Http.Body.{posted, http_read_data, skip_posted}
use tube.Http.Body.Unread.{skip_posted-read}

abbrev pipelined : Buffer
pipelined = append 7 (new_buffer 7) (codes "k=vw;" ++ codes "GET / HTTP/1.1")

pipelined-Holds : Holds pipelined (codes "k=vw;" ++ codes "GET / HTTP/1.1")
pipelined-Holds = append-Holds 7 (codes "k=vw;" ++ codes "GET / HTTP/1.1") (new_buffer-Holds 7)

skip_posted-read_example :
    (let read = http_read_data 5 none (posted pipelined (codes "k=vw;")) in
      ((skip_posted (posted pipelined (codes "k=vw;"))).0 ≡ true)
      × Holds (skip_posted (posted pipelined (codes "k=vw;"))).1.buffer (codes "GET / HTTP/1.1")
      × (read.0 ≡ (codes "k=vw;", pos 5))
      × (skip_posted read.1 ≡ (true, record { buffer = pipelined; bytes_should_skip = 0 }))
      × Holds (skip_posted read.1).1.buffer (codes "k=vw;" ++ codes "GET / HTTP/1.1"))
skip_posted-read_example =
    skip_posted-read none (codes "k=vw;") (codes "GET / HTTP/1.1") pipelined-Holds (omega arith)
      (omega arith) (omega arith)
