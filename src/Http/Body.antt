-- ===== src/Http/Body.antt =====
-- The body of a request: HttpRequest::read_data of http/http_wrapper.cc, and how
-- HttpConnection::do_parse of http/connection.cc skips what a handler left of it.
pub mod Unread
use tube.Common.{
  ℕ, ◌+◌, ◌-◌, ◌%◌, ◌^◌, Bytes, Bool, true, false, Option, ltb, ◌==◌, if◌then◌else◌, length,
}
use tube.Common.Int.{ℤ, pos, negsuc}
use tube.Core.Buffer.{Buffer, pop, clear}
use tube.Core.Request.{read_data}

-- The part of an HttpConnection that they share.
pub record Input : Type 0 where
  pub buffer : Buffer
  pub bytes_should_skip : ℕ

-- A connection that has been given a request: the constructor of HttpRequest.
pub posted : Buffer → Bytes → Input
posted b body = record { buffer = b; bytes_should_skip = length body }

-- bytes_should_skip() - nread as a u64, for an nread above 0
pub count_read : ℕ → ℤ → ℕ
count_read skip (pos n) = if ltb 0 n then (skip + 2 ^ 64 - n) % 2 ^ 64 else skip
count_read skip (negsuc n) = skip

pub http_read_data : ℕ → Option Bytes → Input → (Bytes × ℤ) × Input
http_read_data size answer c =
    let r = read_data size answer c.buffer in
    (r.0, record { buffer = r.1; bytes_should_skip = count_read c.bytes_should_skip r.0.1 })

-- The second block of do_parse: whether it goes on to parse, and the connection.
unfoldable pub skip_posted : Input → Bool × Input
skip_posted c =
    if c.bytes_should_skip == 0
    then (true, c)
    else if ltb c.bytes_should_skip c.buffer.size
    then (true, record { buffer = (pop c.buffer c.bytes_should_skip).1; bytes_should_skip = 0 })
    else (
      false,
      record { buffer = clear c.buffer; bytes_should_skip = c.bytes_should_skip - c.buffer.size },
    )
