-- ===== src/Core/Request.antt =====
-- core/wrapper.cc: Request::read_data, over the buffer of the connection's input. What read() answers
-- is an argument, asked for only when the buffer has fewer bytes than wanted.
pub mod Reads
use tube.Common.{
  ℕ, ◌+◌, ◌-◌, Bytes, Bool, true, false, [], ◌++◌, Option, none, some, ltb, if◌then◌else◌, length,
}
use tube.Common.Int.{ℤ, pos, negsuc, ◌+ℤ◌}
use tube.Core.Buffer.{Buffer, copy_front}

-- nbuffer_read after the first block, and what is then left of sz.
pub from_buffer : ℕ → Buffer → ℕ
from_buffer sz buf = if ltb sz buf.size then sz else buf.size

pub to_read : ℕ → Buffer → ℕ
to_read sz buf = if ltb 0 buf.size then (if ltb sz buf.size then 0 else sz - buf.size) else sz

-- The bytes that copy_front stores; refused, it stores none.
abbrev pub stored : Option Bytes → Bytes
stored none = []
stored (some bytes) = bytes

-- The bytes at ptr after the call to read, and what it answers; `none` is -1.
abbrev pub read_rest : ℕ → Option Bytes → Bytes × ℤ
read_rest left answer = if ltb 0 left then answered answer else ([], pos 0)
  where
    answered : Option Bytes → Bytes × ℤ
    answered none = ([], negsuc 0)
    answered (some bytes) = (bytes, pos (length bytes))

-- What is stored at ptr and the number returned, and the buffer, which is not popped.
pub read_data : ℕ → Option Bytes → Buffer → (Bytes × ℤ) × Buffer
read_data sz answer buf =
    let copied = if ltb 0 buf.size then stored (copy_front buf (from_buffer sz buf)) else [] in
    let nbuffer_read = if ltb 0 buf.size then from_buffer sz buf else 0 in
    let rest = read_rest (to_read sz buf) answer in
    ((copied ++ rest.0, pos nbuffer_read +ℤ rest.1), buf)
