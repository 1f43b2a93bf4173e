-- ===== src/Core/Stream.antt =====
-- core/stream.cc: OutputStream, over the writeables of core/buffer.cc and core/filesender.cc. What the
-- operating system answers to a write is an argument, as in Core/Buffer; memory_usage_ is a 64-bit
-- size_t.
pub mod Pending
pub mod Progress
pub mod Usage
use tube.Common.{
  ℕ, ◌+◌, ◌-◌, ◌%◌, ◌^◌, min, Bytes, Bool, true, false, List, [], ◌∷◌, ◌++◌, Option, none, some,
  ◌==◌, if◌then◌else◌, length, take, drop,
}
use tube.Common.Int.{ℤ, pos, negsuc}
use tube.Core.Buffer.{Buffer, page_size, new_buffer, append, write_to_fd}

-- A FileSender keeps the file that it sends from, as its bytes.
pub data Writeable : Type 0 where
  buffer : Buffer → Writeable
  file_sender : Bytes → ℕ → ℕ → Writeable

unfoldable pub writeable_size : Writeable → ℕ
writeable_size (buffer b) = b.size
writeable_size (file_sender file offset len) = len

unfoldable pub memory_of : Writeable → ℕ
memory_of (buffer b) = b.size
memory_of (file_sender file offset len) = 0

unfoldable pub is_eof : Writeable → Bool
is_eof w = writeable_size w == 0

-- FileSender(file_desc, offset, length), where `none` is a length of -1. A length is the 64-bit number
-- that size() and the comparison in write_to_fd make of length_: below 0 it is at least 2 ^ 63.
pub new_file_sender : Bytes → ℕ → Option ℤ → Writeable
new_file_sender file offset none =
    file_sender file offset ((length file + 2 ^ 64 - offset) % 2 ^ 64)
new_file_sender file offset (some (pos len)) = file_sender file offset (len % 2 ^ 64)
new_file_sender file offset (some (negsuc n)) = file_sender file offset (2 ^ 64 - 1 - n % 2 ^ 64)

-- How many bytes sendfile is asked for.
unfoldable pub should_send : ℕ → ℕ
should_send len = min len page_size

-- write_to_fd of each writeable: the bytes sent, and what is left.
unfoldable pub write_writeable : Option ℕ → Writeable → Bytes × Writeable
write_writeable answer (buffer b) = let r = write_to_fd answer b in (r.0, buffer r.1)
write_writeable none (file_sender file offset len) = ([], file_sender file offset len)
write_writeable (some n) (file_sender file offset len) =
    (take n (drop offset file), file_sender file (offset + n) (len - n))

pub record Stream : Type 0 where
  pub writeables : List Writeable
  pub memory_usage : ℕ

pub empty_stream : Stream
empty_stream = record { writeables = []; memory_usage = 0 }

unfoldable pub is_done : Stream → Bool
is_done s = elim s.writeables [ [] ↦ true | _ ∷ _ ↦ false ]

abbrev pub keep : Writeable → List Writeable → List Writeable
keep w ws = if is_eof w then ws else w ∷ ws

-- After the write: the difference goes off memory_usage_, modulo 2 ^ 64.
unfoldable pub wrote : ℕ → ℕ → List Writeable → Bytes × Writeable → Bytes × Stream
wrote usage mem_use ws (sent, w) = (
  sent,
  record {
    writeables = keep w ws;
    memory_usage = (usage + 2 ^ 64 - (mem_use - memory_of w)) % 2 ^ 64;
  },
)

unfoldable pub write_front : Option ℕ → ℕ → List Writeable → Bytes × Stream
write_front answer usage [] = ([], record { writeables = []; memory_usage = usage })
write_front answer usage (w ∷ ws) = wrote usage (memory_of w) ws (write_writeable answer w)

unfoldable pub write_into_output : Option ℕ → Stream → Bytes × Stream
write_into_output answer s = write_front answer s.memory_usage s.writeables

-- What write_to_fd of a writeable returns: a buffer that holds nothing is not written.
unfoldable pub write_code : Option ℕ → Writeable → ℤ
write_code none (buffer b) = if b.size == 0 then pos 0 else negsuc 0
write_code (some n) (buffer b) = if b.size == 0 then pos 0 else pos n
write_code none (file_sender file offset len) = negsuc 0
write_code (some n) (file_sender file offset len) = pos n

-- What write_into_output returns.
unfoldable pub output_code : Option ℕ → Stream → ℤ
output_code answer s = elim s.writeables [ [] ↦ pos 0 | w ∷ _ ↦ write_code answer w ]

pub append_file : Bytes → ℕ → Option ℤ → Stream → Stream
append_file file offset len s = record s {
  writeables = s.writeables ++ new_file_sender file offset len ∷ [];
}

-- The new Buffer shares the pages of buf; what it holds is the same.
pub append_buffer : Buffer → Stream → Stream
append_buffer buf s = record s { writeables = s.writeables ++ buffer buf ∷ [] }

module _ (junk : ℕ) where
  -- append on the last writeable, and a new buffer behind one that refuses.
  pub append_last : List Writeable → Bytes → List Writeable
  append_last [] bytes = buffer (append junk (new_buffer junk) bytes) ∷ []
  append_last (buffer b ∷ []) bytes = buffer (append junk b bytes) ∷ []
  append_last (file_sender file offset len ∷ []) bytes =
      file_sender file offset len ∷ buffer (append junk (new_buffer junk) bytes) ∷ []
  append_last (w ∷ v ∷ ws) bytes = w ∷ append_last (v ∷ ws) bytes

  pub append_data : Bytes → Stream → Stream
  append_data bytes s = record s {
    writeables = append_last s.writeables bytes;
    memory_usage = (s.memory_usage + length bytes) % 2 ^ 64;
  }
