-- ===== src/Fcgi/Proto/Records/Tests.antt =====
-- A record with two bytes of content, in memory and in a buffer.
use tube.Common.{arith}
use tube.Core.Buffer.{Buffer, append, new_buffer}
use tube.Core.Buffer.Repr.{Holds, new_buffer-Holds}
use tube.Core.Buffer.Append.{append-Holds}
use tube.Fcgi.Proto.{Record, header_bytes}
use tube.Fcgi.Proto.Records.{IsRecord, Extracts, extract_record-Extracts}

abbrev small : Record
small = record {
  version = 1;
  kind = 6;
  request_id = 258;
  content_length = 2;
  padding_length = 2;
  reserved = 0;
}

small-IsRecord : IsRecord small
small-IsRecord = record {
  version_byte = omega arith;
  kind_byte = omega arith;
  request_short = omega arith;
  content_short = omega arith;
  padding_byte = omega arith;
  reserved_byte = omega arith;
}

abbrev only_header : Buffer
only_header = append 0 (new_buffer 0) (header_bytes small)

only_header-Holds : Holds only_header (header_bytes small)
only_header-Holds = append-Holds 0 (header_bytes small) (new_buffer-Holds 0)

extract_record-Extracts_example : Extracts only_header (header_bytes small)
extract_record-Extracts_example = extract_record-Extracts only_header-Holds
