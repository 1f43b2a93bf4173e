-- ===== src/Fcgi/Proto.antt =====
-- modules/mod_fcgi/fcgi_proto.cc: Record and FcgiResponseParser. A byte is a number; the fields of a
-- record are the numbers that its unsigned types hold.
pub mod Records
use tube.Common.{
  ℕ, ◌+◌, ◌-◌, ◌*◌, ◌/◌, ◌%◌, Bytes, Bool, true, false, List, [], ◌∷◌, Option, none, some, ltb,
  ◌==◌, if◌then◌else◌, take, replicate,
}
use tube.Core.Buffer.{Buffer, append, copy_front, copy_front_buffer, pop}

pub record Record : Type 0 where
  pub version : ℕ
  pub kind : ℕ
  pub request_id : ℕ
  pub content_length : ℕ
  pub padding_length : ℕ
  pub reserved : ℕ

-- sizeof(Record)
abbrev pub record_size : ℕ
record_size = 8

abbrev pub fcgi_begin_request : ℕ
fcgi_begin_request = 1

abbrev pub fcgi_params : ℕ
fcgi_params = 4

abbrev pub fcgi_stdin : ℕ
fcgi_stdin = 5

-- Record(unsigned char record_type)
abbrev pub new_record : ℕ → Record
new_record record_type = record {
  version = 1;
  kind = record_type;
  request_id = 1;
  content_length = 0;
  padding_length = 0;
  reserved = 0;
}

-- What append_to_buffer puts into data: the two 16-bit fields with their high byte first.
pub header_bytes : Record → Bytes
header_bytes rec =
    rec.version
    ∷ rec.kind
    ∷ (rec.request_id / 256) % 256
    ∷ rec.request_id % 256
    ∷ (rec.content_length / 256) % 256
    ∷ rec.content_length % 256
    ∷ rec.padding_length
    ∷ rec.reserved
    ∷ []

-- Record(const byte* ptr); of anything but eight bytes the source would read elsewhere.
pub record_of : Bytes → Record
record_of (v ∷ k ∷ r1 ∷ r0 ∷ c1 ∷ c0 ∷ p ∷ res ∷ _) = record {
  version = v;
  kind = k;
  request_id = r1 * 256 + r0;
  content_length = c1 * 256 + c0;
  padding_length = p;
  reserved = res;
}
record_of _ = new_record 0

-- content_length is an unsigned short.
unfoldable pub set_content_length : Record → ℕ → Record
set_content_length rec size =
    let cut = size % 65536 in
    record rec { content_length = cut; padding_length = if cut % 4 == 0 then 0 else 4 - cut % 4 }

unfoldable pub total_length : Record → ℕ
total_length rec = rec.content_length + rec.padding_length

module _ (junk : ℕ) where
  pub append_to_buffer : Record → Buffer → Buffer
  append_to_buffer rec buffer = append junk buffer (header_bytes rec)

  -- The source reads content_length bytes behind ptr; the caller has that many there.
  pub append_to_buffer_content_data : Record → Buffer → Bytes → Buffer
  append_to_buffer_content_data rec buffer ptr =
      let with_content = append junk buffer (take rec.content_length ptr) in
      if rec.content_length == 0
      then buffer
      else if rec.padding_length == 0
      then with_content
      else append junk with_content (replicate rec.padding_length 0)

  -- FcgiResponseParser::copy_content
  pub copy_content : Buffer → Buffer → ℕ → Buffer × Buffer
  copy_content buffer buf size = ((pop buffer size).1, (copy_front_buffer junk buffer buf size).1)

-- FcgiResponseParser::extract_record, after copy_front
pub extract_from : Buffer → Option Bytes → Option Record × Buffer
extract_from buffer none = (none, buffer)
extract_from buffer (some header) =
    if ltb buffer.size (total_length (record_of header))
    then (none, buffer)
    else (some (record_of header), (pop buffer record_size).1)

pub extract_record : Buffer → Option Record × Buffer
extract_record buffer = extract_from buffer (copy_front buffer record_size)

unfoldable pub bypass_content : Buffer → ℕ → Buffer
bypass_content buffer size = (pop buffer size).1
