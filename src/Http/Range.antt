-- ===== src/Http/Range.antt =====
-- http/static_handler.cc: parse_range, and the range arithmetic of respond_file_content.
-- An off64_t is read as an unbounded integer: signed overflow is undefined in the source.
pub mod Ends
use tube.Common.{
  ℕ, ◌+◌, ◌-◌, ◌*◌, Bytes, Bool, ◌&&◌, true, false, [], ◌∷◌, ◌==◌, leb, ltb, if◌then◌else◌,
  bytes_eq, codes,
}
use tube.Common.Int.{ℤ, pos, negsuc, ◌+ℤ◌, ◌-ℤ◌, ltb_ℤ, sub_ℕ}

pub record Range : Type 0 where
  pub offset : ℕ
  pub length : ℤ

pub is_digit : ℕ → Bool
is_digit ch = leb b'0' ch && leb ch b'9'

-- First loop: behind the first `=`, or at the end.
pub skip_unit : Bytes → Bytes
skip_unit [] = []
skip_unit (c ∷ r) = let more = skip_unit r in if c == b'=' then r else more

-- Third loop, from the character that stopped the second.
pub end_loop : ℕ → ℕ → ℤ → Bytes → ℤ
end_loop offset end_byte len [] = len
end_loop offset end_byte len (ch ∷ r) =
    let end' = 10 * end_byte + (ch - b'0') in
    let more = end_loop offset end' (sub_ℕ (end' + 1) offset) r in if is_digit ch then more else len

-- Second loop. At `-` it breaks with the index still on it.
pub offset_loop : ℕ → Bytes → Range
offset_loop offset [] = record { offset = offset; length = end_loop offset 0 (negsuc 0) [] }
offset_loop offset (ch ∷ r) =
    let more = offset_loop (10 * offset + (ch - b'0')) r in
    if is_digit ch
    then more
    else if ch == b'-'
    then record { offset = offset; length = end_loop offset 0 (negsuc 0) (ch ∷ r) }
    else record { offset = offset; length = negsuc 0 }

pub parse_range : Bytes → Range
parse_range range_desc = offset_loop 0 (skip_unit range_desc)

-- The part of respond_file_content between find_header_value("Range") and the response headers.
pub data Plan : Type 0 where
  full : ℕ → Plan
  partial : ℕ → ℤ → Plan
  not_satisfiable : Plan

-- (size_t) (offset + length) > file_size, both sides as 64-bit unsigned numbers
pub exceeds : ℤ → ℕ → Bool
exceeds (pos n) file_size = ltb file_size n
exceeds (negsuc n) file_size = true

pub plan_range : Bytes → ℕ → Plan
plan_range range_str file_size =
    if bytes_eq range_str []
    then full file_size
    else (let r = parse_range range_str in
        let len = if ltb_ℤ r.length (pos 0) then sub_ℕ file_size r.offset else r.length in
        if exceeds (pos r.offset +ℤ len) file_size then not_satisfiable else partial r.offset len)
