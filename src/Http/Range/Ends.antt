-- ===== src/Http/Range/Ends.antt =====
-- What parse_range makes of a Range header.
mod Tests
use tube.Common.{
  ℕ, ◌+◌, ◌-◌, ◌*◌, ◌≤◌, ◌<◌, Bytes, Bool, true, false, ◌≡◌, ◌≢◌, refl, arith, [], ◌∷◌, ◌++◌, ◌==◌,
  All, if◌then◌else◌, bytes_eq, Bool-cases, inl, inr, bytes_eq→eq,
}
use tube.Common.Int.{ℤ, pos, negsuc, ◌+ℤ◌, sub_ℕ, ltb_ℤ, ◌≤ℤ◌}
use tube.Http.Range.{
  Range, is_digit, skip_unit, end_loop, offset_loop, parse_range, Plan, full, partial,
  not_satisfiable, exceeds, plan_range,
}

offset_loop-length : (offset : ℕ) (s : Bytes) → (offset_loop offset s).length ≡ negsuc 0
unfolding offset_loop end_loop is_digit
offset_loop-length offset [] = refl
offset_loop-length offset (ch ∷ r) =
    ground (arith, offset_loop-length (10 * offset + (ch - b'0')) r)

-- No Range header gives a length: the end of a range `a-b` is never read, since the third loop
-- starts on the dash.
pub parse_range-length : (range_desc : Bytes) → (parse_range range_desc).length ≡ negsuc 0
unfolding parse_range
parse_range-length s = offset_loop-length 0 (skip_unit s)

-- The number that a run of digits spells, behind the digits read so far.
pub digits_value : ℕ → Bytes → ℕ
digits_value acc [] = acc
digits_value acc (ch ∷ r) = digits_value (10 * acc + (ch - b'0')) r

offset_loop-digits :
    (acc : ℕ) (ds rest : Bytes)
    → All (λ c. is_digit c ≡ true) ds
    → (offset_loop acc (ds ++ b'-' ∷ rest)).offset ≡ digits_value acc ds
unfolding offset_loop digits_value
offset_loop-digits acc [] rest h = unfold is_digit in refl
offset_loop-digits acc (ch ∷ ds) rest h =
    rw h.0 (offset_loop-digits (10 * acc + (ch - b'0')) ds rest h.1)

skip_unit_lem :
    (unit rest : Bytes)
    → All (λ c. (c == b'=') ≡ false) unit
    → skip_unit (unit ++ b'=' ∷ rest) ≡ rest
unfolding skip_unit
skip_unit_lem [] rest h = refl
skip_unit_lem (c ∷ unit) rest h = rw h.0 (skip_unit_lem unit rest h.1)

-- A header `unit=digits-…` gives the offset that its digits spell, whatever the unit.
pub parse_range-offset :
    (unit ds rest : Bytes)
    → All (λ c. (c == b'=') ≡ false) unit
    → All (λ c. is_digit c ≡ true) ds
    → (parse_range (unit ++ b'=' ∷ (ds ++ b'-' ∷ rest))).offset ≡ digits_value 0 ds
unfolding parse_range
parse_range-offset unit ds rest hu hd =
    rw (skip_unit_lem unit (ds ++ b'-' ∷ rest) hu) (offset_loop-digits 0 ds rest hd)

fits_exactly : (o n : ℕ) → exceeds (pos o +ℤ sub_ℕ n o) n ≡ false
unfolding exceeds ◌+ℤ◌
fits_exactly o n = ground arith

-- With any Range header the reply is partial and never 416, and its length is the file's size less
-- the offset: a negative number when the offset lies behind the end of the file.
pub plan_range_partial :
    (range_str : Bytes) (file_size : ℕ)
    → range_str ≢ []
    → plan_range range_str file_size
      ≡ partial (parse_range range_str).offset (sub_ℕ file_size (parse_range range_str).offset)
unfolding plan_range
plan_range_partial s n h = elim (Bool-cases (bytes_eq s [])) [
  | inl empty ↦ absurd (h (bytes_eq→eq s [] empty))
  | inr given ↦ rw (given, parse_range-length s) (rw (fits_exactly (parse_range s).offset n))
]
