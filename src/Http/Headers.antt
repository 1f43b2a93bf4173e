-- ===== src/Http/Headers.antt =====
-- http/http_wrapper.cc: the headers of an HttpRequest. A quality is the text that the source hands to
-- atof, and `none` without one.
pub mod Quality
use tube.Common.{
  ℕ, zero, suc, ◌+◌, ◌-◌, Bytes, codes, bytes_eq, Bool, true, false, List, [], ◌∷◌, ◌++◌, Option,
  none, some, ltb, if◌then◌else◌, length, take, drop, find,
}
use mathlib.Core.Option
use tube.Utils.Compare.{ignore_compare}

pub record HttpHeaderItem : Type 0 where
  pub key : Bytes
  pub value : Bytes

pub has_header : Bytes → List HttpHeaderItem → Bool
has_header key [] = false
has_header key (h ∷ headers) = if bytes_eq h.key key then true else has_header key headers

pub find_header_values : Bytes → List HttpHeaderItem → List Bytes
find_header_values key [] = []
find_header_values key (h ∷ headers) =
    let rest = find_header_values key headers in if bytes_eq h.key key then h.value ∷ rest else rest

pub find_header_value : Bytes → List HttpHeaderItem → Bytes
find_header_value key [] = []
find_header_value key (h ∷ headers) =
    let rest = find_header_value key headers in if ignore_compare h.key key then h.value else rest

pub record HttpHeaderQualityValue : Type 0 where
  pub value : Bytes
  pub quality : Option Bytes

abbrev pub http_quality_indicator : Bytes
http_quality_indicator = codes ";q="

-- str.find(pat, pos)
pub find_from : Bytes → Bytes → ℕ → Option ℕ
find_from pat str pos = Option.map (λ i. pos + i) (find pat (drop pos str))

pub parse_quality_value : Bytes → HttpHeaderQualityValue
parse_quality_value str = parsed (find http_quality_indicator str)
  where
    parsed : Option ℕ → HttpHeaderQualityValue
    parsed none = record { value = str; quality = none }
    parsed (some pos) = record {
      value = take pos str;
      quality = some (drop (pos + length http_quality_indicator) str);
    }

-- The loop, on fuel: the length of the text and one more are enough, since pos grows by 2 at least.
pub quality_loop : ℕ → Bytes → ℕ → List HttpHeaderQualityValue
quality_loop zero str pos = []
quality_loop (suc fuel) str pos = elim (find_from (codes ", ") str pos) [
  | none ↦ if ltb 0 (length str - pos) then parse_quality_value (drop pos str) ∷ [] else []
  | some endpos ↦
      if ltb pos endpos
      then parse_quality_value (take (endpos - pos) (drop pos str))
        ∷ quality_loop fuel str (endpos + 2)
      else quality_loop fuel str (endpos + 2)
]

pub parse_quality_header : Bytes → List HttpHeaderQualityValue
parse_quality_header str = quality_loop (suc (length str)) str 0

pub concat_qualities : List Bytes → List HttpHeaderQualityValue
concat_qualities [] = []
concat_qualities (header ∷ headers) = parse_quality_header header ++ concat_qualities headers

pub find_header_quality_values : Bytes → List HttpHeaderItem → List HttpHeaderQualityValue
find_header_quality_values key headers = concat_qualities (find_header_values key headers)
