-- ===== src/Utils/Compare.antt =====
-- utils/misc.cc: ignore_compare, string_to_upper_case and parse_bool. A char is signed, as on the
-- platforms of the makefile; toupper is that of the C locale.
pub mod Case
use tube.Common.{
  ℕ, ◌+◌, ◌-◌, ◌%◌, Bytes, codes, Bool, true, false, ◌&&◌, ◌||◌, [], ◌∷◌, ◌==◌, leb, if◌then◌else◌,
}

-- A signed char moved up by 128.
abbrev pub biased : ℕ → ℕ
biased c = (c + 128) % 256

-- abs(p[i] - q[i])
abbrev pub char_distance : ℕ → ℕ → ℕ
char_distance a b = (biased a - biased b) + (biased b - biased a)

unfoldable pub chars_match : ℕ → ℕ → Bool
chars_match a b = a == b || char_distance a b == b'a' - b'A'

-- Lengths first; then the loop over both strings at once.
unfoldable pub ignore_compare : Bytes → Bytes → Bool
ignore_compare [] [] = true
ignore_compare [] (b ∷ q) = false
ignore_compare (a ∷ p) [] = false
ignore_compare (a ∷ p) (b ∷ q) = chars_match a b && ignore_compare p q

pub to_upper : ℕ → ℕ
to_upper c = if leb b'a' c && leb c b'z' then c - 32 else c

pub string_to_upper_case : Bytes → Bytes
string_to_upper_case [] = []
string_to_upper_case (c ∷ s) = to_upper c ∷ string_to_upper_case s

pub parse_bool : Bytes → Bool
parse_bool str = ignore_compare str (codes "on") || ignore_compare str (codes "true")
