-- ===== src/Utils/Compare/Case.antt =====
-- ignore_compare against equality after string_to_upper_case.
mod Tests
use tube.Common.{
  ℕ, ◌+◌, ◌<◌, ◌≤◌, Bytes, codes, Bool, true, false, ◌&&◌, ◌||◌, [], ◌∷◌, ◌==◌, ◌≡◌, refl, arith,
  leb, All, bytes_eq, if◌then◌else◌,
}
use tube.Utils.Compare.{chars_match, ignore_compare, to_upper, string_to_upper_case, parse_bool}

abbrev pub is_letter : ℕ → Bool
is_letter c = (leb b'A' c && leb c b'Z') || (leb b'a' c && leb c b'z')

chars_match-letters :
    (a b : ℕ)
    → is_letter a ≡ true
    → is_letter b ≡ true
    → chars_match a b ≡ (to_upper a == to_upper b)
unfolding chars_match to_upper
chars_match-letters a b ha hb = ground arith

-- On strings of letters, ignore_compare is equality of the upper-case strings.
pub ignore_compare-letters :
    (p q : Bytes)
    → All (λ c. is_letter c ≡ true) p
    → All (λ c. is_letter c ≡ true) q
    → ignore_compare p q ≡ bytes_eq (string_to_upper_case p) (string_to_upper_case q)
unfolding ignore_compare string_to_upper_case bytes_eq
ignore_compare-letters [] [] hp hq = refl
ignore_compare-letters [] (b ∷ q) hp hq = refl
ignore_compare-letters (a ∷ p) [] hp hq = refl
ignore_compare-letters (a ∷ p) (b ∷ q) hp hq =
    rw (chars_match-letters a b hp.0 hq.0, ignore_compare-letters p q hp.1 hq.1)

chars_match-eq :
    (a b : ℕ) → a < 256 → b < 256 → (to_upper a == to_upper b) ≡ true → chars_match a b ≡ true
unfolding chars_match to_upper
chars_match-eq a b ha hb h = ground arith

-- Strings of bytes that are equal in upper case compare equal.
pub ignore_compare_of_upper :
    (p q : Bytes)
    → All (λ c. c < 256) p
    → All (λ c. c < 256) q
    → string_to_upper_case p ≡ string_to_upper_case q
    → ignore_compare p q ≡ true
unfolding ignore_compare string_to_upper_case
ignore_compare_of_upper [] [] hp hq h = refl
ignore_compare_of_upper [] (b ∷ q) hp hq h = cc
ignore_compare_of_upper (a ∷ p) [] hp hq h = cc
ignore_compare_of_upper (a ∷ p) (b ∷ q) hp hq h =
    ground (arith, chars_match-eq a b, ignore_compare_of_upper p q)

chars_match_apart : (c : ℕ) → c < 96 → chars_match c (c + 32) ≡ true
unfolding chars_match
chars_match_apart c h = ground arith

chars_match_far : (c : ℕ) → c < 64 → chars_match c (c + 64) ≡ false
unfolding chars_match
chars_match_far c h = ground arith

ignore_compare_refl : (p : Bytes) → ignore_compare p p ≡ true
unfolding ignore_compare chars_match
ignore_compare_refl [] = refl
ignore_compare_refl (a ∷ p) = ground (arith, ignore_compare_refl p)

-- Characters 32 apart compare equal, letters or not, so the comparison is no equivalence: below 64,
-- a character equals the one 32 above it, that one equals the one 64 above, and the first and the
-- last differ.
pub ignore_compare_intransitive :
    (c : ℕ) (p : Bytes)
    → c < 64
    → (ignore_compare (c ∷ p) ((c + 32) ∷ p) ≡ true)
      × (ignore_compare ((c + 32) ∷ p) ((c + 32 + 32) ∷ p) ≡ true)
      × (ignore_compare (c ∷ p) ((c + 64) ∷ p) ≡ false)
unfolding ignore_compare
ignore_compare_intransitive c p h = (
  rw (chars_match_apart c (omega arith)) (ignore_compare_refl p),
  rw (chars_match_apart (c + 32) (omega arith)) (ignore_compare_refl p),
  rw (chars_match_far c h) refl,
)
