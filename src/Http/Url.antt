-- ===== src/Http/Url.antt =====
-- http/http_wrapper.cc: char_to_hex and http_url_decode.
pub mod Decode
use Prim.Native.Nat.{bit_or}
use tube.Common.{
  ℕ, ◌*◌, ◌%◌, Bytes, codes, strchr, Option, none, some, [], ◌∷◌, ◌==◌, if◌then◌else◌,
}

abbrev pub hex_char : Bytes
hex_char = codes "0123456789ABCDEF"

-- char_to_hex: the pointer difference of the strchr hit, `none` for -1.
pub char_to_hex : ℕ → Option ℕ
unfolding strchr
char_to_hex ch = strchr hex_char ch

-- (p << 4) | q, cut to an unsigned char
pub join_nibbles : ℕ → ℕ → ℕ
join_nibbles p q = bit_or (p * 16) q % 256

-- The three-character window at an index: the decoded byte, `none` for `goto pass`.
pub escape_byte : ℕ → ℕ → ℕ → Option ℕ
unfolding char_to_hex join_nibbles
escape_byte c a b =
    if c == b'%'
    then (elim (char_to_hex a) [
      | none ↦ none
      | some p ↦ elim (char_to_hex b) [ none ↦ none | some q ↦ some (join_nibbles p q) ]
    ])
    else none

pub url_decode : Bytes → Bytes
url_decode [] = []
url_decode (c ∷ []) = c ∷ []
url_decode (c ∷ a ∷ []) = c ∷ url_decode (a ∷ [])
url_decode (c ∷ a ∷ b ∷ rest) = elim (escape_byte c a b) [
  | none ↦ c ∷ url_decode (a ∷ b ∷ rest)
  | some ch ↦ ch ∷ url_decode rest
]
