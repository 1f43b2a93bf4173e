-- ===== src/Http/Url/Decode.antt =====
-- url_decode against percent-encoding.
mod Tests
use Prim.Native.Nat.{bit_or}
use tube.Common.{
  ℕ, zero, suc, ◌+◌, ◌*◌, ◌/◌, ◌%◌, ◌≤◌, ◌<◌, Bytes, strchr, Option, none, some, [], ◌∷◌, ◌++◌,
  ◌==◌, if◌then◌else◌, ◌≡◌, ◌⊎◌, refl, ap, Bool, true, false, ◌&&◌, arith, length, All, ==_iff, ltb,
  Bool-cases, inl, inr, subst, sym,
}
use tube.Http.Url.{hex_char, char_to_hex, join_nibbles, escape_byte, url_decode}

-- The digit that stands for a nibble.
abbrev pub hex_digit : ℕ → ℕ
hex_digit n = if ltb n 10 then 48 + n else 55 + n

-- A percent-encoder that keeps the bytes of its choice.
pub url_encode : (ℕ → Bool) → Bytes → Bytes
url_encode keep [] = []
url_encode keep (c ∷ s) =
    let rest = url_encode keep s in
    if keep c then c ∷ rest else b'%' ∷ hex_digit (c / 16) ∷ hex_digit (c % 16) ∷ rest

eq_some : Option ℕ → ℕ → Bool
eq_some none n = false
eq_some (some m) n = m == n

eq_some_sound : (o : Option ℕ) (n : ℕ) → eq_some o n ≡ true → o ≡ some n
unfolding eq_some
eq_some_sound none n h = cc
eq_some_sound (some m) n h = ground arith

-- Over all byte values, the encoder's window decodes to its byte.
-- Whether each byte under a bound comes back from its two digits.
round_trips : ℕ → Bool
round_trips zero = true
round_trips (suc n) =
    let rest = round_trips n in
    if eq_some (escape_byte b'%' (hex_digit (n / 16)) (hex_digit (n % 16))) n then rest else false

every_byte : round_trips 256 ≡ true
unfolding round_trips eq_some escape_byte
every_byte = refl

escape-round_trips :
    (bound c : ℕ)
    → round_trips bound ≡ true
    → c < bound
    → escape_byte b'%' (hex_digit (c / 16)) (hex_digit (c % 16)) ≡ some c
unfolding round_trips
escape-round_trips zero c checked below = absurd (omega arith)
escape-round_trips (suc n) c checked below =
    elim (Bool-cases (eq_some (escape_byte b'%' (hex_digit (n / 16)) (hex_digit (n % 16))) n)) [
      | inr fails ↦ cc (rw fails at checked)
      | inl comes_back ↦ elim (Bool-cases (c == n)) [
        | inl same ↦
            subst (λ m. escape_byte b'%' (hex_digit (m / 16)) (hex_digit (m % 16)) ≡ some m)
              (sym ((==_iff c n).0 same)) (eq_some_sound _ n comes_back)
        | inr other ↦ escape-round_trips n c (rw comes_back at checked) (ground arith)
      ]
    ]

escape-hex_digit :
    (c : ℕ) → c < 256 → escape_byte b'%' (hex_digit (c / 16)) (hex_digit (c % 16)) ≡ some c
escape-hex_digit c h = escape-round_trips 256 c every_byte h

escape_ne : (c a b : ℕ) → (c == b'%') ≡ false → escape_byte c a b ≡ none
unfolding escape_byte
escape_ne c a b h = rw h

pub url_decode_plain :
    (c : ℕ) (s : Bytes) → (c == b'%') ≡ false → url_decode (c ∷ s) ≡ c ∷ url_decode s
unfolding url_decode
url_decode_plain c [] h = refl
url_decode_plain c (a ∷ []) h = refl
url_decode_plain c (a ∷ b ∷ s) h = rw (escape_ne c a b h, url_decode)

url_decode_escape :
    (a b v : ℕ) (s : Bytes)
    → escape_byte b'%' a b ≡ some v
    → url_decode (b'%' ∷ a ∷ b ∷ s) ≡ v ∷ url_decode s
unfolding url_decode
url_decode_escape a b v s h = rw (h, url_decode)

-- Decoding inverts percent-encoding: whichever bytes the encoder keeps as they are, as long as `%`
-- is not one of them, an encoded byte string followed by any text decodes to the string followed
-- by the decoded text.
pub url_decode-url_encode :
    (keep : ℕ → Bool) (s rest : Bytes)
    → keep b'%' ≡ false
    → All (λ c. c < 256) s
    → url_decode (url_encode keep s ++ rest) ≡ s ++ url_decode rest
unfolding url_encode
url_decode-url_encode keep [] rest k h = refl
url_decode-url_encode keep (c ∷ s) rest k h = elim (Bool-cases (keep c)) [
  | inl kept ↦ rw kept (
      rw (url_decode_plain c (url_encode keep s ++ rest) (plain kept))
        (ap (λ t. c ∷ t) (url_decode-url_encode keep s rest k h.1)))
  | inr esc ↦ rw esc (
      rw (url_decode_escape _ _ c (url_encode keep s ++ rest) (escape-hex_digit c h.0))
        (ap (λ t. c ∷ t) (url_decode-url_encode keep s rest k h.1)))
]
  where
    plain : keep c ≡ true → (c == b'%') ≡ false
    plain e = elim (Bool-cases (c == b'%')) [
      | inl hit ↦ cc (ap keep ((==_iff c b'%').0 hit))
      | inr miss ↦ miss
    ]

-- Decoding never makes a string longer.
pub length-url_decode : (s : Bytes) → length (url_decode s) ≤ length s
unfolding url_decode
length-url_decode [] = omega arith
length-url_decode (c ∷ []) = omega arith
length-url_decode (c ∷ a ∷ []) = omega arith
length-url_decode (c ∷ a ∷ b ∷ s) =
    ground (arith, length-url_decode (a ∷ b ∷ s), length-url_decode s)

char_to_hex_lower : (a : ℕ) → b'a' ≤ a → char_to_hex a ≡ none
unfolding char_to_hex
char_to_hex_lower a h = ground arith

escape_lower : (a b : ℕ) → (b'a' ≤ a) ⊎ (b'a' ≤ b) → escape_byte b'%' a b ≡ none
unfolding escape_byte
escape_lower a b (inl h) = rw (char_to_hex_lower a h)
escape_lower a b (inr h) = ground (arith, char_to_hex_lower b h)

-- An escape with a lower-case letter among its two digits, or any other byte from `a` on, is not
-- decoded: the percent sign stays, and decoding goes on behind it.
pub url_decode_lower :
    (a b : ℕ) (s : Bytes)
    → (b'a' ≤ a) ⊎ (b'a' ≤ b)
    → url_decode (b'%' ∷ a ∷ b ∷ s) ≡ b'%' ∷ url_decode (a ∷ b ∷ s)
unfolding url_decode
url_decode_lower a b s h = rw (escape_lower a b h, url_decode)

-- A zero byte counts as a digit of value sixteen: two of them after a percent sign decode to a byte
-- of value sixteen.
pub url_decode_zero : (s : Bytes) → url_decode (b'%' ∷ 0 ∷ 0 ∷ s) ≡ 16 ∷ url_decode s
url_decode_zero s = url_decode_escape 0 0 16 s (unfold escape_byte in refl)
