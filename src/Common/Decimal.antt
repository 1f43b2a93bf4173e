-- ===== src/Common/Decimal.antt =====
-- Numbers in decimal: the digits that printf writes, and what atoll reads.
use Prim.Native.Nat.{ℕ, zero, suc, ◌+◌, ◌-◌, ◌*◌, ◌/◌, ◌%◌, ◌<◌}
use mathlib.Core.List.{[], ◌∷◌}
use mathlib.Core.Bool.{Bool, true, ◌&&◌, ◌||◌}
use mathlib.Core.Path.{◌≡◌, refl, ap, sym, ◌∙◌}
use mathlib.Core.Logic.{inl, inr}
use native.Mathlib.Omega.{arith}
use tube.Common.Tests.{◌==◌, ltb, leb, if◌then◌else◌, Bool-cases}
use tube.Common.Int.{ℤ, pos, negsuc, ◌-ℤ◌}
use tube.Common.Text.{Bytes}

-- The digits of n in front of a text; fuel above n is enough.
unfoldable pub digits : ℕ → ℕ → Bytes → Bytes
digits zero n acc = acc
digits (suc fuel) n acc =
    let rest = digits fuel (n / 10) ((b'0' + n % 10) ∷ acc) in
    if ltb n 10 then (b'0' + n) ∷ acc else rest

unfoldable pub format_nat : ℕ → Bytes
format_nat n = digits (suc n) n []

-- "%d" and "%lld"
unfoldable pub format_number : ℤ → Bytes
format_number (pos n) = format_nat n
format_number (negsuc n) = b'-' ∷ format_nat (suc n)

abbrev is_digit : ℕ → Bool
is_digit c = leb b'0' c && leb c b'9'

pub read_digits : ℕ → Bytes → ℕ
read_digits v [] = v
read_digits v (c ∷ cs) =
    let rest = read_digits (v * 10 + (c - b'0')) cs in if is_digit c then rest else v

abbrev is_space : ℕ → Bool
is_space c = c == b' ' || (leb 9 c && leb c 13)

-- atoll: blanks, a sign, digits. What does not fit a long long is not defined.
pub atoll : Bytes → ℤ
atoll [] = pos 0
atoll (c ∷ cs) =
    let rest = atoll cs in
    if is_space c
    then rest
    else if c == b'-'
    then pos 0 -ℤ pos (read_digits 0 cs)
    else if c == b'+'
    then pos (read_digits 0 cs)
    else pos (read_digits 0 (c ∷ cs))

digit_step :
    (v d : ℕ) (acc : Bytes)
    → d < 10
    → read_digits v ((b'0' + d) ∷ acc) ≡ read_digits (v * 10 + d) acc
unfolding read_digits
digit_step v d acc lt = rw digit (ap (λ k. read_digits k acc) (omega arith))
  where
    digit : is_digit (b'0' + d) ≡ true
    digit = ground arith

read_digits-digits :
    (fuel n : ℕ) (acc : Bytes) → n < fuel → read_digits 0 (digits fuel n acc) ≡ read_digits n acc
unfolding digits
read_digits-digits zero n acc lt = absurd (omega arith)
read_digits-digits (suc fuel) n acc lt = elim (Bool-cases (ltb n 10)) [
  | inl last ↦
      rw last (digit_step 0 n acc (ground arith) ∙ ap (λ k. read_digits k acc) (omega arith))
  | inr more ↦ rw more (
      read_digits-digits fuel (n / 10) ((b'0' + n % 10) ∷ acc) (ground arith)
      ∙ digit_step (n / 10) (n % 10) acc (omega arith)
      ∙ ap (λ k. read_digits k acc) (omega arith))
]

first_digit :
    (fuel n : ℕ) (acc : Bytes)
    → n < fuel
    → (c : ℕ) × (cs : Bytes) × (digits fuel n acc ≡ c ∷ cs) × (is_digit c ≡ true)
unfolding digits
first_digit zero n acc lt = absurd (omega arith)
first_digit (suc fuel) n acc lt = elim (Bool-cases (ltb n 10)) [
  | inl last ↦ (b'0' + n, acc, rw last refl, ground (arith, last))
  | inr more ↦ rw more (first_digit fuel (n / 10) ((b'0' + n % 10) ∷ acc) (ground arith))
]

-- atoll reads the number back that printf wrote.
pub atoll-format_nat : (n : ℕ) → atoll (format_nat n) ≡ pos n
unfolding format_nat atoll
atoll-format_nat n =
    let (c, cs, eq, digit) = first_digit (suc n) n [] (omega arith) in
    rw eq (
      ground (arith, digit)
      ∙ ap pos (
          ap (read_digits 0) (sym eq)
          ∙ read_digits-digits (suc n) n [] (omega arith)
          ∙ unfold read_digits in refl))
