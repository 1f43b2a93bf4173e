-- ===== src/Common/Slots.antt =====
-- Lists as slots: writes by index, and how many slots satisfy a test.
use Prim.Native.Nat.{ℕ, zero, suc, ◌+◌, ◌≤◌, ◌<◌}
use mathlib.Core.Path.{◌≡◌, refl, ap}
use mathlib.Core.Logic.{◌≢◌}
use mathlib.Core.Bool.{Bool, true}
use mathlib.Core.List.{List, [], ◌∷◌}
use mathlib.Core.Option.{some}
use native.Mathlib.Omega.{arith}
use tube.Common.Tests.{if◌then◌else◌}
use tube.Common.Lists.{get_elem?}

module _ {ℓ} {A : Type ℓ} where
  -- A write out of bounds changes nothing.
  abbrev pub set : List A → ℕ → A → List A
  set [] i v = []
  set (x ∷ xs) zero v = v ∷ xs
  set (x ∷ xs) (suc i) v = x ∷ set xs i v

  abbrev pub count_if : (A → Bool) → List A → ℕ
  count_if p [] = 0
  count_if p (x ∷ xs) = (if p x then 1 else 0) + count_if p xs

  pub get_elem?-set_self :
      (xs : List A) (i : ℕ) (v w : A) → get_elem? xs i ≡ some w → get_elem? (set xs i v) i ≡ some v
  get_elem?-set_self [] i v w h = cc
  get_elem?-set_self (x ∷ xs) zero v w h = refl
  get_elem?-set_self (x ∷ xs) (suc i) v w h = get_elem?-set_self xs i v w h

  pub get_elem?-set_ne :
      (xs : List A) (i j : ℕ) (v : A) → i ≢ j → get_elem? (set xs i v) j ≡ get_elem? xs j
  get_elem?-set_ne [] i j v h = refl
  get_elem?-set_ne (x ∷ xs) zero zero v h = absurd (h refl)
  get_elem?-set_ne (x ∷ xs) zero (suc j) v h = refl
  get_elem?-set_ne (x ∷ xs) (suc i) zero v h = refl
  get_elem?-set_ne (x ∷ xs) (suc i) (suc j) v h = get_elem?-set_ne xs i j v (λ e. h (ap suc e))

  pub count_if_pos :
      (p : A → Bool) (xs : List A) (i : ℕ) (x : A)
      → get_elem? xs i ≡ some x
      → p x ≡ true
      → 0 < count_if p xs
  count_if_pos p [] i x h q = cc
  count_if_pos p (y ∷ xs) zero x h q = ground arith
  count_if_pos p (y ∷ xs) (suc i) x h q = omega (arith, count_if_pos p xs i x h q)

  -- Where at most one slot satisfies the test, two that do are the same.
  pub count_if_one :
      (p : A → Bool) (xs : List A) (i j : ℕ) (x y : A)
      → count_if p xs ≤ 1
      → get_elem? xs i ≡ some x
      → p x ≡ true
      → get_elem? xs j ≡ some y
      → p y ≡ true
      → i ≡ j
  count_if_one p [] i j x y one hx px hy py = cc
  count_if_one p (z ∷ xs) zero zero x y one hx px hy py = refl
  count_if_one p (z ∷ xs) zero (suc j) x y one hx px hy py =
      absurd (ground (arith, count_if_pos p xs j y hy py))
  count_if_one p (z ∷ xs) (suc i) zero x y one hx px hy py =
      absurd (ground (arith, count_if_pos p xs i x hx px))
  count_if_one p (z ∷ xs) (suc i) (suc j) x y one hx px hy py =
      ap suc (count_if_one p xs i j x y (omega arith) hx px hy py)
