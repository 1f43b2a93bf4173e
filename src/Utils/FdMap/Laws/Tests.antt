-- ===== src/Utils/FdMap/Laws/Tests.antt =====
-- A map of two descriptors, and the theorems on it.
use tube.Common.{ℕ, [], ◌∷◌, none, some, ◌≡◌, refl, arith, zero, suc}
use tube.Utils.FdMap.{FdMap, put, deref}
use tube.Utils.FdMap.Laws.{IsValid}

abbrev two : FdMap ℕ
two = record {
  max_size = 8;
  items = (0, 70) ∷ (1, 50) ∷ [];
  table = put (put (λ i. none) 7 (some 0)) 5 (some 1);
  next_node = 2;
}

two-IsValid : IsValid two
two-IsValid = record {
  old = omega arith;
  linked = linked_two;
  bounded = λ i n p. ground arith;
  distinct = λ i j n p q. ground arith;
}
  where
    linked_two : (i n : ℕ) → two.table i ≡ some n → (v : ℕ) × (deref n two.items ≡ some v)
    linked_two i zero p = (70, unfold deref in refl)
    linked_two i (suc zero) p = (50, unfold deref in refl)
    linked_two i (suc (suc n)) p = absurd (ground arith)
