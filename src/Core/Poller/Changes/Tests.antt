-- ===== src/Core/Poller/Changes/Tests.antt =====
-- A poller with two descriptors, and the theorems on it.
use tube.Common.{ℕ, zero, suc, [], ◌∷◌, none, some, ◌≡◌, refl, arith}
use tube.Utils.FdMap
use tube.Utils.FdMap.{FdMap}
use tube.Utils.FdMap.Laws.{IsValid}

abbrev polled : FdMap ℕ
polled = record {
  max_size = 8;
  items = (0, 70) ∷ (1, 50) ∷ [];
  table = FdMap.put (FdMap.put (λ i. none) 7 (some 0)) 5 (some 1);
  next_node = 2;
}

polled-IsValid : IsValid polled
polled-IsValid = record {
  old = omega arith;
  linked = linked_polled;
  bounded = λ i n p. ground arith;
  distinct = λ i j n p q. ground arith;
}
  where
    linked_polled :
        (i n : ℕ) → polled.table i ≡ some n → (v : ℕ) × (FdMap.deref n polled.items ≡ some v)
    linked_polled i zero p = (70, unfold FdMap.deref in refl)
    linked_polled i (suc zero) p = (50, unfold FdMap.deref in refl)
    linked_polled i (suc (suc n)) p = absurd (ground arith)
