-- ===== src/Core/Timer/Order.antt =====
-- The key order is a strict total order, and what it means for a tree to be in order.
use tube.Common.{true, false, List, [], ◌∷◌, ◌≡◌, arith}
use tube.Core.Timer.{TimerKey, key_lt, key_eq, insert, erase}

abbrev pub Lt : TimerKey → TimerKey → Type 0
Lt a b = key_lt a b ≡ true

-- The key order compares units first and contexts second: it is transitive, irreflexive, and of two
-- keys neither of which is less both fields are equal.
pub key_lt_order :
    (a b c : TimerKey)
    → (Lt a b → Lt b c → Lt a c)
      × (key_lt a a ≡ false)
      × (key_lt a b ≡ false → key_lt b a ≡ false → a ≡ b)
unfolding key_lt
key_lt_order a b c = (λ p q. ground arith, ground arith, λ p q. ground arith)

pub key_eq-eq : (a b : TimerKey) → key_eq a b ≡ true → a ≡ b
unfolding key_eq
key_eq-eq a b h = ground arith

pub key_eq_refl : (a : TimerKey) → key_eq a a ≡ true
unfolding key_eq
key_eq_refl a = ground arith

pub Lt-ne : (a b : TimerKey) → Lt a b → key_eq a b ≡ false
unfolding key_lt key_eq
Lt-ne a b h = ground arith

pub Lt-asym : (a b : TimerKey) → Lt a b → key_lt b a ≡ false
unfolding key_lt
Lt-asym a b h = ground arith

module _ {C : Type 0} where
  abbrev pub After : TimerKey → List (TimerKey × C) → Type 0
  After k [] = Unit {0}
  After k ((j, c) ∷ t) = Lt k j × After k t

  abbrev pub IsSorted : List (TimerKey × C) → Type 0
  IsSorted [] = Unit {0}
  IsSorted ((k, c) ∷ t) = After k t × IsSorted t

  pub After-trans : (a b : TimerKey) (t : List (TimerKey × C)) → Lt a b → After b t → After a t
  After-trans a b [] h af = tt
  After-trans a b ((j, c) ∷ t) h af = ((key_lt_order a b j).0 h af.0, After-trans a b t h af.1)

  After-insert :
      (a k : TimerKey) (c : C) (t : List (TimerKey × C))
      → Lt a k
      → After a t
      → After a (insert k c t)
  unfolding insert
  After-insert a k c [] h af = (h, tt)
  After-insert a k c ((j, d) ∷ t) h af = ground (arith, After-insert a k c t h af.1)

  pub insert-IsSorted :
      (k : TimerKey) (c : C) (t : List (TimerKey × C)) → IsSorted t → IsSorted (insert k c t)
  unfolding insert
  insert-IsSorted k c [] s = (tt, tt)
  insert-IsSorted k c ((j, d) ∷ t) s =
      ground (arith, insert-IsSorted k c t s.1, After-insert j k c t, After-trans k j t)

  pub After-erase : (a k : TimerKey) (t : List (TimerKey × C)) → After a t → After a (erase k t)
  unfolding erase
  After-erase a k [] af = tt
  After-erase a k ((j, c) ∷ t) af = ground (arith, After-erase a k t af.1)

  pub erase-IsSorted : (k : TimerKey) (t : List (TimerKey × C)) → IsSorted t → IsSorted (erase k t)
  unfolding erase
  erase-IsSorted k [] s = tt
  erase-IsSorted k ((j, c) ∷ t) s = ground (arith, erase-IsSorted k t s.1, After-erase j k t)
