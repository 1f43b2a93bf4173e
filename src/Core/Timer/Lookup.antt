-- ===== src/Core/Timer/Lookup.antt =====
-- set, replace, remove and query as operations on a partial map.
use tube.Common.{
  true, List, [], ◌∷◌, ◌≡◌, inl, inr, refl, subst, not, arith, Option-cases, Bool-cases, is_none,
  if◌then◌else◌, none, some,
}
use tube.Core.Timer.{TimerKey, key_lt, key_eq, find, insert, erase, set, replace, remove, query}
use tube.Core.Timer.Order.{
  After, IsSorted, key_eq-eq, Lt-asym, insert-IsSorted, erase-IsSorted, After-trans,
}

module _ {C : Type 0} where
  find-After : (k : TimerKey) (t : List (TimerKey × C)) → After k t → find k t ≡ none
  unfolding find
  find-After k [] af = refl
  find-After k ((j, c) ∷ t) af = ground (arith, Lt-asym k j af.0)

  find-insert :
      (k j : TimerKey) (c : C) (t : List (TimerKey × C))
      → find k t ≡ none
      → find j (insert k c t) ≡ (if key_eq k j then some c else find j t)
  unfolding find insert key_lt key_eq
  find-insert k j c [] h = ground arith
  find-insert k j c ((i, e) ∷ t) h = ground (arith, find-insert k j c t)

  before_none :
      (j i : TimerKey) (t : List (TimerKey × C)) → After i t → key_lt j i ≡ true → find j t ≡ none
  before_none j i t af h = find-After j t (After-trans j i t h af)

  same_none :
      (j i : TimerKey) (t : List (TimerKey × C)) → After i t → key_eq i j ≡ true → find j t ≡ none
  same_none j i t af h = find-After j t (subst (λ k. After k t) (key_eq-eq i j h) af)

  pub find-erase :
      (k j : TimerKey) (t : List (TimerKey × C))
      → IsSorted t
      → find j (erase k t) ≡ (if key_eq k j then none else find j t)
  unfolding find erase key_lt key_eq
  find-erase k j [] s = ground arith
  find-erase k j ((i, e) ∷ t) s =
      ground (arith, find-erase k j t s.1, before_none j i t s.0, same_none j i t s.0)

  -- Scheduling answers whether the key was free; it then answers the new callback at its key, and
  -- changes no other. At a key that is taken it changes nothing.
  pub set_lem :
      (t : List (TimerKey × C)) (k j : TimerKey) (c : C)
      → IsSorted t
      → IsSorted (set t k c).1
        × ((set t k c).0 ≡ is_none (query t k))
        × (query (set t k c).1 j
            ≡ (if (set t k c).0 then (if key_eq k j then some c else query t j) else query t j))
  unfolding set query
  set_lem t k j c s = elim (Option-cases (find k t)) [
    | inl free ↦ rw (free, set, query) (insert-IsSorted k c t s, refl, find-insert k j c t free)
    | inr (d, taken) ↦ rw (taken, set) (s, refl, refl)
  ]

  -- replace keeps the callback of a key that is scheduled already: the new one is dropped.
  pub replace_taken :
      (t : List (TimerKey × C)) (k : TimerKey) (c d : C) → query t k ≡ some d → replace t k c ≡ t
  unfolding query replace find insert
  replace_taken [] k c d h = cc
  replace_taken ((j, e) ∷ t) k c d h = ground (arith, replace_taken t k c d)

  -- Removing answers whether the key was scheduled; afterwards it is not, and no other key changed.
  pub remove_lem :
      (t : List (TimerKey × C)) (k j : TimerKey)
      → IsSorted t
      → IsSorted (remove t k).1
        × ((remove t k).0 ≡ not (is_none (query t k)))
        × (query (remove t k).1 j ≡ (if key_eq k j then none else query t j))
  unfolding remove query
  remove_lem t k j s = elim (Option-cases (find k t)) [
    | inl free ↦ rw (free, remove) (s, refl, free_stays free)
    | inr (d, taken) ↦ rw (taken, remove) (erase-IsSorted k t s, refl, find-erase k j t s)
  ]
    where
      free_stays : find k t ≡ none → find j t ≡ (if key_eq k j then none else find j t)
      free_stays free = elim (Bool-cases (key_eq k j)) [
        | inl same ↦ rw same (subst (λ i. find i t ≡ none) (key_eq-eq k j same) free)
        | inr other ↦ rw other
      ]
