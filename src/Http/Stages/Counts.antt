-- ===== src/Http/Stages/Counts.antt =====
-- How often a connection stands in a list, and in a queue that it enters or leaves.
use tube.Common.{
  ℕ, ◌+◌, true, false, List, [], ◌∷◌, ◌++◌, ◌==◌, ==_iff, if◌then◌else◌, ◌≡◌, refl, ap, arith,
  Bool-cases, inl, inr,
}
use tube.Core.Scheduler.Conns.{enqueue, without, queued}
use tube.Core.Stages.{by_fd}

abbrev pub count : ℕ → List ℕ → ℕ
count c [] = 0
count c (d ∷ l) = (if d == c then 1 else 0) + count c l

pub count-append : (c : ℕ) (xs ys : List ℕ) → count c (xs ++ ys) ≡ count c xs + count c ys
count-append c [] ys = omega arith
count-append c (x ∷ xs) ys = omega (arith, count-append c xs ys)

pub count-middle :
    (c d : ℕ) (xs ys : List ℕ)
    → count c (xs ++ d ∷ ys) ≡ (if d == c then 1 else 0) + count c (xs ++ ys)
count-middle c d xs ys = omega (arith, count-append c xs ys, count-append c xs (d ∷ ys))

pub count-without :
    (c d : ℕ) (q : List ℕ)
    → queued by_fd d q ≡ true
    → count c q ≡ (if d == c then 1 else 0) + count c (without by_fd d q)
count-without c d [] h = cc
count-without c d (x ∷ q) h = elim (Bool-cases (x == d)) [
  | inl same ↦ rw same (rw ((==_iff x d).0 same) refl)
  | inr other ↦ rw other (omega (arith, count-without c d q (rw other at h)))
]

pub not_queued : (d : ℕ) (q : List ℕ) → count d q ≡ 0 → queued by_fd d q ≡ false
not_queued d [] h = refl
not_queued d (x ∷ q) h = elim (Bool-cases (x == d)) [
  | inl same ↦ absurd (ground (arith, h, same))
  | inr other ↦ rw other (not_queued d q (ground (arith, h, other)))
]

pub without_none : (d : ℕ) (q : List ℕ) → count d q ≡ 0 → without by_fd d q ≡ q
without_none d [] h = refl
without_none d (x ∷ q) h = elim (Bool-cases (x == d)) [
  | inl same ↦ absurd (ground (arith, h, same))
  | inr other ↦ rw other (ap (λ t. x ∷ t) (without_none d q (ground (arith, h, other))))
]

pub count-enqueue :
    (c d : ℕ) (q : List ℕ)
    → count d q ≡ 0
    → count c (enqueue by_fd d q) ≡ (if d == c then 1 else 0) + count c q
unfolding enqueue
count-enqueue c d q h = rw (not_queued d q h) (omega (arith, count-append c q (d ∷ [])))
