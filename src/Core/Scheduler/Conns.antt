-- ===== src/Core/Scheduler/Conns.antt =====
-- The connections of a list of nodes, and what add_task and remove_task are to do to them.
use tube.Common.{
  ℕ, suc, Bool, true, false, List, [], ◌∷◌, ◌++◌, Option, none, some, ◌==◌, ==_iff, if◌then◌else◌,
  length, ◌≡◌, refl, ap, sym, subst, arith, Bool-cases, inl, inr,
}
use tube.Utils.FdMap.{deref, unlink}
use tube.Core.Scheduler.{Scheduler}
use tube.Core.Scheduler.Nodes.{Listed}

abbrev pub conns_of : {C : Type 0} → List (ℕ × C) → List C
conns_of [] = []
conns_of ((n, c) ∷ t) = c ∷ conns_of t

-- The queue that a scheduler stands for.
unfoldable pub conns : {C : Type 0} → Scheduler C → List C
conns s = conns_of s.list.chain

module _ {C : Type 0} (fd : C → ℕ) where
  abbrev pub queued : ℕ → List C → Bool
  queued f [] = false
  queued f (c ∷ q) = if fd c == f then true else queued f q

  abbrev pub without : ℕ → List C → List C
  without f [] = []
  without f (c ∷ q) = if fd c == f then q else c ∷ without f q

  -- What add_task does to the queue.
  unfoldable pub enqueue : C → List C → List C
  enqueue c q = if queued (fd c) q then c ∷ without (fd c) q else q ++ c ∷ []

module _ {C : Type 0} (fd : C → ℕ) where
  pub conns-snoc :
      (l : List (ℕ × C)) (n : ℕ) (c : C) → conns_of (l ++ (n, c) ∷ []) ≡ conns_of l ++ c ∷ []
  conns-snoc [] n c = refl
  conns-snoc ((k, w) ∷ l) n c = ap (λ t. w ∷ t) (conns-snoc l n c)

  pub length-conns_of : (l : List (ℕ × C)) → length (conns_of l) ≡ length l
  length-conns_of [] = refl
  length-conns_of ((k, w) ∷ l) = ap suc (length-conns_of l)

  pub queued_free :
      (v : ℕ → Option ℕ) (f : ℕ) (l : List (ℕ × C))
      → v f ≡ none
      → Listed fd v l
      → queued fd f (conns_of l) ≡ false
  queued_free v f [] free h = refl
  queued_free v f ((k, w) ∷ l) free h = elim (Bool-cases (fd w == f)) [
    | inl same ↦ let there = subst (λ i. v i ≡ some k) ((==_iff (fd w) f).0 same) h.0 in cc
    | inr other ↦ rw other (queued_free v f l free h.1)
  ]

  pub without_free : (f : ℕ) (q : List C) → queued fd f q ≡ false → without fd f q ≡ q
  without_free f [] h = refl
  without_free f (c ∷ q) h = elim (Bool-cases (fd c == f)) [
    | inl same ↦ cc (rw same at h)
    | inr other ↦ rw other (ap (λ t. c ∷ t) (without_free f q (rw other at h)))
  ]

  pub conns-unlink :
      (v : ℕ → Option ℕ) (f n : ℕ) (l : List (ℕ × C))
      → v f ≡ some n
      → ((g : ℕ) → v g ≡ some n → g ≡ f)
      → Listed fd v l
      → conns_of (unlink n l) ≡ without fd f (conns_of l)
  unfolding unlink
  conns-unlink v f n [] taken only h = refl
  conns-unlink v f n ((k, w) ∷ l) taken only h = elim (Bool-cases (k == n)) [
    | inl same ↦
        let here = only (fd w) (subst (λ i. v (fd w) ≡ some i) ((==_iff k n).0 same) h.0) in
        rw (same, (==_iff (fd w) f).1 here)
    | inr other ↦ rw (other, differs other) (ap (λ t. w ∷ t) (conns-unlink v f n l taken only h.1))
  ]
    where
      differs : (k == n) ≡ false → (fd w == f) ≡ false
      differs other = elim (Bool-cases (fd w == f)) [
        | inl same ↦
            let there = subst (λ i. v i ≡ some k) ((==_iff (fd w) f).0 same) h.0 in
            absurd (ground (arith, there, taken, other))
        | inr differ ↦ differ
      ]

  pub queued_taken :
      (v : ℕ → Option ℕ) (n : ℕ) (l : List (ℕ × C)) (c : C)
      → deref n l ≡ some c
      → queued fd (fd c) (conns_of l) ≡ true
  unfolding deref
  queued_taken v n [] c h = cc
  queued_taken v n ((k, w) ∷ l) c h = elim (Bool-cases (k == n)) [
    | inl same ↦
        rw (subst (λ x. (fd x == fd c) ≡ true) (sym (w_is_c same)) ((==_iff (fd c) (fd c)).1 refl))
    | inr other ↦ elim (Bool-cases (fd w == fd c)) [
      | inl same ↦ rw same
      | inr differ ↦ rw differ (queued_taken v n l c (rw other at h))
    ]
  ]
    where
      w_is_c : (k == n) ≡ true → w ≡ c
      w_is_c same = let here = rw same at h in ground (arith, here)
