-- ===== src/Core/Scheduler/Nodes.antt =====
-- Lists of nodes with connections, against a map from descriptors to nodes.
use tube.Common.{
  ℕ, ◌<◌, false, List, [], ◌∷◌, ◌++◌, Option, none, some, ◌==◌, ==_iff, All, All-append, ◌≡◌, ◌≢◌,
  refl, ◌∙◌, subst, arith, Bool-cases, inl, inr,
}
use tube.Utils.FdMap.{deref, unlink}

module _ {C : Type 0} (fd : C → ℕ) where
  abbrev pub Listed : (ℕ → Option ℕ) → List (ℕ × C) → Type 0
  Listed v chain = All (λ e. v (fd e.1) ≡ some e.0) chain

  abbrev pub Apart : List (ℕ × C) → Type 0
  Apart [] = Unit
  Apart (e ∷ t) = All (λ d. d.0 ≢ e.0) t × Apart t

module _ {C : Type 0} where
  pub fresh-unlink :
      (n next : ℕ) (l : List (ℕ × C)) → All (λ e. e.0 < next) l → All (λ e. e.0 < next) (unlink n l)
  unfolding unlink
  fresh-unlink n next [] h = tt
  fresh-unlink n next ((k, w) ∷ l) h = elim (Bool-cases (k == n)) [
    | inl same ↦ rw same h.1
    | inr other ↦ rw other (h.0, fresh-unlink n next l h.1)
  ]

  pub other-unlink :
      (n m : ℕ) (l : List (ℕ × C)) → All (λ e. e.0 ≢ m) l → All (λ e. e.0 ≢ m) (unlink n l)
  unfolding unlink
  other-unlink n m [] h = tt
  other-unlink n m ((k, w) ∷ l) h = elim (Bool-cases (k == n)) [
    | inl same ↦ rw same h.1
    | inr other ↦ rw other (h.0, other-unlink n m l h.1)
  ]

  pub deref-unlink_other : (n m : ℕ) (l : List (ℕ × C)) → n ≢ m → deref m (unlink n l) ≡ deref m l
  unfolding unlink deref
  deref-unlink_other n m [] h = refl
  deref-unlink_other n m ((k, w) ∷ l) h = ground (arith, deref-unlink_other n m l h)

  pub deref-snoc :
      (n m : ℕ) (l : List (ℕ × C)) (c w : C)
      → deref m l ≡ some w
      → deref m (l ++ (n, c) ∷ []) ≡ some w
  unfolding deref
  deref-snoc n m [] c w h = cc
  deref-snoc n m ((k, x) ∷ l) c w h = elim (Bool-cases (k == m)) [
    | inl same ↦ rw same (rw same at h)
    | inr other ↦ rw other (deref-snoc n m l c w (rw other at h))
  ]

  pub deref-snoc_new :
      (n : ℕ) (l : List (ℕ × C)) (c : C)
      → All (λ e. e.0 < n) l
      → deref n (l ++ (n, c) ∷ []) ≡ some c
  unfolding deref
  deref-snoc_new n [] c h = rw ((==_iff n n).1 refl)
  deref-snoc_new n ((k, x) ∷ l) c h = ground (arith, deref-snoc_new n l c h.1)

module _ {C : Type 0} (fd : C → ℕ) where
  pub Apart-unlink : (n : ℕ) (l : List (ℕ × C)) → Apart fd l → Apart fd (unlink n l)
  unfolding unlink
  Apart-unlink n [] h = tt
  Apart-unlink n ((k, w) ∷ l) h = elim (Bool-cases (k == n)) [
    | inl same ↦ rw same h.1
    | inr other ↦ rw other (other-unlink n k l h.0, Apart-unlink n l h.1)
  ]

  pub Apart-snoc :
      (n : ℕ) (l : List (ℕ × C)) (c : C)
      → All (λ e. e.0 < n) l
      → Apart fd l
      → Apart fd (l ++ (n, c) ∷ [])
  Apart-snoc n [] c fresh h = (tt, tt)
  Apart-snoc n ((k, w) ∷ l) c fresh h = (
    All-append (λ d. d.0 ≢ k) l ((n, c) ∷ []) h.0 ((λ e. omega (arith, fresh.0)), tt),
    Apart-snoc n l c fresh.1 h.1,
  )

  -- A descriptor that no node carries may get any entry.
  pub Listed-put :
      (v v' : ℕ → Option ℕ) (f : ℕ) (l : List (ℕ × C))
      → ((j : ℕ) → (j == f) ≡ false → v' j ≡ v j)
      → All (λ e. (fd e.1 == f) ≡ false) l
      → Listed fd v l
      → Listed fd v' l
  Listed-put v v' f [] same away h = tt
  Listed-put v v' f ((k, w) ∷ l) same away h =
      (same (fd w) away.0 ∙ h.0, Listed-put v v' f l same away.1 h.1)

  pub away_free :
      (v : ℕ → Option ℕ) (f : ℕ) (l : List (ℕ × C))
      → v f ≡ none
      → Listed fd v l
      → All (λ e. (fd e.1 == f) ≡ false) l
  away_free v f [] free h = tt
  away_free v f ((k, w) ∷ l) free h = (
    elim (Bool-cases (fd w == f)) [
      | inl same ↦ let there = subst (λ i. v i ≡ some k) ((==_iff (fd w) f).0 same) h.0 in cc
      | inr other ↦ other
    ],
    away_free v f l free h.1,
  )

  pub away_other :
      (v : ℕ → Option ℕ) (f n : ℕ) (l : List (ℕ × C))
      → v f ≡ some n
      → All (λ e. e.0 ≢ n) l
      → Listed fd v l
      → All (λ e. (fd e.1 == f) ≡ false) l
  away_other v f n [] taken apart h = tt
  away_other v f n ((k, w) ∷ l) taken apart h = (
    elim (Bool-cases (fd w == f)) [
      | inl same ↦
          let there = subst (λ i. v i ≡ some k) ((==_iff (fd w) f).0 same) h.0 in
          absurd (apart.0 (ground (arith, there, taken)))
      | inr other ↦ other
    ],
    away_other v f n l taken apart.1 h.1,
  )

  -- After its node is unlinked no connection has the descriptor.
  pub away-unlink :
      (v : ℕ → Option ℕ) (f n : ℕ) (l : List (ℕ × C))
      → v f ≡ some n
      → Apart fd l
      → Listed fd v l
      → All (λ e. (fd e.1 == f) ≡ false) (unlink n l) × Listed fd v (unlink n l)
  unfolding unlink
  away-unlink v f n [] taken apart h = (tt, tt)
  away-unlink v f n ((k, w) ∷ l) taken apart h = elim (Bool-cases (k == n)) [
    | inl same ↦ rw same (
      away_other v f n l taken (subst (λ i. All (λ e. e.0 ≢ i) l) ((==_iff k n).0 same) apart.0)
          h.1,
      h.1,
    )
    | inr other ↦
        let rest = away-unlink v f n l taken apart.1 h.1 in
        let off =
          away_other v f n ((k, w) ∷ []) taken ((λ e. ground (arith, e, other)), tt) (h.0, tt) in
        rw other ((off.0, rest.0), (h.0, rest.1))
  ]
