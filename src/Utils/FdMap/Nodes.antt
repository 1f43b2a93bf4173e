-- ===== src/Utils/FdMap/Nodes.antt =====
-- Lists of numbered nodes: finding, unlinking and adding one.
use tube.Common.{
  ℕ, suc, ◌<◌, false, List, [], ◌∷◌, ◌++◌, some, ◌==◌, if◌then◌else◌, All, ◌≡◌, refl, arith,
}
use tube.Utils.FdMap.{deref, unlink}

module _ {T : Type 0} where
  pub deref_old :
      (n node : ℕ) (l : List (ℕ × T)) (v : T)
      → All (λ e. e.0 < n) l
      → deref node l ≡ some v
      → node < n
  unfolding deref
  deref_old n node [] v old h = cc
  deref_old n node ((k, w) ∷ l) v old h = ground (arith, deref_old n node l v old.1)

  pub deref_new :
      (n node : ℕ) (l : List (ℕ × T)) (v : T)
      → All (λ e. e.0 < n) l
      → deref node (l ++ (n, v) ∷ []) ≡ (if n == node then some v else deref node l)
  unfolding deref
  deref_new n node [] v old = refl
  deref_new n node ((k, w) ∷ l) v old = ground (arith, deref_new n node l v old.1)

  pub deref-unlink_ne :
      (n node : ℕ) (l : List (ℕ × T)) → (n == node) ≡ false → deref node (unlink n l) ≡ deref node l
  unfolding deref unlink
  deref-unlink_ne n node [] h = refl
  deref-unlink_ne n node ((k, w) ∷ l) h = ground (arith, deref-unlink_ne n node l h)

  pub All-snoc :
      (n : ℕ) (l : List (ℕ × T)) (v : T)
      → All (λ e. e.0 < n) l
      → All (λ e. e.0 < suc n) (l ++ (n, v) ∷ [])
  All-snoc n [] v old = (omega arith, tt)
  All-snoc n ((k, w) ∷ l) v old = (omega arith, All-snoc n l v old.1)

  pub All-unlink :
      (n node : ℕ) (l : List (ℕ × T)) → All (λ e. e.0 < n) l → All (λ e. e.0 < n) (unlink node l)
  unfolding unlink
  All-unlink n node [] old = tt
  All-unlink n node ((k, w) ∷ l) old = ground (arith, All-unlink n node l old.1)
