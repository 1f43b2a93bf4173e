-- ===== src/Utils/NodeList/Size.antt =====
-- size_ against the chain, over each operation of utils/list.h.
use tube.Common.{
  ℕ, suc, ◌+◌, ◌-◌, List, [], ◌∷◌, some, ◌==◌, if◌then◌else◌, length, length-append, ◌≡◌, refl, ap,
  sym, ◌∙◌, arith, Bool-cases, inl, inr,
}
use tube.Utils.FdMap.{deref, unlink}
use tube.Utils.NodeList.{
  NodeList, push_back, push_front, is_empty, pop_front, pop_back, tail, init, erase,
}

abbrev pub Counts : {T : Type 0} → NodeList T → Type 0
Counts l = l.size_ ≡ length l.chain

module _ {T : Type 0} where
  length-unlink :
      (node : ℕ) (chain : List (ℕ × T)) (c : T)
      → deref node chain ≡ some c
      → suc (length (unlink node chain)) ≡ length chain
  unfolding deref unlink
  length-unlink node [] c h = cc
  length-unlink node ((n, v) ∷ chain) c h = elim (Bool-cases (n == node)) [
    | inl same ↦ rw same
    | inr other ↦ rw other (ap suc (length-unlink node chain c (rw other at h)))
  ]

  length-init : (e : ℕ × T) (t : List (ℕ × T)) → length (init (e ∷ t)) ≡ length t
  length-init e [] = refl
  length-init e (d ∷ t) = ap suc (length-init d t)

  length-tail : (chain : List (ℕ × T)) → length (tail chain) ≡ length chain - 1
  length-tail [] = omega arith
  length-tail (e ∷ t) = omega arith

  length-init_le : (chain : List (ℕ × T)) → length (init chain) ≡ length chain - 1
  length-init_le [] = omega arith
  length-init_le (e ∷ t) = length-init e t ∙ (omega arith)

  popped :
      (l : NodeList T) (chain : List (ℕ × T))
      → Counts l
      → length chain ≡ length l.chain - 1
      → Counts (if is_empty l then l else record l { chain = chain; size_ = l.size_ - 1 })
  popped l chain h e = elim (Bool-cases (is_empty l)) [
    | inl full ↦ rw full h
    | inr other ↦ rw other (omega (arith, h, e))
  ]

  -- size_ counts the nodes after each push, pop and erasure of a node that is linked, when it did
  -- before.
  pub size-Counts :
      (l : NodeList T) (obj : T)
      → Counts l
      → Counts (push_back l obj).1
        × Counts (push_front l obj).1
        × Counts (pop_front l)
        × Counts (pop_back l)
        × ((node : ℕ) (c : T) → deref node l.chain ≡ some c → Counts (erase l node))
  unfolding push_back push_front pop_front pop_back erase
  size-Counts l obj h = (
    ap (λ n. n + 1) h ∙ sym (length-append l.chain ((l.next_node, obj) ∷ [])),
    omega (arith, h),
    popped l (tail l.chain) h (length-tail l.chain),
    popped l (init l.chain) h (length-init_le l.chain),
    λ node c e. omega (arith, h, length-unlink node l.chain c e),
  )
