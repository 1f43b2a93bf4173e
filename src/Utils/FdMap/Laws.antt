-- ===== src/Utils/FdMap/Laws.antt =====
-- The FdMap as a partial map from descriptors to values.
mod Tests
use tube.Common.{
  ℕ, suc, ◌+◌, ◌<◌, ◌≤◌, Bool, true, false, List, [], ◌∷◌, ◌++◌, Option, none, some, ltb, ◌==◌,
  ==_iff, if◌then◌else◌, length, All, ◌≡◌, ◌≢◌, refl, ap, arith, Option-cases, Bool-cases, inl, inr,
  is_none, lt→ltb, not, ◌&&◌, ◌∙◌, subst, sym,
}
use tube.Utils.FdMap.{FdMap, empty, deref, unlink, put, find, erase, insert, size, behind, value_at}
use tube.Utils.FdMap.Nodes.{deref_old, deref_new, deref-unlink_ne, All-snoc, All-unlink}

-- Every entry of the table is in range and a node of the list, no two entries are the same node, and
-- no node is numbered beyond the last one allocated.
pub record IsValid {T : Type 0} (m : FdMap T) : Type 0 where
  pub old : All (λ e. e.0 < m.next_node) m.items
  pub linked : (i node : ℕ) → m.table i ≡ some node → (v : T) × (deref node m.items ≡ some v)
  pub bounded : (i node : ℕ) → m.table i ≡ some node → i < m.max_size
  pub distinct : (i j node : ℕ) → m.table i ≡ some node → m.table j ≡ some node → i ≡ j

module _ {T : Type 0} where
  -- The map after an insertion at a free index.
  inserted : FdMap T → ℕ → T → FdMap T
  inserted m idx v = record m {
    items = m.items ++ (m.next_node, v) ∷ [];
    table = put m.table idx (some m.next_node);
    next_node = suc m.next_node;
  }

  taken_value :
      (m : FdMap T) (idx node : ℕ)
      → IsValid m
      → m.table idx ≡ some node
      → is_none (value_at m idx) ≡ false
  unfolding value_at behind
  taken_value m idx node valid e =
      let found = valid.linked idx node e in rw (e, value_at) (rw found.1)

  free_value : (m : FdMap T) (idx : ℕ) → m.table idx ≡ none → value_at m idx ≡ none
  unfolding value_at behind
  free_value m idx e = rw (e, value_at)

  table_new : (m : FdMap T) (i : ℕ) → IsValid m → m.table i ≢ some m.next_node
  table_new m i valid e =
      let found = valid.linked i m.next_node e in
      absurd (omega (arith, deref_old m.next_node m.next_node m.items found.0 valid.old found.1))

  inserted-IsValid :
      (m : FdMap T) (idx : ℕ) (v : T)
      → IsValid m
      → m.table idx ≡ none
      → idx < m.max_size
      → IsValid (inserted m idx v)
  unfolding inserted
  inserted-IsValid m idx v valid e range = record {
    bounded = λ i node p. ground (arith, valid.bounded i node);
    old = All-snoc m.next_node m.items v valid.old;
    linked = linked_new;
    distinct = λ i j node p q.
        ground (arith, valid.distinct i j node, table_new m i valid, table_new m j valid);
  }
    where
      linked_new :
          (i node : ℕ)
          → put m.table idx (some m.next_node) i ≡ some node
          → (w : T) × (deref node (m.items ++ (m.next_node, v) ∷ []) ≡ some w)
      linked_new i node p = elim (Bool-cases (i == idx)) [
        | inl same ↦
            (v, deref_new m.next_node node m.items v valid.old ∙ ground (arith, rw same at p))
        | inr other ↦
            let found = valid.linked i node (rw other at p) in
            (
              found.0,
              deref_new m.next_node node m.items v valid.old
                  ∙ ground (
                    arith,
                    found.1,
                    deref_old m.next_node node m.items found.0 valid.old found.1,
                  ),
            )
      ]

  value-inserted :
      (m : FdMap T) (idx j : ℕ) (v : T)
      → IsValid m
      → m.table idx ≡ none
      → value_at (inserted m idx v) j ≡ (if j == idx then some v else value_at m j)
  unfolding inserted value_at behind
  value-inserted m idx j v valid e = elim (Bool-cases (j == idx)) [
    | inl same ↦ rw same (deref_new m.next_node m.next_node m.items v valid.old ∙ ground arith)
    | inr other ↦ rw other (kept_value (m.table j) refl)
  ]
    where
      kept_value :
          (o : Option ℕ)
          → m.table j ≡ o
          → behind (m.items ++ (m.next_node, v) ∷ []) o ≡ behind m.items o
      kept_value none t = refl
      kept_value (some node) t =
          let found = valid.linked j node t in
          deref_new m.next_node node m.items v valid.old
          ∙ ground (arith, found.1, deref_old m.next_node node m.items found.0 valid.old found.1)

  -- On an index in range, insertion answers whether the index was free; it stores the value there if
  -- it was, changes no other index, and leaves everything alone if it was not.
  pub insert_lem :
      (m : FdMap T) (idx : ℕ) (v : T)
      → IsValid m
      → idx < m.max_size
      → (m' : FdMap T) × (insert m idx v ≡ some (is_none (value_at m idx), m'))
        × IsValid m'
        × (m'.max_size ≡ m.max_size)
        × ((j : ℕ)
            → value_at m' j
              ≡ (if is_none (value_at m idx) && j == idx then some v else value_at m j))
  unfolding insert
  insert_lem m idx v valid h = elim (Option-cases (m.table idx)) [
    | inl free ↦ (
      inserted m idx v,
      rw (lt→ltb _ _ h, free, free_value m idx free) (unfold inserted in refl),
      inserted-IsValid m idx v valid free h,
      unfold inserted in refl,
      λ j. rw (free_value m idx free) (value-inserted m idx j v valid free),
    )
    | inr (node, taken) ↦ (
      m,
      rw (lt→ltb _ _ h, taken, taken_value m idx node valid taken),
      valid,
      refl,
      λ j. rw (taken_value m idx node valid taken),
    )
  ]

  erased : FdMap T → ℕ → ℕ → FdMap T
  erased m idx node = record m { items = unlink node m.items; table = put m.table idx none }

  erased_linked :
      (m : FdMap T) (idx node i n : ℕ)
      → IsValid m
      → m.table idx ≡ some node
      → (i == idx) ≡ false
      → m.table i ≡ some n
      → deref n (unlink node m.items) ≡ deref n m.items
  erased_linked m idx node i n valid e other t =
      deref-unlink_ne node n m.items (ground (arith, valid.distinct i idx n t))

  erased-IsValid :
      (m : FdMap T) (idx node : ℕ)
      → IsValid m
      → m.table idx ≡ some node
      → IsValid (erased m idx node)
  unfolding erased
  erased-IsValid m idx node valid e = record {
    bounded = λ i n p. ground (arith, valid.bounded i n);
    old = All-unlink m.next_node node m.items valid.old;
    linked = linked_left;
    distinct = λ i j n p q. ground (arith, valid.distinct i j n);
  }
    where
      linked_left :
          (i n : ℕ)
          → put m.table idx none i ≡ some n
          → (w : T) × (deref n (unlink node m.items) ≡ some w)
      linked_left i n p = elim (Bool-cases (i == idx)) [
        | inl same ↦ cc (rw same at p)
        | inr other ↦
            let t = rw other at p in
            let found = valid.linked i n t in
            (found.0, erased_linked m idx node i n valid e other t ∙ found.1)
      ]

  value-erased :
      (m : FdMap T) (idx node j : ℕ)
      → IsValid m
      → m.table idx ≡ some node
      → value_at (erased m idx node) j ≡ (if j == idx then none else value_at m j)
  unfolding erased value_at behind
  value-erased m idx node j valid e = elim (Bool-cases (j == idx)) [
    | inl same ↦ rw same
    | inr other ↦ rw other (kept_value other (m.table j) refl)
  ]
    where
      kept_value :
          (j == idx) ≡ false
          → (o : Option ℕ) → m.table j ≡ o
          → behind (unlink node m.items) o ≡ behind m.items o
      kept_value other none t = refl
      kept_value other (some n) t = erased_linked m idx node j n valid e other t

  -- On an index in range, erasing answers whether a value stood there; afterwards none does, and no
  -- other index changed.
  pub erase_lem :
      (m : FdMap T) (idx : ℕ)
      → IsValid m
      → idx < m.max_size
      → (m' : FdMap T) × (erase m idx ≡ some (not (is_none (value_at m idx)), m'))
        × IsValid m'
        × (m'.max_size ≡ m.max_size)
        × ((j : ℕ) → value_at m' j ≡ (if j == idx then none else value_at m j))
  unfolding erase
  erase_lem m idx valid h = elim (Option-cases (m.table idx)) [
    | inl free ↦
        (m, rw (lt→ltb _ _ h, free, free_value m idx free), valid, refl, λ j. still_free free j)
    | inr (node, taken) ↦ (
      erased m idx node,
      rw (lt→ltb _ _ h, taken, taken_value m idx node valid taken) (unfold erased in refl),
      erased-IsValid m idx node valid taken,
      unfold erased in refl,
      λ j. value-erased m idx node j valid taken,
    )
  ]
    where
      still_free :
          m.table idx ≡ none → (j : ℕ) → value_at m j ≡ (if j == idx then none else value_at m j)
      still_free free j = elim (Bool-cases (j == idx)) [
        | inl same ↦
            rw same (
              subst (λ i. value_at m i ≡ none) (sym ((==_iff j idx).0 same))
                (free_value m idx free))
        | inr other ↦ rw other
      ]

  pub find_lem : (m : FdMap T) (idx : ℕ) → idx < m.max_size → find m idx ≡ some (m.table idx)
  unfolding find
  find_lem m idx h = rw (lt→ltb _ _ h)

  pub value_at-table : (m : FdMap T) (idx : ℕ) → value_at m idx ≡ behind m.items (m.table idx)
  unfolding value_at
  value_at-table m idx = refl

  pub is_none-table :
      (m : FdMap T) (idx : ℕ) → IsValid m → is_none (m.table idx) ≡ is_none (value_at m idx)
  is_none-table m idx valid = elim (Option-cases (m.table idx)) [
    | inl free ↦ rw (free, free_value m idx free)
    | inr (node, taken) ↦ rw (taken, taken_value m idx node valid taken)
  ]

  pub value_at_bounded :
      (m : FdMap T) (idx : ℕ) (v : T) → IsValid m → value_at m idx ≡ some v → idx < m.max_size
  value_at_bounded m idx v valid there = elim (Option-cases (m.table idx)) [
    | inl free ↦ cc (free_value m idx free)
    | inr (node, taken) ↦ valid.bounded idx node taken
  ]
