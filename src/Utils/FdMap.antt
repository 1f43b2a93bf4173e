-- ===== src/Utils/FdMap.antt =====
-- utils/fdmap.h: a table of list iterators by file descriptor, over the list of the values. A list
-- node is its number, in the order of allocation; the table is a function, and the checked bound of
-- the index is its size.
pub mod Nodes
pub mod Laws
use tube.Common.{
  ℕ, suc, ◌+◌, Bool, true, false, List, [], ◌∷◌, ◌++◌, Option, none, some, ltb, ◌==◌, if◌then◌else◌,
  length,
}

pub record FdMap (T : Type 0) : Type 0 where
  pub max_size : ℕ
  pub items : List (ℕ × T)
  pub table : ℕ → Option ℕ
  pub next_node : ℕ

abbrev pub put : (ℕ → Option ℕ) → ℕ → Option ℕ → ℕ → Option ℕ
put t idx e i = if i == idx then e else t i

module _ {T : Type 0} where
  -- The constructor: every entry is end().
  pub empty : ℕ → FdMap T
  empty max_size = record { max_size = max_size; items = []; table = λ i. none; next_node = 0 }

  -- *it
  unfoldable pub deref : ℕ → List (ℕ × T) → Option T
  deref node [] = none
  deref node ((n, v) ∷ l) = if n == node then some v else deref node l

  unfoldable pub unlink : ℕ → List (ℕ × T) → List (ℕ × T)
  unlink node [] = []
  unlink node ((n, v) ∷ l) = let rest = (n, v) ∷ unlink node l in if n == node then l else rest

  -- find: `none` where the assertion on the index fails, else the iterator, itself `none` for end().
  pub find : FdMap T → ℕ → Option (Option ℕ)
  find m idx = if ltb idx m.max_size then some (m.table idx) else none

  pub erase : FdMap T → ℕ → Option (Bool × FdMap T)
  erase m idx =
      if ltb idx m.max_size
      then some (elim (m.table idx) [
        | none ↦ (false, m)
        | some node ↦ (true, record m { items = unlink node m.items; table = put m.table idx none })
      ])
      else none

  pub insert : FdMap T → ℕ → T → Option (Bool × FdMap T)
  insert m idx value =
      if ltb idx m.max_size
      then some (elim (m.table idx) [
        | none ↦ (
          true,
          record m {
            items = m.items ++ (m.next_node, value) ∷ [];
            table = put m.table idx (some m.next_node);
            next_node = suc m.next_node;
          },
        )
        | some _ ↦ (false, m)
      ])
      else none

  pub size : FdMap T → ℕ
  size m = length m.items

  -- The value behind an iterator, `none` behind end().
  unfoldable pub behind : List (ℕ × T) → Option ℕ → Option T
  behind items none = none
  behind items (some node) = deref node items

  -- The value at an index, through the iterator.
  unfoldable pub value_at : FdMap T → ℕ → Option T
  value_at m idx = behind m.items (m.table idx)
