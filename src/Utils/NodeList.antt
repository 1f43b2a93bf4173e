-- ===== src/Utils/NodeList.antt =====
-- utils/list.h: the doubly linked list with a sentinel. A node is its number, in the order of
-- allocation, so that an iterator to a freed node never reaches a later one; the chain from the
-- sentinel is the list of the nodes with their data. size_ is a field of its own, as in the source.
pub mod Size
use tube.Common.{
  ℕ, suc, ◌+◌, ◌-◌, Bool, List, [], ◌∷◌, ◌++◌, Option, none, some, ◌==◌, if◌then◌else◌,
}
use tube.Utils.FdMap.{unlink}

pub record NodeList (T : Type 0) : Type 0 where
  pub chain : List (ℕ × T)
  pub size_ : ℕ
  pub next_node : ℕ

module _ {T : Type 0} where
  pub clear : NodeList T → NodeList T
  clear l = record l { chain = [] }

  -- begin(): the first node, `none` for the sentinel.
  unfoldable pub begin : NodeList T → Option ℕ
  begin l = elim l.chain [ [] ↦ none | (n, _) ∷ _ ↦ some n ]

  unfoldable pub push_back : NodeList T → T → ℕ × NodeList T
  push_back l obj = (
    l.next_node,
    record {
      chain = l.chain ++ (l.next_node, obj) ∷ [];
      size_ = l.size_ + 1;
      next_node = suc l.next_node;
    },
  )

  unfoldable pub push_front : NodeList T → T → ℕ × NodeList T
  push_front l obj = (
    l.next_node,
    record {
      chain = (l.next_node, obj) ∷ l.chain;
      size_ = l.size_ + 1;
      next_node = suc l.next_node;
    },
  )

  unfoldable pub is_empty : NodeList T → Bool
  is_empty l = l.size_ == 0

  -- The chain without its first node; unlinking the sentinel itself changes no node.
  abbrev pub tail : List (ℕ × T) → List (ℕ × T)
  tail [] = []
  tail (e ∷ t) = t

  unfoldable pub pop_front : NodeList T → NodeList T
  pop_front l = if is_empty l then l else record l { chain = tail l.chain; size_ = l.size_ - 1 }

  abbrev pub init : List (ℕ × T) → List (ℕ × T)
  init [] = []
  init (e ∷ []) = []
  init (e ∷ d ∷ t) = e ∷ init (d ∷ t)

  pub pop_back : NodeList T → NodeList T
  pop_back l = if is_empty l then l else record l { chain = init l.chain; size_ = l.size_ - 1 }

  unfoldable pub erase : NodeList T → ℕ → NodeList T
  erase l node = record l { chain = unlink node l.chain; size_ = l.size_ - 1 }

  -- front(): `none` where it reads the sentinel's data, which is not set.
  unfoldable pub front : NodeList T → Option T
  front l = elim l.chain [ [] ↦ none | (_, c) ∷ _ ↦ some c ]
