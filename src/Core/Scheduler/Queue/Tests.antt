-- ===== src/Core/Scheduler/Queue/Tests.antt =====
-- A scheduler with two connections, each the number of its descriptor, and the theorems on it.
use tube.Common.{ℕ, zero, suc, [], ◌∷◌, none, some, length, ◌==◌, ◌≡◌, refl, arith}
use tube.Utils.FdMap
use tube.Utils.FdMap.{FdMap, deref}
use tube.Utils.FdMap.Laws.{IsValid}
use tube.Core.Scheduler.{Scheduler, add_task}
use tube.Core.Scheduler.Conns.{conns, enqueue}
use tube.Core.Scheduler.Queue.{IsLinked, add_task-queue}

abbrev pub fd_of : ℕ → ℕ
fd_of c = c

abbrev entries : FdMap ℕ
entries = record {
  max_size = 8;
  items = (0, 0) ∷ (1, 1) ∷ [];
  table = FdMap.put (FdMap.put (λ i. none) 7 (some 0)) 5 (some 1);
  next_node = 2;
}

entries-IsValid : IsValid entries
entries-IsValid = record {
  old = omega arith;
  linked = linked_entries;
  bounded = λ i n p. ground arith;
  distinct = λ i j n p q. ground arith;
}
  where
    linked_entries :
        (i n : ℕ) → entries.table i ≡ some n → (v : ℕ) × (deref n entries.items ≡ some v)
    linked_entries i zero p = (0, unfold deref in refl)
    linked_entries i (suc zero) p = (1, unfold deref in refl)
    linked_entries i (suc (suc n)) p = absurd (ground arith)

abbrev pub waiting_two : Scheduler ℕ
waiting_two = record {
  list = record { chain = (0, 7) ∷ (1, 5) ∷ []; size_ = 2; next_node = 2 };
  nodes = entries;
}

entries_held :
    (f n : ℕ)
    → FdMap.value_at entries f ≡ some n
    → (c : ℕ) × (deref n waiting_two.list.chain ≡ some c) × (fd_of c ≡ f)
unfolding deref FdMap.value_at FdMap.behind
entries_held f zero h = (7, refl, ground arith)
entries_held f (suc zero) h = (5, refl, ground arith)
entries_held f (suc (suc n)) h = absurd (ground arith)

pub waiting_two-IsLinked : IsLinked fd_of waiting_two
unfolding FdMap.value_at FdMap.behind deref
waiting_two-IsLinked = record {
  valid = entries-IsValid;
  counts = refl;
  links = record {
    fresh = omega arith;
    apart = (((λ e. omega (arith, e)), tt), (tt, tt));
    listed = (refl, (refl, tt));
    held = entries_held;
  };
}

add_task-queue_example :
    (s' : Scheduler ℕ) × (add_task fd_of waiting_two 5 ≡ some (length (conns waiting_two) == 0, s'))
    × IsLinked fd_of s'
    × (s'.nodes.max_size ≡ 8)
    × (conns s' ≡ enqueue fd_of 5 (conns waiting_two))
add_task-queue_example = add_task-queue fd_of waiting_two 5 waiting_two-IsLinked (omega arith)
