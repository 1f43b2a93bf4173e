-- ===== src/Core/Timer/Tests.antt =====
-- Runs of the timer, and its theorems at concrete trees.
use tube.Common.{ℕ, ◌+◌, Bool, List, [], ◌∷◌, ◌≡◌, refl, arith, not, ◌==◌}
use tube.Core.Timer.{TimerKey, key_lt, key_eq, process_callbacks, scan, erase_all, erase}
use tube.Core.Timer.Order.{IsSorted}
use tube.Core.Timer.Process.{survivors, process_callbacks-survivors}

abbrev key : ℕ → ℕ → TimerKey
key u c = record { unit = u; ctx = c }

abbrev tree : List (TimerKey × ℕ)
tree = (key 3 9, 1) ∷ (key 4 1, 0) ∷ (key 7 2, 1) ∷ []

-- A callback that counts its calls and is done with if it is not 0.
abbrev count_call : ℕ → ℕ → ℕ → Bool × ℕ
count_call c ctx calls = (not (c == 0), calls + 1)

tree-IsSorted : IsSorted tree
unfolding key_lt
tree-IsSorted = ground arith

runs_due : process_callbacks count_call 5 tree 0 ≡ ((key 4 1, 0) ∷ (key 7 2, 1) ∷ [], 2)
unfolding process_callbacks scan erase_all erase key_eq
runs_due = refl

process_callbacks-survivors_example :
    process_callbacks count_call 5 tree 0 ≡ survivors count_call 5 tree 0
process_callbacks-survivors_example = process_callbacks-survivors count_call 5 tree 0 tree-IsSorted
