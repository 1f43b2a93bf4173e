-- ===== src/Core/Controller/Runs/Tests.antt =====
-- A controller under a growing load.
use tube.Common.{[], ◌∷◌, true, ◌≡◌, refl, arith}
use tube.Common.Int.{pos, ◌+ℤ◌}
use tube.Core.Controller.{
  Controller, new_controller, push_history, record_load, refuses, is_loaded, decide,
  check_auto_create, start_thread, check_thread,
}
use tube.Core.Controller.Runs.{load_up, check, IsBounded, run, run-IsBounded}

abbrev busy : Controller
busy = record new_controller {
  load_history = pos 20 ∷ pos 20 ∷ pos 20 ∷ pos 20 ∷ pos 20 ∷ pos 20 ∷ pos 20 ∷ [];
  current_load = pos 20;
}

busy-IsBounded : IsBounded busy
unfolding new_controller
busy-IsBounded = record { history = omega arith; threads = omega arith; reserved = omega arith }

busy_starts : (check_thread 3 busy).0 ≡ true
unfolding new_controller push_history record_load refuses is_loaded decide check_auto_create
    start_thread check_thread ◌+ℤ◌
busy_starts = refl

run-IsBounded_example : IsBounded (run (check 3 ∷ load_up (pos 5) ∷ check 4 ∷ []) busy)
run-IsBounded_example = run-IsBounded (check 3 ∷ load_up (pos 5) ∷ check 4 ∷ []) busy busy-IsBounded
