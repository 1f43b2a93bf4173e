-- ===== src/Core/Scheduler/Picks/Tests.antt =====
-- Picks from a scheduler with two connections of which the first is locked.
use tube.Common.{ℕ, Bool, [], ◌∷◌, ◌==◌, not}
use tube.Core.Scheduler.{timed_out, pick_task_lock_connection}
use tube.Core.Scheduler.Conns.{conns}
use tube.Core.Scheduler.Queue.Tests.{fd_of, waiting_two, waiting_two-IsLinked}
use tube.Core.Scheduler.Picks.{TakesOr, lockable, resumed, pick_task_lock_connection-takes}

abbrev not_seven : ℕ → Bool
not_seven c = not (c == 7)

pick_task_lock_connection-takes_example :
    TakesOr fd_of
      (pick_task_lock_connection fd_of ((timed_out, not_seven) ∷ []) not_seven waiting_two)
      (lockable fd_of not_seven (conns waiting_two))
      (resumed fd_of ((timed_out, not_seven) ∷ []))
pick_task_lock_connection-takes_example =
    pick_task_lock_connection-takes fd_of waiting_two waiting_two-IsLinked
      ((timed_out, not_seven) ∷ []) not_seven
