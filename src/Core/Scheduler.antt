-- ===== src/Core/Scheduler.antt =====
-- core/pipeline.cc: QueueScheduler. A connection is any value with a descriptor; what happens while a
-- thread waits on the condition variable is an argument, one wake for each wait. An operation is
-- `none` where the assertion on a descriptor fails.
pub mod Nodes
pub mod Linked
pub mod Conns
pub mod Queue
pub mod Picks
use tube.Common.{ℕ, Bool, true, false, List, [], ◌∷◌, Option, none, some, if◌then◌else◌}
use tube.Utils.FdMap
use tube.Utils.FdMap.{FdMap}
use tube.Utils.NodeList
use tube.Utils.NodeList.{NodeList}
use tube.Core.Poller.{◌>>=◌}

pub record Scheduler (C : Type 0) : Type 0 where
  pub list : NodeList C
  pub nodes : FdMap ℕ

-- How auto_wait ends: an automatically created thread times out, or the thread is woken and finds
-- the scheduler as the others left it.
pub data Wake (C : Type 0) : Type 0 where
  timed_out : Wake C
  woken : Scheduler C → Wake C

-- How a pick ends: with a connection, with NULL, or still waiting when the wakes are over.
pub data Pick (C : Type 0) : Type 0 where
  picked : C → Scheduler C → Pick C
  exits : Pick C
  waiting : Pick C
  failed : Pick C

module _ {C : Type 0} (fd : C → ℕ) where
  -- The node of a connection that is scheduled already moves to the front.
  move_front : Scheduler C → C → ℕ → Option (Scheduler C)
  move_front s conn node =
      let pushed = NodeList.push_front (NodeList.erase s.list node) conn in
      do
        gone ← FdMap.erase s.nodes (fd conn)
        added ← FdMap.insert gone.1 (fd conn) pushed.0
        some (record { list = pushed.1; nodes = added.1 })

  add_found : Scheduler C → C → Option ℕ → Option (Bool × Scheduler C)
  add_found s conn (some node) = do moved ← move_front s conn node; some (false, moved)
  add_found s conn none =
      let need_notify = NodeList.is_empty s.list in
      let pushed = NodeList.push_back s.list conn in
      do
        added ← FdMap.insert s.nodes (fd conn) pushed.0
        some (need_notify, record { list = pushed.1; nodes = added.1 })

  -- Answers whether cond_ was notified. nodes_ holds iterators: *it is the value at the descriptor.
  pub add_task : Scheduler C → C → Option (Bool × Scheduler C)
  add_task s conn = do
    it ← FdMap.find s.nodes (fd conn)
    add_found s conn (FdMap.behind s.nodes.items it)

  remove_found : Scheduler C → C → Option ℕ → Option (Scheduler C)
  remove_found s conn none = some s
  remove_found s conn (some node) = do
    gone ← FdMap.erase s.nodes (fd conn)
    some (record { list = NodeList.erase s.list node; nodes = gone.1 })

  pub remove_task : Scheduler C → C → Option (Scheduler C)
  remove_task s conn = do
    it ← FdMap.find s.nodes (fd conn)
    remove_found s conn (FdMap.behind s.nodes.items it)

  finish_pick : C → NodeList C → Option (Bool × FdMap ℕ) → Pick C
  finish_pick conn list none = failed
  finish_pick conn list (some gone) = picked conn (record { list = list; nodes = gone.1 })

  take_front : Scheduler C → Option C → Pick C
  take_front s none = failed
  take_front s (some conn) =
      finish_pick conn (NodeList.pop_front s.list) (FdMap.erase s.nodes (fd conn))

  pub pick_task_nolock_connection : List (Wake C) → Scheduler C → Pick C
  pick_task_nolock_connection [] s =
      if NodeList.is_empty s.list then waiting else take_front s (NodeList.front s.list)
  pick_task_nolock_connection (timed_out ∷ wakes) s =
      if NodeList.is_empty s.list then exits else take_front s (NodeList.front s.list)
  pick_task_nolock_connection (woken later ∷ wakes) s =
      let retried = pick_task_nolock_connection wakes later in
      if NodeList.is_empty s.list then retried else take_front s (NodeList.front s.list)

  -- The loop over the list: the first node whose connection lets itself be locked.
  first_lockable : (C → Bool) → List (ℕ × C) → Option (ℕ × C)
  first_lockable try_lock [] = none
  first_lockable try_lock ((n, c) ∷ t) =
      let rest = first_lockable try_lock t in if try_lock c then some (n, c) else rest

  take_locked : Scheduler C → ℕ × C → Pick C
  take_locked s (node, conn) =
      finish_pick conn (NodeList.erase s.list node) (FdMap.erase s.nodes (fd conn))

  wait_or_take : Pick C → Scheduler C → Option (ℕ × C) → Pick C
  wait_or_take retried s none = retried
  wait_or_take retried s (some found) = take_locked s found

  -- Each wake comes with the answers that try_lock gives from then on. The wait at the top of the
  -- function and the one before `goto reschedule` go on in the same way, except that after the
  -- second the loop runs without asking whether the list is empty: it then finds no node.
  pub pick_task_lock_connection : List (Wake C × (C → Bool)) → (C → Bool) → Scheduler C → Pick C
  pick_task_lock_connection [] try_lock s =
      if NodeList.is_empty s.list
      then waiting
      else wait_or_take waiting s (first_lockable try_lock s.list.chain)
  pick_task_lock_connection ((timed_out, lock) ∷ wakes) try_lock s =
      if NodeList.is_empty s.list
      then exits
      else wait_or_take exits s (first_lockable try_lock s.list.chain)
  pick_task_lock_connection ((woken later, lock) ∷ wakes) try_lock s =
      let retried = pick_task_lock_connection wakes lock later in
      if NodeList.is_empty s.list
      then retried
      else wait_or_take retried s (first_lockable try_lock s.list.chain)

  pub pick_task : Bool → List (Wake C × (C → Bool)) → (C → Bool) → Scheduler C → Pick C
  pick_task suppress wakes try_lock s =
      if suppress
      then pick_task_nolock_connection (wakes_of wakes) s
      else pick_task_lock_connection wakes try_lock s
    where
      wakes_of : List (Wake C × (C → Bool)) → List (Wake C)
      wakes_of [] = []
      wakes_of (w ∷ ws) = w.0 ∷ wakes_of ws
