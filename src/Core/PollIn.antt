-- ===== src/Core/PollIn.antt =====
-- core/stages.cc: the pollers of a PollInStage. A connection goes by its descriptor, so that a
-- poller's descriptors, which Core/Poller models with their table, are here a predicate. What the
-- operating system answers to a poller is an argument.
pub mod Watched
use tube.Common.{
  ℕ, zero, suc, ◌+◌, ◌%◌, ◌≤◌, Bool, true, false, ◌&&◌, not, List, [], ◌∷◌, ◌++◌, Option, none,
  some, leb, ◌==◌, if◌then◌else◌, length, get_elem?, set,
}
use tube.Core.Timer
use tube.Core.Timer.{TimerKey}

-- Each entry of the timer is the idle callback of the poller that the timer belongs to.
pub record IoPoller : Type 0 where
  pub fds : ℕ → Bool
  pub timer : List (TimerKey × Unit {0})
  pub last_executed : ℕ
  pub expired : List ℕ

pub record PollIn : Type 0 where
  pub pollers : List IoPoller
  pub current_poller : ℕ

abbrev pub put : ℕ → Bool → (ℕ → Bool) → ℕ → Bool
put c v f d = if d == c then v else f d

-- Poller::add_fd and Poller::remove_fd
unfoldable pub add_fd : Bool → ℕ → IoPoller → Bool × IoPoller
add_fd accepts c p =
    if not (p.fds c) && accepts then (true, record p { fds = put c true p.fds }) else (false, p)

unfoldable pub remove_fd : Bool → ℕ → IoPoller → Bool × IoPoller
remove_fd accepts c p =
    if p.fds c && accepts then (true, record p { fds = put c false p.fds }) else (false, p)

unfoldable pub push_expired : ℕ → IoPoller → IoPoller
push_expired c p = record p { expired = p.expired ++ c ∷ [] }

-- poller.timer().remove
unfoldable pub remove_timer : TimerKey → IoPoller → IoPoller
remove_timer key p = record p { timer = (Timer.remove p.timer key).1 }

unfoldable pub replace_timer : TimerKey → IoPoller → IoPoller
replace_timer key p = record p { timer = Timer.replace p.timer key tt }

unfoldable pub add_poll : IoPoller → PollIn → PollIn
add_poll p s = record s { pollers = s.pollers ++ p ∷ [] }

-- The poller at an index of pollers_ goes through a change. Where the source has no poller and
-- divides by zero, nothing changes.
unfoldable pub at_poller : ℕ → (IoPoller → IoPoller) → List IoPoller → List IoPoller
at_poller i f [] = []
at_poller zero f (p ∷ ps) = f p ∷ ps
at_poller (suc i) f (p ∷ ps) = p ∷ at_poller i f ps

unfoldable pub next_poller : PollIn → ℕ
next_poller s = (s.current_poller + 1) % length s.pollers

-- PollInStage::sched_add. The timer's entry is made whether the poller takes the descriptor or not.
unfoldable pub sched_add : Bool → ℕ → TimerKey → PollIn → PollIn
sched_add accepts c key s = record {
  pollers = at_poller (next_poller s) (λ p. (add_fd accepts c (replace_timer key p)).1) s.pollers;
  current_poller = next_poller s;
}

-- What is done with the poller that had the descriptor.
unfoldable pub leave : Bool → ℕ → TimerKey → IoPoller → IoPoller
leave recycle c key p = if recycle then push_expired c (remove_timer key p) else remove_timer key p

-- The loop of sched_remove_nolock; `none` when no poller gave the descriptor up. A poller answers by
-- its index.
unfoldable pub leave_first :
    (ℕ → Bool) → ℕ → Bool → ℕ → TimerKey → List IoPoller → Option (List IoPoller)
leave_first accepts i recycle c key [] = none
leave_first accepts i recycle c key (p ∷ ps) =
    let rest = behind p (leave_first accepts (i + 1) recycle c key ps) in
    let removed = remove_fd (accepts i) c p in
    if removed.0 then some (leave recycle c key removed.1 ∷ ps) else rest
  where
    behind : IoPoller → Option (List IoPoller) → Option (List IoPoller)
    behind p none = none
    behind p (some qs) = some (p ∷ qs)

unfoldable pub sched_remove_nolock : (ℕ → Bool) → Bool → ℕ → TimerKey → PollIn → PollIn
sched_remove_nolock accepts recycle c key s = left (leave_first accepts 0 recycle c key s.pollers)
  where
    left : Option (List IoPoller) → PollIn
    left (some ps) = record s { pollers = ps }
    left none =
        if recycle
        then record {
          pollers = at_poller s.current_poller (push_expired c) s.pollers;
          current_poller = next_poller s;
        }
        else s

unfoldable pub sched_remove : (ℕ → Bool) → ℕ → TimerKey → PollIn → PollIn
sched_remove accepts c key s = sched_remove_nolock accepts false c key s
