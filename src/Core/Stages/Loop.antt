-- ===== src/Core/Stages/Loop.antt =====
-- core/stages.cc: what a poller's loop does behind the events, trigger_timer_callback and
-- post_handle_connection.
use tube.Common.{
  ℕ, zero, suc, ◌+◌, Bool, true, false, List, [], ◌∷◌, Option, none, some, leb, if◌then◌else◌,
  get_elem?,
}
use tube.Core.Timer
use tube.Core.Timer.{TimerKey, timer_unit_from_time}
use tube.Core.PollIn.{IoPoller}
use tube.Core.Stages.{Server, in_poller, cleanup_idle_connection_callback, dispose_connection}

-- Timer::process_callbacks over the idle callbacks of poller i, and set_last_executed_time.
unfoldable pub run_timer : (ℕ → Bool) → ℕ → ℕ → Server → IoPoller → Server
run_timer accepts now i s p =
    let r =
      Timer.process_callbacks (λ _ c t. cleanup_idle_connection_callback (accepts c) i c t) now
        p.timer s in
    in_poller i (λ q. record q { timer = r.0; last_executed = now }) r.1

-- PollStage::trigger_timer_callback; `free` is what the stage's mutex answers.
unfoldable pub trigger_timer_callback : Bool → (ℕ → Bool) → ℕ → ℕ → ℕ → Server → Server
trigger_timer_callback free accepts now timeout i s =
    if free then due (get_elem? s.poll_in.pollers i) else s
  where
    due : Option IoPoller → Server
    due none = s
    due (some p) =
        if leb (p.last_executed + timer_unit_from_time timeout) now
        then run_timer accepts now i s p
        else s

abbrev pub max_recycle_count : ℕ
max_recycle_count = 50

-- The loop over the expired connections, with the number that may still go: what stays expired.
unfoldable pub dispose_expired : ℕ → List ℕ → Server → List ℕ × Server
dispose_expired left [] s = ([], s)
dispose_expired zero (c ∷ cs) s = (c ∷ cs, s)
dispose_expired (suc left) (c ∷ cs) s =
    let disposed = dispose_connection c s in
    let gone = dispose_expired left cs disposed.1 in
    let kept = dispose_expired (suc left) cs s in
    elim disposed.0 [ true ↦ gone | false ↦ (c ∷ kept.0, kept.1) ]

-- PollInStage::post_handle_connection; `timer_free` and `free` are the two try_lock of the mutex.
unfoldable pub post_handle_connection : Bool → Bool → (ℕ → Bool) → ℕ → ℕ → ℕ → Server → Server
post_handle_connection timer_free free accepts now timeout i s =
    let t = trigger_timer_callback timer_free accepts now timeout i s in
    if free then recycled t (get_elem? t.poll_in.pollers i) else t
  where
    recycled : Server → Option IoPoller → Server
    recycled t none = t
    recycled t (some p) =
        let r = dispose_expired max_recycle_count p.expired t in
        in_poller i (λ q. record q { expired = r.0 }) r.1
