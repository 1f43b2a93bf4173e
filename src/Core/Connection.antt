-- ===== src/Core/Connection.antt =====
-- core/pipeline.cc, core/pipeline.h: Connection. Each bit of flags_ is a field. The clock is an
-- argument; the socket options that set_cork and set_io_timeout ask for are left out.
use tube.Common.{ℕ, ◌+◌, Bool, true, false, Option, none, some, not, is_none, ◌==◌, if◌then◌else◌}
use tube.Core.Timer.{TimerKey, timer_unit_from_time}
use tube.Core.Stream.{Stream, empty_stream}

pub record Connection : Type 0 where
  pub timeout : ℕ
  pub out_stream : Stream
  pub locked : Bool
  pub cork_enabled : Bool
  pub active : Bool
  pub close_after_finish : Bool
  pub urgent : Bool
  pub last_active : ℕ
  pub continuation : Option ℕ

unfoldable pub timer_sched_time : Connection → ℕ
timer_sched_time conn = conn.last_active + timer_unit_from_time conn.timeout

-- The key of a connection's entry in a timer.
abbrev pub timer_key : ℕ → Connection → TimerKey
timer_key c conn = record { unit = timer_sched_time conn; ctx = c }

unfoldable pub update_last_active : ℕ → Connection → Bool × Connection
update_last_active current_unit conn =
    if conn.last_active == current_unit
    then (false, conn)
    else (true, record conn { last_active = current_unit })

-- Connection::Connection at a time of the clock; the constructor leaves the lock open.
unfoldable pub new_connection : ℕ → Connection
unfolding update_last_active
new_connection current_unit =
    (update_last_active current_unit (record {
      timeout = 0;
      out_stream = empty_stream;
      locked = false;
      cork_enabled = true;
      active = true;
      close_after_finish = false;
      urgent = false;
      last_active = 0;
      continuation = none;
    })).1

abbrev pub set_active : Bool → Connection → Connection
set_active val conn = record conn { active = val }

abbrev pub set_close_after_finish : Bool → Connection → Connection
set_close_after_finish val conn = record conn { close_after_finish = val }

abbrev pub set_cork_enabled : Bool → Connection → Connection
set_cork_enabled val conn = record conn { cork_enabled = val }

abbrev pub set_urgent : Bool → Connection → Connection
set_urgent val conn = record conn { urgent = val }

abbrev pub try_lock : Connection → Bool × Connection
try_lock conn = (not conn.locked, record conn { locked = true })

abbrev pub unlock : Connection → Connection
unlock conn = record conn { locked = false }

abbrev pub set_continuation : ℕ → Connection → Connection
set_continuation ptr conn = record conn { continuation = some ptr }

abbrev pub reset_continuation : Connection → Connection
reset_continuation conn = record conn { continuation = none }

abbrev pub has_continuation : Connection → Bool
has_continuation conn = not (is_none conn.continuation)
