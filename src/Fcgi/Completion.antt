-- ===== src/Fcgi/Completion.antt =====
-- modules/mod_fcgi/fcgi_completion_stage.cc: a request of a FastCGI server between two calls of its
-- handler. The response parser reads from the task buffer. The content parser is generated from a
-- grammar, and is a record of functions: a run gives how many bytes it took. An int is an integer. A
-- poller is as in Core/PollIn, by descriptors; the events that it watches them for are left out.
pub mod Parse
pub mod Transfer
pub mod Feeds
pub mod Watches
pub mod Reads
pub mod Streams
use tube.Common.{
  ℕ, zero, suc, ◌+◌, ◌-◌, ◌*◌, ◌^◌, min, Bytes, Bool, true, false, ◌&&◌, ◌||◌, not, List, [], ◌∷◌,
  Option, none, some, ltb, ◌==◌, if◌then◌else◌, length, take, drop,
}
use tube.Common.Int.{ℤ, pos, negsuc, ltb_ℤ, ◌-ℤ◌}
use tube.Core.Buffer.{Buffer, append, segments, read_from_fd, write_to_fd}
use tube.Core.Stream.{Stream, append_buffer}
use tube.Core.Timer.{TimerKey, timer_unit_from_time}
use tube.Core.PollIn.{IoPoller, add_fd, remove_fd, remove_timer, replace_timer}
use tube.Fcgi.Proto.{Record, extract_record, bypass_content, total_length}

pub data CompletionStatus : Type 0 where
  read_client : CompletionStatus
  write_fcgi : CompletionStatus
  read_fcgi : CompletionStatus
  headers_done : CompletionStatus
  continued : CompletionStatus
  eof : CompletionStatus
  failed : CompletionStatus
  timed_out : CompletionStatus

abbrev pub is_headers_done : CompletionStatus → Bool
is_headers_done headers_done = true
is_headers_done _ = false

-- task_len == 0 and task_len == -1
abbrev pub is_zero : ℤ → Bool
is_zero (pos zero) = true
is_zero _ = false

abbrev pub is_minus_one : ℤ → Bool
is_minus_one (negsuc zero) = true
is_minus_one _ = false

pub record ContentParser (P : Type 0) : Type 0 where
  pub parse : Bytes → P → ℕ × P
  pub is_done : P → Bool
  pub is_streaming : P → Bool
  pub has_error : P → Bool

pub record Continuation (P : Type 0) : Type 0 where
  pub sock_fd : ℕ
  pub need_reconnect : Bool
  pub status : CompletionStatus
  pub task_buffer : Buffer
  pub task_len : ℤ
  pub content_parser : P
  pub output_buffer : Buffer
  pub last_active : ℕ

-- A continuation with its connection and the poller of the stage that it is at: what the connection
-- has to send, and how often it was scheduled again for its handler and for the write-back stage.
pub record Completion (P : Type 0) : Type 0 where
  pub cont : Continuation P
  pub conn_fd : ℕ
  pub poller : IoPoller
  pub out_stream : Stream
  pub rescheduled : ℕ
  pub written_back : ℕ

abbrev pub fcgi_end_request : ℕ
fcgi_end_request = 3

abbrev pub fcgi_stdout : ℕ
fcgi_stdout = 6

abbrev pub fcgi_stderr : ℕ
fcgi_stderr = 7

abbrev pub task_buffer_limit : ℕ
task_buffer_limit = 64 * 2 ^ 10

abbrev pub int_max : ℕ
int_max = 2147483647

pub idle_timeout : ℕ
idle_timeout = timer_unit_from_time 10

-- What abort leaves in need_reconnect.
pub reconnects : CompletionStatus → Bool → Bool
reconnects write_fcgi before = true
reconnects read_fcgi before = true
reconnects _ before = before

module _ {P : Type 0} where
  abbrev pub with_cont : Continuation P → Completion P → Completion P
  with_cont cont s = record s { cont = cont }

  pub update_last_active : ℕ → Continuation P → Bool × Continuation P
  update_last_active now cont =
      if cont.last_active == now then (false, cont) else (true, record cont { last_active = now })

  -- The key of a timer's entry.
  pub timer_key : Completion P → TimerKey
  timer_key s = record { unit = s.cont.last_active + idle_timeout; ctx = s.conn_fd }

  pub remove_fd_with_timer : Bool → ℕ → Completion P → Completion P
  remove_fd_with_timer accepts fd s = record s {
    poller = (remove_fd accepts fd (remove_timer (timer_key s) s.poller)).1;
  }

  abbrev pub watch : Bool → ℕ → Completion P → Completion P
  watch adds fd s = record s { poller = (add_fd adds fd s.poller).1 }

  abbrev pub resched_continuation : Completion P → Completion P
  resched_continuation s = record s { rescheduled = suc s.rescheduled }

  -- The end of sched_add, by the status: which descriptor is watched.
  pub add_by : CompletionStatus → Bool → Completion P → Completion P
  add_by read_client adds s = watch adds s.conn_fd s
  add_by write_fcgi adds s = watch adds s.cont.sock_fd s
  add_by read_fcgi adds s = watch adds s.cont.sock_fd s
  add_by _ adds s = s

  -- sched_add, at the poller that is next.
  pub sched_add : Bool → ℕ → Completion P → Completion P
  sched_add adds now s =
      let t = with_cont (update_last_active now s.cont).1 s in
      add_by s.cont.status adds (record t { poller = replace_timer (timer_key t) t.poller })

  pub update_idle_handler : ℕ → Completion P → Completion P
  update_idle_handler now s =
      let updated = update_last_active now s.cont in
      let t = with_cont updated.1 s in
      if updated.0
      then record t { poller = replace_timer (timer_key t) (remove_timer (timer_key s) s.poller) }
      else s

  -- What abort leaves by the status: the descriptor of the server, with the timer or without, or that
  -- of the client.
  pub leave_fcgi : Bool → Bool → Completion P → Completion P
  leave_fcgi accepts with_timer s =
      if with_timer
      then remove_fd_with_timer accepts s.cont.sock_fd s
      else record s { poller = (remove_fd accepts s.cont.sock_fd s.poller).1 }

  pub leave_fd : CompletionStatus → Bool → Bool → Completion P → Completion P
  leave_fd write_fcgi accepts with_timer s = leave_fcgi accepts with_timer s
  leave_fd read_fcgi accepts with_timer s = leave_fcgi accepts with_timer s
  leave_fd _ accepts with_timer s = remove_fd_with_timer accepts s.conn_fd s

  -- abort, with the answer of the operating system and remove_timer.
  pub abort : Bool → CompletionStatus → Bool → Completion P → Completion P
  abort accepts status with_timer s =
      let left = leave_fd s.cont.status accepts with_timer s in
      resched_continuation (
        with_cont
          (record left.cont {
            status = status;
            need_reconnect = reconnects s.cont.status s.cont.need_reconnect;
          })
          left)

  pub handle_error : Bool → Completion P → Completion P
  handle_error accepts s = abort accepts failed true s

  pub cleanup_idle_callback : Bool → Completion P → Bool × Completion P
  cleanup_idle_callback accepts s = (true, abort accepts timed_out false s)

  -- The buffer stays as it is: the stream has a copy.
  pub stream_write_back : Completion P → Completion P
  stream_write_back s = record s {
    out_stream = append_buffer s.cont.output_buffer s.out_stream;
    written_back = suc s.written_back;
  }
