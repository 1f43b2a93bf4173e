-- ===== src/Http/Stages.antt =====
-- http/http_stages.cc: the process_task of the parser's and the handler's stage, and the handler's
-- continuation, over the stages of Core/Stages. What the parser finds and what the handlers do to
-- their connection are arguments; Stage::main_loop unlocks the connection that a task releases.
pub mod Counts
pub mod Keeps
pub mod Runs
pub mod Balance
pub mod Locks
mod Tests
use tube.Common.{ℕ, Bool, true, false, List, ◌∷◌, [], if◌then◌else◌}
use tube.Core.Buffer.{Buffer}
use tube.Core.Stream.{append_buffer}
use tube.Core.Connection.{Connection, unlock, has_continuation}
use tube.Core.Response.{keeps_lock, flushes_silently}
use tube.Core.Scheduler.Conns.{enqueue}
use tube.Core.Stages.{Server, at_conn, by_fd, cleanup_connection, block_out_add}

abbrev pub schedule_handler : ℕ → Server → Server
schedule_handler c s = record s { handler = enqueue by_fd c s.handler }

-- HttpParserStage::process_task: the answers of do_parse and is_ready. It always releases the lock.
unfoldable pub parser_process : Bool → Bool → (ℕ → Bool) → ℕ → Server → Server
parser_process parsed ready accepts c s =
    let closed = if parsed then s else cleanup_connection accepts c s in
    if ready then schedule_handler c closed else closed

-- The connection as the handlers leave it, scheduled again when requests remain and the connection is
-- not to end.
abbrev pub handled_server : Bool → ℕ → Connection → Server → Server
handled_server remaining c conn s =
    let handled = at_conn c (λ _. conn) s in
    if remaining then schedule_handler c handled else handled

-- The end of HttpHandlerStage::process_task, for a response that a handler closed or not: whether the
-- lock is kept, and the server when the response is destroyed.
unfoldable pub handler_process : Bool → Bool → (ℕ → Bool) → ℕ → Connection → Server → Bool × Server
handler_process remaining inactive accepts c conn s =
    let handled = handled_server remaining c conn s in
    (
      keeps_lock inactive conn,
      if flushes_silently inactive conn then block_out_add accepts c handled else handled,
    )

-- Stage::main_loop behind process_task: the lock is opened unless the task keeps it.
abbrev pub finish_task : ℕ → Bool × Server → Server
finish_task c (keeps, s) = if keeps then s else at_conn c unlock s

-- FcgiCompletionStage::stream_write_back: the output goes to the write-back stage, and the connection
-- with it. set_cork is a system call.
unfoldable pub stream_write_back : Buffer → (ℕ → Bool) → ℕ → Server → Server
stream_write_back output accepts c s =
    block_out_add accepts c
      (at_conn c (λ conn. record conn { out_stream = append_buffer output conn.out_stream }) s)

-- HttpHandlerStage::resched_continuation
unfoldable pub resched_continuation : ℕ → Server → Server
resched_continuation c s = at_conn c unlock (schedule_handler c s)
