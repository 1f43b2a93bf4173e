-- ===== src/Http/Stages/Runs.antt =====
-- What the threads of a server do, in every order.
use tube.Common.{ℕ, Bool, true, false, List, [], ◌∷◌, ◌++◌, Option, if◌then◌else◌, ◌≡◌}
use tube.Common.Int.{ℤ}
use tube.Core.Connection.{Connection, new_connection, unlock, try_lock, has_continuation}
use tube.Core.Scheduler.Conns.{without, queued}
use tube.Core.Buffer.{Buffer}
use tube.Core.Stages.{
  Server, at_conn, by_fd, read_connection, handle_hangup, enable_poll, block_out_process,
}
use tube.Core.Stages.Loop.{post_handle_connection}
use tube.Http.Stages.{
  parser_process, handler_process, resched_continuation, finish_task, stream_write_back,
}

-- The connection as a handler leaves it: its lock is not a handler's to open.
abbrev pub still_locked : Connection → Connection
still_locked conn = record conn { locked = true }

-- Those whose continuation a handler has kept, behind a call that left this connection.
abbrev pub with_suspended : Connection → ℕ → List ℕ → List ℕ
with_suspended conn c suspended = if has_continuation conn then c ∷ suspended else suspended

module _ (first : Server) where
  -- What the threads of a server have done since `first`, one whole step of a thread after the other:
  -- the server, the connections that a thread is at work on, one for each thread, and those whose
  -- continuation a handler has kept. A connection that is suspended is either handed back to its
  -- handler or, with what was streamed to it, to the write-back stage.
  pub data Run : Server → List ℕ → List ℕ → Type 0 where
    begin : Run first [] []
    accepted :
        {s : Server} {working suspended : List ℕ} (c now : ℕ) (adds : Bool)
        → Run s working suspended
        → (s.conns c).locked ≡ false
        → Run (enable_poll adds c (at_conn c (λ _. new_connection now) s)) working suspended
    polled :
        {s : Server} {working suspended : List ℕ} (accepts : Bool) (now i c : ℕ) (reads : List ℕ)
        (last : ℤ) (again : Bool)
        → Run s working suspended
        → Run (read_connection accepts now i c reads last again s) working suspended
    hung_up :
        {s : Server} {working suspended : List ℕ} (accepts : Bool) (i c : ℕ)
        → Run s working suspended
        → Run (handle_hangup accepts i c s) working suspended
    looped :
        {s : Server} {working suspended : List ℕ} (timer_free free : Bool) (accepts : ℕ → Bool)
        (now timeout i : ℕ)
        → Run s working suspended
        → Run (post_handle_connection timer_free free accepts now timeout i s) working suspended
    picked_to_parse :
        {s : Server} {working suspended : List ℕ} (c : ℕ)
        → Run s working suspended
        → queued by_fd c s.parser ≡ true
        → (s.conns c).locked ≡ false
        → Run
            (at_conn c (λ conn. (try_lock conn).1) (record s { parser = without by_fd c s.parser }))
            (c ∷ working)
            suspended
    parsed :
        {s : Server} {suspended : List ℕ} (before after : List ℕ) (c : ℕ) (well ready : Bool)
        (accepts : ℕ → Bool)
        → Run s (before ++ c ∷ after) suspended
        → Run (at_conn c unlock (parser_process well ready accepts c s)) (before ++ after) suspended
    picked_to_handle :
        {s : Server} {working suspended : List ℕ} (c : ℕ)
        → Run s working suspended
        → queued by_fd c s.handler ≡ true
        → (s.conns c).locked ≡ false
        → Run
            (at_conn c
              (λ conn. (try_lock conn).1)
              (record s { handler = without by_fd c s.handler }))
            (c ∷ working)
            suspended
    handled :
        {s : Server} {suspended : List ℕ} (before after : List ℕ) (c : ℕ)
        (remaining inactive : Bool) (accepts : ℕ → Bool) (conn : Connection)
        → Run s (before ++ c ∷ after) suspended
        → Run
            (finish_task c (handler_process remaining inactive accepts c (still_locked conn) s))
            (before ++ after)
            (with_suspended conn c suspended)
    streamed :
        {s : Server} {working : List ℕ} (before after : List ℕ) (c : ℕ) (output : Buffer)
        (accepts : ℕ → Bool)
        → Run s working (before ++ c ∷ after)
        → Run (stream_write_back output accepts c s) working (before ++ after)
    resumed :
        {s : Server} {working : List ℕ} (before after : List ℕ) (c : ℕ)
        → Run s working (before ++ c ∷ after)
        → Run (resched_continuation c s) working (before ++ after)
    picked_to_write :
        {s : Server} {working suspended : List ℕ} (c : ℕ)
        → Run s working suspended
        → queued by_fd c s.write_back ≡ true
        → Run (record s { write_back = without by_fd c s.write_back }) (c ∷ working) suspended
    wrote :
        {s : Server} {suspended : List ℕ} (before after : List ℕ) (c : ℕ) (answer : Option ℕ)
        (accepts : ℕ → Bool) (adds : Bool)
        → Run s (before ++ c ∷ after) suspended
        → Run
            (finish_task c (block_out_process answer accepts adds c s))
            (before ++ after)
            suspended
