-- ===== src/Http/Stages/Locks.antt =====
-- Who holds the lock of a connection.
use tube.Common.{ℕ, List, [], ◌∷◌, ◌++◌, arith, inl, inr}
use tube.Core.Connection.{new_connection}
use tube.Core.Scheduler.Conns.{without}
use tube.Core.Stages.{Server, at_conn, by_fd}
use tube.Http.Stages.{parser_process}
use tube.Http.Stages.Counts.{count-without}
use tube.Http.Stages.Keeps.{
  Keeps-trans, enable_poll-Keeps, read_connection-Keeps, handle_hangup-Keeps,
}
use tube.Http.Stages.Runs.{
  Run, begin, accepted, polled, hung_up, looped, picked_to_parse, parsed, picked_to_handle, handled,
  streamed, resumed, picked_to_write, wrote,
}
use tube.Http.Stages.Balance.{Balanced, Keeps-Balanced, taken, given_back, queued_up, loop-Balanced}
use tube.Http.Stages.Balance.Handled.{
  parser_process-Keeps, write_cases, accept-Keeps, handle-Balanced, stream-Balanced,
  resume-Balanced,
}

module _ {first : Server} (fresh : Balanced first [] []) where
  -- From a server in which no thread works, no handler has suspended and exactly the connections that
  -- wait in the write-back stage are locked, each waiting once, after any whole steps of the threads,
  -- one after the other, with BlockOutStage as the write-back stage: for each connection, the threads at work on it, the continuations that have it and its places in the
  -- write-back stage are one in all when its lock is held, and none when it is not.
  pub Run-Balanced :
      {s : Server} {working suspended : List ℕ}
      → Run first s working suspended
      → Balanced s working suspended
  Run-Balanced begin = fresh
  Run-Balanced (accepted {s} {working} {suspended} c now adds run free) =
      Keeps-Balanced working suspended
        (Keeps-trans (accept-Keeps c now s free)
          (enable_poll-Keeps adds c (at_conn c (λ _. new_connection now) s)))
        (Run-Balanced run)
  Run-Balanced (polled {s} {working} {suspended} accepts now i c reads last again run) =
      Keeps-Balanced working suspended (read_connection-Keeps accepts now i c reads last again s)
        (Run-Balanced run)
  Run-Balanced (hung_up {s} {working} {suspended} accepts i c run) =
      Keeps-Balanced working suspended (handle_hangup-Keeps accepts i c s) (Run-Balanced run)
  Run-Balanced (looped {s} {working} {suspended} timer_free free accepts now timeout i run) =
      loop-Balanced timer_free free accepts now timeout i s working suspended (Run-Balanced run)
  Run-Balanced (picked_to_parse {s} {working} {suspended} c run waits free) =
      taken (record s { parser = without by_fd c s.parser }) suspended c working free
        (Run-Balanced run)
  Run-Balanced (parsed {s} {suspended} before after c well ready accepts run) =
      given_back (parser_process well ready accepts c s) suspended before after c (
        Keeps-Balanced (before ++ c ∷ after) suspended (parser_process-Keeps well ready accepts c s)
          (Run-Balanced run))
  Run-Balanced (picked_to_handle {s} {working} {suspended} c run waits free) =
      taken (record s { handler = without by_fd c s.handler }) suspended c working free
        (Run-Balanced run)
  Run-Balanced (handled {s} {suspended} before after c remaining inactive accepts conn run) =
      handle-Balanced remaining inactive accepts conn s suspended before after c (Run-Balanced run)
  Run-Balanced (streamed {s} {working} before after c output accepts run) =
      stream-Balanced output accepts s working before after c (Run-Balanced run)
  Run-Balanced (resumed {s} {working} before after c run) =
      resume-Balanced s working before after c (Run-Balanced run)
  Run-Balanced (picked_to_write {s} {working} {suspended} c run waits) =
      λ d. omega (arith, Run-Balanced run d, count-without d c s.write_back waits)
  Run-Balanced (wrote {s} {suspended} before after c answer accepts adds run) =
      let (t, keeps, cases) = write_cases answer accepts adds c s in
      let b = Keeps-Balanced (before ++ c ∷ after) suspended keeps (Run-Balanced run) in
      elim cases [
        | inl goes_on ↦ rw goes_on (queued_up t suspended before after c b)
        | inr over ↦ rw over (given_back t suspended before after c b)
      ]
