-- ===== src/Fcgi/Handler/Resume.antt =====
-- modules/mod_fcgi/fcgi_handler.cc: handle_request for a connection whose continuation the completion
-- stage has handed on, and what a request yields to.
use tube.Common.{
  ℕ, zero, suc, Bytes, Bool, true, false, not, List, Option, none, some, if◌then◌else◌,
}
use tube.Common.Int.{ℤ}
use tube.Core.Connection.{set_continuation, reset_continuation}
use tube.Fcgi.Completion.{
  CompletionStatus, read_fcgi, headers_done, continued, eof, failed, timed_out, is_zero,
  ContentParser, Continuation, Completion, with_cont, sched_add,
}
use tube.Fcgi.Completion.Parse.{run_parser}
use tube.Fcgi.Handler.{make_response, process_eof, process_abort}
use tube.Fcgi.Pool.{Pool}
use tube.Http.Handler.{Work, wrote}
use tube.Http.Response.{respond_with_message}
use tube.Http.Status.{bad_gateway}

-- What a call of the handler leaves: the continuation that is yielded to the completion stage, or the
-- response with the pool, and whether the poll is enabled again.
pub data Resumed (P : Type 0) : Type 0 where
  yields : Completion P → Work → Resumed P
  ends : Work → Pool → Bool → Resumed P

module _ (junk max_mem : ℕ) {P : Type 0} (parser : ContentParser P) (socket : ℕ → ℤ) where
  -- The loop of process_headers_done on fuel, with the status that its exits set.
  unfoldable pub headers_loop : ℕ → Continuation P → Option (Continuation P)
  headers_loop zero cont = none
  headers_loop (suc fuel) cont =
      let ran = run_parser junk parser cont in
      let more = headers_loop fuel ran.1 in
      if not ran.0
      then some (record ran.1 { status = read_fcgi })
      else if is_zero ran.1.task_len
      then some (record ran.1 { status = eof })
      else if parser.has_error ran.1.content_parser
      then some (record ran.1 { status = failed })
      else more

  -- The headers of a streamed response are made before the loop.
  abbrev pub start_response :
      List (List (Option ℕ)) → List (Bytes × Bytes) → Bytes → Continuation P → Work → Option Work
  start_response answers headers status_text cont w =
      if parser.is_streaming cont.content_parser
      then make_response junk max_mem parser socket answers headers status_text w
      else some w

  -- yield, with the address of the continuation; sched_add finds the stream of the connection.
  abbrev pub yield : Bool → ℕ → ℕ → Completion P → Work → Resumed P
  yield adds now address s w =
      yields (sched_add adds now (record s { out_stream = w.conn.out_stream }))
        (record w { conn = set_continuation address w.conn })

  abbrev pub ended : Option (Work × Pool) → Option (Resumed P)
  ended none = none
  ended (some (w, pool)) = some (ends w pool true)

  abbrev pub aborted : Option (Work × Pool × Bool) → Option (Resumed P)
  aborted none = none
  aborted (some (w, pool, polls)) = some (ends w pool polls)

  module _ (answers later : List (List (Option ℕ))) (headers : List (Bytes × Bytes))
      (status_text : Bytes) (adds : Bool) (now address : ℕ) where
    -- Behind the loop, by the status that it has set.
    unfoldable pub after_loop :
        Completion P → Work → Pool → CompletionStatus → Continuation P → Option (Resumed P)
    after_loop s w pool eof cont =
        ended (process_eof junk max_mem parser socket later headers status_text cont w pool)
    after_loop s w pool failed cont =
        aborted (process_abort junk max_mem parser socket later cont w pool)
    after_loop s w pool _ cont = some (yield adds now address (with_cont cont s) w)

    unfoldable pub process_headers_done : Completion P → Work → Pool → Option (Resumed P)
    process_headers_done s w pool =
        if parser.has_error s.cont.content_parser
        then told (
            wrote w
              (respond_with_message junk max_mem answers bad_gateway w.response w.conn.out_stream))
        else started (start_response answers headers status_text s.cont w)
      where
        told : Option Work → Option (Resumed P)
        told none = none
        told (some made) = some (ends made pool false)

        looped : Work → Option (Continuation P) → Option (Resumed P)
        looped made none = none
        looped made (some cont) = after_loop s made pool cont.status cont

        started : Option Work → Option (Resumed P)
        started none = none
        started (some made) = looped made (headers_loop (suc s.cont.task_buffer.size) s.cont)

    abbrev pub process_continue : Completion P → Work → Resumed P
    process_continue s w =
        yield adds now address (with_cont (record s.cont { status = read_fcgi }) s) w

    -- handle_request by the status of the continuation; an unknown one is logged.
    unfoldable pub resume_by : CompletionStatus → Completion P → Work → Pool → Option (Resumed P)
    resume_by headers_done s w pool = process_headers_done s w pool
    resume_by continued s w pool = some (process_continue s w)
    resume_by eof s w pool =
        ended (process_eof junk max_mem parser socket answers headers status_text s.cont w pool)
    resume_by failed s w pool =
        aborted (process_abort junk max_mem parser socket answers s.cont w pool)
    resume_by timed_out s w pool =
        aborted (process_abort junk max_mem parser socket answers s.cont w pool)
    resume_by _ s w pool = some (ends w pool false)

    -- restore_continuation takes the continuation off the connection.
    unfoldable pub handle_request : Completion P → Work → Pool → Option (Resumed P)
    handle_request s w pool =
        resume_by s.cont.status s (record w { conn = reset_continuation w.conn }) pool
