-- ===== src/Fcgi/Handler.antt =====
-- modules/mod_fcgi/fcgi_handler.cc: the start of a request's task, and the ends of one, process_eof
-- and process_abort, over the response, the stream and the pool of sockets. The headers and the status
-- text are those that the content parser has collected.
pub mod Ends
pub mod Resume
pub mod Held
use tube.Common.{
  ℕ, ◌-◌, ◌^◌, ◌%◌, Bytes, Bool, true, false, List, [], ◌∷◌, Option, none, some, ltb, if◌then◌else◌,
  bytes_eq,
}
use tube.Common.Int.{ℤ, pos, negsuc, ltb_ℤ}
use tube.Core.Buffer.{Buffer, append_buffer}
use tube.Core.Stream
use tube.Fcgi.Completion.{
  CompletionStatus, read_client, write_fcgi, failed, timed_out, ContentParser, Continuation,
}
use tube.Fcgi.Pool.{Pool, reclaim_connection, reclaim_inactive_connection}
use tube.Http.Handler.{Work, wrote}
use tube.Http.Response.{HttpResponse, add_header, respond, respond_with_message}
use tube.Http.Status.{HttpResponseStatus, ok, bad_gateway, gateway_timeout}

-- A 64-bit number stored in an int.
abbrev pub as_int : ℕ → ℤ
as_int n = let low = n % 2 ^ 32 in if ltb low (2 ^ 31) then pos low else negsuc (2 ^ 32 - 1 - low)

-- What process_continuation_start makes of the request's records and the client's input: the task
-- buffer, how much is to be read from the client still, and the status.
pub start_task : ℕ → ℕ → Buffer → Buffer → Buffer × ℤ × CompletionStatus
start_task junk content_length records input =
    let task_buffer = append_buffer junk records input in
    let task_len =
      if ltb task_buffer.size content_length
      then as_int (content_length - task_buffer.size)
      else pos 0 in
    (task_buffer, task_len, if ltb_ℤ (pos 0) task_len then read_client else write_fcgi)

pub add_headers : List (Bytes × Bytes) → HttpResponse → HttpResponse
add_headers [] r = r
add_headers ((key, value) ∷ headers) r = add_headers headers (add_header key value r)

-- HttpResponseStatus(status_text), whose code of -1 is 0 here: a text is written in its place.
abbrev pub text_status : Bytes → HttpResponseStatus
text_status text = record { status_code = 0; reason = text; is_text = true; text = text }

module _ (junk max_mem : ℕ) {P : Type 0} (parser : ContentParser P) (socket : ℕ → ℤ) where
  -- make_response, which turns the prepare buffer off.
  pub make_response : List (List (Option ℕ)) → List (Bytes × Bytes) → Bytes → Work → Option Work
  make_response answers headers status_text w = wrote w (
      respond junk max_mem answers (if bytes_eq status_text [] then ok else text_status status_text)
        (add_headers headers (record w.response { use_prepare_buffer = false })) w.conn.out_stream)

  -- conn->out_stream().append_buffer(cont->output_buffer)
  pub put_output : Continuation P → Work → Work
  put_output cont w = record w {
    conn = record w.conn { out_stream = Stream.append_buffer cont.output_buffer w.conn.out_stream };
  }

  -- process_eof gives the socket back at its start and at its end.
  pub process_eof :
      List (List (Option ℕ))
      → List (Bytes × Bytes)
      → Bytes
      → Continuation P
      → Work
      → Pool
      → Option (Work × Pool)
  process_eof answers headers status_text cont w pool =
      if parser.is_streaming cont.content_parser
      then some (
        put_output cont (record w { response = record w.response { is_responded = true } }),
        given,
      )
      else with_output (make_response answers headers status_text sized)
    where
      given : Pool
      given =
          reclaim_connection socket (reclaim_connection socket pool (pos cont.sock_fd))
            (pos cont.sock_fd)

      sized : Work
      sized = record w {
        response = record w.response { content_length = pos cont.output_buffer.size };
      }

      with_output : Option Work → Option (Work × Pool)
      with_output none = none
      with_output (some made) = some (put_output cont made, given)

  -- The status that process_abort responds with.
  pub abort_status : CompletionStatus → Option HttpResponseStatus
  abort_status failed = some bad_gateway
  abort_status timed_out = some gateway_timeout
  abort_status _ = none

  -- process_abort: the work, the pool, and whether the poll is enabled again.
  pub process_abort :
      List (List (Option ℕ)) → Continuation P → Work → Pool → Option (Work × Pool × Bool)
  process_abort answers cont w pool =
      if cont.need_reconnect
      then if parser.is_streaming cont.content_parser
        then some (record w { inactive = true }, reconnected, false)
        else responds reconnected (abort_status cont.status)
      else responds (reclaim_connection socket pool (pos cont.sock_fd)) (abort_status cont.status)
    where
      reconnected : Pool
      reconnected = reclaim_inactive_connection socket pool (pos cont.sock_fd)

      told : Pool → Option Work → Option (Work × Pool × Bool)
      told p none = none
      told p (some made) = some (made, p, true)

      responds : Pool → Option HttpResponseStatus → Option (Work × Pool × Bool)
      responds p none = some (w, p, true)
      responds p (some status) =
          told p (
            wrote w (respond_with_message junk max_mem answers status w.response w.conn.out_stream))
