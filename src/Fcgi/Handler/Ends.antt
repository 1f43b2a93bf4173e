-- ===== src/Fcgi/Handler/Ends.antt =====
-- How a request to a FastCGI server starts and ends.
mod Tests
use tube.Common.{
  ℕ, suc, ◌+◌, ◌-◌, ◌≤◌, ◌<◌, Bytes, Bool, true, false, ◌&&◌, List, [], ◌∷◌, ◌++◌, append_assoc,
  Option, none, some, ltb, lt→ltb, length, length-append, if◌then◌else◌, ◌≡◌, refl, ap, sym, ◌∙◌,
  subst, arith,
}
use tube.Common.Int.{ℤ, pos}
use tube.Core.Buffer.{Buffer, append_buffer}
use tube.Core.Buffer.Repr.{Holds}
use tube.Core.Buffer.Copy.{append_buffer-Holds}
use tube.Core.Stream.{Stream}
use tube.Core.Stream.Pending.{SendsAll, append-SendsAll}
use tube.Fcgi.Completion.{
  CompletionStatus, read_client, write_fcgi, read_fcgi, continued, ContentParser, Continuation,
  Completion, stream_write_back, remove_fd_with_timer, task_buffer_limit,
}
use tube.Fcgi.Completion.Transfer.{transfer_status, transfer_from, transfer_read_fcgi}
use tube.Fcgi.Completion.Streams.{transfer_status-Streams}
use tube.Fcgi.Handler.{start_task, process_eof, put_output}
use tube.Fcgi.Pool.Twice.{alloc_connection-reclaim, reclaim_connection-kept}
use tube.Fcgi.Pool.{Pool, alloc_connection, reclaim_connection}
use tube.Http.Handler.{Work}

-- The records of the request are counted as bytes of the body: when the input has less than the body,
-- but together with the records as many bytes, nothing more is read from the client, and the task goes
-- on to the server with a body that is cut short.
pub start_task-short :
    (junk content_length : ℕ) {records input : Buffer} (sent body : Bytes)
    → Holds records sent
    → Holds input body
    → length body < content_length
    → content_length ≤ length sent + length body
    → let (task_buffer, task_len, status) = start_task junk content_length records input in
      (task_len ≡ pos 0) × (status ≡ write_fcgi) × Holds task_buffer (sent ++ body)
unfolding start_task
start_task-short junk content_length {records} {input} sent body h k short counted =
    let whole = append_buffer-Holds junk h k in
    let all : ltb (append_buffer junk records input).size content_length ≡ false =
      ground (arith, whole.body_length, length-append sent body, counted) in
    rw all (refl, refl, whole)

module _ (junk max_mem : ℕ) {P : Type 0} (parser : ContentParser P) (socket : ℕ → ℤ) where
  -- At the end of a streamed response, process_eof gives the socket back to a limited pool twice: the
  -- next two requests that ask the pool for a connection get this one socket both, as connected.
  pub process_eof-twice :
      (answers : List (List (Option ℕ))) (headers : List (Bytes × Bytes)) (status_text : Bytes)
      (cont : Continuation P) (w : Work) (pool : Pool) (n : ℕ)
      → parser.is_streaming cont.content_parser ≡ true
      → pool.max_n_sockets ≡ pos n
      → pool.initialized ≡ true
      → (w' : Work) × (p' : Pool) × (process_eof junk max_mem parser socket answers headers
            status_text cont w pool
          ≡ some (w', p'))
        × (let first = alloc_connection socket p' in
            let second = alloc_connection socket first.pool in
            (first.sock ≡ pos cont.sock_fd)
            × (second.sock ≡ pos cont.sock_fd)
            × (first.is_connected ≡ some true)
            × (second.is_connected ≡ some true))
  unfolding process_eof
  process_eof-twice answers headers status_text cont w pool n streams limited ready = (
    put_output junk max_mem parser socket cont
        (record w { response = record w.response { is_responded = true } }),
    reclaim_connection socket once (pos cont.sock_fd),
    rw streams refl,
    rw first (rw second (refl, refl, refl, refl)),
  )
    where
      once : Pool
      once = reclaim_connection socket pool (pos cont.sock_fd)

      second :
          alloc_connection socket once
          ≡ record { sock = pos cont.sock_fd; is_connected = some true; pool = pool }
      second = alloc_connection-reclaim socket pool (pos cont.sock_fd) n limited ready

      first :
          alloc_connection socket (reclaim_connection socket once (pos cont.sock_fd))
          ≡ record { sock = pos cont.sock_fd; is_connected = some true; pool = once }
      first =
          alloc_connection-reclaim socket once (pos cont.sock_fd) n
            ((reclaim_connection-kept socket pool (pos cont.sock_fd)).0 ∙ limited)
            ((reclaim_connection-kept socket pool (pos cont.sock_fd)).1 ∙ ready)

  -- The output of a streamed response that is handed to the write-back stage stays in the output
  -- buffer, so that process_eof sends it again: behind what was pending comes the output twice.
  pub streamed_twice :
      (answers : List (List (Option ℕ))) (headers : List (Bytes × Bytes)) (status_text : Bytes)
      (s : Completion P) (task_len : ℕ) (w : Work) (pool : Pool) (pending out : Bytes)
      → s.cont.status ≡ read_fcgi
      → s.cont.task_len ≡ pos (suc task_len)
      → parser.is_done s.cont.content_parser ≡ true
      → parser.is_streaming s.cont.content_parser ≡ true
      → Holds s.cont.output_buffer out
      → task_buffer_limit < length out
      → SendsAll s.out_stream.writeables pending
      → let t = transfer_status junk parser true true s in
        w.conn.out_stream ≡ t.out_stream
        → (t.cont.status ≡ continued)
          × (t.written_back ≡ suc s.written_back)
          × (w' : Work) × (p' : Pool) × (process_eof junk max_mem parser socket answers headers
                status_text t.cont w pool
              ≡ some (w', p'))
          × SendsAll w'.conn.out_stream.writeables ((pending ++ out) ++ out)
  unfolding process_eof put_output
  streamed_twice answers headers status_text s task_len w pool pending out reading more done streams
        h long all same =
      let (status, written, buffered, parsed, put) =
        transfer_status-Streams junk parser s task_len reading more done streams
          (omega (arith, long, h.body_length)) in
      let once = (append-SendsAll junk s.out_stream pending all).3 s.cont.output_buffer out h in
      (
        status,
        written,
        put_output junk max_mem parser socket t.cont
            (record w { response = record w.response { is_responded = true } }),
        reclaim_connection socket (reclaim_connection socket pool (pos t.cont.sock_fd))
            (pos t.cont.sock_fd),
        rw (ap parser.is_streaming parsed ∙ streams) refl,
        (append-SendsAll junk w.conn.out_stream (pending ++ out)
              (subst (λ o. SendsAll o.writeables (pending ++ out)) (sym (same ∙ put)) once)).3
            t.cont.output_buffer out (subst (λ b. Holds b out) (sym buffered) h),
      )
    where
      t : Completion P
      t = transfer_status junk parser true true s
