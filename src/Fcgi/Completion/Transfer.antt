-- ===== src/Fcgi/Completion/Transfer.antt =====
-- modules/mod_fcgi/fcgi_completion_stage.cc: transfer_status, handle_read and handle_write.
use tube.Common.{
  ℕ, zero, suc, Bytes, Bool, ◌&&◌, ◌||◌, not, Option, none, some, ltb, ◌==◌, if◌then◌else◌, length,
}
use tube.Common.Int.{pos, negsuc, ◌-ℤ◌}
use tube.Core.Buffer.{read_from_fd, write_to_fd}
use tube.Fcgi.Completion.{
  CompletionStatus, read_client, write_fcgi, read_fcgi, headers_done, continued, eof,
  is_headers_done, is_zero, is_minus_one, ContentParser, Completion, task_buffer_limit, int_max,
  with_cont, remove_fd_with_timer, watch, resched_continuation, update_idle_handler, handle_error,
  stream_write_back,
}
use tube.Fcgi.Completion.Parse.{run_parser}

module _ {P : Type 0} where
  module _ (junk : ℕ) (parser : ContentParser P) where
    abbrev pub at_status : CompletionStatus → Completion P → Completion P
    at_status status s = with_cont (record s.cont { status = status }) s

    unfoldable pub transfer_read_client : Bool → Bool → Completion P → Completion P
    transfer_read_client accepts adds s =
        let t = at_status write_fcgi (remove_fd_with_timer accepts s.conn_fd s) in
        if ltb task_buffer_limit s.cont.task_buffer.size || is_zero s.cont.task_len
        then watch adds t.cont.sock_fd t
        else s

    -- change_fd leaves the descriptor watched.
    unfoldable pub transfer_write_fcgi : Completion P → Completion P
    transfer_write_fcgi s =
        if s.cont.task_buffer.size == 0 && is_zero s.cont.task_len
        then with_cont (record s.cont { status = read_fcgi; task_len = negsuc 0 }) s
        else s

    unfoldable pub transfer_read_fcgi : Bool → Completion P → Completion P
    transfer_read_fcgi accepts s =
        let left = remove_fd_with_timer accepts s.cont.sock_fd s in
        if not (parser.is_done s.cont.content_parser)
        then s
        else if is_minus_one s.cont.task_len
        then resched_continuation
            (with_cont (record left.cont { status = headers_done; task_len = pos int_max }) left)
        else if is_zero s.cont.task_len
        then resched_continuation (at_status eof left)
        else if parser.is_streaming s.cont.content_parser
            && ltb task_buffer_limit s.cont.output_buffer.size
        then stream_write_back (at_status continued left)
        else s

    -- transfer_status, which returns the status that it leaves. The answers are those for leaving a
    -- descriptor and for watching one.
    unfoldable pub transfer_from : CompletionStatus → Bool → Bool → Completion P → Completion P
    transfer_from read_client accepts adds s = transfer_read_client accepts adds s
    transfer_from write_fcgi accepts adds s = transfer_write_fcgi s
    transfer_from read_fcgi accepts adds s = transfer_read_fcgi accepts s
    transfer_from _ accepts adds s = s

    unfoldable pub transfer_status : Bool → Bool → Completion P → Completion P
    transfer_status accepts adds s = transfer_from s.cont.status accepts adds s

    -- What a read stores, with handle_error for an error that is not EAGAIN.
    unfoldable pub after_read : Bool → Bool → Option Bytes → Completion P → Completion P
    after_read accepts again none s = if again then s else handle_error accepts s
    after_read accepts again (some bytes) s =
        with_cont
          (record s.cont { task_buffer = read_from_fd junk (some bytes) s.cont.task_buffer }) s

    abbrev pub count_read : Option Bytes → Completion P → Completion P
    count_read none s = s
    count_read (some bytes) s =
        with_cont (record s.cont { task_len = s.cont.task_len -ℤ pos (length bytes) }) s

    -- The loop of handle_read, on fuel; each record takes 8 bytes of the task buffer or more.
    unfoldable pub parse_loop : ℕ → Bool → Bool → Completion P → Option (Completion P)
    parse_loop zero accepts adds s = none
    parse_loop (suc fuel) accepts adds s =
        let ran = run_parser junk parser s.cont in
        let t = transfer_status accepts adds (with_cont ran.1 s) in
        let more = parse_loop fuel accepts adds t in
        if not ran.0
        then some (with_cont ran.1 s)
        else if is_headers_done t.cont.status
        then some t
        else if parser.has_error t.cont.content_parser
        then some (handle_error accepts t)
        else more

    -- handle_read behind update_idle_handler, by the status.
    unfoldable pub read_from :
        CompletionStatus → Bool → Bool → Bool → Option Bytes → Completion P → Option (Completion P)
    read_from read_client accepts adds again answer s =
        some (transfer_status accepts adds (count_read answer (after_read accepts again answer s)))
    read_from read_fcgi accepts adds again answer s =
        let t = after_read accepts again answer s in
        parse_loop (suc t.cont.task_buffer.size) accepts adds t
    read_from _ accepts adds again answer s = some s

    unfoldable pub handle_read :
        Bool → Bool → ℕ → Bool → Option Bytes → Completion P → Option (Completion P)
    handle_read accepts adds now again answer s =
        let t = update_idle_handler now s in read_from t.cont.status accepts adds again answer t

    -- What a write leaves in the task buffer, with handle_error for an error that is not EAGAIN.
    unfoldable pub after_write : Bool → Bool → Option ℕ → Completion P → Completion P
    after_write accepts again none s = if again then s else handle_error accepts s
    after_write accepts again (some n) s =
        with_cont (record s.cont { task_buffer = (write_to_fd (some n) s.cont.task_buffer).1 }) s

    -- handle_write behind update_idle_handler, by the status.
    unfoldable pub write_from :
        CompletionStatus → Bool → Bool → Bool → Option ℕ → Completion P → Completion P
    write_from write_fcgi accepts adds again answer s =
        transfer_status accepts adds (after_write accepts again answer s)
    write_from _ accepts adds again answer s = s

    unfoldable pub handle_write : Bool → Bool → ℕ → Bool → Option ℕ → Completion P → Completion P
    handle_write accepts adds now again answer s =
        let t = update_idle_handler now s in write_from t.cont.status accepts adds again answer t
