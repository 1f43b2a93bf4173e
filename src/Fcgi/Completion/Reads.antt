-- ===== src/Fcgi/Completion/Reads.antt =====
-- handle_read and handle_write end, and leave the continuation with one holder.
pub mod Kept
mod Tests
use tube.Common.{
  ℕ, zero, suc, ◌+◌, ◌-◌, ◌≤◌, ◌<◌, min, Bytes, Bool, true, false, ◌&&◌, ◌||◌, not, List, [], ◌∷◌,
  Option, none, some, ltb, ◌==◌, if◌then◌else◌, length, take, drop, ◌≡◌, refl, ap, sym, ◌∙◌, subst,
  arith, Bool-cases, is_none, inl, inr, ◌⊎◌,
}
use tube.Core.Buffer.{Buffer, pop, copy_front, segments, append, read_from_fd}
use tube.Common.Int.{ℤ}
use tube.Core.Buffer.Pop.{pop_size}
use tube.Fcgi.Proto.Records.{extract_record_size}
use tube.Fcgi.Proto.{
  Record, record_size, extract_record, extract_from, bypass_content, total_length, record_of,
}
use tube.Fcgi.Completion.{
  CompletionStatus, read_client, write_fcgi, read_fcgi, headers_done, continued, eof, failed,
  timed_out, ContentParser, Continuation, Completion, with_cont, cleanup_idle_callback,
  handle_error, update_idle_handler, remove_fd_with_timer, stream_write_back, is_zero, is_minus_one,
  task_buffer_limit, abort, is_headers_done, fcgi_end_request, fcgi_stdout, fcgi_stderr,
}
use tube.Fcgi.Completion.Parse.{parsed, feed, feed_content, bypassed, run_record, run_parser}
use tube.Fcgi.Completion.Transfer.{
  parse_loop, transfer_status, transfer_from, after_read, after_write, count_read, read_from,
  write_from, handle_read, handle_write, transfer_read_fcgi,
}
use tube.Fcgi.Completion.Watches.{IsHeld, IsWatched, AreWatched, waits, handed}
use tube.Fcgi.Completion.Watches.Transfers.{transfer_status-IsHeld}
use tube.Fcgi.Completion.Watches.Aborts.{abort-IsHeld, update_idle_handler-IsHeld}
use tube.Fcgi.Completion.Reads.Kept.{Keeps, run_parser-Keeps}

module _ (junk : ℕ) {P : Type 0} (parser : ContentParser P) where
  -- A parser that is done has no error to tell.
  module _ (fine : (p : P) → parser.is_done p ≡ true → parser.has_error p ≡ false) where
    -- While records are read: the answer is awaited, or it was handed on and the headers are done.
    abbrev Reads : Completion P → Type 0
    Reads s =
        (s.cont.status ≡ read_fcgi)
        ⊎ (waits s.cont.status ≡ false) × (parser.is_done s.cont.content_parser ≡ true)

    abbrev Goes : Completion P → Completion P → Type 0
    Goes s t =
        Reads t
        × (t.cont.content_parser ≡ s.cont.content_parser)
        × (t.cont.task_buffer ≡ s.cont.task_buffer)

    transfer_read_fcgi-Reads :
        (s : Completion P)
        → s.cont.status ≡ read_fcgi
        → Goes s (transfer_read_fcgi junk parser true s)
    unfolding transfer_read_fcgi remove_fd_with_timer stream_write_back
    transfer_read_fcgi-Reads s e = elim (Bool-cases (parser.is_done s.cont.content_parser)) [
      | inr more ↦ rw more (inl e, refl, refl)
      | inl done ↦ rw done (elim (Bool-cases (is_minus_one s.cont.task_len)) [
        | inl first ↦ rw first (inr (refl, done), refl, refl)
        | inr later ↦ rw later (elim (Bool-cases (is_zero s.cont.task_len)) [
          | inl ended ↦ rw ended (inr (refl, done), refl, refl)
          | inr going ↦
              rw going
                (elim (Bool-cases (
                  parser.is_streaming s.cont.content_parser
                  && ltb task_buffer_limit s.cont.output_buffer.size)) [
                    | inl streams ↦ rw streams (inr (refl, done), refl, refl)
                    | inr keeps ↦ rw keeps (inl e, refl, refl)
                  ])
        ])
      ])
    ]

    transfer_status-Reads :
        (s : Completion P) → Reads s → Goes s (transfer_status junk parser true true s)
    unfolding transfer_status transfer_from
    transfer_status-Reads s r = by_status s.cont.status refl
      where
        by_status :
            (status : CompletionStatus)
            → s.cont.status ≡ status
            → Goes s (transfer_from junk parser status true true s)
        by_status read_client e = elim r [ inl e' ↦ cc (e, e') | inr (ends, done) ↦ cc (e, ends) ]
        by_status write_fcgi e = elim r [ inl e' ↦ cc (e, e') | inr (ends, done) ↦ cc (e, ends) ]
        by_status read_fcgi e = transfer_read_fcgi-Reads s e
        by_status headers_done e = (r, refl, refl)
        by_status continued e = (r, refl, refl)
        by_status eof e = (r, refl, refl)
        by_status failed e = (r, refl, refl)
        by_status timed_out e = (r, refl, refl)

    Keeps-IsHeld :
        (before : ℕ) (s : Completion P) (cont : Continuation P)
        → Keeps junk parser s.cont cont
        → Reads s
        → IsHeld before s
        → Reads (with_cont cont s) × IsHeld before (with_cont cont s)
    Keeps-IsHeld before s cont k r h = (
      elim r [
        | inl e ↦ inl (k.status ∙ e)
        | inr (ends, done) ↦ inr (ap waits k.status ∙ ends, ap parser.is_done (k.done done) ∙ done)
      ],
      record {
        two_fds = ap (λ f. f == s.conn_fd) k.sock ∙ h.two_fds;
        watched =
            subst (λ st. AreWatched st (s.poller.fds cont.sock_fd) (s.poller.fds s.conn_fd))
              (sym k.status)
              (subst (λ f. AreWatched s.cont.status (s.poller.fds f) (s.poller.fds s.conn_fd))
                (sym k.sock) h.watched);
        once = h.once ∙ ap (λ st. before + (if waits st then 0 else 1)) (sym k.status);
      },
    )

    parse_loop-IsHeld :
        (fuel before : ℕ) (s : Completion P)
        → s.cont.task_buffer.size < fuel
        → Reads s
        → IsHeld before s
        → (t : Completion P) × (parse_loop junk parser fuel true true s ≡ some t) × IsHeld before t
    unfolding parse_loop handle_error
    parse_loop-IsHeld zero before s lt r h = absurd (omega arith)
    parse_loop-IsHeld (suc fuel) before s lt r h =
        elim (Bool-cases (run_parser junk parser s.cont).0) [
          | inr stops ↦ rw stops (next, refl, held)
          | inl ran ↦ rw ran (elim (Bool-cases (is_headers_done t.cont.status)) [
            | inl headers ↦ rw headers (t, refl, held_t)
            | inr more ↦ rw more (elim (Bool-cases (parser.has_error t.cont.content_parser)) [
              | inl error ↦ rw error (
                abort true failed true t,
                refl,
                elim goes.0 [
                  | inl reading ↦
                      abort-IsHeld junk parser before t failed true (ap waits reading) refl held_t
                  | inr (ends, done) ↦ cc (error, fine t.cont.content_parser done)
                ],
              )
              | inr well ↦ rw well (
                  parse_loop-IsHeld fuel before t
                    (omega (arith, lt, kept.1 ran, ap (λ b. b.size) goes.2)) goes.0 held_t)
            ])
          ])
        ]
      where
        kept :
            Keeps junk parser s.cont (run_parser junk parser s.cont).1
            × ((run_parser junk parser s.cont).0 ≡ true
                → (run_parser junk parser s.cont).1.task_buffer.size < s.cont.task_buffer.size)
        kept = run_parser-Keeps junk parser s.cont

        next : Completion P
        next = with_cont (run_parser junk parser s.cont).1 s

        reads : Reads next
        reads = (Keeps-IsHeld before s (run_parser junk parser s.cont).1 kept.0 r h).0

        held : IsHeld before next
        held = (Keeps-IsHeld before s (run_parser junk parser s.cont).1 kept.0 r h).1

        t : Completion P
        t = transfer_status junk parser true true next

        goes : Goes next t
        goes = transfer_status-Reads next reads

        held_t : IsHeld before t
        held_t = transfer_status-IsHeld junk parser before next held

    task-IsHeld :
        (before : ℕ) (b : Buffer) (len : ℤ) (s : Completion P)
        → IsHeld before s
        → IsHeld before (with_cont (record s.cont { task_buffer = b; task_len = len }) s)
    task-IsHeld before b len s h = record {
      two_fds = h.two_fds;
      watched = h.watched;
      once = h.once;
    }

    read_from-IsHeld :
        (before : ℕ) (answer : Option Bytes) (s : Completion P) (status : CompletionStatus)
        → s.cont.status ≡ status
        → IsHeld before s
        → (t : Completion P) × (read_from junk parser status true true (is_none answer) answer s
            ≡ some t)
          × IsHeld before t
    unfolding read_from after_read
    read_from-IsHeld before none s read_client e h =
        (_, refl, transfer_status-IsHeld junk parser before s h)
    read_from-IsHeld before (some bytes) s read_client e h =
        (_, refl, transfer_status-IsHeld junk parser before _ (task-IsHeld before _ _ s h))
    read_from-IsHeld before none s read_fcgi e h =
        parse_loop-IsHeld _ before s (omega arith) (inl e) h
    read_from-IsHeld before (some bytes) s read_fcgi e h =
        parse_loop-IsHeld _ before _ (omega arith) (inl e) (
          task-IsHeld before (read_from_fd junk (some bytes) s.cont.task_buffer) s.cont.task_len s
            h)
    read_from-IsHeld before answer s write_fcgi e h = (s, refl, h)
    read_from-IsHeld before answer s headers_done e h = (s, refl, h)
    read_from-IsHeld before answer s continued e h = (s, refl, h)
    read_from-IsHeld before answer s eof e h = (s, refl, h)
    read_from-IsHeld before answer s failed e h = (s, refl, h)
    read_from-IsHeld before answer s timed_out e h = (s, refl, h)

    write_from-IsHeld :
        (before : ℕ) (again : Bool) (answer : Option ℕ) (s : Completion P)
        (status : CompletionStatus)
        → s.cont.status ≡ status
        → IsHeld before s
        → IsHeld before (write_from junk parser status true true again answer s)
    unfolding write_from after_write handle_error
    write_from-IsHeld before true none s write_fcgi e h =
        transfer_status-IsHeld junk parser before s h
    write_from-IsHeld before false none s write_fcgi e h =
        transfer_status-IsHeld junk parser before (abort true failed true s)
          (abort-IsHeld junk parser before s failed true (ap waits e) refl h)
    write_from-IsHeld before again (some n) s write_fcgi e h =
        transfer_status-IsHeld junk parser before _ (task-IsHeld before _ s.cont.task_len s h)
    write_from-IsHeld before again answer s read_client e h = h
    write_from-IsHeld before again answer s read_fcgi e h = h
    write_from-IsHeld before again answer s headers_done e h = h
    write_from-IsHeld before again answer s continued e h = h
    write_from-IsHeld before again answer s eof e h = h
    write_from-IsHeld before again answer s failed e h = h
    write_from-IsHeld before again answer s timed_out e h = h

    -- For a continuation that a poller watches and that was not handed on, when the operating system
    -- takes each change of what is watched and the content parser has no error behind the headers:
    -- after a read that gives bytes or EAGAIN, which ends, after any write, and after the idle timeout,
    -- it has one holder still. Either the poller watches one descriptor for it and it was not handed
    -- on, or the poller watches none and it was handed on once.
    pub handle-IsHeld :
        (before now : ℕ) (again : Bool) (received : Option Bytes) (taken : Option ℕ)
        (s : Completion P)
        → IsHeld before s
        → waits s.cont.status ≡ true
        → ((t : Completion P) × (handle_read junk parser true true now (is_none received) received s
              ≡ some t)
            × IsHeld before t)
          × IsHeld before (handle_write junk parser true true now again taken s)
          × IsHeld before (cleanup_idle_callback true s).1
    unfolding handle_read handle_write cleanup_idle_callback
    handle-IsHeld before now again received taken s h waiting = (
      read_from-IsHeld before received (update_idle_handler now s) _ refl
          (update_idle_handler-IsHeld junk parser before now s h),
      write_from-IsHeld before again taken (update_idle_handler now s) _ refl
          (update_idle_handler-IsHeld junk parser before now s h),
      abort-IsHeld junk parser before s timed_out false waiting refl h,
    )
