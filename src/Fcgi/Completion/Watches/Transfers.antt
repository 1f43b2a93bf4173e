-- ===== src/Fcgi/Completion/Watches/Transfers.antt =====
-- transfer_status leaves a continuation with one holder.
use tube.Common.{
  ℕ, suc, ◌+◌, true, false, ◌&&◌, ◌||◌, ltb, ◌==◌, if◌then◌else◌, ◌≡◌, refl, ap, ◌∙◌, subst, arith,
  Bool-cases, inl, inr,
}
use tube.Fcgi.Completion.{
  task_buffer_limit, is_zero, is_minus_one, CompletionStatus, read_client, write_fcgi, read_fcgi,
  headers_done, continued, eof, failed, timed_out, ContentParser, Completion, remove_fd_with_timer,
  stream_write_back,
}
use tube.Fcgi.Completion.Transfer.{
  transfer_status, transfer_from, transfer_read_client, transfer_write_fcgi, transfer_read_fcgi,
}
use tube.Fcgi.Completion.Watches.{
  waits, other_way, itself, handed, IsWatched, IsHeld, remove_fd_with_timer-fds, watch-fds,
}

module _ {P : Type 0} (junk : ℕ) (parser : ContentParser P) where
  transfer_read_client-IsHeld :
      (before : ℕ) (s : Completion P)
      → s.cont.status ≡ read_client
      → IsHeld before s
      → IsHeld before (transfer_read_client junk parser true true s)
  unfolding transfer_read_client remove_fd_with_timer
  transfer_read_client-IsHeld before s e h =
      elim (Bool-cases (ltb task_buffer_limit s.cont.task_buffer.size || is_zero s.cont.task_len)) [
        | inl full ↦ rw full (record {
          two_fds = h.two_fds;
          watched = (
            watch-fds s.cont.sock_fd s.cont.sock_fd left ∙ rw (itself s.cont.sock_fd) refl,
            watch-fds s.cont.sock_fd s.conn_fd left
                ∙ rw (other_way s.cont.sock_fd s.conn_fd h.two_fds)
                    (remove_fd_with_timer-fds s.conn_fd s.conn_fd s ∙ rw (itself s.conn_fd) refl),
          );
          once = h.once ∙ ap (λ st. before + (if waits st then 0 else 1)) e;
        })
        | inr more ↦ rw more h
      ]
    where
      left : Completion P
      left = remove_fd_with_timer true s.conn_fd s

  transfer_write_fcgi-IsHeld :
      (before : ℕ) (s : Completion P)
      → s.cont.status ≡ write_fcgi
      → IsHeld before s
      → IsHeld before (transfer_write_fcgi junk parser s)
  unfolding transfer_write_fcgi
  transfer_write_fcgi-IsHeld before s e h =
      elim (Bool-cases (s.cont.task_buffer.size == 0 && is_zero s.cont.task_len)) [
        | inl sent ↦ rw sent (record {
          two_fds = h.two_fds;
          watched = subst (λ st. IsWatched st s) e h.watched;
          once = h.once ∙ ap (λ st. before + (if waits st then 0 else 1)) e;
        })
        | inr more ↦ rw more h
      ]

  unwatched :
      (status : CompletionStatus) (s : Completion P)
      → waits status ≡ false
      → s.poller.fds s.cont.sock_fd ≡ false
      → s.poller.fds s.conn_fd ≡ false
      → IsWatched status s
  unwatched read_client s = λ ends. cc ends
  unwatched write_fcgi s = λ ends. cc ends
  unwatched read_fcgi s = λ ends. cc ends
  unwatched headers_done s = λ ends sock conn. (sock, conn)
  unwatched continued s = λ ends sock conn. (sock, conn)
  unwatched eof s = λ ends sock conn. (sock, conn)
  unwatched failed s = λ ends sock conn. (sock, conn)
  unwatched timed_out s = λ ends sock conn. (sock, conn)

  -- The poller gives up the descriptor that it watches, and the continuation is handed on.
  pub handed_on :
      (before : ℕ) (s t : Completion P)
      → handed s ≡ before
      → (s.cont.sock_fd == s.conn_fd) ≡ false
      → waits t.cont.status ≡ false
      → t.cont.sock_fd ≡ s.cont.sock_fd
      → t.conn_fd ≡ s.conn_fd
      → t.poller.fds s.cont.sock_fd ≡ false
      → t.poller.fds s.conn_fd ≡ false
      → handed t ≡ suc (handed s)
      → IsHeld before t
  handed_on before s t h two ends sock conn no_sock no_conn once = record {
    two_fds = ap (λ k. k == t.conn_fd) sock ∙ ap (λ k. s.cont.sock_fd == k) conn ∙ two;
    watched =
        unwatched t.cont.status t ends (ap t.poller.fds sock ∙ no_sock)
          (ap t.poller.fds conn ∙ no_conn);
    once = rw ends (omega (arith, once, h));
  }

  transfer_read_fcgi-IsHeld :
      (before : ℕ) (s : Completion P)
      → s.cont.status ≡ read_fcgi
      → IsHeld before s
      → IsHeld before (transfer_read_fcgi junk parser true s)
  unfolding transfer_read_fcgi remove_fd_with_timer stream_write_back
  transfer_read_fcgi-IsHeld before s e h =
      elim (Bool-cases (parser.is_done s.cont.content_parser)) [
        | inr more ↦ rw more h
        | inl done ↦ rw done (elim (Bool-cases (is_minus_one s.cont.task_len)) [
          | inl first ↦ rw first (leaves _ refl refl refl refl (omega arith))
          | inr later ↦ rw later (elim (Bool-cases (is_zero s.cont.task_len)) [
            | inl ended ↦ rw ended (leaves _ refl refl refl refl (omega arith))
            | inr going ↦
                rw going
                  (elim (Bool-cases (
                    parser.is_streaming s.cont.content_parser
                    && ltb task_buffer_limit s.cont.output_buffer.size)) [
                      | inl streams ↦ rw streams (leaves _ refl refl refl refl (omega arith))
                      | inr keeps ↦ rw keeps h
                    ])
          ])
        ])
      ]
    where
      still : handed s ≡ before
      still = h.once ∙ ap (λ st. before + (if waits st then 0 else 1)) e ∙ omega arith

      leaves :
          (t : Completion P)
          → waits t.cont.status ≡ false
          → t.cont.sock_fd ≡ s.cont.sock_fd
          → t.conn_fd ≡ s.conn_fd
          → t.poller ≡ (remove_fd_with_timer true s.cont.sock_fd s).poller
          → handed t ≡ suc (handed s)
          → IsHeld before t
      leaves t ends sock conn gone once =
          handed_on before s t still h.two_fds ends sock conn
            (ap (λ p. p.fds s.cont.sock_fd) gone
              ∙ remove_fd_with_timer-fds s.cont.sock_fd s.cont.sock_fd s
              ∙ rw (itself s.cont.sock_fd) refl)
            (ap (λ p. p.fds s.conn_fd) gone
              ∙ remove_fd_with_timer-fds s.cont.sock_fd s.conn_fd s
              ∙ rw (other_way s.cont.sock_fd s.conn_fd h.two_fds)
                  (subst (λ st. IsWatched st s) e h.watched).1)
            once

  pub transfer_status-IsHeld :
      (before : ℕ) (s : Completion P)
      → IsHeld before s
      → IsHeld before (transfer_status junk parser true true s)
  unfolding transfer_status transfer_from
  transfer_status-IsHeld before s h = by_status s.cont.status refl
    where
      by_status :
          (status : CompletionStatus)
          → s.cont.status ≡ status
          → IsHeld before (transfer_from junk parser status true true s)
      by_status read_client e = transfer_read_client-IsHeld before s e h
      by_status write_fcgi e = transfer_write_fcgi-IsHeld before s e h
      by_status read_fcgi e = transfer_read_fcgi-IsHeld before s e h
      by_status headers_done e = h
      by_status continued e = h
      by_status eof e = h
      by_status failed e = h
      by_status timed_out e = h
