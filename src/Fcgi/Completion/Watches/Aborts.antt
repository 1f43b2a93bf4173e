-- ===== src/Fcgi/Completion/Watches/Aborts.antt =====
-- abort and update_idle_handler leave a continuation with one holder.
use tube.Common.{ℕ, Bool, true, false, ◌==◌, ◌≡◌, refl, ◌∙◌, arith, Bool-cases, inl, inr}
use tube.Core.PollIn.{remove_timer, replace_timer}
use tube.Fcgi.Completion.{
  CompletionStatus, read_client, write_fcgi, read_fcgi, headers_done, continued, eof, failed,
  timed_out, ContentParser, Completion, remove_fd_with_timer, leave_fcgi, leave_fd, abort,
  update_idle_handler, update_last_active,
}
use tube.Fcgi.Completion.Watches.Transfers.{handed_on}
use tube.Fcgi.Completion.Watches.{
  waits, other_way, itself, remove_fd-fds, handed, IsWatched, IsHeld,
}

module _ {P : Type 0} (junk : ℕ) (parser : ContentParser P) where
  -- What leaving a descriptor changes.
  abbrev Leaves : Completion P → Completion P → Type 0
  Leaves s t =
      (t.cont.sock_fd ≡ s.cont.sock_fd)
      × (t.conn_fd ≡ s.conn_fd)
      × (t.poller.fds s.cont.sock_fd ≡ false)
      × (t.poller.fds s.conn_fd ≡ false)
      × (handed t ≡ handed s)

  leave_fcgi-Leaves :
      (with_timer : Bool) (s : Completion P)
      → (s.cont.sock_fd == s.conn_fd) ≡ false
      → s.poller.fds s.conn_fd ≡ false
      → Leaves s (leave_fcgi true with_timer s)
  unfolding leave_fcgi remove_fd_with_timer remove_timer
  leave_fcgi-Leaves true s two conn = (
    refl,
    refl,
    remove_fd-fds s.cont.sock_fd s.cont.sock_fd _ ∙ rw (itself s.cont.sock_fd) refl,
    remove_fd-fds s.cont.sock_fd s.conn_fd _ ∙ rw (other_way s.cont.sock_fd s.conn_fd two) conn,
    refl,
  )
  leave_fcgi-Leaves false s two conn = (
    refl,
    refl,
    remove_fd-fds s.cont.sock_fd s.cont.sock_fd _ ∙ rw (itself s.cont.sock_fd) refl,
    remove_fd-fds s.cont.sock_fd s.conn_fd _ ∙ rw (other_way s.cont.sock_fd s.conn_fd two) conn,
    refl,
  )

  leave_fd-Leaves :
      (status : CompletionStatus) (with_timer : Bool) (s : Completion P)
      → waits status ≡ true
      → (s.cont.sock_fd == s.conn_fd) ≡ false
      → IsWatched status s
      → Leaves s (leave_fd status true with_timer s)
  unfolding leave_fd remove_fd_with_timer remove_timer
  leave_fd-Leaves read_client with_timer s waiting two (conn, sock) = (
    refl,
    refl,
    remove_fd-fds s.conn_fd s.cont.sock_fd _ ∙ rw two sock,
    remove_fd-fds s.conn_fd s.conn_fd _ ∙ rw (itself s.conn_fd) refl,
    refl,
  )
  leave_fd-Leaves write_fcgi with_timer s waiting two (sock, conn) =
      leave_fcgi-Leaves with_timer s two conn
  leave_fd-Leaves read_fcgi with_timer s waiting two (sock, conn) =
      leave_fcgi-Leaves with_timer s two conn
  leave_fd-Leaves headers_done with_timer s waiting two no_fd = cc waiting
  leave_fd-Leaves continued with_timer s waiting two no_fd = cc waiting
  leave_fd-Leaves eof with_timer s waiting two no_fd = cc waiting
  leave_fd-Leaves failed with_timer s waiting two no_fd = cc waiting
  leave_fd-Leaves timed_out with_timer s waiting two no_fd = cc waiting

  pub abort-IsHeld :
      (before : ℕ) (s : Completion P) (status : CompletionStatus) (with_timer : Bool)
      → waits s.cont.status ≡ true
      → waits status ≡ false
      → IsHeld before s
      → IsHeld before (abort true status with_timer s)
  unfolding abort
  abort-IsHeld before s status with_timer waiting ends h =
      let (sock, conn, no_sock, no_conn, same) =
        leave_fd-Leaves s.cont.status with_timer s waiting h.two_fds h.watched in
      handed_on junk parser before s _ (h.once ∙ rw waiting (omega arith)) h.two_fds ends sock conn
        no_sock no_conn (omega (arith, same))

  pub update_idle_handler-IsHeld :
      (before now : ℕ) (s : Completion P)
      → IsHeld before s
      → IsHeld before (update_idle_handler now s)
  unfolding update_idle_handler update_last_active replace_timer remove_timer
  update_idle_handler-IsHeld before now s h = elim (Bool-cases (s.cont.last_active == now)) [
    | inl same ↦ rw same h
    | inr later ↦ rw later (record { two_fds = h.two_fds; watched = h.watched; once = h.once })
  ]
