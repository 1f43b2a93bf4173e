-- ===== src/Fcgi/Completion/Watches.antt =====
-- Who holds a continuation: the poller by one descriptor, or its handler once.
pub mod Transfers
pub mod Aborts
pub mod Adds
use tube.Common.{
  ℕ, zero, suc, ◌+◌, ◌-◌, ◌≤◌, ◌<◌, Bytes, Bool, true, false, ◌&&◌, ◌||◌, not, List, [], ◌∷◌,
  Option, none, some, ltb, ◌==◌, if◌then◌else◌, ==_iff, length, ◌≡◌, refl, ap, sym, ◌∙◌, subst,
  arith, Bool-cases, Option-cases, inl, inr, ◌⊎◌,
}
use tube.Core.Buffer.{Buffer, pop, copy_front}
use tube.Core.PollIn.{IoPoller, add_fd, remove_fd, remove_timer, replace_timer}
use tube.Fcgi.Proto.{Record, record_size, extract_record, extract_from, bypass_content}
use tube.Fcgi.Completion.{
  task_buffer_limit, is_zero, is_minus_one, CompletionStatus, read_client, write_fcgi, read_fcgi,
  headers_done, continued, eof, failed, timed_out, ContentParser, Continuation, Completion,
  handle_error, watch, remove_fd_with_timer, stream_write_back, timer_key, leave_fcgi, leave_fd,
  abort, update_idle_handler, cleanup_idle_callback, update_last_active, sched_add,
}
use tube.Fcgi.Completion.Parse.{parsed, feed, feed_content, bypassed, run_record, run_parser}
use tube.Fcgi.Completion.Transfer.{
  parse_loop, transfer_status, transfer_from, transfer_read_client, transfer_write_fcgi,
  transfer_read_fcgi, after_read, after_write, count_read, handle_read, handle_write,
}

abbrev pub waits : CompletionStatus → Bool
waits read_client = true
waits write_fcgi = true
waits read_fcgi = true
waits _ = false

pub other_way : (a b : ℕ) → (a == b) ≡ false → (b == a) ≡ false
other_way a b e = ground arith

pub itself : (a : ℕ) → (a == a) ≡ true
itself a = ground arith

pub remove_fd-fds :
    (c d : ℕ) (p : IoPoller) → (remove_fd true c p).1.fds d ≡ (if d == c then false else p.fds d)
unfolding remove_fd
remove_fd-fds c d p = elim (Bool-cases (p.fds c)) [
  | inl watched ↦ rw watched refl
  | inr free ↦ rw free (elim (Bool-cases (d == c)) [
    | inl same ↦ rw same (ap p.fds ((==_iff d c).0 same) ∙ free)
    | inr other ↦ rw other refl
  ])
]

-- By its status: whether the poller watches the descriptors of the server and of the client.
abbrev pub AreWatched : CompletionStatus → Bool → Bool → Type 0
AreWatched read_client sock conn = (conn ≡ true) × (sock ≡ false)
AreWatched write_fcgi sock conn = (sock ≡ true) × (conn ≡ false)
AreWatched read_fcgi sock conn = (sock ≡ true) × (conn ≡ false)
AreWatched _ sock conn = (sock ≡ false) × (conn ≡ false)

module _ {P : Type 0} where
  -- How often the continuation was handed on.
  abbrev pub handed : Completion P → ℕ
  handed s = s.rescheduled + s.written_back

  abbrev pub IsWatched : CompletionStatus → Completion P → Type 0
  IsWatched status s = AreWatched status (s.poller.fds s.cont.sock_fd) (s.poller.fds s.conn_fd)

  -- Since a time at which it had been handed on `before` times: it is watched and not handed on, or
  -- it is not watched and was handed on once.
  pub record IsHeld (before : ℕ) (s : Completion P) : Type 0 where
    pub two_fds : (s.cont.sock_fd == s.conn_fd) ≡ false
    pub watched : IsWatched s.cont.status s
    pub once : handed s ≡ before + (if waits s.cont.status then 0 else 1)

  pub remove_fd_with_timer-fds :
      (c d : ℕ) (s : Completion P)
      → (remove_fd_with_timer true c s).poller.fds d ≡ (if d == c then false else s.poller.fds d)
  unfolding remove_fd_with_timer remove_timer
  remove_fd_with_timer-fds c d s = remove_fd-fds c d (remove_timer (timer_key s) s.poller)

  pub watch-fds :
      (c d : ℕ) (s : Completion P)
      → (watch true c s).poller.fds d ≡ (if d == c then true else s.poller.fds d)
  unfolding add_fd
  watch-fds c d s = elim (Bool-cases (s.poller.fds c)) [
    | inl watched ↦ rw watched (elim (Bool-cases (d == c)) [
      | inl same ↦ rw same (ap s.poller.fds ((==_iff d c).0 same) ∙ watched)
      | inr other ↦ rw other refl
    ])
    | inr free ↦ rw free refl
  ]
