-- ===== src/Fcgi/Completion/Watches/Adds.antt =====
-- sched_add gives a continuation that no one watches back to the poller.
use tube.Common.{
  Bool, ==_iff, ap, ℕ, ◌+◌, true, false, ◌==◌, ◌≡◌, refl, sym, ◌∙◌, subst, arith, Bool-cases, inl,
  inr,
}
use tube.Core.PollIn.{replace_timer}
use tube.Fcgi.Completion.{
  CompletionStatus, read_client, write_fcgi, headers_done, continued, eof, failed, timed_out,
  Continuation, read_fcgi, Completion, sched_add, update_last_active, watch, add_by, with_cont,
  timer_key,
}
use tube.Fcgi.Completion.Watches.{waits, itself, other_way, AreWatched, handed, IsHeld, watch-fds}

module _ {P : Type 0} where
  -- No descriptor of a continuation is watched, and it was handed on once.
  pub record IsFree (before : ℕ) (s : Completion P) : Type 0 where
    pub two_fds : (s.cont.sock_fd == s.conn_fd) ≡ false
    pub no_sock : s.poller.fds s.cont.sock_fd ≡ false
    pub no_conn : s.poller.fds s.conn_fd ≡ false
    pub once : handed s ≡ before + 1

  pub IsHeld-IsFree :
      {before : ℕ} {s : Completion P}
      → (s.poller.fds s.cont.sock_fd ≡ false) × (s.poller.fds s.conn_fd ≡ false)
      → waits s.cont.status ≡ false
      → IsHeld before s
      → IsFree before s
  IsHeld-IsFree none_watched handed_on h = record {
    two_fds = h.two_fds;
    no_sock = none_watched.0;
    no_conn = none_watched.1;
    once = h.once ∙ rw handed_on refl;
  }

  watch-IsHeld :
      (before : ℕ) (s : Completion P)
      → IsFree before s
      → s.cont.status ≡ read_fcgi
      → IsHeld (before + 1) (watch true s.cont.sock_fd s)
  watch-IsHeld before s f e = record {
    two_fds = f.two_fds;
    watched =
        subst
          (λ st.
            AreWatched st ((watch true s.cont.sock_fd s).poller.fds s.cont.sock_fd)
              ((watch true s.cont.sock_fd s).poller.fds s.conn_fd))
          (sym e)
          (
            watch-fds s.cont.sock_fd s.cont.sock_fd s ∙ rw (itself s.cont.sock_fd) refl,
            watch-fds s.cont.sock_fd s.conn_fd s
                ∙ rw (other_way s.cont.sock_fd s.conn_fd f.two_fds) f.no_conn,
          );
    once = f.once ∙ rw e (omega arith);
  }

  added :
      (before : ℕ) (t : Completion P)
      → IsFree before t
      → t.cont.status ≡ read_fcgi
      → IsHeld (before + 1) (add_by t.cont.status true t)
  unfolding add_by
  added before t f e =
      subst (λ st. IsHeld (before + 1) (add_by st true t)) (sym e) (watch-IsHeld before t f e)

  pub sched_add-IsHeld :
      (before now : ℕ) (s : Completion P)
      → IsFree before s
      → s.cont.status ≡ read_fcgi
      → IsHeld (before + 1) (sched_add true now s)
  unfolding sched_add update_last_active replace_timer add_by
  sched_add-IsHeld before now s f e = elim (Bool-cases (s.cont.last_active == now)) [
    | inl same ↦ rw same (
        added before (timed s.cont.last_active)
          (record { two_fds = f.two_fds; no_sock = f.no_sock; no_conn = f.no_conn; once = f.once })
          e)
    | inr later ↦ rw later (
        added before (timed now)
          (record { two_fds = f.two_fds; no_sock = f.no_sock; no_conn = f.no_conn; once = f.once })
          e)
  ]
    where
      timed : ℕ → Completion P
      timed unit =
          let t = with_cont (record s.cont { last_active = unit }) s in
          record t { poller = replace_timer (timer_key t) t.poller }

  add_by-cont :
      (status : CompletionStatus) (adds : Bool) (s : Completion P)
      → ((add_by status adds s).cont ≡ s.cont) × ((add_by status adds s).conn_fd ≡ s.conn_fd)
  unfolding add_by
  add_by-cont read_client adds s = (refl, refl)
  add_by-cont write_fcgi adds s = (refl, refl)
  add_by-cont read_fcgi adds s = (refl, refl)
  add_by-cont headers_done adds s = (refl, refl)
  add_by-cont continued adds s = (refl, refl)
  add_by-cont eof adds s = (refl, refl)
  add_by-cont failed adds s = (refl, refl)
  add_by-cont timed_out adds s = (refl, refl)

  active_now :
      (now : ℕ) (cont : Continuation P)
      → (update_last_active now cont).1 ≡ record cont { last_active = now }
  unfolding update_last_active
  active_now now cont = elim (Bool-cases (cont.last_active == now)) [
    | inl same ↦
        rw same (ap (λ t. record cont { last_active = t }) ((==_iff cont.last_active now).0 same))
    | inr later ↦ rw later refl
  ]

  -- Of the continuation sched_add changes the time alone.
  pub sched_add-cont :
      (adds : Bool) (now : ℕ) (s : Completion P)
      → ((sched_add adds now s).cont ≡ record s.cont { last_active = now })
        × ((sched_add adds now s).conn_fd ≡ s.conn_fd)
  unfolding sched_add
  sched_add-cont adds now s =
      let (same, fd) = add_by-cont s.cont.status adds _ in (same ∙ active_now now s.cont, fd)
