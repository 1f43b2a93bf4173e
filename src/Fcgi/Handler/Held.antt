-- ===== src/Fcgi/Handler/Held.antt =====
-- Who holds a continuation when its handler has run: the completion stage again, or no one.
mod Tests
use tube.Common.{
  ℕ, zero, suc, ◌+◌, ◌<◌, Bytes, Bool, true, false, not, List, Option, none, some, ◌==◌,
  if◌then◌else◌, ◌≡◌, refl, ap, sym, ◌∙◌, subst, arith, Bool-cases, inl, inr, ◌⊎◌,
}
use tube.Common.Int.{ℤ, pos}
use tube.Core.Connection.{has_continuation, reset_continuation}
use tube.Core.PollIn.{replace_timer}
use tube.Fcgi.Completion.{
  CompletionStatus, read_fcgi, headers_done, continued, eof, is_zero, ContentParser, Continuation,
  Completion, with_cont, sched_add, update_last_active, watch,
}
use tube.Fcgi.Completion.Parse.{run_parser}
use tube.Fcgi.Completion.Reads.Kept.{Keeps, run_parser-Keeps}
use tube.Fcgi.Completion.Watches.{waits, AreWatched, handed, IsHeld}
use tube.Fcgi.Completion.Watches.Adds.{sched_add-cont, IsFree, IsHeld-IsFree, sched_add-IsHeld}
use tube.Fcgi.Handler.Resume.{
  Resumed, yields, ends, ended, headers_loop, start_response, yield, after_loop,
  process_headers_done, process_continue, resume_by, handle_request,
}
use tube.Fcgi.Handler.{process_eof}
use tube.Fcgi.Pool.{Pool}
use tube.Http.Handler.{Work}

module _ (junk max_mem : ℕ) {P : Type 0} (parser : ContentParser P) (socket : ℕ → ℤ)
    (fine : (p : P) → parser.is_done p ≡ true → parser.has_error p ≡ false) where
  -- From one continuation to another by the records that run_parser takes, none of which ends the
  -- answer.
  pub data Takes : Continuation P → Continuation P → Type 0 where
    takes_none : {cont : Continuation P} → Takes cont cont
    takes_one :
        {cont last : Continuation P}
        → (run_parser junk parser cont).0 ≡ true
        → is_zero (run_parser junk parser cont).1.task_len ≡ false
        → Takes (run_parser junk parser cont).1 last
        → Takes cont last

  -- The loop behind those records: it stops, or a last record ends the answer.
  abbrev pub Stops : Continuation P → Continuation P → Type 0
  Stops cont next =
      (last : Continuation P) × Takes cont last
      × ((run_parser junk parser last).0 ≡ false)
      × (next ≡ record (run_parser junk parser last).1 { status = read_fcgi })

  abbrev pub Finishes : Continuation P → Continuation P → Type 0
  Finishes cont next =
      (last : Continuation P) × Takes cont last
      × ((run_parser junk parser last).0 ≡ true)
      × (is_zero (run_parser junk parser last).1.task_len ≡ true)
      × (next ≡ record (run_parser junk parser last).1 { status = eof })

  -- With enough fuel the loop ends, at the end of the answer or where more is to be read.
  headers_loop-ends :
      (fuel : ℕ) (cont : Continuation P)
      → cont.task_buffer.size < fuel
      → parser.is_done cont.content_parser ≡ true
      → (next : Continuation P) × (headers_loop junk max_mem parser socket fuel cont ≡ some next)
        × (next.sock_fd ≡ cont.sock_fd)
        × (Finishes cont next ⊎ Stops cont next)
  unfolding headers_loop
  headers_loop-ends zero cont lt done = absurd (omega arith)
  headers_loop-ends (suc fuel) cont lt done = elim (Bool-cases (run_parser junk parser cont).0) [
    | inr stops ↦
        rw stops (
          record next { status = read_fcgi },
          refl,
          kept.0.sock,
          inr (cont, takes_none, stops, refl),
        )
    | inl ran ↦ rw ran (elim (Bool-cases (is_zero next.task_len)) [
      | inl last ↦
          rw last (
            record next { status = eof },
            refl,
            kept.0.sock,
            inl (cont, takes_none, ran, last, refl),
          )
      | inr more ↦
          rw (more, fine next.content_parser still)
            (let (end, looped, sock, at) =
                headers_loop-ends fuel next (omega (arith, lt, kept.1 ran)) still in
              (
                end,
                looped,
                sock ∙ kept.0.sock,
                elim at [
                  | inl (last, takes, ran', zero_left, e) ↦
                      inl (last, takes_one ran more takes, ran', zero_left, e)
                  | inr (last, takes, stops, e) ↦ inr (last, takes_one ran more takes, stops, e)
                ],
              ))
    ])
  ]
    where
      next : Continuation P
      next = (run_parser junk parser cont).1

      kept :
          Keeps junk parser cont next
          × ((run_parser junk parser cont).0 ≡ true → next.task_buffer.size < cont.task_buffer.size)
      kept = run_parser-Keeps junk parser cont

      still : parser.is_done next.content_parser ≡ true
      still = ap parser.is_done (kept.0.done done) ∙ done

  module _ (answers later : List (List (Option ℕ))) (headers : List (Bytes × Bytes))
      (status_text : Bytes) (now address : ℕ) where
    -- The continuation as it is yielded: the poller watches the server's descriptor alone, and
    -- the connection is suspended.
    abbrev pub Yields : ℕ → ℕ → Continuation P → Option (Resumed P) → Type 0
    Yields before conn_fd cont r =
        (t : Completion P) × (w : Work) × (r ≡ some (yields t w))
        × IsHeld before t
        × (t.cont ≡ record cont { status = read_fcgi; last_active = now })
        × (t.conn_fd ≡ conn_fd)
        × (t.poller.fds cont.sock_fd ≡ true)
        × (t.poller.fds conn_fd ≡ false)
        × (has_continuation w.conn ≡ true)

    yield-Yields :
        (before : ℕ) (s : Completion P) (w : Work)
        → IsFree before s
        → s.cont.status ≡ read_fcgi
        → Yields
            (before + 1)
            s.conn_fd
            s.cont
            (some (yield junk max_mem parser socket true now address s w))
    yield-Yields before s w f e =
        let h =
          sched_add-IsHeld before now held
            (record {
              two_fds = f.two_fds;
              no_sock = f.no_sock;
              no_conn = f.no_conn;
              once = f.once;
            })
            e in
        let (same, fd) = sched_add-cont true now held in
        let watched =
          subst (λ k. AreWatched k.status (t.poller.fds k.sock_fd) (t.poller.fds t.conn_fd))
            (same ∙ ap (λ st. record s.cont { status = st; last_active = now }) e) h.watched in
        (
          t,
          _,
          refl,
          h,
          same ∙ ap (λ st. record s.cont { status = st; last_active = now }) e,
          fd,
          watched.0,
          ap t.poller.fds (sym fd) ∙ watched.1,
          refl,
        )
      where
        held : Completion P
        held = record s { out_stream = w.conn.out_stream }

        t : Completion P
        t = sched_add true now held

    at_cont :
        (before : ℕ) (s : Completion P) (cont : Continuation P)
        → cont.sock_fd ≡ s.cont.sock_fd
        → IsFree before s
        → IsFree before (with_cont cont s)
    at_cont before s cont sock f = record {
      two_fds = ap (λ k. k == s.conn_fd) sock ∙ f.two_fds;
      no_sock = ap s.poller.fds sock ∙ f.no_sock;
      no_conn = f.no_conn;
      once = f.once;
    }

    free :
        {before : ℕ} (s : Completion P)
        → IsHeld before s
        → (status : CompletionStatus) → s.cont.status ≡ status
        → waits status ≡ false
        → (AreWatched status (s.poller.fds s.cont.sock_fd) (s.poller.fds s.conn_fd)
            → (s.poller.fds s.cont.sock_fd ≡ false) × (s.poller.fds s.conn_fd ≡ false))
        → IsFree before s
    free s h status e handed_on watched =
        IsHeld-IsFree
          (watched (
            subst (λ st. AreWatched st (s.poller.fds s.cont.sock_fd) (s.poller.fds s.conn_fd)) e
              h.watched))
          (ap waits e ∙ handed_on) h

    -- For a continuation that the completion stage has handed on once, behind the headers or a part of
    -- a stream, when the response can be started, the content parser has no error behind the headers,
    -- and the operating system takes the descriptor: the handler ends. Behind a part of a stream it
    -- gives the continuation, but for its status and time as it was, back to the poller, which then
    -- watches the server's descriptor for it and not the client's, and suspends the connection. Behind
    -- the headers it takes the records that are there, one after the other; when one ends the answer,
    -- it leaves what process_eof leaves of the continuation then, and otherwise it gives back the
    -- continuation that it then has in the same way.
    pub handle_request-Yields :
        (before : ℕ) (s : Completion P) (w made : Work) (pool : Pool)
        → IsHeld before s
        → (s.cont.status ≡ continued
            ⊎ (s.cont.status ≡ headers_done)
              × (parser.is_done s.cont.content_parser ≡ true)
              × (start_response junk max_mem parser socket answers headers status_text s.cont
                    (record w { conn = reset_continuation w.conn })
                  ≡ some made))
        → let r =
            handle_request junk max_mem parser socket answers later headers status_text true now
              address s w pool in
          (s.cont.status ≡ continued) × Yields (before + 1) s.conn_fd s.cont r
          ⊎ ((cont : Continuation P) × Stops s.cont cont × Yields (before + 1) s.conn_fd cont r)
          ⊎ ((cont : Continuation P) × Finishes s.cont cont
              × (r
                  ≡ ended junk max_mem parser socket (
                      process_eof junk max_mem parser socket later headers status_text cont made
                        pool)))
    unfolding handle_request resume_by process_headers_done after_loop
    handle_request-Yields before s w made pool h (inl e) = inl (
      e,
      simp e (
          yield-Yields before _ (record w { conn = reset_continuation w.conn })
            (at_cont before s (record s.cont { status = read_fcgi }) refl
              (free s h continued e refl (λ x. x)))
            refl),
    )
    handle_request-Yields before s w made pool h (inr (e, done, starts)) =
        let (cont, looped, sock, at) =
          headers_loop-ends (suc s.cont.task_buffer.size) s.cont (omega arith) done in
        simp e (
          rw (fine s.cont.content_parser done, starts, looped)
            (elim at [
              | inl (last, takes, ran, zero_left, e') ↦
                  rw (ap (λ k. k.status) e')
                    (inr (inr (cont, (last, takes, ran, zero_left, e'), refl)))
              | inr (last, takes, ends_here, e') ↦ rw (ap (λ k. k.status) e') (
                  inr (
                    inl (
                      cont,
                      (last, takes, ends_here, e'),
                      yield-Yields before (with_cont cont s) made
                          (at_cont before s cont sock (free s h headers_done e refl (λ x. x)))
                          (ap (λ k. k.status) e'),
                    )))
            ]))
