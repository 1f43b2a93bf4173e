-- ===== src/Http/Stages/Balance.antt =====
-- The balance of locks, and that a thread's first and last steps and the loop of a poller keep it.
pub mod Handled
use tube.Common.{
  ℕ, zero, suc, ◌+◌, Bool, true, false, ◌&&◌, ◌||◌, not, List, [], ◌∷◌, ◌++◌, Option, ◌==◌, ==_iff,
  if◌then◌else◌, get_elem?, ◌≡◌, refl, sym, ◌∙◌, arith, Bool-cases, Option-cases, inl, inr, ◌⊎◌,
}
use tube.Common.Int.{pos, ltb_ℤ}
use tube.Core.Connection.{
  Connection, update_last_active, new_connection, unlock, try_lock, has_continuation,
}
use tube.Core.Stream.{Stream, is_done, write_into_output, output_code}
use tube.Core.Scheduler.Conns.{enqueue}
use tube.Core.Response.{keeps_lock, flushes_silently}
use tube.Core.Stages.{
  Server, at_conn, by_fd, cleanup_connection, disable_poll, enable_poll, dispose_connection,
  block_out_add, block_out_process,
}
use tube.Core.Stages.Loop.{
  trigger_timer_callback, max_recycle_count, dispose_expired, post_handle_connection,
}
use tube.Http.Stages.{handled_server, parser_process, handler_process, resched_continuation}
use tube.Http.Stages.Counts.{count, count-middle, without_none, count-enqueue}
use tube.Http.Stages.Keeps.{
  Keeps, Keeps-trans, cleanup_connection-Keeps, enable_poll-Keeps, trigger_timer_callback-Keeps,
}
use tube.Http.Stages.Runs.{still_locked}

abbrev pub held : ℕ → Server → ℕ
held c s = if (s.conns c).locked then 1 else 0

-- The lock of a connection is held exactly while a thread works on it, a continuation has it, or it
-- waits in the write-back stage, and then by one of these alone.
abbrev pub Balanced : Server → List ℕ → List ℕ → Type 0
Balanced s working suspended =
    (c : ℕ) → count c working + count c suspended + count c s.write_back ≡ held c s

pub Keeps-Balanced :
    {s t : Server} (working suspended : List ℕ)
    → Keeps s t
    → Balanced s working suspended
    → Balanced t working suspended
Keeps-Balanced working suspended k b c = rw (k.locks c, k.queue) (b c)

module _ (s : Server) (suspended : List ℕ) where
  -- A thread takes a connection that is not locked.
  pub taken :
      (c : ℕ) (working : List ℕ)
      → (s.conns c).locked ≡ false
      → Balanced s working suspended
      → Balanced (at_conn c (λ conn. (try_lock conn).1) s) (c ∷ working) suspended
  taken c working free b d = elim (Bool-cases (d == c)) [
    | inl same ↦ rw ((==_iff d c).0 same) (let all = b c in ground (arith, all, free))
    | inr other ↦ rw other (let all = b d in ground (arith, all, other))
  ]

  module _ (before after : List ℕ) (c : ℕ) (b : Balanced s (before ++ c ∷ after) suspended) where
    -- The connection that a thread is at work on is locked, and is nowhere else.
    pub alone :
        ((s.conns c).locked ≡ true)
        × (count c (before ++ after) ≡ 0)
        × (count c suspended ≡ 0)
        × (count c s.write_back ≡ 0)
    alone = let all = b c in let split = count-middle c c before after in ground (arith, all, split)

    pub given_back : Balanced (at_conn c unlock s) (before ++ after) suspended
    given_back d = elim (Bool-cases (d == c)) [
      | inl same ↦ rw same (rw ((==_iff d c).0 same) (omega (arith, alone)))
      | inr other ↦ rw other (
          let all = b d in
          let split = count-middle d c before after in ground (arith, all, split, other))
    ]

    pub kept_aside : Balanced s (before ++ after) (c ∷ suspended)
    kept_aside d = omega (arith, b d, count-middle d c before after)

    pub queued_up :
        Balanced
          (record s { write_back = enqueue by_fd c s.write_back })
          (before ++ after)
          suspended
    queued_up d =
        omega (arith, b d, count-middle d c before after, count-enqueue d c s.write_back alone.3)

dispose-Balanced :
    (c : ℕ) (s : Server) (working suspended : List ℕ)
    → Balanced s working suspended
    → Balanced (dispose_connection c s).1 working suspended
unfolding dispose_connection
dispose-Balanced c s working suspended b = elim (Bool-cases (s.conns c).locked) [
  | inl locked ↦ rw locked b
  | inr free ↦
      rw free
        (λ d. rw (without_none c s.write_back (let all = b c in ground (arith, all, free))) (b d))
]

dispose_expired-Balanced :
    (left : ℕ) (cs : List ℕ) (s : Server) (working suspended : List ℕ)
    → Balanced s working suspended
    → Balanced (dispose_expired left cs s).1 working suspended
unfolding dispose_expired
dispose_expired-Balanced left [] s working suspended b = b
dispose_expired-Balanced zero (c ∷ cs) s working suspended b = b
dispose_expired-Balanced (suc left) (c ∷ cs) s working suspended b =
    elim (Bool-cases (dispose_connection c s).0) [
      | inl gone ↦
          rw (gone, dispose_expired)
            (dispose_expired-Balanced left cs (dispose_connection c s).1 working suspended
              (dispose-Balanced c s working suspended b))
      | inr kept ↦
          rw (kept, dispose_expired) (dispose_expired-Balanced (suc left) cs s working suspended b)
    ]

pub loop-Balanced :
    (timer_free free : Bool) (accepts : ℕ → Bool) (now timeout i : ℕ) (s : Server)
    (working suspended : List ℕ)
    → Balanced s working suspended
    → Balanced (post_handle_connection timer_free free accepts now timeout i s) working suspended
unfolding post_handle_connection
loop-Balanced timer_free free accepts now timeout i s working suspended b c =
    elim (Bool-cases free) [
      | inl open_mutex ↦ elim (Option-cases (get_elem? t.poll_in.pollers i)) [
        | inl nowhere ↦ rw (open_mutex) (rw nowhere (triggered c))
        | inr found ↦ rw (open_mutex) (
            rw found.1 (
              dispose_expired-Balanced max_recycle_count found.0.expired t working suspended
                triggered c))
      ]
      | inr taken_mutex ↦ rw taken_mutex (triggered c)
    ]
  where
    t : Server
    t = trigger_timer_callback timer_free accepts now timeout i s

    triggered : Balanced t working suspended
    triggered =
        Keeps-Balanced working suspended
          (trigger_timer_callback-Keeps timer_free accepts now timeout i s) b
