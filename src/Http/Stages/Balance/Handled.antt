-- ===== src/Http/Stages/Balance/Handled.antt =====
-- The balance of locks over the tasks of the parser, the handler and the write-back stage.
use tube.Common.{
  ℕ, Bool, true, false, ◌&&◌, ◌||◌, not, List, ◌∷◌, ◌++◌, Option, ◌==◌, ==_iff, if◌then◌else◌, ◌≡◌,
  refl, sym, ◌∙◌, arith, Bool-cases, inl, inr, ◌⊎◌,
}
use tube.Common.Int.{pos, ltb_ℤ}
use tube.Core.Connection.{Connection, update_last_active, new_connection, unlock, has_continuation}
use tube.Core.Buffer.{Buffer}
use tube.Core.Stream.{append_buffer, Stream, is_done, write_into_output, output_code}
use tube.Core.Scheduler.Conns.{enqueue}
use tube.Core.Response.{keeps_lock, flushes_silently}
use tube.Core.Stages.{
  Server, at_conn, by_fd, cleanup_connection, disable_poll, enable_poll, block_out_add,
  block_out_process,
}
use tube.Http.Stages.{
  handled_server, parser_process, handler_process, resched_continuation, finish_task,
  stream_write_back,
}
use tube.Http.Stages.Counts.{count, count-middle, count-enqueue}
use tube.Http.Stages.Keeps.{Keeps, Keeps-trans, cleanup_connection-Keeps, enable_poll-Keeps}
use tube.Http.Stages.Runs.{still_locked, with_suspended}
use tube.Http.Stages.Balance.{Balanced, Keeps-Balanced, alone, given_back, kept_aside, queued_up}

pub parser_process-Keeps :
    (well ready : Bool) (accepts : ℕ → Bool) (c : ℕ) (s : Server)
    → Keeps s (parser_process well ready accepts c s)
unfolding parser_process
parser_process-Keeps well ready accepts c s = elim (Bool-cases ready) [
  | inl handed ↦ rw handed (record { locks = closed.locks; queue = closed.queue })
  | inr waits ↦ rw waits closed
]
  where
    closed : Keeps s (if well then s else cleanup_connection accepts c s)
    closed = elim (Bool-cases well) [
      | inl fine ↦ rw fine (record { locks = λ d. refl; queue = refl })
      | inr corrupted ↦ rw corrupted (cleanup_connection-Keeps accepts c s)
    ]

-- A handler's connection put in the place of one that is locked.
handled-Keeps :
    (remaining : Bool) (c : ℕ) (conn : Connection) (s : Server)
    → (s.conns c).locked ≡ true
    → Keeps s (handled_server remaining c (still_locked conn) s)
handled-Keeps remaining c conn s locked = elim (Bool-cases remaining) [
  | inl more ↦ rw more (record { locks = locks; queue = refl })
  | inr none_left ↦ rw none_left (record { locks = locks; queue = refl })
]
  where
    locks : (d : ℕ) → (if d == c then still_locked conn else s.conns d).locked ≡ (s.conns d).locked
    locks d = elim (Bool-cases (d == c)) [
      | inl same ↦ rw same (sym (rw ((==_iff d c).0 same) locked))
      | inr other ↦ rw other refl
    ]

-- Both answers of block_out_process, with what they leave.
pub write_cases :
    (answer : Option ℕ) (accepts : ℕ → Bool) (adds : Bool) (c : ℕ) (s : Server)
    → (t : Server) × Keeps s t
      × ((block_out_process answer accepts adds c s
            ≡ (true, record t { write_back = enqueue by_fd c t.write_back }))
          ⊎ (block_out_process answer accepts adds c s ≡ (false, t)))
unfolding block_out_process
write_cases answer accepts adds c s =
    elim (Bool-cases
      (not (is_done (write_into_output answer out).1) && ltb_ℤ (pos 0) (output_code answer out))) [
        | inl more ↦ (wrote, wrote_keeps, inl (rw more refl))
        | inr ends ↦
            elim (Bool-cases
              ((s.conns c).close_after_finish || ltb_ℤ (output_code answer out) (pos 0))) [
                | inl closes ↦ (
                  cleanup_connection accepts c wrote,
                  Keeps-trans wrote_keeps (cleanup_connection-Keeps accepts c wrote),
                  inr (rw (ends, closes) refl),
                )
                | inr stays ↦ (
                  enable_poll adds c wrote,
                  Keeps-trans wrote_keeps (enable_poll-Keeps adds c wrote),
                  inr (rw (ends, stays) refl),
                )
              ]
      ]
  where
    out : Stream
    out = (s.conns c).out_stream

    wrote : Server
    wrote = at_conn c (λ conn. record conn { out_stream = (write_into_output answer out).1 }) s

    wrote_keeps : Keeps s wrote
    wrote_keeps = record { locks = λ d. ground arith; queue = refl }

new-unlocked : (now : ℕ) → (new_connection now).locked ≡ false
unfolding new_connection update_last_active
new-unlocked now = ground arith

handled-Balanced :
    (remaining : Bool) (c : ℕ) (conn : Connection) (s : Server) (suspended before after : List ℕ)
    → Balanced s (before ++ c ∷ after) suspended
    → Balanced (handled_server remaining c (still_locked conn) s) (before ++ c ∷ after) suspended
handled-Balanced remaining c conn s suspended before after b =
    Keeps-Balanced (before ++ c ∷ after) suspended
      (handled-Keeps remaining c conn s (alone s suspended before after c b).0) b

-- The silent flush of a handler that leaves something to send.
flush-Balanced :
    (remaining inactive : Bool) (accepts : ℕ → Bool) (conn : Connection) (s : Server)
    (suspended before after : List ℕ) (c : ℕ)
    → flushes_silently inactive (still_locked conn) ≡ true
    → Balanced s (before ++ c ∷ after) suspended
    → Balanced
        (handler_process remaining inactive accepts c (still_locked conn) s).1
        (before ++ after)
        suspended
unfolding handler_process block_out_add disable_poll
flush-Balanced remaining inactive accepts conn s suspended before after c flushes b d = rw flushes (
    queued_up (handled_server remaining c (still_locked conn) s) suspended before after c
      (handled-Balanced remaining c conn s suspended before after b) d)

pub accept-Keeps :
    (c now : ℕ) (s : Server)
    → (s.conns c).locked ≡ false
    → Keeps s (at_conn c (λ _. new_connection now) s)
accept-Keeps c now s free = record { locks = locks; queue = refl }
  where
    locks : (d : ℕ) → (if d == c then new_connection now else s.conns d).locked ≡ (s.conns d).locked
    locks d = elim (Bool-cases (d == c)) [
      | inl same ↦ rw same (new-unlocked now ∙ sym (rw ((==_iff d c).0 same) free))
      | inr other ↦ rw other refl
    ]

no_flush_released :
    (inactive : Bool) (conn : Connection)
    → keeps_lock inactive conn ≡ false
    → flushes_silently inactive conn ≡ false
unfolding flushes_silently
no_flush_released inactive conn h = rw h refl

no_flush_suspended :
    (inactive : Bool) (conn : Connection)
    → has_continuation conn ≡ true
    → flushes_silently inactive conn ≡ false
unfolding flushes_silently keeps_lock
no_flush_suspended inactive conn h = ground (arith, h)

release-Balanced :
    (remaining inactive : Bool) (accepts : ℕ → Bool) (conn : Connection) (s : Server)
    (suspended before after : List ℕ) (c : ℕ)
    → keeps_lock inactive (still_locked conn) ≡ false
    → Balanced s (before ++ c ∷ after) suspended
    → Balanced
        (at_conn c unlock (handler_process remaining inactive accepts c (still_locked conn) s).1)
        (before ++ after)
        suspended
unfolding handler_process
release-Balanced remaining inactive accepts conn s suspended before after c releases b d =
    rw (no_flush_released inactive (still_locked conn) releases) (
      given_back (handled_server remaining c (still_locked conn) s) suspended before after c
        (handled-Balanced remaining c conn s suspended before after b) d)

suspend-Balanced :
    (remaining inactive : Bool) (accepts : ℕ → Bool) (conn : Connection) (s : Server)
    (suspended before after : List ℕ) (c : ℕ)
    → has_continuation conn ≡ true
    → Balanced s (before ++ c ∷ after) suspended
    → Balanced
        (handler_process remaining inactive accepts c (still_locked conn) s).1
        (before ++ after)
        (c ∷ suspended)
unfolding handler_process
suspend-Balanced remaining inactive accepts conn s suspended before after c has b d =
    rw (no_flush_suspended inactive (still_locked conn) has) (
      kept_aside (handled_server remaining c (still_locked conn) s) suspended before after c
        (handled-Balanced remaining c conn s suspended before after b) d)

keeps_suspended :
    (inactive : Bool) (conn : Connection)
    → has_continuation conn ≡ true
    → keeps_lock inactive conn ≡ true
unfolding keeps_lock
keeps_suspended inactive conn h = rw h refl

flushes_kept :
    (inactive : Bool) (conn : Connection)
    → has_continuation conn ≡ false
    → keeps_lock inactive conn ≡ true
    → flushes_silently inactive conn ≡ true
unfolding flushes_silently
flushes_kept inactive conn none_kept keeps = rw (keeps, none_kept) refl

-- The task of the handler's stage, whatever the handlers have done to their connection.
pub handle-Balanced :
    (remaining inactive : Bool) (accepts : ℕ → Bool) (conn : Connection) (s : Server)
    (suspended before after : List ℕ) (c : ℕ)
    → Balanced s (before ++ c ∷ after) suspended
    → Balanced
        (finish_task c (handler_process remaining inactive accepts c (still_locked conn) s))
        (before ++ after)
        (with_suspended conn c suspended)
handle-Balanced remaining inactive accepts conn s suspended before after c b =
    elim (Bool-cases (has_continuation conn)) [
      | inl has ↦
          rw (has, kept (keeps_suspended inactive (still_locked conn) has))
            (suspend-Balanced remaining inactive accepts conn s suspended before after c has b)
      | inr none_kept ↦ elim (Bool-cases (keeps_lock inactive (still_locked conn))) [
        | inl keeps ↦
            rw (none_kept, kept keeps)
              (flush-Balanced remaining inactive accepts conn s suspended before after c
                (flushes_kept inactive (still_locked conn) none_kept keeps) b)
        | inr releases ↦
            rw (none_kept, kept releases)
              (release-Balanced remaining inactive accepts conn s suspended before after c releases
                b)
      ]
    ]
  where
    kept :
        {keeps : Bool}
        → keeps_lock inactive (still_locked conn) ≡ keeps
        → (handler_process remaining inactive accepts c (still_locked conn) s).0 ≡ keeps
    kept e = unfold handler_process in e

-- A suspended connection that goes to the write-back stage.
pub stream-Balanced :
    (output : Buffer) (accepts : ℕ → Bool) (s : Server) (working before after : List ℕ) (c : ℕ)
    → Balanced s working (before ++ c ∷ after)
    → Balanced (stream_write_back output accepts c s) working (before ++ after)
unfolding stream_write_back block_out_add disable_poll
stream-Balanced output accepts s working before after c b d = omega (
  arith,
  Keeps-Balanced working (before ++ c ∷ after) appended b d,
  count-middle d c before after,
  count-enqueue d c s.write_back alone_there,
)
  where
    appended :
        Keeps s
          (at_conn c (λ conn. record conn { out_stream = append_buffer output conn.out_stream }) s)
    appended = record { locks = λ e. ground arith; queue = refl }

    alone_there : count c s.write_back ≡ 0
    alone_there =
        let all = b c in let split = count-middle c c before after in ground (arith, all, split)

pub resume-Balanced :
    (s : Server) (working before after : List ℕ) (c : ℕ)
    → Balanced s working (before ++ c ∷ after)
    → Balanced (resched_continuation c s) working (before ++ after)
unfolding resched_continuation
resume-Balanced s working before after c b d = elim (Bool-cases (d == c)) [
  | inl same ↦ rw same (
      rw ((==_iff d c).0 same)
        (let all = b c in let split = count-middle c c before after in ground (arith, all, split)))
  | inr other ↦ rw other (
      let all = b d in
      let split = count-middle d c before after in ground (arith, all, split, other))
]
