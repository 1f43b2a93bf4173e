-- ===== src/Core/Response/Flush.antt =====
-- flush_data sends all that is pending, when the socket takes something of each write.
mod Tests
use tube.Common.{
  ℕ, zero, suc, ◌+◌, ◌-◌, ◌≤◌, ◌<◌, Bytes, Bool, true, false, List, [], ◌∷◌, ◌++◌, Option, none,
  some, ◌==◌, ==_iff, if◌then◌else◌, length, length-append, All, append_assoc, append-nil, ◌≡◌,
  refl, ap, sym, ◌∙◌, subst, arith, Bool-cases, inl, inr, take, drop, length-drop,
}
use tube.Common.Int.{ℤ, pos, negsuc}
use tube.Core.Stream.{Writeable, Stream, write_into_output, output_code, is_done}
use tube.Core.Stream.Pending.{SendsAll, AnswersFront}
use tube.Core.Stream.Progress.{
  NoneEmpty, SendsAll-pos, write_into_output-takes, output_code-none, is_done-none,
  write_into_output-none,
}
use tube.Core.Response.{flush_loop, flush_step, prepend, flush_data}

-- Each answer takes a part of what it is offered, and not nothing.
abbrev pub Takes : List (Option ℕ) → Stream → Type 0
Takes [] out = Unit
Takes (answer ∷ more) out =
    (n : ℕ) × (answer ≡ some (suc n))
    × AnswersFront (some (suc n)) out.writeables
    × Takes more (write_into_output (some (suc n)) out).1

module _ (usage : ℕ) where
  abbrev stream_of : List Writeable → Stream
  stream_of ws = record { writeables = ws; memory_usage = usage }

no_bytes : (body : Bytes) → length body ≤ 0 → [] ≡ body
no_bytes [] le = refl
no_bytes (x ∷ body) le = absurd (omega arith)

flush_loop-sends :
    (answers : List (Option ℕ)) (nwrite usage : ℕ) (ws : List Writeable) (body : Bytes)
    → NoneEmpty ws
    → SendsAll ws body
    → Takes answers (stream_of usage ws)
    → length body ≤ length answers
    → (after : Stream) × (flush_loop answers nwrite (stream_of usage ws)
        ≡ some (body, pos (nwrite + length body), after))
      × (is_done after ≡ true)
unfolding flush_loop flush_step prepend
flush_loop-sends [] nwrite usage [] body filled all takes enough = (
  stream_of usage [],
  rw (is_done-none usage)
      (rw (← all) (ap (λ k. some ([], pos k, stream_of usage [])) (omega arith))),
  is_done-none usage,
)
flush_loop-sends [] nwrite usage (w ∷ ws) body filled all takes enough =
    absurd (omega (arith, SendsAll-pos w ws body filled all))
flush_loop-sends (answer ∷ more) nwrite usage [] body filled all takes enough = (
  stream_of usage [],
  rw (output_code-none answer usage, write_into_output-none answer usage, flush_loop)
      (rw (← all) (ap (λ k. some ([], pos k, stream_of usage [])) (omega arith))),
  is_done-none usage,
)
flush_loop-sends (answer ∷ more) nwrite usage (w ∷ ws) body filled all (n, took, offered, takes)
      enough =
    let (code, size, filled', left, all', split) =
      write_into_output-takes (suc n) usage w ws body filled all offered in
    let s : Stream = (write_into_output (some (suc n)) (stream_of usage (w ∷ ws))).1 in
    let (after, eq, done) =
      flush_loop-sends more (nwrite + suc n) s.memory_usage s.writeables left filled' all' takes (
        omega (
          arith,
          ap length split,
          size,
          length-append (write_into_output (some (suc n)) (stream_of usage (w ∷ ws))).0 left,
        )) in
    (
      after,
      rw took (
          rw (code, flush_loop)
            (rw eq (
              rw split (
                ap (λ k. some (body, pos k, after))
                  (omega (
                    arith,
                    ap length split,
                    size,
                    length-append (write_into_output (some (suc n)) (stream_of usage (w ∷ ws))).0
                        left,
                  )))))),
      done,
    )

-- When no writeable is empty and the socket takes some bytes of each write, flush_data sends all
-- that is pending in order, returns how much it was, and leaves nothing: as many answers as there
-- are bytes are enough.
pub flush_data-sends :
    (answers : List (Option ℕ)) (out : Stream) (body : Bytes)
    → NoneEmpty out.writeables
    → SendsAll out.writeables body
    → Takes answers out
    → length body ≤ length answers
    → (after : Stream) × (flush_data answers out ≡ some (body, pos (length body), after))
      × (is_done after ≡ true)
unfolding flush_data
flush_data-sends answers out body filled all takes enough =
    let (after, eq, done) =
      flush_loop-sends answers 0 out.memory_usage out.writeables body filled all takes enough in
    (after, eq ∙ ap (λ k. some (body, pos k, after)) (omega arith), done)
