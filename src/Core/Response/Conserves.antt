-- ===== src/Core/Response/Conserves.antt =====
-- Writing and flushing lose nothing, whatever the operating system answers.
use tube.Common.{
  ℕ, zero, suc, ◌+◌, ◌≤◌, ◌<◌, Bytes, false, List, [], ◌∷◌, ◌++◌, Option, none, some, ltb, length,
  append_assoc, ◌≡◌, refl, ap, ◌∙◌, arith, Bool-cases, inl, inr, ◌^◌,
}
use tube.Common.Int.{ℤ, pos, negsuc}
use tube.Core.Stream.{Stream, write_into_output, output_code, append_data, is_done}
use tube.Core.Stream.Pending.{SendsAll, AnswersFront, write_into_output-SendsAll, append-SendsAll}
use tube.Core.Stream.Progress.{memory_usage-append_data}
use tube.Core.Response.{flush_loop, flush_step, prepend, flush_data, after_flush, write_data}

-- Each answer is one that the operating system can give.
abbrev pub Fits : List (Option ℕ) → Stream → Type 0
Fits [] out = Unit
Fits (answer ∷ more) out =
    AnswersFront answer out.writeables × Fits more (write_into_output answer out).1

-- What was sent, with what is left, is what was pending.
abbrev pub Conserves : Bytes → Option (Bytes × ℤ × Stream) → Type 0
Conserves body none = Unit
Conserves body (some (sent, code, after)) =
    (left : Bytes) × SendsAll after.writeables left × (sent ++ left ≡ body)

prepend-Conserves :
    (sent left body : Bytes) (r : Option (Bytes × ℤ × Stream))
    → sent ++ left ≡ body
    → Conserves left r
    → Conserves body (prepend sent r)
unfolding prepend
prepend-Conserves sent left body none split c = tt
prepend-Conserves sent left body (some (rest, code, out)) split (last, all, e) =
    (last, all, append_assoc sent rest last ∙ ap (λ t. sent ++ t) e ∙ split)

flush_step-Conserves :
    (code : ℤ) (sent left body : Bytes) (nwrite : ℕ) (out : Stream)
    (rounds : ℕ → Option (Bytes × ℤ × Stream))
    → SendsAll out.writeables left
    → sent ++ left ≡ body
    → ((sum : ℕ) → Conserves left (rounds sum))
    → Conserves body (flush_step code sent nwrite out rounds)
unfolding flush_step
flush_step-Conserves (negsuc n) sent left body nwrite out rounds all split c = (left, all, split)
flush_step-Conserves (pos zero) sent left body nwrite out rounds all split c = (left, all, split)
flush_step-Conserves (pos (suc n)) sent left body nwrite out rounds all split c =
    prepend-Conserves sent left body (rounds (nwrite + suc n)) split (c (nwrite + suc n))

flush_loop-Conserves :
    (answers : List (Option ℕ)) (nwrite : ℕ) (out : Stream) (body : Bytes)
    → SendsAll out.writeables body
    → Fits answers out
    → Conserves body (flush_loop answers nwrite out)
unfolding flush_loop
flush_loop-Conserves [] nwrite out body all fits = elim (Bool-cases (is_done out)) [
  | inl done ↦ rw done (body, all, refl)
  | inr more ↦ rw more tt
]
flush_loop-Conserves (answer ∷ more) nwrite out body all fits =
    let (left, all', split, moved) = write_into_output-SendsAll answer out body all fits.0 in
    flush_step-Conserves (output_code answer out) (write_into_output answer out).0 left body nwrite
      (write_into_output answer out).1 (λ sum. flush_loop more sum (write_into_output answer out).1)
      all' split
      (λ sum. flush_loop-Conserves more sum (write_into_output answer out).1 left all' fits.1)

after_flush-Conserves :
    (size : ℕ) (body : Bytes) (r : Option (Bytes × ℤ × Stream))
    → Conserves body r
    → Conserves body (after_flush size r)
unfolding after_flush
after_flush-Conserves size body none c = tt
after_flush-Conserves size body (some (sent, code, after)) c = c

-- write_data puts its bytes behind all that is pending, and what a flush sends, with what it leaves,
-- is that: also when the flush ends early or fails.
pub write_data-Conserves :
    (junk max_mem : ℕ) (answers : List (Option ℕ)) (bytes : Bytes) (out : Stream) (body : Bytes)
    → SendsAll out.writeables body
    → Fits answers (append_data junk bytes out)
    → Conserves (body ++ bytes) (write_data junk max_mem answers bytes out)
unfolding write_data flush_data
write_data-Conserves junk max_mem answers bytes out body all fits =
    elim (Bool-cases (ltb max_mem (append_data junk bytes out).memory_usage)) [
      | inl full ↦ rw full (
          after_flush-Conserves (length bytes) (body ++ bytes)
            (flush_loop answers 0 (append_data junk bytes out))
            (flush_loop-Conserves answers 0 (append_data junk bytes out) (body ++ bytes) appended
              fits))
      | inr room ↦ rw room (body ++ bytes, appended, refl)
    ]
  where
    appended : SendsAll (append_data junk bytes out).writeables (body ++ bytes)
    appended = (append-SendsAll junk out body all).0 bytes

-- What fits into the memory of a response is not flushed.
pub write_data-fits :
    (junk max_mem : ℕ) (answers : List (Option ℕ)) (bytes : Bytes) (out : Stream)
    → out.memory_usage + length bytes ≤ max_mem
    → max_mem < 2 ^ 64
    → write_data junk max_mem answers bytes out
      ≡ some ([], pos (length bytes), append_data junk bytes out)
unfolding write_data
write_data-fits junk max_mem answers bytes out le small = rw room refl
  where
    room : ltb max_mem (append_data junk bytes out).memory_usage ≡ false
    room = ground (arith, memory_usage-append_data junk bytes out)
