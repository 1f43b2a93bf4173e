-- ===== src/Core/Stream/Usage.antt =====
-- memory_usage_ against what the writeables of a stream use, over its operations.
mod Tests
use tube.Common.{
  ℕ, ◌+◌, ◌-◌, ◌%◌, ◌^◌, ◌≤◌, ◌<◌, min, Bytes, Bool, true, false, List, [], ◌∷◌, ◌++◌, Option, none,
  some, ltb, ◌==◌, ==_iff, if◌then◌else◌, length, length-append, ◌≡◌, refl, ap, sym, ◌∙◌, subst,
  arith, Bool-cases, inl, inr,
}
use tube.Common.Int.{ℤ, pos, negsuc}
use tube.Core.Buffer.{Buffer, new_buffer, append, pop, write_to_fd}
use tube.Core.Buffer.Repr.{Holds}
use tube.Core.Buffer.Append.{size-append}
use tube.Core.Stream.Pending.{
  Sends, SendsAll, Answers, AnswersFront, Sends-length, write_writeable-Sends,
}
use tube.Core.Stream.{
  Writeable, buffer, file_sender, writeable_size, memory_of, is_eof, new_file_sender,
  write_writeable, Stream, empty_stream, keep, wrote, write_front, write_into_output, append_file,
  append_buffer, append_last, append_data,
}

abbrev pub used : List Writeable → ℕ
used [] = 0
used (w ∷ ws) = memory_of w + used ws

-- memory_usage_ is what the writeables use.
abbrev pub Accounts : Stream → Type 0
Accounts s = s.memory_usage ≡ used s.writeables

used-snoc : (ws : List Writeable) (w : Writeable) → used (ws ++ w ∷ []) ≡ used ws + memory_of w
used-snoc [] w = omega arith
used-snoc (v ∷ ws) w = omega (arith, used-snoc ws w)

memory_of_le : (w : Writeable) → memory_of w ≤ writeable_size w
unfolding memory_of writeable_size
memory_of_le (buffer b) = omega arith
memory_of_le (file_sender file offset len) = omega arith

used-keep : (w : Writeable) (ws : List Writeable) → used (keep w ws) ≡ memory_of w + used ws
unfolding is_eof
used-keep w ws = elim (Bool-cases (writeable_size w == 0)) [
  | inl done ↦ rw done (omega (arith, memory_of_le w, (==_iff (writeable_size w) 0).0 done))
  | inr more ↦ rw more
]

written_buffer :
    (answer : Option ℕ) (b : Buffer) (body : Bytes)
    → Holds b body
    → Answers answer (buffer b)
    → length (write_writeable answer (buffer b)).0 + memory_of (write_writeable answer (buffer b)).1
      ≡ b.size
unfolding memory_of write_writeable writeable_size
written_buffer answer b body h a =
    let r = write_writeable-Sends answer (buffer b) body h a in
    let sent = (write_writeable answer (buffer b)).0 in
    ap (λ n. length sent + n) (sym (Sends-length (write_writeable answer (buffer b)).1 r.0 r.1))
    ∙ sym (length-append sent r.0)
    ∙ ap length r.2
    ∙ h.body_length

write_writeable_le :
    (answer : Option ℕ) (w : Writeable) (body : Bytes)
    → Sends w body
    → Answers answer w
    → memory_of (write_writeable answer w).1 ≤ memory_of w
unfolding memory_of
write_writeable_le answer (buffer b) body h a = omega (arith, written_buffer answer b body h a)
write_writeable_le none (file_sender file offset len) body h a =
    unfold write_writeable in omega arith
write_writeable_le (some n) (file_sender file offset len) body h a =
    unfold write_writeable in omega arith

module _ (junk : ℕ) where
  used_new : (bytes : Bytes) → (append junk (new_buffer junk) bytes).size ≡ length bytes
  used_new bytes = size-append junk (new_buffer junk) bytes ∙ (unfold new_buffer in omega arith)

  used-append_last :
      (ws : List Writeable) (bytes : Bytes)
      → used (append_last junk ws bytes) ≡ used ws + length bytes
  unfolding append_last memory_of
  used-append_last [] bytes = omega (arith, used_new bytes)
  used-append_last (buffer b ∷ []) bytes = omega (arith, size-append junk b bytes)
  used-append_last (file_sender file offset len ∷ []) bytes = omega (arith, used_new bytes)
  used-append_last (w ∷ v ∷ ws) bytes = omega (arith, used-append_last (v ∷ ws) bytes)

  -- On a stream whose usage is accounted for: appending data keeps the account while what the
  -- writeables use stays under 2 ^ 64; appending a file keeps it; and so does a write, whatever the
  -- operating system answers.
  pub stream-Accounts :
      (s : Stream) (body : Bytes)
      → Accounts s
      → SendsAll s.writeables body
      → used s.writeables < 2 ^ 64
      → ((bytes : Bytes)
          → used s.writeables + length bytes < 2 ^ 64
          → Accounts (append_data junk bytes s))
        × ((file : Bytes) (offset : ℕ) (len : Option ℤ) → Accounts (append_file file offset len s))
        × ((answer : Option ℕ)
            → AnswersFront answer s.writeables
            → Accounts (write_into_output answer s).1)
  unfolding append_data append_file write_into_output
  stream-Accounts s body accounts all small = (
    λ bytes fits. omega (arith, used-append_last s.writeables bytes, accounts),
    λ file offset len.
        accounts
        ∙ sym (
            used-snoc s.writeables (new_file_sender file offset len)
            ∙ ap (λ n. used s.writeables + n) (no_memory file offset len)
            ∙ plus_zero _),
    λ answer a. wrote_front answer s.writeables all small a accounts,
  )
    where
      plus_zero : (n : ℕ) → n + 0 ≡ n
      plus_zero n = omega arith

      no_memory :
          (file : Bytes) (offset : ℕ) (len : Option ℤ)
          → memory_of (new_file_sender file offset len) ≡ 0
      no_memory file offset none = unfold memory_of new_file_sender in refl
      no_memory file offset (some (pos n)) = unfold memory_of new_file_sender in refl
      no_memory file offset (some (negsuc n)) = unfold memory_of new_file_sender in refl

      wrote_front :
          (answer : Option ℕ) (ws : List Writeable)
          → SendsAll ws body
          → used ws < 2 ^ 64
          → AnswersFront answer ws
          → s.memory_usage ≡ used ws
          → Accounts (write_front answer s.memory_usage ws).1
      wrote_front answer [] sends fits a e = unfold write_front in e
      wrote_front answer (w ∷ ws) sends fits a e =
          unfold write_front wrote in
          omega (
            arith,
            used-keep (write_writeable answer w).1 ws,
            write_writeable_le answer w sends.0 sends.2 a,
            e,
            fits,
          )

-- A buffer that is appended whole is not counted: when some of its bytes, fewer than 2 ^ 64, are then
-- sent from a stream that was empty, memory_usage_ wraps around to 2 ^ 64 less the bytes sent.
pub append_buffer_wraps :
    (n : ℕ) (b : Buffer) (body : Bytes)
    → Holds b body
    → Answers (some n) (buffer b)
    → 0 < length (write_writeable (some n) (buffer b)).0
    → length body < 2 ^ 64
    → (write_into_output (some n) (append_buffer b empty_stream)).1.memory_usage
      ≡ 2 ^ 64 - length (write_writeable (some n) (buffer b)).0
unfolding append_buffer empty_stream write_into_output write_front wrote
append_buffer_wraps n b body h a some_sent fits =
    omega (arith, written_buffer (some n) b body h a, h.body_length, memory_buffer)
  where
    memory_buffer : memory_of (buffer b) ≡ b.size
    memory_buffer = unfold memory_of in refl
