-- ===== src/Core/Stream/Progress.antt =====
-- What a write that takes something does to a stream whose writeables all have something to send.
use tube.Common.{
  ℕ, ◌+◌, ◌<◌, Bytes, true, List, [], ◌∷◌, ◌++◌, Option, some, ◌==◌, length, length-append, All,
  ◌≡◌, refl, ap, arith, Bool-cases, inl, inr, drop, length-drop, length-take, ◌^◌,
}
use tube.Common.Int.{pos}
use tube.Core.Buffer.{write_to_fd}
use tube.Core.Stream.{
  Writeable, buffer, file_sender, writeable_size, is_eof, write_writeable, write_code, Stream,
  wrote, write_front, write_into_output, output_code, is_done, should_send, append_data,
}
use tube.Core.Stream.Pending.{Sends, SendsAll, Answers, Sends-length, write_into_output-SendsAll}
use tube.Core.Buffer.Transfer.{offered-Holds, write_to_fd-Holds}

-- Each writeable has something to send.
abbrev pub NoneEmpty : List Writeable → Type 0
NoneEmpty ws = All (λ w. 0 < writeable_size w) ws

pub SendsAll-pos :
    (w : Writeable) (ws : List Writeable) (body : Bytes)
    → NoneEmpty (w ∷ ws)
    → SendsAll (w ∷ ws) body
    → 0 < length body
SendsAll-pos w ws body filled (front, rest, here, more, e) =
    omega (arith, filled.0, Sends-length w front here, length-append front rest, ap length e)

-- A socket that takes n bytes of a writeable sends n bytes.
sent_length :
    (n : ℕ) (w : Writeable) (body : Bytes)
    → Sends w body
    → Answers (some n) w
    → length (write_writeable (some n) w).0 ≡ n
unfolding write_writeable should_send
sent_length n (buffer b) body h a =
    let r = write_to_fd-Holds n h a in
    let o = offered-Holds h in
    omega (
      arith,
      ap length r.1,
      length-append (write_to_fd (some n) b).0 (drop n body),
      length-drop n body,
      o.1,
      a,
    )
sent_length n (file_sender file offset len) body h a = omega (
  arith,
  length-take n (drop offset file),
  ap length h.0,
  length-take len (drop offset file),
  h.1,
  a,
)

write_front-NoneEmpty :
    (answer : Option ℕ) (usage : ℕ) (ws : List Writeable)
    → NoneEmpty ws
    → NoneEmpty (write_front answer usage ws).1.writeables
unfolding write_front wrote is_eof
write_front-NoneEmpty answer usage [] all = tt
write_front-NoneEmpty answer usage (w ∷ ws) all =
    elim (Bool-cases (writeable_size (write_writeable answer w).1 == 0)) [
      | inl done ↦ rw done all.1
      | inr more ↦ rw more (ground (arith, more), all.1)
    ]

filled_code : (n : ℕ) (w : Writeable) → 0 < writeable_size w → write_code (some n) w ≡ pos n
unfolding write_code writeable_size
filled_code n (buffer b) filled = ground arith
filled_code n (file_sender file offset len) filled = refl

-- The stream after a write that takes n bytes of what the front writeable offers: what
-- write_into_output returns, what it sends, and what it leaves.
pub write_into_output-takes :
    (n usage : ℕ) (w : Writeable) (ws : List Writeable) (body : Bytes)
    → NoneEmpty (w ∷ ws)
    → SendsAll (w ∷ ws) body
    → Answers (some n) w
    → let s : Stream = record { writeables = w ∷ ws; memory_usage = usage } in
      let r = write_into_output (some n) s in
      (output_code (some n) s ≡ pos n)
      × (length r.0 ≡ n)
      × NoneEmpty r.1.writeables
      × (left : Bytes) × SendsAll r.1.writeables left
      × (r.0 ++ left ≡ body)
unfolding write_into_output output_code
write_into_output-takes n usage w ws body filled all a =
    let r =
      write_into_output-SendsAll (some n) (record { writeables = w ∷ ws; memory_usage = usage })
        body all a in
    (
      filled_code n w filled.0,
      unfold write_front wrote in sent_length n w all.0 all.2 a,
      write_front-NoneEmpty (some n) usage (w ∷ ws) filled,
      r.0,
      r.1,
      r.2,
    )

pub output_code-none :
    (answer : Option ℕ) (usage : ℕ)
    → output_code answer (record { writeables = []; memory_usage = usage }) ≡ pos 0
unfolding output_code
output_code-none answer usage = refl

pub is_done-none : (usage : ℕ) → is_done (record { writeables = []; memory_usage = usage }) ≡ true
unfolding is_done
is_done-none usage = refl

pub write_into_output-none :
    (answer : Option ℕ) (usage : ℕ)
    → write_into_output answer (record { writeables = []; memory_usage = usage })
      ≡ ([], record { writeables = []; memory_usage = usage })
unfolding write_into_output write_front
write_into_output-none answer usage = refl

pub memory_usage-append_data :
    (junk : ℕ) (bytes : Bytes) (s : Stream)
    → s.memory_usage + length bytes < 2 ^ 64
    → (append_data junk bytes s).memory_usage ≡ s.memory_usage + length bytes
unfolding append_data
memory_usage-append_data junk bytes s lt = omega arith
