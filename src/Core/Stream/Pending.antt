-- ===== src/Core/Stream/Pending.antt =====
-- The bytes that a stream has still to send, over its operations.
mod Tests
use tube.Common.{
  ℕ, ◌+◌, ◌-◌, ◌≤◌, ◌<◌, ◌^◌, ◌%◌, ◌⊎◌, length-append, min, Bytes, Bool, true, false, List, [], ◌∷◌,
  ◌++◌, Option, none, some, ◌==◌, ==_iff, if◌then◌else◌, length, take, drop, length-take,
  length-drop, take_all, drop-drop, drop-take, take-take_le, append_assoc, append-nil,
  take-append-drop, ◌≡◌, refl, ap, sym, ◌∙◌, subst, arith, Bool-cases, inl, inr,
}
use tube.Common.Int.{ℤ, pos}
use tube.Core.Buffer.{Buffer, page_size, new_buffer, append, offered, write_to_fd}
use tube.Core.Buffer.Repr.{Holds, new_buffer-Holds}
use tube.Core.Buffer.Append.{append-Holds}
use tube.Core.Buffer.Transfer.{write_to_fd-Holds, write_to_fd_error}
use tube.Core.Stream.{
  Writeable, buffer, file_sender, writeable_size, is_eof, new_file_sender, should_send,
  write_writeable, Stream, empty_stream, keep, wrote, write_front, write_into_output, append_file,
  append_buffer, append_last, append_data,
}

-- The bytes that a writeable has still to send. A file has all the bytes that its sender counts.
abbrev pub Sends : Writeable → Bytes → Type 0
Sends (buffer b) body = Holds b body
Sends (file_sender file offset len) body =
    (take len (drop offset file) ≡ body) × (length body ≡ len)

abbrev pub SendsAll : List Writeable → Bytes → Type 0
SendsAll [] body = [] ≡ body
SendsAll (w ∷ ws) body =
    (front rest : Bytes) × Sends w front × SendsAll ws rest × (front ++ rest ≡ body)

-- The answers that the operating system can give for a writeable: an error, or a number of bytes of
-- those that it was offered.
abbrev pub Answers : Option ℕ → Writeable → Type 0
Answers none w = Unit
Answers (some n) (buffer b) = n ≤ length (offered b)
Answers (some n) (file_sender file offset len) = n ≤ should_send len

abbrev pub AnswersFront : Option ℕ → List Writeable → Type 0
AnswersFront answer [] = Unit
AnswersFront answer (w ∷ ws) = Answers answer w

pub Sends-length : (w : Writeable) (body : Bytes) → Sends w body → length body ≡ writeable_size w
unfolding writeable_size
Sends-length (buffer b) body h = h.body_length
Sends-length (file_sender file offset len) body h = h.1

pub write_writeable-Sends :
    (answer : Option ℕ) (w : Writeable) (body : Bytes)
    → Sends w body
    → Answers answer w
    → (left : Bytes) × Sends (write_writeable answer w).1 left
      × ((write_writeable answer w).0 ++ left ≡ body)
unfolding write_writeable
write_writeable-Sends none (buffer b) body h a = rw (write_to_fd_error b) (body, h, refl)
write_writeable-Sends (some n) (buffer b) body h a =
    let r = write_to_fd-Holds n h a in (drop n body, r.0, r.1)
write_writeable-Sends none (file_sender file offset len) body h a = (body, h, refl)
write_writeable-Sends (some n) (file_sender file offset len) body h a = (
  drop n body,
  (rest, left_length),
  ap (λ t. t ++ drop n body) same_front ∙ take-append-drop n body,
)
  where
    n_le : n ≤ len
    n_le = unfold should_send in omega (arith, a)

    rest : take (len - n) (drop (offset + n) file) ≡ drop n body
    rest =
        ap (take (len - n)) (sym (drop-drop n offset file))
        ∙ sym (drop-take n len (drop offset file))
        ∙ ap (drop n) h.0

    left_length : length (drop n body) ≡ len - n
    left_length = length-drop n body ∙ ap (λ k. k - n) h.1

    same_front : take n (drop offset file) ≡ take n body
    same_front = sym (take-take_le n len (drop offset file) n_le) ∙ ap (take n) h.0

SendsAll-snoc :
    (ws : List Writeable) (w : Writeable) (body more : Bytes)
    → SendsAll ws body
    → Sends w more
    → SendsAll (ws ++ w ∷ []) (body ++ more)
SendsAll-snoc [] w body more e h = (more, [], h, refl, append-nil more ∙ ap (λ t. t ++ more) e)
SendsAll-snoc (v ∷ ws) w body more all h = (
  all.0,
  all.1 ++ more,
  all.2,
  SendsAll-snoc ws w all.1 more all.3 h,
  sym (append_assoc all.0 all.1 more) ∙ ap (λ t. t ++ more) all.4,
)

keep-SendsAll :
    (w : Writeable) (ws : List Writeable) (front rest : Bytes)
    → Sends w front
    → SendsAll ws rest
    → SendsAll (keep w ws) (front ++ rest)
unfolding is_eof
keep-SendsAll w ws front rest h all = elim (Bool-cases (writeable_size w == 0)) [
  | inl done ↦ rw done (
      subst (λ t. SendsAll ws (t ++ rest))
        (sym (no_bytes front (Sends-length w front h ∙ (==_iff (writeable_size w) 0).0 done))) all)
  | inr more ↦ rw more (front, rest, h, all, refl)
]
  where
    no_bytes : (t : Bytes) → length t ≡ 0 → t ≡ []
    no_bytes [] e = refl
    no_bytes (x ∷ t) e = absurd (omega arith)

-- What becomes of the writeables when some bytes are sent: the front one is taken off when it has no
-- more, and otherwise stays with what it has left; those behind it stay as they are.
abbrev pub Advances : List Writeable → Bytes → List Writeable → Type 0
Advances [] sent after = (sent ≡ []) × (after ≡ [])
Advances (w ∷ ws) sent after =
    (length sent ≡ writeable_size w) × (after ≡ ws)
    ⊎ (v : Writeable) × (after ≡ v ∷ ws)
      × (0 < writeable_size v)
      × (length sent + writeable_size v ≡ writeable_size w)

keep-Advances :
    (w v : Writeable) (ws : List Writeable) (sent : Bytes)
    → length sent + writeable_size v ≡ writeable_size w
    → Advances (w ∷ ws) sent (keep v ws)
unfolding is_eof
keep-Advances w v ws sent e = elim (Bool-cases (writeable_size v == 0)) [
  | inl none_left ↦ rw none_left (inl (ground (arith, e, none_left), refl))
  | inr more ↦ rw more (inr (v, refl, ground (arith, more), e))
]

-- A write sends a front of the pending bytes and leaves the rest pending, whatever the operating
-- system answers. The front writeable is taken off when it has no more to send, and otherwise stays
-- with what is left of it; the others stay as they are.
pub write_into_output-SendsAll :
    (answer : Option ℕ) (s : Stream) (body : Bytes)
    → SendsAll s.writeables body
    → AnswersFront answer s.writeables
    → let (sent, out) = write_into_output answer s in
      (left : Bytes) × SendsAll out.writeables left
      × (sent ++ left ≡ body)
      × Advances s.writeables sent out.writeables
unfolding write_into_output
write_into_output-SendsAll answer s body = front s.writeables
  where
    front :
        (ws : List Writeable)
        → SendsAll ws body
        → AnswersFront answer ws
        → let (sent, out) = write_front answer s.memory_usage ws in
          (left : Bytes) × SendsAll out.writeables left
          × (sent ++ left ≡ body)
          × Advances ws sent out.writeables
    front [] e a = unfold write_front in (body, e, refl, (refl, refl))
    front (w ∷ ws) all a =
        let r = write_writeable-Sends answer w all.0 all.2 a in
        unfold write_front wrote in
        (
          r.0 ++ all.1,
          keep-SendsAll (write_writeable answer w).1 ws r.0 all.1 r.1 all.3,
          sym (append_assoc (write_writeable answer w).0 r.0 all.1)
              ∙ ap (λ t. t ++ all.1) r.2
              ∙ all.4,
          keep-Advances w (write_writeable answer w).1 ws (write_writeable answer w).0 (
              omega (
                arith,
                ap length r.2,
                length-append (write_writeable answer w).0 r.0,
                Sends-length (write_writeable answer w).1 r.0 r.1,
                Sends-length w all.0 all.2,
              )),
        )

-- A file from an offset that it has, to its end or over a length that it has there.
whole_file :
    (file : Bytes) (offset : ℕ)
    → offset ≤ length file
    → length file < 2 ^ 64
    → Sends (new_file_sender file offset none) (drop offset file)
unfolding new_file_sender
whole_file file offset within small =
    rw (to_end) (take_all _ _ (omega (arith, length-drop offset file)), length-drop offset file)
  where
    to_end : (length file + 2 ^ 64 - offset) % 2 ^ 64 ≡ length file - offset
    to_end = omega arith

part_of_file :
    (file : Bytes) (offset len : ℕ)
    → offset + len ≤ length file
    → length file < 2 ^ 64
    → Sends (new_file_sender file offset (some (pos len))) (take len (drop offset file))
unfolding new_file_sender
part_of_file file offset len within small =
    rw (same_length)
      (refl, omega (arith, length-take len (drop offset file), length-drop offset file))
  where
    same_length : len % 2 ^ 64 ≡ len
    same_length = omega arith

module _ (junk : ℕ) where
  new-Sends : (bytes : Bytes) → Sends (buffer (append junk (new_buffer junk) bytes)) bytes
  new-Sends bytes = append-Holds junk bytes (new_buffer-Holds junk)

  append_last-SendsAll :
      (ws : List Writeable) (body bytes : Bytes)
      → SendsAll ws body
      → SendsAll (append_last junk ws bytes) (body ++ bytes)
  unfolding append_last
  append_last-SendsAll [] body bytes e =
      SendsAll-snoc [] (buffer (append junk (new_buffer junk) bytes)) body bytes e (new-Sends bytes)
  append_last-SendsAll (buffer b ∷ []) body bytes all = (
    all.0 ++ bytes,
    [],
    append-Holds junk bytes all.2,
    refl,
    append-nil (all.0 ++ bytes)
        ∙ ap (λ t. t ++ bytes) (sym (append-nil all.0) ∙ ap (λ t. all.0 ++ t) all.3 ∙ all.4),
  )
  append_last-SendsAll (file_sender file offset len ∷ []) body bytes all =
      SendsAll-snoc (file_sender file offset len ∷ [])
        (buffer (append junk (new_buffer junk) bytes)) body bytes all (new-Sends bytes)
  append_last-SendsAll (w ∷ v ∷ ws) body bytes all = (
    all.0,
    all.1 ++ bytes,
    all.2,
    append_last-SendsAll (v ∷ ws) all.1 bytes all.3,
    sym (append_assoc all.0 all.1 bytes) ∙ ap (λ t. t ++ bytes) all.4,
  )

  -- What is appended comes behind all that was pending: data, a buffer, a file from an offset that it
  -- has to its end, and a part of a file that lies within it; a file is smaller than 2 ^ 64 bytes.
  pub append-SendsAll :
      (s : Stream) (body : Bytes)
      → SendsAll s.writeables body
      → ((bytes : Bytes) → SendsAll (append_data junk bytes s).writeables (body ++ bytes))
        × ((file : Bytes) (offset : ℕ)
            → offset ≤ length file
            → length file < 2 ^ 64
            → SendsAll (append_file file offset none s).writeables (body ++ drop offset file))
        × ((file : Bytes) (offset len : ℕ)
            → offset + len ≤ length file
            → length file < 2 ^ 64
            → SendsAll
                (append_file file offset (some (pos len)) s).writeables
                (body ++ take len (drop offset file)))
        × ((b : Buffer) (more : Bytes)
            → Holds b more
            → SendsAll (append_buffer b s).writeables (body ++ more))
  unfolding append_data append_file append_buffer
  append-SendsAll s body all = (
    λ bytes. append_last-SendsAll s.writeables body bytes all,
    λ file offset within small.
        SendsAll-snoc s.writeables _ body (drop offset file) all
          (whole_file file offset within small),
    λ file offset len within small.
        SendsAll-snoc s.writeables _ body _ all (part_of_file file offset len within small),
    λ b more h. SendsAll-snoc s.writeables (buffer b) body more all h,
  )
