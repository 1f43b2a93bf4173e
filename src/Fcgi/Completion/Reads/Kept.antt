-- ===== src/Fcgi/Completion/Reads/Kept.antt =====
-- What run_parser keeps of a continuation, and that it takes a record from the task buffer.
use tube.Common.{
  ℕ, ◌-◌, ◌≤◌, ◌<◌, min, Bytes, Bool, true, ◌||◌, List, [], ◌∷◌, ◌==◌, length, take, drop, ◌≡◌,
  refl, ap, ◌∙◌, arith, Bool-cases, inl, inr,
}
use tube.Core.Buffer.{Buffer, pop, segments, append}
use tube.Core.Buffer.Pop.{pop_size}
use tube.Fcgi.Proto.Records.{extract_record_size}
use tube.Fcgi.Proto.{Record, bypass_content, total_length}
use tube.Fcgi.Completion.{ContentParser, Continuation, fcgi_end_request, fcgi_stdout, fcgi_stderr}
use tube.Fcgi.Completion.Parse.{parsed, feed, feed_content, bypassed, run_record, run_parser}

module _ (junk : ℕ) {P : Type 0} (parser : ContentParser P) where
  -- What run_parser does not change.
  pub record Keeps (cont next : Continuation P) : Type 0 where
    pub sock : next.sock_fd ≡ cont.sock_fd
    pub status : next.status ≡ cont.status
    pub done : parser.is_done cont.content_parser ≡ true → next.content_parser ≡ cont.content_parser

  parsed_done :
      (piece : Bytes) (p : P) → parser.is_done p ≡ true → (parsed junk parser piece p).1 ≡ p
  unfolding parsed
  parsed_done piece p done = rw done refl

  Keeps-trans :
      {cont next last : Continuation P} → Keeps cont next → Keeps next last → Keeps cont last
  Keeps-trans k l = record {
    sock = l.sock ∙ k.sock;
    status = l.status ∙ k.status;
    done = λ d. l.done (ap parser.is_done (k.done d) ∙ d) ∙ k.done d;
  }

  feed-Keeps :
      (pages : List Bytes) (n_left : ℕ) (cont : Continuation P)
      → Keeps cont (feed junk parser pages n_left cont).1
        × ((feed junk parser pages n_left cont).1.task_buffer ≡ cont.task_buffer)
  unfolding feed
  feed-Keeps [] n_left cont = (record { sock = refl; status = refl; done = λ d. refl }, refl)
  feed-Keeps (page ∷ pages) n_left cont =
      elim (Bool-cases (parser.has_error (parsed junk parser piece cont.content_parser).1)) [
        | inl error ↦ rw error (
          record { sock = refl; status = refl; done = parsed_done piece cont.content_parser },
          refl,
        )
        | inr fine ↦ rw fine (elim (Bool-cases (n_left - length piece == 0)) [
          | inl all ↦ rw all (fed, refl)
          | inr more ↦
              rw more (
                let (k, b) = feed-Keeps pages (n_left - length piece) next in
                (Keeps-trans fed k, b))
        ])
      ]
    where
      piece : Bytes
      piece = take (min n_left (length page)) page

      next : Continuation P
      next = record cont {
        content_parser = (parsed junk parser piece cont.content_parser).1;
        output_buffer =
            append junk cont.output_buffer
              (drop (parsed junk parser piece cont.content_parser).0 piece);
      }

      fed : Keeps cont next
      fed = record { sock = refl; status = refl; done = parsed_done piece cont.content_parser }

  feed_content-Keeps :
      (rec : Record) (cont : Continuation P)
      → Keeps cont (feed_content junk parser rec cont).1
        × ((feed_content junk parser rec cont).1.task_buffer.size ≤ cont.task_buffer.size)
  unfolding feed_content bypassed bypass_content
  feed_content-Keeps rec cont = elim (Bool-cases fed.0) [
    | inl whole ↦ rw whole (
      Keeps-trans kept.0 (record { sock = refl; status = refl; done = λ d. refl }),
      omega (arith, (pop_size fed.1.task_buffer (total_length rec)).0, ap (λ b. b.size) kept.1),
    )
    | inr error ↦ rw error (kept.0, omega (arith, ap (λ b. b.size) kept.1))
  ]
    where
      b : Buffer
      b = cont.task_buffer

      fed : Bool × Continuation P
      fed = feed junk parser (segments b.left_offset b.right_offset b.pages) rec.content_length cont

      kept : Keeps cont fed.1 × (fed.1.task_buffer ≡ b)
      kept = feed-Keeps (segments b.left_offset b.right_offset b.pages) rec.content_length cont

  run_record-Keeps :
      (rec : Record) (cont : Continuation P)
      → Keeps cont (run_record junk parser rec cont).1
        × ((run_record junk parser rec cont).1.task_buffer.size ≤ cont.task_buffer.size)
  unfolding run_record feed_content bypassed bypass_content
  run_record-Keeps rec cont = elim (Bool-cases (rec.kind == fcgi_end_request)) [
    | inl end_request ↦ rw end_request (elim (Bool-cases (parser.is_done cont.content_parser)) [
      | inl done ↦ rw done (bypasses, smaller)
      | inr open_still ↦ rw open_still (bypasses, smaller)
    ])
    | inr other ↦ rw other (elim (Bool-cases (rec.kind == fcgi_stdout || rec.kind == fcgi_stderr)) [
      | inl content ↦ rw content (feed_content-Keeps rec cont)
      | inr unknown ↦ rw unknown (bypasses, smaller)
    ])
  ]
    where
      smaller : (pop cont.task_buffer (total_length rec)).1.size ≤ cont.task_buffer.size
      smaller = (pop_size cont.task_buffer (total_length rec)).0

      bypasses :
          {len : _}
          → Keeps cont (record cont {
            task_buffer = (pop cont.task_buffer (total_length rec)).1;
            task_len = len;
          })
      bypasses = record { sock = refl; status = refl; done = λ d. refl }

  pub run_parser-Keeps :
      (cont : Continuation P)
      → Keeps cont (run_parser junk parser cont).1
        × ((run_parser junk parser cont).0 ≡ true
            → (run_parser junk parser cont).1.task_buffer.size < cont.task_buffer.size)
  unfolding run_parser
  run_parser-Keeps cont = elim (extract_record_size cont.task_buffer) [
    | inl (b, nothing) ↦
        rw nothing (record { sock = refl; status = refl; done = λ d. refl }, λ ran. cc ran)
    | inr (rec, b, found, less) ↦
        let (k, size) = run_record-Keeps rec (record cont { task_buffer = b }) in
        rw found (
          Keeps-trans (record { sock = refl; status = refl; done = λ d. refl }) k,
          λ ran. omega (arith, less, size),
        )
  ]
