-- ===== src/Fcgi/Completion/Feeds.antt =====
-- What run_parser makes of a record with content, wherever the pages of the task buffer end.
mod Tests
pub mod Pages
use tube.Common.{
  ℕ, zero, suc, ◌+◌, ◌-◌, ◌≤◌, ◌<◌, min, Bytes, Bool, true, false, ◌||◌, List, [], ◌∷◌, ◌++◌,
  Option, none, some, ltb, leb, ◌==◌, if◌then◌else◌, length, take, drop, length-append, length-take,
  length-drop, take-append-drop, take_front, drop_front, drop-append_add, drop-append_le, drop_all,
  drop-append_add_zero, take-append_le, take_all, append_assoc, append-nil, ◌≡◌, refl, ap, sym, ◌∙◌,
  subst, arith, Bool-cases, inl, inr, ◌⊎◌,
}
use tube.Core.Buffer.{Buffer, append, segments, pop}
use tube.Core.Buffer.Repr.{Holds, flatten, split_front}
use tube.Core.Buffer.Append.{append-Holds}
use tube.Core.Buffer.Pop.{pop-Holds}
use tube.Core.Buffer.Copy.{segments-Holds}
use tube.Fcgi.Proto.{
  Record, record_size, header_bytes, record_of, total_length, extract_record, bypass_content,
}
use tube.Fcgi.Proto.Records.{IsRecord, record_of-header_bytes, extract_record-header}
use tube.Fcgi.Completion.{ContentParser, Continuation, fcgi_stdout, fcgi_stderr, fcgi_end_request}
use tube.Fcgi.Completion.Parse.{parsed, feed, feed_content, bypassed, run_record, run_parser}
use tube.Fcgi.Completion.Feeds.Pages.{IsIncremental, Fed, feed-Fed}

module _ (junk : ℕ) {P : Type 0} (parser : ContentParser P) (inc : IsIncremental parser) where
  content_record :
      (rec : Record) (cont : Continuation P)
      → (rec.kind ≡ fcgi_stdout ⊎ rec.kind ≡ fcgi_stderr)
      → run_record junk parser rec cont ≡ feed_content junk parser rec cont
  unfolding run_record
  content_record rec cont (inl out) = rw out refl
  content_record rec cont (inr err) = rw err refl

  feed_content-Feeds :
      (rec : Record) (content padding more out : Bytes) (cont : Continuation P)
      → length content ≡ rec.content_length
      → length padding ≡ rec.padding_length
      → Holds cont.task_buffer (content ++ (padding ++ more))
      → Holds cont.output_buffer out
      → let (n, p) = parsed junk parser content cont.content_parser in
        parser.has_error p ≡ false
        → (c : Continuation P) × (feed_content junk parser rec cont ≡ (true, c))
          × Holds c.task_buffer more
          × Holds c.output_buffer (out ++ drop n content)
          × (c.content_parser ≡ p)
          × (c.status ≡ cont.status)
          × (c.task_len ≡ cont.task_len)
  unfolding feed_content bypassed total_length bypass_content
  feed_content-Feeds rec content padding more out cont l m h k well =
      let (output, fed, holds) =
        feed-Fed junk parser inc (segments b.left_offset b.right_offset b.pages) content
          (padding ++ more) out cont (segments-Holds h) k well in
      (
        bypassed junk parser rec (record cont {
          content_parser = (parsed junk parser content cont.content_parser).1;
          output_buffer = output;
        }),
        rw
            (subst
              (λ n. feed junk parser (segments b.left_offset b.right_offset b.pages) n cont ≡ (
                true,
                record cont {
                  content_parser = (parsed junk parser content cont.content_parser).1;
                  output_buffer = output;
                },
              ))
              l fed)
            refl,
        subst (Holds (pop b (total_length rec)).1) dropped
            (pop-Holds (total_length rec) h (
              omega (
                arith,
                length-append content (padding ++ more),
                length-append padding more,
                l,
                m,
              ))).1,
        holds,
        refl,
        refl,
        refl,
      )
    where
      b : Buffer
      b = cont.task_buffer

      dropped : drop (total_length rec) (content ++ (padding ++ more)) ≡ more
      dropped =
          ap (drop (total_length rec)) (sym (append_assoc content padding more))
          ∙ drop-append_add_zero (total_length rec) (content ++ padding) more
              (omega (arith, length-append content padding, l, m))

  -- For a content parser whose runs over two pieces do what one run over both does, which takes
  -- nothing behind the end of the headers, and whose errors stay: a whole record of the server's output
  -- at the front of the task buffer, over the content of which one run of the parser ends without an
  -- error. run_parser takes the record, and puts what that run leaves of its content behind the output,
  -- whatever pages it lies in. What is behind the record stays, and the status and the length of the
  -- task are as they were.
  pub run_parser-Feeds :
      (rec : Record) (content padding more out : Bytes) (cont : Continuation P)
      → IsRecord rec
      → (rec.kind ≡ fcgi_stdout ⊎ rec.kind ≡ fcgi_stderr)
      → length content ≡ rec.content_length
      → length padding ≡ rec.padding_length
      → Holds cont.task_buffer (header_bytes rec ++ (content ++ (padding ++ more)))
      → Holds cont.output_buffer out
      → let (n, p) = parsed junk parser content cont.content_parser in
        parser.has_error p ≡ false
        → (c : Continuation P) × (run_parser junk parser cont ≡ (true, c))
          × Holds c.task_buffer more
          × Holds c.output_buffer (out ++ drop n content)
          × (c.content_parser ≡ p)
          × (c.status ≡ cont.status)
          × (c.task_len ≡ cont.task_len)
  unfolding run_parser total_length
  run_parser-Feeds rec content padding more out cont ok kind l m h k well =
      let (b', extracted, behind) =
        extract_record-header rec (content ++ (padding ++ more)) ok
          (omega (arith, length-append content (padding ++ more), length-append padding more, l, m))
          h in
      let (c, fed, left, put, kept, status, task) =
        feed_content-Feeds rec content padding more out (record cont { task_buffer = b' }) l m
          behind k well in
      (
        c,
        rw extracted (content_record rec (record cont { task_buffer = b' }) kind ∙ fed),
        left,
        put,
        kept,
        status,
        task,
      )
