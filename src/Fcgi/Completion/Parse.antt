-- ===== src/Fcgi/Completion/Parse.antt =====
-- modules/mod_fcgi/fcgi_completion_stage.cc: run_parser, which takes a record of the task buffer.
use tube.Common.{
  ℕ, ◌-◌, min, Bytes, Bool, true, false, ◌||◌, List, [], ◌∷◌, Option, none, some, ◌==◌,
  if◌then◌else◌, length, take, drop,
}
use tube.Common.Int.{pos}
use tube.Core.Buffer.{Buffer, append, segments}
use tube.Fcgi.Proto.{Record, extract_record, bypass_content, total_length}
use tube.Fcgi.Completion.{ContentParser, Continuation, fcgi_end_request, fcgi_stdout, fcgi_stderr}

module _ {P : Type 0} where
  module _ (junk : ℕ) (parser : ContentParser P) where
    -- What the parser takes of a piece of the content; one that is done takes nothing.
    unfoldable pub parsed : Bytes → P → ℕ × P
    parsed piece p = if parser.is_done p then (0, p) else parser.parse piece p

    -- The loop of run_parser over the pages, with the content that is left: false at an error.
    unfoldable pub feed : List Bytes → ℕ → Continuation P → Bool × Continuation P
    feed [] n_left cont = (true, cont)
    feed (page ∷ pages) n_left cont =
        let piece = take (min n_left (length page)) page in
        let (rs, p) = parsed piece cont.content_parser in
        let fed = record cont {
          content_parser = p;
          output_buffer = append junk cont.output_buffer (drop rs piece);
        } in
        let more = feed pages (n_left - length piece) fed in
        if parser.has_error p
        then (false, record cont { content_parser = p })
        else if n_left - length piece == 0
        then (true, fed)
        else more

    unfoldable pub bypassed : Record → Continuation P → Continuation P
    bypassed rec cont = record cont {
      task_buffer = bypass_content cont.task_buffer (total_length rec);
    }

    unfoldable pub feed_content : Record → Continuation P → Bool × Continuation P
    feed_content rec cont =
        let b = cont.task_buffer in
        let fed = feed (segments b.left_offset b.right_offset b.pages) rec.content_length cont in
        if fed.0 then (true, bypassed rec fed.1) else fed

    unfoldable pub run_record : Record → Continuation P → Bool × Continuation P
    run_record rec cont =
        let skipped = bypassed rec cont in
        if rec.kind == fcgi_end_request
        then (
          true,
          if parser.is_done cont.content_parser
              then record skipped { task_len = pos 0 }
              else skipped,
        )
        else if rec.kind == fcgi_stdout || rec.kind == fcgi_stderr
        then feed_content rec cont
        else (true, skipped)

    unfoldable pub run_parser : Continuation P → Bool × Continuation P
    run_parser cont = extracted (extract_record cont.task_buffer)
      where
        extracted : Option Record × Buffer → Bool × Continuation P
        extracted (none, b) = (false, record cont { task_buffer = b })
        extracted (some rec, b) = run_record rec (record cont { task_buffer = b })
