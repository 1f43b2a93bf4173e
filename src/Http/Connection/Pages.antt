-- ===== src/Http/Connection/Pages.antt =====
-- do_parse parses what the buffer holds, wherever its pages end.
mod Tests
use tube.Common.{
  ℕ, ◌+◌, ◌≤◌, Bytes, Bool, true, false, ◌&&◌, ◌||◌, not, List, [], ◌∷◌, ◌++◌, Option, none, some,
  ltb, ◌==◌, if◌then◌else◌, length, drop, zero_plus, ◌≡◌, refl, ap, subst, sym, ◌∙◌, arith,
  Bool-cases, inl, inr,
}
use tube.Core.Buffer.{Buffer, pop, segments}
use tube.Core.Buffer.Repr.{Holds, flatten}
use tube.Core.Buffer.Pop.{pop-Holds}
use tube.Core.Buffer.Copy.{segments-Holds}
use tube.Http.Body.{Input, skip_posted}
use tube.Http.Config
use tube.Http.Config.{Rule, match_uri}
use tube.Http.Connection.{
  Part, header_field, header_value, uri, path, query_string, fragment, chunk_data, Message,
  Callback, on_data, on_header_line_complete, on_message_complete, HttpParser, HttpRequestData,
  Requests, HttpConnection, append_part, finish_header_line, finish_parse, finished, matched, call,
  call_all, awaits_body, parse_pages, parse_buffer, do_parse,
}
use tube.Http.Connection.Callbacks.{
  Same, IsPlain, IsPlain-Same, IsPlain-append, last_message, has_body, call_all-Same,
  call_all-append,
}

-- The body of the last message is not chunked, and is left for the handler.
abbrev pub leaves_body : Option Message → Bool
leaves_body none = false
leaves_body (some m) = ltb 0 m.content_length && (m.transfer_encoding == 1)

-- What the parser documents: its callbacks may cut a string into any pieces, a run goes on where the
-- last one ended, and it ends in front of a body that is not chunked or with an error. At the end of a
-- run it gives away what it has of a URI as a whole and of its parts, so that the pieces of both come
-- one between the other. A run with an error, as that of a field over 80 KB, need not go on.
pub record IsIncremental {P : Type 0} (parser : HttpParser P) : Type 0 where
  pub nothing :
      (p : P)
      → ((parser.execute [] p).0 ≡ 0)
        × Same (parser.execute [] p).1 []
        × ((parser.execute [] p).2 ≡ p)
  pub within : (bytes : Bytes) (p : P) → (parser.execute bytes p).0 ≤ length bytes
  pub fails :
      (front back : Bytes) (p : P)
      → parser.has_error (parser.execute front p).2 ≡ true
      → parser.has_error (parser.execute (front ++ back) p).2 ≡ true
  pub ended :
      (front back : Bytes) (p : P)
      → parser.has_error (parser.execute front p).2 ≡ false
      → leaves_body (last_message (parser.execute front p).1 none) ≡ true
      → parser.execute (front ++ back) p ≡ parser.execute front p
  pub goes_on :
      (front back : Bytes) (p : P)
      → parser.has_error (parser.execute front p).2 ≡ false
      → leaves_body (last_message (parser.execute front p).1 none) ≡ false
      → parser.has_error (parser.execute (front ++ back) p).2 ≡ false
      → let (n, cbs, p') = parser.execute front p in
        let (n', cbs', p'') = parser.execute back p' in
        let (m, all, q) = parser.execute (front ++ back) p in
        (m ≡ n + n') × Same all (cbs ++ cbs') × (q ≡ p'')

leaves-IsPlain :
    (cbs : List Callback) (last : Option Message)
    → IsPlain cbs
    → has_body last ≡ leaves_body last
    → has_body (last_message cbs last) ≡ leaves_body (last_message cbs last)
unfolding IsPlain last_message
leaves-IsPlain [] last p e = e
leaves-IsPlain (on_data part bytes ∷ cbs) last p e = leaves-IsPlain cbs last p e
leaves-IsPlain (on_header_line_complete ∷ cbs) last p e = leaves-IsPlain cbs last p e
leaves-IsPlain (on_message_complete m ∷ cbs) last p e =
    leaves-IsPlain cbs (some m) p.1 (let plain = p.0 in ground (arith, plain))

triple :
    {A B C : Type 0} {a a' : A} {b b' : B} {c c' : C}
    → a ≡ a'
    → b ≡ b'
    → c ≡ c'
    → ◌≡◌ {A = A × B × C} (a, b, c) (a', b', c')
triple e f g = rw (e, f, g) refl

module _ {H : Type 0} (hosts : List (Bytes × List (Rule H))) where
  awaits_body-last :
      (rs : List (HttpRequestData H)) (r : HttpRequestData H)
      → awaits_body (rs ++ r ∷ []) ≡ ltb 0 r.message.content_length
  unfolding awaits_body
  awaits_body-last [] r = refl
  awaits_body-last (q ∷ []) r = refl
  awaits_body-last (q ∷ q' ∷ rs) r = awaits_body-last (q' ∷ rs) r

  matched_message :
      (o : Option (Option (Rule H) × Config.Request)) (r : HttpRequestData H)
      → (matched o r).message ≡ r.message
  unfolding matched
  matched_message none r = refl
  matched_message (some o) r = refl

  finished_message : (m : Message) (r : HttpRequestData H) → (finished hosts m r).message ≡ m
  unfolding finished
  finished_message m r = matched_message (match_uri hosts _ _) _

  append_part-complete :
      (part : Part) (bytes : Bytes) (q : Requests H)
      → (append_part part bytes q).complete ≡ q.complete
  unfolding append_part
  append_part-complete header_field bytes q = refl
  append_part-complete header_value bytes q = refl
  append_part-complete uri bytes q = refl
  append_part-complete path bytes q = refl
  append_part-complete query_string bytes q = refl
  append_part-complete fragment bytes q = refl
  append_part-complete chunk_data bytes q = refl

  awaits_body-call_all :
      (cbs : List Callback) (last : Option Message) (q : Requests H)
      → awaits_body q.complete ≡ has_body last
      → awaits_body (call_all hosts cbs q).complete ≡ has_body (last_message cbs last)
  unfolding call_all last_message call finish_header_line finish_parse
  awaits_body-call_all [] last q e = e
  awaits_body-call_all (on_data part bytes ∷ cbs) last q e =
      awaits_body-call_all cbs last (append_part part bytes q)
        (ap awaits_body (append_part-complete part bytes q) ∙ e)
  awaits_body-call_all (on_header_line_complete ∷ cbs) last q e =
      awaits_body-call_all cbs last (finish_header_line q) e
  awaits_body-call_all (on_message_complete m ∷ cbs) last q e =
      awaits_body-call_all cbs (some m) (finish_parse hosts m q) (
        awaits_body-last q.complete (finished hosts m q.tmp_request)
        ∙ ap (λ m. ltb 0 m.content_length) (finished_message m q.tmp_request))

  module _ {P : Type 0} (parser : HttpParser P) (inc : IsIncremental parser) where
    parse_pages-run :
        (pages : List Bytes) (consumed : ℕ) (p : P) (q : Requests H)
        → awaits_body q.complete ≡ false
        → let (n, cbs, p') = parser.execute (flatten pages) p in
          parser.has_error p' ≡ false
          → IsPlain cbs
          → parse_pages hosts parser pages consumed p q ≡ (consumed + n, p', call_all hosts cbs q)
    unfolding parse_pages call_all
    parse_pages-run [] consumed p q idle ok plain =
        let (none_taken, no_calls, unchanged) = inc.nothing p in
        triple (omega (arith, none_taken)) (sym unchanged) (sym (call_all-Same hosts no_calls q))
    parse_pages-run (page ∷ pages) consumed p q idle ok plain =
        elim (Bool-cases (parser.has_error r.2)) [
          | inl failed ↦ cc (ok, inc.fails page (flatten pages) p failed)
          | inr well ↦ elim (Bool-cases (leaves_body (last_message r.1 none))) [
            | inl left ↦
                let same_run = inc.ended page (flatten pages) p well left in
                rw
                  (
                    awaits_body-call_all r.1 none q idle
                        ∙ leaves-IsPlain r.1 none (subst (λ w. IsPlain w.1) same_run plain) refl
                        ∙ left,
                    same_run,
                  )
                  refl
            | inr goes_on ↦
                let (sum, calls, state) = inc.goes_on page (flatten pages) p well goes_on ok in
                let (here, there) =
                  IsPlain-append r.1 (parser.execute (flatten pages) r.2).1
                    ((IsPlain-Same calls).0 plain) in
                let still_idle =
                  awaits_body-call_all r.1 none q idle
                  ∙ leaves-IsPlain r.1 none here refl
                  ∙ goes_on in
                rw (still_idle, well)
                  (parse_pages-run pages (consumed + r.0) r.2 (call_all hosts r.1 q) still_idle
                      (ap parser.has_error (sym state) ∙ ok) there
                    ∙ triple (omega (arith, sum)) (sym state) (
                        sym (call_all-append hosts r.1 (parser.execute (flatten pages) r.2).1 q)
                        ∙ sym (call_all-Same hosts calls q)))
          ]
        ]
      where
        r : ℕ × List Callback × P
        r = parser.execute page p

    -- For a parser whose runs over two pieces, while there is no error, take what one run over both
    -- takes, reach its state and make its callbacks but for the cuts in the strings, which ends a run
    -- in front of a body, and whose errors stay; and for a connection that awaits no body and has none
    -- to skip: when one run of the parser over all that the buffer holds ends without an error, and
    -- none of its messages is both chunked and of a length, do_parse succeeds and makes the requests
    -- of that run, whatever pages the bytes lie in, and the buffer then holds what the run has not
    -- taken. The data of chunks is not in the requests.
    pub do_parse-pages :
        (c : HttpConnection H P) (bytes : Bytes)
        → Holds c.input.buffer bytes
        → c.input.bytes_should_skip ≡ 0
        → awaits_body c.requests.complete ≡ false
        → let (n, cbs, p) = parser.execute bytes c.parser in
          parser.has_error p ≡ false
          → IsPlain cbs
          → let d = do_parse hosts parser c in
            (d.0 ≡ true)
            × (d.1.requests ≡ call_all hosts cbs c.requests)
            × (d.1.parser ≡ p)
            × Holds d.1.input.buffer (drop n bytes)
    unfolding do_parse parse_buffer skip_posted
    do_parse-pages c bytes h no_skip idle ok plain =
        rw (idle, no_skip, run)
          (rw ok (refl, refl, refl, (pop-Holds _ h (inc.within bytes c.parser)).1))
      where
        bytes_run :
            flatten
              (segments c.input.buffer.left_offset c.input.buffer.right_offset c.input.buffer.pages)
            ≡ bytes
        bytes_run = segments-Holds h

        run :
            parse_pages hosts parser
              (segments c.input.buffer.left_offset c.input.buffer.right_offset c.input.buffer.pages)
              0
              c.parser
              c.requests
            ≡ (let (n, cbs, p) = parser.execute bytes c.parser in
                (n, p, call_all hosts cbs c.requests))
        run =
            parse_pages-run
              (segments c.input.buffer.left_offset c.input.buffer.right_offset c.input.buffer.pages)
              0 c.parser c.requests idle
              (subst (λ t. parser.has_error (parser.execute t c.parser).2 ≡ false) (sym bytes_run)
                ok)
              (subst (λ t. IsPlain (parser.execute t c.parser).1) (sym bytes_run) plain)
            ∙ triple (zero_plus _ ∙ ap (λ t. (parser.execute t c.parser).0) bytes_run)
                (ap (λ t. (parser.execute t c.parser).2) bytes_run)
                (ap (λ t. call_all hosts (parser.execute t c.parser).1 c.requests) bytes_run)
