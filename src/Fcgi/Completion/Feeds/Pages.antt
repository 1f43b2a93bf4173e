-- ===== src/Fcgi/Completion/Feeds/Pages.antt =====
-- What the pages of a record make of the content parser and of the output.
use tube.Common.{
  ℕ, ◌+◌, ◌-◌, ◌≤◌, ◌<◌, min, Bytes, Bool, true, false, List, [], ◌∷◌, ◌++◌, leb, ◌==◌, length,
  take, drop, length-append, length-drop, take_front, drop-append_add, drop-append_le, drop_all,
  take_all, append_assoc, append-nil, ◌≡◌, refl, ap, sym, ◌∙◌, subst, arith, Bool-cases, inl, inr,
}
use tube.Core.Buffer.{Buffer, append}
use tube.Core.Buffer.Repr.{Holds, flatten, split_front}
use tube.Core.Buffer.Append.{append-Holds}
use tube.Fcgi.Completion.{ContentParser, Continuation}
use tube.Fcgi.Completion.Parse.{parsed, feed}

-- What the parser documents: it takes all that it gets until the headers are done, and nothing
-- behind them, and a run goes on where the last one ended. Its states behind the end of the headers
-- count as one.
pub record IsIncremental {P : Type 0} (parser : ContentParser P) : Type 0 where
  pub nothing : (p : P) → parser.parse [] p ≡ (0, p)
  pub within : (bytes : Bytes) (p : P) → (parser.parse bytes p).0 ≤ length bytes
  pub fails :
      (front back : Bytes) (p : P)
      → parser.has_error (parser.parse front p).1 ≡ true
      → parser.has_error (parser.parse (front ++ back) p).1 ≡ true
  pub ended :
      (front back : Bytes) (p : P)
      → parser.is_done (parser.parse front p).1 ≡ true
      → parser.parse (front ++ back) p ≡ parser.parse front p
  pub goes_on :
      (front back : Bytes) (p : P)
      → parser.is_done (parser.parse front p).1 ≡ false
      → parser.has_error (parser.parse front p).1 ≡ false
      → let (n, p') = parser.parse back (parser.parse front p).1 in
        ((parser.parse front p).0 ≡ length front)
        × (parser.parse (front ++ back) p ≡ (length front + n, p'))

module _ (junk : ℕ) {P : Type 0} (parser : ContentParser P) (inc : IsIncremental parser) where
  parsed_nothing : (p : P) → parsed junk parser [] p ≡ (0, p)
  unfolding parsed
  parsed_nothing p = elim (Bool-cases (parser.is_done p)) [
    | inl done ↦ rw done refl
    | inr more ↦ rw more (inc.nothing p)
  ]

  -- A run over a front and a back: the error of the front, or what the back's pieces go to.
  parsed_cut :
      (front back : Bytes) (p : P)
      → let (n, p') = parsed junk parser front p in
        let (m, p'') = parsed junk parser back p' in
        let (k, q) = parsed junk parser (front ++ back) p in
        parser.has_error q ≡ false
        → (parser.has_error p' ≡ false)
          × (q ≡ p'')
          × (drop n front ++ drop m back ≡ drop k (front ++ back))
  unfolding parsed
  parsed_cut front back p = elim (Bool-cases (parser.is_done p)) [
    | inl done ↦ rw (done, done) (λ well. (well, refl, refl))
    | inr more ↦ rw more (elim (Bool-cases (parser.has_error r.1)) [
      | inl failed ↦ λ well. cc (well, inc.fails front back p failed)
      | inr fine ↦ elim (Bool-cases (parser.is_done r.1)) [
        | inl done ↦
            rw (done, inc.ended front back p done)
              (λ well. (well, refl, sym (drop-append_le r.0 front back (inc.within front p))))
        | inr open_still ↦
            let (all, goes_on) = inc.goes_on front back p open_still fine in
            rw (open_still, goes_on)
              (λ well. (
                fine,
                refl,
                ap (λ l. l ++ drop (parser.parse back r.1).0 back)
                      (drop_all r.0 front (omega (arith, all)))
                    ∙ sym
                        (drop-append_add (length front) (parser.parse back r.1).0 front back refl),
              ))
      ]
    ])
  ]
    where
      r : ℕ × P
      r = parser.parse front p

  -- A continuation that has been given some content: what the parser left of it is in the output.
  abbrev pub Fed : Bytes → Bytes → Continuation P → Bool × Continuation P → Type 0
  Fed content out cont r =
      let (n, p) = parsed junk parser content cont.content_parser in
      (b : Buffer) × (r ≡ (true, record cont { content_parser = p; output_buffer = b }))
      × Holds b (out ++ drop n content)

  -- A page that the content goes beyond.
  feed_more :
      (page : Bytes) (pages : List Bytes) (rest out : Bytes) (cont : Continuation P)
      → 0 < length rest
      → Holds cont.output_buffer out
      → parser.has_error (parsed junk parser (page ++ rest) cont.content_parser).1 ≡ false
      → ((next : Continuation P) (sum : Bytes)
          → Holds next.output_buffer sum
          → parser.has_error (parsed junk parser rest next.content_parser).1 ≡ false
          → Fed rest sum next (feed junk parser pages (length rest) next))
      → Fed (page ++ rest) out cont (feed junk parser (page ∷ pages) (length (page ++ rest)) cont)
  unfolding feed
  feed_more page pages rest out cont some_rest h well goes_on =
      let (here, there, split) = parsed_cut page rest cont.content_parser well in
      let (b, fed, holds) =
        goes_on next (out ++ drop r.0 page) (append-Holds junk (drop r.0 page) h)
          (ap parser.has_error (sym there) ∙ well) in
      rw (part, here, some_left, less)
        (
          b,
          fed ∙ ap (λ p. (true, record cont { content_parser = p; output_buffer = b })) (sym there),
          subst (Holds b) (append_assoc out (drop r.0 page) _ ∙ ap (λ t. out ++ t) split) holds,
        )
    where
      r : ℕ × P
      r = parsed junk parser page cont.content_parser

      next : Continuation P
      next = record cont {
        content_parser = r.1;
        output_buffer = append junk cont.output_buffer (drop r.0 page);
      }

      part : take (min (length (page ++ rest)) (length page)) page ≡ page
      part = take_all _ page (omega (arith, length-append page rest))

      some_left : (length (page ++ rest) - length page == 0) ≡ false
      some_left = ground (arith, length-append page rest)

      less : length (page ++ rest) - length page ≡ length rest
      less = omega (arith, length-append page rest)

  pub feed-Fed :
      (pages : List Bytes) (content tail out : Bytes) (cont : Continuation P)
      → flatten pages ≡ content ++ tail
      → Holds cont.output_buffer out
      → parser.has_error (parsed junk parser content cont.content_parser).1 ≡ false
      → Fed content out cont (feed junk parser pages (length content) cont)
  unfolding feed
  feed-Fed [] [] tail out cont e h well =
      rw (parsed_nothing cont.content_parser)
        (cont.output_buffer, refl, subst (Holds cont.output_buffer) (sym (append-nil out)) h)
  feed-Fed [] (b ∷ content) tail out cont e h well = absurd (omega (arith, ap length e))
  feed-Fed (page ∷ pages) content tail out cont e h well =
      elim (Bool-cases (leb (length content) (length page))) [
        | inl last ↦
            rw (whole (ground (arith, last)), well, none_left content)
              (
                append junk cont.output_buffer (drop n content),
                refl,
                append-Holds junk (drop n content) h,
              )
        | inr more ↦
            let le : length page ≤ length content = ground (arith, more) in
            let (front, back) = split_front page (flatten pages) content tail e le in
            subst (λ t. Fed t out cont (feed junk parser (page ∷ pages) (length t) cont))
              (sym front)
              (feed_more page pages (drop (length page) content) out cont
                (ground (arith, more, length-drop (length page) content)) h
                (subst (λ t. parser.has_error (parsed junk parser t cont.content_parser).1 ≡ false)
                  front well)
                (λ next sum k fine.
                  feed-Fed pages (drop (length page) content) tail sum next back k fine))
      ]
    where
      n : ℕ
      n = (parsed junk parser content cont.content_parser).0

      whole :
          length content ≤ length page → take (min (length content) (length page)) page ≡ content
      whole le =
          ap (λ k. take k page) (omega arith)
          ∙ ap (take (length content)) (split_front content tail page (flatten pages) (sym e) le).0
          ∙ take_front content (drop (length content) page)

      none_left : (l : Bytes) → (length l - length l == 0) ≡ true
      none_left l = ground arith
