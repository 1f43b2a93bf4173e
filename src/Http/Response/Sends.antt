-- ===== src/Http/Response/Sends.antt =====
-- The bytes that a response puts behind what its connection has to send.
mod Tests
use tube.Common.{
  ℕ, zero, suc, ◌+◌, ◌≤◌, ◌<◌, Bytes, codes, Bool, true, false, List, [], ◌∷◌, ◌++◌, Option, none,
  some, ltb, ◌==◌, ==_iff, if◌then◌else◌, length, append_assoc, append-nil, format_nat,
  format_number, ◌≡◌, refl, ap, sym, ◌∙◌, subst, arith, Bool-cases, Option-cases, inl, inr, ◌⊎◌,
  ◌^◌, length-append,
}
use tube.Common.Int.{ℤ, pos, negsuc, ltb_ℤ}
use tube.Utils.Compare.{chars_match, ignore_compare}
use tube.Core.Buffer.{Buffer, new_buffer, append}
use tube.Core.Buffer.Repr.{Holds, new_buffer-Holds}
use tube.Core.Buffer.Append.{append-Holds}
use tube.Core.Stream.{Stream, append_buffer, append_data}
use tube.Core.Stream.Pending.{SendsAll, append-SendsAll}
use tube.Core.Response
use tube.Core.Response.Conserves.{Fits, Conserves, write_data-Conserves, write_data-fits}
use tube.Core.Stream.Progress.{memory_usage-append_data}
use tube.Http.Headers.{HttpHeaderItem}
use tube.Http.Status.{HttpResponseStatus}
use tube.Http.Response.{
  HttpResponse, responded, with_body, message_response, append_body, http_version, http_new_line,
  add_header, status_pieces, header_pieces, length_pieces, head_of, tail_of, length_of_body,
  head_pieces, sent_before, then_write, reset, prepare, write_pieces, respond, respond_with_message,
}
use tube.Http.Response.Text.{
  concat, concat-append, status_line, header_lines, length_line, response_text,
  concat-status_pieces, concat-header_pieces, concat-length_pieces, told_length, head_text,
}
use tube.Http.Response.Pieces.{PiecesConserve, FitsAll, write_pieces-Conserve}

-- What was sent, with what is left, is a text that was to be sent.
abbrev pub RespondConserves : Bytes → Option (Bytes × Stream × HttpResponse) → Type 0
RespondConserves text none = Unit
RespondConserves text (some (sent, after, r)) =
    (left : Bytes) × SendsAll after.writeables left × (sent ++ left ≡ text)

append_body-Conserves :
    (b : Buffer) (r : HttpResponse) (text body : Bytes) (written : Option (Bytes × Stream))
    → Holds b body
    → PiecesConserve text written
    → RespondConserves (text ++ body) (append_body b r written)
unfolding append_body
append_body-Conserves b r text body none h c = tt
append_body-Conserves b r text body (some (sent, after)) h (left, all, split) =
    elim (Bool-cases (ltb 0 b.size)) [
      | inl held ↦ rw held (
        left ++ body,
        (append-SendsAll 0 after left all).3 b body h,
        sym (append_assoc sent left body) ∙ ap (λ t. t ++ body) split,
      )
      | inr empty ↦ rw empty (
        left,
        all,
        split
            ∙ sym (append-nil text)
            ∙ ap (λ t. text ++ t) (no_bytes body (ground (arith, h.body_length, empty))),
      )
    ]
  where
    no_bytes : (t : Bytes) → length t ≤ 0 → [] ≡ t
    no_bytes [] le = refl
    no_bytes (x ∷ t) le = absurd (omega arith)

module _ (junk max_mem : ℕ) where
  -- A response whose prepare buffer holds a body: what is sent meanwhile and what is then pending are
  -- what was pending before and the text of the response, with the length of the body for a content
  -- length that was not set. The answers of the operating system may end or fail any flush.
  pub respond-Conserves :
      (answers : List (List (Option ℕ))) (status : HttpResponseStatus) (r : HttpResponse)
      (out : Stream) (pending body : Bytes)
      → Holds r.prepare_buffer body
      → SendsAll out.writeables pending
      → FitsAll junk max_mem answers (head_pieces status r) out
      → RespondConserves
          (pending ++ response_text status r.headers r.has_content_length (told_length r body) body)
          (respond junk max_mem answers status r out)
  unfolding respond
  respond-Conserves answers status r out pending body h all fits =
      subst (λ t. RespondConserves t (respond junk max_mem answers status r out))
        (append_assoc pending (concat (head_pieces status r)) body
          ∙ ap (λ t. pending ++ t) (head_text status r body h))
        (append_body-Conserves r.prepare_buffer (responded status r)
          (pending ++ concat (head_pieces status r)) body _ h
          (write_pieces-Conserve junk max_mem answers (head_pieces status r) out pending all fits))

module _ (junk max_mem : ℕ) where
  write_pieces-fits :
      (answers : List (List (Option ℕ))) (pieces : List Bytes) (out : Stream) (body : Bytes)
      → SendsAll out.writeables body
      → out.memory_usage + length (concat pieces) ≤ max_mem
      → max_mem < 2 ^ 64
      → (after : Stream) × (write_pieces junk max_mem answers pieces out ≡ some ([], after))
        × SendsAll after.writeables (body ++ concat pieces)
  unfolding write_pieces then_write sent_before
  write_pieces-fits answers [] out body all le small =
      (out, refl, subst (SendsAll out.writeables) (sym (append-nil body)) all)
  write_pieces-fits answers (piece ∷ pieces) out body all le small =
      let (after, eq, all') =
        write_pieces-fits (tail_of answers) pieces (append_data junk piece out) (body ++ piece)
          ((append-SendsAll junk out body all).0 piece)
          (omega
            (arith, memory_usage-append_data junk piece out, length-append piece (concat pieces)))
          small in
      (
        after,
        rw
            (write_data-fits junk max_mem (head_of answers) piece out
              (omega (arith, length-append piece (concat pieces))) small)
            (rw eq refl),
        subst (SendsAll after.writeables) (append_assoc body piece (concat pieces)) all',
      )

  -- A response whose head fits into the memory of the stream: respond sends nothing by itself, and
  -- behind all that is pending puts the status line, the headers in order, the line of the content
  -- length unless a transfer encoding or the caller has turned it off, an empty line, and the body that
  -- the prepare buffer holds. The length is the one that the caller has set, and that of this body when
  -- none is set or it is below 0.
  pub respond-fits :
      (answers : List (List (Option ℕ))) (status : HttpResponseStatus) (r : HttpResponse)
      (out : Stream) (pending body : Bytes)
      → Holds r.prepare_buffer body
      → SendsAll out.writeables pending
      → out.memory_usage + length (concat (head_pieces status r)) ≤ max_mem
      → max_mem < 2 ^ 64
      → (after : Stream) × (respond junk max_mem answers status r out
          ≡ some ([], after, responded status r))
        × SendsAll after.writeables (
            pending
            ++ response_text status r.headers r.has_content_length (told_length r body) body)
  unfolding respond append_body
  respond-fits answers status r out pending body h all le small =
      let (after, eq, all') =
        write_pieces-fits answers (head_pieces status r) out pending all le small in
      let (left, sent, e) =
        append_body-Conserves r.prepare_buffer (responded status r)
          (pending ++ concat (head_pieces status r)) body (some ([], after)) h
          (pending ++ concat (head_pieces status r), all', refl) in
      (
        with_body r.prepare_buffer after,
        rw eq refl,
        subst (SendsAll (with_body r.prepare_buffer after).writeables)
            (e
              ∙ append_assoc pending (concat (head_pieces status r)) body
              ∙ ap (λ t. pending ++ t) (head_text status r body h))
            sent,
      )

-- What respond_with_message shows of a status.
pub message_page : HttpResponseStatus → Bytes
message_page status =
    ((((codes "<html><head><title>" ++ status.reason) ++ codes "</title></head>")
        ++ codes "<body><h1>")
      ++ status.reason)
    ++ codes "</h1></body></html>"

abbrev pub html_type : HttpHeaderItem
html_type = record { key = codes "Content-Type"; value = codes "text/html" }

module _ (junk max_mem : ℕ) where
  prepared_fields :
      (status : HttpResponseStatus) (r : HttpResponse)
      → ((message_response junk max_mem status r).headers ≡ html_type ∷ [])
        × ((message_response junk max_mem status r).has_content_length ≡ true)
        × ((message_response junk max_mem status r).content_length ≡ negsuc 0)
  unfolding message_response add_header ignore_compare chars_match reset prepare
  prepared_fields status r = (refl, refl, refl)

  prepared-Holds :
      (status : HttpResponseStatus) (r : HttpResponse)
      → Holds (message_response junk max_mem status r).prepare_buffer (message_page status)
  unfolding message_response message_page add_header ignore_compare chars_match reset prepare
  prepared-Holds status r = append-Holds junk (codes "</h1></body></html>") (
      append-Holds junk status.reason (
        append-Holds junk (codes "<body><h1>") (
          append-Holds junk (codes "</title></head>") (
            append-Holds junk status.reason
              (append-Holds junk (codes "<html><head><title>") (new_buffer-Holds junk))))))

  -- The head of a message, with the length of its page.
  pub message_head :
      (status : HttpResponseStatus) (r : HttpResponse)
      → concat (head_pieces status (message_response junk max_mem status r))
        ≡ response_text status (html_type ∷ []) true (pos (length (message_page status))) []
  unfolding head_pieces length_of_body
  message_head status r =
      let (headers, has, unset) = prepared_fields status r in
      rw (headers, has, unset, sym (prepared-Holds status r).body_length)
        (simp (
          concat-append, concat-status_pieces, concat-header_pieces, concat-length_pieces,
          append_assoc, append-nil,
        ))

  -- respond_with_message, when the head fits into the memory of the stream, forgets what was prepared
  -- before: behind all that is pending comes a page that shows the reason of the status twice, under
  -- its status line, its type and its length.
  pub respond_with_message-fits :
      (answers : List (List (Option ℕ))) (status : HttpResponseStatus) (r : HttpResponse)
      (out : Stream) (pending : Bytes)
      → SendsAll out.writeables pending
      → out.memory_usage
          + length (concat (head_pieces status (message_response junk max_mem status r)))
        ≤ max_mem
      → max_mem < 2 ^ 64
      → (after : Stream) × (respond_with_message junk max_mem answers status r out
          ≡ some ([], after, responded status (message_response junk max_mem status r)))
        × SendsAll after.writeables (
            pending
            ++ response_text status
                (html_type ∷ [])
                true
                (pos (length (message_page status)))
                (message_page status))
  unfolding respond_with_message
  respond_with_message-fits answers status r out pending all le small =
      let (headers, has, unset) = prepared_fields status r in
      let (after, eq, sent) =
        respond-fits junk max_mem answers status (message_response junk max_mem status r) out
          pending (message_page status) (prepared-Holds status r) all le small in
      (
        after,
        eq,
        subst (λ t. SendsAll after.writeables (pending ++ t)) (rw (headers, has, unset) refl) sent,
      )
