-- ===== src/Http/Response/Text.antt =====
-- The text of a response, and the pieces that respond writes of it.
use tube.Common.{
  Bytes, codes, Bool, List, [], ◌∷◌, ◌++◌, if◌then◌else◌, length, append_assoc, append-nil,
  format_nat, format_number, ◌≡◌, refl, ap, sym, ◌∙◌, Bool-cases, inl, inr,
}
use tube.Common.Int.{ℤ, pos, ltb_ℤ}
use tube.Core.Buffer.Repr.{Holds}
use tube.Http.Headers.{HttpHeaderItem}
use tube.Http.Status.{HttpResponseStatus}
use tube.Http.Response.{
  HttpResponse, http_new_line, status_pieces, header_pieces, length_pieces, length_of_body,
  head_pieces,
}

abbrev pub concat : List Bytes → Bytes
concat [] = []
concat (piece ∷ pieces) = piece ++ concat pieces

pub concat-append : (xs ys : List Bytes) → concat (xs ++ ys) ≡ concat xs ++ concat ys
concat-append [] ys = refl
concat-append (x ∷ xs) ys =
    ap (λ t. x ++ t) (concat-append xs ys) ∙ sym (append_assoc x (concat xs) (concat ys))

abbrev pub status_line : HttpResponseStatus → Bytes
status_line status =
    codes "HTTP/1.1 "
    ++ ((if status.is_text
          then status.text
          else format_nat status.status_code ++ (codes " " ++ status.reason))
        ++ http_new_line)

abbrev pub header_lines : List HttpHeaderItem → Bytes
header_lines [] = []
header_lines (item ∷ items) =
    (item.key ++ (codes ": " ++ (item.value ++ http_new_line))) ++ header_lines items

abbrev pub length_line : Bool → ℤ → Bytes
length_line has told =
    if has then codes "Content-Length: " ++ (format_number told ++ http_new_line) else []

-- The text of a response, by the standard: a status line, the headers, an empty line and the body.
abbrev pub response_text : HttpResponseStatus → List HttpHeaderItem → Bool → ℤ → Bytes → Bytes
response_text status headers has told body =
    status_line status
    ++ (header_lines headers ++ (length_line has told ++ (http_new_line ++ body)))

pub concat-status_pieces :
    (status : HttpResponseStatus) → concat (status_pieces status) ≡ status_line status
unfolding status_pieces
concat-status_pieces status = elim (Bool-cases status.is_text) [
  | inl text ↦ rw text (simp append-nil)
  | inr coded ↦ rw coded (simp (append-nil, append_assoc))
]

pub concat-header_pieces :
    (items : List HttpHeaderItem) → concat (header_pieces items) ≡ header_lines items
unfolding header_pieces
concat-header_pieces [] = refl
concat-header_pieces (item ∷ items) = simp (concat-header_pieces items, append_assoc)

pub concat-length_pieces :
    (has : Bool) (told : ℤ) → concat (length_pieces has told) ≡ length_line has told
unfolding length_pieces
concat-length_pieces has told = elim (Bool-cases has) [
  | inl printed ↦ rw printed (simp append-nil)
  | inr left_out ↦ rw left_out refl
]

-- What respond tells as the length of a body.
abbrev pub told_length : HttpResponse → Bytes → ℤ
told_length r body = if ltb_ℤ r.content_length (pos 0) then pos (length body) else r.content_length

pub head_text :
    (status : HttpResponseStatus) (r : HttpResponse) (body : Bytes)
    → Holds r.prepare_buffer body
    → concat (head_pieces status r) ++ body
      ≡ response_text status r.headers r.has_content_length (told_length r body) body
unfolding head_pieces
head_text status r body h = rw (told) (
    simp (
      concat-append, concat-status_pieces, concat-header_pieces, concat-length_pieces, append_assoc,
      append-nil,
    ))
  where
    told : length_of_body r ≡ told_length r body
    told = unfold length_of_body in rw h.body_length refl
