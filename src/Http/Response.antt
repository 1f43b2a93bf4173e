-- ===== src/Http/Response.antt =====
-- http/http_wrapper.cc: HttpResponse, over the output stream of its connection and the writes of
-- Core/Response. The content length is an int64, and not cut here. What the operating system answers
-- to the flushes of a response is a list of answers for each piece that is written.
pub mod Text
pub mod Pieces
pub mod Sends
use tube.Common.{
  ℕ, suc, Bytes, codes, Bool, true, false, ◌&&◌, List, [], ◌∷◌, ◌++◌, Option, none, some, ltb,
  if◌then◌else◌, length, format_nat, format_number, atoll,
}
use tube.Common.Int.{ℤ, pos, negsuc, ltb_ℤ}
use tube.Utils.Compare.{ignore_compare}
use tube.Core.Buffer.{Buffer, new_buffer, append}
use tube.Core.Stream.{Stream, append_buffer}
use tube.Core.Response
use tube.Http.Headers.{HttpHeaderItem}
use tube.Http.Status.{HttpResponseStatus}

pub record HttpResponse : Type 0 where
  pub headers : List HttpHeaderItem
  pub content_length : ℤ
  pub prepare_buffer : Buffer
  pub use_prepare_buffer : Bool
  pub has_content_length : Bool
  pub is_responded : Bool
  pub responded_status : Option HttpResponseStatus

abbrev pub http_version : Bytes
http_version = codes "HTTP/1.1"

abbrev pub http_new_line : Bytes
http_new_line = 13 ∷ 10 ∷ []

pub add_header : Bytes → Bytes → HttpResponse → HttpResponse
add_header key value r =
    if ignore_compare key (codes "content-length")
    then record r { content_length = atoll value }
    else record r {
      has_content_length =
          if ignore_compare key (codes "transfer-encoding")
            && ignore_compare value (codes "chunked")
          then false
          else r.has_content_length;
      headers = r.headers ++ record { key = key; value = value } ∷ [];
    }

-- The pieces that respond writes.
pub status_pieces : HttpResponseStatus → List Bytes
status_pieces status =
    if status.is_text
    then http_version ∷ codes " " ∷ status.text ∷ http_new_line ∷ []
    else http_version
      ∷ codes " "
      ∷ format_nat status.status_code
      ∷ codes " "
      ∷ status.reason
      ∷ http_new_line
      ∷ []

pub header_pieces : List HttpHeaderItem → List Bytes
header_pieces [] = []
header_pieces (item ∷ items) =
    item.key ∷ codes ": " ∷ item.value ∷ http_new_line ∷ header_pieces items

pub length_pieces : Bool → ℤ → List Bytes
length_pieces has_content_length content_length =
    if has_content_length
    then codes "Content-Length: " ∷ format_number content_length ∷ http_new_line ∷ []
    else []

abbrev pub head_of : List (List (Option ℕ)) → List (Option ℕ)
head_of [] = []
head_of (a ∷ more) = a

abbrev pub tail_of : List (List (Option ℕ)) → List (List (Option ℕ))
tail_of [] = []
tail_of (a ∷ more) = more

-- What respond takes for the length of the body.
pub length_of_body : HttpResponse → ℤ
length_of_body r =
    if ltb_ℤ r.content_length (pos 0) then pos r.prepare_buffer.size else r.content_length

-- All that respond writes before the body.
pub head_pieces : HttpResponseStatus → HttpResponse → List Bytes
head_pieces status r =
    status_pieces status
    ++ (header_pieces r.headers
        ++ (length_pieces r.has_content_length (length_of_body r) ++ http_new_line ∷ []))

pub sent_before : Bytes → Option (Bytes × Stream) → Option (Bytes × Stream)
sent_before sent none = none
sent_before sent (some (more, out)) = some (sent ++ more, out)

-- What comes after a write, on the stream that it leaves.
pub then_write :
    Option (Bytes × ℤ × Stream) → (Stream → Option (Bytes × Stream)) → Option (Bytes × Stream)
then_write none next = none
then_write (some (sent, code, out)) next = sent_before sent (next out)

-- The response once respond is done.
pub responded : HttpResponseStatus → HttpResponse → HttpResponse
responded status r = record r {
  content_length = length_of_body r;
  use_prepare_buffer = false;
  is_responded = true;
  responded_status = some status;
}

-- What is behind a stream when a body was put there.
abbrev pub with_body : Buffer → Stream → Stream
with_body body after = if ltb 0 body.size then append_buffer body after else after

-- The end of respond: the body goes behind what was written, and the response is returned.
pub append_body :
    Buffer → HttpResponse → Option (Bytes × Stream) → Option (Bytes × Stream × HttpResponse)
append_body body r none = none
append_body body r (some (sent, after)) = some (sent, with_body body after, r)

module _ (junk max_mem : ℕ) where
  pub reset : HttpResponse → HttpResponse
  reset r = record r {
    prepare_buffer = new_buffer junk;
    content_length = negsuc 0;
    headers = [];
    has_content_length = true;
    use_prepare_buffer = true;
    is_responded = false;
  }

  -- write_data into the prepare buffer.
  pub prepare : Bytes → HttpResponse → HttpResponse
  prepare bytes r = record r { prepare_buffer = append junk r.prepare_buffer bytes }

  -- HttpResponse::write_data: what was sent, what it returns, the stream and the response.
  pub write_data :
      List (Option ℕ) → Bytes → HttpResponse → Stream → Option ((Bytes × ℤ × Stream) × HttpResponse)
  write_data answers bytes r out =
      if r.use_prepare_buffer
      then some (([], pos (length bytes), out), prepare bytes r)
      else written (Response.write_data junk max_mem answers bytes out)
    where
      written : Option (Bytes × ℤ × Stream) → Option ((Bytes × ℤ × Stream) × HttpResponse)
      written none = none
      written (some w) = some (w, r)

  -- Writing pieces with the prepare buffer off; operator<< goes on after a write that failed.
  pub write_pieces : List (List (Option ℕ)) → List Bytes → Stream → Option (Bytes × Stream)
  write_pieces answers [] out = some ([], out)
  write_pieces answers (piece ∷ pieces) out =
      then_write (Response.write_data junk max_mem (head_of answers) piece out)
        (λ after. write_pieces (tail_of answers) pieces after)

  -- respond: what was sent, the stream and the response.
  pub respond :
      List (List (Option ℕ))
      → HttpResponseStatus
      → HttpResponse
      → Stream
      → Option (Bytes × Stream × HttpResponse)
  respond answers status r out =
      append_body r.prepare_buffer (responded status r)
        (write_pieces answers (head_pieces status r) out)

  -- What respond_with_message prepares.
  pub message_response : HttpResponseStatus → HttpResponse → HttpResponse
  message_response status r = add_header (codes "Content-Type") (codes "text/html") (
      prepare (codes "</h1></body></html>") (
        prepare status.reason (
          prepare (codes "<body><h1>") (
            prepare (codes "</title></head>")
              (prepare status.reason (prepare (codes "<html><head><title>") (reset r)))))))

  pub respond_with_message :
      List (List (Option ℕ))
      → HttpResponseStatus
      → HttpResponse
      → Stream
      → Option (Bytes × Stream × HttpResponse)
  respond_with_message answers status r out = respond answers status (message_response status r) out
