-- ===== src/Http/Response/Sends/Tests.antt =====
-- Responses on a connection that has nothing to send.
use tube.Common.{
  ◌^◌, codes, true, false, [], ◌∷◌, ◌++◌, none, some, digits, format_nat, format_number, ◌≡◌, refl,
  arith,
}
use tube.Common.Int.{pos}
use tube.Core.Buffer.{new_buffer, append}
use tube.Core.Buffer.Repr.{new_buffer-Holds}
use tube.Core.Buffer.Append.{append-Holds}
use tube.Core.Stream.{Stream}
use tube.Core.Stream.Pending.{SendsAll}
use tube.Http.Status.{ok}
use tube.Http.Response.{
  HttpResponse, responded, head_pieces, status_pieces, header_pieces, length_pieces, length_of_body,
  respond,
}
use tube.Http.Response.Sends.{respond-fits}

abbrev nothing_pending : Stream
nothing_pending = record { writeables = []; memory_usage = 0 }

abbrev hello : HttpResponse
hello = record {
  headers = [];
  content_length = pos 5;
  prepare_buffer = append 7 (new_buffer 7) (codes "hello");
  use_prepare_buffer = true;
  has_content_length = true;
  is_responded = false;
  responded_status = none;
}

respond-fits_example :
    (after : Stream) × (respond 7 (2 ^ 22) [] ok hello nothing_pending
      ≡ some ([], after, responded ok hello))
    × SendsAll after.writeables (
        codes "HTTP/1.1 200 OK"
        ++ (13 ∷ 10 ∷ []
            ++ (codes "Content-Length: 5" ++ (13 ∷ 10 ∷ 13 ∷ 10 ∷ [] ++ codes "hello"))))
unfolding digits format_nat format_number head_pieces status_pieces header_pieces length_pieces
    length_of_body
respond-fits_example =
    respond-fits 7 (2 ^ 22) [] ok hello nothing_pending [] (codes "hello")
      (append-Holds 7 (codes "hello") (new_buffer-Holds 7)) refl (omega arith) (omega arith)
