-- ===== src/Fcgi/Environment/Requests/Tests.antt =====
-- A request with one pair and ten bytes of input.
use tube.Common.{Bytes, codes, List, [], ◌∷◌, ◌++◌, some, length, ◌≡◌, refl, arith}
use tube.Core.Buffer.Repr.{Holds}
use tube.Fcgi.Proto.{fcgi_begin_request, fcgi_params, header_bytes}
use tube.Fcgi.Environment.{prepare_request, append_length, append_int}
use tube.Fcgi.Environment.Pairs.{pair_bytes, pairs_bytes}
use tube.Fcgi.Environment.Requests.{record_bytes, begin_body, stdin_header, ready, request-Holds}

abbrev one_pair : List (Bytes × Bytes)
one_pair = (codes "HOST", codes "a") ∷ []

pair_length : length (pairs_bytes one_pair) ≡ 7
unfolding pair_bytes append_length append_int
pair_length = refl

request-Holds_example :
    ((prepare_request 0 (ready 0 one_pair) 10).0 ≡ some 12)
    × ((stdin_header 10).content_length ≡ 10)
    × Holds (prepare_request 0 (ready 0 one_pair) 10).1.buffer (
        (record_bytes fcgi_begin_request begin_body
          ++ record_bytes fcgi_params (pairs_bytes one_pair))
        ++ (record_bytes fcgi_params [] ++ header_bytes (stdin_header 10)))
request-Holds_example =
    request-Holds 0 one_pair 10 (omega (arith, pair_length)) (omega (arith, pair_length))
      (omega arith)
