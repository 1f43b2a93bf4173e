-- ===== src/Http/Connection.antt =====
-- http/connection.cc: HttpConnection. The parser is generated from a grammar, so that it is a record
-- of functions: a run over some bytes gives how many it took, the callbacks that it made, in order,
-- and its next state. The buffer of a request's chunks is left out: its pages are shared between the
-- request that is parsed and its copies among the complete ones, and clear() takes them away from
-- both. The handlers of a rule are of any type.
pub mod Callbacks
pub mod Pages
use tube.Common.{
  ℕ, ◌+◌, ◌*◌, ◌^◌, Bytes, codes, bytes_eq, Bool, true, false, ◌&&◌, ◌||◌, not, List, [], ◌∷◌, ◌++◌,
  Option, none, some, ltb, ◌==◌, if◌then◌else◌,
}
use tube.Core.Buffer.{Buffer, pop, segments}
use tube.Http.Body.{Input, skip_posted}
use tube.Http.Config
use tube.Http.Config.{Rule, match_uri}
use tube.Http.Headers.{HttpHeaderItem}

-- What a callback gives a piece of.
pub data Part : Type 0 where
  header_field : Part
  header_value : Part
  uri : Part
  path : Part
  query_string : Part
  fragment : Part
  chunk_data : Part

-- The parser's fields when a message is complete; keep_alive is http_parser_should_keep_alive.
pub record Message : Type 0 where
  pub method : ℕ
  pub content_length : ℕ
  pub transfer_encoding : ℕ
  pub version_major : ℕ
  pub version_minor : ℕ
  pub keep_alive : Bool

pub data Callback : Type 0 where
  on_data : Part → Bytes → Callback
  on_header_line_complete : Callback
  on_message_complete : Message → Callback

-- http_parser_execute and http_parser_has_error over the parser's states.
pub record HttpParser (P : Type 0) : Type 0 where
  pub execute : Bytes → P → ℕ × List Callback × P
  pub has_error : P → Bool

-- What message_complete copies from the parser is the field `message`.
pub record HttpRequestData (H : Type 0) : Type 0 where
  pub headers : List HttpHeaderItem
  pub path : Bytes
  pub uri : Bytes
  pub complete_uri : Bytes
  pub query_string : Bytes
  pub fragment : Bytes
  pub message : Message
  pub url_rule : Option (Rule H)

-- The requests of an HttpConnection: those complete, and the one that is parsed.
pub record Requests (H : Type 0) : Type 0 where
  pub complete : List (HttpRequestData H)
  pub tmp_request : HttpRequestData H
  pub last_header_key : Bytes
  pub last_header_value : Bytes

pub record HttpConnection (H P : Type 0) : Type 0 where
  pub input : Input
  pub parser : P
  pub requests : Requests H

-- The loop of finish_parse over the headers.
pub find_host : List HttpHeaderItem → Bytes
find_host [] = codes "default"
find_host (item ∷ items) =
    let rest = find_host items in if bytes_eq item.key (codes "Host") then item.value else rest

abbrev pub max_body_size : ℕ
max_body_size = 16 * 2 ^ 10

module _ {H : Type 0} where
  -- HttpRequestData::clear
  unfoldable pub clear : HttpRequestData H → HttpRequestData H
  clear r = record r { headers = []; path = []; uri = []; query_string = []; fragment = [] }

  -- append_field, append_value, append_uri, append_path, append_query_string and append_fragment. A
  -- piece of a chunk changes nothing that is modelled.
  unfoldable pub append_part : Part → Bytes → Requests H → Requests H
  append_part header_field bytes q = record q { last_header_key = q.last_header_key ++ bytes }
  append_part header_value bytes q = record q { last_header_value = q.last_header_value ++ bytes }
  append_part uri bytes q =
      let r = q.tmp_request in record q { tmp_request = record r { uri = r.uri ++ bytes } }
  append_part path bytes q =
      let r = q.tmp_request in record q { tmp_request = record r { path = r.path ++ bytes } }
  append_part query_string bytes q =
      let r = q.tmp_request in
      record q { tmp_request = record r { query_string = r.query_string ++ bytes } }
  append_part fragment bytes q =
      let r = q.tmp_request in
      record q { tmp_request = record r { fragment = r.fragment ++ bytes } }
  append_part chunk_data bytes q = q

  pub finish_header_line : Requests H → Requests H
  finish_header_line q =
      let r = q.tmp_request in
      record q {
        tmp_request = record r {
          headers =
              r.headers ++ record { key = q.last_header_key; value = q.last_header_value } ∷ [];
        };
        last_header_key = [];
        last_header_value = [];
      }

  pub host_of : HttpRequestData H → Bytes
  host_of r =
      if r.message.version_major == 1 && r.message.version_minor == 1
      then find_host r.headers
      else codes "default"

  -- match_uri's changes to the request, and its rule. Where it reads behind end(), there is no rule.
  pub matched : Option (Option (Rule H) × Config.Request) → HttpRequestData H → HttpRequestData H
  matched none r = record r { url_rule = none }
  matched (some (rule, req)) r = record r { path = req.path; uri = req.uri; url_rule = rule }

  -- !requests_.empty() && requests_.back().content_length > 0
  unfoldable pub awaits_body : List (HttpRequestData H) → Bool
  awaits_body [] = false
  awaits_body (r ∷ []) = ltb 0 r.message.content_length
  awaits_body (r ∷ q ∷ rs) = awaits_body (q ∷ rs)

  pub ready_for : ℕ → List (HttpRequestData H) → Bool
  ready_for size [] = false
  ready_for size (r ∷ []) =
      not (ltb r.message.content_length max_body_size && ltb size r.message.content_length)
  ready_for size (r ∷ q ∷ rs) = ready_for size (q ∷ rs)

  module _ (hosts : List (Bytes × List (Rule H))) where
    -- The request that finish_parse puts behind the complete ones.
    pub finished : Message → HttpRequestData H → HttpRequestData H
    finished message r =
        let told = record r { message = message; complete_uri = r.uri } in
        matched (match_uri hosts (host_of told) (record { path = told.path; uri = told.uri })) told

    pub finish_parse : Message → Requests H → Requests H
    finish_parse message q =
        let r = finished message q.tmp_request in
        record {
          complete = q.complete ++ r ∷ [];
          tmp_request = clear r;
          last_header_key = [];
          last_header_value = [];
        }

    unfoldable pub call : Callback → Requests H → Requests H
    call (on_data part bytes) q = append_part part bytes q
    call on_header_line_complete q = finish_header_line q
    call (on_message_complete message) q = finish_parse message q

    unfoldable pub call_all : List Callback → Requests H → Requests H
    call_all [] q = q
    call_all (cb ∷ cbs) q = call_all cbs (call cb q)

    module _ {P : Type 0} (parser : HttpParser P) where
      -- The loop over the pages: how much was consumed, and what it did.
      pub parse_pages : List Bytes → ℕ → P → Requests H → ℕ × P × Requests H
      parse_pages [] consumed p q = (consumed, p, q)
      parse_pages (page ∷ pages) consumed p q =
          let (n, cbs, p') = parser.execute page p in
          let q' = call_all cbs q in
          let more = parse_pages pages (consumed + n) p' q' in
          if awaits_body q'.complete || parser.has_error p' then (consumed + n, p', q') else more

      -- The last part of do_parse.
      pub parse_buffer : Buffer → HttpConnection H P → Bool × HttpConnection H P
      parse_buffer b c =
          let (n, p, q) =
            parse_pages (segments b.left_offset b.right_offset b.pages) 0 c.parser c.requests in
          (
            not (parser.has_error p),
            record {
              input = record { buffer = (pop b n).1; bytes_should_skip = 0 };
              parser = p;
              requests = q;
            },
          )

      pub do_parse : HttpConnection H P → Bool × HttpConnection H P
      do_parse c =
          if awaits_body c.requests.complete
          then (true, c)
          else (let (goes_on, input) = skip_posted c.input in
              if goes_on then parse_buffer input.buffer c else (true, record c { input = input }))

  pub is_ready : {P : Type 0} → HttpConnection H P → Bool
  is_ready c = ready_for c.input.buffer.size c.requests.complete
