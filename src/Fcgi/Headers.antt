-- ===== src/Fcgi/Headers.antt =====
-- modules/mod_fcgi/fcgi_proto.cc: FcgiContentParser, behind the generated parser, which calls
-- push_name and push_value with pieces of the input and push_header at the end of each line.
pub mod Lines
use tube.Common.{
  Bytes, codes, bytes_eq, Bool, true, false, List, [], ◌∷◌, ◌++◌, ◌&&◌, ◌||◌, if◌then◌else◌,
}

pub record Parser : Type 0 where
  pub parse_done : Bool
  pub is_streaming : Bool
  pub status_text : Bytes
  pub header_line : Bytes × Bytes
  pub headers : List (Bytes × Bytes)

pub init : Parser
init = record {
  parse_done = false;
  is_streaming = false;
  status_text = [];
  header_line = ([], []);
  headers = [];
}

pub push_name : Bytes → Parser → Parser
push_name str p = record p { header_line = (p.header_line.0 ++ str, p.header_line.1) }

pub push_value : Bytes → Parser → Parser
push_value str p = record p { header_line = (p.header_line.0, p.header_line.1 ++ str) }

-- The test for a response that is streamed: a chunked one, or one that names its length.
pub streams : Bytes × Bytes → Bool
streams (name, value) =
    (bytes_eq name (codes "Transfer-encoding") && bytes_eq value (codes "chunked"))
    || bytes_eq name (codes "Content-length")

pub push_header : Parser → Parser
push_header p =
    if bytes_eq p.header_line.0 (codes "Status")
    then record p { status_text = p.header_line.1; header_line = ([], []) }
    else record p {
      headers = p.headers ++ p.header_line ∷ [];
      is_streaming = if streams p.header_line then true else p.is_streaming;
      header_line = ([], []);
    }

pub done_parse : Parser → Parser
done_parse p = record p { parse_done = true }
