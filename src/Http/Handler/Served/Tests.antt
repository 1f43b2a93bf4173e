-- ===== src/Http/Handler/Served/Tests.antt =====
-- Two pipelined requests to a handler that responds at once.
use tube.Common.{true, false, [], ◌∷◌, Option, none, some, codes}
use tube.Common.Int.{pos}
use tube.Core.Buffer.{new_buffer}
use tube.Core.Connection.{Connection, reset_continuation}
use tube.Core.Stream.{empty_stream}
use tube.Http.Config.{always}
use tube.Http.Connection.{HttpRequestData}
use tube.Http.Status.{ok}
use tube.Http.Handler.{Work}

abbrev respond_at_once : Unit {0} → HttpRequestData (Unit {0}) → Work → Option Work
respond_at_once h request w = some (record w {
  conn = reset_continuation w.conn;
  response = record w.response { is_responded = true; responded_status = some ok };
})

abbrev get_request : HttpRequestData (Unit {0})
get_request = record {
  headers = [];
  path = codes "/";
  uri = codes "/";
  complete_uri = codes "/";
  query_string = [];
  fragment = [];
  message = record {
    method = 4;
    content_length = 0;
    transfer_encoding = 1;
    version_major = 1;
    version_minor = 1;
    keep_alive = true;
  };
  url_rule = some (record { matcher = always; handlers = tt ∷ [] });
}

abbrev served_connection : Connection
served_connection = record {
  timeout = 15;
  out_stream = empty_stream;
  locked = true;
  cork_enabled = true;
  active = true;
  close_after_finish = false;
  urgent = false;
  last_active = 0;
  continuation = none;
}

abbrev new_work : Work
new_work = record {
  conn = served_connection;
  response = record {
    headers = [];
    content_length = pos 0;
    prepare_buffer = new_buffer 0;
    use_prepare_buffer = true;
    has_content_length = true;
    is_responded = false;
    responded_status = none;
  };
  inactive = false;
  sent = [];
}
