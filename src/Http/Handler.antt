-- ===== src/Http/Handler.antt =====
-- http/http_stages.cc: trigger_handler and the loop of HttpHandlerStage::process_task over the
-- requests of a connection. What a handler does to its work is an argument; `none` stands for a write
-- that has not ended. What the operating system answers to the writes of the stage itself is an
-- argument too, for each request by its place in the loop.
pub mod Served
use tube.Common.{
  ℕ, zero, suc, ◌+◌, ◌-◌, Bytes, codes, Bool, true, false, ◌&&◌, not, List, [], ◌∷◌, ◌++◌, Option,
  none, some, ◌==◌, if◌then◌else◌, length,
}
use tube.Common.Int.{ℤ}
use tube.Core.Connection.{Connection, has_continuation, set_close_after_finish}
use tube.Core.Stream.{Stream}
use tube.Http.Config.{Rule}
use tube.Http.Connection.{HttpRequestData}
use tube.Http.Response.{
  HttpResponse, add_header, reset, write_data, respond, respond_with_message, head_of, tail_of,
}
use tube.Http.Status.{service_unavailable}

-- A connection with the response that is made for it, whether the response was closed, and what has
-- been sent meanwhile.
pub record Work : Type 0 where
  pub conn : Connection
  pub response : HttpResponse
  pub inactive : Bool
  pub sent : Bytes

abbrev pub has_requests : {A : Type 0} → List A → Bool
has_requests [] = false
has_requests (r ∷ rs) = true

-- The work behind a write of the response: what was sent, the stream and the response.
pub wrote : Work → Option (Bytes × Stream × HttpResponse) → Option Work
wrote w none = none
wrote w (some (more, out, response)) = some (record w {
  conn = record w.conn { out_stream = out };
  response = response;
  sent = w.sent ++ more;
})

module _ (junk max_mem : ℕ) where
  -- response.write_string and response.respond for a request without a rule.
  pub respond_unconfigured : List (List (Option ℕ)) → Work → Option Work
  respond_unconfigured answers w = written (
      write_data junk max_mem (head_of answers) (codes "This url is not configured.") w.response
        w.conn.out_stream)
    where
      written : Option ((Bytes × ℤ × Stream) × HttpResponse) → Option Work
      written none = none
      written (some ((sent, code, out), response)) =
          wrote (record w { sent = w.sent ++ sent })
            (respond junk max_mem (tail_of answers) service_unavailable response out)

  -- The end of trigger_handler.
  unfoldable pub done : Option Work → Option Work
  done none = none
  done (some w) = some (record w { response = reset junk max_mem w.response })

  module _ {H : Type 0} (handle : H → HttpRequestData H → Work → Option Work) where
    -- What comes behind a handler: the chain goes on with the work when nobody has responded.
    unfoldable pub after_handler : (Work → Option Work) → Option Work → Option Work
    after_handler more none = none
    after_handler more (some w) =
        if has_continuation w.conn
        then some w
        else if w.response.is_responded
        then done (some w)
        else more w

    -- The loop over the chain, and what is behind it.
    unfoldable pub run_chain :
        List (List (Option ℕ)) → HttpRequestData H → List H → Work → Option Work
    run_chain answers request [] w = done (
        wrote w (
          respond_with_message junk max_mem answers service_unavailable w.response
            w.conn.out_stream))
    run_chain answers request (h ∷ chain) w =
        after_handler (run_chain answers request chain) (handle h request w)

    unfoldable pub keep_alive_header : HttpRequestData H → Work → Work
    keep_alive_header request w =
        if request.message.keep_alive && request.message.version_minor == 0
        then record w { response = add_header (codes "Connection") (codes "Keep-Alive") w.response }
        else w

    unfoldable pub trigger_handler : List (List (Option ℕ)) → HttpRequestData H → Work → Option Work
    trigger_handler answers request w = by_rule request.url_rule
      where
        by_rule : Option (Rule H) → Option Work
        by_rule none = done (respond_unconfigured answers w)
        by_rule (some rule) = run_chain answers request rule.handlers (keep_alive_header request w)

    -- What process_task leaves: the work, the requests, and whether it has scheduled the connection
    -- again.
    abbrev pub Handled : Type 0
    Handled = Work × List (HttpRequestData H) × Bool

    -- Behind trigger_handler for the first of some requests, with the rounds that may follow.
    pub after_request :
        HttpRequestData H
        → List (HttpRequestData H)
        → (Work → Option Handled)
        → Option Work
        → Option Handled
    after_request request rest rounds none = none
    after_request request rest rounds (some w) =
        if has_continuation w.conn
        then some (w, request ∷ rest, false)
        else if not request.message.keep_alive
        then some (record w { conn = set_close_after_finish true w.conn }, rest, false)
        else rounds w

    abbrev pub max_continues_request_number : ℕ
    max_continues_request_number = 3

    -- The loop, with the number of rounds left and the round's own.
    pub rounds :
        (ℕ → List (List (Option ℕ))) → ℕ → ℕ → List (HttpRequestData H) → Work → Option Handled
    rounds answers zero i requests w = some (w, requests, has_requests requests)
    rounds answers (suc left) i [] w = some (w, [], false)
    rounds answers (suc left) i (request ∷ rest) w =
        after_request request rest (rounds answers left (i + 1) rest)
          (trigger_handler (answers i) request w)

    pub process_task :
        (ℕ → List (List (Option ℕ))) → List (HttpRequestData H) → Work → Option Handled
    process_task answers requests w = rounds answers max_continues_request_number 0 requests w
