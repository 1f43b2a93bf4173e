-- ===== src/Fcgi/Handler/Held/Tests.antt =====
-- A request behind its headers, for a server at descriptor 9 and a client at descriptor 5, with a
-- response that is not streamed.
use tube.Common.{Bool, true, false, Option, none, [], ◌∷◌, ◌==◌, ◌≡◌, refl, inr, ◌⊎◌, codes}
use tube.Common.Int.{pos}
use tube.Core.Buffer.{new_buffer, append}
use tube.Core.Stream.{empty_stream}
use tube.Fcgi.Completion.{ContentParser, Continuation, Completion, headers_done, continued}
use tube.Fcgi.Completion.Watches.{IsHeld}
use tube.Fcgi.Handler.{process_eof}
use tube.Fcgi.Handler.Resume.{Resumed, ended, handle_request}
use tube.Fcgi.Handler.Held.{Yields, Stops, Finishes, handle_request-Yields}
use tube.Fcgi.Pool.{Pool}
use tube.Http.Handler.{Work}

abbrev done_parser : ContentParser Bool
done_parser = record {
  parse = λ bytes p. (0, true);
  is_done = λ p. p;
  is_streaming = λ p. false;
  has_error = λ p. false;
}

-- The task buffer has a record with one byte of output, and a part of the next record.
abbrev behind_headers : Completion Bool
behind_headers = record {
  cont = record {
    sock_fd = 9;
    need_reconnect = false;
    status = headers_done;
    task_buffer = append 0 (new_buffer 0) (1 ∷ 6 ∷ 0 ∷ 1 ∷ 0 ∷ 0 ∷ 0 ∷ 0 ∷ codes "rest");
    task_len = pos 2147483647;
    content_parser = true;
    output_buffer = new_buffer 0;
    last_active = 3;
  };
  conn_fd = 5;
  poller = record { fds = λ d. d == 7; timer = []; last_executed = 0; expired = [] };
  out_stream = empty_stream;
  rescheduled = 1;
  written_back = 0;
}

behind_headers-IsHeld : IsHeld 0 behind_headers
behind_headers-IsHeld = record { two_fds = refl; watched = (refl, refl); once = refl }

abbrev resumed_work : Work
resumed_work = record {
  conn = record {
    timeout = 15;
    out_stream = empty_stream;
    locked = true;
    cork_enabled = true;
    active = true;
    close_after_finish = false;
    urgent = false;
    last_active = 0;
    continuation = none;
  };
  response = record {
    headers = [];
    content_length = pos 0;
    prepare_buffer = new_buffer 0;
    use_prepare_buffer = true;
    has_content_length = false;
    is_responded = false;
    responded_status = none;
  };
  inactive = false;
  sent = [];
}

abbrev one_socket : Pool
one_socket = record {
  max_n_sockets = pos 1;
  initialized = true;
  active = [];
  inactive = [];
  created = 1;
  closed = [];
}

abbrev handled : Option (Resumed Bool)
handled =
    handle_request 0 4096 done_parser pos [] [] [] [] true 4 1 behind_headers resumed_work
      one_socket

all_fine : (p : Bool) → done_parser.is_done p ≡ true → done_parser.has_error p ≡ false
all_fine p done = refl

handle_request-Yields_example :
    (headers_done ≡ continued)
      × Yields 0 4096 done_parser pos all_fine [] [] [] [] 4 1 1 5 behind_headers.cont handled
    ⊎ ((cont : Continuation Bool) × Stops 0 4096 done_parser pos all_fine behind_headers.cont cont
        × Yields 0 4096 done_parser pos all_fine [] [] [] [] 4 1 1 5 cont handled)
    ⊎ ((cont : Continuation Bool) × Finishes 0 4096 done_parser pos all_fine behind_headers.cont
          cont
        × (handled
            ≡ ended 0 4096 done_parser pos
                (process_eof 0 4096 done_parser pos [] [] [] cont resumed_work one_socket)))
handle_request-Yields_example =
    handle_request-Yields 0 4096 done_parser pos all_fine [] [] [] [] 4 1 0 behind_headers
      resumed_work resumed_work one_socket behind_headers-IsHeld (inr (refl, refl, refl))
