-- ===== src/Fcgi/Completion/Reads/Tests.antt =====
-- A continuation that awaits its server's answer on descriptor 9, for a client on descriptor 5.
use tube.Common.{◌==◌, Bool, true, false, none, some, [], ◌≡◌, refl, codes}
use tube.Common.Int.{negsuc}
use tube.Core.Buffer.{new_buffer}
use tube.Core.Stream.{empty_stream}
use tube.Fcgi.Completion.{ContentParser, Completion, read_fcgi, cleanup_idle_callback}
use tube.Fcgi.Completion.Transfer.{handle_read, handle_write}
use tube.Fcgi.Completion.Watches.{IsHeld}
use tube.Fcgi.Completion.Reads.{handle-IsHeld}

-- It is done at the first byte.
abbrev byte_parser : ContentParser Bool
byte_parser = record {
  parse = λ bytes p. (1, true);
  is_done = λ p. p;
  is_streaming = λ p. true;
  has_error = λ p. false;
}

abbrev awaiting : Completion Bool
awaiting = record {
  cont = record {
    sock_fd = 9;
    need_reconnect = false;
    status = read_fcgi;
    task_buffer = new_buffer 0;
    task_len = negsuc 0;
    content_parser = false;
    output_buffer = new_buffer 0;
    last_active = 3;
  };
  conn_fd = 5;
  poller = record { fds = λ d. d == 9; timer = []; last_executed = 0; expired = [] };
  out_stream = empty_stream;
  rescheduled = 0;
  written_back = 0;
}

awaiting-IsHeld : IsHeld 0 awaiting
awaiting-IsHeld = record { two_fds = refl; watched = (refl, refl); once = refl }

handle-IsHeld_example :
    ((t : Completion Bool) × (handle_read 0 byte_parser true true 4 false
          (some (codes "x"))
          awaiting
        ≡ some t)
      × IsHeld 0 t)
    × IsHeld 0 (handle_write 0 byte_parser true true 4 true none awaiting)
    × IsHeld 0 (cleanup_idle_callback true awaiting).1
handle-IsHeld_example =
    handle-IsHeld 0 byte_parser (λ p done. refl) 0 4 true (some (codes "x")) none awaiting
      awaiting-IsHeld refl
