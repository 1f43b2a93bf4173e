-- ===== src/Fcgi/Handler/Ends/Tests.antt =====
-- A streamed response of 65537 bytes from the server at descriptor 9.
use tube.Common.{
  ℕ, Bytes, Bool, true, false, none, some, [], ◌∷◌, ◌++◌, ◌==◌, ◌<◌, replicate, length,
  length-replicate, ◌≡◌, refl, arith, codes,
}
use tube.Common.Int.{pos}
use tube.Core.Buffer.{Buffer, new_buffer, append}
use tube.Core.Buffer.Repr.{new_buffer-Holds}
use tube.Core.Buffer.Append.{append-Holds}
use tube.Core.Connection.{Connection}
use tube.Core.Stream.Pending.{SendsAll}
use tube.Fcgi.Completion.{
  ContentParser, Continuation, Completion, read_fcgi, continued, task_buffer_limit,
}
use tube.Fcgi.Completion.Transfer.{transfer_status}
use tube.Fcgi.Handler.{process_eof}
use tube.Fcgi.Handler.Ends.{process_eof-twice, streamed_twice}
use tube.Fcgi.Pool.{Pool, alloc_connection}
use tube.Http.Handler.{Work}

abbrev records_held : Buffer
records_held = append 0 (new_buffer 0) (codes "records!")

abbrev input_held : Buffer
input_held = append 0 (new_buffer 0) (codes "bo")

abbrev streaming_parser : ContentParser Bool
streaming_parser = record {
  parse = λ bytes p. (0, p);
  is_done = λ p. true;
  is_streaming = λ p. true;
  has_error = λ p. false;
}

abbrev long_output : Bytes
long_output = replicate 65537 7

abbrev streamed : Continuation Bool
streamed = record {
  sock_fd = 9;
  need_reconnect = false;
  status = read_fcgi;
  task_buffer = new_buffer 0;
  task_len = pos 2147483647;
  content_parser = true;
  output_buffer = append 0 (new_buffer 0) long_output;
  last_active = 0;
}

abbrev streaming : Completion Bool
streaming = record {
  cont = streamed;
  conn_fd = 5;
  poller = record { fds = λ d. d == 9; timer = []; last_executed = 0; expired = [] };
  out_stream = record { writeables = []; memory_usage = 0 };
  rescheduled = 1;
  written_back = 0;
}

abbrev client : Connection
client = record {
  timeout = 15;
  out_stream = (transfer_status 0 streaming_parser true true streaming).out_stream;
  locked = true;
  cork_enabled = true;
  active = true;
  close_after_finish = false;
  urgent = false;
  last_active = 0;
  continuation = none;
}

abbrev streamed_work : Work
streamed_work = record {
  conn = client;
  response = record {
    headers = [];
    content_length = pos 0;
    prepare_buffer = new_buffer 0;
    use_prepare_buffer = false;
    has_content_length = true;
    is_responded = false;
    responded_status = none;
  };
  inactive = false;
  sent = [];
}

abbrev limited_pool : Pool
limited_pool = record {
  max_n_sockets = pos 2;
  initialized = true;
  active = [];
  inactive = pos 8 ∷ [];
  created = 2;
  closed = [];
}

process_eof-twice_example :
    (w : Work) × (p : Pool) × (process_eof 0 4096 streaming_parser pos [] [] [] streamed
        streamed_work limited_pool
      ≡ some (w, p))
    × (let first = alloc_connection pos p in
        let second = alloc_connection pos first.pool in
        (first.sock ≡ pos 9)
        × (second.sock ≡ pos 9)
        × (first.is_connected ≡ some true)
        × (second.is_connected ≡ some true))
process_eof-twice_example =
    process_eof-twice 0 4096 streaming_parser pos [] [] [] streamed streamed_work limited_pool 2
      refl refl refl

long_enough : task_buffer_limit < length long_output
long_enough = omega (arith, length-replicate {A = ℕ} 65537 7)

streamed_twice_example :
    let t = transfer_status 0 streaming_parser true true streaming in
    (t.cont.status ≡ continued)
    × (t.written_back ≡ 1)
    × (w : Work) × (p : Pool) × (process_eof 0 4096 streaming_parser pos [] [] [] t.cont
          streamed_work limited_pool
        ≡ some (w, p))
    × SendsAll w.conn.out_stream.writeables (([] ++ long_output) ++ long_output)
streamed_twice_example =
    streamed_twice 0 4096 streaming_parser pos [] [] [] streaming 2147483646 streamed_work
      limited_pool [] long_output refl refl refl refl
      (append-Holds 0 long_output (new_buffer-Holds 0)) long_enough refl refl
