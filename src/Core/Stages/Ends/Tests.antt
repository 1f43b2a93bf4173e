-- ===== src/Core/Stages/Ends/Tests.antt =====
-- A server with one poller that watches descriptor 5.
use tube.Common.{◌<◌, ◌==◌, true, false, none, some, [], ◌∷◌, ◌≡◌, refl, arith, codes}
use tube.Common.Int.{pos}
use tube.Core.Connection.{Connection}
use tube.Core.Stream.{file_sender}
use tube.Core.PollIn.{IoPoller}
use tube.Core.PollIn.Watched.{watchers, expirations}
use tube.Core.Stages.{
  Server, cleanup_connection, cleanup_idle_connection_callback, read_connection, enable_poll,
  dispose_connection, block_out_process,
}
use tube.Core.Stages.Ends.{
  read_connection-flood, cleanup_connection-ends, idle_then_polled, block_out_process-stalls,
}

abbrev pipelined : Connection
pipelined = record {
  timeout = 15;
  out_stream = record {
    writeables = file_sender [] 0 0 ∷ file_sender (codes "HTTP") 0 4 ∷ [];
    memory_usage = 0;
  };
  locked = false;
  cork_enabled = true;
  active = true;
  close_after_finish = false;
  urgent = false;
  last_active = 0;
  continuation = none;
}

abbrev one_poller : IoPoller
one_poller = record { fds = λ d. d == 5; timer = []; last_executed = 0; expired = [] }

abbrev small_server : Server
small_server = record {
  conns = λ c. pipelined;
  alive = λ c. true;
  poll_in = record { pollers = one_poller ∷ []; current_poller = 0 };
  parser = [];
  handler = [];
  write_back = [];
}

read_connection-flood_example :
    (((read_connection true 9 0 5 (262144 ∷ []) (pos 0) true small_server).conns 5).active ≡ false)
    × ((read_connection true 9 0 5 (262144 ∷ []) (pos 0) true small_server).parser ≡ [])
read_connection-flood_example =
    read_connection-flood true 9 0 5 (262144 ∷ []) (pos 0) true small_server refl (omega arith)

cleanup_connection-ends_example :
    (((cleanup_connection (λ j. true) 5 small_server).conns 5).active ≡ false)
    × (watchers 5 (cleanup_connection (λ j. true) 5 small_server).poll_in.pollers ≡ 0)
    × (expirations 5 (cleanup_connection (λ j. true) 5 small_server).poll_in.pollers ≡ 1)
    × (cleanup_connection (λ j. true) 5 (cleanup_connection (λ j. true) 5 small_server)
        ≡ cleanup_connection (λ j. true) 5 small_server)
    × (enable_poll true 5 (cleanup_connection (λ j. true) 5 small_server)
        ≡ cleanup_connection (λ j. true) 5 small_server)
cleanup_connection-ends_example =
    cleanup_connection-ends (λ j. true) (λ j. true) true 5 small_server (λ j. refl) refl
      (omega arith) (omega arith)

idle_then_polled_example :
    let idle = (cleanup_idle_connection_callback true 0 5 small_server).1 in
    let disposed = dispose_connection 5 (enable_poll true 5 idle) in
    (disposed.0 ≡ true) × (disposed.1.alive 5 ≡ false) × (0 < watchers 5 disposed.1.poll_in.pollers)
idle_then_polled_example = idle_then_polled true 0 5 small_server refl refl (omega arith)

block_out_process-stalls_example :
    let r = block_out_process (some 0) (λ j. true) true 5 small_server in
    (r.0 ≡ false)
    × (((r.1.conns 5).out_stream).writeables ≡ file_sender (codes "HTTP") 0 4 ∷ [])
    × (0 < watchers 5 r.1.poll_in.pollers)
block_out_process-stalls_example =
    block_out_process-stalls [] 0 (file_sender (codes "HTTP") 0 4) [] (λ j. true) 5 small_server
      refl refl refl (omega arith)
