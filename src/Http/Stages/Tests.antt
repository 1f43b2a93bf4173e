-- ===== src/Http/Stages/Tests.antt =====
-- A server with one connection whose request waits for the parser.
use tube.Common.{true, false, none, [], ◌∷◌, refl, arith}
use tube.Core.Connection.{Connection, try_lock}
use tube.Core.Stream.{empty_stream}
use tube.Core.Stages.{Server, at_conn}
use tube.Http.Stages.Runs.{Run, begin, picked_to_parse}
use tube.Http.Stages.Balance.{Balanced}
use tube.Http.Stages.Locks.{Run-Balanced}

abbrev idle_connection : Connection
idle_connection = record {
  timeout = 15;
  out_stream = empty_stream;
  locked = false;
  cork_enabled = true;
  active = true;
  close_after_finish = false;
  urgent = false;
  last_active = 0;
  continuation = none;
}

abbrev waiting_server : Server
waiting_server = record {
  conns = λ c. idle_connection;
  alive = λ c. true;
  poll_in = record { pollers = []; current_poller = 0 };
  parser = 5 ∷ [];
  handler = [];
  write_back = [];
}

abbrev parsing_server : Server
parsing_server = at_conn 5 (λ conn. (try_lock conn).1) (record waiting_server { parser = [] })

parsing-Run : Run waiting_server parsing_server (5 ∷ []) []
parsing-Run = picked_to_parse 5 begin refl refl

Run-Balanced_example : Balanced parsing_server (5 ∷ []) []
Run-Balanced_example = Run-Balanced (λ c. omega arith) parsing-Run
