-- ===== src/Core/Stages.antt =====
-- core/stages.cc and the Pipeline of core/pipeline.cc: the connections of a server, and the stages
-- that hand them on. A connection goes by its descriptor. The queues of the parser, the handler and
-- the write-back stage are those that the schedulers of Core/Scheduler stand for. What the operating
-- system answers to a poller for a descriptor is an argument of each operation, and so is whether a
-- stage's mutex is free for try_lock. A connection is alive until it is destroyed.
pub mod Loop
pub mod Ends
use tube.Common.{
  ℕ, suc, ◌+◌, ◌*◌, ◌^◌, Bool, true, false, ◌&&◌, ◌||◌, not, List, [], ◌∷◌, Option, none, some, ltb,
  leb, ◌==◌, if◌then◌else◌, get_elem?, is_none, Bytes, length,
}
use tube.Common.Int.{ℤ, pos, ltb_ℤ}
use tube.Core.Timer
use tube.Core.Timer.{TimerKey, timer_unit_from_time}
use tube.Core.Stream.{Stream, is_done, write_into_output, output_code}
use tube.Core.Connection.{
  Connection, timer_key, update_last_active, set_active, unlock, try_lock, has_continuation,
}
use tube.Core.PollIn.{
  IoPoller, PollIn, remove_fd, push_expired, remove_timer, replace_timer, at_poller, sched_add,
  sched_remove_nolock, sched_remove,
}
use tube.Core.Scheduler.Conns.{enqueue, without}

pub record Server : Type 0 where
  pub conns : ℕ → Connection
  pub alive : ℕ → Bool
  pub poll_in : PollIn
  pub parser : List ℕ
  pub handler : List ℕ
  pub write_back : List ℕ

abbrev pub at_conn : ℕ → (Connection → Connection) → Server → Server
at_conn c f s = record s { conns = λ d. if d == c then f (s.conns d) else s.conns d }

abbrev pub key_of : ℕ → Server → TimerKey
key_of c s = timer_key c (s.conns c)

abbrev pub by_fd : ℕ → ℕ
by_fd c = c

abbrev pub in_poller : ℕ → (IoPoller → IoPoller) → Server → Server
in_poller i f s = record s {
  poll_in = record s.poll_in { pollers = at_poller i f s.poll_in.pollers };
}

-- PollInStage::cleanup_connection(conn), which Connection::active_close calls.
unfoldable pub cleanup_connection : (ℕ → Bool) → ℕ → Server → Server
cleanup_connection accepts c s =
    if (s.conns c).active
    then record (at_conn c (set_active false) s) {
      poll_in = sched_remove_nolock accepts true c (key_of c s) s.poll_in;
    }
    else s

-- PollInStage::cleanup_connection(poller, conn)
unfoldable pub cleanup_in_poller : Bool → ℕ → ℕ → Server → Server
cleanup_in_poller accepts i c s =
    if (s.conns c).active
    then in_poller i (λ p. push_expired c (remove_timer (key_of c s) (remove_fd accepts c p).1))
        (at_conn c (set_active false) s)
    else s

-- PollInStage::cleanup_idle_connection_callback. It leaves the connection active.
unfoldable pub cleanup_idle_connection_callback : Bool → ℕ → ℕ → Server → Bool × Server
cleanup_idle_connection_callback accepts i c s =
    if (s.conns c).locked
    then (false, s)
    else (true, in_poller i (λ p. push_expired c (remove_fd accepts c p).1) s)

-- PollStage::update_connection
unfoldable pub update_connection : ℕ → ℕ → ℕ → Server → Server
update_connection now i c s =
    let updated = update_last_active now (s.conns c) in
    if updated.0
    then in_poller i (λ p. replace_timer (timer_key c updated.1) (remove_timer (key_of c s) p))
        (at_conn c (λ _. updated.1) s)
    else s

abbrev pub max_read_threshold : ℕ
max_read_threshold = 256 * 2 ^ 10

-- The loop of read_connection: what the reads before the last one got, each more than nothing, and
-- what the last one answers.
unfoldable pub read_loop : ℕ → List ℕ → ℤ → ℤ
read_loop nread [] last = last
read_loop nread (rs ∷ more) last =
    let rest = read_loop (nread + rs) more last in
    if ltb (nread + rs) max_read_threshold then rest else pos (nread + rs)

-- The server once read_connection has the lock and the timer is set anew.
abbrev pub read_begun : ℕ → ℕ → ℕ → Server → Server
read_begun now i c s = update_connection now i c (at_conn c (λ conn. (try_lock conn).1) s)

-- PollInStage::read_connection; `again` says whether errno is EAGAIN or EWOULDBLOCK in the end.
unfoldable pub read_connection : Bool → ℕ → ℕ → ℕ → List ℕ → ℤ → Bool → Server → Server
read_connection accepts now i c reads last again s =
    let begun = read_begun now i c s in
    if (s.conns c).locked
    then s
    else at_conn c unlock (
        if ltb_ℤ (read_loop 0 reads last) (pos 0) && again
        then record begun { parser = enqueue by_fd c begun.parser }
        else cleanup_in_poller accepts i c begun)

-- The branch of handle_connection on a hangup or an error; the other is read_connection.
unfoldable pub handle_hangup : Bool → ℕ → ℕ → Server → Server
handle_hangup accepts i c s =
    if (s.conns c).locked
    then s
    else at_conn c unlock (cleanup_in_poller accepts i c (at_conn c (λ conn. (try_lock conn).1) s))

-- Pipeline::disable_poll and Pipeline::enable_poll
unfoldable pub disable_poll : (ℕ → Bool) → ℕ → Server → Server
disable_poll accepts c s = record s { poll_in = sched_remove accepts c (key_of c s) s.poll_in }

unfoldable pub enable_poll : Bool → ℕ → Server → Server
enable_poll accepts c s =
    if (s.conns c).active
    then record s { poll_in = sched_add accepts c (key_of c s) s.poll_in }
    else s

-- Pipeline::dispose_connection. Only poll_in is left out of the stages that forget the connection.
unfoldable pub dispose_connection : ℕ → Server → Bool × Server
dispose_connection c s = if (s.conns c).locked then (false, s) else (
  true,
  record s {
    alive = λ d. if d == c then false else s.alive d;
    parser = without by_fd c s.parser;
    handler = without by_fd c s.handler;
    write_back = without by_fd c s.write_back;
  },
)

-- BlockOutStage::sched_add
unfoldable pub block_out_add : (ℕ → Bool) → ℕ → Server → Server
block_out_add accepts c s =
    let polled_off = disable_poll accepts c s in
    record polled_off { write_back = enqueue by_fd c polled_off.write_back }

-- BlockOutStage::process_task: whether the lock is kept.
unfoldable pub block_out_process : Option ℕ → (ℕ → Bool) → Bool → ℕ → Server → Bool × Server
block_out_process answer accepts adds c s =
    let out = (s.conns c).out_stream in
    let rs = output_code answer out in
    let wrote =
      at_conn c (λ conn. record conn { out_stream = (write_into_output answer out).1 }) s in
    if not (is_done (write_into_output answer out).1) && ltb_ℤ (pos 0) rs
    then (true, record wrote { write_back = enqueue by_fd c wrote.write_back })
    else if (s.conns c).close_after_finish || ltb_ℤ rs (pos 0)
    then (false, cleanup_connection accepts c wrote)
    else (false, enable_poll adds c wrote)
