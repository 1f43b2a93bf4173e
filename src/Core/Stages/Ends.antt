-- ===== src/Core/Stages/Ends.antt =====
-- How a connection leaves the stages: what closing, writing and idling do to it.
mod Tests
use tube.Common.{
  ℕ, zero, suc, ◌+◌, ◌≤◌, ◌<◌, Bool, true, false, ◌&&◌, ◌||◌, not, List, [], ◌∷◌, ◌++◌, Option,
  none, some, leb, ltb, ◌==◌, ==_iff, if◌then◌else◌, get_elem?, set, ◌≡◌, refl, ap, sym, ◌∙◌, subst,
  arith, Bool-cases, inl, inr, length, All,
}
use tube.Common.Int.{ℤ, pos, negsuc, ltb_ℤ}
use tube.Core.Stream.{
  Stream, Writeable, file_sender, is_done, write_into_output, output_code, write_front, wrote,
  write_writeable, is_eof, writeable_size, write_code,
}
use tube.Core.Connection.{Connection, unlock, try_lock, update_last_active, timer_sched_time}
use tube.Core.Scheduler.Conns.{enqueue, without, queued}
use tube.Core.PollIn.{
  IoPoller, PollIn, at_poller, push_expired, remove_fd, sched_add, sched_remove_nolock,
}
use tube.Core.PollIn.Watched.{
  watchers, expirations, sched_remove_nolock-recycles, sched_add-watched, length-at_poller,
}
use tube.Core.Stages.{
  Server, key_of, at_conn, by_fd, in_poller, cleanup_connection, cleanup_in_poller,
  cleanup_idle_connection_callback, update_connection, read_begun, read_loop, max_read_threshold,
  read_connection, handle_hangup, disable_poll, enable_poll, dispose_connection, block_out_add,
  block_out_process,
}

-- How much is read before the threshold is met.
abbrev pub total : List ℕ → ℕ
total [] = 0
total (n ∷ l) = n + total l

read_loop-flood :
    (nread : ℕ) (reads : List ℕ) (last : ℤ)
    → nread < max_read_threshold
    → max_read_threshold ≤ nread + total reads
    → ltb_ℤ (read_loop nread reads last) (pos 0) ≡ false
unfolding read_loop
read_loop-flood nread [] last below enough = absurd (omega arith)
read_loop-flood nread (rs ∷ more) last below enough =
    elim (Bool-cases (ltb (nread + rs) max_read_threshold)) [
      | inl going ↦ rw going (read_loop-flood (nread + rs) more last (ground arith) (omega arith))
      | inr full ↦ rw full (ground arith)
    ]

at_self : (c : ℕ) → (c == c) ≡ true
at_self c = ground arith

update_connection-keeps :
    (now i c : ℕ) (s : Server)
    → (((update_connection now i c s).conns c).active ≡ (s.conns c).active)
      × ((update_connection now i c s).parser ≡ s.parser)
unfolding update_connection update_last_active
update_connection-keeps now i c s = elim (Bool-cases ((s.conns c).last_active == now)) [
  | inl same ↦ rw same (refl, refl)
  | inr new ↦ rw (new, at_self c) (refl, refl)
]

cleanup_in_poller-closes :
    (accepts : Bool) (i c : ℕ) (s : Server)
    → (((cleanup_in_poller accepts i c s).conns c).active ≡ false)
      × ((cleanup_in_poller accepts i c s).parser ≡ s.parser)
unfolding cleanup_in_poller
cleanup_in_poller-closes accepts i c s = elim (Bool-cases (s.conns c).active) [
  | inl active ↦ rw (active, at_self c) (refl, refl)
  | inr closed ↦ rw closed (closed, refl)
]

-- When the reads of one event get 256 KB or more before there is nothing to read, read_connection
-- closes the connection as if there had been an error, whatever the last read answers.
pub read_connection-flood :
    (accepts : Bool) (now i c : ℕ) (reads : List ℕ) (last : ℤ) (again : Bool) (s : Server)
    → (s.conns c).locked ≡ false
    → max_read_threshold ≤ total reads
    → (((read_connection accepts now i c reads last again s).conns c).active ≡ false)
      × ((read_connection accepts now i c reads last again s).parser ≡ s.parser)
unfolding read_connection
read_connection-flood accepts now i c reads last again s open_lock enough =
    rw (open_lock, read_loop-flood 0 reads last (omega arith) (omega arith))
      (rw (at_self c) (closed.0, closed.1 ∙ (update_connection-keeps now i c _).1))
  where
    begun : Server
    begun = read_begun now i c s

    closed :
        (((cleanup_in_poller accepts i c begun).conns c).active ≡ false)
        × ((cleanup_in_poller accepts i c begun).parser ≡ begun.parser)
    closed = cleanup_in_poller-closes accepts i c begun

-- Closing a connection that is active and that at most one poller watches, when the operating system
-- gives the descriptor up: it is inactive, no poller watches it, and it waits once more to be disposed
-- of. Closing it again, or the end of a write, changes none of this.
pub cleanup_connection-ends :
    (accepts more : ℕ → Bool) (adds : Bool) (c : ℕ) (s : Server)
    → ((j : ℕ) → accepts j ≡ true)
    → (s.conns c).active ≡ true
    → watchers c s.poll_in.pollers ≤ 1
    → s.poll_in.current_poller < length s.poll_in.pollers
    → let closed = cleanup_connection accepts c s in
      ((closed.conns c).active ≡ false)
      × (watchers c closed.poll_in.pollers ≡ 0)
      × (expirations c closed.poll_in.pollers ≡ suc (expirations c s.poll_in.pollers))
      × (cleanup_connection more c closed ≡ closed)
      × (enable_poll adds c closed ≡ closed)
unfolding cleanup_connection enable_poll timer_sched_time
cleanup_connection-ends accepts more adds c s all active one current =
    rw (active, at_self c)
      (let (gone, waits) =
          sched_remove_nolock-recycles accepts c (key_of c s) s.poll_in all one current in
        (refl, gone, waits, refl, refl))

-- Between the idle callback, which leaves the connection active, and its disposal, the end of a write
-- hands the connection back to a poller, whatever was watched before. It is then destroyed, while the
-- poller still watches it.
pub idle_then_polled :
    (accepts : Bool) (i c : ℕ) (s : Server)
    → (s.conns c).locked ≡ false
    → (s.conns c).active ≡ true
    → 0 < length s.poll_in.pollers
    → let idle = (cleanup_idle_connection_callback accepts i c s).1 in
      let disposed = dispose_connection c (enable_poll true c idle) in
      (disposed.0 ≡ true)
      × (disposed.1.alive c ≡ false)
      × (0 < watchers c disposed.1.poll_in.pollers)
unfolding cleanup_idle_connection_callback enable_poll dispose_connection
idle_then_polled accepts i c s open_lock active some_poller = rw (open_lock) (
    rw (active) (
      rw (open_lock) (
        refl,
        rw (at_self c) refl,
        sched_add-watched c _ _ (
            rw
              (length-at_poller i (λ p. push_expired c (remove_fd accepts c p).1) s.poll_in.pollers)
              some_poller),
      )))

enable_poll-conns : (adds : Bool) (c : ℕ) (s : Server) → (enable_poll adds c s).conns ≡ s.conns
unfolding enable_poll
enable_poll-conns adds c s = elim (Bool-cases (s.conns c).active) [
  | inl active ↦ rw active refl
  | inr closed ↦ rw closed refl
]

-- An empty file at the front of what a connection has to send: for one that is active and not to be
-- closed, block_out_process sends nothing, gives the lock up and has a poller watch the connection
-- again, with all that is behind the file still unsent.
pub block_out_process-stalls :
    (file : List ℕ) (offset : ℕ) (w : Writeable) (ws : List Writeable) (accepts : ℕ → Bool) (c : ℕ)
    (s : Server)
    → (s.conns c).out_stream.writeables ≡ file_sender file offset 0 ∷ w ∷ ws
    → (s.conns c).close_after_finish ≡ false
    → (s.conns c).active ≡ true
    → 0 < length s.poll_in.pollers
    → let r = block_out_process (some 0) accepts true c s in
      (r.0 ≡ false)
      × (((r.1.conns c).out_stream).writeables ≡ w ∷ ws)
      × (0 < watchers c r.1.poll_in.pollers)
unfolding block_out_process enable_poll output_code write_code write_into_output write_front wrote
    write_writeable is_eof writeable_size is_done
block_out_process-stalls file offset w ws accepts c s front stays active some_poller =
    rw (front, stays)
      (rw (at_self c, active) (refl, rw (at_self c) refl, sched_add-watched c _ _ some_poller))
