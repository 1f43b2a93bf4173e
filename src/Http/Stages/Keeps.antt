-- ===== src/Http/Stages/Keeps.antt =====
-- The operations that leave the locks and the write-back stage as they are.
use tube.Common.{
  ℕ, ◌+◌, Bool, false, ◌&&◌, List, [], ◌∷◌, leb, ltb, ◌==◌, ==_iff, if◌then◌else◌, get_elem?, ◌≡◌,
  refl, ap, sym, ◌∙◌, arith, Bool-cases, Option-cases, inl, inr,
}
use tube.Common.Int.{ℤ, pos, ltb_ℤ}
use tube.Core.Timer.{TimerKey, scan, process_callbacks, timer_unit_from_time}
use tube.Core.Connection.{update_last_active, unlock, try_lock}
use tube.Core.Stages.{
  Server, at_conn, cleanup_connection, cleanup_in_poller, cleanup_idle_connection_callback,
  update_connection, read_begun, read_loop, read_connection, handle_hangup, enable_poll,
}
use tube.Core.Stages.Loop.{run_timer, trigger_timer_callback}

-- What leaves the locks and the write-back stage as they are.
pub record Keeps (s t : Server) : Type 0 where
  pub locks : (c : ℕ) → (t.conns c).locked ≡ (s.conns c).locked
  pub queue : t.write_back ≡ s.write_back

Keeps-refl : (s : Server) → Keeps s s
Keeps-refl s = record { locks = λ c. refl; queue = refl }

pub Keeps-trans : {s t u : Server} → Keeps s t → Keeps t u → Keeps s u
Keeps-trans k l = record { locks = λ c. l.locks c ∙ k.locks c; queue = l.queue ∙ k.queue }

pub cleanup_connection-Keeps :
    (accepts : ℕ → Bool) (c : ℕ) (s : Server) → Keeps s (cleanup_connection accepts c s)
unfolding cleanup_connection
cleanup_connection-Keeps accepts c s = elim (Bool-cases (s.conns c).active) [
  | inl active ↦ rw active (record { locks = λ d. ground arith; queue = refl })
  | inr closed ↦ rw closed (Keeps-refl s)
]

pub cleanup_in_poller-Keeps :
    (accepts : Bool) (i c : ℕ) (s : Server) → Keeps s (cleanup_in_poller accepts i c s)
unfolding cleanup_in_poller
cleanup_in_poller-Keeps accepts i c s = elim (Bool-cases (s.conns c).active) [
  | inl active ↦ rw active (record { locks = λ d. ground arith; queue = refl })
  | inr closed ↦ rw closed (Keeps-refl s)
]

pub cleanup_idle-Keeps :
    (accepts : Bool) (i c : ℕ) (s : Server)
    → Keeps s (cleanup_idle_connection_callback accepts i c s).1
unfolding cleanup_idle_connection_callback
cleanup_idle-Keeps accepts i c s = elim (Bool-cases (s.conns c).locked) [
  | inl locked ↦ rw locked (Keeps-refl s)
  | inr free ↦ rw free (record { locks = λ d. refl; queue = refl })
]

pub update_connection-Keeps : (now i c : ℕ) (s : Server) → Keeps s (update_connection now i c s)
unfolding update_connection update_last_active
update_connection-Keeps now i c s = elim (Bool-cases ((s.conns c).last_active == now)) [
  | inl same ↦ rw same (Keeps-refl s)
  | inr new ↦ rw new (record { locks = λ d. one_only d; queue = refl })
]
  where
    one_only :
        (d : ℕ)
        → (if d == c then record (s.conns c) { last_active = now } else s.conns d).locked
          ≡ (s.conns d).locked
    one_only d = elim (Bool-cases (d == c)) [
      | inl same ↦ rw same (ap (λ e. (s.conns e).locked) (sym ((==_iff d c).0 same)))
      | inr other ↦ rw other refl
    ]

pub enable_poll-Keeps : (adds : Bool) (c : ℕ) (s : Server) → Keeps s (enable_poll adds c s)
unfolding enable_poll
enable_poll-Keeps adds c s = elim (Bool-cases (s.conns c).active) [
  | inl active ↦ rw active (record { locks = λ d. refl; queue = refl })
  | inr closed ↦ rw closed (Keeps-refl s)
]

-- An operation between a try_lock that succeeds and the unlock.
pub locked_between :
    (c : ℕ) (s : Server) {t : Server}
    → (s.conns c).locked ≡ false
    → Keeps (at_conn c (λ conn. (try_lock conn).1) s) t
    → Keeps s (at_conn c unlock t)
locked_between c s {t} free k = record { locks = locks; queue = k.queue }
  where
    locks : (d : ℕ) → ((at_conn c unlock t).conns d).locked ≡ (s.conns d).locked
    locks d = elim (Bool-cases (d == c)) [
      | inl same ↦ rw same (sym (rw ((==_iff d c).0 same) free))
      | inr other ↦ rw other (k.locks d ∙ rw other refl)
    ]

pub read_connection-Keeps :
    (accepts : Bool) (now i c : ℕ) (reads : List ℕ) (last : ℤ) (again : Bool) (s : Server)
    → Keeps s (read_connection accepts now i c reads last again s)
unfolding read_connection
read_connection-Keeps accepts now i c reads last again s = elim (Bool-cases (s.conns c).locked) [
  | inl locked ↦ rw locked (Keeps-refl s)
  | inr free ↦ rw free (
      locked_between c s free (
        Keeps-trans (update_connection-Keeps now i c (at_conn c (λ conn. (try_lock conn).1) s))
          (elim (Bool-cases (ltb_ℤ (read_loop 0 reads last) (pos 0) && again)) [
            | inl parse ↦ rw parse (record { locks = λ d. refl; queue = refl })
            | inr close ↦ rw close (cleanup_in_poller-Keeps accepts i c (read_begun now i c s))
          ])))
]

pub handle_hangup-Keeps :
    (accepts : Bool) (i c : ℕ) (s : Server) → Keeps s (handle_hangup accepts i c s)
unfolding handle_hangup
handle_hangup-Keeps accepts i c s = elim (Bool-cases (s.conns c).locked) [
  | inl locked ↦ rw locked (Keeps-refl s)
  | inr free ↦ rw free (locked_between c s free (cleanup_in_poller-Keeps accepts i c _))
]

scan-Keeps :
    (accepts : ℕ → Bool) (i now : ℕ) (tree : List (TimerKey × Unit {0})) (s : Server)
    → Keeps s (scan (λ _ c t. cleanup_idle_connection_callback (accepts c) i c t) now tree s).1
unfolding scan
scan-Keeps accepts i now [] s = Keeps-refl s
scan-Keeps accepts i now ((k, call) ∷ tree) s = elim (Bool-cases (ltb now k.unit)) [
  | inl later ↦ rw later (Keeps-refl s)
  | inr due ↦ rw due (elim (Bool-cases called.0) [
    | inl removed ↦ rw removed (
        Keeps-trans (cleanup_idle-Keeps (accepts k.ctx) i k.ctx s)
          (scan-Keeps accepts i now tree called.1))
    | inr busy ↦ rw busy (
        Keeps-trans (cleanup_idle-Keeps (accepts k.ctx) i k.ctx s)
          (scan-Keeps accepts i now tree called.1))
  ])
]
  where
    called : Bool × Server
    called = cleanup_idle_connection_callback (accepts k.ctx) i k.ctx s

pub trigger_timer_callback-Keeps :
    (free : Bool) (accepts : ℕ → Bool) (now timeout i : ℕ) (s : Server)
    → Keeps s (trigger_timer_callback free accepts now timeout i s)
unfolding trigger_timer_callback run_timer process_callbacks
trigger_timer_callback-Keeps free accepts now timeout i s = elim (Bool-cases free) [
  | inl open_mutex ↦ rw open_mutex (elim (Option-cases (get_elem? s.poll_in.pollers i)) [
    | inl nowhere ↦ rw nowhere (Keeps-refl s)
    | inr found ↦
        rw found.1
          (elim (Bool-cases (leb (found.0.last_executed + timer_unit_from_time timeout) now)) [
            | inl due ↦ rw due (
                let k = scan-Keeps accepts i now found.0.timer s in
                record { locks = λ c. k.locks c; queue = k.queue })
            | inr early ↦ rw early (Keeps-refl s)
          ])
  ])
  | inr taken ↦ rw taken (Keeps-refl s)
]
