-- ===== src/Core/Controller/Runs.antt =====
-- Runs of a controller: any order of its operations.
mod Tests
use tube.Common.{
  ℕ, zero, suc, ◌+◌, ◌-◌, ◌≤◌, ◌<◌, Bool, true, false, List, [], ◌∷◌, ◌++◌, ltb, ltb→lt, leb, not,
  ◌&&◌, ◌||◌, ◌==◌, if◌then◌else◌, length, length-append, length-drop, drop, ◌≡◌, refl, ap, sym,
  ◌∙◌, subst, arith, Bool-cases, inl, inr,
}
use tube.Common.Int.{ℤ}
use tube.Core.Controller.{
  Controller, max_feedback, max_thread, remove, insert, is_in, exit_auto_thread, increase_load,
  decrease_load, push_history, record_load, refuses, decide, check_auto_create, start_thread,
  check_thread, is_loaded,
}

pub data Event : Type 0 where
  load_up : ℤ → Event
  load_down : ℤ → Event
  thread_exits : ℕ → Event
  check : ℕ → Event

happens : Event → Controller → Bool × Controller
happens (load_up n) c = (false, increase_load n c)
happens (load_down n) c = (false, decrease_load n c)
happens (thread_exits id) c = (false, exit_auto_thread id c)
happens (check id) c = check_thread id c

pub run : List Event → Controller → Controller
run [] c = c
run (e ∷ es) c = run es (happens e c).1

-- Whether a thread is started on the way.
pub starts : List Event → Controller → Bool
starts [] c = false
starts (e ∷ es) c = if (happens e c).0 then true else starts es (happens e c).1

pub cost : Event → ℕ
cost (check id) = 1
cost (load_up n) = 0
cost (load_down n) = 0
cost (thread_exits id) = 0

-- How many of the events are checks.
pub checks : List Event → ℕ
checks [] = 0
checks (e ∷ es) = cost e + checks es

pub record IsBounded (c : Controller) : Type 0 where
  pub history : length c.load_history ≤ max_feedback
  pub threads : length c.auto_threads ≤ suc max_thread
  pub reserved : c.reserve ≤ max_feedback

push_history_le :
    (history : List ℤ) (load : ℤ) → length history ≤ 16 → length (push_history history load) ≤ 16
unfolding push_history
push_history_le history load h = elim (Bool-cases (length history == 16)) [
  | inl full ↦
      rw full (omega (arith, h, length-append (drop 1 history) (load ∷ []), length-drop 1 history))
  | inr room ↦ rw room (ground (arith, h, room, length-append history (load ∷ [])))
]

length-remove : (id : ℕ) (ts : List ℕ) → length (remove id ts) ≤ length ts
length-remove id [] = omega arith
length-remove id (t ∷ ts) = ground (arith, length-remove id ts)

length-insert : (id : ℕ) (ts : List ℕ) → length (insert id ts) ≤ suc (length ts)
length-insert id ts = ground arith

-- What a decision does to the threads and to the reserve.
record Decides (c : Controller) (d : Bool × Controller) : Type 0 where
  bounded : IsBounded d.1
  few : d.0 ≡ true → length d.1.auto_threads ≤ max_thread
  full_reserve : d.0 ≡ true → d.1.reserve ≡ max_feedback
  holds_back : 0 < c.reserve → (d.0 ≡ false) × (suc d.1.reserve ≡ c.reserve)

not_refused : (c : Controller) → refuses c ≡ false → length c.auto_threads ≤ max_thread
unfolding refuses
not_refused c h = elim (Bool-cases (ltb max_thread (length c.auto_threads))) [
  | inl many ↦ cc (rw many at h)
  | inr few ↦ ground (arith, few)
]

decide_lem : (c : Controller) → IsBounded c → Decides c (decide c)
unfolding decide
decide_lem c h = elim (Bool-cases (ltb 0 c.reserve)) [
  | inl held ↦ rw held (record {
    bounded = record {
      history = h.history;
      threads = h.threads;
      reserved = omega (arith, h.reserved);
    };
    few = λ e. absurd (cc e);
    full_reserve = λ e. absurd (cc e);
    holds_back = λ some_left. (refl, omega (arith, some_left));
  })
  | inr free ↦ rw free (elim (Bool-cases (refuses c)) [
    | inl no_thread ↦ rw no_thread (record {
      bounded = h;
      few = λ e. absurd (cc e);
      full_reserve = λ e. absurd (cc e);
      holds_back = λ some_left. absurd (ground (arith, free, some_left));
    })
    | inr a_thread ↦ rw a_thread (record {
      bounded = record { history = h.history; threads = h.threads; reserved = omega arith };
      few = λ e. not_refused c a_thread;
      full_reserve = λ e. refl;
      holds_back = λ some_left. absurd (ground (arith, free, some_left));
    })
  ])
]

record_load-IsBounded : (c : Controller) → IsBounded c → IsBounded (record_load c)
unfolding record_load
record_load-IsBounded c h = record {
  history = push_history_le c.load_history c.current_load h.history;
  threads = h.threads;
  reserved = h.reserved;
}

check_lem : (c : Controller) → IsBounded c → Decides c (check_auto_create c)
unfolding check_auto_create record_load
check_lem c h =
    let d = decide_lem (record_load c) (unfold record_load in record_load-IsBounded c h) in
    record {
      bounded = d.bounded;
      few = d.few;
      full_reserve = d.full_reserve;
      holds_back = d.holds_back;
    }

start_thread-IsBounded :
    (id : ℕ) (c : Controller) (d : Bool × Controller)
    → Decides c d
    → IsBounded (start_thread id d).1
      × ((start_thread id d).1.reserve ≡ d.1.reserve)
      × ((start_thread id d).0 ≡ d.0)
unfolding start_thread
start_thread-IsBounded id c (false, d) h = (h.bounded, refl, refl)
start_thread-IsBounded id c (true, d) h = (
  record {
    history = h.bounded.history;
    threads = omega (arith, h.few refl, length-insert id d.auto_threads);
    reserved = h.bounded.reserved;
  },
  refl,
  refl,
)

happens-IsBounded : (e : Event) (c : Controller) → IsBounded c → IsBounded (happens e c).1
unfolding happens
happens-IsBounded (load_up n) c h =
    unfold increase_load in
    record { history = h.history; threads = h.threads; reserved = h.reserved }
happens-IsBounded (load_down n) c h =
    unfold decrease_load in
    record { history = h.history; threads = h.threads; reserved = h.reserved }
happens-IsBounded (thread_exits id) c h =
    unfold exit_auto_thread in
    record {
      history = h.history;
      threads = omega (arith, h.threads, length-remove id c.auto_threads);
      reserved = h.reserved;
    }
happens-IsBounded (check id) c h =
    unfold check_thread in (start_thread-IsBounded id c (check_auto_create c) (check_lem c h)).0

-- However loads change, threads exit and checks come, from a bounded controller there are never more
-- than kMaxThread + 1 threads that were created automatically, 16 loads in the history and 16 checks
-- in reserve.
pub run-IsBounded : (es : List Event) (c : Controller) → IsBounded c → IsBounded (run es c)
unfolding run
run-IsBounded [] c h = h
run-IsBounded (e ∷ es) c h = run-IsBounded es (happens e c).1 (happens-IsBounded e c h)

event_holds :
    (e : Event) (c : Controller)
    → IsBounded c
    → cost e ≤ c.reserve
    → ((happens e c).0 ≡ false) × ((happens e c).1.reserve + cost e ≡ c.reserve)
unfolding happens cost
event_holds (load_up n) c h le = unfold increase_load in (refl, omega arith)
event_holds (load_down n) c h le = unfold decrease_load in (refl, omega arith)
event_holds (thread_exits id) c h le = unfold exit_auto_thread in (refl, omega arith)
event_holds (check id) c h le =
    let d = check_lem c h in
    let r = start_thread-IsBounded id c (check_auto_create c) d in
    let held = d.holds_back (omega (arith, le)) in
    unfold check_thread in (r.2 ∙ held.0, omega (arith, r.1, held.1))

reserve_holds :
    (es : List Event) (c : Controller) → IsBounded c → checks es ≤ c.reserve → starts es c ≡ false
unfolding starts checks
reserve_holds [] c h le = refl
reserve_holds (e ∷ es) c h le =
    let first = event_holds e c h (omega (arith, le)) in
    rw first.0
      (reserve_holds es (happens e c).1 (happens-IsBounded e c h) (omega (arith, le, first.1)))

-- When a check has started a thread, no thread is started while at most 16 more checks come, however
-- the loads change and threads exit in between.
pub starts_after_start :
    (c : Controller) (id : ℕ) (es : List Event)
    → IsBounded c
    → (check_thread id c).0 ≡ true
    → checks es ≤ max_feedback
    → starts es (check_thread id c).1 ≡ false
unfolding check_thread
starts_after_start c id es h started few_checks =
    let d = check_lem c h in
    let r = start_thread-IsBounded id c (check_auto_create c) d in
    reserve_holds es _ r.0 (omega (arith, few_checks, r.1, d.full_reserve (sym r.2 ∙ started)))
