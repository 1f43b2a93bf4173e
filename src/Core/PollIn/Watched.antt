-- ===== src/Core/PollIn/Watched.antt =====
-- Which pollers watch a connection, and which hold it as expired.
use tube.Common.{
  ℕ, zero, suc, ◌+◌, ◌≤◌, ◌<◌, Bool, true, List, [], ◌∷◌, ◌++◌, none, some, ◌==◌, if◌then◌else◌,
  length, ◌≡◌, refl, ap, arith, Bool-cases, inl, inr, ◌⊎◌,
}
use tube.Core.Timer.{TimerKey}
use tube.Core.PollIn.{
  IoPoller, PollIn, add_fd, remove_fd, push_expired, remove_timer, replace_timer, at_poller,
  next_poller, sched_add, leave, leave_first, sched_remove_nolock,
}

abbrev pub watchers : ℕ → List IoPoller → ℕ
watchers c [] = 0
watchers c (p ∷ ps) = (if p.fds c then 1 else 0) + watchers c ps

abbrev pub times : ℕ → List ℕ → ℕ
times c [] = 0
times c (d ∷ l) = (if d == c then 1 else 0) + times c l

-- How often a connection waits to be disposed of.
abbrev pub expirations : ℕ → List IoPoller → ℕ
expirations c [] = 0
expirations c (p ∷ ps) = times c p.expired + expirations c ps

times-snoc : (c : ℕ) (l : List ℕ) → times c (l ++ c ∷ []) ≡ suc (times c l)
times-snoc c [] = ground arith
times-snoc c (d ∷ l) = omega (arith, times-snoc c l)

-- Leaving the pollers with recycling, when at most one of them watches the connection.
left_first :
    (accepts : ℕ → Bool) (i c : ℕ) (key : TimerKey) (ps : List IoPoller)
    → ((j : ℕ) → accepts j ≡ true)
    → watchers c ps ≤ 1
    → ((leave_first accepts i true c key ps ≡ none) × (watchers c ps ≡ 0))
      ⊎ ((qs : List IoPoller) × (leave_first accepts i true c key ps ≡ some qs)
          × (watchers c qs ≡ 0)
          × (expirations c qs ≡ suc (expirations c ps)))
unfolding leave_first leave remove_fd push_expired remove_timer
left_first accepts i c key [] all le = inl (refl, refl)
left_first accepts i c key (p ∷ ps) all le = elim (Bool-cases (p.fds c)) [
  | inl here ↦
      rw (here, all i)
        (inr (_, refl, ground (arith, here, le), omega (arith, times-snoc c p.expired)))
  | inr away ↦ rw away (elim (left_first accepts (i + 1) c key ps all (ground (arith, away, le))) [
    | inl (nowhere, none_there) ↦ inl (rw nowhere refl, omega (arith, none_there))
    | inr (qs, found, gone, more) ↦
        inr (p ∷ qs, rw found refl, ground (arith, away, gone), omega (arith, more))
  ])
]

times-at_poller :
    (c i : ℕ) (ps : List IoPoller)
    → i < length ps
    → (expirations c (at_poller i (push_expired c) ps) ≡ suc (expirations c ps))
      × (watchers c (at_poller i (push_expired c) ps) ≡ watchers c ps)
unfolding at_poller push_expired
times-at_poller c i [] lt = absurd (omega arith)
times-at_poller c zero (p ∷ ps) lt = (omega (arith, times-snoc c p.expired), refl)
times-at_poller c (suc i) (p ∷ ps) lt =
    let (more, same) = times-at_poller c i ps (omega arith) in
    (omega (arith, more), omega (arith, same))

-- A poller that is changed to watch a connection is a watcher of it.
pub watchers-at_poller :
    (c i : ℕ) (f : IoPoller → IoPoller) (ps : List IoPoller)
    → i < length ps
    → ((p : IoPoller) → (f p).fds c ≡ true)
    → 0 < watchers c (at_poller i f ps)
unfolding at_poller
watchers-at_poller c i f [] lt on = absurd (omega arith)
watchers-at_poller c zero f (p ∷ ps) lt on = ground (arith, on p)
watchers-at_poller c (suc i) f (p ∷ ps) lt on =
    omega (arith, watchers-at_poller c i f ps (omega arith) on)

pub length-at_poller :
    (i : ℕ) (f : IoPoller → IoPoller) (ps : List IoPoller) → length (at_poller i f ps) ≡ length ps
unfolding at_poller
length-at_poller i f [] = refl
length-at_poller zero f (p ∷ ps) = refl
length-at_poller (suc i) f (p ∷ ps) = ap suc (length-at_poller i f ps)

-- PollInStage::sched_add leaves the connection watched.
pub sched_add-watched :
    (c : ℕ) (key : TimerKey) (s : PollIn)
    → 0 < length s.pollers
    → 0 < watchers c (sched_add true c key s).pollers
unfolding sched_add add_fd replace_timer next_poller
sched_add-watched c key s some_poller =
    watchers-at_poller c (next_poller s) (λ p. (add_fd true c (replace_timer key p)).1) s.pollers
      (grind (arith, some_poller)) on
  where
    on : (p : IoPoller) → (add_fd true c (replace_timer key p)).1.fds c ≡ true
    on p = elim (Bool-cases (p.fds c)) [
      | inl there ↦ rw there there
      | inr away ↦ rw away (ground arith)
    ]

-- When the operating system gives the descriptor up and at most one poller watches a connection, no
-- poller watches it after it was removed for recycling, and it waits once more to be disposed of.
pub sched_remove_nolock-recycles :
    (accepts : ℕ → Bool) (c : ℕ) (key : TimerKey) (s : PollIn)
    → ((j : ℕ) → accepts j ≡ true)
    → watchers c s.pollers ≤ 1
    → s.current_poller < length s.pollers
    → (watchers c (sched_remove_nolock accepts true c key s).pollers ≡ 0)
      × (expirations c (sched_remove_nolock accepts true c key s).pollers
          ≡ suc (expirations c s.pollers))
unfolding sched_remove_nolock
sched_remove_nolock-recycles accepts c key s all one current =
    elim (left_first accepts 0 c key s.pollers all one) [
      | inl (nowhere, none_there) ↦
          let (more, same) = times-at_poller c s.current_poller s.pollers current in
          rw nowhere (omega (arith, same, none_there), more)
      | inr (qs, found, gone, more) ↦ rw found (gone, more)
    ]
