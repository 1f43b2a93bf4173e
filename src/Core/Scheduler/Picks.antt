-- ===== src/Core/Scheduler/Picks.antt =====
-- What pick_task takes, at once and after waits.
mod Tests
use tube.Common.{
  ℕ, suc, ◌+◌, ◌<◌, Bool, true, false, List, [], ◌∷◌, ◌++◌, Option, none, some, not, is_none, ◌&&◌,
  ◌==◌, ==_iff, if◌then◌else◌, length, ◌≡◌, ◌≢◌, refl, ap, sym, ◌∙◌, subst, arith, Bool-cases,
  Option-cases, inl, inr, All,
}
use tube.Utils.FdMap
use tube.Utils.FdMap.{FdMap, deref, unlink}
use tube.Utils.FdMap.Laws.{erase_lem, value_at_bounded}
use tube.Utils.NodeList
use tube.Utils.NodeList.{NodeList}
use tube.Utils.NodeList.Size.{size-Counts}
use tube.Core.Scheduler.{
  Scheduler, Wake, timed_out, woken, Pick, picked, exits, waiting, failed, finish_pick, take_front,
  pick_task_nolock_connection, first_lockable, take_locked, wait_or_take, pick_task_lock_connection,
}
use tube.Core.Scheduler.Nodes.{Apart, Listed}
use tube.Core.Scheduler.Linked.{Links, Links-drop}
use tube.Core.Scheduler.Conns.{conns, conns_of, without}
use tube.Core.Scheduler.Queue.{IsLinked}

module _ {C : Type 0} (fd : C → ℕ) where
  -- The first connection of a queue that lets itself be locked, and the queue without it.
  abbrev pub lockable : (C → Bool) → List C → Option (C × List C)
  lockable try_lock [] = none
  lockable try_lock (c ∷ q) = if try_lock c then some (c, q) else skipped c (lockable try_lock q)
    where
      skipped : C → Option (C × List C) → Option (C × List C)
      skipped c none = none
      skipped c (some (d, rest)) = some (d, c ∷ rest)

  -- A pick took this connection and left a linked scheduler with this queue.
  abbrev pub Takes : Pick C → C → List C → Type 0
  Takes p c q = (s' : Scheduler C) × (p ≡ picked c s') × IsLinked fd s' × (conns s' ≡ q)

  -- What a pick does without another wait on a scheduler with this queue: it takes what `lockable`
  -- says, and otherwise ends as `retried`.
  abbrev pub TakesOr : Pick C → Option (C × List C) → Pick C → Type 0
  TakesOr p none retried = p ≡ retried
  TakesOr p (some (c, q)) retried = Takes p c q

  -- How a pick goes on that finds no connection.
  abbrev pub resumed : List (Wake C × (C → Bool)) → Pick C
  resumed [] = waiting
  resumed ((timed_out, lock) ∷ wakes) = exits
  resumed ((woken later, lock) ∷ wakes) = pick_task_lock_connection fd wakes lock later

  abbrev pub resumed_nolock : List (Wake C) → Pick C
  resumed_nolock [] = waiting
  resumed_nolock (timed_out ∷ wakes) = exits
  resumed_nolock (woken later ∷ wakes) = pick_task_nolock_connection fd wakes later

module _ {C : Type 0} (fd : C → ℕ) where
  -- What the loop over the list finds, on a list that satisfies what Links says of it.
  Found : (C → Bool) → (ℕ → Option ℕ) → List (ℕ × C) → Option (ℕ × C) → Type 0
  Found try_lock v l none = lockable fd try_lock (conns_of l) ≡ none
  Found try_lock v l (some (n, c)) =
      (v (fd c) ≡ some n)
      × (lockable fd try_lock (conns_of l) ≡ some (c, conns_of (unlink n l)))
      × ((k : ℕ) → All (λ d. d.0 ≢ k) l → n ≢ k)

  Found-later :
      (try_lock : C → Bool) (v : ℕ → Option ℕ) (k : ℕ) (w : C) (l : List (ℕ × C))
      (o : Option (ℕ × C))
      → try_lock w ≡ false
      → All (λ d. d.0 ≢ k) l
      → Found try_lock v l o
      → Found try_lock v ((k, w) ∷ l) o
  unfolding Found unlink
  Found-later try_lock v k w l none no_lock apart h = rw (no_lock, h)
  Found-later try_lock v k w l (some (n, c)) no_lock apart h =
      (h.0, rw (no_lock, h.1, differs), λ j all. h.2 j all.1)
    where
      differs : (k == n) ≡ false
      differs = elim (Bool-cases (k == n)) [
        | inl same ↦ absurd (h.2 k apart (sym ((==_iff k n).0 same)))
        | inr differ ↦ differ
      ]

  found_lem :
      (try_lock : C → Bool) (v : ℕ → Option ℕ) (l : List (ℕ × C))
      → Apart fd l
      → Listed fd v l
      → Found try_lock v l (first_lockable fd try_lock l)
  unfolding Found first_lockable unlink
  found_lem try_lock v [] apart listed = refl
  found_lem try_lock v ((k, w) ∷ l) apart listed = elim (Bool-cases (try_lock w)) [
    | inl lock ↦ rw lock (listed.0, rw (lock, (==_iff k k).1 refl), λ j all. all.0)
    | inr no_lock ↦ rw no_lock (
        Found-later try_lock v k w l (first_lockable fd try_lock l) no_lock apart.0
          (found_lem try_lock v l apart.1 listed.1))
  ]

module _ {C : Type 0} (fd : C → ℕ) (s : Scheduler C) (ok : IsLinked fd s) where
  unlinked-IsLinked :
      (node : ℕ) (c : C)
      → FdMap.value_at s.nodes (fd c) ≡ some node
      → Takes fd
          (finish_pick fd c (NodeList.erase s.list node) (FdMap.erase s.nodes (fd c)))
          c
          (conns_of (unlink node s.list.chain))
  unfolding finish_pick conns NodeList.erase
  unlinked-IsLinked node c there =
      let gone =
        erase_lem s.nodes (fd c) ok.valid (value_at_bounded s.nodes (fd c) node ok.valid there) in
      let at_node = ok.links.held (fd c) node there in
      (
        record { list = NodeList.erase s.list node; nodes = gone.0 },
        rw gone.1,
        record {
          valid = gone.2;
          counts = (size-Counts s.list c ok.counts).4 node at_node.0 at_node.1;
          links =
              Links-drop fd s.list.chain (FdMap.value_at s.nodes) (FdMap.value_at gone.0)
                s.list.next_node ok.links (fd c) node there gone.4;
        },
        refl,
      )

  take_locked-Takes :
      (try_lock : C → Bool) (retried : Pick C) (o : Option (ℕ × C))
      → Found fd try_lock (FdMap.value_at s.nodes) s.list.chain o
      → TakesOr fd (wait_or_take fd retried s o) (lockable fd try_lock (conns s)) retried
  unfolding Found wait_or_take take_locked conns
  take_locked-Takes try_lock retried none h = rw h
  take_locked-Takes try_lock retried (some (n, c)) h = rw h.1 (unlinked-IsLinked n c h.0)

  tries :
      (try_lock : C → Bool) (retried : Pick C)
      → TakesOr fd
          (if NodeList.is_empty s.list
            then retried
            else wait_or_take fd retried s (first_lockable fd try_lock s.list.chain))
          (lockable fd try_lock (conns s))
          retried
  unfolding NodeList.is_empty conns
  tries try_lock retried = elim (Bool-cases (s.list.size_ == 0)) [
    | inl none_there ↦
        rw
          (none_there, no_nodes s.list.chain (sym ok.counts ∙ (==_iff s.list.size_ 0).0 none_there))
    | inr nodes_there ↦ rw nodes_there (
        take_locked-Takes try_lock retried (first_lockable fd try_lock s.list.chain) (
          found_lem fd try_lock (FdMap.value_at s.nodes) s.list.chain ok.links.apart
            ok.links.listed))
  ]
    where
      no_nodes : (l : List (ℕ × C)) → length l ≡ 0 → lockable fd try_lock (conns_of l) ≡ none
      no_nodes [] h = refl
      no_nodes (e ∷ l) h = absurd (omega arith)

  -- With a linked scheduler pick_task_lock_connection takes the first connection in the queue that
  -- lets itself be locked: the rest of the queue keeps its order, and the scheduler stays linked.
  -- When no connection does, it waits; if that ends by a timeout it returns NULL, and otherwise it
  -- starts over on what it then finds.
  pub pick_task_lock_connection-takes :
      (wakes : List (Wake C × (C → Bool))) (try_lock : C → Bool)
      → TakesOr fd
          (pick_task_lock_connection fd wakes try_lock s)
          (lockable fd try_lock (conns s))
          (resumed fd wakes)
  unfolding pick_task_lock_connection
  pick_task_lock_connection-takes [] try_lock = tries try_lock waiting
  pick_task_lock_connection-takes ((timed_out, lock) ∷ wakes) try_lock = tries try_lock exits
  pick_task_lock_connection-takes ((woken later, lock) ∷ wakes) try_lock =
      tries try_lock (pick_task_lock_connection fd wakes lock later)

  first_node :
      (n : ℕ) (c : C) (t : List (ℕ × C))
      → s.list.chain ≡ (n, c) ∷ t
      → ((s.list.size_ == 0) ≡ false)
        × (FdMap.value_at s.nodes (fd c) ≡ some n)
        × (unlink n s.list.chain ≡ t)
        × (NodeList.pop_front s.list ≡ NodeList.erase s.list n)
        × (NodeList.front s.list ≡ some c)
  unfolding NodeList.front unlink NodeList.pop_front NodeList.erase NodeList.is_empty
  first_node n c t e = (
    nonempty,
    (subst (λ l. Listed fd (FdMap.value_at s.nodes) l) e ok.links.listed).0,
    rw (e, (==_iff n n).1 refl),
    rw (nonempty, e, (==_iff n n).1 refl),
    rw e,
  )
    where
      nonempty : (s.list.size_ == 0) ≡ false
      nonempty = let counted = ok.counts ∙ ap length e in ground (arith, counted)

  takes_front :
      (retried : Pick C)
      → TakesOr fd
          (if NodeList.is_empty s.list then retried else take_front fd s (NodeList.front s.list))
          (lockable fd (λ c. true) (conns s))
          retried
  unfolding NodeList.is_empty conns take_front
  takes_front retried = by_chain s.list.chain refl
    where
      by_chain :
          (l : List (ℕ × C))
          → s.list.chain ≡ l
          → TakesOr fd
              (if s.list.size_ == 0 then retried else take_front fd s (NodeList.front s.list))
              (lockable fd (λ c. true) (conns_of s.list.chain))
              retried
      by_chain [] e = rw ((==_iff s.list.size_ 0).1 (ok.counts ∙ ap length e), e)
      by_chain ((n, c) ∷ t) e =
          let first = first_node n c t e in
          subst
            (λ q.
              TakesOr fd
                (if s.list.size_ == 0 then retried else take_front fd s (NodeList.front s.list))
                (lockable fd (λ d. true) (conns_of q)) retried)
            (sym e)
            (rw (first.0, first.4, first.3)
              (subst
                (λ l.
                  Takes fd (finish_pick fd c (NodeList.erase s.list n) (FdMap.erase s.nodes (fd c)))
                    c (conns_of l))
                first.2 (unlinked-IsLinked n c first.1)))

  -- With a linked scheduler pick_task_nolock_connection takes the front of the queue, whether it is
  -- locked or not, and leaves the rest in order. On an empty queue it waits; if that ends by a timeout
  -- it returns NULL, and otherwise it starts over on what it then finds.
  pub pick_task_nolock_connection-takes :
      (wakes : List (Wake C))
      → TakesOr fd
          (pick_task_nolock_connection fd wakes s)
          (lockable fd (λ c. true) (conns s))
          (resumed_nolock fd wakes)
  unfolding pick_task_nolock_connection
  pick_task_nolock_connection-takes [] = takes_front waiting
  pick_task_nolock_connection-takes (timed_out ∷ wakes) = takes_front exits
  pick_task_nolock_connection-takes (woken later ∷ wakes) =
      takes_front (pick_task_nolock_connection fd wakes later)
