-- ===== src/Core/Scheduler/Queue.antt =====
-- The scheduler as a queue of connections with distinct descriptors: add_task and remove_task.
pub mod Tests
use tube.Common.{
  ℕ, suc, ◌+◌, ◌<◌, Bool, true, false, List, [], ◌∷◌, ◌++◌, Option, none, some, not, is_none, ◌&&◌,
  ◌==◌, ==_iff, if◌then◌else◌, length, length-append, ◌≡◌, refl, ap, sym, ◌∙◌, subst, arith,
  Bool-cases, Option-cases, inl, inr,
}
use tube.Utils.FdMap
use tube.Utils.FdMap.{FdMap, deref, unlink}
use tube.Utils.FdMap.Laws.{IsValid, insert_lem, erase_lem, find_lem, value_at-table}
use tube.Utils.NodeList
use tube.Utils.NodeList.{NodeList}
use tube.Utils.NodeList.Size.{Counts, size-Counts}
use tube.Core.Poller.{◌>>=◌}
use tube.Core.Scheduler.{Scheduler, move_front, add_found, add_task, remove_found, remove_task}
use tube.Core.Scheduler.Nodes.{Listed}
use tube.Core.Scheduler.Linked.{Links, Links-drop, Links-front, Links-back}
use tube.Core.Scheduler.Conns.{
  conns, conns_of, queued, without, enqueue, conns-snoc, length-conns_of, queued_free, without_free,
  conns-unlink, queued_taken,
}

module _ {C : Type 0} (fd : C → ℕ) where
  pub record IsLinked (s : Scheduler C) : Type 0 where
    pub valid : IsValid s.nodes
    pub counts : Counts s.list
    pub links : Links fd s.list.chain (FdMap.value_at s.nodes) s.list.next_node

module _ {C : Type 0} (fd : C → ℕ) where
  module _ (s : Scheduler C) (conn : C) (ok : IsLinked fd s)
      (range : fd conn < s.nodes.max_size) where
    -- The one descriptor of a node.
    only_fd :
        (f n : ℕ)
        → FdMap.value_at s.nodes f ≡ some n
        → (g : ℕ) → FdMap.value_at s.nodes g ≡ some n
        → g ≡ f
    only_fd f n taken g there =
        let a = ok.links.held g n there in
        let b = ok.links.held f n taken in sym a.2 ∙ ap fd (ground (arith, a.1, b.1)) ∙ b.2

    remove_found-IsLinked :
        (o : Option ℕ)
        → FdMap.value_at s.nodes (fd conn) ≡ o
        → (s' : Scheduler C) × (remove_found fd s conn o ≡ some s')
          × IsLinked fd s'
          × (s'.nodes.max_size ≡ s.nodes.max_size)
          × (conns s' ≡ without fd (fd conn) (conns s))
    unfolding remove_found conns NodeList.erase
    remove_found-IsLinked none e = (
      s,
      refl,
      ok,
      refl,
      sym (
          without_free fd (fd conn) (conns_of s.list.chain)
            (queued_free fd (FdMap.value_at s.nodes) (fd conn) s.list.chain e ok.links.listed)),
    )
    remove_found-IsLinked (some node) e =
        let gone = erase_lem s.nodes (fd conn) ok.valid range in
        let at_node = ok.links.held (fd conn) node e in
        (
          record { list = NodeList.erase s.list node; nodes = gone.0 },
          rw gone.1,
          record {
            valid = gone.2;
            counts = (size-Counts s.list conn ok.counts).4 node at_node.0 at_node.1;
            links =
                Links-drop fd s.list.chain _ (FdMap.value_at gone.0) s.list.next_node ok.links
                  (fd conn) node e gone.4;
          },
          gone.3,
          conns-unlink fd _ (fd conn) node s.list.chain e (only_fd (fd conn) node e)
              ok.links.listed,
        )

    -- remove_task on a linked scheduler and a descriptor in range takes the connection with that
    -- descriptor out of the queue, if there is one, and leaves the scheduler linked.
    pub remove_task-queue :
        (s' : Scheduler C) × (remove_task fd s conn ≡ some s')
        × IsLinked fd s'
        × (s'.nodes.max_size ≡ s.nodes.max_size)
        × (conns s' ≡ without fd (fd conn) (conns s))
    unfolding remove_task
    remove_task-queue =
        rw (find_lem s.nodes (fd conn) range, sym (value_at-table s.nodes (fd conn)))
          (remove_found-IsLinked (FdMap.value_at s.nodes (fd conn)) refl)

    inserted_links :
        (m : FdMap ℕ) (next : ℕ)
        → FdMap.value_at m (fd conn) ≡ none
        → (m' : FdMap ℕ)
        → ((j : ℕ)
            → FdMap.value_at m' j ≡ (
                if is_none (FdMap.value_at m (fd conn)) && j == fd conn
                then some next
                else FdMap.value_at m j))
        → (j : ℕ) → FdMap.value_at m' j ≡ (if j == fd conn then some next else FdMap.value_at m j)
    inserted_links m next free m' put j = put j ∙ rw free

    push_back-IsLinked :
        FdMap.value_at s.nodes (fd conn) ≡ none
        → (s' : Scheduler C) × (add_found fd s conn none ≡ some (length (conns s) == 0, s'))
          × IsLinked fd s'
          × (s'.nodes.max_size ≡ s.nodes.max_size)
          × (conns s' ≡ conns s ++ conn ∷ [])
    unfolding add_found conns NodeList.push_back NodeList.is_empty
    push_back-IsLinked e =
        let ins = insert_lem s.nodes (fd conn) s.list.next_node ok.valid range in
        (
          record { list = (NodeList.push_back s.list conn).1; nodes = ins.0 },
          rw ins.1 (rw (ap (λ n. n == 0) (ok.counts ∙ sym (length-conns_of fd s.list.chain)))),
          record {
            valid = ins.2;
            counts = (size-Counts s.list conn ok.counts).0;
            links =
                Links-back fd s.list.chain _ (FdMap.value_at ins.0) s.list.next_node ok.links conn e
                  (inserted_links s.nodes s.list.next_node e ins.0 ins.4);
          },
          ins.3,
          conns-snoc fd s.list.chain s.list.next_node conn,
        )

    move_front-IsLinked :
        (node : ℕ)
        → FdMap.value_at s.nodes (fd conn) ≡ some node
        → (s' : Scheduler C) × (move_front fd s conn node ≡ some s')
          × IsLinked fd s'
          × (s'.nodes.max_size ≡ s.nodes.max_size)
          × (conns s' ≡ conn ∷ without fd (fd conn) (conns s))
    unfolding move_front conns NodeList.push_front NodeList.erase
    move_front-IsLinked node e =
        let gone = erase_lem s.nodes (fd conn) ok.valid range in
        let at_node = ok.links.held (fd conn) node e in
        let free = gone_free gone.0 gone.4 in
        let ins = insert_lem gone.0 (fd conn) s.list.next_node gone.2 (rw gone.3 range) in
        let erased = (size-Counts s.list conn ok.counts).4 node at_node.0 at_node.1 in
        (
          record {
            list = (NodeList.push_front (NodeList.erase s.list node) conn).1;
            nodes = ins.0;
          },
          rw (gone.1, ins.1),
          record {
            valid = ins.2;
            counts = (size-Counts (NodeList.erase s.list node) conn erased).1;
            links =
                Links-front fd (unlink node s.list.chain) (FdMap.value_at gone.0)
                  (FdMap.value_at ins.0) s.list.next_node
                  (Links-drop fd s.list.chain _ (FdMap.value_at gone.0) s.list.next_node ok.links
                    (fd conn) node e gone.4)
                  conn free (inserted_links gone.0 s.list.next_node free ins.0 ins.4);
          },
          ins.3 ∙ gone.3,
          ap (λ q. conn ∷ q)
              (conns-unlink fd _ (fd conn) node s.list.chain e (only_fd (fd conn) node e)
                ok.links.listed),
        )
      where
        gone_free :
            (m : FdMap ℕ)
            → ((j : ℕ)
                → FdMap.value_at m j ≡ (if j == fd conn then none else FdMap.value_at s.nodes j))
            → FdMap.value_at m (fd conn) ≡ none
        gone_free m put = put (fd conn) ∙ rw ((==_iff (fd conn) (fd conn)).1 refl)

    not_queued : FdMap.value_at s.nodes (fd conn) ≡ none → queued fd (fd conn) (conns s) ≡ false
    unfolding conns
    not_queued e = queued_free fd (FdMap.value_at s.nodes) (fd conn) s.list.chain e ok.links.listed

    add_found-IsLinked :
        (o : Option ℕ)
        → FdMap.value_at s.nodes (fd conn) ≡ o
        → (s' : Scheduler C) × (add_found fd s conn o ≡ some (length (conns s) == 0, s'))
          × IsLinked fd s'
          × (s'.nodes.max_size ≡ s.nodes.max_size)
          × (conns s' ≡ enqueue fd conn (conns s))
    unfolding enqueue
    add_found-IsLinked none e =
        let r = push_back-IsLinked e in (r.0, r.1, r.2, r.3, rw (not_queued e) r.4)
    add_found-IsLinked (some node) e =
        let at_node = ok.links.held (fd conn) node e in
        let there = is_queued node at_node.0 at_node.1 at_node.2 in
        let r = move_front-IsLinked node e in
        (r.0, unfold add_found in rw (r.1, queued_length (conns s) there), r.2, r.3, rw there r.4)
      where
        is_queued :
            (node : ℕ) (c : C)
            → deref node s.list.chain ≡ some c
            → fd c ≡ fd conn
            → queued fd (fd conn) (conns s) ≡ true
        is_queued node c h same =
            unfold conns in
            subst (λ f. queued fd f (conns_of s.list.chain) ≡ true) same
              (queued_taken fd (FdMap.value_at s.nodes) node s.list.chain c h)

        queued_length : (q : List C) → queued fd (fd conn) q ≡ true → (length q == 0) ≡ false
        queued_length [] h = cc
        queued_length (c ∷ q) h = ground arith

    -- add_task on a linked scheduler and a descriptor in range puts a connection whose descriptor is
    -- queued to the front in the place of the queued one, and any other at the back. It notifies a
    -- waiting thread when the queue was empty and at no other time, and leaves the scheduler linked.
    pub add_task-queue :
        (s' : Scheduler C) × (add_task fd s conn ≡ some (length (conns s) == 0, s'))
        × IsLinked fd s'
        × (s'.nodes.max_size ≡ s.nodes.max_size)
        × (conns s' ≡ enqueue fd conn (conns s))
    unfolding add_task
    add_task-queue =
        rw (find_lem s.nodes (fd conn) range, sym (value_at-table s.nodes (fd conn)))
          (add_found-IsLinked (FdMap.value_at s.nodes (fd conn)) refl)
