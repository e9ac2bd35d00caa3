-- ===== src/Priority/Scheduling.antt =====
-- What the operations of priority.c do: who runs next, round trips, and where they go wrong.
use scheduler_module.Base.{
  pos, negsuc, ℕ, ◌+◌, ◌≤◌, ◌<◌, ℤ, is_neg, eqz_iff, in_range, true, false, ◌==◌, ltb, ◌≡◌, refl,
  sym, ◌∙◌, ◌≢◌, inl, inr, some, List, [], ◌∷◌, ◌++◌, arith, All, u32_mod, Option-cases, is_some,
  if◌then◌else◌, subst,
}
use scheduler_module.Base.Keyed
use scheduler_module.Base.Keyed.{Absent, Distinct}
use scheduler_module.Kernel.{Kernel, ProcState, is_curr, set_pprio, set_pstate, set_proc, pr_ready}
use scheduler_module.Priority.Queue.{
  Node, node_pid, Config, prio_find_node, insert_walk, priority_max,
}
use scheduler_module.Priority.{
  Priority, priority_insert_ordered, priority_enqueue, new_node, remove_node, priority_dequeue,
  count_schedule, priority_schedule, requeue_current, priority_yield, reinsert, count_change,
  priority_set, priority_get, priority_pick_next, request_resched,
}
use scheduler_module.Priority.Aging.{priority_boost}
use scheduler_module.Priority.Sorted.{Sorted, Placed, insert_walk-Placed, unlink-Sorted}
use scheduler_module.Priority.Order.{unlink-update}

-- The node that was put in is found again.
find_node-Placed :
    (n : Node) (xs ys : List Node) (r : Placed n xs ys)
    → Absent node_pid n.pid xs
    → (Keyed.find node_pid n.pid ys ≡ some n) × (Keyed.unlink node_pid n.pid ys ≡ xs)
find_node-Placed n xs ys r a =
    let front =
      Keyed.Absent-append_left node_pid n.pid r.before r.after
        (subst (Absent node_pid n.pid) r.whole a) in
    (
      rw r.placed (Keyed.find-split node_pid n.pid r.before r.after n refl front),
      rw r.placed (Keyed.unlink-split node_pid n.pid r.before r.after n refl front ∙ sym r.whole),
    )

-- A node above the whole list is put at its head.
insert_walk-top :
    (n : Node) (xs : List Node)
    → All (λ m. m.current_priority < n.current_priority) xs
    → insert_walk n xs ≡ n ∷ xs
unfolding insert_walk
insert_walk-top n [] a = refl
insert_walk-top n (x ∷ xs) a = ground (arith, a.0)

Sorted-second :
    (xs ys : List Node) (a b : Node)
    → Sorted (xs ++ a ∷ b ∷ ys)
    → b.current_priority ≤ a.current_priority
Sorted-second [] ys a b o = o.0.0
Sorted-second (x ∷ xs) ys a b o = Sorted-second xs ys a b o.1

in_range-nonneg : (n : ℕ) (p : ℤ) → in_range n p ≡ true → is_neg p ≡ false
in_range-nonneg n (pos a) h = refl
in_range-nonneg n (negsuc a) h = cc

module _ (c : Config) where
  -- Into a queue in order with a free node, priority_enqueue puts a process in range that is not
  -- queued behind all nodes of its priority or higher and before all lower ones: first in, first
  -- out within a priority.
  pub priority_enqueue-Placed :
      (k : Kernel) (p : ℤ) (s : Priority)
      → in_range c.nproc p ≡ true
      → Absent node_pid p s.queue
      → s.free_nodes ≢ 0
      → Sorted s.queue
      → Placed (new_node c k p s) s.queue (priority_enqueue c k p s).queue
  unfolding priority_enqueue priority_insert_ordered prio_find_node
  priority_enqueue-Placed k p s r a f o =
      let none_found = Keyed.find-Absent node_pid p s.queue a in
      let free : (s.free_nodes == 0) ≡ false = ground arith in
      rw (r, none_found, free) (insert_walk-Placed (new_node c k p s) s.queue o)

  -- For a process in range that is not queued, a queue in order with a free node and a counter on
  -- 32 bits, priority_dequeue after priority_enqueue gives back the queue, the free nodes and the
  -- counter.
  pub dequeue-enqueue :
      (k : Kernel) (p : ℤ) (s : Priority)
      → in_range c.nproc p ≡ true
      → Absent node_pid p s.queue
      → s.free_nodes ≢ 0
      → Sorted s.queue
      → s.queue_count < u32_mod
      → let t = priority_dequeue c p (priority_enqueue c k p s) in
        (t.queue ≡ s.queue) × (t.free_nodes ≡ s.free_nodes) × (t.queue_count ≡ s.queue_count)
  unfolding priority_enqueue priority_insert_ordered priority_dequeue remove_node prio_find_node
      new_node
  dequeue-enqueue k p s r a f o small =
      let none_found = Keyed.find-Absent node_pid p s.queue a in
      let free : (s.free_nodes == 0) ≡ false = ground arith in
      let n = new_node c k p s in
      let placed =
        find_node-Placed n s.queue (insert_walk n s.queue) (insert_walk-Placed n s.queue o) a in
      rw (r, none_found, free, placed.0) (placed.1, omega arith, omega arith)

  -- In a queue in order that is not empty, priority_pick_next returns the process at the head, and
  -- no queued process has a higher current priority.
  pub priority_pick_next-max :
      (s : Priority) (n : Node) (ns : List Node)
      → s.queue ≡ n ∷ ns
      → Sorted s.queue
      → (priority_pick_next c s ≡ n.pid)
        × All (λ m. m.current_priority ≤ n.current_priority) s.queue
  unfolding priority_pick_next
  priority_pick_next-max s n ns e o =
      let o' : Sorted (n ∷ ns) = subst Sorted e o in rw e (refl, (omega arith, o'.0))

  -- After reinsertion the node is found, with the priority of the process table.
  reinsert-find :
      (k : Kernel) (p : ℤ) (prio : ℕ) (s : Priority)
      → Distinct node_pid s.queue
      → Sorted s.queue
      → (n : Node) × (Keyed.find node_pid p (reinsert c k p prio s).queue ≡ some n)
        × (n.current_priority ≡ (k.proctab p).pprio)
  unfolding reinsert priority_insert_ordered new_node
  reinsert-find k p prio s d o =
      let g : Node → Node = λ n. record n { base_priority = prio; current_priority = prio } in
      let rest = Keyed.unlink node_pid p (Keyed.update node_pid p g s.queue) in
      let rest_eq = unlink-update p g s.queue (λ m. refl) in
      let n = new_node c k p s in
      let free : (s.free_nodes + 1 == 0) ≡ false = ground arith in
      let sorted : Sorted rest = rw rest_eq (unlink-Sorted p s.queue o) in
      let absent : Absent node_pid p rest = rw rest_eq (Keyed.unlink-Absent node_pid p s.queue d) in
      (
        n,
        rw free
            (find_node-Placed n rest (insert_walk n rest) (insert_walk-Placed n rest sorted)
              absent).0,
        refl,
      )

  set_pprio-get : (k : Kernel) (p : ℤ) (prio : ℕ) → ((set_pprio k p prio).proctab p).pprio ≡ prio
  unfolding set_pprio set_proc
  set_pprio-get k p prio = ground (arith, eqz_iff p p)

  set_pstate-get :
      (k : Kernel) (p : ℤ) (st : ProcState) → ((set_pstate k p st).proctab p).pstate ≡ st
  unfolding set_pstate set_proc
  set_pstate-get k p st = ground (arith, eqz_iff p p)

  set_pstate-pprio :
      (k : Kernel) (p q : ℤ) (st : ProcState)
      → ((set_pstate k p st).proctab q).pprio ≡ (k.proctab q).pprio
  unfolding set_pstate set_proc
  set_pstate-pprio k p q st = ground (arith, eqz_iff p q)

  request_resched-proctab : (k : Kernel) (p : ℤ) → (request_resched c k p).proctab ≡ k.proctab
  unfolding request_resched
  request_resched-proctab k p = ground arith

  -- For a process in range and a queue of distinct processes in order, priority_get reads back
  -- what priority_set has set, up to the maximum, whether the process is queued or not.
  pub priority_get-set :
      (k : Kernel) (p : ℤ) (prio : ℕ) (s : Priority)
      → in_range c.nproc p ≡ true
      → Distinct node_pid s.queue
      → Sorted s.queue
      → let r = priority_set c k p prio s in
        priority_get c r.0 p r.1 ≡ (if ltb priority_max prio then priority_max else prio)
  unfolding priority_set priority_get prio_find_node count_change
  priority_get-set k p prio s r d o =
      let cap = if ltb priority_max prio then priority_max else prio in
      let k1 = set_pprio k p cap in
      let kept = request_resched-proctab k1 p in
      elim (Option-cases (Keyed.find node_pid p s.queue)) [
        | inl f ↦ rw (r, f, kept, f) (set_pprio-get k p cap)
        | inr (x, f) ↦
            let (n, found, same) = reinsert-find k1 p cap s d o in
            rw (r, f, found) (same ∙ set_pprio-get k p cap)
      ]

  enqueue-top :
      (k : Kernel) (p : ℤ) (s : Priority)
      → in_range c.nproc p ≡ true
      → Absent node_pid p s.queue
      → s.free_nodes ≢ 0
      → All (λ m. m.current_priority < (k.proctab p).pprio) s.queue
      → (priority_enqueue c k p s).queue ≡ new_node c k p s ∷ s.queue
  unfolding priority_enqueue priority_insert_ordered prio_find_node new_node
  enqueue-top k p s r a f top =
      let none_found = Keyed.find-Absent node_pid p s.queue a in
      let free : (s.free_nodes == 0) ≡ false = ground arith in
      rw (r, none_found, free) (insert_walk-top (new_node c k p s) s.queue top)

  -- With the running process at the head of the queue nothing is switched.
  priority_schedule-same :
      (k : Kernel) (s : Priority)
      → priority_pick_next c s ≡ k.currpid
      → priority_schedule c k s ≡ (k, count_schedule c s)
  unfolding priority_schedule count_schedule priority_pick_next
  priority_schedule-same k s e = rw (e, (eqz_iff k.currpid k.currpid).1 refl) (ground arith)

  pick-new :
      (k : Kernel) (p : ℤ) (s t : Priority)
      → t.queue ≡ new_node c k p s ∷ s.queue
      → (priority_pick_next c t ≡ p) × (is_some (prio_find_node p t.queue) ≡ true)
  unfolding priority_pick_next new_node prio_find_node Keyed.find
  pick-new k p s t e = rw e (refl, ground (arith, eqz_iff p p))

  -- If the running process is in range, in state PR_CURR and not queued, a node is free, and its
  -- priority is above all queued ones, then after priority_yield it is still the running process,
  -- nothing was switched, its state is PR_READY, and it is queued.
  pub yield_keeps_ready :
      (k : Kernel) (s : Priority)
      → in_range c.nproc k.currpid ≡ true
      → is_curr (k.proctab k.currpid).pstate ≡ true
      → Absent node_pid k.currpid s.queue
      → s.free_nodes ≢ 0
      → All (λ m. m.current_priority < (k.proctab k.currpid).pprio) s.queue
      → let r = priority_yield c k s in
        (r.0.currpid ≡ k.currpid)
        × (r.0.switches ≡ k.switches)
        × ((r.0.proctab k.currpid).pstate ≡ pr_ready)
        × (is_some (prio_find_node k.currpid r.1.queue) ≡ true)
  unfolding priority_yield requeue_current count_schedule set_pstate
  yield_keeps_ready k s r cur a f top =
      let k1 = set_pstate k k.currpid pr_ready in
      let s1 = priority_enqueue c k1 k.currpid s in
      let top1 : All (λ m. m.current_priority < (k1.proctab k.currpid).pprio) s.queue =
        rw (set_pstate-pprio k k.currpid k.currpid pr_ready) top in
      let queued = enqueue-top k1 k.currpid s r a f top1 in
      let head = pick-new k1 k.currpid s s1 queued in
      let same = priority_schedule-same k1 s1 head.0 in
      rw (cur, same, priority_yield) (refl, refl, set_pstate-get k k.currpid pr_ready, head.1)

  -- Boosting the second of two neighbours of equal priority below PRIORITY_MAX, in range and in a
  -- queue of distinct processes, leaves the queue out of order.
  pub priority_boost_unsorted :
      (k : Kernel) (s : Priority) (xs ys : List Node) (a b : Node)
      → in_range c.nproc b.pid ≡ true
      → s.queue ≡ xs ++ a ∷ b ∷ ys
      → Distinct node_pid s.queue
      → a.current_priority ≡ b.current_priority
      → b.current_priority < priority_max
      → ¬ Sorted (priority_boost c k b.pid s).1.queue
  unfolding priority_boost prio_find_node
  priority_boost_unsorted k s xs ys a b r e d same low =
      let d' = subst (Distinct node_pid) e d in
      let up : Node → Node = λ m. record m { current_priority = m.current_priority + 1 } in
      let found = Keyed.find-second node_pid xs ys a b d' in
      let moved = Keyed.update-second node_pid up xs ys a b d' in
      let below : ltb b.current_priority priority_max ≡ true = ground arith in
      rw (r, e, found, below, e, moved) (λ o. let h = Sorted-second xs ys a (up b) o in omega arith)
