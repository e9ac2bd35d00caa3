-- ===== src/Priority/Order.antt =====
-- The operations of priority.c that keep the queue ordered by current priority.
use scheduler_module.Base.{
  ℕ, ◌+◌, ◌≤◌, ◌<◌, ℤ, eqz, in_range, ◌≡◌, refl, inl, inr, List, [], ◌∷◌, arith, u32_mod,
  Bool-cases, Option-cases,
}
use scheduler_module.Base.Keyed
use scheduler_module.Kernel.{Kernel, is_curr}
use scheduler_module.Priority.Queue.{Node, node_pid, Config, prio_find_node, priority_max}
use scheduler_module.Priority.{
  Priority, priority_insert_ordered, priority_enqueue, new_node, remove_node, priority_dequeue,
  note_run, switch_to, count_schedule, priority_schedule, requeue_current, priority_yield,
  priority_preempt, reinsert, count_change, priority_set, priority_pick_next,
}
use scheduler_module.Priority.Aging.{priority_age_all}
use scheduler_module.Priority.Sorted.{Sorted, insert_walk-Sorted, unlink-Sorted}
use scheduler_module.Priority.Walks.{age_walk-Sorted}

-- A write that leaves the priority of the node alone.
update-Sorted :
    (p : ℤ) (f : Node → Node) (xs : List Node)
    → ((m : Node) → (f m).current_priority ≡ m.current_priority)
    → Sorted xs
    → Sorted (Keyed.update node_pid p f xs)
unfolding Keyed.update
update-Sorted p f [] keeps s = tt
update-Sorted p f (x ∷ xs) keeps s = elim (Bool-cases (eqz x.pid p)) [
  | inl e ↦ rw (e, keeps x) s
  | inr e ↦ rw e (
    Keyed.All-update node_pid p f (λ m. m.current_priority ≤ x.current_priority) xs
        (λ m h. rw (keeps m) h) s.0,
    update-Sorted p f xs keeps s.1,
  )
]

-- Taking a node out does not read the priority that it was given before.
pub unlink-update :
    (p : ℤ) (f : Node → Node) (xs : List Node)
    → ((m : Node) → (f m).pid ≡ m.pid)
    → Keyed.unlink node_pid p (Keyed.update node_pid p f xs) ≡ Keyed.unlink node_pid p xs
unfolding Keyed.update Keyed.unlink
unlink-update p f [] keeps = refl
unlink-update p f (x ∷ xs) keeps = ground (arith, keeps x, unlink-update p f xs keeps)

module _ (c : Config) where
  pub priority_insert_ordered-Sorted :
      (k : Kernel) (p : ℤ) (s : Priority)
      → Sorted s.queue
      → Sorted (priority_insert_ordered c k p s).queue
  unfolding priority_insert_ordered
  priority_insert_ordered-Sorted k p s o =
      ground (arith, insert_walk-Sorted (new_node c k p s) s.queue o)

  pub priority_enqueue-Sorted :
      (k : Kernel) (p : ℤ) (s : Priority) → Sorted s.queue → Sorted (priority_enqueue c k p s).queue
  unfolding priority_enqueue
  priority_enqueue-Sorted k p s o = ground (arith, priority_insert_ordered-Sorted k p s o)

  pub priority_dequeue-Sorted :
      (p : ℤ) (s : Priority) → Sorted s.queue → Sorted (priority_dequeue c p s).queue
  unfolding priority_dequeue remove_node
  priority_dequeue-Sorted p s o = ground (arith, unlink-Sorted p s.queue o)

  note_run-Sorted : (p : ℤ) (s : Priority) → Sorted s.queue → Sorted (note_run c p s).queue
  unfolding note_run
  note_run-Sorted p s o = elim (Option-cases (prio_find_node p s.queue)) [
    | inl f ↦ rw (f, note_run) o
    | inr (x, f) ↦ rw (f, note_run) (update-Sorted p _ s.queue (λ m. refl) o)
  ]

  pub priority_schedule-Sorted :
      (k : Kernel) (s : Priority) → Sorted s.queue → Sorted (priority_schedule c k s).1.queue
  unfolding priority_schedule switch_to
  priority_schedule-Sorted k s o =
      let s1 = count_schedule c s in
      let next = priority_pick_next c s1 in
      ground
        (arith, o, priority_dequeue-Sorted next (note_run c next s1) (note_run-Sorted next s1 o))

  requeue_current-Sorted :
      (k : Kernel) (s : Priority) → Sorted s.queue → Sorted (requeue_current c k s).1.queue
  unfolding requeue_current
  requeue_current-Sorted k s o = elim (Bool-cases (is_curr (k.proctab k.currpid).pstate)) [
    | inr e ↦ rw (e, requeue_current) o
    | inl e ↦ rw (e, requeue_current) (priority_enqueue-Sorted _ k.currpid s o)
  ]

  pub priority_yield-Sorted :
      (k : Kernel) (s : Priority) → Sorted s.queue → Sorted (priority_yield c k s).1.queue
  unfolding priority_yield
  priority_yield-Sorted k s o = priority_schedule-Sorted _ _ (requeue_current-Sorted k s o)

  pub priority_preempt-Sorted :
      (k : Kernel) (s : Priority) → Sorted s.queue → Sorted (priority_preempt c k s).1.queue
  unfolding priority_preempt
  priority_preempt-Sorted k s o = priority_schedule-Sorted _ _ (requeue_current-Sorted k _ o)

  repriority_insert_ordered-Sorted :
      (k : Kernel) (p : ℤ) (prio : ℕ) (s : Priority)
      → Sorted s.queue
      → Sorted (reinsert c k p prio s).queue
  unfolding reinsert
  repriority_insert_ordered-Sorted k p prio s o =
      let g : Node → Node = λ n. record n { base_priority = prio; current_priority = prio } in
      priority_insert_ordered-Sorted k p _
        (rw (unlink-update p g s.queue (λ m. refl)) (unlink-Sorted p s.queue o))

  pub priority_set-Sorted :
      (k : Kernel) (p : ℤ) (prio : ℕ) (s : Priority)
      → Sorted s.queue
      → Sorted (priority_set c k p prio s).1.queue
  unfolding priority_set count_change
  priority_set-Sorted k p prio s o = elim (Bool-cases (in_range c.nproc p)) [
    | inr e ↦ rw (e, priority_set) o
    | inl e ↦ elim (Option-cases (prio_find_node p s.queue)) [
      | inl f ↦ rw (e, f, priority_set) o
      | inr (x, f) ↦ rw (e, f, priority_set) (repriority_insert_ordered-Sorted _ p _ s o)
    ]
  ]

  pub priority_age_all-Sorted :
      (s : Priority)
      → priority_max + c.aging_amount < u32_mod
      → Sorted s.queue
      → Sorted (priority_age_all c s).queue
  unfolding priority_age_all
  priority_age_all-Sorted s h o =
      ground (arith, age_walk-Sorted c.aging_amount s.stats.aging_boosts s.queue h o)
