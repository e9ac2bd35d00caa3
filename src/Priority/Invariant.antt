-- ===== src/Priority/Invariant.antt =====
-- The well-formedness of the priority scheduler, and that every operation of priority.c keeps it.
use scheduler_module.Base.{
  ℕ, ◌+◌, ◌<◌, ℤ, in_range, true, ◌==◌, ltb, ◌≡◌, refl, inl, inr, some, arith, length, All, dec32,
  u32_mod, Bool-cases, Option-cases, if◌then◌else◌,
}
use scheduler_module.Base.Keyed
use scheduler_module.Base.Keyed.{Absent, Distinct, SameKeys}
use scheduler_module.Kernel.{Kernel, is_curr, set_pprio}
use scheduler_module.Priority.Queue.{Node, node_pid, Config, prio_find_node, priority_max}
use scheduler_module.Priority.{
  Priority, priority_init, priority_insert_ordered, priority_enqueue, new_node, remove_node,
  priority_dequeue, note_run, switch_to, count_schedule, priority_schedule, requeue_current,
  priority_yield, priority_preempt, reinsert, count_change, priority_set, priority_pick_next,
}
use scheduler_module.Priority.Sorted.{All-insert, length-insert, Distinct-insert}

-- Distinct processes in range, the counter equal to the length, and every node listed or free.
pub record IsList (c : Config) (s : Priority) : Type 0 where
  pub range : All (λ n. in_range c.nproc n.pid ≡ true) s.queue
  pub distinct : Distinct node_pid s.queue
  pub count : s.queue_count ≡ length s.queue
  pub room : s.free_nodes + length s.queue ≡ c.nproc

-- The same, and the statistics hold the length too.
pub record IsQueue (c : Config) (s : Priority) : Type 0 where
  pub list : IsList c s
  pub counted : s.stats.current_queue_length ≡ length s.queue

module _ (c : Config) (fits : c.nproc < u32_mod) where
  pub priority_init-IsQueue : IsQueue c (priority_init c)
  unfolding priority_init
  priority_init-IsQueue = record {
    list = record { range = tt; distinct = tt; count = refl; room = omega arith };
    counted = refl;
  }

  -- A change of fields of the nodes other than the pid, and of fields that are not counted.
  pub SameKeys-IsQueue :
      (s t : Priority)
      → SameKeys node_pid s.queue t.queue
      → t.queue_count ≡ s.queue_count
      → t.free_nodes ≡ s.free_nodes
      → t.stats.current_queue_length ≡ s.stats.current_queue_length
      → IsQueue c s
      → IsQueue c t
  SameKeys-IsQueue s t same h1 h2 h3 i =
      let n = Keyed.SameKeys-length node_pid s.queue t.queue same in
      let l = i.list in
      let k = l.count in
      let r = l.room in
      let d = i.counted in
      record {
        list = record {
          range =
              Keyed.SameKeys-All node_pid (λ p. in_range c.nproc p ≡ true) s.queue t.queue same
                l.range;
          distinct = Keyed.SameKeys-Distinct node_pid s.queue t.queue same l.distinct;
          count = omega arith;
          room = omega arith;
        };
        counted = omega arith;
      }

  insert-IsList :
      (k : Kernel) (p : ℤ) (s : Priority)
      → in_range c.nproc p ≡ true
      → Absent node_pid p s.queue
      → IsList c s
      → IsList c (priority_insert_ordered c k p s)
  unfolding priority_insert_ordered new_node
  insert-IsList k p s r a i =
      let n = new_node c k p s in
      let len = length-insert n s.queue in
      let more = i.room in
      let cnt = i.count in
      elim (Bool-cases (s.free_nodes == 0)) [
        | inl e ↦ rw (e, priority_insert_ordered) i
        | inr e ↦
            rw (e, priority_insert_ordered)
              (record {
                range = All-insert (λ m. in_range c.nproc m.pid ≡ true) n s.queue r i.range;
                distinct = Distinct-insert n s.queue a i.distinct;
                count = ground arith;
                room = ground arith;
              })
      ]

  insert-counted :
      (k : Kernel) (p : ℤ) (s : Priority)
      → IsList c s
      → (s.free_nodes ≡ 0 → s.stats.current_queue_length ≡ length s.queue)
      → let t = priority_insert_ordered c k p s in t.stats.current_queue_length ≡ length t.queue
  unfolding priority_insert_ordered
  insert-counted k p s i h =
      let len = length-insert (new_node c k p s) s.queue in
      let more = i.room in let cnt = i.count in ground arith

  pub priority_enqueue-IsQueue :
      (k : Kernel) (p : ℤ) (s : Priority) → IsQueue c s → IsQueue c (priority_enqueue c k p s)
  unfolding priority_enqueue prio_find_node
  priority_enqueue-IsQueue k p s i = elim (Bool-cases (in_range c.nproc p)) [
    | inr e ↦ rw (e, priority_enqueue) i
    | inl e ↦ elim (Option-cases (Keyed.find node_pid p s.queue)) [
      | inr (x, f) ↦ rw (e, f, priority_enqueue) i
      | inl f ↦
          rw (e, f, priority_enqueue)
            (record {
              list = insert-IsList k p s e (Keyed.find-none node_pid p s.queue f) i.list;
              counted = insert-counted k p s i.list (λ z. i.counted);
            })
    ]
  ]

  remove_node-IsQueue :
      (p : ℤ) (s : Priority) (n : Node)
      → Keyed.find node_pid p s.queue ≡ some n
      → IsQueue c s
      → IsQueue c (remove_node c p s)
  unfolding remove_node
  remove_node-IsQueue p s n f i =
      let len = Keyed.length-unlink node_pid p s.queue n f in
      let l = i.list in
      let k = l.count in
      let r = l.room in
      record {
        list = record {
          range = Keyed.All-unlink node_pid p (λ m. in_range c.nproc m.pid ≡ true) s.queue l.range;
          distinct = Keyed.Distinct-unlink node_pid p s.queue l.distinct;
          count = omega arith;
          room = omega arith;
        };
        counted = omega arith;
      }

  pub priority_dequeue-IsQueue :
      (p : ℤ) (s : Priority) → IsQueue c s → IsQueue c (priority_dequeue c p s)
  unfolding priority_dequeue prio_find_node
  priority_dequeue-IsQueue p s i = elim (Bool-cases (in_range c.nproc p)) [
    | inr e ↦ rw (e, priority_dequeue) i
    | inl e ↦ elim (Option-cases (Keyed.find node_pid p s.queue)) [
      | inl f ↦ rw (e, f, priority_dequeue) i
      | inr (x, f) ↦ rw (e, f, priority_dequeue) (remove_node-IsQueue p s x f i)
    ]
  ]

  note_run-IsQueue : (p : ℤ) (s : Priority) → IsQueue c s → IsQueue c (note_run c p s)
  unfolding note_run prio_find_node
  note_run-IsQueue p s i = elim (Option-cases (Keyed.find node_pid p s.queue)) [
    | inl f ↦ rw (f, note_run) i
    | inr (x, f) ↦
        rw (f, note_run)
          (SameKeys-IsQueue s _ (Keyed.update-SameKeys node_pid p _ s.queue (λ m. refl)) refl refl
            refl i)
  ]

  switch_to-IsQueue : (p : ℤ) (s : Priority) → IsQueue c s → IsQueue c (switch_to c p s)
  unfolding switch_to
  switch_to-IsQueue p s i =
      let t = priority_dequeue-IsQueue p (note_run c p s) (note_run-IsQueue p s i) in
      SameKeys-IsQueue (priority_dequeue c p (note_run c p s)) _ (Keyed.SameKeys-refl node_pid _)
        refl refl refl t

  pub priority_schedule-IsQueue :
      (k : Kernel) (s : Priority) → IsQueue c s → IsQueue c (priority_schedule c k s).1
  unfolding priority_schedule
  priority_schedule-IsQueue k s i =
      let s1 = count_schedule c s in
      let i1 : IsQueue c s1 =
        SameKeys-IsQueue s _ (Keyed.SameKeys-refl node_pid s.queue) refl refl refl i in
      let next = priority_pick_next c s1 in ground (arith, i1, switch_to-IsQueue next s1 i1)

  requeue_current-IsQueue :
      (k : Kernel) (s : Priority) → IsQueue c s → IsQueue c (requeue_current c k s).1
  unfolding requeue_current
  requeue_current-IsQueue k s i = elim (Bool-cases (is_curr (k.proctab k.currpid).pstate)) [
    | inr e ↦ rw (e, requeue_current) i
    | inl e ↦ rw (e, requeue_current) (priority_enqueue-IsQueue _ k.currpid s i)
  ]

  pub priority_yield-IsQueue :
      (k : Kernel) (s : Priority) → IsQueue c s → IsQueue c (priority_yield c k s).1
  unfolding priority_yield
  priority_yield-IsQueue k s i = priority_schedule-IsQueue _ _ (requeue_current-IsQueue k s i)

  pub priority_preempt-IsQueue :
      (k : Kernel) (s : Priority) → IsQueue c s → IsQueue c (priority_preempt c k s).1
  unfolding priority_preempt
  priority_preempt-IsQueue k s i = priority_schedule-IsQueue _ _ (
      requeue_current-IsQueue k _
        (SameKeys-IsQueue s _ (Keyed.SameKeys-refl node_pid s.queue) refl refl refl i))

  reinsert-IsQueue :
      (k : Kernel) (p : ℤ) (prio : ℕ) (s : Priority) (n : Node)
      → in_range c.nproc p ≡ true
      → Keyed.find node_pid p s.queue ≡ some n
      → IsQueue c s
      → IsQueue c (reinsert c k p prio s)
  unfolding reinsert
  reinsert-IsQueue k p prio s n e f i =
      let g : Node → Node = λ m. record m { base_priority = prio; current_priority = prio } in
      let q = Keyed.update node_pid p g s.queue in
      let same = Keyed.update-SameKeys node_pid p g s.queue (λ m. refl) in
      let found = Keyed.find-update_self node_pid p g (λ m. refl) s.queue n f in
      let len = Keyed.length-unlink node_pid p q (g n) found in
      let len' = Keyed.SameKeys-length node_pid s.queue q same in
      let l = i.list in
      let cnt = l.count in
      let room = l.room in
      let distinct = Keyed.SameKeys-Distinct node_pid s.queue q same l.distinct in
      let s1 : Priority = record s {
        queue = Keyed.unlink node_pid p q;
        queue_count = dec32 s.queue_count;
        free_nodes = s.free_nodes + 1;
      } in
      let l1 : IsList c s1 = record {
        range =
            Keyed.All-unlink node_pid p (λ m. in_range c.nproc m.pid ≡ true) q
              (Keyed.SameKeys-All node_pid (λ p. in_range c.nproc p ≡ true) s.queue q same l.range);
        distinct = Keyed.Distinct-unlink node_pid p q distinct;
        count = omega arith;
        room = omega arith;
      } in
      record {
        list = insert-IsList k p s1 e (Keyed.unlink-Absent node_pid p q distinct) l1;
        counted = insert-counted k p s1 l1 (λ z. absurd (omega arith));
      }

  pub priority_set-IsQueue :
      (k : Kernel) (p : ℤ) (prio : ℕ) (s : Priority)
      → IsQueue c s
      → IsQueue c (priority_set c k p prio s).1
  unfolding priority_set prio_find_node count_change
  priority_set-IsQueue k p prio s i = elim (Bool-cases (in_range c.nproc p)) [
    | inr e ↦ rw (e, priority_set) i
    | inl e ↦
        let cap = if ltb priority_max prio then priority_max else prio in
        let changed = λ (t : Priority) (j : IsQueue c t).
          SameKeys-IsQueue t (count_change c t) (Keyed.SameKeys-refl node_pid t.queue) refl refl
            refl j in
        elim (Option-cases (Keyed.find node_pid p s.queue)) [
          | inl f ↦ rw (e, f, priority_set) (changed s i)
          | inr (x, f) ↦
              rw (e, f, priority_set)
                (changed _ (reinsert-IsQueue (set_pprio k p cap) p cap s x e f i))
        ]
  ]
