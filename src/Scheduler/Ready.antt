-- ===== src/Scheduler/Ready.antt =====
-- The ready queue of scheduler.c: its well-formedness, and the validation.
use scheduler_module.Base.{
  ℕ, ◌+◌, ◌≤◌, ◌<◌, ℤ, in_range, true, false, not, ◌≡◌, refl, ◌↔◌, ◌⊎◌, inl, inr, List, [], ◌∷◌,
  length, length-append, All, All-join, ◌==◌, if-case, u32_mod, arith, Bool-cases, Option-cases,
  subst, ap,
}
use scheduler_module.Base.Keyed
use scheduler_module.Kernel.{Kernel, is_ready}
use scheduler_module.Scheduler.{
  ReadyNode, node_pid, Sched, count_runnable, drop_runnable, ready_node, link_ready, drop_node,
  ready_pop, pop_at, ready_enqueue, ready_dequeue, validate_walk, sched_validate,
}

-- Every process in range, the counter equal to the length, every node listed or free.
pub record IsReady (nproc : ℕ) (s : Sched) : Type 0 where
  pub range : All (λ n. in_range nproc n.pid ≡ true) s.ready
  pub count : s.ready_count ≡ length s.ready
  pub room : s.free_nodes + length s.ready ≡ nproc

-- The statistics count the queue, and the highest count.
pub record IsCounted (s : Sched) : Type 0 where
  pub runnable : s.stats.runnable_count ≡ length s.ready
  pub highest : s.stats.runnable_count ≤ s.stats.max_runnable

module _ (nproc : ℕ) where
  -- The change of fields that the invariant does not read.
  pub same_ready-IsReady :
      (s t : Sched)
      → t.ready ≡ s.ready
      → t.ready_count ≡ s.ready_count
      → t.free_nodes ≡ s.free_nodes
      → IsReady nproc s
      → IsReady nproc t
  same_ready-IsReady s t q h1 h2 i =
      let c = i.count in
      let r = i.room in
      record { range = rw q i.range; count = rw q (omega arith); room = rw q (omega arith) }

  pub same_ready-IsCounted :
      (s t : Sched)
      → t.ready ≡ s.ready
      → t.stats.runnable_count ≡ s.stats.runnable_count
      → t.stats.max_runnable ≡ s.stats.max_runnable
      → IsCounted s
      → IsCounted t
  same_ready-IsCounted s t q h1 h2 i =
      let c = i.runnable in
      let r = i.highest in record { runnable = rw q (omega arith); highest = omega arith }

module _ (nproc : ℕ) (fits : nproc < u32_mod) where
  link-IsReady :
      (n : ReadyNode) (s : Sched)
      → in_range nproc n.pid ≡ true
      → (s.free_nodes == 0) ≡ false
      → IsReady nproc s
      → IsReady nproc (link_ready n s)
  unfolding link_ready
  link-IsReady n s e free i =
      let c = i.count in
      let r = i.room in
      let len = length-append s.ready (n ∷ []) in
      record {
        range = All-join _ s.ready (n ∷ []) i.range (e, tt);
        count = ground arith;
        room = ground arith;
      }

  link-IsCounted :
      (n : ReadyNode) (s : Sched)
      → (s.free_nodes == 0) ≡ false
      → IsReady nproc s
      → IsCounted s
      → IsCounted (link_ready n s)
  unfolding link_ready count_runnable
  link-IsCounted n s free i j =
      let c = i.count in
      let r = i.room in
      let m = j.runnable in
      let h = j.highest in
      let len = length-append s.ready (n ∷ []) in
      record { runnable = ground arith; highest = ground arith }

  node-range :
      (k : Kernel) (p : ℤ) (s : Sched)
      → in_range nproc p ≡ true
      → in_range nproc (ready_node k p s).pid ≡ true
  unfolding ready_node
  node-range k p s e = e

  pub ready_enqueue-IsReady :
      (k : Kernel) (p : ℤ) (s : Sched) → IsReady nproc s → IsReady nproc (ready_enqueue nproc k p s)
  unfolding ready_enqueue
  ready_enqueue-IsReady k p s i = elim (Bool-cases (in_range nproc p)) [
    | inr e ↦ rw (e, ready_enqueue) i
    | inl e ↦ elim (Bool-cases (s.free_nodes == 0)) [
      | inl full ↦ rw (e, full, ready_enqueue) i
      | inr free ↦
          rw (e, free, ready_enqueue)
            (link-IsReady (ready_node k p s) s (node-range k p s e) free i)
    ]
  ]

  pub ready_enqueue-IsCounted :
      (k : Kernel) (p : ℤ) (s : Sched)
      → IsReady nproc s
      → IsCounted s
      → IsCounted (ready_enqueue nproc k p s)
  unfolding ready_enqueue
  ready_enqueue-IsCounted k p s i j = elim (Bool-cases (in_range nproc p)) [
    | inr e ↦ rw (e, ready_enqueue) j
    | inl e ↦ elim (Bool-cases (s.free_nodes == 0)) [
      | inl full ↦ rw (e, full, ready_enqueue) j
      | inr free ↦ rw (e, free, ready_enqueue) (link-IsCounted (ready_node k p s) s free i j)
    ]
  ]

  drop-IsReady :
      (rest : List ReadyNode) (s : Sched)
      → All (λ n. in_range nproc n.pid ≡ true) rest
      → length rest + 1 ≡ length s.ready
      → IsReady nproc s
      → IsReady nproc (drop_node rest s)
  unfolding drop_node
  drop-IsReady rest s range len i =
      let c = i.count in
      let r = i.room in record { range = range; count = ground arith; room = ground arith }

  drop-IsCounted :
      (rest : List ReadyNode) (s : Sched)
      → length rest + 1 ≡ length s.ready
      → IsReady nproc s
      → IsCounted s
      → IsCounted (drop_node rest s)
  unfolding drop_node drop_runnable
  drop-IsCounted rest s len i j =
      let r = i.room in
      let m = j.runnable in
      let h = j.highest in record { runnable = ground arith; highest = ground arith }

  pub ready_dequeue-IsReady :
      (p : ℤ) (s : Sched) → IsReady nproc s → IsReady nproc (ready_dequeue nproc p s)
  unfolding ready_dequeue
  ready_dequeue-IsReady p s i = elim (Option-cases (Keyed.find node_pid p s.ready)) [
    | inl none_there ↦
        rw (none_there, ready_dequeue) (if-case (IsReady nproc) (not (in_range nproc p)) _ _ i i)
    | inr (x, there) ↦
        rw (there, ready_dequeue)
          (if-case (IsReady nproc) (not (in_range nproc p)) _ _ i (
            drop-IsReady (Keyed.unlink node_pid p s.ready) s
              (Keyed.All-unlink node_pid p _ s.ready i.range)
              (omega (arith, Keyed.length-unlink node_pid p s.ready x there)) i))
  ]

  pub ready_dequeue-IsCounted :
      (p : ℤ) (s : Sched) → IsReady nproc s → IsCounted s → IsCounted (ready_dequeue nproc p s)
  unfolding ready_dequeue
  ready_dequeue-IsCounted p s i j = elim (Option-cases (Keyed.find node_pid p s.ready)) [
    | inl none_there ↦
        rw (none_there, ready_dequeue) (if-case IsCounted (not (in_range nproc p)) _ _ j j)
    | inr (x, there) ↦
        rw (there, ready_dequeue)
          (if-case IsCounted (not (in_range nproc p)) _ _ j (
            drop-IsCounted (Keyed.unlink node_pid p s.ready) s
              (omega (arith, Keyed.length-unlink node_pid p s.ready x there)) i j))
  ]

  pub ready_pop-IsReady : (s : Sched) → IsReady nproc s → IsReady nproc (ready_pop s).1
  unfolding ready_pop pop_at
  ready_pop-IsReady s i = popped s.ready refl
    where
      popped : (ns : List ReadyNode) → s.ready ≡ ns → IsReady nproc (pop_at ns s).1
      popped [] e = i
      popped (n ∷ ns) e =
          let all = subst (All (λ (m : ReadyNode). in_range nproc m.pid ≡ true)) e i.range in
          drop-IsReady ns s all.1 (omega (arith, ap length e)) i

  pub ready_pop-IsCounted : (s : Sched) → IsReady nproc s → IsCounted s → IsCounted (ready_pop s).1
  unfolding ready_pop pop_at
  ready_pop-IsCounted s i j = popped s.ready refl
    where
      popped : (ns : List ReadyNode) → s.ready ≡ ns → IsCounted (pop_at ns s).1
      popped [] e = j
      popped (n ∷ ns) e = drop-IsCounted ns s (omega (arith, ap length e)) i j

module _ (nproc : ℕ) (k : Kernel) where
  abbrev pub Fit : ReadyNode → Type 0
  Fit n = (in_range nproc n.pid ≡ true) × (is_ready (k.proctab n.pid).pstate ≡ true)

  walk_sound :
      (count : ℕ) (ns : List ReadyNode)
      → (validate_walk nproc k count ns).0 ≡ true
      → All Fit ns
        × ((validate_walk nproc k count ns).1 ≡ count + length ns)
        × ((ns ≡ []) ⊎ (count + length ns ≤ nproc))
  unfolding validate_walk
  walk_sound count [] h = (tt, omega arith, inl refl)
  walk_sound count (n ∷ ns) h =
      let r = walk_sound (count + 1) ns (ground arith) in
      (((ground arith, ground arith), r.0), ground (arith, r.1), inr (ground (arith, r.2)))

  walk_complete :
      (count : ℕ) (ns : List ReadyNode)
      → All Fit ns
      → count + length ns ≤ nproc
      → (validate_walk nproc k count ns).0 ≡ true
  unfolding validate_walk
  walk_complete count [] a l = refl
  walk_complete count (n ∷ ns) a l = ground (arith, a.0.0, a.0.1, walk_complete (count + 1) ns a.1)

  -- sched_validate returns true exactly if every process of the ready queue is in range and in
  -- state PR_READY, ready_queue.count is the length of the queue, and the length is at most NPROC.
  pub sched_validate_iff :
      (s : Sched)
      → (sched_validate nproc k s ≡ true)
        ↔ (All Fit s.ready × (s.ready_count ≡ length s.ready) × (length s.ready ≤ nproc))
  unfolding sched_validate
  sched_validate_iff s = (
    (λ h.
        let w = walk_sound 0 s.ready (ground arith) in
        (w.0, ground (arith, w.1), ground (arith, w.2))),
    (λ h.
        let l = h.2 in
        let w = walk_complete 0 s.ready h.0 (omega arith) in
        let v = walk_sound 0 s.ready w in let c = h.1 in ground (arith, w, v.1)),
  )
