-- ===== src/Realtime/Dispatch.antt =====
-- realtime_schedule of realtime.c under the earliest deadline first algorithm, while a task runs.
use scheduler_module.Base.{
  ℕ, ◌≤◌, true, false, Option, none, some, List, [], ◌∷◌, ◌≡◌, ◌≢◌, refl, sym, ap, ◌∙◌, subst, ◌==◌,
  arith, length, All, count,
}
use scheduler_module.Kernel.{Kernel, context_switch}
use scheduler_module.Realtime.Tasks.{
  Algorithm, edf, Task, is_running, goes_before, write, set_next, is_task,
}
use scheduler_module.Realtime.{
  Realtime, ◌>>=◌, insert_ready, remove_from, remove_ready, pick_next, pid_of, count_preemption,
  put_back, start_task, switch_to, run_next, realtime_schedule,
}
use scheduler_module.Realtime.Chain.{Chain, write-Chain, fields-Chain, insert_by}
use scheduler_module.Realtime.Order.{Behind, Ordered, insert_ready-Ordered}

-- The order of two pools with the same deadlines is the same.
module _ (p q : ℕ → Task) (same : (x : ℕ) → (q x).absolute_deadline ≡ (p x).absolute_deadline) where
  same_order : (x y : ℕ) → goes_before edf (q x) (q y) ≡ goes_before edf (p x) (p y)
  unfolding goes_before
  same_order x y = rw (same x, same y) refl

  same_order-Behind : (x : ℕ) (ys : List ℕ) → Behind edf p (p x) ys → Behind edf q (q x) ys
  same_order-Behind x [] b = tt
  same_order-Behind x (y ∷ ys) b = (same_order y x ∙ b.0, same_order-Behind x ys b.1)

  same_order-Ordered : (xs : List ℕ) → Ordered edf p xs → Ordered edf q xs
  same_order-Ordered [] o = tt
  same_order-Ordered (x ∷ xs) o = (same_order-Behind x xs o.0, same_order-Ordered xs o.1)

  same_order-insert :
      (a : ℕ) (xs : List ℕ) → insert_by edf q (q a) a xs ≡ insert_by edf p (p a) a xs
  unfolding insert_by
  same_order-insert a [] = refl
  same_order-insert a (x ∷ xs) = rw (same_order a x, same_order-insert a xs) refl

-- The tasks behind another have no earlier deadline.
Behind-deadlines :
    (pool : ℕ → Task) (t : Task) (xs : List ℕ)
    → Behind edf pool t xs
    → All (λ a. t.absolute_deadline ≤ (pool a).absolute_deadline) xs
Behind-deadlines pool t [] b = tt
Behind-deadlines pool t (x ∷ xs) b =
    let first = b.0 in (later first, Behind-deadlines pool t xs b.1)
  where
    later : goes_before edf (pool x) t ≡ false → t.absolute_deadline ≤ (pool x).absolute_deadline
    later h = unfold goes_before in ground arith

module _ {F : Type 0} where
  -- The state after the head has been taken off the ready queue.
  abbrev headless : ℕ → Realtime F → Realtime F
  headless n s = record s {
    ready_queue = (s.task_pool n).next;
    task_pool = set_next n none s.task_pool;
  }

  remove-head :
      (fuel n : ℕ) (s : Realtime F)
      → s.ready_queue ≡ some n
      → remove_ready fuel n s ≡ some (headless n s)
  unfolding remove_ready
  remove-head fuel n s e =
      let hit : (n == n) ≡ true = ground arith in
      ap (λ (h : Option ℕ). remove_from fuel n h s) e ∙ (unfold remove_from in rw hit refl)

  -- The running task goes back and the next one starts.
  switch_to-running :
      (fuel : ℕ) (k : Kernel) (n c : ℕ) (s t : Realtime F)
      → s.current_task ≡ some c
      → n ≢ c
      → is_running (s.task_pool c).state ≡ true
      → insert_ready fuel c s ≡ some t
      → switch_to fuel k n s
        ≡ some (
          context_switch k (s.task_pool c).pid (s.task_pool n).pid,
          start_task n (count_preemption t),
        )
  unfolding switch_to
  switch_to-running fuel k n c s t e ne r i =
      let miss : is_task n s.current_task ≡ false =
        ap (is_task n) e ∙ (unfold is_task in ground arith) in
      let back : put_back fuel s.current_task s ≡ some (count_preemption t) =
        ap (λ (o : Option ℕ). put_back fuel o s) e
        ∙ (unfold put_back in
            rw r (ap (λ (o : Option (Realtime F)). o >>= λ s1. some (count_preemption s1)) i)) in
      let old : pid_of s.current_task s ≡ (s.task_pool c).pid =
        ap (λ (o : Option ℕ). pid_of o s) e ∙ (unfold pid_of in refl) in
      rw (miss, back, old) refl

  -- Under EDF, where a task runs that is not queued and the ready queue is a chain of distinct
  -- tasks in order, with fuel for the tasks behind the head, realtime_schedule ends: it calls
  -- context_switch from the running task to the head, which becomes the current task, whose
  -- deadline is no later than that of any other queued task, and the one that ran is queued in the
  -- place of its deadline. The deadline of the one that ran plays no part in the choice.
  pub edf_schedule-Earliest :
      (fuel : ℕ) (k : Kernel) (s : Realtime F) (n c : ℕ) (xs : List ℕ)
      → s.current_algo ≡ edf
      → s.current_task ≡ some c
      → is_running (s.task_pool c).state ≡ true
      → length xs ≤ fuel
      → count c (n ∷ xs) ≡ 0
      → ((b : ℕ) → count b (n ∷ xs) ≤ 1)
      → Chain s.task_pool s.ready_queue (n ∷ xs)
      → Ordered edf s.task_pool (n ∷ xs)
      → (t : Realtime F) × (realtime_schedule fuel k s
          ≡ some (context_switch k (s.task_pool c).pid (s.task_pool n).pid, t))
        × (t.current_task ≡ some n)
        × Chain t.task_pool t.ready_queue (insert_by edf s.task_pool (s.task_pool c) c xs)
        × All (λ a. (s.task_pool n).absolute_deadline ≤ (s.task_pool a).absolute_deadline) xs
  unfolding realtime_schedule
  edf_schedule-Earliest fuel k s n c xs algo e r l away once chain o =
      let s1 = headless n s in
      let once_n = once n in
      let ne : n ≢ c = λ h. ground (arith, ap (λ (i : ℕ). count i (n ∷ xs)) h) in
      let n_out : count n xs ≡ 0 = ground arith in
      let c_out : count c xs ≡ 0 = ground arith in
      let same : (x : ℕ) → (s1.task_pool x).absolute_deadline ≡ (s.task_pool x).absolute_deadline =
        λ x. unfold set_next write in ground arith in
      let kept_c : s1.task_pool c ≡ s.task_pool c = unfold set_next write in ground arith in
      let kept_n : (s1.task_pool n).pid ≡ (s.task_pool n).pid =
        unfold set_next write in ground arith in
      let chain1 : Chain s1.task_pool s1.ready_queue xs =
        unfold set_next in
        write-Chain n (λ t. record t { next = none }) s.task_pool (s.task_pool n).next xs n_out
          chain.1 in
      let o1 = same_order-Ordered s.task_pool s1.task_pool same xs o.1 in
      let o2 : Ordered s1.current_algo s1.task_pool xs =
        subst (λ (a : Algorithm). Ordered a s1.task_pool xs) (sym algo) o1 in
      let (t, ends, queue, sorted) =
        insert_ready-Ordered fuel c s1 xs l c_out (λ b. let ob = once b in ground arith) chain1
          o2 in
      let places : insert_by s1.current_algo s1.task_pool (s1.task_pool c) c xs
          ≡ insert_by edf s.task_pool (s.task_pool c) c xs =
        ap (λ (a : Algorithm). insert_by a s1.task_pool (s1.task_pool c) c xs) algo
        ∙ same_order-insert s.task_pool s1.task_pool same c xs in
      let running1 : is_running (s1.task_pool c).state ≡ true =
        ap (λ (x : Task). is_running x.state) kept_c ∙ r in
      let switched = switch_to-running fuel k n c s1 t e ne running1 ends in
      let picked : pick_next fuel s.current_algo s ≡ some (some n, s) =
        ap (λ (a : Algorithm). pick_next fuel a s) algo
        ∙ (unfold pick_next in ap (λ (h : Option ℕ). some (h, s)) chain.0) in
      let took : run_next fuel k (some n) s ≡ switch_to fuel k n s1 =
        unfold run_next in
        ap (λ (p : Option (Realtime F)). p >>= λ s2. switch_to fuel k n s2)
          (remove-head fuel n s chain.0) in
      let queue1 = subst (Chain t.task_pool t.ready_queue) places queue in
      (
        start_task n (count_preemption t),
        ap (λ (p : Option (Option ℕ × Realtime F)). p >>= λ r. run_next fuel k r.0 r.1) picked
            ∙ took
            ∙ switched
            ∙ ap
                (λ (x : Task).
                  some (
                    context_switch k x.pid (s1.task_pool n).pid,
                    start_task n (count_preemption t),
                  ))
                kept_c
            ∙ ap
                (λ i.
                  some (context_switch k (s.task_pool c).pid i, start_task n (count_preemption t)))
                kept_n,
        unfold start_task in refl,
        unfold start_task count_preemption in
            fields-Chain n _ t.task_pool t.ready_queue _ (λ x. refl) queue1,
        Behind-deadlines s.task_pool (s.task_pool n) xs o.0,
      )
