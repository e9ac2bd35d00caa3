-- ===== src/Scheduler/Calls.antt =====
-- Sequences of calls of scheduler.c, in any order, with any arguments and under any policy: what
-- they do to the ready queue and its counters.
use scheduler_module.Base.{
  ℕ, ℤ, eqz, in_range, true, not, ◌||◌, ◌≡◌, refl, Option, none, some, List, [], ◌∷◌, All, if-case,
  is_some, inc32, dec32, ltb, ◌==◌,
}
use scheduler_module.Kernel.{Kernel, is_curr, is_free, is_ready, pr_ready, set_pstate}
use scheduler_module.Scheduler.{
  SchedulerType, known, unknown, System, World, Sched, ready_enqueue, ready_dequeue, ready_pop,
  ready_queue_init,
}
use scheduler_module.Scheduler.Dispatch.{
  entry, call_or, on_pid, on_priority, count_schedule, schedule, resched, requeue_current,
  count_yield, yield, count_preempt, preempt, write_priority, bound_priority, quantum_left, spend,
  expire_tick, resched_ready, setpriority, nice, sched_set_quantum, count_tick, use_quantum,
  expire_quantum, sched_tick,
}
use scheduler_module.Scheduler.Life.{
  scheduler_init, stop_policy, scheduler_shutdown, start_policy, scheduler_switch, enqueue_process,
  dequeue_process, resched_current, sched_ready, count_blocked, sched_block, ask_if_higher,
  sched_wakeup, sched_new_process, sched_exit, sched_reset_stats,
}

-- The calls of the dispatcher, with their arguments.
pub data Call : Type 0 where
  init switch : SchedulerType → Call
  set_priority : ℤ → ℕ → Call
  set_nice : ℤ → Call
  set_quantum : ℕ → Call
  ready block wakeup new_process exit push remove : ℤ → Call
  do_schedule do_resched do_yield do_preempt tick pop queue_init shutdown reset_stats : Call

module _ {P : Type 0} (nproc : ℕ) (sys : System P) where
  unfoldable pub step : World P → Call → World P
  step w (init type) = scheduler_init nproc sys type w
  step w (switch type) = (scheduler_switch nproc sys type w).1
  step w (set_priority p n) = (setpriority nproc sys p n w).1
  step w (set_nice n) = (nice nproc sys n w).1
  step w (set_quantum q) = sched_set_quantum nproc sys q w
  step w (ready p) = sched_ready nproc sys p w
  step w (block p) = sched_block nproc sys p w
  step w (wakeup p) = sched_wakeup nproc sys p w
  step w (new_process p) = sched_new_process nproc sys p w
  step w (exit p) = sched_exit nproc sys p w
  step w (push p) = record w { sched = ready_enqueue nproc w.kernel p w.sched }
  step w (remove p) = record w { sched = ready_dequeue nproc p w.sched }
  step w do_schedule = schedule nproc sys w
  step w do_resched = resched nproc sys w
  step w do_yield = yield nproc sys w
  step w do_preempt = preempt nproc sys w
  step w tick = sched_tick nproc sys w
  step w pop = record w { sched = (ready_pop w.sched).1 }
  step w queue_init = record w { sched = ready_queue_init nproc w.sched }
  step w shutdown = scheduler_shutdown nproc sys w
  step w reset_stats = sched_reset_stats nproc sys w

  unfoldable pub run : World P → List Call → World P
  run w [] = w
  run w (a ∷ calls) = run (step w a) calls

-- A property of the dispatcher's state that only the ready queue and its counters decide.
pub record OnQueue (nproc : ℕ) (G : Sched → Type 0) : Type 0 where
  pub same :
      (s t : Sched)
      → t.ready ≡ s.ready
      → t.ready_count ≡ s.ready_count
      → t.free_nodes ≡ s.free_nodes
      → t.stats.runnable_count ≡ s.stats.runnable_count
      → t.stats.max_runnable ≡ s.stats.max_runnable
      → G s
      → G t
  pub enqueued : (k : Kernel) (p : ℤ) (s : Sched) → G s → G (ready_enqueue nproc k p s)
  pub dequeued : (p : ℤ) (s : Sched) → G s → G (ready_dequeue nproc p s)
  pub popped : (s : Sched) → G s → G (ready_pop s).1

module _ {P : Type 0} (nproc : ℕ) (sys : System P) (G : Sched → Type 0) (on : OnQueue nproc G) where
  abbrev Good : World P → Type 0
  Good w = G w.sched

  call-Good :
      (f : Option (Kernel → P → Kernel × P)) (w other : World P)
      → Good w
      → Good other
      → Good (call_or f w other)
  unfolding call_or
  call-Good none w other g h = h
  call-Good (some f) w other g h = g

  schedule-Good : (w : World P) → Good w → Good (schedule nproc sys w)
  unfolding schedule count_schedule
  schedule-Good w g =
      let g1 : Good (count_schedule nproc sys w) = on.same w.sched _ refl refl refl refl refl g in
      if-case Good (not w.sched.initialized || not (is_some w.sched.current)) _ _ g (
        call-Good (entry nproc sys (λ o. o.schedule) w.sched.current) (count_schedule nproc sys w)
          (count_schedule nproc sys w) g1 g1)

  resched-Good : (w : World P) → Good w → Good (resched nproc sys w)
  unfolding resched
  resched-Good w g = schedule-Good _ g

  requeue-Good : (w : World P) → Good w → Good (requeue_current nproc sys w)
  unfolding requeue_current
  requeue-Good w g =
      let p = w.kernel.currpid in
      if-case Good (is_curr (w.kernel.proctab p).pstate) _ _
        (on.enqueued (set_pstate w.kernel p pr_ready) p w.sched g) g

  yield-Good : (w : World P) → Good w → Good (yield nproc sys w)
  unfolding yield count_yield
  yield-Good w g =
      let w1 = count_yield nproc sys w in
      let g1 : Good w1 = on.same w.sched _ refl refl refl refl refl g in
      call-Good (entry nproc sys (λ o. o.yield) w1.sched.current) w1
        (resched nproc sys (requeue_current nproc sys w1)) g1 (resched-Good _ (requeue-Good w1 g1))

  preempt-Good : (w : World P) → Good w → Good (preempt nproc sys w)
  unfolding preempt count_preempt
  preempt-Good w g =
      let w1 = count_preempt nproc sys w in
      let g1 : Good w1 = on.same w.sched _ refl refl refl refl refl g in
      call-Good (entry nproc sys (λ o. o.preempt) w1.sched.current) w1
        (resched nproc sys (requeue_current nproc sys w1)) g1 (resched-Good _ (requeue-Good w1 g1))

  setpriority-Good : (p : ℤ) (n : ℕ) (w : World P) → Good w → Good (setpriority nproc sys p n w).1
  unfolding setpriority resched_ready write_priority
  setpriority-Good p n w g =
      let n1 = bound_priority n in
      let w1 =
        call_or (on_priority p n1 (entry nproc sys (λ o. o.set_priority) w.sched.current)) w
          (write_priority nproc sys p n1 w) in
      let g1 : Good w1 =
        call-Good (on_priority p n1 (entry nproc sys (λ o. o.set_priority) w.sched.current)) w
          (write_priority nproc sys p n1 w) g g in
      let Out = λ (r : ℤ × World P). Good r.1 in
      if-case Out (not (in_range nproc p)) _ _ g (
        if-case Out (is_free (w.kernel.proctab p).pstate) _ _ g
          (if-case Good (is_ready (w1.kernel.proctab p).pstate) _ _ (resched-Good w1 g1) g1))

  tick-Good : (w : World P) → Good w → Good (sched_tick nproc sys w)
  unfolding sched_tick count_tick use_quantum spend expire_tick expire_quantum
  tick-Good w g =
      let w1 = count_tick nproc sys w in
      let g1 : Good w1 = on.same w.sched _ refl refl refl refl refl g in
      call-Good (entry nproc sys (λ o. o.tick) w1.sched.current) w1 (use_quantum nproc sys w1) g1 (
        if-case Good (quantum_left w1.sched == 0) (expire_tick nproc sys (spend nproc sys w1))
          (spend nproc sys w1) (on.same w1.sched _ refl refl refl refl refl g1)
          (on.same w1.sched _ refl refl refl refl refl g1))

  enqueue-Good : (p : ℤ) (w : World P) → Good w → Good (enqueue_process nproc sys p w)
  unfolding enqueue_process
  enqueue-Good p w g =
      call-Good (on_pid p (entry nproc sys (λ o. o.enqueue) w.sched.current)) w _ g
        (on.enqueued w.kernel p w.sched g)

  dequeue-Good : (p : ℤ) (w : World P) → Good w → Good (dequeue_process nproc sys p w)
  unfolding dequeue_process
  dequeue-Good p w g =
      call-Good (on_pid p (entry nproc sys (λ o. o.dequeue) w.sched.current)) w _ g
        (on.dequeued p w.sched g)

  resched_current-Good : (p : ℤ) (w : World P) → Good w → Good (resched_current nproc sys p w)
  unfolding resched_current
  resched_current-Good p w g = if-case Good (eqz p w.kernel.currpid) _ _ (resched-Good w g) g

  blocked-Good : (f : ℕ → ℕ) (w : World P) → Good w → Good (count_blocked nproc sys f w)
  unfolding count_blocked
  blocked-Good f w g = on.same w.sched _ refl refl refl refl refl g

  ask-Good : (p : ℤ) (w : World P) → Good w → Good (ask_if_higher nproc sys p w)
  unfolding ask_if_higher
  ask-Good p w g =
      let k = w.kernel in
      if-case Good (ltb (k.proctab k.currpid).pprio (k.proctab p).pprio)
        (record w { kernel = record k { need_resched = true } }) w g g

  switch-Good :
      (type : SchedulerType) (w : World P) → Good w → Good (scheduler_switch nproc sys type w).1
  unfolding scheduler_switch start_policy stop_policy
  switch-Good (known p) w g = on.same w.sched _ refl refl refl refl refl g
  switch-Good (unknown n) w g = g

  step-Good :
      (Allowed : Call → Type 0)
      (started : (type : SchedulerType) (w : World P) → Good (scheduler_init nproc sys type w))
      (cleared : Allowed reset_stats
        → (w : World P) → Good w
        → Good (sched_reset_stats nproc sys w))
      (emptied : Allowed queue_init
        → (w : World P) → Good w
        → Good (record w { sched = ready_queue_init nproc w.sched }))
      (w : World P) (a : Call)
      → Allowed a
      → Good w
      → Good (step nproc sys w a)
  unfolding step scheduler_shutdown stop_policy sched_ready sched_block sched_wakeup
      sched_new_process sched_exit nice write_priority sched_set_quantum
  step-Good Allowed started cleared emptied w (init type) ok g = started type w
  step-Good Allowed started cleared emptied w (switch type) ok g = switch-Good type w g
  step-Good Allowed started cleared emptied w (set_priority p n) ok g = setpriority-Good p n w g
  step-Good Allowed started cleared emptied w (set_nice n) ok g = g
  step-Good Allowed started cleared emptied w (set_quantum q) ok g =
      on.same w.sched _ refl refl refl refl refl g
  step-Good Allowed started cleared emptied w (ready p) ok g =
      if-case Good (not (in_range nproc p)) _ _ g (enqueue-Good p w g)
  step-Good Allowed started cleared emptied w (block p) ok g =
      if-case Good (not (in_range nproc p)) _ _ g
        (resched_current-Good p _ (dequeue-Good p _ (blocked-Good inc32 w g)))
  step-Good Allowed started cleared emptied w (wakeup p) ok g =
      if-case Good (not (in_range nproc p)) _ _ g
        (ask-Good p _ (enqueue-Good p _ (blocked-Good dec32 w g)))
  step-Good Allowed started cleared emptied w (new_process p) ok g =
      if-case Good (not (in_range nproc p)) _ _ g (on.same w.sched _ refl refl refl refl refl g)
  step-Good Allowed started cleared emptied w (exit p) ok g =
      if-case Good (not (in_range nproc p)) _ _ g (resched_current-Good p _ (dequeue-Good p w g))
  step-Good Allowed started cleared emptied w (push p) ok g = on.enqueued w.kernel p w.sched g
  step-Good Allowed started cleared emptied w (remove p) ok g = on.dequeued p w.sched g
  step-Good Allowed started cleared emptied w do_schedule ok g = schedule-Good w g
  step-Good Allowed started cleared emptied w do_resched ok g = resched-Good w g
  step-Good Allowed started cleared emptied w do_yield ok g = yield-Good w g
  step-Good Allowed started cleared emptied w do_preempt ok g = preempt-Good w g
  step-Good Allowed started cleared emptied w tick ok g = tick-Good w g
  step-Good Allowed started cleared emptied w pop ok g = on.popped w.sched g
  step-Good Allowed started cleared emptied w queue_init ok g = emptied ok w g
  step-Good Allowed started cleared emptied w shutdown ok g =
      on.same w.sched _ refl refl refl refl refl g
  step-Good Allowed started cleared emptied w reset_stats ok g = cleared ok w g

  pub run-Good :
      (Allowed : Call → Type 0)
      (started : (type : SchedulerType) (w : World P) → Good (scheduler_init nproc sys type w))
      (cleared : Allowed reset_stats
        → (w : World P) → Good w
        → Good (sched_reset_stats nproc sys w))
      (emptied : Allowed queue_init
        → (w : World P) → Good w
        → Good (record w { sched = ready_queue_init nproc w.sched }))
      (w : World P) (calls : List Call)
      → All Allowed calls
      → Good w
      → Good (run nproc sys w calls)
  unfolding run
  run-Good Allowed started cleared emptied w [] ok g = g
  run-Good Allowed started cleared emptied w (a ∷ calls) ok g =
      run-Good Allowed started cleared emptied (step nproc sys w a) calls ok.1
        (step-Good Allowed started cleared emptied w a ok.0 g)
