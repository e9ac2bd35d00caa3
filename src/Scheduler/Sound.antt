-- ===== src/Scheduler/Sound.antt =====
-- Under lawful policies every sequence of calls of scheduler.c keeps the policy in use well formed.
use scheduler_module.Base.{ℕ, in_range, not, List, [], ◌∷◌, All, if-case, inc32, dec32}
use scheduler_module.Kernel.{pr_ready, set_pstate}
use scheduler_module.Scheduler.{
  Policy, SchedulerType, known, unknown, System, World, ready_enqueue, ready_dequeue, ready_pop,
  ready_queue_init,
}
use scheduler_module.Scheduler.Dispatch.{write_priority, nice}
use scheduler_module.Scheduler.Life.{
  policy_or_default, scheduler_init, start_policy, scheduler_switch, sched_ready, count_blocked,
  sched_block, sched_wakeup, sched_new_process, sched_exit, sched_reset_stats,
}
use scheduler_module.Scheduler.Calls.{
  Call, init, switch, set_priority, set_nice, set_quantum, ready, block, wakeup, new_process, exit,
  push, remove, do_schedule, do_resched, do_yield, do_preempt, tick, pop, queue_init, shutdown,
  reset_stats, step, run,
}
use scheduler_module.Scheduler.Policies.{
  IsLawful, KeepsPolicy, Sound, schedule-Sound, resched-Sound, yield-Sound, preempt-Sound,
  setpriority-Sound, set_quantum-Sound, tick-Sound, enqueue-Sound, dequeue-Sound,
  resched_current-Sound, ask-Sound, moved-Sound, pop-current, enqueue-current, dequeue-current,
  call_policy-At,
}

module _ {P : Type 0} (nproc : ℕ) (sys : System P) (I : Policy → P → Type 0)
    (law : IsLawful sys I) where
  abbrev pub IsSound : World P → Type 0
  IsSound w = Sound nproc sys I law w

  init-Sound : (type : SchedulerType) (w : World P) → IsSound (scheduler_init nproc sys type w)
  unfolding scheduler_init
  init-Sound type w = law.starts (policy_or_default nproc sys type) w.policies

  switch-Sound : (p : Policy) (w : World P) → IsSound (scheduler_switch nproc sys (known p) w).1
  unfolding scheduler_switch start_policy
  switch-Sound p w = law.starts p _

  reset-Sound : (w : World P) → IsSound w → IsSound (sched_reset_stats nproc sys w)
  unfolding sched_reset_stats
  reset-Sound w a =
      call_policy-At nproc sys I law (λ o. o.reset_stats) (λ p. (law.keeps p).reset_stats)
        w.sched.current w.policies a

  step-Sound : (w : World P) (a : Call) → KeepsPolicy a → IsSound w → IsSound (step nproc sys w a)
  unfolding step sched_ready sched_block sched_wakeup sched_new_process sched_exit nice
      write_priority count_blocked
  step-Sound w (init type) ok a = init-Sound type w
  step-Sound w (switch (known p)) ok a = switch-Sound p w
  step-Sound w (switch (unknown n)) ok a = absurd ok
  step-Sound w (set_priority p n) ok a = setpriority-Sound nproc sys I law p n w a
  step-Sound w (set_nice n) ok a = a
  step-Sound w (set_quantum q) ok a = set_quantum-Sound nproc sys I law q w a
  step-Sound w (ready p) ok a =
      if-case IsSound (not (in_range nproc p)) _ _ a (enqueue-Sound nproc sys I law p w a)
  step-Sound w (block p) ok a = if-case IsSound (not (in_range nproc p)) _ _ a (
      resched_current-Sound nproc sys I law p _
        (dequeue-Sound nproc sys I law p (count_blocked nproc sys inc32 w) a))
  step-Sound w (wakeup p) ok a =
      let w1 = count_blocked nproc sys dec32 w in
      let w2 = record w1 { kernel = set_pstate w1.kernel p pr_ready } in
      if-case IsSound (not (in_range nproc p)) _ _ a
        (ask-Sound nproc sys I law p _ (enqueue-Sound nproc sys I law p w2 a))
  step-Sound w (new_process p) ok a = if-case IsSound (not (in_range nproc p)) _ _ a a
  step-Sound w (exit p) ok a =
      if-case IsSound (not (in_range nproc p)) _ _ a
        (resched_current-Sound nproc sys I law p _ (dequeue-Sound nproc sys I law p w a))
  step-Sound w (push p) ok a =
      moved-Sound nproc sys I law w (ready_enqueue nproc w.kernel p w.sched) w.kernel
        (enqueue-current nproc sys I law w.kernel p w.sched) a
  step-Sound w (remove p) ok a =
      moved-Sound nproc sys I law w (ready_dequeue nproc p w.sched) w.kernel
        (dequeue-current nproc sys I law p w.sched) a
  step-Sound w do_schedule ok a = schedule-Sound nproc sys I law w a
  step-Sound w do_resched ok a = resched-Sound nproc sys I law w a
  step-Sound w do_yield ok a = yield-Sound nproc sys I law w a
  step-Sound w do_preempt ok a = preempt-Sound nproc sys I law w a
  step-Sound w tick ok a = tick-Sound nproc sys I law w a
  step-Sound w pop ok a =
      moved-Sound nproc sys I law w (ready_pop w.sched).1 w.kernel
        (pop-current nproc sys I law w.sched) a
  step-Sound w queue_init ok a = unfold ready_queue_init in a
  step-Sound w shutdown ok a = absurd ok
  step-Sound w reset_stats ok a = reset-Sound w a

  run-Sound :
      (w : World P) (calls : List Call)
      → All KeepsPolicy calls
      → IsSound w
      → IsSound (run nproc sys w calls)
  unfolding run
  run-Sound w [] ok a = a
  run-Sound w (c ∷ calls) ok a = run-Sound (step nproc sys w c) calls ok.1 (step-Sound w c ok.0 a)

  pub run-init-Sound :
      (type : SchedulerType) (w : World P) (calls : List Call)
      → All KeepsPolicy calls
      → IsSound (run nproc sys (scheduler_init nproc sys type w) calls)
  run-init-Sound type w calls ok =
      run-Sound (scheduler_init nproc sys type w) calls ok (init-Sound type w)
