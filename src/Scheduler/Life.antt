-- ===== src/Scheduler/Life.antt =====
-- scheduler.c: the start, the shutdown and the switch of policies, and the calls with which the
-- kernel reports that a process starts, blocks, wakes up or exits.
use scheduler_module.Base.{
  ℕ, ℤ, eqz, in_range, Bool, true, false, not, some, ltb, if◌then◌else◌, inc32, dec32,
}
use scheduler_module.Kernel.{pr_ready, set_pstate}
use scheduler_module.Scheduler.{
  Policy, scheduler_priority, SchedulerType, known, unknown, System, World, ready_queue_init,
  ready_enqueue, ready_dequeue, zero_stats, zero_proc_stats,
}
use scheduler_module.Scheduler.Dispatch.{
  entry, call_or, on_pid, call_policy, resched, set_proc_stats,
}

module _ {P : Type 0} (nproc : ℕ) (sys : System P) where
  -- The policy that scheduler_init starts: the priority policy where the type is unknown.
  unfoldable pub policy_or_default : SchedulerType → Policy
  policy_or_default (known p) = p
  policy_or_default (unknown n) = scheduler_priority

  unfoldable pub scheduler_init : SchedulerType → World P → World P
  scheduler_init type w =
      let p = policy_or_default type in
      record w {
        sched = record (ready_queue_init nproc w.sched) {
          stats = zero_stats;
          proc_stats = λ i. if in_range nproc i then zero_proc_stats else w.sched.proc_stats i;
          policy = known p;
          current = some p;
          initialized = true;
        };
        policies = sys.init_policy p w.policies;
      }

  -- current_scheduler->shutdown()
  unfoldable pub stop_policy : World P → World P
  stop_policy w = record w {
    policies = call_policy (entry nproc sys (λ o. o.shutdown) w.sched.current) w.policies;
  }

  unfoldable pub scheduler_shutdown : World P → World P
  scheduler_shutdown w =
      let w1 = stop_policy w in record w1 { sched = record (w1.sched) { initialized = false } }

  -- The switch of scheduler_switch: `false` stands for SYSERR, `true` for OK.
  unfoldable pub start_policy : SchedulerType → World P → Bool × World P
  start_policy (unknown n) w = (false, w)
  start_policy (known p) w = (
    true,
    record w {
      sched = record (w.sched) { current = some p; policy = known p };
      policies = sys.init_policy p w.policies;
    },
  )

  unfoldable pub scheduler_switch : SchedulerType → World P → Bool × World P
  scheduler_switch type w = start_policy type (stop_policy w)

  -- The process joins the policy's queue, or the ready queue.
  unfoldable pub enqueue_process : ℤ → World P → World P
  enqueue_process p w =
      call_or (on_pid p (entry nproc sys (λ o. o.enqueue) w.sched.current)) w
        (record w { sched = ready_enqueue nproc w.kernel p w.sched })

  -- The process leaves the policy's queue, or the ready queue.
  unfoldable pub dequeue_process : ℤ → World P → World P
  dequeue_process p w =
      call_or (on_pid p (entry nproc sys (λ o. o.dequeue) w.sched.current)) w
        (record w { sched = ready_dequeue nproc p w.sched })

  unfoldable pub resched_current : ℤ → World P → World P
  resched_current p w = if eqz p w.kernel.currpid then resched nproc sys w else w

  unfoldable pub sched_ready : ℤ → World P → World P
  sched_ready p w = if not (in_range nproc p) then w else enqueue_process p w

  unfoldable pub count_blocked : (ℕ → ℕ) → World P → World P
  count_blocked f w = record w {
    sched = record (w.sched) {
      stats = record (w.sched.stats) { blocked_count = f w.sched.stats.blocked_count };
    };
  }

  unfoldable pub sched_block : ℤ → World P → World P
  sched_block p w =
      if not (in_range nproc p)
      then w
      else resched_current p (dequeue_process p (count_blocked inc32 w))

  -- if (proctab[pid].pprio > proctab[currpid].pprio) need_resched = true;
  unfoldable pub ask_if_higher : ℤ → World P → World P
  ask_if_higher p w =
      let k = w.kernel in
      if ltb (k.proctab k.currpid).pprio (k.proctab p).pprio
      then record w { kernel = record k { need_resched = true } }
      else w

  unfoldable pub sched_wakeup : ℤ → World P → World P
  sched_wakeup p w =
      if not (in_range nproc p)
      then w
      else (let w1 = count_blocked dec32 w in
          ask_if_higher p
            (enqueue_process p (record w1 { kernel = set_pstate w1.kernel p pr_ready })))

  unfoldable pub sched_new_process : ℤ → World P → World P
  sched_new_process p w = if not (in_range nproc p) then w else record w {
    sched = record (w.sched) {
      proc_stats = set_proc_stats p (λ t. zero_proc_stats) w.sched.proc_stats;
    };
  }

  unfoldable pub sched_exit : ℤ → World P → World P
  sched_exit p w = if not (in_range nproc p) then w else resched_current p (dequeue_process p w)

  unfoldable pub sched_reset_stats : World P → World P
  sched_reset_stats w = record w {
    sched = record (w.sched) {
      stats = zero_stats;
      proc_stats = λ i. if in_range nproc i then zero_proc_stats else w.sched.proc_stats i;
    };
    policies = call_policy (entry nproc sys (λ o. o.reset_stats) w.sched.current) w.policies;
  }
