-- ===== src/Tables/Contract.antt =====
-- The contract between the dispatcher of scheduler.c and the policies, fulfilled by round_robin.c
-- and priority.c.
use scheduler_module.Base.{◌<◌, pos, false, Option, none, some, List, [], All, u32_mod}
use scheduler_module.Kernel.{Kernel, pr_free}
use scheduler_module.Scheduler.{
  Policy, scheduler_round_robin, scheduler_priority, scheduler_mlfq, scheduler_lottery,
  scheduler_cfs, scheduler_edf, SchedulerType, Ops, System, World,
}
use scheduler_module.Scheduler.Dispatch.{on_pid, on_priority, quantum_call}
use scheduler_module.Scheduler.Life.{scheduler_init}
use scheduler_module.Scheduler.Calls.{Call, run}
use scheduler_module.Scheduler.Policies.{Keeps, KeepsState, IsPolicy, IsLawful, KeepsPolicy, At}
use scheduler_module.Scheduler.Sound.{run-init-Sound}
use scheduler_module.RoundRobin.Invariant.{IsRing}
use scheduler_module.RoundRobin.Calls as Rr
use scheduler_module.Priority.Queue.{Config}
use scheduler_module.Priority.Invariant.{IsQueue, priority_init-IsQueue}
use scheduler_module.Priority.Calls as Prio
use scheduler_module.Lottery.Tickets.{Floats}
use scheduler_module.Tables.{rr_ops, prio_ops, lift_ops, Policies, table, start, schedulers}

-- The well-formedness of each policy; nothing is asked of those of R and of the lottery, whose
-- lottery_yield changes the totals.
abbrev pub WellFormed : {R : Type 0} → Config → Policy → Policies R → Type 0
WellFormed c scheduler_round_robin s = IsRing c.nproc s.round_robin
WellFormed c scheduler_priority s = IsQueue c s.priority
WellFormed c scheduler_mlfq s = Unit {0}
WellFormed c scheduler_lottery s = Unit {0}
WellFormed c scheduler_cfs s = Unit {0}
WellFormed c scheduler_edf s = Unit {0}

-- A kernel for the calls that do not look at it.
abbrev quiet_kernel : Kernel
quiet_kernel = record {
  proctab = λ p. record { pstate = pr_free; pprio = 0 };
  currpid = pos 0;
  need_resched = false;
  switches = [];
}

-- The well-formedness of the policy that current_scheduler names.
abbrev pub InUse : {R : Type 0} → Config → Option Policy → Policies R → Type 0
InUse c none s = Unit {0}
InUse c (some p) s = WellFormed c p s

module _ (c : Config) (fits : c.nproc < u32_mod) {R : Type 0} where
  rr_ops-IsPolicy :
      IsPolicy {P = Policies R}
        (WellFormed c scheduler_round_robin)
        (lift_ops (λ s. s.round_robin) (λ r s. record s { round_robin = r }) (rr_ops c.nproc))
  unfolding lift_ops rr_ops on_pid on_priority quantum_call Rr.step
  rr_ops-IsPolicy = record {
    schedule = λ k s i. Rr.step-IsRing c.nproc fits k s.round_robin Rr.schedule tt i;
    yield = λ k s i. Rr.step-IsRing c.nproc fits k s.round_robin Rr.yield tt i;
    preempt = λ k s i. Rr.step-IsRing c.nproc fits k s.round_robin Rr.preempt tt i;
    enqueue = λ p k s i. Rr.step-IsRing c.nproc fits k s.round_robin (Rr.enqueue p) tt i;
    dequeue = λ p k s i. Rr.step-IsRing c.nproc fits k s.round_robin (Rr.dequeue p) tt i;
    set_priority = λ p n. tt;
    set_quantum =
        λ q s i. Rr.step-IsRing c.nproc fits quiet_kernel s.round_robin (Rr.set_quantum q) tt i;
    tick = λ k s i. Rr.step-IsRing c.nproc fits k s.round_robin Rr.tick tt i;
    reset_stats = λ s i. Rr.step-IsRing c.nproc fits quiet_kernel s.round_robin Rr.reset_stats tt i;
  }

  prio_ops-IsPolicy :
      IsPolicy {P = Policies R}
        (WellFormed c scheduler_priority)
        (lift_ops (λ s. s.priority) (λ r s. record s { priority = r }) (prio_ops c))
  unfolding lift_ops prio_ops on_pid on_priority quantum_call Prio.step
  prio_ops-IsPolicy = record {
    schedule = λ k s i. Prio.step-IsQueue c fits k s.priority Prio.schedule tt i;
    yield = λ k s i. Prio.step-IsQueue c fits k s.priority Prio.yield tt i;
    preempt = λ k s i. Prio.step-IsQueue c fits k s.priority Prio.preempt tt i;
    enqueue = λ p k s i. Prio.step-IsQueue c fits k s.priority (Prio.enqueue p) tt i;
    dequeue = λ p k s i. Prio.step-IsQueue c fits k s.priority (Prio.dequeue p) tt i;
    set_priority = λ p n k s i. Prio.step-IsQueue c fits k s.priority (Prio.set p n) tt i;
    set_quantum = λ q. tt;
    tick = λ k s i. Prio.step-IsQueue c fits k s.priority Prio.tick tt i;
    reset_stats = λ s i. Prio.step-IsQueue c fits quiet_kernel s.priority Prio.reset_stats tt i;
  }

-- A table of which nothing is asked.
free-Keeps : {P : Type 0} (f : Option (Kernel → P → Kernel × P)) → Keeps (λ s. Unit {0}) f
free-Keeps none = tt
free-Keeps (some f) = λ k s i. tt

free-KeepsState : {P : Type 0} (f : Option (P → P)) → KeepsState (λ s. Unit {0}) f
free-KeepsState none = tt
free-KeepsState (some f) = λ s i. tt

free-IsPolicy : {P : Type 0} (o : Ops P) → IsPolicy {P = P} (λ s. Unit {0}) o
free-IsPolicy o = record {
  schedule = free-Keeps o.schedule;
  yield = free-Keeps o.yield;
  preempt = free-Keeps o.preempt;
  enqueue = λ p. free-Keeps (on_pid p o.enqueue);
  dequeue = λ p. free-Keeps (on_pid p o.dequeue);
  set_priority = λ p n. free-Keeps (on_priority p n o.set_priority);
  set_quantum = λ q. free-KeepsState (quantum_call q o.set_quantum);
  tick = free-Keeps o.tick;
  reset_stats = free-KeepsState o.reset_stats;
}

module _ (c : Config) (fits : c.nproc < u32_mod) (fl : Floats) {R : Type 0}
    (others : System R) where
  start-WellFormed : (p : Policy) (s : Policies R) → WellFormed c p (start c fl others p s)
  unfolding start
  start-WellFormed scheduler_round_robin s = Rr.init-IsRing c.nproc
  start-WellFormed scheduler_priority s = priority_init-IsQueue c fits
  start-WellFormed scheduler_mlfq s = tt
  start-WellFormed scheduler_lottery s = tt
  start-WellFormed scheduler_cfs s = tt
  start-WellFormed scheduler_edf s = tt

  table-IsPolicy : (p : Policy) → IsPolicy (WellFormed {R = R} c p) (table c fl others p)
  unfolding table
  table-IsPolicy scheduler_round_robin = rr_ops-IsPolicy c fits
  table-IsPolicy scheduler_priority = prio_ops-IsPolicy c fits
  table-IsPolicy scheduler_mlfq = free-IsPolicy (table c fl others scheduler_mlfq)
  table-IsPolicy scheduler_lottery = free-IsPolicy (table c fl others scheduler_lottery)
  table-IsPolicy scheduler_cfs = free-IsPolicy (table c fl others scheduler_cfs)
  table-IsPolicy scheduler_edf = free-IsPolicy (table c fl others scheduler_edf)

  schedulers-IsLawful : IsLawful (schedulers c fl others) (WellFormed c)
  schedulers-IsLawful = record { starts = start-WellFormed; keeps = table-IsPolicy }

  At-InUse :
      (q : Option Policy) (s : Policies R)
      → At c.nproc (schedulers c fl others) (WellFormed c) schedulers-IsLawful q s
      → InUse c q s
  At-InUse none s a = tt
  At-InUse (some p) s a = a

  -- With NPROC below 2 ^ 32, after scheduler_init with any type and any calls of the dispatcher
  -- that neither shut it down nor switch to an unknown type, the policy that current_scheduler
  -- names is well formed if it is the round robin policy (distinct queued processes in range,
  -- rr_current one of them, counter and free nodes right) or the priority policy (the same for its
  -- queue). Nothing is said of the other policies.
  pub schedulers-WellFormed :
      (type : SchedulerType) (w : World (Policies R)) (calls : List Call)
      → All KeepsPolicy calls
      → let v =
          run c.nproc
            (schedulers c fl others)
            (scheduler_init c.nproc (schedulers c fl others) type w)
            calls in
        InUse c v.sched.current v.policies
  schedulers-WellFormed type w calls ok =
      let v =
        run c.nproc (schedulers c fl others)
          (scheduler_init c.nproc (schedulers c fl others) type w) calls in
      At-InUse v.sched.current v.policies (
        run-init-Sound c.nproc (schedulers c fl others) (WellFormed c) schedulers-IsLawful type w
          calls ok)
