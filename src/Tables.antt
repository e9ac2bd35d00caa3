-- ===== src/Tables.antt =====
-- The tables of operations of round_robin.c, priority.c and lottery.c, as the dispatcher of
-- scheduler.c calls them.
pub mod Contract
pub mod Stranded
mod Tests
use scheduler_module.Base.{ℕ, ◌<◌, pos, false, ◌≡◌, Option, none, some, List, [], All, u32_mod}
use scheduler_module.Kernel.{Kernel, pr_free}
use scheduler_module.Scheduler.{
  Policy, scheduler_round_robin, scheduler_priority, scheduler_mlfq, scheduler_lottery,
  scheduler_cfs, scheduler_edf, SchedulerType, Ops, System, World,
}
use scheduler_module.Scheduler.Dispatch.{on_pid, on_priority, quantum_call}
use scheduler_module.Scheduler.Life.{scheduler_init}
use scheduler_module.Scheduler.Calls.{Call, run}
use scheduler_module.Scheduler.Policies.{Keeps, KeepsState, IsPolicy, IsLawful, KeepsPolicy, At}
use scheduler_module.Scheduler.Sound.{run-init-Sound}
use scheduler_module.RoundRobin.{
  RoundRobin, round_robin_init, round_robin_shutdown, round_robin_schedule, round_robin_yield,
  round_robin_preempt, round_robin_enqueue, round_robin_dequeue, round_robin_reset_stats,
}
use scheduler_module.RoundRobin.Slices.{
  round_robin_set_quantum, round_robin_get_quantum, round_robin_tick,
}
use scheduler_module.RoundRobin.Invariant.{IsRing}
use scheduler_module.RoundRobin.Calls as Rr
use scheduler_module.Priority.Queue.{Config}
use scheduler_module.Priority.{
  Priority, priority_init, priority_shutdown, priority_schedule, priority_yield, priority_preempt,
  priority_enqueue, priority_dequeue, priority_set, priority_get,
}
use scheduler_module.Priority.Aging.{priority_tick, priority_reset_stats}
use scheduler_module.Priority.Invariant.{IsQueue, priority_init-IsQueue}
use scheduler_module.Priority.Calls as Prio
use scheduler_module.Lottery.{
  Lottery, lottery_init, lottery_shutdown, lottery_schedule, lottery_preempt, lottery_enqueue,
  lottery_dequeue, lottery_tick,
}
use scheduler_module.Lottery.Tickets.{Floats, lottery_yield}

-- rr_ops
unfoldable pub rr_ops : ℕ → Ops RoundRobin
rr_ops nproc = record {
  shutdown = some round_robin_shutdown;
  schedule = some round_robin_schedule;
  yield = some round_robin_yield;
  preempt = some round_robin_preempt;
  enqueue = some (λ p k s. (k, round_robin_enqueue nproc p s));
  dequeue = some (λ p k s. (k, round_robin_dequeue nproc p s));
  set_priority = none;
  get_priority = none;
  set_quantum = some round_robin_set_quantum;
  get_quantum = some round_robin_get_quantum;
  tick = some round_robin_tick;
  reset_stats = some round_robin_reset_stats;
}

-- prio_ops
unfoldable pub prio_ops : Config → Ops Priority
prio_ops c = record {
  shutdown = some (priority_shutdown c);
  schedule = some (priority_schedule c);
  yield = some (priority_yield c);
  preempt = some (priority_preempt c);
  enqueue = some (λ p k s. (k, priority_enqueue c k p s));
  dequeue = some (λ p k s. (k, priority_dequeue c p s));
  set_priority = some (λ p n k s. priority_set c k p n s);
  get_priority = some (λ p k s. priority_get c k p s);
  set_quantum = none;
  get_quantum = none;
  tick = some (priority_tick c);
  reset_stats = some priority_reset_stats;
}

-- lottery_ops as lottery_init fills it; the fields that it does not write are NULL.
unfoldable pub lottery_ops : Floats → Ops Lottery
lottery_ops fl = record {
  shutdown = some lottery_shutdown;
  schedule = some lottery_schedule;
  yield = some (lottery_yield fl);
  preempt = some lottery_preempt;
  enqueue = some (λ p k s. (k, lottery_enqueue p s));
  dequeue = some (λ p k s. (k, lottery_dequeue p s));
  set_priority = none;
  get_priority = none;
  set_quantum = none;
  get_quantum = none;
  tick = some lottery_tick;
  reset_stats = none;
}

-- The table of a policy whose state is a part of the state of all.
module _ {P Q : Type 0} (get : P → Q) (put : Q → P → P) where
  abbrev lift_call : (Kernel → Q → Kernel × Q) → Kernel → P → Kernel × P
  lift_call f k s = let r = f k (get s) in (r.0, put r.1 s)

  abbrev lift_option : {A B : Type 0} → (A → B) → Option A → Option B
  lift_option g none = none
  lift_option g (some a) = some (g a)

  unfoldable pub lift_ops : Ops Q → Ops P
  lift_ops o = record {
    shutdown = lift_option (λ f s. put (f (get s)) s) o.shutdown;
    schedule = lift_option lift_call o.schedule;
    yield = lift_option lift_call o.yield;
    preempt = lift_option lift_call o.preempt;
    enqueue = lift_option (λ f p. lift_call (f p)) o.enqueue;
    dequeue = lift_option (λ f p. lift_call (f p)) o.dequeue;
    set_priority = lift_option (λ f p n. lift_call (f p n)) o.set_priority;
    get_priority = lift_option (λ f p k s. f p k (get s)) o.get_priority;
    set_quantum = lift_option (λ f q s. put (f q (get s)) s) o.set_quantum;
    get_quantum = lift_option (λ f s. f (get s)) o.get_quantum;
    tick = lift_option lift_call o.tick;
    reset_stats = lift_option (λ f s. put (f (get s)) s) o.reset_stats;
  }

-- The state of the policies: three in full, and R for those of multilevel_queue.c, cfs.c and
-- realtime.c.
pub record Policies (R : Type 0) : Type 0 where
  pub round_robin : RoundRobin
  pub priority : Priority
  pub lottery : Lottery
  pub rest : R

module _ (c : Config) (fl : Floats) {R : Type 0} (others : System R) where
  abbrev rest_ops : Policy → Ops (Policies R)
  rest_ops p = lift_ops (λ s. s.rest) (λ r s. record s { rest = r }) (others.ops p)

  abbrev rest_init : Policy → Policies R → Policies R
  rest_init p s = record s { rest = others.init_policy p s.rest }

  unfoldable pub table : Policy → Ops (Policies R)
  table scheduler_round_robin =
      lift_ops (λ s. s.round_robin) (λ r s. record s { round_robin = r }) (rr_ops c.nproc)
  table scheduler_priority =
      lift_ops (λ s. s.priority) (λ r s. record s { priority = r }) (prio_ops c)
  table scheduler_lottery =
      lift_ops (λ s. s.lottery) (λ r s. record s { lottery = r }) (lottery_ops fl)
  table scheduler_mlfq = rest_ops scheduler_mlfq
  table scheduler_cfs = rest_ops scheduler_cfs
  table scheduler_edf = rest_ops scheduler_edf

  unfoldable pub start : Policy → Policies R → Policies R
  start scheduler_round_robin s = record s { round_robin = round_robin_init c.nproc }
  start scheduler_priority s = record s { priority = priority_init c }
  start scheduler_lottery s = record s { lottery = lottery_init }
  start scheduler_mlfq s = rest_init scheduler_mlfq s
  start scheduler_cfs s = rest_init scheduler_cfs s
  start scheduler_edf s = rest_init scheduler_edf s

  -- The schedulers of this repository behind the dispatcher.
  abbrev pub schedulers : System (Policies R)
  schedulers = record { init_policy = start; ops = table }
