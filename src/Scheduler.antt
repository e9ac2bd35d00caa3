-- ===== src/Scheduler.antt =====
-- scheduler.c: the state of the dispatcher and its ready queue. The scheduling policies are seen
-- through `Ops`, the table scheduler_ops_t of scheduler.h, of which the dispatcher calls the fields
-- below; a NULL entry is `none`. The ready queue is the list of its nodes from head to tail, the
-- pool of NPROC nodes the number of the free ones. Each operation runs with interrupts disabled, so it is one step.
pub mod Dispatch
pub mod Life
pub mod Ready
pub mod Drain
pub mod Clock
pub mod Calls
pub mod Counts
pub mod Policies
pub mod Sound
pub mod Requests
mod Tests
use scheduler_module.Base.{
  ℕ, ◌-◌, ◌+◌, ℤ, minus_one, in_range, Bool, true, false, not, ◌&&◌, Option, none, some, List, [],
  ◌∷◌, ◌++◌, length, ltb, ◌==◌, if◌then◌else◌, is_some, inc32, dec32,
}
use scheduler_module.Base.Keyed
use scheduler_module.Kernel.{Kernel, is_ready}

-- The enumerators of scheduler_type_t that the switch statements of scheduler.c name.
pub data Policy : Type 0 where
  scheduler_round_robin scheduler_priority scheduler_mlfq scheduler_lottery scheduler_cfs
        scheduler_edf :
      Policy

-- A value of scheduler_type_t: one of them, or any other number.
pub data SchedulerType : Type 0 where
  known : Policy → SchedulerType
  unknown : ℕ → SchedulerType

pub record SchedStats : Type 0 where
  pub total_schedules : ℕ
  pub context_switches : ℕ
  pub idle_time : ℕ
  pub busy_time : ℕ
  pub runnable_count : ℕ
  pub blocked_count : ℕ
  pub max_runnable : ℕ
  pub preemptions : ℕ
  pub voluntary_yields : ℕ
  pub quantum_expirations : ℕ
  pub avg_wait_time : ℕ
  pub avg_turnaround : ℕ

pub record ProcStats : Type 0 where
  pub total_runtime : ℕ
  pub total_waittime : ℕ
  pub total_sleeptime : ℕ
  pub context_switches : ℕ
  pub voluntary_switches : ℕ
  pub involuntary_switches : ℕ
  pub time_slices : ℕ
  pub times_scheduled : ℕ
  pub last_scheduled : ℕ
  pub last_runtime : ℕ

pub record ReadyNode : Type 0 where
  pub pid : ℤ
  pub priority : ℕ
  pub time_slice : ℕ
  pub enqueue_time : ℕ

abbrev pub node_pid : ReadyNode → ℤ
node_pid n = n.pid

-- `current` is current_scheduler: NULL, or the table of a policy.
pub record Sched : Type 0 where
  pub current : Option Policy
  pub policy : SchedulerType
  pub stats : SchedStats
  pub ready : List ReadyNode
  pub ready_count : ℕ
  pub ready_priority : ℕ
  pub free_nodes : ℕ
  pub current_quantum : ℕ
  pub quantum_remaining : ℕ
  pub proc_stats : ℤ → ProcStats
  pub system_ticks : ℕ
  pub initialized : Bool

abbrev pub zero_stats : SchedStats
zero_stats = record {
  total_schedules = 0;
  context_switches = 0;
  idle_time = 0;
  busy_time = 0;
  runnable_count = 0;
  blocked_count = 0;
  max_runnable = 0;
  preemptions = 0;
  voluntary_yields = 0;
  quantum_expirations = 0;
  avg_wait_time = 0;
  avg_turnaround = 0;
}

abbrev pub zero_proc_stats : ProcStats
zero_proc_stats = record {
  total_runtime = 0;
  total_waittime = 0;
  total_sleeptime = 0;
  context_switches = 0;
  voluntary_switches = 0;
  involuntary_switches = 0;
  time_slices = 0;
  times_scheduled = 0;
  last_scheduled = 0;
  last_runtime = 0;
}

-- scheduler_ops_t over the state P of the policies.
pub record Ops (P : Type 0) : Type 0 where
  pub shutdown : Option (P → P)
  pub schedule : Option (Kernel → P → Kernel × P)
  pub yield : Option (Kernel → P → Kernel × P)
  pub preempt : Option (Kernel → P → Kernel × P)
  pub enqueue : Option (ℤ → Kernel → P → Kernel × P)
  pub dequeue : Option (ℤ → Kernel → P → Kernel × P)
  pub set_priority : Option (ℤ → ℕ → Kernel → P → Kernel × P)
  pub get_priority : Option (ℤ → Kernel → P → ℕ)
  pub set_quantum : Option (ℕ → P → P)
  pub get_quantum : Option (P → ℕ)
  pub tick : Option (Kernel → P → Kernel × P)
  pub reset_stats : Option (P → P)

-- The six x_init functions and the six tables that x_get_ops returns.
pub record System (P : Type 0) : Type 0 where
  pub init_policy : Policy → P → P
  pub ops : Policy → Ops P

-- What the dispatcher reads and writes.
pub record World (P : Type 0) : Type 0 where
  pub kernel : Kernel
  pub sched : Sched
  pub policies : P

unfoldable pub count_runnable : SchedStats → SchedStats
count_runnable st =
    let n = inc32 st.runnable_count in
    record st {
      runnable_count = n;
      max_runnable = if ltb st.max_runnable n then n else st.max_runnable;
    }

unfoldable pub drop_runnable : SchedStats → SchedStats
drop_runnable st = record st { runnable_count = dec32 st.runnable_count }

-- The node as ready_enqueue fills it.
unfoldable pub ready_node : Kernel → ℤ → Sched → ReadyNode
ready_node k p s = record {
  pid = p;
  priority = (k.proctab p).pprio;
  time_slice = s.current_quantum;
  enqueue_time = s.system_ticks;
}

unfoldable pub link_ready : ReadyNode → Sched → Sched
link_ready n s = record s {
  ready = s.ready ++ n ∷ [];
  ready_count = inc32 s.ready_count;
  free_nodes = s.free_nodes - 1;
  stats = count_runnable s.stats;
}

-- The queue after a node has gone to the free list.
unfoldable pub drop_node : List ReadyNode → Sched → Sched
drop_node rest s = record s {
  ready = rest;
  ready_count = dec32 s.ready_count;
  free_nodes = s.free_nodes + 1;
  stats = drop_runnable s.stats;
}

-- The pid of the head, or -1.
unfoldable pub head_pid : List ReadyNode → ℤ
head_pid [] = minus_one
head_pid (n ∷ ns) = n.pid

unfoldable pub ready_peek : Sched → ℤ
ready_peek s = head_pid s.ready

-- ready_pop at the queue `ns`.
unfoldable pub pop_at : List ReadyNode → Sched → ℤ × Sched
pop_at [] s = (minus_one, s)
pop_at (n ∷ ns) s = (n.pid, drop_node ns s)

unfoldable pub ready_pop : Sched → ℤ × Sched
ready_pop s = pop_at s.ready s

unfoldable pub is_nil : List ReadyNode → Bool
is_nil [] = true
is_nil (n ∷ ns) = false

unfoldable pub ready_queue_empty : Sched → Bool
ready_queue_empty s = is_nil s.ready

unfoldable pub ready_queue_count : Sched → ℕ
ready_queue_count s = s.ready_count

module _ (nproc : ℕ) where
  unfoldable pub ready_queue_init : Sched → Sched
  ready_queue_init s = record s {
    ready = [];
    ready_count = 0;
    ready_priority = 0;
    free_nodes = nproc;
  }

  unfoldable pub ready_enqueue : Kernel → ℤ → Sched → Sched
  ready_enqueue k p s =
      if not (in_range nproc p)
      then s
      else if s.free_nodes == 0
      then s
      else link_ready (ready_node k p s) s

  unfoldable pub ready_dequeue : ℤ → Sched → Sched
  ready_dequeue p s =
      if not (in_range nproc p)
      then s
      else if is_some (Keyed.find node_pid p s.ready)
      then drop_node (Keyed.unlink node_pid p s.ready) s
      else s

  -- The walk of sched_validate from `count` nodes on: whether it finds a fault, and the count.
  unfoldable pub validate_walk : Kernel → ℕ → List ReadyNode → Bool × ℕ
  validate_walk k count [] = (true, count)
  validate_walk k count (n ∷ ns) =
      let rest = validate_walk k (count + 1) ns in
      if ltb nproc (count + 1)
      then (false, count + 1)
      else (in_range nproc n.pid && is_ready (k.proctab n.pid).pstate && rest.0, rest.1)

  unfoldable pub sched_validate : Kernel → Sched → Bool
  sched_validate k s =
      let walked = validate_walk k 0 s.ready in walked.0 && walked.1 == s.ready_count
