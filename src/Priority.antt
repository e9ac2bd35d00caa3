-- ===== src/Priority.antt =====
-- priority.c: the state of the priority scheduler and its operations. The free list of the NPROC
-- nodes is its length. Each operation runs with interrupts disabled, and takes and gives back
-- prio_lock, so it is one step.
pub mod Queue
pub mod Aging
pub mod Sorted
pub mod Walks
pub mod Invariant
pub mod Order
pub mod Scheduling
pub mod Validate
pub mod Calls
mod Tests
use scheduler_module.Base.{
  ℕ, ◌+◌, ◌-◌, ◌/◌, ◌%◌, ℤ, eqz, is_neg, minus_one, in_range, Bool, true, false, ◌&&◌, ◌||◌, not,
  Option, none, some, List, [], ◌∷◌, ltb, leb, ◌==◌, if◌then◌else◌, is_some, add32, inc32, dec32,
  add64, inc64, u32_mod,
}
use scheduler_module.Base.Keyed
use scheduler_module.Kernel.{
  Kernel, pr_curr, pr_ready, is_curr, is_ready, set_pstate, set_pprio, stop_running, context_switch,
}
use Queue.{
  Node, node_pid, priority_max, Config, prio_find_node, insert_walk, age_walk, starvation_walk,
  wait_walk, validate_walk,
}

pub record PrioStats : Type 0 where
  pub total_schedules : ℕ
  pub context_switches : ℕ
  pub priority_changes : ℕ
  pub aging_boosts : ℕ
  pub starvation_boosts : ℕ
  pub preemptions : ℕ
  pub current_queue_length : ℕ
  pub avg_wait_time : ℕ

pub record Priority : Type 0 where
  pub queue : List Node
  pub free_nodes : ℕ
  pub queue_count : ℕ
  pub aging_enabled : Bool
  pub aging_interval : ℕ
  pub aging_counter : ℕ
  pub stats : PrioStats
  pub ticks : ℕ

abbrev pub zero_stats : PrioStats
zero_stats = record {
  total_schedules = 0;
  context_switches = 0;
  priority_changes = 0;
  aging_boosts = 0;
  starvation_boosts = 0;
  preemptions = 0;
  current_queue_length = 0;
  avg_wait_time = 0;
}

-- prio_queue_count and the length that the statistics hold of it.
unfoldable pub set_count : ℕ → Priority → Priority
set_count n s = record s { queue_count = n; stats = record (s.stats) { current_queue_length = n } }

module _ (c : Config) where
  unfoldable pub priority_init : Priority
  priority_init = record {
    queue = [];
    free_nodes = c.nproc;
    queue_count = 0;
    aging_enabled = c.aging_on;
    aging_interval = c.interval;
    aging_counter = 0;
    stats = zero_stats;
    ticks = 0;
  }

  unfoldable pub priority_shutdown : Priority → Priority
  priority_shutdown s = record s { queue = []; queue_count = 0 }

  -- The node as priority_insert_ordered fills it.
  unfoldable pub new_node : Kernel → ℤ → Priority → Node
  new_node k pid s = record {
    pid = pid;
    base_priority = (k.proctab pid).pprio;
    current_priority = (k.proctab pid).pprio;
    wait_time = 0;
    last_run = s.ticks;
    cpu_burst = 0;
    io_bound = false;
  }

  unfoldable pub priority_insert_ordered : Kernel → ℤ → Priority → Priority
  unfolding set_count
  priority_insert_ordered k pid s =
      if s.free_nodes == 0
      then s
      else set_count (inc32 s.queue_count) (record s {
        queue = insert_walk (new_node k pid s) s.queue;
        free_nodes = s.free_nodes - 1;
      })

  unfoldable pub priority_enqueue : Kernel → ℤ → Priority → Priority
  priority_enqueue k pid s =
      if not (in_range c.nproc pid)
      then s
      else if is_some (prio_find_node pid s.queue)
      then s
      else priority_insert_ordered k pid s

  unfoldable pub remove_node : ℤ → Priority → Priority
  unfolding set_count
  remove_node pid s =
      set_count (dec32 s.queue_count)
        (record s { queue = Keyed.unlink node_pid pid s.queue; free_nodes = s.free_nodes + 1 })

  unfoldable pub priority_dequeue : ℤ → Priority → Priority
  priority_dequeue pid s =
      if not (in_range c.nproc pid)
      then s
      else if is_some (prio_find_node pid s.queue)
      then remove_node pid s
      else s

  unfoldable pub pick_head : List Node → ℤ
  pick_head [] = minus_one
  pick_head (n ∷ ns) = n.pid

  unfoldable pub priority_pick_next : Priority → ℤ
  unfolding pick_head
  priority_pick_next s = pick_head s.queue

  -- The statistics and the fields of the node that is about to run.
  unfoldable pub note_run : ℤ → Priority → Priority
  note_run pid s = elim (prio_find_node pid s.queue) [
    | none ↦ s
    | some n ↦ record s {
      stats = record (s.stats) {
        avg_wait_time = add64 s.stats.avg_wait_time n.wait_time / 2 % u32_mod;
      };
      queue =
          Keyed.update node_pid pid (λ m. record m { wait_time = 0; last_run = s.ticks }) s.queue;
    }
  ]

  -- The kernel's side of the switch to `next`.
  unfoldable pub run_next : Kernel → ℤ → Kernel
  run_next k next =
      let k1 = set_pstate (stop_running k k.currpid) next pr_curr in
      context_switch (record k1 { currpid = next }) k.currpid next

  unfoldable pub switch_to : ℤ → Priority → Priority
  switch_to next s =
      let s1 = priority_dequeue next (note_run next s) in
      record s1 { stats = record (s1.stats) { context_switches = inc64 s1.stats.context_switches } }

  unfoldable pub count_schedule : Priority → Priority
  count_schedule s = record s {
    stats = record (s.stats) { total_schedules = inc64 s.stats.total_schedules };
  }

  unfoldable pub priority_schedule : Kernel → Priority → Kernel × Priority
  unfolding count_schedule
  priority_schedule k s =
      let s1 = count_schedule s in
      let next = priority_pick_next s1 in
      if is_neg next
      then (k, s1)
      else if eqz next k.currpid
      then (k, s1)
      else (run_next k next, switch_to next s1)

  -- if (proctab[currpid].pstate == PR_CURR) { pstate = PR_READY; priority_enqueue(currpid); }
  unfoldable pub requeue_current : Kernel → Priority → Kernel × Priority
  requeue_current k s =
      if is_curr (k.proctab k.currpid).pstate
      then (let k1 = set_pstate k k.currpid pr_ready in (k1, priority_enqueue k1 k.currpid s))
      else (k, s)

  unfoldable pub priority_yield : Kernel → Priority → Kernel × Priority
  priority_yield k s = let (k1, s1) = requeue_current k s in priority_schedule k1 s1

  unfoldable pub priority_preempt : Kernel → Priority → Kernel × Priority
  priority_preempt k s =
      let (k1, s1) =
        requeue_current k
          (record s { stats = record (s.stats) { preemptions = inc32 s.stats.preemptions } }) in
      priority_schedule k1 s1

  -- The node of `pid` is taken out, given back to the pool, and inserted anew.
  unfoldable pub reinsert : Kernel → ℤ → ℕ → Priority → Priority
  reinsert k pid priority s =
      let queue =
        Keyed.update node_pid pid
          (λ n. record n { base_priority = priority; current_priority = priority }) s.queue in
      priority_insert_ordered k pid (record s {
        queue = Keyed.unlink node_pid pid queue;
        queue_count = dec32 s.queue_count;
        free_nodes = s.free_nodes + 1;
      })

  unfoldable pub count_change : Priority → Priority
  count_change s = record s {
    stats = record (s.stats) { priority_changes = inc32 s.stats.priority_changes };
  }

  unfoldable pub request_resched : Kernel → ℤ → Kernel
  request_resched k pid =
      if is_ready (k.proctab pid).pstate || eqz pid k.currpid
      then record k { need_resched = true }
      else k

  unfoldable pub priority_set : Kernel → ℤ → ℕ → Priority → Kernel × Priority
  priority_set k pid priority s =
      if not (in_range c.nproc pid)
      then (k, s)
      else let prio = if ltb priority_max priority then priority_max else priority in
        let k1 = set_pprio k pid prio in
        let s1 = if is_some (prio_find_node pid s.queue) then reinsert k1 pid prio s else s in
        (request_resched k1 pid, count_change s1)

  -- node->current_priority, or the process table's priority with no node.
  unfoldable pub priority_of : Option Node → ℕ → ℕ
  priority_of none fallback = fallback
  priority_of (some n) fallback = n.current_priority

  unfoldable pub priority_get : Kernel → ℤ → Priority → ℕ
  unfolding priority_of
  priority_get k pid s =
      if not (in_range c.nproc pid)
      then 0
      else priority_of (prio_find_node pid s.queue) (k.proctab pid).pprio
