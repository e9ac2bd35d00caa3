-- ===== src/Priority/Tests.antt =====
-- The theorems on priority.c at concrete states.
use scheduler_module.Base.{
  ℕ, ◌≤◌, pos, eqz, false, true, in_range, ◌≡◌, ◌↔◌, refl, is_some, List, [], ◌∷◌, if◌then◌else◌,
  arith, All,
}
use scheduler_module.Kernel.{Kernel, pr_curr, pr_ready, is_curr}
use scheduler_module.Priority.Queue.{Node, Config, prio_find_node}
use scheduler_module.Priority.{
  Priority, zero_stats, priority_init, priority_enqueue, priority_yield, priority_set, priority_get,
  new_node,
}
use scheduler_module.Priority.Aging.{priority_validate}
use scheduler_module.Priority.Sorted.{Sorted, Placed}
use scheduler_module.Priority.Invariant.{IsQueue}
use scheduler_module.Priority.Scheduling.{
  priority_enqueue-Placed, priority_get-set, yield_keeps_ready,
}
use scheduler_module.Priority.Validate.{priority_validate_iff}
use scheduler_module.Priority.Calls.{
  Call, enqueue, dequeue, set, schedule, yield, run, run-init-IsQueue, run-init-Sorted,
}

abbrev config : Config
config = record {
  nproc = 8;
  aging_on = true;
  interval = 10;
  aging_amount = 1;
  starvation_threshold = 100;
  starvation_boost = 10;
}

-- Process 1 runs.
abbrev kernel : Kernel
kernel = record {
  proctab = λ i. record { pstate = if eqz i (pos 1) then pr_curr else pr_ready; pprio = 50 };
  currpid = pos 1;
  need_resched = false;
  switches = [];
}

abbrev node : ℕ → ℕ → Node
node p prio = record {
  pid = pos p;
  base_priority = prio;
  current_priority = prio;
  wait_time = 0;
  last_run = 0;
  cpu_burst = 0;
  io_bound = false;
}

abbrev two : Priority
two = record {
  queue = node 2 40 ∷ node 3 40 ∷ [];
  free_nodes = 6;
  queue_count = 2;
  aging_enabled = true;
  aging_interval = 10;
  aging_counter = 0;
  stats = zero_stats;
  ticks = 0;
}

abbrev some_calls : List Call
some_calls =
    enqueue (pos 2) ∷ enqueue (pos 3) ∷ set (pos 3) 70 ∷ schedule ∷ yield ∷ dequeue (pos 2) ∷ []

two-Sorted : Sorted two.queue
two-Sorted = ((omega arith, tt), (tt, tt))

run-init-IsQueue_example : IsQueue config (run config (kernel, priority_init config) some_calls).1
run-init-IsQueue_example =
    run-init-IsQueue config (omega arith) kernel some_calls (tt, (tt, (tt, (tt, (tt, (tt, tt))))))

run-init-Sorted_example : Sorted (run config (kernel, priority_init config) some_calls).1.queue
run-init-Sorted_example =
    run-init-Sorted config (omega arith) kernel some_calls (tt, (tt, (tt, (tt, (tt, (tt, tt))))))

priority_enqueue-Placed_example :
    Placed
      (new_node config kernel (pos 4) two)
      two.queue
      (priority_enqueue config kernel (pos 4) two).queue
priority_enqueue-Placed_example =
    priority_enqueue-Placed config kernel (pos 4) two refl (ground arith, (ground arith, tt))
      (ground arith) two-Sorted

priority_get-set_example :
    let r = priority_set config kernel (pos 3) 120 two in priority_get config r.0 (pos 3) r.1 ≡ 99
priority_get-set_example =
    priority_get-set config kernel (pos 3) 120 two refl ((ground arith, tt), (tt, tt)) two-Sorted

yield_keeps_ready_example :
    let r = priority_yield config kernel two in
    (r.0.currpid ≡ pos 1)
    × (r.0.switches ≡ [])
    × ((r.0.proctab (pos 1)).pstate ≡ pr_ready)
    × (is_some (prio_find_node (pos 1) r.1.queue) ≡ true)
unfolding eqz is_curr
yield_keeps_ready_example =
    yield_keeps_ready config kernel two refl refl (ground arith, (ground arith, tt)) (ground arith)
      (omega arith, (omega arith, tt))

priority_validate_iff_example : (priority_validate config two ≡ true) ↔ (
    All (λ (n : Node). in_range 8 n.pid ≡ true) two.queue
    × Sorted two.queue
    × (two.queue_count ≡ 2)
    × (2 ≤ 8))
priority_validate_iff_example = priority_validate_iff config two
