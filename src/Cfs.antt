-- ===== src/Cfs.antt =====
-- cfs.c: the run queue of the completely fair scheduler. A task is named by its index in
-- `task_pool`, so that the timeline, the free list, `curr` and `leftmost` share the tasks as the
-- pointers do. The timeline is the list of its tasks in the order of the links, and so is the free
-- list. The links of a tree and `cfs_rq.next`, which no function uses, are left out.
pub mod Tasks
pub mod Switching
pub mod Queueing
pub mod Weights
pub mod Running
pub mod Timeline
pub mod Invariant
pub mod Steps
pub mod Moves
pub mod Leaving
pub mod Nice
pub mod Calls
pub mod Dispatch
pub mod Validate
pub mod Shares
pub mod Clock
mod Tests
use scheduler_module.Base.{
  ℕ, zero, suc, ◌+◌, ◌-◌, ◌*◌, ◌/◌, ◌%◌, ℤ, pos, eqz, Bool, true, false, not, Option, none, some,
  List, [], ◌∷◌, ltb, leb, ◌==◌, if◌then◌else◌, add64, sub32, add32, u32_mod, u64_mod,
}
use Weights.{cfs_nice_to_weight, clamp_nice, cfs_calc_delta, max64}
use scheduler_module.Cfs.Tasks.{
  Task, zero_task, write, sub64, head_task, find_walk, insert_walk, goes_first, unlink, next_of,
  is_task, free_list, free_walk,
}

pub record CfsStats : Type 0 where
  pub switches : ℕ
  pub total_runtime : ℕ
  pub wait_time : ℕ
  pub sleep_time : ℕ
  pub nr_migrations : ℕ

pub record Cfs : Type 0 where
  pub task_pool : ℕ → Task
  pub free_tasks : List ℕ
  pub nr_running : ℕ
  pub min_vruntime : ℕ
  pub clock : ℕ
  pub clock_task : ℕ
  pub load_weight : ℕ
  pub tasks_timeline : List ℕ
  pub curr : Option ℕ
  pub leftmost : Option ℕ
  pub stats : CfsStats
  pub system_clock : ℕ

abbrev pub target_latency : ℕ
target_latency = 20

abbrev pub min_granularity : ℕ
min_granularity = 4

abbrev pub max_tasks : ℕ
max_tasks = 256

abbrev pub zero_stats : CfsStats
zero_stats = record {
  switches = 0;
  total_runtime = 0;
  wait_time = 0;
  sleep_time = 0;
  nr_migrations = 0;
}

unfoldable pub write_task : ℕ → (Task → Task) → Cfs → Cfs
write_task a f s = record s { task_pool = write a f s.task_pool }

-- The task that alloc_task takes off the free list is the one that it has cleared.
unfoldable pub alloc_task : ℕ → List ℕ → Cfs → Cfs
alloc_task a rest s = record s {
  free_tasks = rest;
  task_pool = write a (λ t. zero_task) s.task_pool;
}

unfoldable pub free_task : ℕ → Cfs → Cfs
free_task a s = record s { free_tasks = a ∷ s.free_tasks }

unfoldable pub find_task : ℤ → Cfs → Option ℕ
find_task p s = find_walk s.task_pool p s.tasks_timeline

unfoldable pub insert_task : ℕ → Cfs → Cfs
insert_task a s =
    let pool = write a (λ t. record t { on_rq = true }) s.task_pool in
    record s {
      task_pool = pool;
      tasks_timeline = insert_walk pool a s.tasks_timeline;
      leftmost = if goes_first pool a s.tasks_timeline then some a else s.leftmost;
    }

unfoldable pub unlink_task : ℕ → Cfs → Cfs
unlink_task a s = record s {
  task_pool = write a (λ t. record t { on_rq = false }) s.task_pool;
  tasks_timeline = unlink a s.tasks_timeline;
  leftmost = if is_task a s.leftmost then next_of a s.tasks_timeline else s.leftmost;
}

unfoldable pub remove_task : ℕ → Cfs → Cfs
remove_task a s = if not (s.task_pool a).on_rq then s else unlink_task a s

-- memset(&cfs_rq, 0, sizeof(cfs_rq))
unfoldable pub clear_rq : Cfs → Cfs
clear_rq s = record s {
  nr_running = 0;
  min_vruntime = 0;
  clock = 0;
  clock_task = 0;
  load_weight = 0;
  tasks_timeline = [];
  curr = none;
  leftmost = none;
}

unfoldable pub cfs_init : Cfs → Cfs
unfolding clear_rq
cfs_init s =
    clear_rq
      (record s { free_tasks = free_list max_tasks []; stats = zero_stats; system_clock = 0 })

unfoldable pub cfs_shutdown : Cfs → Cfs
unfolding clear_rq
cfs_shutdown s = clear_rq (record s { free_tasks = free_walk s.tasks_timeline s.free_tasks })

unfoldable pub set_weight : ℕ → ℤ → Cfs → Cfs
set_weight a nice s = record s {
  task_pool = write a (λ t. record t { nice = nice; weight = cfs_nice_to_weight nice }) s.task_pool;
  load_weight = add32 (sub32 s.load_weight (s.task_pool a).weight) (cfs_nice_to_weight nice);
}

-- if (task->on_rq && task != cfs_rq.curr) { remove_task(task); insert_task(task); }
unfoldable pub move_task : ℕ → Cfs → Cfs
move_task a s =
    if not (s.task_pool a).on_rq
    then s
    else if is_task a s.curr
    then s
    else insert_task a (remove_task a s)

unfoldable pub set_nice_at : Option ℕ → ℤ → Cfs → ℤ × Cfs
set_nice_at none nice s = (pos 0, s)
set_nice_at (some a) nice s = ((s.task_pool a).nice, move_task a (set_weight a (clamp_nice nice) s))

unfoldable pub cfs_set_nice : ℤ → ℤ → Cfs → ℤ × Cfs
cfs_set_nice p nice s = set_nice_at (find_task p s) nice s

unfoldable pub nice_at : Option ℕ → Cfs → ℤ
nice_at none s = pos 0
nice_at (some a) s = (s.task_pool a).nice

unfoldable pub cfs_get_nice : ℤ → Cfs → ℤ
cfs_get_nice p s = nice_at (find_task p s) s

unfoldable pub cfs_update_vruntime : ℕ → ℕ → Cfs → Cfs
cfs_update_vruntime a delta_exec s = record s {
  task_pool =
      write a
        (λ t. record t {
          vruntime = add64 t.vruntime (cfs_calc_delta delta_exec t.weight);
          sum_exec = add64 t.sum_exec delta_exec;
        })
        s.task_pool;
  stats = record (s.stats) { total_runtime = add64 s.stats.total_runtime delta_exec };
}

-- The smallest vruntime of curr and leftmost, and `least` where there is neither.
unfoldable pub least_vruntime : (ℕ → Task) → Option ℕ → Option ℕ → ℕ → ℕ
least_vruntime pool none none least = least
least_vruntime pool (some c) none least = (pool c).vruntime
least_vruntime pool none (some l) least = (pool l).vruntime
least_vruntime pool (some c) (some l) least =
    if ltb (pool l).vruntime (pool c).vruntime then (pool l).vruntime else (pool c).vruntime

unfoldable pub cfs_update_min_vruntime : Cfs → Cfs
cfs_update_min_vruntime s = record s {
  min_vruntime = max64 s.min_vruntime (least_vruntime s.task_pool s.curr s.leftmost s.min_vruntime);
}

unfoldable pub cfs_sched_latency : Cfs → ℕ
cfs_sched_latency s =
    if ltb 8 s.nr_running then min_granularity * s.nr_running % u32_mod else target_latency

-- The vruntime that cfs_place_task compares with.
unfoldable pub placed_vruntime : Bool → ℕ → Cfs → ℕ
placed_vruntime initial weight s =
    if initial
    then add64 s.min_vruntime (cfs_calc_delta (cfs_sched_latency s / 2) weight)
    else s.min_vruntime

unfoldable pub cfs_place_task : ℕ → Bool → Cfs → Cfs
cfs_place_task a initial s =
    write_task a
      (λ t. record t { vruntime = max64 t.vruntime (placed_vruntime initial t.weight s) }) s

-- At least CFS_MIN_GRANULARITY.
unfoldable pub at_least_granularity : ℕ → ℕ
at_least_granularity slice = if ltb slice min_granularity then min_granularity else slice

-- `none` is the trap of a division by a load_weight of 0.
unfoldable pub cfs_timeslice : ℕ → Cfs → Option ℕ
cfs_timeslice a s =
    if s.nr_running == 0
    then some target_latency
    else if s.load_weight == 0
    then none
    else some (
        at_least_granularity
          (cfs_sched_latency s * (s.task_pool a).weight % u32_mod / s.load_weight))
