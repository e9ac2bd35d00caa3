-- ===== src/Cfs/Running.antt =====
-- cfs.c: running and switching tasks, the timer tick and the validation.
use scheduler_module.Base.{
  ℕ, ℤ, eqz, minus_one, Bool, true, false, not, ◌&&◌, Option, none, some, List, [], ◌∷◌, ltb, leb,
  ◌==◌, if◌then◌else◌, add32, inc32, add64, inc64,
}
use scheduler_module.Kernel.{Kernel, context_switch}
use scheduler_module.Cfs.Weights.{cfs_calc_delta, max64}
use scheduler_module.Cfs.{
  Cfs, min_granularity, write_task, find_task, insert_task, remove_task, cfs_update_vruntime,
  cfs_update_min_vruntime, cfs_timeslice,
}
use scheduler_module.Cfs.Tasks.{Task, write, sub64, head_task}

-- The task has run since exec_start.
unfoldable pub account : ℕ → ℕ → Cfs → Cfs
account a delta_exec s =
    if delta_exec == 0
    then s
    else cfs_update_min_vruntime (
        write_task a (λ t. record t { exec_start = s.clock_task })
          (cfs_update_vruntime a delta_exec s))

unfoldable pub update_task : Option ℕ → Cfs → Cfs
update_task none s = s
update_task (some a) s = account a (sub64 s.clock_task (s.task_pool a).exec_start) s

unfoldable pub update_current : Cfs → Cfs
update_current s = update_task s.curr s

unfoldable pub cfs_pick_next_task : Cfs → Option ℕ
cfs_pick_next_task s = s.leftmost

unfoldable pub preempts : (ℕ → Task) → Option ℕ → Option ℕ → Bool
preempts pool none none = false
preempts pool none (some l) = true
preempts pool (some c) none = false
preempts pool (some c) (some l) =
    ltb (add64 (pool l).vruntime (cfs_calc_delta min_granularity (pool c).weight)) (pool c).vruntime

unfoldable pub cfs_check_preempt : Cfs → Bool
cfs_check_preempt s = preempts s.task_pool s.curr s.leftmost

-- if (prev->on_rq) { remove_task(prev); insert_task(prev); }
unfoldable pub put_task : ℕ → Cfs → Cfs
put_task a s = if (s.task_pool a).on_rq then insert_task a (remove_task a s) else s

unfoldable pub put_prev : Option ℕ → Cfs → Cfs
put_prev none s = s
put_prev (some a) s = record (put_task a (update_current s)) { curr = none }

unfoldable pub cfs_put_prev_task : Cfs → Cfs
cfs_put_prev_task s = put_prev s.curr s

unfoldable pub cfs_set_curr_task : ℕ → Cfs → Cfs
cfs_set_curr_task a s = record (write_task a (λ t. record t { exec_start = s.clock_task }) s) {
  curr = some a;
}

-- (cfs_rq.curr != NULL) ? cfs_rq.curr->pid : -1
unfoldable pub pid_of : Option ℕ → Cfs → ℤ
pid_of none s = minus_one
pid_of (some a) s = (s.task_pool a).pid

-- `old_pid` is read after cfs_set_curr_task.
unfoldable pub switch_task : Kernel → ℕ → Cfs → Kernel × Cfs
switch_task k next s =
    let old_pid = pid_of s.curr s in
    let next_pid = (s.task_pool next).pid in
    if not (eqz old_pid next_pid)
    then (
      context_switch k old_pid next_pid,
      record s { stats = record (s.stats) { switches = inc64 s.stats.switches } },
    )
    else (k, s)

unfoldable pub run_task : Kernel → Option ℕ → Cfs → Kernel × Cfs
run_task k none s = (k, s)
run_task k (some next) s = switch_task k next (cfs_set_curr_task next (remove_task next s))

-- cfs_rq.clock = system_clock; cfs_rq.clock_task = system_clock;
unfoldable pub read_clock : Cfs → Cfs
read_clock s = record s { clock = s.system_clock; clock_task = s.system_clock }

unfoldable pub cfs_schedule : Kernel → Cfs → Kernel × Cfs
cfs_schedule k s =
    let s1 = cfs_put_prev_task (update_current (read_clock s)) in
    run_task k (cfs_pick_next_task s1) s1

-- curr->vruntime = max64(curr->vruntime, leftmost->vruntime)
unfoldable pub move_behind : ℕ → Option ℕ → Cfs → Cfs
move_behind a none s = s
move_behind a (some l) s =
    write_task a (λ t. record t { vruntime = max64 t.vruntime (s.task_pool l).vruntime }) s

unfoldable pub yield_task : Kernel → Option ℕ → Cfs → Kernel × Cfs
yield_task k none s = (k, s)
yield_task k (some a) s = let s1 = update_current s in cfs_schedule k (move_behind a s1.leftmost s1)

unfoldable pub cfs_yield : Kernel → Cfs → Kernel × Cfs
cfs_yield k s = yield_task k s.curr s

unfoldable pub cfs_preempt : Kernel → Cfs → Kernel × Cfs
cfs_preempt k s = cfs_schedule k s

-- curr->prev_sum_exec = curr->sum_exec; cfs_schedule();
unfoldable pub end_slice : Kernel → ℕ → Cfs → Kernel × Cfs
end_slice k a s = cfs_schedule k (write_task a (λ t. record t { prev_sum_exec = t.sum_exec }) s)

unfoldable pub use_slice : Kernel → ℕ → ℕ → Cfs → Kernel × Cfs
use_slice k a ideal_runtime s =
    if leb ideal_runtime (sub64 (s.task_pool a).sum_exec (s.task_pool a).prev_sum_exec)
    then (if ltb 1 s.nr_running then end_slice k a s else (k, s))
    else (k, s)

unfoldable pub check_slice : Kernel → ℕ → Option ℕ → Cfs → Option (Kernel × Cfs)
check_slice k a none s = none
check_slice k a (some ideal_runtime) s = some (use_slice k a ideal_runtime s)

unfoldable pub tick_task : Kernel → Option ℕ → Cfs → Option (Kernel × Cfs)
tick_task k none s = some (k, s)
tick_task k (some a) s = let s1 = update_current s in check_slice k a (cfs_timeslice a s1) s1

-- `none` is the trap of cfs_timeslice.
unfoldable pub cfs_tick : Kernel → Cfs → Option (Kernel × Cfs)
cfs_tick k s =
    let s1 = read_clock (record s { system_clock = inc64 s.system_clock }) in tick_task k s1.curr s1

unfoldable pub cfs_update_clock : ℕ → Cfs → Cfs
cfs_update_clock delta s = record s {
  clock = add64 s.clock delta;
  clock_task = add64 s.clock_task delta;
}

-- The loop of cfs_reset_stats over the timeline.
unfoldable pub reset_walk : List ℕ → (ℕ → Task) → ℕ → Task
reset_walk [] pool = pool
reset_walk (a ∷ as') pool =
    reset_walk as' (write a (λ t. record t { sum_exec = 0; prev_sum_exec = 0 }) pool)

unfoldable pub cfs_reset_stats : Cfs → Cfs
cfs_reset_stats s = record s {
  stats = record (s.stats) {
    switches = 0;
    total_runtime = 0;
    wait_time = 0;
    sleep_time = 0;
    nr_migrations = 0;
  };
  task_pool = reset_walk s.tasks_timeline s.task_pool;
}

-- The loop of cfs_validate, given the previous vruntime: the verdict, the tasks counted and the
-- sum of their weights.
unfoldable pub validate_walk : (ℕ → Task) → ℕ → ℕ → ℕ → List ℕ → Bool × ℕ × ℕ
validate_walk pool prev counted weight [] = (true, counted, weight)
validate_walk pool prev counted weight (a ∷ as') =
    let rest =
      validate_walk pool (pool a).vruntime (inc32 counted) (add32 weight (pool a).weight) as' in
    (leb prev (pool a).vruntime && (pool a).on_rq && rest.0, rest.1, rest.2)

unfoldable pub same_task : Option ℕ → Option ℕ → Bool
same_task none none = true
same_task none (some b) = false
same_task (some a) none = false
same_task (some a) (some b) = a == b

unfoldable pub cfs_validate : Cfs → Bool
cfs_validate s =
    let (sorted, counted, weight) = validate_walk s.task_pool 0 0 0 s.tasks_timeline in
    sorted
    && counted == s.nr_running
    && weight == s.load_weight
    && same_task (head_task s.tasks_timeline) s.leftmost

unfoldable pub cfs_get_task : ℤ → Cfs → Option ℕ
cfs_get_task p s = find_task p s
