-- ===== src/Realtime/Timing.antt =====
-- realtime.c: completions, missed deadlines, the tick, the response time and the validation.
use scheduler_module.Base.{
  ℕ, zero, suc, ◌-◌, ℤ, Bool, true, false, not, ◌&&◌, ◌||◌, Option, none, some, List, [], ◌∷◌, ltb,
  leb, ◌==◌, if◌then◌else◌, inc64, add64,
}
use scheduler_module.Kernel.{Kernel}
use scheduler_module.Realtime.Tasks.{
  Algorithm, edf, rms, dms, llf, MissPolicy, skip, continue, abort, notify, Task, missed, completed,
  is_ready, is_running, awaits_release, tasks_from, write_all,
}
use scheduler_module.Realtime.{
  Realtime, Floats, ◌>>=◌, zero_stats, write_task, find_task, remove_ready, llf_update_laxity,
  reorder, realtime_schedule,
}
use scheduler_module.Realtime.Running.{sub64, stop_current, realtime_release, preempt_check}

-- The times of an instance that completes.
unfoldable pub complete_fields : ℕ → Task → Task
complete_fields time t =
    let response_time = sub64 time t.release_time in
    record t {
      total_response_time = add64 t.total_response_time response_time;
      worst_response_time =
          if ltb t.worst_response_time response_time then response_time else t.worst_response_time;
      total_exec_time = add64 t.total_exec_time (sub64 t.params.wcet t.remaining_time);
      state = completed;
      completions = inc64 t.completions;
    }

unfoldable pub realtime_check_deadline : ℕ → Task → Bool
realtime_check_deadline time t = ltb t.absolute_deadline time

unfoldable pub use_tick : Task → Task
use_tick t = record t { remaining_time = t.remaining_time - 1 }

unfoldable pub reset_counts : Task → Task
reset_counts t = record t {
  instances = 0;
  completions = 0;
  deadline_misses = 0;
  total_response_time = 0;
  worst_response_time = 0;
  total_exec_time = 0;
}

unfoldable pub order_broken : Algorithm → Task → Task → Bool
order_broken edf prev t = ltb t.absolute_deadline prev.absolute_deadline
order_broken rms prev t = ltb prev.rms_priority t.rms_priority
order_broken dms prev t = ltb prev.rms_priority t.rms_priority
order_broken llf prev t = false

unfoldable pub in_order : Algorithm → Option Task → Task → Bool
in_order algo none t = true
in_order algo (some prev) t = not (order_broken algo prev t)

-- The loop of realtime_validate, given the previous task.
unfoldable pub validate_walk : Algorithm → (ℕ → Task) → Option Task → List ℕ → Bool
validate_walk algo pool prev [] = true
validate_walk algo pool prev (a ∷ as') =
    in_order algo prev (pool a)
    && is_ready (pool a).state
    && validate_walk algo pool (some (pool a)) as'

module _ {F : Type 0} where
  module _ (floats : Floats F) where
    unfoldable pub add_ratio : Task → F → F
    add_ratio t util =
        if ltb 0 t.params.period
        then floats.plus util (floats.ratio t.params.wcet t.params.period)
        else util

    unfoldable pub sum_ratios : (ℕ → Task) → F → List ℕ → F
    sum_ratios pool util [] = util
    sum_ratios pool util (a ∷ as') = sum_ratios pool (add_ratio (pool a) util) as'

    unfoldable pub realtime_calc_utilization : ℕ → Realtime F → Option (Realtime F)
    realtime_calc_utilization fuel s = do
      tasks ← tasks_from fuel s.task_pool s.all_tasks
      some (record s { utilization = sum_ratios s.task_pool floats.none_used tasks })

    unfoldable pub complete_at : ℕ → Kernel → Option ℕ → Realtime F → Option (Kernel × Realtime F)
    complete_at fuel k none s = some (k, s)
    complete_at fuel k (some a) s =
        realtime_calc_utilization fuel (record (write_task a (complete_fields s.system_time) s) {
          stats = record (s.stats) { total_completions = inc64 s.stats.total_completions };
        })
        >>= λ s1. (remove_ready fuel a (stop_current a s1) >>= λ s2. realtime_schedule fuel k s2)

    unfoldable pub realtime_complete : ℕ → Kernel → ℤ → Realtime F → Option (Kernel × Realtime F)
    realtime_complete fuel k p s = find_task fuel p s >>= λ found. complete_at fuel k found s

  -- The switch of realtime_handle_miss.
  unfoldable pub apply_policy : ℕ → ℕ → MissPolicy → Realtime F → Option (Realtime F)
  apply_policy fuel a skip s = remove_ready fuel a s
  apply_policy fuel a continue s = some s
  apply_policy fuel a abort s = remove_ready fuel a s >>= λ s1. some (stop_current a s1)
  apply_policy fuel a notify s = some s

  unfoldable pub realtime_handle_miss : ℕ → ℕ → Realtime F → Option (Realtime F)
  realtime_handle_miss fuel a s =
      apply_policy fuel a (s.task_pool a).params.miss_policy
        (record (write_task a
          (λ t. record t { state = missed; deadline_misses = inc64 t.deadline_misses }) s) {
            stats = record (s.stats) {
              total_deadline_misses = inc64 s.stats.total_deadline_misses;
            };
          })

  unfoldable pub miss_if_late : ℕ → ℕ → Realtime F → Option (Realtime F)
  miss_if_late fuel a s =
      let t = s.task_pool a in
      if (is_ready t.state || is_running t.state) && realtime_check_deadline s.system_time t
      then realtime_handle_miss fuel a s
      else some s

  -- The loops over all_tasks read the link after the task has been dealt with.
  unfoldable pub deadlines_walk : ℕ → ℕ → Option ℕ → Realtime F → Option (Realtime F)
  deadlines_walk rounds fuel none s = some s
  deadlines_walk zero fuel (some a) s = none
  deadlines_walk (suc rounds) fuel (some a) s =
      miss_if_late fuel a s >>= λ s1. deadlines_walk rounds fuel (s1.task_pool a).next s1

  unfoldable pub realtime_check_deadlines : ℕ → Realtime F → Option (Realtime F)
  realtime_check_deadlines fuel s = deadlines_walk fuel fuel s.all_tasks s

  unfoldable pub release_if_due : ℕ → Kernel → ℕ → Realtime F → Option (Kernel × Realtime F)
  release_if_due fuel k a s =
      let t = s.task_pool a in
      if awaits_release t.state && leb (add64 t.release_time t.params.period) s.system_time
      then realtime_release fuel k a s
      else some (k, s)

  unfoldable pub releases_walk :
      ℕ → ℕ → Kernel → Option ℕ → Realtime F → Option (Kernel × Realtime F)
  releases_walk rounds fuel k none s = some (k, s)
  releases_walk zero fuel k (some a) s = none
  releases_walk (suc rounds) fuel k (some a) s =
      release_if_due fuel k a s >>= λ r. releases_walk rounds fuel r.0 (r.1.task_pool a).next r.1

  unfoldable pub realtime_check_releases : ℕ → Kernel → Realtime F → Option (Kernel × Realtime F)
  realtime_check_releases fuel k s = releases_walk fuel fuel k s.all_tasks s

  -- The laxities and the order of the queue, for the least laxity first algorithm alone.
  unfoldable pub relax : ℕ → Algorithm → Realtime F → Option (Realtime F)
  relax fuel llf s = llf_update_laxity fuel s >>= λ s1. reorder fuel s1
  relax fuel edf s = some s
  relax fuel rms s = some s
  relax fuel dms s = some s

  module _ (floats : Floats F) where
    -- `-` stops at 0, as the guard of the decrement does.
    unfoldable pub tick_task : ℕ → Kernel → Option ℕ → Realtime F → Option (Kernel × Realtime F)
    tick_task fuel k none s = some (k, s)
    tick_task fuel k (some c) s =
        if not (is_running (s.task_pool c).state)
        then some (k, s)
        else let s1 = write_task c use_tick s in
          (if (s1.task_pool c).remaining_time == 0
            then realtime_complete floats fuel k (s1.task_pool c).pid s1
            else some (k, s1))

    unfoldable pub realtime_tick : ℕ → Kernel → Realtime F → Option (Kernel × Realtime F)
    realtime_tick fuel k s =
        let s1 = record s { system_time = inc64 s.system_time } in
        tick_task fuel k s1.current_task s1 >>= λ r.
        (realtime_check_deadlines fuel r.1 >>= λ s2.
        (realtime_check_releases fuel r.0 s2 >>= λ q.
        (relax fuel q.1.current_algo q.1 >>= λ s3. preempt_check fuel q.0 s3)))

  unfoldable pub realtime_reset_stats : ℕ → Realtime F → Option (Realtime F)
  realtime_reset_stats fuel s = do
    tasks ← tasks_from fuel s.task_pool s.all_tasks
    some (record s { stats = zero_stats; task_pool = write_all reset_counts tasks s.task_pool })

  unfoldable pub realtime_validate : ℕ → Realtime F → Option Bool
  realtime_validate fuel s = do
    tasks ← tasks_from fuel s.task_pool s.ready_queue
    some (validate_walk s.current_algo s.task_pool none tasks)

  unfoldable pub realtime_set_time : ℕ → Realtime F → Realtime F
  realtime_set_time time s = record s { system_time = time }
