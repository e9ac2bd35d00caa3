-- ===== src/Realtime/Running.antt =====
-- realtime.c: yielding, preemption, releases, and the creation and the removal of tasks.
use scheduler_module.Base.{
  ℕ, ◌+◌, ◌-◌, ℤ, pos, minus_one, Bool, true, false, ◌||◌, Option, none, some, ltb, ◌==◌,
  if◌then◌else◌, is_some, inc32, dec32, inc64, add64, u64_mod, ◌%◌,
}
use scheduler_module.Kernel.{Kernel}
use scheduler_module.Realtime.Tasks.{
  Algorithm, edf, rms, dms, llf, Params, Task, zero_task, default_params, ready, inactive, is_ready,
  is_running, signed_sub, goes_before, write, set_next, is_task, prev_walk,
}
use scheduler_module.Realtime.{
  Realtime, ◌>>=◌, write_task, free_task, find_task, insert_ready, remove_ready, llf_update_laxity,
  rms_assign_priorities, dms_assign_priorities, realtime_schedule,
}

-- a - b on 64 bits.
abbrev pub sub64 : ℕ → ℕ → ℕ
sub64 a b = (a + u64_mod - b) % u64_mod

-- elapsed off remaining_time, at least 0; the task is READY.
unfoldable pub use_time : ℕ → Task → Task
use_time time t =
    let elapsed = sub64 time t.start_time in
    record t {
      remaining_time = if ltb elapsed t.remaining_time then t.remaining_time - elapsed else 0;
      state = ready;
    }

unfoldable pub release_fields : Algorithm → ℕ → Task → Task
release_fields algo time t = record t {
  release_time = time;
  absolute_deadline = add64 time t.params.deadline;
  remaining_time = t.params.wcet;
  state = ready;
  instances = inc64 t.instances;
  laxity = elim algo [ llf ↦ signed_sub t.params.deadline t.params.wcet | _ ↦ t.laxity ];
}

-- The fields of a new task, after memset.
unfoldable pub new_task : ℤ → Params → Option ℕ → Task → Task
new_task p params all_tasks t = record zero_task {
  pid = p;
  params = params;
  state = inactive;
  remaining_time = params.wcet;
  next = all_tasks;
}

unfoldable pub get_params_at : Option ℕ → Option Params → ℤ × Option Params
get_params_at none params = (minus_one, params)
get_params_at (some a) none = (minus_one, none)
get_params_at (some a) (some params) = (pos 0, some params)

module _ {F : Type 0} where
  unfoldable pub stop_current : ℕ → Realtime F → Realtime F
  stop_current a s = if is_task a s.current_task then record s { current_task = none } else s

  unfoldable pub yield_from : ℕ → Option ℕ → Realtime F → Option (Realtime F)
  yield_from fuel none s = some s
  yield_from fuel (some c) s = do
    s1 ← insert_ready fuel c (write_task c (use_time s.system_time) s)
    some (record s1 { current_task = none })

  unfoldable pub realtime_yield : ℕ → Kernel → Realtime F → Option (Kernel × Realtime F)
  realtime_yield fuel k s = yield_from fuel s.current_task s >>= λ s1. realtime_schedule fuel k s1

  unfoldable pub realtime_preempt : ℕ → Kernel → Realtime F → Option (Kernel × Realtime F)
  realtime_preempt fuel k s = realtime_schedule fuel k s

  -- llf_update_laxity(), for the least laxity first algorithm alone.
  unfoldable pub refresh : ℕ → Algorithm → Realtime F → Option (Realtime F)
  refresh fuel llf s = llf_update_laxity fuel s
  refresh fuel edf s = some s
  refresh fuel rms s = some s
  refresh fuel dms s = some s

  unfoldable pub preempt_test : ℕ → Option ℕ → Option ℕ → Realtime F → Option (Bool × Realtime F)
  preempt_test fuel none r s = some (is_some r, s)
  preempt_test fuel (some c) none s = some (false, s)
  preempt_test fuel (some c) (some h) s = do
    s1 ← refresh fuel s.current_algo s
    some (goes_before s.current_algo (s1.task_pool h) (s1.task_pool c), s1)

  unfoldable pub realtime_check_preempt : ℕ → Realtime F → Option (Bool × Realtime F)
  realtime_check_preempt fuel s = preempt_test fuel s.current_task s.ready_queue s

  -- if (realtime_check_preempt()) realtime_schedule();
  unfoldable pub schedule_if : ℕ → Kernel → Bool × Realtime F → Option (Kernel × Realtime F)
  schedule_if fuel k (true, s) = realtime_schedule fuel k s
  schedule_if fuel k (false, s) = some (k, s)

  unfoldable pub preempt_check : ℕ → Kernel → Realtime F → Option (Kernel × Realtime F)
  preempt_check fuel k s = realtime_check_preempt fuel s >>= λ r. schedule_if fuel k r

  unfoldable pub realtime_release : ℕ → Kernel → ℕ → Realtime F → Option (Kernel × Realtime F)
  realtime_release fuel k a s =
      insert_ready fuel a (write_task a (release_fields s.current_algo s.system_time) s) >>= λ s1.
      preempt_check fuel k
        (record s1 { stats = record (s1.stats) { total_releases = inc64 s1.stats.total_releases } })

  unfoldable pub assign_new : ℕ → Algorithm → Realtime F → Realtime F
  assign_new a rms s = rms_assign_priorities s
  assign_new a dms s = dms_assign_priorities s
  assign_new a edf s = write_task a (λ t. record t { rms_priority = 1 }) s
  assign_new a llf s = write_task a (λ t. record t { rms_priority = 1 }) s

  unfoldable pub create_at : ℤ → Params → Option ℕ → Realtime F → ℤ × Realtime F
  create_at p params none s = (minus_one, s)
  create_at p params (some a) s = (
    pos 0,
    assign_new a s.current_algo (record s {
      free_tasks = (s.task_pool a).next;
      task_pool = write a (new_task p params s.all_tasks) s.task_pool;
      all_tasks = some a;
      task_count = inc32 s.task_count;
    }),
  )

  unfoldable pub create_new : ℤ → Params → Option ℕ → Realtime F → ℤ × Realtime F
  create_new p params none s = create_at p params s.free_tasks s
  create_new p params (some a) s = (minus_one, s)

  -- `params` is NULL for `none`.
  unfoldable pub realtime_create_task : ℕ → ℤ → Option Params → Realtime F → Option (ℤ × Realtime F)
  realtime_create_task fuel p none s = some (minus_one, s)
  realtime_create_task fuel p (some params) s = do
    found ← find_task fuel p s
    some (create_new p params found s)

  unfoldable pub release_idle : ℕ → Kernel → Option ℕ → Realtime F → Option (Kernel × Realtime F)
  release_idle fuel k none s = some (k, s)
  release_idle fuel k (some a) s =
      if is_ready (s.task_pool a).state || is_running (s.task_pool a).state
      then some (k, s)
      else realtime_release fuel k a s

  unfoldable pub create_missing : ℕ → ℤ → Option ℕ → Realtime F → Option (Option ℕ × Realtime F)
  create_missing fuel p (some a) s = some (some a, s)
  create_missing fuel p none s = realtime_create_task fuel p (some default_params) s >>= λ r.
      (find_task fuel p r.1 >>= λ found. some (found, r.1))

  unfoldable pub realtime_enqueue : ℕ → Kernel → ℤ → Realtime F → Option (Kernel × Realtime F)
  realtime_enqueue fuel k p s = find_task fuel p s >>= λ found.
      (create_missing fuel p found s >>= λ r. release_idle fuel k r.0 r.1)

  -- if (prev != NULL) prev->next = task->next; the walk ends at the last task where it finds none.
  unfoldable pub cut_all : ℕ → ℕ → Realtime F → Realtime F
  cut_all a prev s =
      if is_task a (s.task_pool prev).next
      then record s { task_pool = set_next prev (s.task_pool a).next s.task_pool }
      else s

  unfoldable pub unlink_all : ℕ → ℕ → Option ℕ → Realtime F → Option (Realtime F)
  unlink_all fuel a none s = some s
  unlink_all fuel a (some h) s =
      if a == h
      then some (record s { all_tasks = (s.task_pool a).next })
      else prev_walk fuel s.task_pool a h (s.task_pool h).next >>= λ prev. some (cut_all a prev s)

  unfoldable pub dequeue_at : ℕ → Option ℕ → Realtime F → Option (Realtime F)
  dequeue_at fuel none s = some s
  dequeue_at fuel (some a) s = remove_ready fuel a s >>= λ s1.
      (unlink_all fuel a s1.all_tasks s1 >>= λ s2.
      (let s3 = stop_current a s2 in
        some (free_task a (record s3 { task_count = dec32 s3.task_count }))))

  unfoldable pub realtime_dequeue : ℕ → ℤ → Realtime F → Option (Realtime F)
  realtime_dequeue fuel p s = find_task fuel p s >>= λ found. dequeue_at fuel found s

  unfoldable pub reassign : Algorithm → Realtime F → Realtime F
  reassign rms s = rms_assign_priorities s
  reassign dms s = dms_assign_priorities s
  reassign edf s = s
  reassign llf s = s

  unfoldable pub set_params_at : Option ℕ → Option Params → Realtime F → ℤ × Realtime F
  set_params_at none params s = (minus_one, s)
  set_params_at (some a) none s = (minus_one, s)
  set_params_at (some a) (some params) s =
      (pos 0, reassign s.current_algo (write_task a (λ t. record t { params = params }) s))

  unfoldable pub realtime_set_params : ℕ → ℤ → Option Params → Realtime F → Option (ℤ × Realtime F)
  realtime_set_params fuel p params s =
      find_task fuel p s >>= λ found. some (set_params_at found params s)

  -- The result, and what `*params` holds afterwards.
  unfoldable pub realtime_get_params :
      ℕ → ℤ → Option Params → Realtime F → Option (ℤ × Option Params)
  realtime_get_params fuel p params s =
      find_task fuel p s >>= λ found. some (get_params_at found params)
