-- ===== src/Realtime.antt =====
-- realtime.c: the state, the lists and the four algorithms. `fuel` is that of the walks. Doubles are
-- an interface, those of the tests of schedulability in Realtime.Schedulability.
pub mod Tasks
pub mod Priorities
pub mod Running
pub mod Timing
pub mod Chain
pub mod Order
pub mod Cycles
pub mod Response
pub mod Schedulability
pub mod Bounds
pub mod Sorting
pub mod Numbers
pub mod Laxity
pub mod Differences
pub mod Writes
pub mod Urgency
pub mod Places
pub mod Dispatch
mod Tests
use scheduler_module.Base.{
  ℕ, zero, suc, ◌+◌, ◌-◌, ◌%◌, ◌^◌, ℤ, pos, negsuc, minus_one, eqz, Bool, true, false, not, Option,
  none, some, List, [], ◌∷◌, ltb, leb, ◌==◌, if◌then◌else◌, is_some, inc32, dec32, inc64, add64,
  u64_mod,
}
use scheduler_module.Kernel.{Kernel, context_switch}
use Tasks.{
  Algorithm, edf, rms, dms, llf, Params, Task, zero_task, max_tasks, ready, running, inactive,
  is_running, write, set_next, is_task, find_walk, insert_walk, prev_walk, tasks_from, tasks_up_to,
  write_all, set_laxity, same_algorithm, least_laxity,
}
use Priorities.{assign_by, period_of, deadline_of}

pub record RtStats : Type 0 where
  pub total_releases : ℕ
  pub total_completions : ℕ
  pub total_deadline_misses : ℕ
  pub preemptions : ℕ
  pub context_switches : ℕ

-- The doubles of `stats`, of the type `F`, and what is tested on them are kept apart.
pub record Realtime (F : Type 0) : Type 0 where
  pub task_pool : ℕ → Task
  pub free_tasks : Option ℕ
  pub ready_queue : Option ℕ
  pub current_task : Option ℕ
  pub task_count : ℕ
  pub current_algo : Algorithm
  pub system_time : ℕ
  pub stats : RtStats
  pub utilization : F
  pub schedulability_bound : F
  pub schedulable : Bool
  pub all_tasks : Option ℕ

-- 0.0, x + y, and (double)wcet / period.
pub record Floats (F : Type 0) : Type 0 where
  pub none_used : F
  pub plus : F → F → F
  pub ratio : ℕ → ℕ → F

infixl 5 ◌>>=◌
abbrev pub ◌>>=◌ {ℓ κ} : {A : Type ℓ} {B : Type κ} → Option A → (A → Option B) → Option B
none >>= f = none
some a >>= f = f a

abbrev pub zero_stats : RtStats
zero_stats = record {
  total_releases = 0;
  total_completions = 0;
  total_deadline_misses = 0;
  preemptions = 0;
  context_switches = 0;
}

-- The loop of realtime_init links the tasks n - 1 to 0 in front of a list.
unfoldable pub link_free : ℕ → Option ℕ → (ℕ → Task) → (ℕ → Task) × Option ℕ
link_free zero free pool = (pool, free)
link_free (suc n) free pool = link_free n (some n) (set_next n free pool)

module _ {F : Type 0} where
  unfoldable pub write_task : ℕ → (Task → Task) → Realtime F → Realtime F
  write_task a f s = record s { task_pool = write a f s.task_pool }

  unfoldable pub realtime_init : F → Realtime F → Realtime F
  realtime_init zero_float s =
      let (pool, free) = link_free max_tasks none s.task_pool in
      record {
        task_pool = pool;
        free_tasks = free;
        ready_queue = none;
        current_task = none;
        task_count = 0;
        current_algo = edf;
        system_time = 0;
        stats = zero_stats;
        utilization = zero_float;
        schedulability_bound = zero_float;
        schedulable = false;
        all_tasks = none;
      }

  unfoldable pub free_task : ℕ → Realtime F → Realtime F
  free_task a s = record s { task_pool = set_next a s.free_tasks s.task_pool; free_tasks = some a }

  -- The loop of realtime_shutdown: the link is read before the task is freed.
  unfoldable pub free_walk : ℕ → Option ℕ → Realtime F → Option (Realtime F)
  free_walk fuel none s = some s
  free_walk zero (some a) s = none
  free_walk (suc fuel) (some a) s = free_walk fuel (s.task_pool a).next (free_task a s)

  unfoldable pub realtime_shutdown : ℕ → Realtime F → Option (Realtime F)
  realtime_shutdown fuel s = do
    s1 ← free_walk fuel s.all_tasks s
    some (record s1 { ready_queue = none; all_tasks = none; current_task = none; task_count = 0 })

  unfoldable pub find_task : ℕ → ℤ → Realtime F → Option (Option ℕ)
  find_task fuel p s = find_walk fuel s.task_pool p s.all_tasks

  -- The task is linked behind `prev`, or in front.
  unfoldable pub link_ready : ℕ → Option ℕ → Realtime F → Realtime F
  link_ready a none s = record s {
    task_pool = set_next a s.ready_queue s.task_pool;
    ready_queue = some a;
  }
  link_ready a (some p) s = record s {
    task_pool = set_next p (some a) (set_next a (s.task_pool p).next s.task_pool);
  }

  -- With an empty queue the walk returns no predecessor, and the link is NULL.
  unfoldable pub insert_ready : ℕ → ℕ → Realtime F → Option (Realtime F)
  insert_ready fuel a s = do
    let s1 = write_task a (λ t. record t { state = ready }) s
    prev ← insert_walk fuel s1.current_algo s1.task_pool (s1.task_pool a) none s1.ready_queue
    some (link_ready a prev s1)

  -- if (prev->next == task) { prev->next = task->next; task->next = NULL; }
  unfoldable pub cut_ready : ℕ → ℕ → Realtime F → Realtime F
  cut_ready a prev s =
      if is_task a (s.task_pool prev).next
      then record s { task_pool = set_next a none (set_next prev (s.task_pool a).next s.task_pool) }
      else s

  unfoldable pub remove_from : ℕ → ℕ → Option ℕ → Realtime F → Option (Realtime F)
  remove_from fuel a none s = some s
  remove_from fuel a (some h) s =
      if a == h
      then some
          (record s { ready_queue = (s.task_pool a).next; task_pool = set_next a none s.task_pool })
      else prev_walk fuel s.task_pool a h (s.task_pool h).next >>= λ prev. some (cut_ready a prev s)

  unfoldable pub remove_ready : ℕ → ℕ → Realtime F → Option (Realtime F)
  remove_ready fuel a s = remove_from fuel a s.ready_queue s

  unfoldable pub llf_update_laxity : ℕ → Realtime F → Option (Realtime F)
  llf_update_laxity fuel s = do
    tasks ← tasks_from fuel s.task_pool s.all_tasks
    some (record s { task_pool = write_all (set_laxity s.system_time) tasks s.task_pool })

  unfoldable pub rms_assign_priorities : Realtime F → Realtime F
  rms_assign_priorities s = record s {
    task_pool = assign_by period_of (tasks_up_to max_tasks s.task_pool s.all_tasks) s.task_pool;
  }

  unfoldable pub dms_assign_priorities : Realtime F → Realtime F
  dms_assign_priorities s = record s {
    task_pool = assign_by deadline_of (tasks_up_to max_tasks s.task_pool s.all_tasks) s.task_pool;
  }

  -- The switch of realtime_set_algorithm.
  unfoldable pub assign_for : ℕ → Algorithm → Realtime F → Option (Realtime F)
  assign_for fuel edf s = some s
  assign_for fuel rms s = some (rms_assign_priorities s)
  assign_for fuel dms s = some (dms_assign_priorities s)
  assign_for fuel llf s = llf_update_laxity fuel s

  -- while (old_queue != NULL): each task is taken off and inserted anew.
  unfoldable pub reinsert_walk : ℕ → ℕ → Option ℕ → Realtime F → Option (Realtime F)
  reinsert_walk rounds fuel none s = some s
  reinsert_walk zero fuel (some a) s = none
  reinsert_walk (suc rounds) fuel (some a) s =
      insert_ready fuel a (record s { task_pool = set_next a none s.task_pool }) >>= λ s1.
      reinsert_walk rounds fuel (s.task_pool a).next s1

  unfoldable pub reorder : ℕ → Realtime F → Option (Realtime F)
  reorder fuel s = reinsert_walk fuel fuel s.ready_queue (record s { ready_queue = none })

  unfoldable pub realtime_set_algorithm : ℕ → Algorithm → Realtime F → Option (Realtime F)
  realtime_set_algorithm fuel algo s =
      if same_algorithm algo s.current_algo
      then some s
      else assign_for fuel algo (record s { current_algo = algo }) >>= λ s1. reorder fuel s1

  unfoldable pub llf_pick_next : ℕ → Realtime F → Option (Option ℕ × Realtime F)
  llf_pick_next fuel s = do
    s1 ← llf_update_laxity fuel s
    tasks ← tasks_from fuel s1.task_pool s1.ready_queue
    some (least_laxity s1.task_pool none (pos (2 ^ 63 - 1)) tasks, s1)

  -- edf_pick_next, rms_pick_next and dms_pick_next return the head.
  unfoldable pub pick_next : ℕ → Algorithm → Realtime F → Option (Option ℕ × Realtime F)
  pick_next fuel llf s = llf_pick_next fuel s
  pick_next fuel edf s = some (s.ready_queue, s)
  pick_next fuel rms s = some (s.ready_queue, s)
  pick_next fuel dms s = some (s.ready_queue, s)

  unfoldable pub pid_of : Option ℕ → Realtime F → ℤ
  pid_of none s = minus_one
  pid_of (some a) s = (s.task_pool a).pid

  unfoldable pub count_preemption : Realtime F → Realtime F
  count_preemption s = record s {
    stats = record (s.stats) { preemptions = inc64 s.stats.preemptions };
  }

  -- A running current_task goes back to the ready queue.
  unfoldable pub put_back : ℕ → Option ℕ → Realtime F → Option (Realtime F)
  put_back fuel none s = some s
  put_back fuel (some c) s =
      if is_running (s.task_pool c).state
      then (insert_ready fuel c s >>= λ s1. some (count_preemption s1))
      else some s

  unfoldable pub start_task : ℕ → Realtime F → Realtime F
  start_task a s = record s {
    current_task = some a;
    task_pool = write a (λ t. record t { state = running; start_time = s.system_time }) s.task_pool;
    stats = record (s.stats) { context_switches = inc64 s.stats.context_switches };
  }

  unfoldable pub switch_to : ℕ → Kernel → ℕ → Realtime F → Option (Kernel × Realtime F)
  switch_to fuel k next s =
      if is_task next s.current_task
      then some (k, s)
      else put_back fuel s.current_task s >>= λ s1.
          some
            (context_switch k (pid_of s.current_task s) (s.task_pool next).pid, start_task next s1)

  unfoldable pub run_next : ℕ → Kernel → Option ℕ → Realtime F → Option (Kernel × Realtime F)
  run_next fuel k none s = some (k, record s { current_task = none })
  run_next fuel k (some next) s = remove_ready fuel next s >>= λ s1. switch_to fuel k next s1

  unfoldable pub realtime_schedule : ℕ → Kernel → Realtime F → Option (Kernel × Realtime F)
  realtime_schedule fuel k s = pick_next fuel s.current_algo s >>= λ r. run_next fuel k r.0 r.1
