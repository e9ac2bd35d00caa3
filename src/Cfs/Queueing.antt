-- ===== src/Cfs/Queueing.antt =====
-- cfs.c: tasks that enter and leave the run queue: enqueueing, dequeueing, sleep and wakeup.
use scheduler_module.Base.{
  ℕ, ◌-◌, ◌/◌, ℤ, pos, true, false, not, Option, none, some, List, [], ◌∷◌, ltb, if◌then◌else◌,
  add32, inc32, dec32, sub32, add64,
}
use scheduler_module.Cfs.Weights.{cfs_nice_to_weight, cfs_calc_delta}
use scheduler_module.Cfs.{
  Cfs, write_task, alloc_task, free_task, find_task, insert_task, remove_task,
  cfs_update_min_vruntime, cfs_sched_latency, cfs_place_task,
}
use scheduler_module.Cfs.Tasks.{Task, sub64, is_task}
use scheduler_module.Cfs.Running.{update_current}

-- insert_task(task); nr_running++; load_weight += task->weight;
unfoldable pub add_task : ℕ → Cfs → Cfs
add_task a s =
    let s1 = insert_task a s in
    record s1 {
      nr_running = inc32 s1.nr_running;
      load_weight = add32 s1.load_weight (s1.task_pool a).weight;
    }

-- The fields of a new task.
unfoldable pub new_task : ℤ → ℕ → Task → Task
new_task p least t = record t {
  pid = p;
  nice = pos 0;
  weight = cfs_nice_to_weight (pos 0);
  vruntime = least;
  sum_exec = 0;
}

unfoldable pub enqueue_new : ℤ → List ℕ → Cfs → Cfs
enqueue_new p [] s = s
enqueue_new p (a ∷ rest) s =
    add_task a
      (cfs_place_task a true (write_task a (new_task p s.min_vruntime) (alloc_task a rest s)))

unfoldable pub enqueue_at : ℤ → Option ℕ → Cfs → Cfs
enqueue_at p none s = enqueue_new p s.free_tasks s
enqueue_at p (some a) s = if (s.task_pool a).on_rq then s else add_task a (cfs_place_task a false s)

unfoldable pub cfs_enqueue : ℤ → Cfs → Cfs
cfs_enqueue p s = enqueue_at p (find_task p s) s

-- if (task == cfs_rq.curr) { update_current(); cfs_rq.curr = NULL; }
unfoldable pub leave_current : ℕ → Cfs → Cfs
leave_current a s = if is_task a s.curr then record (update_current s) { curr = none } else s

-- if (task->on_rq) { remove_task(task); nr_running--; load_weight -= task->weight; }
unfoldable pub drop_task : ℕ → Cfs → Cfs
drop_task a s =
    if not (s.task_pool a).on_rq
    then s
    else let s1 = remove_task a s in
      record s1 {
        nr_running = dec32 s1.nr_running;
        load_weight = sub32 s1.load_weight (s1.task_pool a).weight;
      }

unfoldable pub dequeue_at : Option ℕ → Cfs → Cfs
dequeue_at none s = s
dequeue_at (some a) s = cfs_update_min_vruntime (free_task a (drop_task a (leave_current a s)))

unfoldable pub cfs_dequeue : ℤ → Cfs → Cfs
cfs_dequeue p s = dequeue_at (find_task p s) s

unfoldable pub sleep_at : Option ℕ → Cfs → Cfs
sleep_at none s = s
sleep_at (some a) s =
    drop_task a (leave_current a (write_task a (λ t. record t { sleep_start = s.system_clock }) s))

unfoldable pub cfs_sleep : ℤ → Cfs → Cfs
cfs_sleep p s = sleep_at (find_task p s) s

unfoldable pub cfs_sleeper_credit : ℕ → ℕ → Cfs → ℕ
cfs_sleeper_credit a sleep_time s =
    let weight = (s.task_pool a).weight in
    let max_credit = cfs_calc_delta (cfs_sched_latency s / 2) weight in
    let credit = cfs_calc_delta sleep_time weight / 2 in
    if ltb max_credit credit then max_credit else credit

-- if (task->vruntime > credit) task->vruntime -= credit;
unfoldable pub award : ℕ → ℕ → Cfs → Cfs
award a credit s =
    write_task a
      (λ t. record t {
        vruntime = if ltb credit t.vruntime then t.vruntime - credit else t.vruntime;
      })
      s

unfoldable pub wake : ℕ → ℕ → Cfs → Cfs
wake a sleep_time s =
    let s1 = record s {
      stats = record (s.stats) { sleep_time = add64 s.stats.sleep_time sleep_time };
    } in
    let s2 = if ltb 0 sleep_time then award a (cfs_sleeper_credit a sleep_time s1) s1 else s1 in
    add_task a (cfs_place_task a false s2)

unfoldable pub wakeup_at : Option ℕ → Cfs → Cfs
wakeup_at none s = s
wakeup_at (some a) s =
    if (s.task_pool a).on_rq then s else wake a (sub64 s.system_clock (s.task_pool a).sleep_start) s

unfoldable pub cfs_wakeup : ℤ → Cfs → Cfs
cfs_wakeup p s = wakeup_at (find_task p s) s
