-- ===== src/Cfs/Switching.antt =====
-- Putting the running task back and starting the next one keep the run queue of cfs.c well formed.
use scheduler_module.Base.{
  ℕ, ◌≤◌, false, Option, none, some, List, [], ◌∷◌, ◌≡◌, refl, sym, ap, ◌∙◌, subst, arith, eqz_iff,
}
use scheduler_module.Kernel.{Kernel}
use scheduler_module.Cfs.{Cfs, write_task, unlink_task, remove_task}
use scheduler_module.Cfs.Tasks.{Task, write, head_task}
use scheduler_module.Cfs.Running.{
  update_task, update_current, put_task, put_prev, cfs_put_prev_task, cfs_set_curr_task, pid_of,
  switch_task, run_task, read_clock, cfs_schedule, cfs_pick_next_task,
}
use scheduler_module.Cfs.Timeline.{count, holds, write_off, write_self, All-count, IsQueued}
use scheduler_module.Cfs.Invariant.{
  IsOff, Owned, Load, WellFormed, Same-IsTimeline, Same-IsLoad, remove-unlink, unlink-count,
  unlink_task-Timeline, unlink_task-sums, unlink_task-once,
}
use scheduler_module.Cfs.Steps.{update_current-WellFormed, update_current-keeps, stop-WellFormed}

-- The running task is off the queue, so it is not inserted.
put_task-off : (a : ℕ) (s : Cfs) → s.curr ≡ some a → Owned s → put_task a s ≡ s
unfolding put_task
put_task-off a s e o =
    let off : (s.task_pool a).on_rq ≡ false = subst (IsOff s.task_pool) e o.off in
    rw (off, put_task) refl

-- The running task is put back nowhere.
put_prev-stops :
    (c : Option ℕ) (s : Cfs)
    → s.curr ≡ c
    → WellFormed s
    → put_prev c s ≡ record (update_current s) { curr = none }
unfolding put_prev
put_prev-stops none s e w =
    ap (λ (c : Option ℕ). record s { curr = c }) e
    ∙ ap (λ (t : Cfs). record t { curr = none }) (sym (update_none s e))
  where
    update_none : (s : Cfs) → s.curr ≡ none → update_current s ≡ s
    update_none s e = unfold update_current update_task in ap (λ c. update_task c s) e
put_prev-stops (some a) s e w =
    ap (λ (t : Cfs). record t { curr = none })
      (put_task-off a (update_current s) ((update_current-keeps s).0 ∙ e)
        (update_current-WellFormed s w).1)

pub put_prev_task-stops :
    (s : Cfs) → WellFormed s → cfs_put_prev_task s ≡ record (update_current s) { curr = none }
unfolding cfs_put_prev_task
put_prev_task-stops s w = put_prev-stops s.curr s refl w

pub put_prev_task-WellFormed : (s : Cfs) → WellFormed s → WellFormed (cfs_put_prev_task s)
put_prev_task-WellFormed s w =
    subst WellFormed (sym (put_prev_task-stops s w))
      (stop-WellFormed (update_current s) (update_current-WellFormed s w))

-- The pid of curr is that of the task that was just made curr, so no switch is seen.
pub switch_task-same : (k : Kernel) (a : ℕ) (s : Cfs) → s.curr ≡ some a → switch_task k a s ≡ (k, s)
unfolding switch_task pid_of
switch_task-same k a s e =
    let same = (eqz_iff (s.task_pool a).pid (s.task_pool a).pid).1 refl in
    rw (e, switch_task, pid_of, same) refl

pub run_task-some :
    (k : Kernel) (a : ℕ) (s : Cfs)
    → run_task k (some a) s ≡ (k, cfs_set_curr_task a (remove_task a s))
unfolding run_task cfs_set_curr_task
run_task-some k a s = switch_task-same k a (cfs_set_curr_task a (remove_task a s)) refl

-- The task that has left stays counted.
unlink_task-Load :
    (a : ℕ) (s : Cfs) → WellFormed s → 1 ≤ count a s.tasks_timeline → Load (unlink_task a s)
unfolding unlink_task
unlink_task-Load a s (t, o, l) here =
    let bounds = All-count s.task_pool (IsQueued s.task_pool) s.tasks_timeline a t.queued here in
    let sums = unlink_task-sums a s t o here in
    let listed = l.listed in
    let low = l.low in
    let high = l.high in
    record { listed = omega arith; room = l.room; low = omega arith; high = omega arith }

-- A task of the timeline starts to run.
set_curr-WellFormed :
    (a : ℕ) (s : Cfs)
    → s.curr ≡ none
    → 1 ≤ count a s.tasks_timeline
    → WellFormed s
    → WellFormed (cfs_set_curr_task a (unlink_task a s))
unfolding cfs_set_curr_task write_task unlink_task
set_curr-WellFormed a s e here (t, o, l) =
    let s1 = unlink_task a s in
    let start = λ (x : Task). record x { exec_start = s.clock_task } in
    let pool = write a start s1.task_pool in
    let tasks = s1.tasks_timeline in
    let same = write_off a start s1.task_pool tasks (unlink-count a s t o here) in
    let off : (pool a).on_rq ≡ false =
      ap (λ (x : Task). x.on_rq) (write_self a start s1.task_pool)
      ∙ ap (λ (x : Task). x.on_rq)
          (write_self a (λ (x : Task). record x { on_rq = false }) s.task_pool) in
    (
      Same-IsTimeline s1.task_pool pool tasks same (unlink_task-Timeline a s t o here),
      record {
        once = λ b.
            let once = unlink_task-once a s t o here b in
            let none_held : holds b s.curr ≡ 0 = rw e (ground arith) in omega arith;
        off = off;
      },
      Same-IsLoad s1.task_pool pool tasks same (unlink_task-Load a s (t, o, l) here),
    )

pub head-count : (a : ℕ) (tasks : List ℕ) → head_task tasks ≡ some a → 1 ≤ count a tasks
unfolding head_task
head-count a [] h = ground arith
head-count a (x ∷ xs) h = ground arith

run_task-WellFormed :
    (k : Kernel) (next : Option ℕ) (s : Cfs)
    → s.curr ≡ none
    → s.leftmost ≡ next
    → WellFormed s
    → WellFormed (run_task k next s).1
unfolding run_task
run_task-WellFormed k none s e n w = w
run_task-WellFormed k (some a) s e n w =
    let here = head-count a s.tasks_timeline (sym w.0.first ∙ n) in
    rw (run_task-some k a s, remove-unlink a s w.0 w.1 here) (set_curr-WellFormed a s e here w)

pub schedule-WellFormed : (k : Kernel) (s : Cfs) → WellFormed s → WellFormed (cfs_schedule k s).1
unfolding cfs_schedule cfs_pick_next_task read_clock
schedule-WellFormed k s w =
    let s0 = update_current (read_clock s) in
    let w0 : WellFormed s0 = update_current-WellFormed (read_clock s) w in
    run_task-WellFormed k _ (cfs_put_prev_task s0)
      (ap (λ (t : Cfs). t.curr) (put_prev_task-stops s0 w0)) refl (put_prev_task-WellFormed s0 w0)
