-- ===== src/Cfs/Calls.antt =====
-- Sequences of calls of cfs.c from cfs_init on, in any order and with any arguments.
use scheduler_module.Base.{
  ℕ, ◌*◌, ◌≤◌, ℤ, false, Option, none, some, List, [], ◌∷◌, ◌≡◌, refl, sym, ap, ◌∙◌, subst, ◌==◌,
  ltb, leb, inl, inr, Bool-cases, arith, inc64, ◌/◌, ◌%◌, u32_mod,
}
use scheduler_module.Kernel.{Kernel}
use scheduler_module.Cfs.{
  Cfs, cfs_sched_latency, target_latency, max_tasks, write_task, cfs_init, cfs_shutdown,
  cfs_set_nice, cfs_timeslice, at_least_granularity, cfs_update_min_vruntime, min_granularity,
}
use scheduler_module.Cfs.Tasks.{Task, sub64, head_task}
use scheduler_module.Cfs.Running.{
  update_current, move_behind, yield_task, cfs_yield, cfs_preempt, cfs_schedule, end_slice,
  use_slice, check_slice, tick_task, cfs_tick, read_clock, cfs_update_clock, reset_walk,
  cfs_reset_stats, cfs_put_prev_task,
}
use scheduler_module.Cfs.Queueing.{cfs_enqueue, cfs_dequeue, cfs_sleep, cfs_wakeup}
use scheduler_module.Cfs.Timeline.{
  count, write_other, count-free_walk, length-free_walk, length-free_list, count-free_list,
}
use scheduler_module.Cfs.Invariant.{WellFormed}
use scheduler_module.Cfs.Steps.{
  write-WellFormed, write_task-WellFormed, update_min-WellFormed, curr-count,
  update_current-WellFormed, update_current-keeps,
}
use scheduler_module.Cfs.Switching.{put_prev_task-WellFormed, schedule-WellFormed}
use scheduler_module.Cfs.Moves.{sum_weights_bounds, enqueue-WellFormed}
use scheduler_module.Cfs.Leaving.{dequeue-WellFormed, sleep-WellFormed, wakeup-same}
use scheduler_module.Cfs.Nice.{set_nice-WellFormed}

pub init-WellFormed : (s : Cfs) → WellFormed (cfs_init s)
unfolding cfs_init head_task
init-WellFormed s =
    let len = length-free_list max_tasks [] in
    (
      record { order = tt; queued = tt; floor = tt; first = refl },
      record { once = λ a. ground (arith, count-free_list a max_tasks []); off = tt },
      record { listed = omega arith; room = omega arith; low = omega arith; high = omega arith },
    )

shutdown-WellFormed : (s : Cfs) → WellFormed s → WellFormed (cfs_shutdown s)
unfolding cfs_shutdown head_task
shutdown-WellFormed s (t, o, l) =
    let len = length-free_walk s.tasks_timeline s.free_tasks in
    let listed = l.listed in
    let room = l.room in
    (
      record { order = tt; queued = tt; floor = tt; first = refl },
      record {
        once = λ a.
            let once = o.once a in omega (arith, count-free_walk a s.tasks_timeline s.free_tasks);
        off = tt;
      },
      record { listed = omega arith; room = omega arith; low = omega arith; high = omega arith },
    )

pub move_behind-WellFormed :
    (a : ℕ) (l : Option ℕ) (s : Cfs)
    → s.curr ≡ some a
    → WellFormed s
    → WellFormed (move_behind a l s)
unfolding move_behind
move_behind-WellFormed a none s e w = w
move_behind-WellFormed a (some b) s e w =
    write_task-WellFormed a _ s (curr-count a s e w.1) (λ t. refl) w

yield_task-WellFormed :
    (k : Kernel) (c : Option ℕ) (s : Cfs)
    → s.curr ≡ c
    → WellFormed s
    → WellFormed (yield_task k c s).1
unfolding yield_task
yield_task-WellFormed k none s e w = w
yield_task-WellFormed k (some a) s e w = schedule-WellFormed k _ (
    move_behind-WellFormed a _ (update_current s) ((update_current-keeps s).0 ∙ e)
      (update_current-WellFormed s w))

yield-WellFormed : (k : Kernel) (s : Cfs) → WellFormed s → WellFormed (cfs_yield k s).1
unfolding cfs_yield
yield-WellFormed k s w = yield_task-WellFormed k s.curr s refl w

reset_walk-WellFormed :
    (tasks : List ℕ) (s : Cfs)
    → WellFormed s
    → WellFormed (record s { task_pool = reset_walk tasks s.task_pool })
unfolding reset_walk write_task
reset_walk-WellFormed [] s w = w
reset_walk-WellFormed (a ∷ as') s w =
    let reset = λ (x : Task). record x { sum_exec = 0; prev_sum_exec = 0 } in
    reset_walk-WellFormed as' (write_task a reset s) (
      write-WellFormed a reset s
        (write_other a reset s.task_pool s.tasks_timeline (λ t. (refl, refl, refl))) (λ t. refl) w)

-- The total weight is not 0 where a task is counted.
pub timeslice-some :
    (a : ℕ) (s : Cfs)
    → WellFormed s
    → (slice : ℕ) × (cfs_timeslice a s ≡ some slice) × (min_granularity ≤ slice)
unfolding cfs_timeslice at_least_granularity
timeslice-some a s (t, o, l) = elim (Bool-cases (s.nr_running == 0)) [
  | inl e ↦ (target_latency, rw (e, cfs_timeslice) refl, omega arith)
  | inr e ↦
      let bounds = sum_weights_bounds s.task_pool s.tasks_timeline t.queued in
      let low = l.low in
      let busy : (s.load_weight == 0) ≡ false = ground arith in
      (
        at_least_granularity
            (cfs_sched_latency s * (s.task_pool a).weight % u32_mod / s.load_weight),
        rw (e, busy, cfs_timeslice) refl,
        ground arith,
      )
]

use_slice-WellFormed :
    (k : Kernel) (a slice : ℕ) (s : Cfs)
    → count a s.tasks_timeline ≡ 0
    → WellFormed s
    → WellFormed (use_slice k a slice s).1
unfolding use_slice end_slice
use_slice-WellFormed k a slice s c w =
    let over = leb slice (sub64 (s.task_pool a).sum_exec (s.task_pool a).prev_sum_exec) in
    let save = λ (x : Task). record x { prev_sum_exec = x.sum_exec } in
    let w1 =
      schedule-WellFormed k (write_task a save s)
        (write_task-WellFormed a save s c (λ t. refl) w) in
    elim (Bool-cases over) [
      | inr e ↦ rw (e, use_slice) w
      | inl e ↦ elim (Bool-cases (ltb 1 s.nr_running)) [
        | inl f ↦ rw (e, f, use_slice) w1
        | inr f ↦ rw (e, f, use_slice) w
      ]
    ]

tick_task-WellFormed :
    (k : Kernel) (c : Option ℕ) (s : Cfs)
    → s.curr ≡ c
    → WellFormed s
    → (r : Kernel × Cfs) × (tick_task k c s ≡ some r) × WellFormed r.1
unfolding tick_task
tick_task-WellFormed k none s e w = ((k, s), refl, w)
tick_task-WellFormed k (some a) s e w =
    let s1 = update_current s in
    let w1 = update_current-WellFormed s w in
    let (slice, some_slice, more) = timeslice-some a s1 w1 in
    (
      use_slice k a slice s1,
      ap (λ (o : Option ℕ). check_slice k a o s1) some_slice ∙ (unfold check_slice in refl),
      use_slice-WellFormed k a slice s1 (curr-count a s1 ((update_current-keeps s).0 ∙ e) w1.1) w1,
    )

-- The tick never divides by zero.
pub tick-WellFormed :
    (k : Kernel) (s : Cfs)
    → WellFormed s
    → (r : Kernel × Cfs) × (cfs_tick k s ≡ some r) × WellFormed r.1
unfolding cfs_tick read_clock
tick-WellFormed k s w =
    tick_task-WellFormed k s.curr (read_clock (record s { system_clock = inc64 s.system_clock }))
      refl w

-- The calls of the scheduler, with their arguments, except those that take a pointer to a task.
pub data Call : Type 0 where
  init shutdown schedule yield preempt put_prev tick update_min reset_stats : Call
  enqueue dequeue sleep wakeup : ℤ → Call
  set_nice : ℤ → ℤ → Call
  update_clock : ℕ → Call

unfoldable pub call : Call → Kernel × Cfs → Option (Kernel × Cfs)
call shutdown (k, s) = some (k, cfs_shutdown s)
call init (k, s) = some (k, cfs_init s)
call schedule (k, s) = some (cfs_schedule k s)
call yield (k, s) = some (cfs_yield k s)
call preempt (k, s) = some (cfs_preempt k s)
call put_prev (k, s) = some (k, cfs_put_prev_task s)
call tick (k, s) = cfs_tick k s
call update_min (k, s) = some (k, cfs_update_min_vruntime s)
call reset_stats (k, s) = some (k, cfs_reset_stats s)
call (enqueue p) (k, s) = some (k, cfs_enqueue p s)
call (dequeue p) (k, s) = some (k, cfs_dequeue p s)
call (sleep p) (k, s) = some (k, cfs_sleep p s)
call (wakeup p) (k, s) = some (k, cfs_wakeup p s)
call (set_nice p nice) (k, s) = some (k, (cfs_set_nice p nice s).1)
call (update_clock delta) (k, s) = some (k, cfs_update_clock delta s)

call-WellFormed :
    (c : Call) (k : Kernel) (s : Cfs)
    → WellFormed s
    → (r : Kernel × Cfs) × (call c (k, s) ≡ some r) × WellFormed r.1
unfolding call
call-WellFormed init k s w = (_, refl, init-WellFormed s)
call-WellFormed shutdown k s w = (_, refl, shutdown-WellFormed s w)
call-WellFormed schedule k s w = (_, refl, schedule-WellFormed k s w)
call-WellFormed yield k s w = (_, refl, yield-WellFormed k s w)
call-WellFormed preempt k s w = (_, refl, unfold cfs_preempt in schedule-WellFormed k s w)
call-WellFormed put_prev k s w = (_, refl, put_prev_task-WellFormed s w)
call-WellFormed tick k s w = tick-WellFormed k s w
call-WellFormed update_min k s w = (_, refl, update_min-WellFormed s w)
call-WellFormed reset_stats k s w =
    (_, refl, unfold cfs_reset_stats in reset_walk-WellFormed s.tasks_timeline s w)
call-WellFormed (enqueue p) k s w = (_, refl, enqueue-WellFormed p s w)
call-WellFormed (dequeue p) k s w = (_, refl, dequeue-WellFormed p s w)
call-WellFormed (sleep p) k s w = (_, refl, sleep-WellFormed p s w)
call-WellFormed (wakeup p) k s w = (_, refl, subst WellFormed (sym (wakeup-same p s w)) w)
call-WellFormed (set_nice p nice) k s w = (_, refl, set_nice-WellFormed p nice s w)
call-WellFormed (update_clock delta) k s w = (_, refl, unfold cfs_update_clock in w)

-- The calls one after another, until one traps.
unfoldable pub run : List Call → Kernel × Cfs → Option (Kernel × Cfs)
run [] r = some r
run (c ∷ cs) r = elim (call c r) [ none ↦ none | some r' ↦ run cs r' ]

run-WellFormed :
    (cs : List Call) (r : Kernel × Cfs)
    → WellFormed r.1
    → (q : Kernel × Cfs) × (run cs r ≡ some q) × WellFormed q.1
unfolding run
run-WellFormed [] r w = (r, refl, w)
run-WellFormed (c ∷ cs) (k, s) w =
    let (r, e, w1) = call-WellFormed c k s w in
    let (q, f, w2) = run-WellFormed cs r w1 in (q, rw (e, run) f, w2)

-- After cfs_init any calls of the functions that change the state and take no pointer to a task
-- return (cfs_set_curr_task, cfs_place_task and cfs_update_vruntime take one): no tick divides by
-- a load_weight of 0. The run queue is well formed then: the timeline is in order of vruntime with
-- leftmost its head and no task below min_vruntime, each of its tasks is on_rq with a weight from
-- 15 to 88761, no task is twice among the queued, the free and the running ones, the running one
-- is not on_rq, nr_running is at least the length of the timeline, and nr_running and the free
-- tasks are at most CFS_MAX_TASKS together.
pub run-init-total :
    (cs : List Call) (k : Kernel) (s : Cfs)
    → (q : Kernel × Cfs) × (run cs (k, cfs_init s) ≡ some q) × WellFormed q.1
run-init-total cs k s = run-WellFormed cs (k, cfs_init s) (init-WellFormed s)
