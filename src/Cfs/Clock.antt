-- ===== src/Cfs/Clock.antt =====
-- min_vruntime of cfs.c never goes back.
use scheduler_module.Base.{
  ℕ, ◌≤◌, ℤ, Bool, true, false, Option, none, some, List, [], ◌∷◌, ◌≡◌, refl, ap, ◌∙◌, arith, inc64,
}
use scheduler_module.Kernel.{Kernel}
use scheduler_module.Cfs.Weights.{clamp_nice, max64}
use scheduler_module.Cfs.{
  Cfs, write_task, alloc_task, free_task, find_task, insert_task, remove_task, unlink_task,
  set_weight, move_task, set_nice_at, cfs_set_nice, cfs_update_vruntime, cfs_update_min_vruntime,
  cfs_place_task, cfs_timeslice,
}
use scheduler_module.Cfs.Tasks.{Task, sub64}
use scheduler_module.Cfs.Running.{
  account, update_task, update_current, put_task, put_prev, cfs_put_prev_task, cfs_set_curr_task,
  run_task, read_clock, cfs_schedule, cfs_pick_next_task, move_behind, yield_task, cfs_yield,
  cfs_preempt, end_slice, use_slice, check_slice, tick_task, cfs_tick, cfs_update_clock,
  cfs_reset_stats,
}
use scheduler_module.Cfs.Queueing.{
  add_task, enqueue_new, enqueue_at, cfs_enqueue, leave_current, drop_task, dequeue_at, cfs_dequeue,
  sleep_at, cfs_sleep, award, wake, wakeup_at, cfs_wakeup,
}
use scheduler_module.Cfs.Switching.{run_task-some}
use scheduler_module.Cfs.Calls.{Call, call}

-- The minimum of the second state is not below that of the first.
abbrev Advances : Cfs → Cfs → Type 0
Advances s t = s.min_vruntime ≤ t.min_vruntime

update_min-Advances : (s : Cfs) → Advances s (cfs_update_min_vruntime s)
unfolding cfs_update_min_vruntime max64
update_min-Advances s = ground arith

update_task-Advances : (c : Option ℕ) (s : Cfs) → Advances s (update_task c s)
unfolding update_task account cfs_update_vruntime write_task
update_task-Advances none s = omega arith
update_task-Advances (some a) s =
    let d = sub64 s.clock_task (s.task_pool a).exec_start in
    let s1 =
      write_task a (λ (t : Task). record t { exec_start = s.clock_task })
        (cfs_update_vruntime a d s) in
    ground (arith, update_min-Advances s1)

update_current-Advances : (s : Cfs) → Advances s (update_current s)
unfolding update_current
update_current-Advances s = update_task-Advances s.curr s

-- Insertions and removals leave the minimum alone.
remove_task-min : (a : ℕ) (s : Cfs) → (remove_task a s).min_vruntime ≡ s.min_vruntime
unfolding remove_task unlink_task
remove_task-min a s = ground arith

put_task-min : (a : ℕ) (s : Cfs) → (put_task a s).min_vruntime ≡ s.min_vruntime
unfolding put_task insert_task
put_task-min a s = ground (arith, remove_task-min a s)

add_task-min : (a : ℕ) (s : Cfs) → (add_task a s).min_vruntime ≡ s.min_vruntime
unfolding add_task insert_task
add_task-min a s = refl

drop_task-min : (a : ℕ) (s : Cfs) → (drop_task a s).min_vruntime ≡ s.min_vruntime
unfolding drop_task
drop_task-min a s = ground (arith, remove_task-min a s)

put_prev-Advances : (c : Option ℕ) (s : Cfs) → Advances s (put_prev c s)
unfolding put_prev
put_prev-Advances none s = omega arith
put_prev-Advances (some a) s =
    omega (arith, put_task-min a (update_current s), update_current-Advances s)

run_task-min :
    (k : Kernel) (next : Option ℕ) (s : Cfs) → (run_task k next s).1.min_vruntime ≡ s.min_vruntime
run_task-min k none s = unfold run_task in refl
run_task-min k (some a) s =
    ap (λ (r : Kernel × Cfs). r.1.min_vruntime) (run_task-some k a s)
    ∙ (unfold cfs_set_curr_task write_task in remove_task-min a s)

schedule-Advances : (k : Kernel) (s : Cfs) → Advances s (cfs_schedule k s).1
unfolding cfs_schedule cfs_put_prev_task read_clock
schedule-Advances k s =
    let s1 = update_current (read_clock s) in
    let s2 = cfs_put_prev_task s1 in
    omega (
      arith,
      update_current-Advances (read_clock s),
      put_prev-Advances s1.curr s1,
      run_task-min k (cfs_pick_next_task s2) s2,
    )

yield_task-Advances : (k : Kernel) (c : Option ℕ) (s : Cfs) → Advances s (yield_task k c s).1
unfolding yield_task
yield_task-Advances k none s = omega arith
yield_task-Advances k (some a) s =
    let s1 = update_current s in
    omega (
      arith,
      update_current-Advances s,
      move_behind-min a s1.leftmost s1,
      schedule-Advances k (move_behind a s1.leftmost s1),
    )
  where
    move_behind-min :
        (a : ℕ) (l : Option ℕ) (s : Cfs) → (move_behind a l s).min_vruntime ≡ s.min_vruntime
    move_behind-min a none s = unfold move_behind in refl
    move_behind-min a (some b) s = unfold move_behind write_task in refl

enqueue_new-min :
    (p : ℤ) (free : List ℕ) (s : Cfs) → (enqueue_new p free s).min_vruntime ≡ s.min_vruntime
unfolding enqueue_new cfs_place_task write_task alloc_task
enqueue_new-min p [] s = refl
enqueue_new-min p (a ∷ rest) s = add_task-min a _

enqueue_at-min : (p : ℤ) (f : Option ℕ) (s : Cfs) → (enqueue_at p f s).min_vruntime ≡ s.min_vruntime
unfolding enqueue_at cfs_place_task write_task
enqueue_at-min p none s = enqueue_new-min p s.free_tasks s
enqueue_at-min p (some a) s = ground (arith, add_task-min a (cfs_place_task a false s))

leave_current-Advances : (a : ℕ) (s : Cfs) → Advances s (leave_current a s)
unfolding leave_current
leave_current-Advances a s = ground (arith, update_current-Advances s)

dequeue_at-Advances : (f : Option ℕ) (s : Cfs) → Advances s (dequeue_at f s)
dequeue_at-Advances none s = unfold dequeue_at in omega arith
dequeue_at-Advances (some a) s =
    let s1 = leave_current a s in
    unfold dequeue_at free_task in
    omega (
      arith,
      leave_current-Advances a s,
      drop_task-min a s1,
      update_min-Advances (free_task a (drop_task a s1)),
    )

sleep_at-Advances : (f : Option ℕ) (s : Cfs) → Advances s (sleep_at f s)
sleep_at-Advances none s = unfold sleep_at in omega arith
sleep_at-Advances (some a) s =
    let s1 = write_task a (λ (t : Task). record t { sleep_start = s.system_clock }) s in
    unfold sleep_at write_task in
    omega (arith, leave_current-Advances a s1, drop_task-min a (leave_current a s1))

wakeup_at-min : (f : Option ℕ) (s : Cfs) → (wakeup_at f s).min_vruntime ≡ s.min_vruntime
unfolding wakeup_at
wakeup_at-min none s = refl
wakeup_at-min (some a) s =
    ground (arith, wake-min a (sub64 s.system_clock (s.task_pool a).sleep_start) s)
  where
    wake-min : (a n : ℕ) (s : Cfs) → (wake a n s).min_vruntime ≡ s.min_vruntime
    wake-min a n s =
        unfold wake award cfs_place_task write_task add_task insert_task in ground arith

set_nice_at-min :
    (f : Option ℕ) (nice : ℤ) (s : Cfs) → (set_nice_at f nice s).1.min_vruntime ≡ s.min_vruntime
unfolding set_nice_at move_task insert_task
set_nice_at-min none nice s = refl
set_nice_at-min (some a) nice s =
    let s1 = set_weight a (clamp_nice nice) s in
    let same : s1.min_vruntime ≡ s.min_vruntime = unfold set_weight in refl in
    ground (arith, remove_task-min a s1)

check_slice-Advances :
    (k : Kernel) (a : ℕ) (o : Option ℕ) (s : Cfs) (r : Kernel × Cfs)
    → check_slice k a o s ≡ some r
    → Advances s r.1
unfolding check_slice use_slice end_slice write_task
check_slice-Advances k a none s r e = ground arith
check_slice-Advances k a (some n) s r e = ground (
  arith,
  schedule-Advances k (write_task a (λ (t : Task). record t { prev_sum_exec = t.sum_exec }) s),
)

tick-Advances : (k : Kernel) (s : Cfs) (r : Kernel × Cfs) → cfs_tick k s ≡ some r → Advances s r.1
unfolding cfs_tick read_clock
tick-Advances k s r e =
    tick_with s.curr (read_clock (record s { system_clock = inc64 s.system_clock })) e
  where
    tick_with :
        (c : Option ℕ) (t : Cfs) → tick_task k c t ≡ some r → t.min_vruntime ≤ r.1.min_vruntime
    tick_with none t e = unfold tick_task in ground arith
    tick_with (some a) t e =
        let s1 = update_current t in
        omega (
          arith,
          update_current-Advances t,
          check_slice-Advances k a (cfs_timeslice a s1) s1 r (unfold tick_task in e),
        )

-- The calls that set the whole run queue to 0.
unfoldable pub clears_rq : Call → Bool
clears_rq Call.init = true
clears_rq Call.shutdown = true
clears_rq _ = false

-- Of the functions that change the state and take no pointer to a task, none but cfs_init and
-- cfs_shutdown takes min_vruntime back, whatever the state.
pub call-min_vruntime :
    (c : Call) (k : Kernel) (s : Cfs) (r : Kernel × Cfs)
    → clears_rq c ≡ false
    → call c (k, s) ≡ some r
    → s.min_vruntime ≤ r.1.min_vruntime
unfolding call clears_rq
call-min_vruntime Call.init k s r n e = cc
call-min_vruntime Call.shutdown k s r n e = cc
call-min_vruntime Call.schedule k s r n e = ground (arith, schedule-Advances k s)
call-min_vruntime Call.yield k s r n e =
    unfold cfs_yield in ground (arith, yield_task-Advances k s.curr s)
call-min_vruntime Call.preempt k s r n e =
    unfold cfs_preempt in ground (arith, schedule-Advances k s)
call-min_vruntime Call.put_prev k s r n e =
    unfold cfs_put_prev_task in ground (arith, put_prev-Advances s.curr s)
call-min_vruntime Call.tick k s r n e = tick-Advances k s r e
call-min_vruntime Call.update_min k s r n e = ground (arith, update_min-Advances s)
call-min_vruntime Call.reset_stats k s r n e = unfold cfs_reset_stats in ground arith
call-min_vruntime (Call.enqueue p) k s r n e =
    unfold cfs_enqueue in ground (arith, enqueue_at-min p (find_task p s) s)
call-min_vruntime (Call.dequeue p) k s r n e =
    unfold cfs_dequeue in ground (arith, dequeue_at-Advances (find_task p s) s)
call-min_vruntime (Call.sleep p) k s r n e =
    unfold cfs_sleep in ground (arith, sleep_at-Advances (find_task p s) s)
call-min_vruntime (Call.wakeup p) k s r n e =
    unfold cfs_wakeup in ground (arith, wakeup_at-min (find_task p s) s)
call-min_vruntime (Call.set_nice p nice) k s r n e =
    unfold cfs_set_nice in ground (arith, set_nice_at-min (find_task p s) nice s)
call-min_vruntime (Call.update_clock delta) k s r n e = unfold cfs_update_clock in ground arith
