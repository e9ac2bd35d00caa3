-- ===== src/Cfs/Leaving.antt =====
-- Dequeueing, sleeping, waking and a change of the nice value keep the run queue of cfs.c well
-- formed.
use scheduler_module.Base.{
  ℕ, ◌+◌, ◌≤◌, ◌<◌, ℤ, Option, none, some, ◌∷◌, ◌≡◌, refl, sym, ap, subst, ◌==◌, inl, inr,
  Bool-cases, Option-cases, arith, length, sub32, dec32,
}
use scheduler_module.Cfs.{Cfs, max_tasks, write_task, free_task, find_task, unlink_task}
use scheduler_module.Cfs.Tasks.{Task}
use scheduler_module.Cfs.Queueing.{
  leave_current, drop_task, dequeue_at, cfs_dequeue, sleep_at, cfs_sleep, wakeup_at, cfs_wakeup,
}
use scheduler_module.Cfs.Timeline.{count, holds, IsQueued, write_other, write_self, All-count}
use scheduler_module.Cfs.Invariant.{
  WellFormed, on_rq_of_count, remove-unlink, unlink-count, unlink_task-Timeline, unlink_task-sums,
  unlink_task-once,
}
use scheduler_module.Cfs.Steps.{write-WellFormed, update_min-WellFormed}
use scheduler_module.Cfs.Moves.{write_loose-IsOff, sum_weights_bounds, holds-zero, find_task-count}

-- A task that leaves the timeline is no longer counted.
pub drop_task-eq :
    (a : ℕ) (s : Cfs)
    → WellFormed s
    → 1 ≤ count a s.tasks_timeline
    → drop_task a s ≡ record (unlink_task a s) {
      nr_running = dec32 s.nr_running;
      load_weight = sub32 s.load_weight (s.task_pool a).weight;
    }
unfolding drop_task
drop_task-eq a s w here =
    let on = on_rq_of_count a s w.0 w.1 here in
    rw (on, drop_task, remove-unlink a s w.0 w.1 here)
      (unfold unlink_task in
        ap
          (λ (n : ℕ). record (unlink_task a s) {
            nr_running = dec32 s.nr_running;
            load_weight = sub32 s.load_weight n;
          })
          (ap (λ (x : Task). x.weight) (write_self a _ s.task_pool)))

leave_current-eq :
    (a : ℕ) (s : Cfs) → WellFormed s → 1 ≤ count a s.tasks_timeline → leave_current a s ≡ s
unfolding leave_current
leave_current-eq a s w here =
    let once = w.1.once a in rw (holds-zero a s.curr (omega arith), leave_current) refl

drop_task-WellFormed :
    (a : ℕ) (s : Cfs) → WellFormed s → 1 ≤ count a s.tasks_timeline → WellFormed (drop_task a s)
drop_task-WellFormed a s (t, o, l) here =
    let once_a = o.once a in
    let sums = unlink_task-sums a s t o here in
    let bounds = sum_weights_bounds s.task_pool s.tasks_timeline t.queued in
    let own = All-count s.task_pool (IsQueued s.task_pool) s.tasks_timeline a t.queued here in
    let listed = l.listed in
    let room = l.room in
    let low = l.low in
    let high = l.high in
    subst WellFormed (sym (drop_task-eq a s (t, o, l) here)) (
      unfold unlink_task in
      (
        unlink_task-Timeline a s t o here,
        record {
          once = λ b. let once = unlink_task-once a s t o here b in omega arith;
          off = write_loose-IsOff a _ s.task_pool s.curr (omega arith) o.off;
        },
        record { listed = omega arith; room = omega arith; low = omega arith; high = omega arith },
      ))

-- The task is neither queued, nor free, nor running.
abbrev pub IsLost : ℕ → Cfs → Type 0
IsLost a s = count a s.tasks_timeline + count a s.free_tasks + holds a s.curr ≡ 0

drop_task-IsLost :
    (a : ℕ) (s : Cfs)
    → WellFormed s
    → 1 ≤ count a s.tasks_timeline
    → IsLost a (drop_task a s)
      × ((drop_task a s).nr_running + length (drop_task a s).free_tasks < max_tasks)
drop_task-IsLost a s (t, o, l) here =
    let once = o.once a in
    let gone = unlink-count a s t o here in
    let sums = unlink_task-sums a s t o here in
    let listed = l.listed in
    let room = l.room in
    subst (λ (x : Cfs). IsLost a x × (x.nr_running + length x.free_tasks < max_tasks))
      (sym (drop_task-eq a s (t, o, l) here)) (unfold unlink_task in (omega arith, omega arith))

free_task-WellFormed :
    (a : ℕ) (s : Cfs)
    → IsLost a s
    → s.nr_running + length s.free_tasks < max_tasks
    → WellFormed s
    → WellFormed (free_task a s)
unfolding free_task
free_task-WellFormed a s lost r (t, o, l) = (
  t,
  record {
    once = λ b. elim (Bool-cases (b == a)) [
      | inl same ↦
          let e : b ≡ a = ground arith in
          subst
            (λ (x : ℕ). count x s.tasks_timeline + count x (a ∷ s.free_tasks) + holds x s.curr ≤ 1)
            (sym e) (ground arith)
      | inr other ↦ let once = o.once b in ground arith
    ];
    off = o.off;
  },
  record { listed = l.listed; room = omega arith; low = l.low; high = l.high },
)

pub dequeue-WellFormed : (p : ℤ) (s : Cfs) → WellFormed s → WellFormed (cfs_dequeue p s)
unfolding cfs_dequeue
dequeue-WellFormed p s w = dequeue_found (find_task p s) refl
  where
    dequeue_found : (f : Option ℕ) → find_task p s ≡ f → WellFormed (dequeue_at f s)
    dequeue_found none e = unfold dequeue_at in w
    dequeue_found (some a) e =
        let here = find_task-count p a s e in
        let lost = drop_task-IsLost a s w here in
        unfold dequeue_at in
        rw (leave_current-eq a s w here) (
          update_min-WellFormed _ (
            free_task-WellFormed a (drop_task a s) lost.0 lost.1 (drop_task-WellFormed a s w here)))

-- A task that goes to sleep is lost, as cfs_wakeup looks for it on the timeline.
pub sleep-IsLost :
    (p : ℤ) (a : ℕ) (s : Cfs)
    → WellFormed s
    → find_task p s ≡ some a
    → WellFormed (cfs_sleep p s) × IsLost a (cfs_sleep p s)
unfolding cfs_sleep
sleep-IsLost p a s w e =
    let here = find_task-count p a s e in
    let mark = λ (x : Task). record x { sleep_start = s.system_clock } in
    let s1 = write_task a mark s in
    let w1 : WellFormed s1 =
      write-WellFormed a mark s
        (write_other a mark s.task_pool s.tasks_timeline (λ t. (refl, refl, refl))) (λ t. refl) w in
    let here1 : 1 ≤ count a s1.tasks_timeline = unfold write_task in here in
    unfold sleep_at in
    rw (e, sleep_at, leave_current-eq a s1 w1 here1)
      (drop_task-WellFormed a s1 w1 here1, (drop_task-IsLost a s1 w1 here1).0)

pub sleep-WellFormed : (p : ℤ) (s : Cfs) → WellFormed s → WellFormed (cfs_sleep p s)
sleep-WellFormed p s w = elim (Option-cases (find_task p s)) [
  | inl e ↦ unfold cfs_sleep sleep_at in rw (e, sleep_at) w
  | inr (a, e) ↦ (sleep-IsLost p a s w e).0
]

-- In a well formed run queue cfs_wakeup changes nothing, whatever process it is called for.
pub wakeup-same : (p : ℤ) (s : Cfs) → WellFormed s → cfs_wakeup p s ≡ s
unfolding cfs_wakeup
wakeup-same p s w = elim (Option-cases (find_task p s)) [
  | inl e ↦ unfold wakeup_at in rw (e, wakeup_at) refl
  | inr (a, e) ↦
      let on = on_rq_of_count a s w.0 w.1 (find_task-count p a s e) in
      unfold wakeup_at in rw (e, wakeup_at, on) refl
]
