-- ===== src/Cfs/Dispatch.antt =====
-- cfs_schedule: which task runs next, what becomes of the one that ran, and the switch.
use scheduler_module.Base.{
  ℕ, ◌≤◌, Option, none, some, List, [], ◌∷◌, ◌≡◌, refl, sym, ap, ◌∙◌, subst, ◌==◌, inl, inr,
  Bool-cases, Option-cases, arith,
}
use scheduler_module.Kernel.{Kernel}
use scheduler_module.Cfs.{Cfs, write_task, insert_task, unlink_task, remove_task}
use scheduler_module.Cfs.Tasks.{Task, head_task, unlink}
use scheduler_module.Cfs.Running.{
  update_current, put_task, put_prev, cfs_put_prev_task, cfs_set_curr_task, run_task, read_clock,
  cfs_schedule, cfs_pick_next_task, move_behind, yield_task, cfs_yield,
}
use scheduler_module.Cfs.Timeline.{count, count-unlink, holds, NotBefore, Sorted}
use scheduler_module.Cfs.Invariant.{WellFormed, remove-unlink}
use scheduler_module.Cfs.Steps.{update_current-keeps, update_current-WellFormed}
use scheduler_module.Cfs.Switching.{
  put_prev_task-stops, put_prev_task-WellFormed, run_task-some, head-count,
}
use scheduler_module.Cfs.Leaving.{IsLost}
use scheduler_module.Cfs.Calls.{move_behind-WellFormed}

-- The state that the next task is picked from.
abbrev before_pick : Cfs → Cfs
before_pick s = cfs_put_prev_task (update_current (read_clock s))

before_pick-WellFormed : (s : Cfs) → WellFormed s → WellFormed (before_pick s)
unfolding read_clock
before_pick-WellFormed s w =
    put_prev_task-WellFormed (update_current (read_clock s))
      (update_current-WellFormed (read_clock s) w)

before_pick-keeps :
    (s : Cfs)
    → WellFormed s
    → ((before_pick s).tasks_timeline ≡ s.tasks_timeline)
      × ((before_pick s).free_tasks ≡ s.free_tasks)
      × ((before_pick s).leftmost ≡ s.leftmost)
      × ((before_pick s).curr ≡ none)
before_pick-keeps s w =
    let s1 = update_current (read_clock s) in
    let w1 : WellFormed s1 = unfold read_clock in update_current-WellFormed (read_clock s) w in
    let stops = put_prev_task-stops s1 w1 in
    let k1 = update_current-keeps (read_clock s) in
    let k2 = update_current-keeps s1 in
    unfold read_clock in
    (
      ap (λ (t : Cfs). t.tasks_timeline) stops ∙ k2.1 ∙ k1.1,
      ap (λ (t : Cfs). t.free_tasks) stops ∙ k2.2 ∙ k1.2,
      ap (λ (t : Cfs). t.leftmost) stops ∙ k2.5 ∙ k1.5,
      ap (λ (t : Cfs). t.curr) stops,
    )

schedule-some :
    (k : Kernel) (a : ℕ) (s : Cfs)
    → WellFormed s
    → s.leftmost ≡ some a
    → cfs_schedule k s ≡ (k, cfs_set_curr_task a (unlink_task a (before_pick s)))
unfolding cfs_schedule cfs_pick_next_task
schedule-some k a s w e =
    let s1 = before_pick s in
    let w1 = before_pick-WellFormed s w in
    let e1 : s1.leftmost ≡ some a = (before_pick-keeps s w).2 ∙ e in
    let here = head-count a s1.tasks_timeline (sym w1.0.first ∙ e1) in
    ap (λ (o : Option ℕ). run_task k o s1) e1
    ∙ run_task-some k a s1
    ∙ ap (λ (t : Cfs). (k, cfs_set_curr_task a t)) (remove-unlink a s1 w1.0 w1.1 here)

schedule-none :
    (k : Kernel) (s : Cfs)
    → WellFormed s
    → s.leftmost ≡ none
    → cfs_schedule k s ≡ (k, before_pick s)
unfolding cfs_schedule cfs_pick_next_task
schedule-none k s w e =
    let s1 = before_pick s in
    ap (λ (o : Option ℕ). run_task k o s1) ((before_pick-keeps s w).2 ∙ e)
    ∙ (unfold run_task in refl)

head-NotBefore :
    (pool : ℕ → Task) (a : ℕ) (tasks : List ℕ)
    → head_task tasks ≡ some a
    → Sorted pool tasks
    → NotBefore pool (pool a).vruntime tasks
unfolding head_task
head-NotBefore pool a [] e s = tt
head-NotBefore pool a (x ∷ xs) e s =
    let same : x ≡ a = ground arith in
    subst (λ (b : ℕ). NotBefore pool (pool b).vruntime (x ∷ xs)) same (omega arith, s.0)

-- In a well formed run queue with a leftmost task cfs_schedule makes it the running one and takes
-- it off the timeline, and no queued task had less vruntime.
pub schedule-picks :
    (k : Kernel) (a : ℕ) (s : Cfs)
    → WellFormed s
    → s.leftmost ≡ some a
    → let r = (cfs_schedule k s).1 in
      (r.curr ≡ some a)
      × (r.tasks_timeline ≡ unlink a s.tasks_timeline)
      × NotBefore s.task_pool (s.task_pool a).vruntime s.tasks_timeline
schedule-picks k a s w e =
    let eq = schedule-some k a s w e in
    (
      ap (λ (r : Kernel × Cfs). r.1.curr) eq ∙ (unfold cfs_set_curr_task in refl),
      ap (λ (r : Kernel × Cfs). r.1.tasks_timeline) eq
          ∙ (unfold cfs_set_curr_task write_task unlink_task in
              ap (unlink a) (before_pick-keeps s w).0),
      head-NotBefore s.task_pool a s.tasks_timeline (sym w.0.first ∙ e) w.0.order,
    )

-- No switch to a task is seen, whatever the state: old_pid is the pid of that task.
put_task-keeps : (a : ℕ) (s : Cfs) → (put_task a s).stats.switches ≡ s.stats.switches
unfolding put_task insert_task remove_task unlink_task
put_task-keeps a s = ground arith

put_prev-switches : (c : Option ℕ) (s : Cfs) → (put_prev c s).stats.switches ≡ s.stats.switches
unfolding put_prev
put_prev-switches none s = refl
put_prev-switches (some a) s = put_task-keeps a (update_current s) ∙ (update_current-keeps s).4

run_task-switches :
    (k : Kernel) (next : Option ℕ) (s : Cfs)
    → ((run_task k next s).0 ≡ k) × ((run_task k next s).1.stats.switches ≡ s.stats.switches)
run_task-switches k none s = unfold run_task in (refl, refl)
run_task-switches k (some a) s =
    let eq = run_task-some k a s in
    (
      ap (λ (r : Kernel × Cfs). r.0) eq,
      ap (λ (r : Kernel × Cfs). r.1.stats.switches) eq
          ∙ (unfold cfs_set_curr_task write_task remove_task unlink_task in ground arith),
    )

before_pick-switches : (s : Cfs) → (before_pick s).stats.switches ≡ s.stats.switches
unfolding cfs_put_prev_task read_clock
before_pick-switches s =
    let s1 = update_current (read_clock s) in
    put_prev-switches s1.curr s1 ∙ (update_current-keeps (read_clock s)).4

schedule-switches :
    (k : Kernel) (s : Cfs)
    → ((cfs_schedule k s).0 ≡ k) × ((cfs_schedule k s).1.stats.switches ≡ s.stats.switches)
unfolding cfs_schedule
schedule-switches k s =
    let runs = run_task-switches k (cfs_pick_next_task (before_pick s)) (before_pick s) in
    (runs.0, runs.1 ∙ before_pick-switches s)

before_pick-IsLost : (a : ℕ) (s : Cfs) → WellFormed s → s.curr ≡ some a → IsLost a (before_pick s)
before_pick-IsLost a s w e =
    let keeps = before_pick-keeps s w in
    let once = w.1.once a in
    let held : holds a s.curr ≡ 1 = rw e (ground arith) in
    let t = ap (count a) keeps.0 in
    let f = ap (count a) keeps.1 in
    let c : holds a (before_pick s).curr ≡ 0 = ap (holds a) keeps.3 in omega arith

-- Another task starts to run.
started-IsLost :
    (a b : ℕ) (s : Cfs)
    → IsLost a s
    → 1 ≤ count b s.tasks_timeline
    → IsLost a (cfs_set_curr_task b (unlink_task b s))
unfolding cfs_set_curr_task write_task unlink_task
started-IsLost a b s lost here =
    let left = count-unlink b a s.tasks_timeline here in
    elim (Bool-cases (a == b)) [
      | inl e ↦
          let same : a ≡ b = ground arith in
          let n = ap (λ (x : ℕ). count x s.tasks_timeline) same in absurd (omega arith)
      | inr e ↦ ground arith
    ]

-- The task that ran is neither queued, nor free, nor running afterwards.
picked-IsLost :
    (k : Kernel) (a : ℕ) (s : Cfs) → WellFormed s → s.curr ≡ some a → IsLost a (cfs_schedule k s).1
picked-IsLost k a s w e = elim (Option-cases s.leftmost) [
  | inl n ↦
      subst (λ (r : Kernel × Cfs). IsLost a r.1) (sym (schedule-none k s w n))
        (before_pick-IsLost a s w e)
  | inr (b, n) ↦
      let here = head-count b s.tasks_timeline (sym w.0.first ∙ n) in
      let here1 : 1 ≤ count b (before_pick s).tasks_timeline =
        subst (λ (xs : List ℕ). 1 ≤ count b xs) (sym (before_pick-keeps s w).0) here in
      subst (λ (r : Kernel × Cfs). IsLost a r.1) (sym (schedule-some k b s w n))
        (started-IsLost a b (before_pick s) (before_pick-IsLost a s w e) here1)
]

move_behind-curr : (a : ℕ) (l : Option ℕ) (s : Cfs) → (move_behind a l s).curr ≡ s.curr
unfolding move_behind write_task
move_behind-curr a none s = refl
move_behind-curr a (some b) s = refl

yielded-IsLost :
    (k : Kernel) (a : ℕ) (s : Cfs) → WellFormed s → s.curr ≡ some a → IsLost a (cfs_yield k s).1
unfolding cfs_yield
yielded-IsLost k a s w e =
    let s1 = update_current s in
    let e1 = (update_current-keeps s).0 ∙ e in
    let w1 = update_current-WellFormed s w in
    let s2 = move_behind a s1.leftmost s1 in
    subst (λ (c : Option ℕ). IsLost a (yield_task k c s).1) (sym e)
      (unfold yield_task in
        picked-IsLost k a s2 (move_behind-WellFormed a s1.leftmost s1 e1 w1)
          (move_behind-curr a s1.leftmost s1 ∙ e1))

-- In a well formed run queue the running task is neither queued nor free nor running after
-- cfs_schedule, and after cfs_yield. cfs_schedule calls no context_switch and counts no switch.
pub running-IsLost :
    (k : Kernel) (a : ℕ) (s : Cfs)
    → WellFormed s
    → s.curr ≡ some a
    → IsLost a (cfs_schedule k s).1
      × IsLost a (cfs_yield k s).1
      × ((cfs_schedule k s).0 ≡ k)
      × ((cfs_schedule k s).1.stats.switches ≡ s.stats.switches)
running-IsLost k a s w e =
    let switches = schedule-switches k s in
    (picked-IsLost k a s w e, yielded-IsLost k a s w e, switches.0, switches.1)
