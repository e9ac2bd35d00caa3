-- ===== src/Cfs/Invariant.antt =====
-- The well-formedness of the run queue of cfs.c, in three parts, and that an insertion, a removal
-- and a write through a pointer keep it.
use scheduler_module.Base.{
  ℕ, suc, ◌+◌, ◌*◌, ◌≤◌, true, false, Option, none, some, List, ◌≡◌, refl, ◌∙◌, ◌==◌, if◌then◌else◌,
  arith, length, All,
}
use scheduler_module.Cfs.{Cfs, max_tasks, insert_task, unlink_task, remove_task}
use scheduler_module.Cfs.Tasks.{Task, write, head_task, unlink}
use scheduler_module.Cfs.Timeline.{
  count, holds, NotBefore, Sorted, IsQueued, sum_weights, Same, Same-NotBefore, Same-Sorted,
  Same-IsQueued, Same-sum_weights, write_off, write_self, All-count, length-insert,
  sum_weights-insert, All-insert, Sorted-insert, head-insert, All-unlink, Sorted-unlink,
  sum_weights-unlink, count-unlink, length-unlink, head-unlink,
}

-- In order of vruntime, none below min_vruntime, every task on the queue, and the head leftmost.
pub record IsTimeline (pool : ℕ → Task) (tasks : List ℕ) (leftmost : Option ℕ) (least : ℕ)
    : Type 0 where
  pub order : Sorted pool tasks
  pub queued : All (IsQueued pool) tasks
  pub floor : NotBefore pool least tasks
  pub first : leftmost ≡ head_task tasks

-- A task is on the timeline, free or running, and no two of these; a running one is not on_rq.
abbrev pub IsOff : (ℕ → Task) → Option ℕ → Type 0
IsOff pool none = Unit {0}
IsOff pool (some a) = (pool a).on_rq ≡ false

pub record IsOwned (pool : ℕ → Task) (tasks free : List ℕ) (curr : Option ℕ) : Type 0 where
  pub once : (a : ℕ) → count a tasks + count a free + holds a curr ≤ 1
  pub off : IsOff pool curr

-- nr_running counts the tasks of the timeline and those that left it by running, and load_weight
-- sums their weights, each from 15 to 88761. No counted task is free.
pub record IsLoad (pool : ℕ → Task) (tasks free : List ℕ) (running load : ℕ) : Type 0 where
  pub listed : length tasks ≤ running
  pub room : running + length free ≤ max_tasks
  pub low : sum_weights pool tasks + 15 * running ≤ load + 15 * length tasks
  pub high : load + 88761 * length tasks ≤ sum_weights pool tasks + 88761 * running

abbrev pub Timeline : Cfs → Type 0
Timeline s = IsTimeline s.task_pool s.tasks_timeline s.leftmost s.min_vruntime

abbrev pub Owned : Cfs → Type 0
Owned s = IsOwned s.task_pool s.tasks_timeline s.free_tasks s.curr

abbrev pub Load : Cfs → Type 0
Load s = IsLoad s.task_pool s.tasks_timeline s.free_tasks s.nr_running s.load_weight

abbrev pub WellFormed : Cfs → Type 0
WellFormed s = Timeline s × Owned s × Load s

module _ (old new : ℕ → Task) (tasks : List ℕ) (same : Same old new tasks) where
  pub Same-IsTimeline :
      {leftmost : Option ℕ} {least : ℕ}
      → IsTimeline old tasks leftmost least
      → IsTimeline new tasks leftmost least
  Same-IsTimeline t = record {
    order = Same-Sorted old new tasks same t.order;
    queued = Same-IsQueued old new tasks same t.queued;
    floor = Same-NotBefore old new _ tasks same t.floor;
    first = t.first;
  }

  pub Same-IsLoad :
      {free : List ℕ} {running load : ℕ}
      → IsLoad old tasks free running load
      → IsLoad new tasks free running load
  Same-IsLoad l =
      let e = Same-sum_weights old new tasks same in
      let low = l.low in
      let high = l.high in
      record { listed = l.listed; room = l.room; low = omega arith; high = omega arith }

-- The task that is about to be inserted.
pub record IsLoose (s : Cfs) (a : ℕ) : Type 0 where
  pub absent : count a s.tasks_timeline ≡ 0
  pub light : 15 ≤ (s.task_pool a).weight
  pub heavy : (s.task_pool a).weight ≤ 88761
  pub above : s.min_vruntime ≤ (s.task_pool a).vruntime

pub insert_task-Timeline : (a : ℕ) (s : Cfs) → IsLoose s a → Timeline s → Timeline (insert_task a s)
unfolding insert_task
insert_task-Timeline a s l t =
    let on = λ (x : Task). record x { on_rq = true } in
    let pool = write a on s.task_pool in
    let tasks = s.tasks_timeline in
    let t1 = Same-IsTimeline s.task_pool pool tasks (write_off a on s.task_pool tasks l.absent) t in
    let e = write_self a on s.task_pool in
    let light = l.light in
    let heavy = l.heavy in
    let above = l.above in
    record {
      order = Sorted-insert pool a tasks t1.order;
      queued = All-insert pool (IsQueued pool) a tasks (rw e (refl, light, heavy)) t1.queued;
      floor =
          All-insert pool (λ b. s.min_vruntime ≤ (pool b).vruntime) a tasks (rw e above) t1.floor;
      first = rw t.first (head-insert pool a tasks);
    }

-- The counts of an inserted task.
pub insert_task-sums :
    (a : ℕ) (s : Cfs)
    → count a s.tasks_timeline ≡ 0
    → (length (insert_task a s).tasks_timeline ≡ suc (length s.tasks_timeline))
      × (sum_weights (insert_task a s).task_pool (insert_task a s).tasks_timeline
          ≡ (s.task_pool a).weight + sum_weights s.task_pool s.tasks_timeline)
unfolding insert_task
insert_task-sums a s h =
    let on = λ (x : Task). record x { on_rq = true } in
    let pool = write a on s.task_pool in
    let same = write_off a on s.task_pool s.tasks_timeline h in
    (
      length-insert pool a s.tasks_timeline,
      sum_weights-insert pool a s.tasks_timeline
          ∙ rw
              (write_self a on s.task_pool, Same-sum_weights s.task_pool pool s.tasks_timeline same)
              refl,
    )

module _ (a : ℕ) (s : Cfs) (t : Timeline s) (o : Owned s)
    (here : 1 ≤ count a s.tasks_timeline) where
  pub on_rq_of_count : (s.task_pool a).on_rq ≡ true
  on_rq_of_count = (All-count s.task_pool (IsQueued s.task_pool) s.tasks_timeline a t.queued here).0

  pub remove-unlink : remove_task a s ≡ unlink_task a s
  unfolding remove_task
  remove-unlink = rw (on_rq_of_count, remove_task) refl

  pub unlink-count : count a (unlink a s.tasks_timeline) ≡ 0
  unlink-count = let once = o.once a in ground (arith, count-unlink a a s.tasks_timeline here)

  pub unlink_task-Timeline : Timeline (unlink_task a s)
  unfolding unlink_task
  unlink_task-Timeline =
      let off = λ (x : Task). record x { on_rq = false } in
      let pool = s.task_pool in
      let tasks = s.tasks_timeline in
      Same-IsTimeline pool (write a off pool) (unlink a tasks)
        (write_off a off pool (unlink a tasks) unlink-count)
        (record {
          order = Sorted-unlink pool a tasks t.order;
          queued = All-unlink pool (IsQueued pool) a tasks t.queued;
          floor = All-unlink pool (λ b. s.min_vruntime ≤ (pool b).vruntime) a tasks t.floor;
          first = rw t.first (head-unlink a tasks);
        })

  pub unlink_task-sums :
      (suc (length (unlink_task a s).tasks_timeline) ≡ length s.tasks_timeline)
      × (sum_weights (unlink_task a s).task_pool (unlink_task a s).tasks_timeline
            + (s.task_pool a).weight
          ≡ sum_weights s.task_pool s.tasks_timeline)
  unfolding unlink_task
  unlink_task-sums =
      let off = λ (x : Task). record x { on_rq = false } in
      let tasks = unlink a s.tasks_timeline in
      let same = write_off a off s.task_pool tasks unlink-count in
      let e = Same-sum_weights s.task_pool (write a off s.task_pool) tasks same in
      (
        length-unlink a s.tasks_timeline here,
        omega (arith, sum_weights-unlink s.task_pool a s.tasks_timeline here),
      )

  pub unlink_task-once :
      (b : ℕ)
      → count b (unlink_task a s).tasks_timeline
          + count b s.free_tasks
          + holds b s.curr
          + (if b == a then 1 else 0)
        ≤ 1
  unfolding unlink_task
  unlink_task-once b = let once = o.once b in ground (arith, count-unlink a b s.tasks_timeline here)
