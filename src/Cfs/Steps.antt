-- ===== src/Cfs/Steps.antt =====
-- The parts of the operations of cfs.c keep the run queue well formed: writes, the virtual clock,
-- and the account of the running task.
use scheduler_module.Base.{
  ℕ, ◌≤◌, Option, none, some, List, [], ◌∷◌, ◌≡◌, refl, ◌==◌, arith, if-case,
}
use scheduler_module.Cfs.Weights.{max64}
use scheduler_module.Cfs.{
  Cfs, write_task, cfs_update_vruntime, cfs_update_min_vruntime, least_vruntime,
}
use scheduler_module.Cfs.Tasks.{Task, write, head_task}
use scheduler_module.Cfs.Running.{account, update_task, update_current}
use scheduler_module.Cfs.Timeline.{count, holds, NotBefore, Sorted, Same, NotBefore-mono, write_off}
use scheduler_module.Cfs.Invariant.{IsOff, Owned, WellFormed, Same-IsTimeline, Same-IsLoad}

-- The write keeps on_rq of the running task.
write-IsOff :
    (a : ℕ) (f : Task → Task) (pool : ℕ → Task) (curr : Option ℕ)
    → ((t : Task) → (f t).on_rq ≡ t.on_rq)
    → IsOff pool curr
    → IsOff (write a f pool) curr
unfolding write
write-IsOff a f pool none k o = tt
write-IsOff a f pool (some b) k o = ground (arith, k (pool b))

-- A write that changes nothing of the queued tasks that the run queue depends on.
pub write-WellFormed :
    (a : ℕ) (f : Task → Task) (s : Cfs)
    → Same s.task_pool (write a f s.task_pool) s.tasks_timeline
    → ((t : Task) → (f t).on_rq ≡ t.on_rq)
    → WellFormed s
    → WellFormed (write_task a f s)
unfolding write_task
write-WellFormed a f s same k (t, o, l) = (
  Same-IsTimeline s.task_pool (write a f s.task_pool) s.tasks_timeline same t,
  record { once = o.once; off = write-IsOff a f s.task_pool s.curr k o.off },
  Same-IsLoad s.task_pool (write a f s.task_pool) s.tasks_timeline same l,
)

pub write_task-WellFormed :
    (a : ℕ) (f : Task → Task) (s : Cfs)
    → count a s.tasks_timeline ≡ 0
    → ((t : Task) → (f t).on_rq ≡ t.on_rq)
    → WellFormed s
    → WellFormed (write_task a f s)
write_task-WellFormed a f s h k w =
    write-WellFormed a f s (write_off a f s.task_pool s.tasks_timeline h) k w

-- The new min_vruntime is not above a queued task.
floor-least :
    (pool : ℕ → Task) (tasks : List ℕ) (curr leftmost : Option ℕ) (least : ℕ)
    → leftmost ≡ head_task tasks
    → Sorted pool tasks
    → NotBefore pool least tasks
    → NotBefore pool (max64 least (least_vruntime pool curr leftmost least)) tasks
unfolding max64 least_vruntime head_task
floor-least pool [] c l least e s f = tt
floor-least pool (x ∷ xs) c l least e s f =
    let low : max64 least (least_vruntime pool c l least) ≤ (pool x).vruntime = least_low c in
    (low, NotBefore-mono pool _ _ xs low s.0)
  where
    least_low : (c : Option ℕ) → max64 least (least_vruntime pool c l least) ≤ (pool x).vruntime
    least_low none = rw e (ground arith)
    least_low (some b) = rw e (ground arith)

pub update_min-WellFormed : (s : Cfs) → WellFormed s → WellFormed (cfs_update_min_vruntime s)
unfolding cfs_update_min_vruntime
update_min-WellFormed s (t, o, l) = (
  record {
    order = t.order;
    queued = t.queued;
    floor =
        floor-least s.task_pool s.tasks_timeline s.curr s.leftmost s.min_vruntime t.first t.order
          t.floor;
    first = t.first;
  },
  o,
  l,
)

account-WellFormed :
    (a d : ℕ) (s : Cfs) → count a s.tasks_timeline ≡ 0 → WellFormed s → WellFormed (account a d s)
unfolding account cfs_update_vruntime write_task
account-WellFormed a d s h w = if-case WellFormed (d == 0) s _ w (
    update_min-WellFormed _ (
      write_task-WellFormed a _ (cfs_update_vruntime a d s) h (λ t. refl)
        (write_task-WellFormed a _ s h (λ t. refl) w)))

-- The running task is not queued.
pub curr-count : (a : ℕ) (s : Cfs) → s.curr ≡ some a → Owned s → count a s.tasks_timeline ≡ 0
curr-count a s e o =
    let once = o.once a in let h : holds a s.curr ≡ 1 = rw e (ground arith) in omega arith

update_task-WellFormed :
    (c : Option ℕ) (s : Cfs) → s.curr ≡ c → WellFormed s → WellFormed (update_task c s)
unfolding update_task
update_task-WellFormed none s e w = w
update_task-WellFormed (some a) s e w = account-WellFormed a _ s (curr-count a s e w.1) w

pub update_current-WellFormed : (s : Cfs) → WellFormed s → WellFormed (update_current s)
unfolding update_current
update_current-WellFormed s w = update_task-WellFormed s.curr s refl w

-- What the account of the running time leaves alone.
pub account-keeps :
    (a d : ℕ) (s : Cfs)
    → ((account a d s).curr ≡ s.curr)
      × ((account a d s).tasks_timeline ≡ s.tasks_timeline)
      × ((account a d s).free_tasks ≡ s.free_tasks)
      × ((account a d s).nr_running ≡ s.nr_running)
      × ((account a d s).stats.switches ≡ s.stats.switches)
      × ((account a d s).leftmost ≡ s.leftmost)
unfolding account cfs_update_min_vruntime cfs_update_vruntime write_task
account-keeps a d s = ground arith

pub update_current-keeps :
    (s : Cfs)
    → ((update_current s).curr ≡ s.curr)
      × ((update_current s).tasks_timeline ≡ s.tasks_timeline)
      × ((update_current s).free_tasks ≡ s.free_tasks)
      × ((update_current s).nr_running ≡ s.nr_running)
      × ((update_current s).stats.switches ≡ s.stats.switches)
      × ((update_current s).leftmost ≡ s.leftmost)
unfolding update_current
update_current-keeps s = update_with s.curr
  where
    update_with :
        (c : Option ℕ)
        → ((update_task c s).curr ≡ s.curr)
          × ((update_task c s).tasks_timeline ≡ s.tasks_timeline)
          × ((update_task c s).free_tasks ≡ s.free_tasks)
          × ((update_task c s).nr_running ≡ s.nr_running)
          × ((update_task c s).stats.switches ≡ s.stats.switches)
          × ((update_task c s).leftmost ≡ s.leftmost)
    update_with none = unfold update_task in (refl, refl, refl, refl, refl, refl)
    update_with (some a) = unfold update_task in account-keeps a _ s

pub stop-WellFormed : (s : Cfs) → WellFormed s → WellFormed (record s { curr = none })
stop-WellFormed s (t, o, l) =
    (t, record { once = λ a. let once = o.once a in omega arith; off = tt }, l)
