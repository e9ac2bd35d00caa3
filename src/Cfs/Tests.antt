-- ===== src/Cfs/Tests.antt =====
-- The theorems on cfs.c at concrete states.
use scheduler_module.Base.{
  ℕ, zero, suc, ◌*◌, ◌≤◌, pos, negsuc, eqz, Bool, true, false, ◌↔◌, ◌%◌, All, u32_mod, some, List,
  [], ◌∷◌, ◌≡◌, ◌⊎◌, refl, if◌then◌else◌, arith,
}
use scheduler_module.Kernel.{Kernel, pr_curr, pr_ready}
use scheduler_module.Cfs.{Cfs, zero_stats, cfs_init, cfs_timeslice}
use scheduler_module.Cfs.Tasks.{Task, zero_task, head_task, unlink}
use scheduler_module.Cfs.Running.{cfs_validate, cfs_schedule, cfs_yield}
use scheduler_module.Cfs.Queueing.{cfs_wakeup}
use scheduler_module.Cfs.Timeline.{NotBefore, Sorted}
use scheduler_module.Cfs.Invariant.{WellFormed}
use scheduler_module.Cfs.Leaving.{IsLost, wakeup-same}
use scheduler_module.Cfs.Calls.{Call, call, run, run-init-total}
use scheduler_module.Cfs.Dispatch.{schedule-picks, running-IsLost}
use scheduler_module.Cfs.Shares.{period, timeslice-share}
use scheduler_module.Cfs.Validate.{IsOn, cfs_validate_iff}
use scheduler_module.Cfs.Clock.{clears_rq, call-min_vruntime}

abbrev kernel : Kernel
kernel = record {
  proctab = λ i. record { pstate = if eqz i (pos 7) then pr_curr else pr_ready; pprio = 50 };
  currpid = pos 7;
  need_resched = false;
  switches = [];
}

abbrev task : ℕ → ℕ → Bool → Task
task p v on = record zero_task { pid = pos p; weight = 1024; vruntime = v; on_rq = on }

-- Process 7 runs, and processes 5 and 6 wait.
abbrev tasks_at : ℕ → Task
tasks_at zero = task 5 10 true
tasks_at (suc zero) = task 6 20 true
tasks_at (suc (suc n)) = task 7 15 false

abbrev three : Cfs
three = record {
  task_pool = tasks_at;
  free_tasks = 3 ∷ [];
  nr_running = 3;
  min_vruntime = 10;
  clock = 40;
  clock_task = 40;
  load_weight = 3072;
  tasks_timeline = 0 ∷ 1 ∷ [];
  curr = some 2;
  leftmost = some 0;
  stats = zero_stats;
  system_clock = 41;
}

three-WellFormed : WellFormed three
three-WellFormed = (
  record {
    order = ((omega arith, tt), (tt, tt));
    queued = ((refl, omega arith, omega arith), ((refl, omega arith, omega arith), tt));
    floor = (omega arith, (omega arith, tt));
    first = first_lem;
  },
  record { once = λ a. ground arith; off = refl },
  record { listed = omega arith; room = omega arith; low = omega arith; high = omega arith },
)
  where
    first_lem : three.leftmost ≡ head_task three.tasks_timeline
    first_lem = unfold head_task in refl

abbrev some_calls : List Call
some_calls =
    Call.enqueue (pos 1)
    ∷ Call.enqueue (pos 2)
    ∷ Call.schedule
    ∷ Call.tick
    ∷ Call.set_nice (pos 2) (negsuc 4)
    ∷ Call.yield
    ∷ Call.dequeue (pos 2)
    ∷ Call.tick
    ∷ []

run-init-total_example :
    (q : Kernel × Cfs) × (run some_calls (kernel, cfs_init three) ≡ some q) × WellFormed q.1
run-init-total_example = run-init-total some_calls kernel three

schedule-picks_example :
    let r = (cfs_schedule kernel three).1 in
    (r.curr ≡ some 0)
    × (r.tasks_timeline ≡ unlink 0 (0 ∷ 1 ∷ []))
    × NotBefore tasks_at 10 (0 ∷ 1 ∷ [])
schedule-picks_example = schedule-picks kernel 0 three three-WellFormed refl

running-IsLost_example :
    IsLost 2 (cfs_schedule kernel three).1
    × IsLost 2 (cfs_yield kernel three).1
    × ((cfs_schedule kernel three).0 ≡ kernel)
    × ((cfs_schedule kernel three).1.stats.switches ≡ 0)
running-IsLost_example = running-IsLost kernel 2 three three-WellFormed refl

wakeup-same_example : cfs_wakeup (pos 7) three ≡ three
wakeup-same_example = wakeup-same (pos 7) three three-WellFormed

timeslice-share_example :
    (slice : ℕ) × (cfs_timeslice 0 three ≡ some slice)
    × (4 ≤ slice)
    × (slice ≤ period 3)
    × ((slice ≡ 4) ⊎ (slice * 3072 ≤ period 3 * 1024))
timeslice-share_example = timeslice-share 0 three three-WellFormed (omega arith) (omega arith)

call-min_vruntime_example : three.min_vruntime ≤ (cfs_schedule kernel three).1.min_vruntime
call-min_vruntime_example =
    call-min_vruntime Call.schedule kernel three (cfs_schedule kernel three) is_call is_result
  where
    is_call : clears_rq Call.schedule ≡ false
    is_call = unfold clears_rq in refl

    is_result : call Call.schedule (kernel, three) ≡ some (cfs_schedule kernel three)
    is_result = unfold call in refl

cfs_validate_iff_example : (cfs_validate three ≡ true) ↔ (
    Sorted tasks_at (0 ∷ 1 ∷ [])
    × All (IsOn tasks_at) (0 ∷ 1 ∷ [])
    × (2 % u32_mod ≡ 3)
    × (2048 % u32_mod ≡ 3072)
    × (head_task (0 ∷ 1 ∷ []) ≡ some 0))
cfs_validate_iff_example = cfs_validate_iff three
