-- ===== src/Realtime/Tests.antt =====
-- The theorems on realtime.c at concrete states.
use scheduler_module.Base.{
  All, ◌≤◌, ℕ, zero, suc, ◌<◌, pos, false, Option, none, some, List, [], ◌∷◌, ◌++◌, ◌≡◌, refl,
  arith,
}
use scheduler_module.Kernel.{Kernel, pr_ready, context_switch}
use scheduler_module.Realtime.Dispatch.{edf_schedule-Earliest}
use scheduler_module.Realtime.Tasks.{
  running, is_running, edf, rms, notify, Task, TaskState, ready, inactive, zero_task, goes_before,
  tasks_from, tasks_up_to,
}
use scheduler_module.Realtime.{Realtime, zero_stats, insert_ready, llf_pick_next, realtime_schedule}
use scheduler_module.Realtime.Priorities.{period_of}
use scheduler_module.Realtime.Running.{reassign}
use scheduler_module.Realtime.Timing.{realtime_validate}
use scheduler_module.Realtime.Response.{interferes, realtime_response_time}
use scheduler_module.Realtime.Chain.{Chain, insert_by}
use scheduler_module.Realtime.Places.{NotAfter, Precedes, InOrder, insert_ready-InOrder}
use scheduler_module.Realtime.Cycles.{requeue-loops, release-cuts}
use scheduler_module.Realtime.Bounds.{IsAnswer, response_time_ends}
use scheduler_module.Realtime.Numbers.{reassign-order}
use scheduler_module.Realtime.Urgency.{IsUrgent, llf_pick_next-IsUrgent}

-- A task with its period, its deadline at a time, its number and its link.
abbrev task : ℕ → ℕ → ℕ → ℕ → TaskState → Option ℕ → Task
task p period deadline number state next = record zero_task {
  pid = pos p;
  params = record { period = period; deadline = period; wcet = 2; phase = 0; miss_policy = notify };
  state = state;
  absolute_deadline = deadline;
  remaining_time = 2;
  rms_priority = number;
  next = next;
}

-- Tasks 0 and 1 are linked, and task 2 is alone.
abbrev tasks_at : ℕ → Task
tasks_at zero = task 10 20 30 1 ready (some 1)
tasks_at (suc zero) = task 11 10 50 2 ready none
tasks_at (suc (suc n)) = task 12 40 40 3 inactive none

-- The doubles play no part here.
abbrev two : Realtime ℕ
two = record {
  task_pool = tasks_at;
  free_tasks = none;
  ready_queue = some 0;
  current_task = none;
  task_count = 3;
  current_algo = edf;
  system_time = 5;
  stats = zero_stats;
  utilization = 0;
  schedulability_bound = 0;
  schedulable = false;
  all_tasks = some 0;
}

abbrev alone : Realtime ℕ
alone = record two { ready_queue = some 1; all_tasks = some 2 }

no_earlier : goes_before edf (tasks_at 2) (tasks_at 2) ≡ false
no_earlier = unfold goes_before in refl

two-InOrder : InOrder edf tasks_at (0 ∷ 1 ∷ [])
two-InOrder = ((omega arith, tt), (tt, tt))

insert_ready-InOrder_example :
    (t : Realtime ℕ) × (front back : List ℕ) × (insert_ready 64 2 two ≡ some t)
    × (0 ∷ 1 ∷ [] ≡ front ++ back)
    × Chain t.task_pool t.ready_queue (front ++ 2 ∷ back)
    × InOrder edf tasks_at (front ++ 2 ∷ back)
    × All (λ b. NotAfter edf (tasks_at b) (tasks_at 2)) front
    × All (λ b. Precedes edf (tasks_at 2) (tasks_at b)) back
insert_ready-InOrder_example =
    insert_ready-InOrder 64 2 two (0 ∷ 1 ∷ []) (omega arith) refl (λ b. ground arith)
      (refl, (refl, refl)) two-InOrder

-- Task 2 goes to the middle.
insert_in_the_middle : insert_by edf tasks_at (tasks_at 2) 2 (0 ∷ 1 ∷ []) ≡ 0 ∷ 2 ∷ 1 ∷ []
unfolding insert_by goes_before
insert_in_the_middle = refl

requeue-loops_example :
    (t : Realtime ℕ) × (insert_ready 64 1 alone ≡ some t) × ((n : ℕ) → realtime_validate n t ≡ none)
requeue-loops_example = requeue-loops 63 1 alone refl refl

release-cuts_example :
    (t : Realtime ℕ) × (insert_ready 64 2 (record two { ready_queue = some 3; all_tasks = some 2 })
      ≡ some t)
    × Chain t.task_pool t.ready_queue (3 ∷ 2 ∷ [])
    × Chain t.task_pool t.all_tasks (2 ∷ [])
release-cuts_example =
    release-cuts 63 2 3 (record two { ready_queue = some 3; all_tasks = some 2 }) refl refl refl
      (ground arith) no_earlier

response_time_ends_example :
    (n : ℕ) × (realtime_response_time 64 39 0 two ≡ some n) × IsAnswer tasks_at 0 (0 ∷ 1 ∷ []) n
response_time_ends_example =
    response_time_ends 64 39 0 two (0 ∷ 1 ∷ []) (unfold tasks_from in refl) (omega arith)
      (omega arith) (unfold interferes in omega arith)

reassign-order_example :
    ((reassign rms two).task_pool 0).rms_priority < ((reassign rms two).task_pool 1).rms_priority
reassign-order_example =
    reassign-order rms two 1 0 (λ c. unfold tasks_up_to in ground arith)
      (unfold tasks_up_to in omega arith) (unfold tasks_up_to in omega arith)
      (unfold period_of in omega arith)

llf_pick_next-IsUrgent_example :
    (r : Option ℕ × Realtime ℕ) × (llf_pick_next 64 two ≡ some r)
    × Chain r.1.task_pool r.1.ready_queue (0 ∷ 1 ∷ [])
    × IsUrgent tasks_at (0 ∷ 1 ∷ []) r.0
llf_pick_next-IsUrgent_example =
    llf_pick_next-IsUrgent 64 two (0 ∷ 1 ∷ []) (0 ∷ 1 ∷ []) (omega arith) (omega arith)
      (refl, (refl, refl)) (refl, (refl, refl))
      ((ground arith, (omega arith, omega arith)), ((ground arith, (omega arith, omega arith)), tt))

-- Task 2 runs, with a deadline between those of tasks 0 and 1.
abbrev busy_at : ℕ → Task
busy_at zero = tasks_at 0
busy_at (suc zero) = tasks_at 1
busy_at (suc (suc n)) = task 12 40 40 3 running none

abbrev busy : Realtime ℕ
busy = record two { task_pool = busy_at; current_task = some 2 }

abbrev idle_kernel : Kernel
idle_kernel = record {
  proctab = λ i. record { pstate = pr_ready; pprio = 50 };
  currpid = pos 12;
  need_resched = false;
  switches = [];
}

edf_schedule-Earliest_example :
    (t : Realtime ℕ) × (realtime_schedule 64 idle_kernel busy
      ≡ some (context_switch idle_kernel (pos 12) (pos 10), t))
    × (t.current_task ≡ some 0)
    × Chain t.task_pool t.ready_queue (insert_by edf busy_at (busy_at 2) 2 (1 ∷ []))
    × All (λ a. 30 ≤ (busy_at a).absolute_deadline) (1 ∷ [])
unfolding is_running goes_before
edf_schedule-Earliest_example =
    edf_schedule-Earliest 64 idle_kernel busy 0 2 (1 ∷ []) refl refl refl (omega arith) refl
      (λ b. ground arith) (refl, (refl, refl)) ((refl, tt), (tt, tt))
