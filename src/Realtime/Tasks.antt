-- ===== src/Realtime/Tasks.antt =====
-- realtime.h: tasks, their parameters and states; the orders of the ready queue, and the walks of
-- realtime.c along `next`. A task is named by its index in `task_pool`, and a list by its first
-- task, since one link serves all three lists. A walk takes fuel, the tasks that it may visit, and
-- returns `none` where it would go on: without a cycle 64 tasks are enough.
use scheduler_module.Base.{
  ℕ, zero, suc, ◌+◌, ◌-◌, ℤ, pos, negsuc, eqz, Bool, true, false, Option, none, some, List, [], ◌∷◌,
  ltb, ◌==◌, ◌&&◌, if◌then◌else◌, ◌^◌, ◌%◌, u64_mod, add64,
}

pub data Algorithm : Type 0 where
  edf rms dms llf : Algorithm

pub data MissPolicy : Type 0 where
  skip continue abort notify : MissPolicy

pub data TaskState : Type 0 where
  inactive ready running blocked completed missed : TaskState

pub record Params : Type 0 where
  pub period : ℕ
  pub deadline : ℕ
  pub wcet : ℕ
  pub phase : ℕ
  pub miss_policy : MissPolicy

pub record Task : Type 0 where
  pub pid : ℤ
  pub params : Params
  pub state : TaskState
  pub release_time : ℕ
  pub absolute_deadline : ℕ
  pub remaining_time : ℕ
  pub start_time : ℕ
  pub instances : ℕ
  pub completions : ℕ
  pub deadline_misses : ℕ
  pub total_response_time : ℕ
  pub worst_response_time : ℕ
  pub total_exec_time : ℕ
  pub rms_priority : ℕ
  pub laxity : ℤ
  pub next : Option ℕ

abbrev pub max_tasks : ℕ
max_tasks = 64

abbrev pub default_params : Params
default_params = record { period = 100; deadline = 100; wcet = 10; phase = 0; miss_policy = notify }

-- memset(task, 0, sizeof(rt_task_t))
abbrev pub zero_task : Task
zero_task = record {
  pid = pos 0;
  params = record { period = 0; deadline = 0; wcet = 0; phase = 0; miss_policy = skip };
  state = inactive;
  release_time = 0;
  absolute_deadline = 0;
  remaining_time = 0;
  start_time = 0;
  instances = 0;
  completions = 0;
  deadline_misses = 0;
  total_response_time = 0;
  worst_response_time = 0;
  total_exec_time = 0;
  rms_priority = 0;
  laxity = pos 0;
  next = none;
}

unfoldable pub is_ready : TaskState → Bool
is_ready ready = true
is_ready _ = false

unfoldable pub is_running : TaskState → Bool
is_running running = true
is_running _ = false

-- RT_STATE_COMPLETED, RT_STATE_MISSED or RT_STATE_INACTIVE
unfoldable pub awaits_release : TaskState → Bool
awaits_release completed = true
awaits_release missed = true
awaits_release inactive = true
awaits_release _ = false

-- a < b on int64_t
unfoldable pub ltz : ℤ → ℤ → Bool
ltz (pos a) (pos b) = ltb a b
ltz (pos a) (negsuc b) = false
ltz (negsuc a) (pos b) = true
ltz (negsuc a) (negsuc b) = ltb b a

-- The number that a pattern of 64 bits stands for as an int64_t.
unfoldable pub to_int64 : ℕ → ℤ
to_int64 w = if ltb w (2 ^ 63) then pos w else negsuc (u64_mod - w - 1)

-- (int64_t)a - (int64_t)b with the wrap-around of two's complement; an overflow is undefined in C.
unfoldable pub signed_sub : ℕ → ℕ → ℤ
signed_sub a b = to_int64 ((a + u64_mod - b) % u64_mod)

-- insert_here of insert_ready for the task `t` at the task `c`.
unfoldable pub goes_before : Algorithm → Task → Task → Bool
goes_before edf t c = ltb t.absolute_deadline c.absolute_deadline
goes_before rms t c = ltb c.rms_priority t.rms_priority
goes_before dms t c = ltb c.rms_priority t.rms_priority
goes_before llf t c = ltz t.laxity c.laxity

-- A write through the pointer to the task `a`.
unfoldable pub write : ℕ → (Task → Task) → (ℕ → Task) → ℕ → Task
write a f pool i = if a == i then f (pool i) else pool i

unfoldable pub set_next : ℕ → Option ℕ → (ℕ → Task) → ℕ → Task
unfolding write
set_next a next pool = write a (λ t. record t { next = next }) pool

unfoldable pub is_task : ℕ → Option ℕ → Bool
is_task a none = false
is_task a (some b) = a == b

unfoldable pub find_walk : ℕ → (ℕ → Task) → ℤ → Option ℕ → Option (Option ℕ)
find_walk fuel pool p none = some none
find_walk zero pool p (some a) = none
find_walk (suc fuel) pool p (some a) =
    let rest = find_walk fuel pool p (pool a).next in
    if eqz (pool a).pid p then some (some a) else rest

-- The loop of insert_ready: the last task that `t` goes behind.
unfoldable pub insert_walk :
    ℕ → Algorithm → (ℕ → Task) → Task → Option ℕ → Option ℕ → Option (Option ℕ)
insert_walk fuel algo pool t prev none = some prev
insert_walk zero algo pool t prev (some c) = none
insert_walk (suc fuel) algo pool t prev (some c) =
    let rest = insert_walk fuel algo pool t (some c) (pool c).next in
    if goes_before algo t (pool c) then some prev else rest

-- while (prev->next != NULL && prev->next != task) prev = prev->next;
unfoldable pub prev_walk : ℕ → (ℕ → Task) → ℕ → ℕ → Option ℕ → Option ℕ
prev_walk fuel pool a prev none = some prev
prev_walk zero pool a prev (some c) = none
prev_walk (suc fuel) pool a prev (some c) =
    let rest = prev_walk fuel pool a c (pool c).next in if a == c then some prev else rest

-- The tasks of a list, for the loops that write no link.
unfoldable pub tasks_from : ℕ → (ℕ → Task) → Option ℕ → Option (List ℕ)
tasks_from fuel pool none = some []
tasks_from zero pool (some a) = none
tasks_from (suc fuel) pool (some a) = elim (tasks_from fuel pool (pool a).next) [
  | none ↦ none
  | some as' ↦ some (a ∷ as')
]

-- The loop of rms_assign_priorities and dms_assign_priorities over at most n tasks.
unfoldable pub tasks_up_to : ℕ → (ℕ → Task) → Option ℕ → List ℕ
tasks_up_to n pool none = []
tasks_up_to zero pool (some a) = []
tasks_up_to (suc n) pool (some a) = a ∷ tasks_up_to n pool (pool a).next

unfoldable pub write_all : (Task → Task) → List ℕ → (ℕ → Task) → ℕ → Task
write_all f [] pool = pool
write_all f (a ∷ as') pool = write_all f as' (write a f pool)

unfoldable pub set_laxity : ℕ → Task → Task
set_laxity time t =
    if is_ready t.state
    then record t { laxity = signed_sub t.absolute_deadline (add64 time t.remaining_time) }
    else if is_running t.state
    then record t { laxity = signed_sub t.absolute_deadline (add64 time t.remaining_time) }
    else t

unfoldable pub same_algorithm : Algorithm → Algorithm → Bool
same_algorithm edf edf = true
same_algorithm rms rms = true
same_algorithm dms dms = true
same_algorithm llf llf = true
same_algorithm _ _ = false

-- The loop of llf_pick_next, given min_task and min_laxity.
unfoldable pub least_laxity : (ℕ → Task) → Option ℕ → ℤ → List ℕ → Option ℕ
least_laxity pool min_task min_laxity [] = min_task
least_laxity pool min_task min_laxity (a ∷ as') =
    let less = is_ready (pool a).state && ltz (pool a).laxity min_laxity in
    least_laxity pool (if less then some a else min_task)
      (if less then (pool a).laxity else min_laxity) as'
