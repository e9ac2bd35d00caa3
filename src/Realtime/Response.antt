-- ===== src/Realtime/Response.antt =====
-- realtime_response_time of realtime.c: the iteration. The first `fuel` is that of
-- the walk over all_tasks, `rounds` that of the do loop. `none` is the trap of a division by a
-- period of 0 too.
use scheduler_module.Base.{
  ℕ, zero, suc, ◌*◌, ◌/◌, Bool, not, ◌&&◌, Option, none, some, List, [], ◌∷◌, ltb, ◌==◌,
  if◌then◌else◌, add64, u64_mod, ◌%◌,
}
use scheduler_module.Realtime.Tasks.{Task, tasks_from}
use scheduler_module.Realtime.{Realtime, ◌>>=◌}
use scheduler_module.Realtime.Running.{sub64}

-- hp_task != task && hp_task->rms_priority > task->rms_priority
unfoldable pub interferes : (ℕ → Task) → ℕ → ℕ → Bool
interferes pool a b = not (a == b) && ltb (pool a).rms_priority (pool b).rms_priority

-- wcet + ((r + period - 1) / period) * wcet of the other task, on 64 bits.
unfoldable pub response_step : ℕ → ℕ → ℕ → ℕ → Option ℕ
response_step own r period wcet =
    if period == 0
    then none
    else some (add64 own (sub64 (add64 r period) 1 / period * wcet % u64_mod))

unfoldable pub step_if : (ℕ → Task) → ℕ → ℕ → ℕ → Option ℕ
step_if pool a b r =
    if interferes pool a b
    then response_step (pool a).params.wcet r (pool b).params.period (pool b).params.wcet
    else some r

-- The inner loop over all tasks.
unfoldable pub response_round : (ℕ → Task) → ℕ → List ℕ → ℕ → Option ℕ
response_round pool a [] r = some r
response_round pool a (b ∷ bs) r = step_if pool a b r >>= λ r1. response_round pool a bs r1

-- if (r > task->params.deadline) return r; and the test of the do loop.
unfoldable pub round_ends : ℕ → ℕ → ℕ → Option ℕ → Option ℕ
round_ends deadline r_prev r again =
    if ltb deadline r then some r else if r == r_prev then some r else again

-- The do loop.
unfoldable pub response_loop : ℕ → (ℕ → Task) → ℕ → List ℕ → ℕ → Option ℕ
response_loop zero pool a tasks r_prev = none
response_loop (suc rounds) pool a tasks r_prev = response_round pool a tasks r_prev >>= λ r.
    round_ends (pool a).params.deadline r_prev r (response_loop rounds pool a tasks r)

module _ {F : Type 0} where
  unfoldable pub realtime_response_time : ℕ → ℕ → ℕ → Realtime F → Option ℕ
  realtime_response_time fuel rounds a s = tasks_from fuel s.task_pool s.all_tasks >>= λ tasks.
      response_loop rounds s.task_pool a tasks (s.task_pool a).params.wcet
