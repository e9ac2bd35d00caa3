-- ===== src/Cfs/Validate.antt =====
-- cfs_validate against an independent description of what it checks.
use scheduler_module.Base.{
  ℕ, ◌+◌, ◌≤◌, ◌<◌, ◌%◌, true, Option, none, some, List, [], ◌∷◌, ◌≡◌, ◌↔◌, refl, arith, length,
  All, u32_mod, inc32, add32,
}
use scheduler_module.Cfs.{Cfs}
use scheduler_module.Cfs.Tasks.{Task, head_task}
use scheduler_module.Cfs.Running.{validate_walk, same_task, cfs_validate}
use scheduler_module.Cfs.Timeline.{NotBefore, Sorted, sum_weights, NotBefore-mono}

abbrev pub IsOn : (ℕ → Task) → ℕ → Type 0
IsOn pool a = (pool a).on_rq ≡ true

validate_walk-counts :
    (pool : ℕ → Task) (prev n weight : ℕ) (tasks : List ℕ)
    → n < u32_mod
    → weight < u32_mod
    → ((validate_walk pool prev n weight tasks).1 ≡ (n + length tasks) % u32_mod)
      × ((validate_walk pool prev n weight tasks).2 ≡ (weight + sum_weights pool tasks) % u32_mod)
unfolding validate_walk
validate_walk-counts pool prev n weight [] hn hw = (omega arith, omega arith)
validate_walk-counts pool prev n weight (a ∷ as') hn hw =
    let rest =
      validate_walk-counts pool (pool a).vruntime (inc32 n) (add32 weight (pool a).weight) as'
        (omega arith) (omega arith) in
    (omega arith, omega arith)

validate_walk_sound :
    (pool : ℕ → Task) (prev n weight : ℕ) (tasks : List ℕ)
    → (validate_walk pool prev n weight tasks).0 ≡ true
    → NotBefore pool prev tasks × Sorted pool tasks × All (IsOn pool) tasks
unfolding validate_walk
validate_walk_sound pool prev n weight [] h = (tt, tt, tt)
validate_walk_sound pool prev n weight (a ∷ as') h =
    let (low, s, on) =
      validate_walk_sound pool (pool a).vruntime (inc32 n) (add32 weight (pool a).weight) as'
        (ground arith) in
    let step : prev ≤ (pool a).vruntime = ground arith in
    ((step, NotBefore-mono pool prev (pool a).vruntime as' step low), (low, s), (ground arith, on))

validate_walk_complete :
    (pool : ℕ → Task) (prev n weight : ℕ) (tasks : List ℕ)
    → NotBefore pool prev tasks
    → Sorted pool tasks
    → All (IsOn pool) tasks
    → (validate_walk pool prev n weight tasks).0 ≡ true
unfolding validate_walk
validate_walk_complete pool prev n weight [] low s on = refl
validate_walk_complete pool prev n weight (a ∷ as') low s on =
    let rest =
      validate_walk_complete pool (pool a).vruntime (inc32 n) (add32 weight (pool a).weight) as' s.0
        s.1 on.1 in
    let first = low.0 in let marked = on.0 in ground arith

same_task_iff : (x y : Option ℕ) → (same_task x y ≡ true) ↔ (x ≡ y)
unfolding same_task
same_task_iff none none = (λ h. refl, λ h. refl)
same_task_iff none (some b) = ground arith
same_task_iff (some a) none = ground arith
same_task_iff (some a) (some b) = ground arith

NotBefore-zero : (pool : ℕ → Task) (tasks : List ℕ) → NotBefore pool 0 tasks
NotBefore-zero pool [] = tt
NotBefore-zero pool (a ∷ as') = (omega arith, NotBefore-zero pool as')

-- cfs_validate returns true exactly if the timeline is in order of vruntime, each of its tasks is
-- on_rq, nr_running is its length and load_weight the sum of its weights, both on 32 bits, and
-- leftmost is its head.
pub cfs_validate_iff :
    (s : Cfs)
    → (cfs_validate s ≡ true) ↔ (
        Sorted s.task_pool s.tasks_timeline
        × All (IsOn s.task_pool) s.tasks_timeline
        × (length s.tasks_timeline % u32_mod ≡ s.nr_running)
        × (sum_weights s.task_pool s.tasks_timeline % u32_mod ≡ s.load_weight)
        × (head_task s.tasks_timeline ≡ s.leftmost))
unfolding cfs_validate
cfs_validate_iff s =
    let counts =
      validate_walk-counts s.task_pool 0 0 0 s.tasks_timeline (omega arith) (omega arith) in
    let heads = same_task_iff (head_task s.tasks_timeline) s.leftmost in
    (
      λ h.
          let (low, sorted, on) =
            validate_walk_sound s.task_pool 0 0 0 s.tasks_timeline (ground arith) in
          (sorted, on, ground arith, ground arith, ground (arith, heads)),
      λ h.
          let complete =
            validate_walk_complete s.task_pool 0 0 0 s.tasks_timeline
              (NotBefore-zero s.task_pool s.tasks_timeline) h.0 h.1 in
          let first = heads.1 h.4 in let len = h.2 in let sum = h.3 in ground arith,
    )
