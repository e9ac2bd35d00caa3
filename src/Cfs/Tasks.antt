-- ===== src/Cfs/Tasks.antt =====
-- cfs.c: a task, and the walks over lists of tasks.
use scheduler_module.Base.{
  ℕ, zero, suc, ◌+◌, ◌-◌, ◌%◌, ℤ, pos, eqz, Bool, true, false, not, Option, none, some, List, [],
  ◌∷◌, leb, ◌==◌, if◌then◌else◌, u64_mod,
}

pub record Task : Type 0 where
  pub pid : ℤ
  pub nice : ℤ
  pub weight : ℕ
  pub vruntime : ℕ
  pub exec_start : ℕ
  pub sum_exec : ℕ
  pub prev_sum_exec : ℕ
  pub sleep_start : ℕ
  pub on_rq : Bool

abbrev pub zero_task : Task
zero_task = record {
  pid = pos 0;
  nice = pos 0;
  weight = 0;
  vruntime = 0;
  exec_start = 0;
  sum_exec = 0;
  prev_sum_exec = 0;
  sleep_start = 0;
  on_rq = false;
}

-- A write through the pointer to the task `a`.
unfoldable pub write : ℕ → (Task → Task) → (ℕ → Task) → ℕ → Task
write a f pool i = if a == i then f (pool i) else pool i

-- a - b on 64 bits.
abbrev pub sub64 : ℕ → ℕ → ℕ
sub64 a b = (a + u64_mod - b) % u64_mod

unfoldable pub head_task : List ℕ → Option ℕ
head_task [] = none
head_task (a ∷ as') = some a

unfoldable pub find_walk : (ℕ → Task) → ℤ → List ℕ → Option ℕ
find_walk pool p [] = none
find_walk pool p (a ∷ as') = if eqz (pool a).pid p then some a else find_walk pool p as'

-- Behind every task whose vruntime is not above that of `a`.
unfoldable pub insert_walk : (ℕ → Task) → ℕ → List ℕ → List ℕ
insert_walk pool a [] = a ∷ []
insert_walk pool a (x ∷ xs) =
    if leb (pool x).vruntime (pool a).vruntime then x ∷ insert_walk pool a xs else a ∷ x ∷ xs

-- The walk has no task before the place of `a`.
unfoldable pub goes_first : (ℕ → Task) → ℕ → List ℕ → Bool
goes_first pool a [] = true
goes_first pool a (x ∷ xs) = not (leb (pool x).vruntime (pool a).vruntime)

unfoldable pub unlink : ℕ → List ℕ → List ℕ
unlink a [] = []
unlink a (x ∷ xs) = if a == x then xs else x ∷ unlink a xs

-- task->next in the list
unfoldable pub next_of : ℕ → List ℕ → Option ℕ
next_of a [] = none
next_of a (x ∷ xs) = if a == x then head_task xs else next_of a xs

unfoldable pub is_task : ℕ → Option ℕ → Bool
is_task a none = false
is_task a (some b) = a == b

-- The loop of cfs_init pushes the tasks n - 1 to 0.
unfoldable pub free_list : ℕ → List ℕ → List ℕ
free_list zero tasks = tasks
free_list (suc n) tasks = free_list n (n ∷ tasks)

-- The loop of cfs_shutdown over the timeline.
unfoldable pub free_walk : List ℕ → List ℕ → List ℕ
free_walk [] free = free
free_walk (a ∷ as') free = free_walk as' (a ∷ free)
