-- ===== src/Cfs/Timeline.antt =====
-- The lists of tasks of cfs.c: what an insertion, an unlinking and a write through a pointer do to
-- the order by vruntime, to the tasks that a list holds, and to the sum of their weights.
use scheduler_module.Base.{
  ℕ, zero, suc, ◌+◌, ◌≤◌, ℤ, true, Option, none, some, List, [], ◌∷◌, ◌≡◌, refl, ◌==◌, ltb, leb,
  if◌then◌else◌, inl, inr, Bool-cases, arith, length, All,
}
pub use scheduler_module.Base.{count}
use scheduler_module.Cfs.Tasks.{
  Task, write, find_walk, insert_walk, goes_first, unlink, next_of, head_task, is_task, free_walk,
  free_list,
}

abbrev pub holds : ℕ → Option ℕ → ℕ
holds a none = 0
holds a (some b) = if a == b then 1 else 0

module _ (pool : ℕ → Task) where
  abbrev pub NotBefore : ℕ → List ℕ → Type 0
  NotBefore v = All (λ a. v ≤ (pool a).vruntime)

  abbrev pub Sorted : List ℕ → Type 0
  Sorted [] = Unit {0}
  Sorted (a ∷ as') = NotBefore (pool a).vruntime as' × Sorted as'

  -- On the run queue, with a weight of the table.
  abbrev pub IsQueued : ℕ → Type 0
  IsQueued a = ((pool a).on_rq ≡ true) × (15 ≤ (pool a).weight) × ((pool a).weight ≤ 88761)

  abbrev pub sum_weights : List ℕ → ℕ
  sum_weights [] = 0
  sum_weights (a ∷ as') = (pool a).weight + sum_weights as'

-- The fields that the run queue depends on are the same for the tasks of a list.
abbrev pub Same : (ℕ → Task) → (ℕ → Task) → List ℕ → Type 0
Same old new = All (λ a.
    ((new a).vruntime ≡ (old a).vruntime)
    × ((new a).weight ≡ (old a).weight)
    × ((new a).on_rq ≡ (old a).on_rq))

module _ (old new : ℕ → Task) where
  pub Same-NotBefore :
      (v : ℕ) (xs : List ℕ) → Same old new xs → NotBefore old v xs → NotBefore new v xs
  Same-NotBefore v [] s h = tt
  Same-NotBefore v (x ∷ xs) s h = (rw s.0.0 h.0, Same-NotBefore v xs s.1 h.1)

  pub Same-Sorted : (xs : List ℕ) → Same old new xs → Sorted old xs → Sorted new xs
  Same-Sorted [] s h = tt
  Same-Sorted (x ∷ xs) s h =
      (rw s.0.0 (Same-NotBefore (old x).vruntime xs s.1 h.0), Same-Sorted xs s.1 h.1)

  pub Same-IsQueued :
      (xs : List ℕ) → Same old new xs → All (IsQueued old) xs → All (IsQueued new) xs
  Same-IsQueued [] s h = tt
  Same-IsQueued (x ∷ xs) s h = (ground arith, Same-IsQueued xs s.1 h.1)

  pub Same-sum_weights : (xs : List ℕ) → Same old new xs → sum_weights new xs ≡ sum_weights old xs
  Same-sum_weights [] s = refl
  Same-sum_weights (x ∷ xs) s = ground (arith, Same-sum_weights xs s.1)

-- A write to a task that the list does not hold.
pub write_off :
    (a : ℕ) (f : Task → Task) (pool : ℕ → Task) (xs : List ℕ)
    → count a xs ≡ 0
    → Same pool (write a f pool) xs
unfolding write
write_off a f pool [] h = tt
write_off a f pool (x ∷ xs) h = (ground arith, write_off a f pool xs (ground arith))

-- A write that leaves the three fields alone.
pub write_other :
    (a : ℕ) (f : Task → Task) (pool : ℕ → Task) (xs : List ℕ)
    → ((t : Task)
        → ((f t).vruntime ≡ t.vruntime) × ((f t).weight ≡ t.weight) × ((f t).on_rq ≡ t.on_rq))
    → Same pool (write a f pool) xs
unfolding write
write_other a f pool [] k = tt
write_other a f pool (x ∷ xs) k = (ground (arith, k (pool x)), write_other a f pool xs k)

pub write_self : (a : ℕ) (f : Task → Task) (pool : ℕ → Task) → write a f pool a ≡ f (pool a)
unfolding write
write_self a f pool = ground arith

pub write_ne :
    (a b : ℕ) (f : Task → Task) (pool : ℕ → Task) → (a ≡ b → ⊥) → write a f pool b ≡ pool b
unfolding write
write_ne a b f pool n = ground arith

module _ (pool : ℕ → Task) where
  pub find_walk-count :
      (p : ℤ) (xs : List ℕ) (a : ℕ) → find_walk pool p xs ≡ some a → 1 ≤ count a xs
  unfolding find_walk
  find_walk-count p [] a h = ground arith
  find_walk-count p (x ∷ xs) a h = ground (arith, find_walk-count p xs a)

  pub All-count : (P : ℕ → Type 0) (xs : List ℕ) (a : ℕ) → All P xs → 1 ≤ count a xs → P a
  All-count P [] a h c = absurd (omega arith)
  All-count P (x ∷ xs) a h c = elim (Bool-cases (a == x)) [
    | inl e ↦ let e' : a ≡ x = ground arith in rw e' h.0
    | inr e ↦ All-count P xs a h.1 (ground arith)
  ]

  pub count-insert : (a b : ℕ) (xs : List ℕ) → count b (insert_walk pool a xs) ≡ count b (a ∷ xs)
  unfolding insert_walk
  count-insert a b [] = refl
  count-insert a b (x ∷ xs) = ground (arith, count-insert a b xs)

  pub length-insert : (a : ℕ) (xs : List ℕ) → length (insert_walk pool a xs) ≡ suc (length xs)
  unfolding insert_walk
  length-insert a [] = refl
  length-insert a (x ∷ xs) = ground (arith, length-insert a xs)

  pub sum_weights-insert :
      (a : ℕ) (xs : List ℕ)
      → sum_weights pool (insert_walk pool a xs) ≡ (pool a).weight + sum_weights pool xs
  unfolding insert_walk
  sum_weights-insert a [] = refl
  sum_weights-insert a (x ∷ xs) = ground (arith, sum_weights-insert a xs)

  pub All-insert :
      (P : ℕ → Type 0) (a : ℕ) (xs : List ℕ) → P a → All P xs → All P (insert_walk pool a xs)
  unfolding insert_walk
  All-insert P a [] pa h = (pa, tt)
  All-insert P a (x ∷ xs) pa h = ground (arith, All-insert P a xs pa h.1)

  pub NotBefore-mono : (v w : ℕ) (xs : List ℕ) → v ≤ w → NotBefore pool w xs → NotBefore pool v xs
  NotBefore-mono v w [] l h = tt
  NotBefore-mono v w (x ∷ xs) l h = (omega arith, NotBefore-mono v w xs l h.1)

  pub Sorted-insert : (a : ℕ) (xs : List ℕ) → Sorted pool xs → Sorted pool (insert_walk pool a xs)
  unfolding insert_walk
  Sorted-insert a [] s = (tt, tt)
  Sorted-insert a (x ∷ xs) s = elim (Bool-cases (leb (pool x).vruntime (pool a).vruntime)) [
    | inl e ↦
        rw (e, insert_walk)
          (
            All-insert (λ b. (pool x).vruntime ≤ (pool b).vruntime) a xs (ground arith) s.0,
            Sorted-insert a xs s.1,
          )
    | inr e ↦
        let l : (pool a).vruntime ≤ (pool x).vruntime = ground arith in
        rw (e, insert_walk) ((l, NotBefore-mono _ _ xs l s.0), s)
  ]

  pub head-insert :
      (a : ℕ) (xs : List ℕ)
      → (if goes_first pool a xs then some a else head_task xs) ≡ head_task (insert_walk pool a xs)
  unfolding insert_walk goes_first head_task
  head-insert a [] = refl
  head-insert a (x ∷ xs) = ground arith

  pub All-unlink : (P : ℕ → Type 0) (a : ℕ) (xs : List ℕ) → All P xs → All P (unlink a xs)
  unfolding unlink
  All-unlink P a [] h = tt
  All-unlink P a (x ∷ xs) h = ground (arith, All-unlink P a xs h.1)

  pub Sorted-unlink : (a : ℕ) (xs : List ℕ) → Sorted pool xs → Sorted pool (unlink a xs)
  unfolding unlink
  Sorted-unlink a [] s = tt
  Sorted-unlink a (x ∷ xs) s = ground (
    arith,
    Sorted-unlink a xs s.1,
    All-unlink (λ b. (pool x).vruntime ≤ (pool b).vruntime) a xs s.0,
  )

  pub sum_weights-unlink :
      (a : ℕ) (xs : List ℕ)
      → 1 ≤ count a xs
      → sum_weights pool (unlink a xs) + (pool a).weight ≡ sum_weights pool xs
  unfolding unlink
  sum_weights-unlink a [] h = absurd (omega arith)
  sum_weights-unlink a (x ∷ xs) h = elim (Bool-cases (a == x)) [
    | inl e ↦ let e' : a ≡ x = ground arith in rw (e, unlink, e') (omega arith)
    | inr e ↦ rw (e, unlink) (omega (arith, sum_weights-unlink a xs (ground arith)))
  ]

pub count-unlink :
    (a b : ℕ) (xs : List ℕ)
    → 1 ≤ count a xs
    → count b (unlink a xs) + (if b == a then 1 else 0) ≡ count b xs
unfolding unlink
count-unlink a b [] h = absurd (omega arith)
count-unlink a b (x ∷ xs) h = ground (arith, count-unlink a b xs)

pub length-unlink : (a : ℕ) (xs : List ℕ) → 1 ≤ count a xs → suc (length (unlink a xs)) ≡ length xs
unfolding unlink
length-unlink a [] h = absurd (omega arith)
length-unlink a (x ∷ xs) h = ground (arith, length-unlink a xs)

-- The new leftmost task after `a` has left a list whose head is leftmost.
pub head-unlink :
    (a : ℕ) (xs : List ℕ)
    → (if is_task a (head_task xs) then next_of a xs else head_task xs) ≡ head_task (unlink a xs)
unfolding unlink next_of head_task is_task
head-unlink a [] = refl
head-unlink a (x ∷ xs) = ground arith

pub count-free_walk :
    (b : ℕ) (xs free : List ℕ) → count b (free_walk xs free) ≡ count b xs + count b free
unfolding free_walk
count-free_walk b [] free = omega arith
count-free_walk b (x ∷ xs) free = omega (arith, count-free_walk b xs (x ∷ free))

pub length-free_walk : (xs free : List ℕ) → length (free_walk xs free) ≡ length xs + length free
unfolding free_walk
length-free_walk [] free = omega arith
length-free_walk (x ∷ xs) free = omega (arith, length-free_walk xs (x ∷ free))

pub length-free_list : (n : ℕ) (tasks : List ℕ) → length (free_list n tasks) ≡ n + length tasks
unfolding free_list
length-free_list zero tasks = omega arith
length-free_list (suc n) tasks = omega (arith, length-free_list n (n ∷ tasks))

pub count-free_list :
    (b n : ℕ) (tasks : List ℕ)
    → count b (free_list n tasks) ≡ (if ltb b n then 1 else 0) + count b tasks
unfolding free_list
count-free_list b zero tasks = ground arith
count-free_list b (suc n) tasks = ground (arith, count-free_list b n (n ∷ tasks))
