-- ===== src/Realtime/Numbers.antt =====
-- The numbers that rms_assign_priorities and dms_assign_priorities of realtime.c give are in the
-- order of the periods and deadlines.
use scheduler_module.Base.{
  ℕ, ◌-◌, ◌≤◌, ◌<◌, true, List, [], ◌∷◌, ◌≡◌, refl, ap, ◌∙◌, ◌==◌, inl, inr, Bool-cases, arith,
  length, count,
}
use scheduler_module.Realtime.Tasks.{
  Algorithm, edf, rms, dms, llf, Task, write, max_tasks, tasks_up_to,
}
use scheduler_module.Realtime.Priorities.{period_of, deadline_of, number, assign_by}
use scheduler_module.Realtime.{Realtime, rms_assign_priorities, dms_assign_priorities}
use scheduler_module.Realtime.Running.{reassign}
use scheduler_module.Realtime.Sorting.{count-All, Sorted, sort-Sorted, length-bubble_sort}

number-off :
    (n a : ℕ) (ys : List ℕ) (pool : ℕ → Task)
    → count a ys ≡ 0
    → (number n ys pool a).rms_priority ≡ (pool a).rms_priority
number-off n a [] pool c = unfold number in refl
number-off n a (y ∷ ys) pool c =
    number_step n a y ys pool
    ∙ number-off (n - 1) a ys (write y (λ t. record t { rms_priority = n }) pool) (ground arith)
    ∙ write_kept
  where
    number_step :
        (n a y : ℕ) (ys : List ℕ) (pool : ℕ → Task)
        → (number n (y ∷ ys) pool a).rms_priority
          ≡ (number (n - 1) ys (write y (λ t. record t { rms_priority = n }) pool) a).rms_priority
    number_step n a y ys pool = unfold number in refl

    write_kept :
        (write y (λ t. record t { rms_priority = n }) pool a).rms_priority ≡ (pool a).rms_priority
    write_kept = unfold write in ground arith

number-cons :
    (n a y : ℕ) (ys : List ℕ) (pool : ℕ → Task)
    → number n (y ∷ ys) pool a
      ≡ number (n - 1) ys (write y (λ t. record t { rms_priority = n }) pool) a
unfolding number
number-cons n a y ys pool = refl

number-head :
    (n y : ℕ) (ys : List ℕ) (pool : ℕ → Task)
    → count y ys ≡ 0
    → (number n (y ∷ ys) pool y).rms_priority ≡ n
number-head n y ys pool c =
    let give = λ (t : Task). record t { rms_priority = n } in
    let own : (write y give pool y).rms_priority ≡ n = unfold write in ground arith in
    ap (λ (t : Task). t.rms_priority) (number-cons n y y ys pool)
    ∙ number-off (n - 1) y ys (write y give pool) c
    ∙ own

number-le :
    (n b : ℕ) (ys : List ℕ) (pool : ℕ → Task)
    → ((c : ℕ) → count c ys ≤ 1)
    → 1 ≤ count b ys
    → (number n ys pool b).rms_priority ≤ n
number-le n b [] pool d c = absurd (omega arith)
number-le n b (y ∷ ys) pool d c =
    let dy = d y in
    let head = number-head n y ys pool (ground arith) in
    let step = ap (λ (t : Task). t.rms_priority) (number-cons n b y ys pool) in
    let rest = λ (h : 1 ≤ count b ys).
      number-le (n - 1) b ys (write y (λ t. record t { rms_priority = n }) pool)
        (λ x. let dx = d x in omega arith) h in
    elim (Bool-cases (b == y)) [
      | inl e ↦
          let same : b ≡ y = ground arith in
          let h = ap (λ (x : ℕ). (number n (y ∷ ys) pool x).rms_priority) same in omega arith
      | inr e ↦ let r = rest (ground arith) in omega arith
    ]

-- In a sorted list a smaller key gets a greater number.
number-order :
    (key : ℕ → ℕ) (n a b : ℕ) (ys : List ℕ) (pool : ℕ → Task)
    → Sorted key ys
    → length ys ≤ n
    → ((c : ℕ) → count c ys ≤ 1)
    → 1 ≤ count a ys
    → 1 ≤ count b ys
    → key a < key b
    → (number n ys pool b).rms_priority < (number n ys pool a).rms_priority
number-order key n a b [] pool s l d ca cb h = absurd (omega arith)
number-order key n a b (y ∷ ys) pool s l d ca cb h =
    let dy = d y in
    let pool1 = write y (λ (t : Task). record t { rms_priority = n }) pool in
    let d1 = λ (x : ℕ). (let dx = d x in let le : count x ys ≤ 1 = omega arith in le) in
    let head = number-head n y ys pool (ground arith) in
    let step_a = ap (λ (t : Task). t.rms_priority) (number-cons n a y ys pool) in
    let step_b = ap (λ (t : Task). t.rms_priority) (number-cons n b y ys pool) in
    let rest = λ (p : 1 ≤ count a ys) (q : 1 ≤ count b ys).
      number-order key (n - 1) a b ys pool1 s.1 (omega arith) d1 p q h in
    elim (Bool-cases (b == y)) [
      | inl e ↦
          let same : b ≡ y = ground arith in
          let kb = ap key same in
          let a_in : 1 ≤ count a ys = elim (Bool-cases (a == y)) [
            | inl f ↦ let k = ap key (ap_eq a y f) in absurd (omega arith)
            | inr f ↦ ground arith
          ] in
          let low = count-All (λ x. key y ≤ key x) ys a s.0 a_in in absurd (omega arith)
      | inr e ↦ elim (Bool-cases (a == y)) [
        | inl f ↦
            let same : a ≡ y = ground arith in
            let top = ap (λ (x : ℕ). (number n (y ∷ ys) pool x).rms_priority) same in
            let low = number-le (n - 1) b ys pool1 d1 (ground arith) in omega arith
        | inr f ↦ let r = rest (ground arith) (ground arith) in omega arith
      ]
    ]
  where
    ap_eq : (a y : ℕ) → (a == y) ≡ true → a ≡ y
    ap_eq a y f = ground arith

assign_by-order :
    (key : Task → ℕ) (tasks : List ℕ) (pool : ℕ → Task) (a b : ℕ)
    → ((c : ℕ) → count c tasks ≤ 1)
    → 1 ≤ count a tasks
    → 1 ≤ count b tasks
    → key (pool a) < key (pool b)
    → (assign_by key tasks pool b).rms_priority < (assign_by key tasks pool a).rms_priority
unfolding assign_by
assign_by-order key tasks pool a b d ca cb h =
    let (sorted, counts) = sort-Sorted (λ x. key (pool x)) tasks in
    let ka = counts a in
    let kb = counts b in
    number-order (λ x. key (pool x)) (length tasks) a b _ pool sorted
      (omega (arith, length-bubble_sort (λ x. key (pool x)) (length tasks - 1) tasks))
      (λ c. let k = counts c in let dc = d c in omega arith) (omega arith) (omega arith) h

-- The key that the algorithm sorts by, if it has one.
abbrev pub sort_key : Algorithm → Task → ℕ
sort_key rms t = period_of t
sort_key dms t = deadline_of t
sort_key edf t = 0
sort_key llf t = 0

module _ {F : Type 0} where
  -- Of two tasks among the first 64 of all_tasks, which are distinct, the one with the shorter
  -- period gets the greater rms_priority from rms_assign_priorities, and the one with the shorter
  -- deadline from dms_assign_priorities, as realtime_set_params calls them.
  pub reassign-order :
      (algo : Algorithm) (s : Realtime F) (a b : ℕ)
      → let tasks = tasks_up_to max_tasks s.task_pool s.all_tasks in
        ((c : ℕ) → count c tasks ≤ 1)
        → 1 ≤ count a tasks
        → 1 ≤ count b tasks
        → sort_key algo (s.task_pool a) < sort_key algo (s.task_pool b)
        → ((reassign algo s).task_pool b).rms_priority
          < ((reassign algo s).task_pool a).rms_priority
  unfolding reassign rms_assign_priorities dms_assign_priorities
  reassign-order rms s a b d ca cb h = assign_by-order period_of _ s.task_pool a b d ca cb h
  reassign-order dms s a b d ca cb h = assign_by-order deadline_of _ s.task_pool a b d ca cb h
  reassign-order edf s a b d ca cb h = absurd (omega arith)
  reassign-order llf s a b d ca cb h = absurd (omega arith)
