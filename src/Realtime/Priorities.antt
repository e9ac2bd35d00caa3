-- ===== src/Realtime/Priorities.antt =====
-- rms_assign_priorities and dms_assign_priorities of realtime.c: the sorting of the tasks by period
-- or deadline, and the numbers that they get.
use scheduler_module.Base.{ℕ, zero, suc, ◌-◌, List, [], ◌∷◌, ltb, if◌then◌else◌, length}
use scheduler_module.Realtime.Tasks.{Task, write}

unfoldable pub period_of : Task → ℕ
period_of t = t.params.period

unfoldable pub deadline_of : Task → ℕ
deadline_of t = t.params.deadline

-- One round of the inner loop over the first n + 1 places: neighbours out of order are swapped.
unfoldable pub bubble : (ℕ → ℕ) → ℕ → List ℕ → List ℕ
bubble key zero xs = xs
bubble key (suc n) [] = []
bubble key (suc n) (x ∷ []) = x ∷ []
bubble key (suc n) (x ∷ y ∷ ys) =
    let swap = ltb (key y) (key x) in
    (if swap then y else x) ∷ bubble key n ((if swap then x else y) ∷ ys)

-- The outer loop: the inner loop makes count - i - 1 comparisons in round i.
unfoldable pub bubble_sort : (ℕ → ℕ) → ℕ → List ℕ → List ℕ
bubble_sort key zero xs = xs
bubble_sort key (suc n) xs = bubble_sort key n (bubble key (suc n) xs)

-- sorted[i]->rms_priority = count - i
unfoldable pub number : ℕ → List ℕ → (ℕ → Task) → ℕ → Task
number n [] pool = pool
number n (a ∷ as') pool = number (n - 1) as' (write a (λ t. record t { rms_priority = n }) pool)

unfoldable pub assign_by : (Task → ℕ) → List ℕ → (ℕ → Task) → ℕ → Task
assign_by key tasks pool =
    number (length tasks) (bubble_sort (λ a. key (pool a)) (length tasks - 1) tasks) pool
