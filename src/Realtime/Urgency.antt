-- ===== src/Realtime/Urgency.antt =====
-- llf_pick_next of realtime.c against the laxity as the exact difference of the deadline, the time
-- and the remaining time.
use scheduler_module.Base.{
  ℕ, ◌+◌, ◌^◌, ◌≤◌, ◌<◌, ℤ, true, false, ◌&&◌, Option, none, some, List, [], ◌∷◌, ◌≡◌, refl, sym,
  ap, ◌∙◌, ◌⊎◌, inl, inr, Bool-cases, arith, All, length, count, add64, subst, ◌==◌,
}
use scheduler_module.Realtime.Tasks.{
  Task, is_ready, ltz, signed_sub, least_laxity, write_all, set_laxity,
}
use scheduler_module.Realtime.Chain.{Chain}
use scheduler_module.Realtime.{Realtime, llf_pick_next}
use scheduler_module.Realtime.Laxity.{
  NotLess, IsLeast, max_laxity, least_laxity-IsLeast, relaxed, llf_pick_next-walks,
}
use scheduler_module.Realtime.Differences.{signed_sub-less, signed_sub-max}
use scheduler_module.Realtime.Writes.{
  write_all-keeps, write_all-holds, set_laxity-state, set_laxity-deadline, set_laxity-remaining,
  UpToDate, set_laxity-UpToDate,
}

-- Deadline and time are far from the bounds of int64_t.
abbrev pub Near : ℕ → Task → Type 0
Near time t = (t.absolute_deadline < 2 ^ 62) × (time + t.remaining_time < 2 ^ 62)

-- The task is READY and of the queue, and no READY task of the queue has less time to spare before its
-- deadline; without a task none of the queue is READY.
abbrev pub IsUrgent : (ℕ → Task) → List ℕ → Option ℕ → Type 0
IsUrgent pool queue none = All (λ a. is_ready (pool a).state ≡ false) queue
IsUrgent pool queue (some m) =
    (1 ≤ count m queue)
    × (is_ready (pool m).state ≡ true)
    × All
        (λ a.
          (is_ready (pool a).state ≡ false)
          ⊎ ((pool m).absolute_deadline + (pool a).remaining_time
              ≤ (pool a).absolute_deadline + (pool m).remaining_time))
        queue

All-member : (P : ℕ → Type 0) (a : ℕ) (xs : List ℕ) → All P xs → 1 ≤ count a xs → P a
All-member P a [] h n = absurd (omega arith)
All-member P a (x ∷ xs) h n = elim (Bool-cases (a == x)) [
  | inl e ↦ let same : x ≡ a = ground arith in subst P same h.0
  | inr e ↦ All-member P a xs h.1 (ground arith)
]

least_laxity-member :
    (pool : ℕ → Task) (best : Option ℕ) (l : ℤ) (xs : List ℕ) (m : ℕ)
    → least_laxity pool best l xs ≡ some m
    → (best ≡ some m) ⊎ (1 ≤ count m xs)
unfolding least_laxity
least_laxity-member pool best l [] m e = inl e
least_laxity-member pool best l (x ∷ xs) m e =
    elim (Bool-cases (is_ready (pool x).state && ltz (pool x).laxity l)) [
      | inl h ↦
          let step : least_laxity pool best l (x ∷ xs)
              ≡ least_laxity pool (some x) (pool x).laxity xs =
            rw h refl in
          elim (least_laxity-member pool (some x) (pool x).laxity xs m (sym step ∙ e)) [
            | inl i ↦ inr (ground arith)
            | inr n ↦ inr (ground arith)
          ]
      | inr h ↦
          let step : least_laxity pool best l (x ∷ xs) ≡ least_laxity pool best l xs = rw h refl in
          elim (least_laxity-member pool best l xs m (sym step ∙ e)) [
            | inl i ↦ inl i
            | inr n ↦ inr (ground arith)
          ]
    ]

module _ (time : ℕ) (all : List ℕ) (pool : ℕ → Task) where
  abbrev after : ℕ → Task
  after = write_all (set_laxity time) all pool

  after-ready : (a : ℕ) → is_ready (after a).state ≡ is_ready (pool a).state
  after-ready a =
      ap is_ready
        (write_all-keeps (λ t. t.state) (set_laxity time) all pool a (set_laxity-state time))

  after-laxity :
      (a : ℕ)
      → 1 ≤ count a all
      → is_ready (pool a).state ≡ true
      → (after a).laxity
        ≡ signed_sub (pool a).absolute_deadline (add64 time (pool a).remaining_time)
  after-laxity a n r =
      write_all-holds (UpToDate time) (set_laxity time) all pool a (set_laxity-UpToDate time) n
        (after-ready a ∙ r)
      ∙ ap (λ d. signed_sub d (add64 time (after a).remaining_time))
          (write_all-keeps (λ t. t.absolute_deadline) (set_laxity time) all pool a
            (set_laxity-deadline time))
      ∙ ap (λ d. signed_sub (pool a).absolute_deadline (add64 time d))
          (write_all-keeps (λ t. t.remaining_time) (set_laxity time) all pool a
            (set_laxity-remaining time))

  abbrev Listed : ℕ → Type 0
  Listed a = (1 ≤ count a all) × Near time (pool a)

  -- No READY task, where none has less than INT64_MAX.
  not_ready : (a : ℕ) → Listed a → NotLess after max_laxity a → is_ready (pool a).state ≡ false
  not_ready a (n, near) less = elim (Bool-cases (is_ready (pool a).state)) [
    | inr e ↦ e
    | inl e ↦
        let small : add64 time (pool a).remaining_time < 2 ^ 62 = omega arith in
        let below : ltz (after a).laxity max_laxity ≡ true =
          ap (λ l. ltz l max_laxity) (after-laxity a n e)
          ∙ signed_sub-max (pool a).absolute_deadline (add64 time (pool a).remaining_time) near.0
              small in
        let r = after-ready a in ground arith
  ]

  less_urgent :
      (m a : ℕ)
      → is_ready (pool m).state ≡ true
      → Listed m
      → Listed a
      → NotLess after (after m).laxity a
      → (is_ready (pool a).state ≡ false)
        ⊎ ((pool m).absolute_deadline + (pool a).remaining_time
            ≤ (pool a).absolute_deadline + (pool m).remaining_time)
  less_urgent m a rm (nm, near_m) (na, near_a) less = elim (Bool-cases (is_ready (pool a).state)) [
    | inr e ↦ inl e
    | inl e ↦
        let r = after-ready a in
        let order : ltz (after a).laxity (after m).laxity ≡ false = ground arith in
        let exact = subst (λ l. ltz l (after m).laxity ≡ false) (after-laxity a na e) order in
        let both =
          subst
            (λ l.
              ltz (signed_sub (pool a).absolute_deadline (add64 time (pool a).remaining_time)) l
              ≡ false)
            (after-laxity m nm rm) exact in
        let less_eq =
          signed_sub-less (pool a).absolute_deadline (add64 time (pool a).remaining_time)
            (pool m).absolute_deadline (add64 time (pool m).remaining_time) near_a.0 (omega arith)
            near_m.0 (omega arith) both in
        inr (omega arith)
  ]

  All-less :
      (m : ℕ) (xs : List ℕ)
      → is_ready (pool m).state ≡ true
      → Listed m
      → All Listed xs
      → All (NotLess after (after m).laxity) xs
      → All
          (λ a.
            (is_ready (pool a).state ≡ false)
            ⊎ ((pool m).absolute_deadline + (pool a).remaining_time
                ≤ (pool a).absolute_deadline + (pool m).remaining_time))
          xs
  All-less m [] r l ls n = tt
  All-less m (x ∷ xs) r l ls n = (less_urgent m x r l ls.0 n.0, All-less m xs r l ls.1 n.1)

  none_ready :
      (xs : List ℕ)
      → All Listed xs
      → All (NotLess after max_laxity) xs
      → All (λ a. is_ready (pool a).state ≡ false) xs
  none_ready [] ls n = tt
  none_ready (x ∷ xs) ls n = (not_ready x ls.0 n.0, none_ready xs ls.1 n.1)

  picked-IsUrgent :
      (queue : List ℕ) (o : Option ℕ)
      → All Listed queue
      → least_laxity after none max_laxity queue ≡ o
      → IsLeast after max_laxity queue o
      → IsUrgent pool queue o
  picked-IsUrgent queue none ls e i = none_ready queue ls i
  picked-IsUrgent queue (some m) ls e i =
      elim (least_laxity-member after none max_laxity queue m e) [
        | inl absurd_eq ↦ absurd (ground arith)
        | inr here ↦
            let r = sym (after-ready m) ∙ i.0 in
            (here, r, All-less m queue r (All-member Listed m queue ls here) ls i.1)
      ]

module _ {F : Type 0} where
  -- Where all_tasks and the ready queue are chains no longer than the fuel, every queued task is
  -- one of all_tasks, and its deadline and the time with its remaining time are below 2 ^ 62,
  -- llf_pick_next ends and keeps the chain of the ready queue. The task that it returns is queued
  -- and READY, and no READY task of the queue has less time left between its deadline and its
  -- remaining time; it returns NULL only if none of the queue is READY.
  pub llf_pick_next-IsUrgent :
      (fuel : ℕ) (s : Realtime F) (all queue : List ℕ)
      → length all ≤ fuel
      → length queue ≤ fuel
      → Chain s.task_pool s.all_tasks all
      → Chain s.task_pool s.ready_queue queue
      → All (λ a. (1 ≤ count a all) × Near s.system_time (s.task_pool a)) queue
      → (r : Option ℕ × Realtime F) × (llf_pick_next fuel s ≡ some r)
        × Chain r.1.task_pool r.1.ready_queue queue
        × IsUrgent s.task_pool queue r.0
  llf_pick_next-IsUrgent fuel s all queue la lq ca cq near =
      let walks = llf_pick_next-walks fuel s all queue la lq ca cq in
      let pool = (relaxed all s).task_pool in
      (
        (least_laxity pool none max_laxity queue, relaxed all s),
        walks.0,
        walks.1,
        picked-IsUrgent s.system_time all s.task_pool queue
            (least_laxity pool none max_laxity queue) near refl (least_laxity-IsLeast pool queue),
      )
