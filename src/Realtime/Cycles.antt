-- ===== src/Realtime/Cycles.antt =====
-- What the one link of a task of realtime.c does where two lists need it, or one list twice.
use scheduler_module.Base.{
  ℕ, zero, suc, false, Option, none, some, List, [], ◌∷◌, ◌≡◌, ◌≢◌, refl, ap, ◌∙◌, ◌==◌, arith, inl,
  inr, Bool-cases,
}
use scheduler_module.Realtime.Tasks.{
  Algorithm, Task, ready, goes_before, write, set_next, insert_walk, tasks_from,
}
use scheduler_module.Realtime.{Realtime, ◌>>=◌, write_task, link_ready, insert_ready}
use scheduler_module.Realtime.Timing.{validate_walk, realtime_validate}
use scheduler_module.Realtime.Chain.{Chain, insert_walk-none, linked, linked-next}
use scheduler_module.Realtime.Order.{before_irrefl, ready_order}

tasks_from-loop :
    (n a : ℕ) (pool : ℕ → Task) → (pool a).next ≡ some a → tasks_from n pool (some a) ≡ none
unfolding tasks_from
tasks_from-loop zero a pool e = refl
tasks_from-loop (suc n) a pool e =
    let rest = tasks_from-loop n a pool e in
    let same : tasks_from n pool (pool a).next ≡ none = ap (tasks_from n pool) e ∙ rest in
    rw (same, tasks_from) refl

-- The walk over a queue of one task that `t` does not go before.
walk_one :
    (fuel : ℕ) (algo : Algorithm) (pool : ℕ → Task) (t : Task) (p : ℕ)
    → (pool p).next ≡ none
    → goes_before algo t (pool p) ≡ false
    → insert_walk (suc fuel) algo pool t none (some p) ≡ some (some p)
unfolding insert_walk
walk_one fuel algo pool t p e b =
    rw (b, insert_walk)
      (ap (insert_walk fuel algo pool t (some p)) e ∙ insert_walk-none fuel algo pool t (some p))

-- The order does not look at the state that is written.
marked_order :
    (algo : Algorithm) (pool : ℕ → Task) (a p : ℕ) (t : Task)
    → goes_before algo t (write a (λ x. record x { state = ready }) pool p)
      ≡ goes_before algo t (pool p)
unfolding write
marked_order algo pool a p t = elim (Bool-cases (a == p)) [
  | inl e ↦ rw (e, write) ((ready_order algo t (pool p)).1)
  | inr e ↦ rw (e, write) refl
]

-- The links of the state after the insertion.
own_link : (a : ℕ) (pool : ℕ → Task) → (linked a a pool a).next ≡ some a
unfolding set_next write
own_link a pool = ground arith

module _ {F : Type 0} where
  -- The state after the task has been linked behind `p`.
  abbrev behind : ℕ → ℕ → Realtime F → Realtime F
  behind a p s = link_ready a (some p) (write_task a (λ t. record t { state = ready }) s)

  insert_one :
      (fuel a p : ℕ) (s : Realtime F)
      → s.ready_queue ≡ some p
      → (s.task_pool p).next ≡ none
      → goes_before s.current_algo (s.task_pool a) (s.task_pool p) ≡ false
      → insert_ready (suc fuel) a s ≡ some (behind a p s)
  unfolding insert_ready write_task
  insert_one fuel a p s r e b =
      let mark = λ (t : Task). record t { state = ready } in
      let pool = write a mark s.task_pool in
      let kept : (pool p).next ≡ none = unfold write in ground arith in
      let self : pool a ≡ mark (s.task_pool a) = unfold write in ground arith in
      let algo = s.current_algo in
      let b1 : goes_before algo (pool a) (pool p) ≡ false =
        marked_order algo s.task_pool a p (pool a)
        ∙ ap (λ (t : Task). goes_before algo t (s.task_pool p)) self
        ∙ (ready_order algo (s.task_pool a) (s.task_pool p)).0
        ∙ b in
      let walk = walk_one fuel algo pool (pool a) p kept b1 in
      ap
        (λ (o : Option (Option ℕ)).
          o >>= λ q. some (link_ready a q (record s { task_pool = pool })))
        (ap (insert_walk (suc fuel) algo pool (pool a) none) r ∙ walk)

  -- If the ready queue is one task, insert_ready of this task ends, and realtime_validate then
  -- ends with no fuel: the walk goes round for ever.
  pub requeue-loops :
      (fuel a : ℕ) (s : Realtime F)
      → s.ready_queue ≡ some a
      → (s.task_pool a).next ≡ none
      → (t : Realtime F) × (insert_ready (suc fuel) a s ≡ some t)
        × ((n : ℕ) → realtime_validate n t ≡ none)
  unfolding realtime_validate
  requeue-loops fuel a s r e =
      let t = behind a a s in
      let pool = (write_task a (λ (x : Task). record x { state = ready }) s).task_pool in
      let loops : (n : ℕ) → tasks_from n t.task_pool t.ready_queue ≡ none = λ n.
        unfold link_ready write_task in
        ap
          (tasks_from n
            (linked a a (write a (λ (x : Task). record x { state = ready }) s.task_pool)))
          r
        ∙ tasks_from-loop n a _
            (own_link a (write a (λ (x : Task). record x { state = ready }) s.task_pool)) in
      (
        t,
        insert_one fuel a a s r e (before_irrefl s.current_algo (s.task_pool a)),
        λ n.
            ap
              (λ (o : Option (List ℕ)).
                o >>= λ xs. some (validate_walk t.current_algo t.task_pool none xs))
              (loops n),
      )

  -- If the ready queue is one task and insert_ready puts the first task of all_tasks behind it,
  -- the ready queue is these two, and all_tasks is the inserted one alone, whatever followed it.
  pub release-cuts :
      (fuel a p : ℕ) (s : Realtime F)
      → s.all_tasks ≡ some a
      → s.ready_queue ≡ some p
      → (s.task_pool p).next ≡ none
      → a ≢ p
      → goes_before s.current_algo (s.task_pool a) (s.task_pool p) ≡ false
      → (t : Realtime F) × (insert_ready (suc fuel) a s ≡ some t)
        × Chain t.task_pool t.ready_queue (p ∷ a ∷ [])
        × Chain t.task_pool t.all_tasks (a ∷ [])
  unfolding link_ready write_task
  release-cuts fuel a p s l r e n b =
      let mark = λ (x : Task). record x { state = ready } in
      let pool = write a mark s.task_pool in
      let kept : (pool p).next ≡ none = unfold write in ground arith in
      let next = linked-next a p pool n in
      let last = next.1 ∙ kept in
      (behind a p s, insert_one fuel a p s r e b, (r, (next.0, last)), (l, last))
