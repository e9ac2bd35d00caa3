-- ===== src/Cfs/Nice.antt =====
-- cfs_set_nice: a change of the weight of a queued task keeps the run queue of cfs.c well formed.
use scheduler_module.Base.{
  ℕ, ◌+◌, ◌≤◌, ℤ, false, List, [], ◌∷◌, ◌≡◌, refl, sym, ap, add32, sub32, subst, ◌==◌, inl, inr,
  Bool-cases, Option-cases, arith, length, All,
}
use scheduler_module.Cfs.Weights.{cfs_nice_to_weight, clamp_nice}
use scheduler_module.Cfs.{
  Cfs, find_task, insert_task, unlink_task, set_weight, move_task, set_nice_at, cfs_set_nice,
}
use scheduler_module.Cfs.Tasks.{Task, write}
use scheduler_module.Cfs.Timeline.{
  count, Sorted, NotBefore, IsQueued, sum_weights, write_self, All-count, Same-sum_weights,
  write_off,
}
use scheduler_module.Cfs.Invariant.{
  IsLoose, Owned, Load, WellFormed, insert_task-Timeline, insert_task-sums, on_rq_of_count,
  remove-unlink, unlink-count, unlink_task-Timeline, unlink_task-sums, unlink_task-once,
}
use scheduler_module.Cfs.Moves.{
  write_loose-IsOff, sum_weights_bounds, nice_to_weight_bounds, holds-zero, find_task-count,
  insert_task-Owned,
}

-- A write of a new weight.
module _ (a : ℕ) (f : Task → Task) (pool : ℕ → Task) (w : ℕ) where
  module _ (vr : (t : Task) → (f t).vruntime ≡ t.vruntime) where
    weigh-NotBefore : (v : ℕ) (xs : List ℕ) → NotBefore pool v xs → NotBefore (write a f pool) v xs
    unfolding write
    weigh-NotBefore v [] h = tt
    weigh-NotBefore v (x ∷ xs) h = (ground (arith, vr (pool x), h.0), weigh-NotBefore v xs h.1)

    weigh-Sorted : (xs : List ℕ) → Sorted pool xs → Sorted (write a f pool) xs
    weigh-Sorted [] h = tt
    weigh-Sorted (x ∷ xs) h = (
      subst (λ (v : ℕ). NotBefore (write a f pool) v xs) (sym same)
          (weigh-NotBefore (pool x).vruntime xs h.0),
      weigh-Sorted xs h.1,
    )
      where
        same : (write a f pool x).vruntime ≡ (pool x).vruntime
        same = unfold write in ground (arith, vr (pool x))

  weigh-IsQueued :
      (xs : List ℕ)
      → ((t : Task) → ((f t).on_rq ≡ t.on_rq) × ((f t).weight ≡ w))
      → (15 ≤ w) × (w ≤ 88761)
      → All (IsQueued pool) xs
      → All (IsQueued (write a f pool)) xs
  unfolding write
  weigh-IsQueued [] k b h = tt
  weigh-IsQueued (x ∷ xs) k b h = (ground (arith, k (pool x), h.0), weigh-IsQueued xs k b h.1)

  -- The list holds `a` once.
  weigh-sum :
      (xs : List ℕ)
      → ((t : Task) → (f t).weight ≡ w)
      → count a xs ≡ 1
      → sum_weights (write a f pool) xs + (pool a).weight ≡ sum_weights pool xs + w
  weigh-sum [] k c = absurd (omega arith)
  weigh-sum (x ∷ xs) k c = elim (Bool-cases (a == x)) [
    | inl e ↦
        let ax : a ≡ x = ground arith in
        let weight = ap (λ (i : ℕ). (pool i).weight) ax in
        let same =
          Same-sum_weights pool (write a f pool) xs (write_off a f pool xs (ground arith)) in
        let head : (write a f pool x).weight ≡ w = unfold write in ground (arith, k (pool x)) in
        omega arith
    | inr e ↦
        let rest = weigh-sum xs k (ground arith) in
        let head : (write a f pool x).weight ≡ (pool x).weight = unfold write in ground arith in
        omega arith
  ]

module _ (a : ℕ) (nice : ℤ) (s : Cfs) (w : WellFormed s) (here : 1 ≤ count a s.tasks_timeline) where
  set_weight-WellFormed : WellFormed (set_weight a nice s)
  unfolding set_weight
  set_weight-WellFormed =
      let f = λ (x : Task). record x { nice = nice; weight = cfs_nice_to_weight nice } in
      let pool = write a f s.task_pool in
      let bounds = nice_to_weight_bounds nice in
      let t = w.0 in
      let l = w.2 in
      let once = w.1.once a in
      let sum =
        weigh-sum a f s.task_pool (cfs_nice_to_weight nice) s.tasks_timeline (λ x. refl)
          (omega arith) in
      let sums = sum_weights_bounds s.task_pool s.tasks_timeline t.queued in
      let old = All-count s.task_pool (IsQueued s.task_pool) s.tasks_timeline a t.queued here in
      let listed = l.listed in
      let room = l.room in
      let low = l.low in
      let high = l.high in
      let load : add32 (sub32 s.load_weight (s.task_pool a).weight) (cfs_nice_to_weight nice)
            + (s.task_pool a).weight
          ≡ s.load_weight + cfs_nice_to_weight nice =
        omega arith in
      (
        record {
          order =
              weigh-Sorted a f s.task_pool (cfs_nice_to_weight nice) (λ x. refl) s.tasks_timeline
                t.order;
          queued =
              weigh-IsQueued a f s.task_pool (cfs_nice_to_weight nice) s.tasks_timeline
                (λ x. (refl, refl)) bounds t.queued;
          floor =
              weigh-NotBefore a f s.task_pool (cfs_nice_to_weight nice) (λ x. refl) s.min_vruntime
                s.tasks_timeline t.floor;
          first = t.first;
        },
        record {
          once = w.1.once;
          off = write_loose-IsOff a f s.task_pool s.curr (omega arith) w.1.off;
        },
        record { listed = listed; room = room; low = omega arith; high = omega arith },
      )

-- The task is taken off the timeline and put back by its vruntime.
module _ (a : ℕ) (s : Cfs) (w : WellFormed s) (here : 1 ≤ count a s.tasks_timeline) where
  unlinked-IsLoose : IsLoose (unlink_task a s) a
  unfolding unlink_task
  unlinked-IsLoose =
      let off = λ (x : Task). record x { on_rq = false } in
      let t = w.0 in
      let own = All-count s.task_pool (IsQueued s.task_pool) s.tasks_timeline a t.queued here in
      let above =
        All-count s.task_pool (λ b. s.min_vruntime ≤ (s.task_pool b).vruntime) s.tasks_timeline a
          t.floor here in
      let e = write_self a off s.task_pool in
      let weight = ap (λ (x : Task). x.weight) e in
      let vruntime = ap (λ (x : Task). x.vruntime) e in
      record {
        absent = unlink-count a s t w.1 here;
        light = omega arith;
        heavy = omega arith;
        above = omega arith;
      }

  unlinked-Owned : Owned (unlink_task a s)
  unlinked-Owned =
      let once = w.1.once a in
      record {
        once =
            λ b. let u = unlink_task-once a s w.0 w.1 here b in unfold unlink_task in omega arith;
        off = unfold unlink_task in write_loose-IsOff a _ s.task_pool s.curr (omega arith) w.1.off;
      }

  reinsert-Load : Load (insert_task a (unlink_task a s))
  reinsert-Load =
      let loose = unlinked-IsLoose in
      let out = unlink_task-sums a s w.0 w.1 here in
      let into = insert_task-sums a (unlink_task a s) loose.absent in
      let weight : ((unlink_task a s).task_pool a).weight ≡ (s.task_pool a).weight =
        unfold unlink_task in
        ap (λ (x : Task). x.weight)
          (write_self a (λ (x : Task). record x { on_rq = false }) s.task_pool) in
      let l = w.2 in
      let listed = l.listed in
      let room = l.room in
      let low = l.low in
      let high = l.high in
      let len : length (insert_task a (unlink_task a s)).tasks_timeline ≡ length s.tasks_timeline =
        omega arith in
      let sum : sum_weights (insert_task a (unlink_task a s)).task_pool
            (insert_task a (unlink_task a s)).tasks_timeline
          ≡ sum_weights s.task_pool s.tasks_timeline =
        omega arith in
      keeps len sum
    where
      keeps :
          (length (insert_task a (unlink_task a s)).tasks_timeline ≡ length s.tasks_timeline)
          → (sum_weights
                (insert_task a (unlink_task a s)).task_pool
                (insert_task a (unlink_task a s)).tasks_timeline
              ≡ sum_weights s.task_pool s.tasks_timeline)
          → Load (insert_task a (unlink_task a s))
      keeps len sum =
          let l = w.2 in
          let listed = l.listed in
          let room = l.room in
          let low = l.low in
          let high = l.high in
          record {
            listed = unfold insert_task unlink_task in omega arith;
            room = unfold insert_task unlink_task in omega arith;
            low = unfold insert_task unlink_task in omega arith;
            high = unfold insert_task unlink_task in omega arith;
          }

  reinsert-WellFormed : WellFormed (insert_task a (unlink_task a s))
  reinsert-WellFormed =
      let once = w.1.once a in
      (
        insert_task-Timeline a (unlink_task a s) unlinked-IsLoose
            (unlink_task-Timeline a s w.0 w.1 here),
        insert_task-Owned a (unlink_task a s) unlinked-IsLoose.absent
            (unfold unlink_task in omega arith) (unfold unlink_task in omega arith) unlinked-Owned,
        reinsert-Load,
      )

  pub move_task-eq : move_task a s ≡ insert_task a (unlink_task a s)
  unfolding move_task
  move_task-eq =
      let once = w.1.once a in
      rw
        (
          on_rq_of_count a s w.0 w.1 here,
          move_task,
          holds-zero a s.curr (omega arith),
          remove-unlink a s w.0 w.1 here,
        )
        refl

pub set_nice-WellFormed :
    (p nice : ℤ) (s : Cfs) → WellFormed s → WellFormed (cfs_set_nice p nice s).1
unfolding cfs_set_nice
set_nice-WellFormed p nice s w = elim (Option-cases (find_task p s)) [
  | inl e ↦ unfold set_nice_at in rw (e, set_nice_at) w
  | inr (a, e) ↦
      let here = find_task-count p a s e in
      let s1 = set_weight a (clamp_nice nice) s in
      let w1 = set_weight-WellFormed a (clamp_nice nice) s w here in
      let here1 : 1 ≤ count a s1.tasks_timeline = unfold set_weight in here in
      unfold set_nice_at in
      rw (e, set_nice_at, move_task-eq a s1 w1 here1) (reinsert-WellFormed a s1 w1 here1)
]
