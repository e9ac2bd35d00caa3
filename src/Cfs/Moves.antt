-- ===== src/Cfs/Moves.antt =====
-- Enqueueing keeps the run queue of cfs.c well formed.
use scheduler_module.Base.{
  ℕ, zero, suc, ◌+◌, ◌*◌, ◌≤◌, ◌<◌, ℤ, pos, negsuc, true, false, Option, none, some, List, [], ◌∷◌,
  ◌≡◌, refl, sym, ap, ◌∙◌, subst, ◌==◌, inl, inr, Bool-cases, arith, length, All,
}
use scheduler_module.Cfs.Weights.{table_entry, weight_table, nice_index, cfs_nice_to_weight, max64}
use scheduler_module.Cfs.{
  Cfs, max_tasks, write_task, alloc_task, find_task, insert_task, cfs_place_task, placed_vruntime,
}
use scheduler_module.Cfs.Tasks.{Task, zero_task, write, is_task, insert_walk}
use scheduler_module.Cfs.Queueing.{add_task, new_task, enqueue_new, enqueue_at, cfs_enqueue}
use scheduler_module.Cfs.Timeline.{
  count, holds, IsQueued, sum_weights, write_off, write_self, find_walk-count, count-insert,
}
use scheduler_module.Cfs.Invariant.{
  IsOff, IsLoose, Timeline, Owned, Load, WellFormed, Same-IsTimeline, Same-IsLoad,
  insert_task-Timeline, insert_task-sums, on_rq_of_count,
}

-- The weights of the queued tasks are those of the table.
pub sum_weights_bounds :
    (pool : ℕ → Task) (tasks : List ℕ)
    → All (IsQueued pool) tasks
    → (15 * length tasks ≤ sum_weights pool tasks) × (sum_weights pool tasks ≤ 88761 * length tasks)
sum_weights_bounds pool [] q = omega arith
sum_weights_bounds pool (a ∷ as') q =
    let rest = sum_weights_bounds pool as' q.1 in let here = q.0 in omega arith

pub table_entry-All :
    (P : ℕ → Type 0) (i : ℕ) (ws : List ℕ) → All P ws → i < length ws → P (table_entry i ws)
unfolding table_entry
table_entry-All P i [] a h = absurd (omega arith)
table_entry-All P zero (w ∷ ws) a h = a.0
table_entry-All P (suc i) (w ∷ ws) a h = table_entry-All P i ws a.1 (omega arith)

pub nice_index_bound : (nice : ℤ) → nice_index nice < 40
unfolding nice_index
nice_index_bound (pos n) = ground arith
nice_index_bound (negsuc n) = omega arith

pub nice_to_weight_bounds :
    (nice : ℤ) → (15 ≤ cfs_nice_to_weight nice) × (cfs_nice_to_weight nice ≤ 88761)
unfolding cfs_nice_to_weight
nice_to_weight_bounds nice =
    table_entry-All (λ w. (15 ≤ w) × (w ≤ 88761)) (nice_index nice) weight_table (omega arith)
      (nice_index_bound nice)

pub holds-zero : (a : ℕ) (curr : Option ℕ) → holds a curr ≡ 0 → is_task a curr ≡ false
unfolding is_task
holds-zero a none h = refl
holds-zero a (some b) h = ground arith

pub write_loose-IsOff :
    (a : ℕ) (f : Task → Task) (pool : ℕ → Task) (curr : Option ℕ)
    → holds a curr ≡ 0
    → IsOff pool curr
    → IsOff (write a f pool) curr
unfolding write
write_loose-IsOff a f pool none h o = tt
write_loose-IsOff a f pool (some b) h o = ground arith

pub find_task-count :
    (p : ℤ) (a : ℕ) (s : Cfs) → find_task p s ≡ some a → 1 ≤ count a s.tasks_timeline
unfolding find_task
find_task-count p a s e = find_walk-count s.task_pool p s.tasks_timeline a e

-- Any write to a task that is neither queued nor running.
write_loose-WellFormed :
    (a : ℕ) (f : Task → Task) (s : Cfs)
    → count a s.tasks_timeline ≡ 0
    → holds a s.curr ≡ 0
    → WellFormed s
    → WellFormed (write_task a f s)
unfolding write_task
write_loose-WellFormed a f s c h (t, o, l) =
    let same = write_off a f s.task_pool s.tasks_timeline c in
    (
      Same-IsTimeline s.task_pool (write a f s.task_pool) s.tasks_timeline same t,
      record { once = o.once; off = write_loose-IsOff a f s.task_pool s.curr h o.off },
      Same-IsLoad s.task_pool (write a f s.task_pool) s.tasks_timeline same l,
    )

pub insert_task-Owned :
    (a : ℕ) (s : Cfs)
    → count a s.tasks_timeline ≡ 0
    → count a s.free_tasks ≡ 0
    → holds a s.curr ≡ 0
    → Owned s
    → Owned (insert_task a s)
unfolding insert_task
insert_task-Owned a s n c h o =
    let pool = write a (λ (x : Task). record x { on_rq = true }) s.task_pool in
    record {
      once = λ b.
          let once = o.once b in
          let e = count-insert pool a b s.tasks_timeline in
          elim (Bool-cases (b == a)) [
            | inl same ↦
                let b-eq : b ≡ a = ground arith in
                subst
                  (λ (x : ℕ).
                    count x (insert_walk pool a s.tasks_timeline)
                      + count x s.free_tasks
                      + holds x s.curr
                    ≤ 1)
                  (sym b-eq) (ground (arith, count-insert pool a a s.tasks_timeline))
            | inr other ↦ ground arith
          ];
      off = write_loose-IsOff a _ s.task_pool s.curr h o.off;
    }

add_task-Load :
    (a : ℕ) (s : Cfs)
    → IsLoose s a
    → s.nr_running + length s.free_tasks < max_tasks
    → Timeline s
    → Load s
    → Load (add_task a s)
unfolding add_task insert_task
add_task-Load a s loose r t l =
    let sums = insert_task-sums a s loose.absent in
    let e : (write a (λ (x : Task). record x { on_rq = true }) s.task_pool a).weight
        ≡ (s.task_pool a).weight =
      ap (λ (x : Task). x.weight) (write_self a _ s.task_pool) in
    let bounds = sum_weights_bounds s.task_pool s.tasks_timeline t.queued in
    let listed = l.listed in
    let low = l.low in
    let high = l.high in
    let heavy = loose.heavy in
    record { listed = omega arith; room = omega arith; low = omega arith; high = omega arith }

-- A task that is nowhere is queued and counted.
add_task-WellFormed :
    (a : ℕ) (s : Cfs)
    → IsLoose s a
    → count a s.free_tasks ≡ 0
    → holds a s.curr ≡ 0
    → s.nr_running + length s.free_tasks < max_tasks
    → WellFormed s
    → WellFormed (add_task a s)
unfolding add_task
add_task-WellFormed a s loose c h r (t, o, l) = (
  insert_task-Timeline a s loose t,
  insert_task-Owned a s loose.absent c h o,
  add_task-Load a s loose r t l,
)

place_new : (least v : ℕ) → least ≤ max64 least v
unfolding max64
place_new least v = ground arith

-- A new task has the weight of nice 0, and stands behind min_vruntime.
new_task-IsLoose :
    (p : ℤ) (a : ℕ) (s : Cfs)
    → count a s.tasks_timeline ≡ 0
    → IsLoose (cfs_place_task a true (write_task a (new_task p s.min_vruntime) s)) a
unfolding cfs_place_task write_task new_task
new_task-IsLoose p a s absent =
    let s1 = write_task a (new_task p s.min_vruntime) s in
    let place =
      λ (x : Task). record x { vruntime = max64 x.vruntime (placed_vruntime true x.weight s1) } in
    let placed = write_self a place s1.task_pool in
    let made = write_self a (new_task p s.min_vruntime) s.task_pool in
    let weight = ap (λ (x : Task). x.weight) placed ∙ ap (λ (x : Task). x.weight) made in
    let vruntime =
      ap (λ (x : Task). x.vruntime) placed ∙ ap (λ (x : Task). (place x).vruntime) made in
    let bounds = nice_to_weight_bounds (pos 0) in
    record {
      absent = absent;
      light = subst (λ (n : ℕ). 15 ≤ n) (sym weight) bounds.0;
      heavy = subst (λ (n : ℕ). n ≤ 88761) (sym weight) bounds.1;
      above = subst (λ (n : ℕ). s.min_vruntime ≤ n) (sym vruntime) (place_new s.min_vruntime _);
    }

-- A new task takes the first free place.
enqueue_new-WellFormed :
    (p : ℤ) (free : List ℕ) (s : Cfs)
    → s.free_tasks ≡ free
    → WellFormed s
    → WellFormed (enqueue_new p free s)
unfolding enqueue_new alloc_task cfs_place_task write_task
enqueue_new-WellFormed p [] s e w = w
enqueue_new-WellFormed p (a ∷ rest) s e (t, o, l) =
    let once = o.once a in
    let free : count a s.free_tasks ≡ suc (count a rest) = rw e (ground arith) in
    let size : length s.free_tasks ≡ suc (length rest) = rw e refl in
    let room = l.room in
    let low = l.low in
    let high = l.high in
    let absent : count a s.tasks_timeline ≡ 0 = omega arith in
    let idle : holds a s.curr ≡ 0 = omega arith in
    let s1 : Cfs = record s { free_tasks = rest } in
    let w1 : WellFormed s1 = (
      t,
      record {
        once = λ b.
            let once' = o.once b in
            let more : count b rest ≤ count b s.free_tasks = rw e (omega arith) in omega arith;
        off = o.off;
      },
      record { listed = l.listed; room = omega arith; low = low; high = high },
    ) in
    let s2 = write_task a (λ x. zero_task) s1 in
    let s3 = write_task a (new_task p s.min_vruntime) s2 in
    let w3 : WellFormed s3 =
      write_loose-WellFormed a _ s2 absent idle (write_loose-WellFormed a _ s1 absent idle w1) in
    let s4 = cfs_place_task a true s3 in
    add_task-WellFormed a s4 (new_task-IsLoose p a s2 absent) (omega arith) idle (omega arith)
      (write_loose-WellFormed a _ s3 absent idle w3)

pub enqueue-WellFormed : (p : ℤ) (s : Cfs) → WellFormed s → WellFormed (cfs_enqueue p s)
unfolding cfs_enqueue
enqueue-WellFormed p s w = enqueue_found (find_task p s) refl
  where
    enqueue_found : (f : Option ℕ) → find_task p s ≡ f → WellFormed (enqueue_at p f s)
    enqueue_found none e = unfold enqueue_at in enqueue_new-WellFormed p s.free_tasks s refl w
    enqueue_found (some a) e =
        let on = on_rq_of_count a s w.0 w.1 (find_task-count p a s e) in
        unfold enqueue_at in rw on w
