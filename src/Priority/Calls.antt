-- ===== src/Priority/Calls.antt =====
-- Sequences of calls of priority.c, in any order and with any arguments.
use scheduler_module.Base.{
  ℕ, ◌+◌, ◌-◌, ◌<◌, ℤ, Bool, ◌≡◌, refl, List, [], ◌∷◌, arith, All, u32_mod, inc32,
}
use scheduler_module.Base.Keyed
use scheduler_module.Kernel.{Kernel}
use scheduler_module.Priority.Queue.{Node, node_pid, Config, priority_max, age_walk}
use scheduler_module.Priority.{
  Priority, priority_init, priority_shutdown, priority_insert_ordered, priority_enqueue,
  priority_dequeue, priority_schedule, priority_yield, priority_preempt, priority_set,
}
use scheduler_module.Priority.Aging.{
  priority_boost, priority_decay, priority_reset, priority_age_all, priority_check_starvation,
  age_step, priority_tick, priority_aging_enable, priority_set_aging_interval, priority_reset_stats,
}
use scheduler_module.Priority.Sorted.{Sorted}
use scheduler_module.Priority.Walks.{
  age_walk-SameKeys, starvation_walk-SameKeys, wait_walk-SameKeys,
}
use scheduler_module.Priority.Invariant.{
  IsQueue, SameKeys-IsQueue, priority_init-IsQueue, priority_enqueue-IsQueue,
  priority_dequeue-IsQueue, priority_schedule-IsQueue, priority_yield-IsQueue,
  priority_preempt-IsQueue, priority_set-IsQueue,
}
use scheduler_module.Priority.Order.{
  priority_insert_ordered-Sorted, priority_enqueue-Sorted, priority_dequeue-Sorted,
  priority_schedule-Sorted, priority_yield-Sorted, priority_preempt-Sorted, priority_set-Sorted,
  priority_age_all-Sorted,
}

-- The calls of the scheduler, with their arguments.
pub data Call : Type 0 where
  enqueue dequeue insert_ordered boost decay reset : ℤ → Call
  set : ℤ → ℕ → Call
  aging_enable : Bool → Call
  set_aging_interval : ℕ → Call
  init shutdown schedule yield preempt age_all check_starvation tick reset_stats : Call

-- Every call but the shutdown, which drops the queue without giving its nodes back, and
-- priority_insert_ordered, which does not look whether the process is queued.
abbrev pub KeepsNodes : Call → Type 0
KeepsNodes shutdown = ⊥
KeepsNodes (insert_ordered p) = ⊥
KeepsNodes _ = Unit {0}

-- The calls that change current_priority without moving the node.
abbrev pub KeepsOrder : Call → Type 0
KeepsOrder (boost p) = ⊥
KeepsOrder (decay p) = ⊥
KeepsOrder (reset p) = ⊥
KeepsOrder check_starvation = ⊥
KeepsOrder tick = ⊥
KeepsOrder _ = Unit {0}

module _ (c : Config) where
  unfoldable pub step : Kernel × Priority → Call → Kernel × Priority
  step (k, s) (enqueue p) = (k, priority_enqueue c k p s)
  step (k, s) (dequeue p) = (k, priority_dequeue c p s)
  step (k, s) (insert_ordered p) = (k, priority_insert_ordered c k p s)
  step (k, s) init = (k, priority_init c)
  step (k, s) shutdown = (k, priority_shutdown c s)
  step (k, s) (boost p) = priority_boost c k p s
  step (k, s) (decay p) = (k, priority_decay c p s)
  step (k, s) (reset p) = (k, priority_reset c p s)
  step (k, s) (set p n) = priority_set c k p n s
  step (k, s) (aging_enable b) = (k, priority_aging_enable b s)
  step (k, s) (set_aging_interval n) = (k, priority_set_aging_interval n s)
  step (k, s) schedule = priority_schedule c k s
  step (k, s) yield = priority_yield c k s
  step (k, s) preempt = priority_preempt c k s
  step (k, s) age_all = (k, priority_age_all c s)
  step (k, s) check_starvation = (k, priority_check_starvation c s)
  step (k, s) tick = priority_tick c k s
  step (k, s) reset_stats = (k, priority_reset_stats s)

  unfoldable pub run : Kernel × Priority → List Call → Kernel × Priority
  run w [] = w
  run w (a ∷ calls) = run (step w a) calls

module _ (c : Config) (fits : c.nproc < u32_mod) where
  update-IsQueue :
      (p : ℤ) (f : Node → Node) (s : Priority)
      → ((m : Node) → (f m).pid ≡ m.pid)
      → IsQueue c s
      → IsQueue c (record s { queue = Keyed.update node_pid p f s.queue })
  update-IsQueue p f s keeps i =
      SameKeys-IsQueue c fits s _ (Keyed.update-SameKeys node_pid p f s.queue keeps) refl refl refl
        i

  boost-IsQueue :
      (k : Kernel) (p : ℤ) (s : Priority) → IsQueue c s → IsQueue c (priority_boost c k p s).1
  unfolding priority_boost
  boost-IsQueue k p s i = ground (
    arith,
    update-IsQueue p (λ (m : Node). record m { current_priority = m.current_priority + 1 }) s
        (λ (m : Node). refl) i,
  )

  decay-IsQueue : (p : ℤ) (s : Priority) → IsQueue c s → IsQueue c (priority_decay c p s)
  unfolding priority_decay
  decay-IsQueue p s i = ground (
    arith,
    update-IsQueue p (λ (m : Node). record m { current_priority = m.current_priority - 1 }) s
        (λ (m : Node). refl) i,
  )

  reset-IsQueue : (p : ℤ) (s : Priority) → IsQueue c s → IsQueue c (priority_reset c p s)
  unfolding priority_reset
  reset-IsQueue p s i = ground (
    arith,
    update-IsQueue p (λ (m : Node). record m { current_priority = m.base_priority }) s
        (λ (m : Node). refl) i,
  )

  age_all-IsQueue : (s : Priority) → IsQueue c s → IsQueue c (priority_age_all c s)
  unfolding priority_age_all
  age_all-IsQueue s i =
      let walked = age_walk c.aging_amount s.stats.aging_boosts s.queue in
      let t : Priority = record s {
        queue = walked.1;
        stats = record (s.stats) { aging_boosts = walked.0 };
      } in
      let same = age_walk-SameKeys c.aging_amount s.stats.aging_boosts s.queue in
      let aged : IsQueue c t = SameKeys-IsQueue c fits s t same refl refl refl i in
      ground (arith, aged, i)

  check_starvation-IsQueue :
      (s : Priority) → IsQueue c s → IsQueue c (priority_check_starvation c s)
  unfolding priority_check_starvation
  check_starvation-IsQueue s i =
      SameKeys-IsQueue c fits s _ (starvation_walk-SameKeys _ _ _ s.queue) refl refl refl i

  age_step-IsQueue : (s : Priority) → IsQueue c s → IsQueue c (age_step c s)
  unfolding age_step
  age_step-IsQueue s i =
      let s1 : Priority = record s { aging_counter = inc32 s.aging_counter } in
      let i1 : IsQueue c s1 =
        SameKeys-IsQueue c fits s s1 (Keyed.SameKeys-refl node_pid s.queue) refl refl refl i in
      let i2 = age_all-IsQueue s1 i1 in
      let i3 : IsQueue c (record (priority_age_all c s1) { aging_counter = 0 }) =
        SameKeys-IsQueue c fits (priority_age_all c s1) _ (Keyed.SameKeys-refl node_pid _) refl refl
          refl i2 in
      ground (arith, i, i1, i3)

  tick-IsQueue : (k : Kernel) (s : Priority) → IsQueue c s → IsQueue c (priority_tick c k s).1
  unfolding priority_tick
  tick-IsQueue k s i = check_starvation-IsQueue _ (
      age_step-IsQueue _
        (SameKeys-IsQueue c fits s _ (wait_walk-SameKeys s.queue) refl refl refl i))

  pub step-IsQueue :
      (k : Kernel) (s : Priority) (a : Call)
      → KeepsNodes a
      → IsQueue c s
      → IsQueue c (step c (k, s) a).1
  unfolding step priority_aging_enable priority_set_aging_interval priority_reset_stats
  step-IsQueue k s (enqueue p) ok i = priority_enqueue-IsQueue c fits k p s i
  step-IsQueue k s (dequeue p) ok i = priority_dequeue-IsQueue c fits p s i
  step-IsQueue k s (boost p) ok i = boost-IsQueue k p s i
  step-IsQueue k s (decay p) ok i = decay-IsQueue p s i
  step-IsQueue k s (reset p) ok i = reset-IsQueue p s i
  step-IsQueue k s (set p n) ok i = priority_set-IsQueue c fits k p n s i
  step-IsQueue k s (aging_enable b) ok i =
      SameKeys-IsQueue c fits s _ (Keyed.SameKeys-refl node_pid s.queue) refl refl refl i
  step-IsQueue k s (set_aging_interval n) ok i =
      SameKeys-IsQueue c fits s _ (Keyed.SameKeys-refl node_pid s.queue) refl refl refl i
  step-IsQueue k s (insert_ordered p) ok i = absurd ok
  step-IsQueue k s init ok i = priority_init-IsQueue c fits
  step-IsQueue k s shutdown ok i = absurd ok
  step-IsQueue k s schedule ok i = priority_schedule-IsQueue c fits k s i
  step-IsQueue k s yield ok i = priority_yield-IsQueue c fits k s i
  step-IsQueue k s preempt ok i = priority_preempt-IsQueue c fits k s i
  step-IsQueue k s age_all ok i = age_all-IsQueue s i
  step-IsQueue k s check_starvation ok i = check_starvation-IsQueue s i
  step-IsQueue k s tick ok i = tick-IsQueue k s i
  step-IsQueue k s reset_stats ok i = record {
    list = record {
      range = i.list.range;
      distinct = i.list.distinct;
      count = i.list.count;
      room = i.list.room;
    };
    counted = i.list.count;
  }

  run-IsQueue :
      (k : Kernel) (s : Priority) (calls : List Call)
      → All KeepsNodes calls
      → IsQueue c s
      → IsQueue c (run c (k, s) calls).1
  unfolding run
  run-IsQueue k s [] ok i = i
  run-IsQueue k s (a ∷ calls) ok i =
      let (k', s') = step c (k, s) a in run-IsQueue k' s' calls ok.1 (step-IsQueue k s a ok.0 i)

  -- With NPROC below 2 ^ 32, after priority_init and any calls of the functions of priority.h that
  -- change the state, priority_init among them, but of priority_shutdown and
  -- priority_insert_ordered, the queued processes are distinct and in range, prio_queue_count and
  -- the statistics hold the length of the queue, and each of the NPROC nodes is queued or free.
  pub run-init-IsQueue :
      (k : Kernel) (calls : List Call)
      → All KeepsNodes calls
      → IsQueue c (run c (k, priority_init c) calls).1
  run-init-IsQueue k calls ok =
      run-IsQueue k (priority_init c) calls ok (priority_init-IsQueue c fits)

init-Sorted : (c : Config) → Sorted (priority_init c).queue
unfolding priority_init
init-Sorted c = tt

module _ (c : Config) (small : priority_max + c.aging_amount < u32_mod) where
  step-Sorted :
      (k : Kernel) (s : Priority) (a : Call)
      → KeepsOrder a
      → Sorted s.queue
      → Sorted (step c (k, s) a).1.queue
  unfolding step priority_shutdown priority_aging_enable priority_set_aging_interval
      priority_reset_stats
  step-Sorted k s (enqueue p) h o = priority_enqueue-Sorted c k p s o
  step-Sorted k s (dequeue p) h o = priority_dequeue-Sorted c p s o
  step-Sorted k s (insert_ordered p) h o = priority_insert_ordered-Sorted c k p s o
  step-Sorted k s init h o = init-Sorted c
  step-Sorted k s shutdown h o = tt
  step-Sorted k s (boost p) h o = absurd h
  step-Sorted k s (decay p) h o = absurd h
  step-Sorted k s (reset p) h o = absurd h
  step-Sorted k s (set p n) h o = priority_set-Sorted c k p n s o
  step-Sorted k s (aging_enable b) h o = o
  step-Sorted k s (set_aging_interval n) h o = o
  step-Sorted k s schedule h o = priority_schedule-Sorted c k s o
  step-Sorted k s yield h o = priority_yield-Sorted c k s o
  step-Sorted k s preempt h o = priority_preempt-Sorted c k s o
  step-Sorted k s age_all h o = priority_age_all-Sorted c s small o
  step-Sorted k s check_starvation h o = absurd h
  step-Sorted k s tick h o = absurd h
  step-Sorted k s reset_stats h o = o

  run-Sorted :
      (k : Kernel) (s : Priority) (calls : List Call)
      → All KeepsOrder calls
      → Sorted s.queue
      → Sorted (run c (k, s) calls).1.queue
  unfolding run
  run-Sorted k s [] h o = o
  run-Sorted k s (a ∷ calls) h o =
      let (k', s') = step c (k, s) a in run-Sorted k' s' calls h.1 (step-Sorted k s a h.0 o)

  -- If the aging amount cannot overflow, the queue is in descending order of current priority
  -- after priority_init and any calls of init, shutdown, enqueue, dequeue, insert_ordered, set,
  -- schedule, yield, preempt, age_all, reset_stats and the two aging settings.
  pub run-init-Sorted :
      (k : Kernel) (calls : List Call)
      → All KeepsOrder calls
      → Sorted (run c (k, priority_init c) calls).1.queue
  run-init-Sorted k calls h = run-Sorted k (priority_init c) calls h (init-Sorted c)
