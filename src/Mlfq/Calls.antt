-- ===== src/Mlfq/Calls.antt =====
-- Sequences of calls of multilevel_queue.c, in any order and with any arguments, the values of the
-- variables that mlfq_find_node leaves unset among them.
use scheduler_module.Base.{
  ℕ, ◌-◌, ◌<◌, ℤ, in_range, Bool, true, not, ◌&&◌, ◌||◌, ◌≡◌, refl, ap, none, List, [], ◌∷◌, ◌==◌,
  leb, ltb, arith, u32_mod, inc32, subst, sym, ◌⊎◌, All, length, inl, inr, Bool-cases, Option-cases,
  if-case,
}
use scheduler_module.Kernel.{Kernel}
use scheduler_module.Mlfq.{
  Node, Queue, Mlfq, num_levels, change, start_level, mlfq_find_node, free_node, forget, add_new,
  move_node, mlfq_init, mlfq_shutdown, mlfq_enqueue, mlfq_dequeue, mlfq_move_to_level, double,
}
use scheduler_module.Mlfq.Running.{
  update_node, mlfq_demote, mlfq_promote, mlfq_schedule, mlfq_yield, mlfq_preempt,
  mlfq_priority_boost, mlfq_set_boost_interval, mlfq_boost_enable, mlfq_io_bonus_enable,
  mlfq_set_quantum, mlfq_tick, mlfq_reset_stats, bonus_level, io_bonus, io_done_node, mlfq_io_done,
}
use scheduler_module.Mlfq.Held.{hits, sum-same}
use scheduler_module.Mlfq.Invariant.{IsLevel, IsHeld, Stands, add-IsHeld, remove-IsHeld}
use scheduler_module.Mlfq.Moves.{
  away-held, same_queues-IsHeld, update-IsHeld, move-IsHeld, with-IsHeld, demote-IsHeld,
  promote-IsHeld, boost-IsHeld,
}
use scheduler_module.Mlfq.Turns.{schedule-IsHeld, yield-IsHeld, preempt-IsHeld, tick-IsHeld}

-- The calls of the scheduler, with their arguments behind those for the unset variables.
pub data Call : Type 0 where
  enqueue dequeue : ℤ → Call
  demote promote io_done : ℕ → ℤ → Call
  move_to_level : ℤ → ℕ → Call
  schedule : ℕ → Call
  yield preempt : ℕ → ℕ → Call
  set_quantum : ℕ → ℕ → Call
  set_boost_interval : ℕ → Call
  boost_enable io_bonus_enable : Bool → Call
  init shutdown boost tick reset_stats : Call

-- The unset variables hold numbers of levels: with others the code of C reads and writes outside its
-- arrays. The shutdown, which drops the queues without giving their nodes back, is not allowed.
abbrev pub IsAllowed : Call → Type 0
IsAllowed (demote level p) = level < num_levels
IsAllowed (promote level p) = level < num_levels
IsAllowed (io_done level p) = level < num_levels
IsAllowed (schedule level) = level < num_levels
IsAllowed (yield promoted scheduled) = (promoted < num_levels) × (scheduled < num_levels)
IsAllowed (preempt demoted scheduled) = (demoted < num_levels) × (scheduled < num_levels)
IsAllowed shutdown = ⊥
IsAllowed _ = Unit {0}

unfoldable pub step : ℕ → Kernel × Mlfq → Call → Kernel × Mlfq
step nproc (k, s) (enqueue p) = (k, mlfq_enqueue nproc k p s)
step nproc (k, s) (dequeue p) = (k, mlfq_dequeue nproc p s)
step nproc (k, s) (demote level p) = (k, mlfq_demote level p s)
step nproc (k, s) (promote level p) = (k, mlfq_promote level p s)
step nproc (k, s) (io_done level p) = (k, mlfq_io_done nproc level p s)
step nproc (k, s) (move_to_level p level) = (k, mlfq_move_to_level nproc p level s)
step nproc (k, s) (schedule level) = mlfq_schedule level k s
step nproc (k, s) (yield promoted scheduled) = mlfq_yield promoted scheduled k s
step nproc (k, s) (preempt demoted scheduled) = mlfq_preempt demoted scheduled k s
step nproc (k, s) (set_quantum level q) = (k, mlfq_set_quantum level q s)
step nproc (k, s) (set_boost_interval n) = (k, mlfq_set_boost_interval n s)
step nproc (k, s) (boost_enable b) = (k, mlfq_boost_enable b s)
step nproc (k, s) (io_bonus_enable b) = (k, mlfq_io_bonus_enable b s)
step nproc (k, s) init = (k, mlfq_init nproc s)
step nproc (k, s) shutdown = (k, mlfq_shutdown s)
step nproc (k, s) boost = (k, mlfq_priority_boost s)
step nproc (k, s) tick = mlfq_tick k s
step nproc (k, s) reset_stats = (k, mlfq_reset_stats s)

unfoldable pub run : ℕ → Kernel × Mlfq → List Call → Kernel × Mlfq
run nproc w [] = w
run nproc w (a ∷ calls) = run nproc (step nproc w a) calls

module _ (nproc : ℕ) (fits : nproc < u32_mod) where
  abbrev Good : Mlfq → Type 0
  Good s = IsHeld nproc 0 s

  abbrev GoodPair : Kernel × Mlfq → Type 0
  GoodPair w = Good w.1

  init-IsHeld : (s : Mlfq) → Good (mlfq_init nproc s)
  unfolding mlfq_init
  init-IsHeld s = record { levels = init_level; once = λ p. omega arith; room = omega arith }
    where
      init_level :
          (l : ℕ)
          → l < num_levels
          → IsLevel nproc l
              ((mlfq_init nproc s).queues l)
              ((mlfq_init nproc s).stats.per_level_count l)
      init_level l lt = let low : ltb l num_levels ≡ true = ground arith in rw low (tt, refl, refl)

  add_new-IsHeld :
      (k : Kernel) (p : ℤ) (s : Mlfq)
      → Good s
      → mlfq_find_node p s ≡ none
      → in_range nproc p ≡ true
      → 0 < s.free_nodes
      → Good (add_new k p s)
  unfolding add_new
  add_new-IsHeld k p s w e range free =
      let room = w.room in
      let s1 = record s { free_nodes = s.free_nodes - 1 } in
      let w1 : IsHeld nproc 1 s1 = record {
        levels = w.levels;
        once = w.once;
        room = omega arith;
      } in
      add-IsHeld nproc _ (start_level (k.proctab p).pprio) s1 0 fits w1 (away-held nproc p s e)
        range

  enqueue-IsHeld : (k : Kernel) (p : ℤ) (s : Mlfq) → Good s → Good (mlfq_enqueue nproc k p s)
  unfolding mlfq_enqueue
  enqueue-IsHeld k p s w = elim (Bool-cases (in_range nproc p)) [
    | inr out ↦ rw (out, mlfq_enqueue) w
    | inl range ↦ elim (Option-cases (mlfq_find_node p s)) [
      | inr (n, e) ↦ rw (range, e, mlfq_enqueue) w
      | inl e ↦ elim (Bool-cases (s.free_nodes == 0)) [
        | inl full ↦ rw (range, e, full, mlfq_enqueue) w
        | inr free ↦
            rw (range, e, free, mlfq_enqueue) (add_new-IsHeld k p s w e range (ground arith))
      ]
    ]
  ]

  free_node-IsHeld : (n : Node) (s : Mlfq) → Good s → Stands nproc n s → Good (free_node n s)
  unfolding free_node
  free_node-IsHeld n s w here =
      let s1 : Mlfq = record s { current_node = forget n.pid s.current_node } in
      let w1 : Good s1 = same_queues-IsHeld nproc s s1 refl refl refl w in
      let gone = (remove-IsHeld nproc n s1 fits w1 here).0 in
      let room = gone.room in record { levels = gone.levels; once = gone.once; room = omega arith }

  dequeue-IsHeld : (p : ℤ) (s : Mlfq) → Good s → Good (mlfq_dequeue nproc p s)
  unfolding mlfq_dequeue
  dequeue-IsHeld p s w =
      if-case Good (not (in_range nproc p)) _ _ w
        (with-IsHeld nproc fits p free_node s (λ n here. free_node-IsHeld n s w here) w)

  move_to_level-IsHeld :
      (p : ℤ) (level : ℕ) (s : Mlfq) → Good s → Good (mlfq_move_to_level nproc p level s)
  unfolding mlfq_move_to_level
  move_to_level-IsHeld p level s w =
      if-case Good (not (in_range nproc p) || leb num_levels level) _ _ w (
        with-IsHeld nproc fits p (move_node level) s
          (λ n here. move-IsHeld nproc fits level n s w here) w)

  io_bonus-IsHeld : (level : ℕ) (n : Node) (s : Mlfq) → Good s → Good (io_bonus nproc level n s)
  unfolding io_bonus
  io_bonus-IsHeld level n s w = if-case Good (bonus_level level == level) _ _ w (
      same_queues-IsHeld nproc (mlfq_move_to_level nproc n.pid (bonus_level level) s) _ refl refl
        refl (move_to_level-IsHeld n.pid (bonus_level level) s w))

  io_done_node-IsHeld :
      (level : ℕ) (n : Node) (s : Mlfq) → Good s → Good (io_done_node nproc level n s)
  unfolding io_done_node
  io_done_node-IsHeld level n s w =
      let s1 = update_node n.pid (λ (m : Node). record m { io_count = inc32 m.io_count }) s in
      let w1 : Good s1 = update-IsHeld nproc n.pid _ s (λ m. (refl, refl)) w in
      if-case Good (ltb 3 (inc32 n.io_count) && ltb 0 level) _ _
        (update-IsHeld nproc n.pid _ (io_bonus nproc level n s1) (λ m. (refl, refl))
          (io_bonus-IsHeld level n s1 w1))
        w1

  io_done-IsHeld : (level : ℕ) (p : ℤ) (s : Mlfq) → Good s → Good (mlfq_io_done nproc level p s)
  unfolding mlfq_io_done
  io_done-IsHeld level p s w = if-case Good (not s.io_bonus_enabled) _ _ w (
      with-IsHeld nproc fits p (io_done_node nproc level) s
        (λ n here. io_done_node-IsHeld level n s w) w)

  -- Every level has the nodes and the counters that it had.
  same_levels-IsHeld :
      (s t : Mlfq)
      → ((l : ℕ)
          → ((t.queues l).nodes ≡ (s.queues l).nodes) × ((t.queues l).count ≡ (s.queues l).count))
      → t.free_nodes ≡ s.free_nodes
      → ((l : ℕ)
          → l < num_levels
          → (t.stats.per_level_count l ≡ s.stats.per_level_count l)
            ⊎ (t.stats.per_level_count l ≡ (s.queues l).count))
      → Good s
      → Good t
  same_levels-IsHeld s t same free counts w =
      let room = w.room in
      let total =
        sum-same 8 0 (λ l. length (s.queues l).nodes) (λ l. length (t.queues l).nodes)
          (λ l h. ap length (same l).0) in
      record {
        levels = λ l lt.
            let (fit, c, d) = w.levels l lt in
            let (nodes_kept, count_kept) = same l in
            let size = ap length nodes_kept in
            let kept = counts l lt in
            (subst (All _) (sym nodes_kept) fit, omega arith, ground arith);
        once = λ p.
            let old = w.once p in
            let hit =
              sum-same 8 0 (λ l. hits p (s.queues l).nodes) (λ l. hits p (t.queues l).nodes)
                (λ l h. ap (hits p) (same l).0) in
            omega arith;
        room = omega arith;
      }

  set_quantum-IsHeld : (level q : ℕ) (s : Mlfq) → Good s → Good (mlfq_set_quantum level q s)
  unfolding mlfq_set_quantum change
  set_quantum-IsHeld level q s w =
      if-case Good (leb num_levels level) _ _ w
        (same_levels-IsHeld s _ (kept level) refl (λ l lt. inl refl) w)
    where
      kept :
          (i l : ℕ)
          → let r =
              change i (λ (r : Queue). record r { quantum = q; allotment = double q }) s.queues l in
            (r.nodes ≡ (s.queues l).nodes) × (r.count ≡ (s.queues l).count)
      kept i l = elim (Bool-cases (i == l)) [
        | inl e ↦ rw (e, change) (refl, refl)
        | inr e ↦ rw (e, change) (refl, refl)
      ]

  reset_stats-IsHeld : (s : Mlfq) → Good s → Good (mlfq_reset_stats s)
  unfolding mlfq_reset_stats
  reset_stats-IsHeld s w =
      same_levels-IsHeld s _ (λ l. (refl, refl)) refl (λ l lt. inr (ground arith)) w

  step-IsHeld :
      (k : Kernel) (s : Mlfq) (a : Call) → IsAllowed a → Good s → GoodPair (step nproc (k, s) a)
  unfolding step mlfq_set_boost_interval mlfq_boost_enable mlfq_io_bonus_enable
  step-IsHeld k s (enqueue p) ok w = enqueue-IsHeld k p s w
  step-IsHeld k s (dequeue p) ok w = dequeue-IsHeld p s w
  step-IsHeld k s (demote level p) ok w = demote-IsHeld nproc fits level p s w
  step-IsHeld k s (promote level p) ok w = promote-IsHeld nproc fits level p s w
  step-IsHeld k s (io_done level p) ok w = io_done-IsHeld level p s w
  step-IsHeld k s (move_to_level p level) ok w = move_to_level-IsHeld p level s w
  step-IsHeld k s (schedule level) ok w = schedule-IsHeld nproc fits level k s w
  step-IsHeld k s (yield promoted scheduled) ok w = yield-IsHeld nproc fits promoted scheduled k s w
  step-IsHeld k s (preempt demoted scheduled) ok w =
      preempt-IsHeld nproc fits demoted scheduled k s w
  step-IsHeld k s (set_quantum level q) ok w = set_quantum-IsHeld level q s w
  step-IsHeld k s (set_boost_interval n) ok w = same_queues-IsHeld nproc s _ refl refl refl w
  step-IsHeld k s (boost_enable b) ok w = same_queues-IsHeld nproc s _ refl refl refl w
  step-IsHeld k s (io_bonus_enable b) ok w = same_queues-IsHeld nproc s _ refl refl refl w
  step-IsHeld k s init ok w = init-IsHeld s
  step-IsHeld k s shutdown ok w = absurd ok
  step-IsHeld k s boost ok w = boost-IsHeld nproc fits s w
  step-IsHeld k s tick ok w = tick-IsHeld nproc fits k s w
  step-IsHeld k s reset_stats ok w = reset_stats-IsHeld s w

  run-IsHeld :
      (k : Kernel) (s : Mlfq) (calls : List Call)
      → All IsAllowed calls
      → Good s
      → GoodPair (run nproc (k, s) calls)
  unfolding run
  run-IsHeld k s [] ok w = w
  run-IsHeld k s (a ∷ calls) ok w =
      let next = step nproc (k, s) a in
      run-IsHeld next.0 next.1 calls ok.1 (step-IsHeld k s a ok.0 w)

  -- With NPROC below 2 ^ 32, after mlfq_init and any calls but mlfq_shutdown, where the variables
  -- that mlfq_find_node leaves unset hold any levels below 8, no process is queued twice, on one
  -- level or on two, every queued process is in range, each node carries the number of its level,
  -- the count of a level and its per_level_count are how many nodes it has, and each of the NPROC
  -- nodes is queued or free.
  pub run-init-IsHeld :
      (k : Kernel) (s : Mlfq) (calls : List Call)
      → All IsAllowed calls
      → IsHeld nproc 0 (run nproc (k, mlfq_init nproc s) calls).1
  run-init-IsHeld k s calls ok = run-IsHeld k (mlfq_init nproc s) calls ok (init-IsHeld s)
