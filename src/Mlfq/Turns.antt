-- ===== src/Mlfq/Turns.antt =====
-- Who runs next in multilevel_queue.c, with yield, preemption and the tick: the invariant stays.
use scheduler_module.Base.{
  ℕ, ◌<◌, ℤ, eqz, is_neg, in_range, not, ◌&&◌, ◌≡◌, refl, ap, Option, none, some, leb, ltb, arith,
  u32_mod, inc32, ◌∙◌, inc64, add32, if-case,
}
use scheduler_module.Kernel.{Kernel, stop_running}
use scheduler_module.Mlfq.{
  Node, Mlfq, mlfq_find_node, mlfq_remove_from_queue, with_node, mlfq_pick_next,
}
use scheduler_module.Mlfq.Running.{
  update_node, mlfq_promote, count_schedule, note_switch, mlfq_schedule, yield_bonus, yield_node,
  count_io, current_of, mlfq_yield, preempt_node, mlfq_preempt, mlfq_priority_boost, boost_step,
  tick_node, mlfq_tick,
}
use scheduler_module.Mlfq.Held.{hits-update}
use scheduler_module.Mlfq.Invariant.{IsHeld, Stands, add-IsHeld, remove-IsHeld}
use scheduler_module.Mlfq.Moves.{
  same_queues-IsHeld, update-IsHeld, with-IsHeld, demote-IsHeld, promote-IsHeld, boost-IsHeld,
}

module _ (nproc : ℕ) (fits : nproc < u32_mod) where
  abbrev Good : Mlfq → Type 0
  Good s = IsHeld nproc 0 s

  abbrev GoodPair : Kernel × Mlfq → Type 0
  GoodPair w = Good w.1

  pub schedule-IsHeld :
      (level : ℕ) (k : Kernel) (s : Mlfq) → Good s → GoodPair (mlfq_schedule level k s)
  unfolding mlfq_schedule count_schedule note_switch
  schedule-IsHeld level k s w =
      let next = mlfq_pick_next (count_schedule s) in
      let w1 : Good (count_schedule s) = same_queues-IsHeld nproc s _ refl refl refl w in
      if-case GoodPair (is_neg next) _ _ w1 (
        if-case GoodPair (eqz next k.currpid) _ _ w1
          (same_queues-IsHeld nproc s _ refl refl refl w))

  yield_node-IsHeld : (level : ℕ) (n : Node) (s : Mlfq) → Good s → Good (yield_node level n s)
  unfolding yield_node yield_bonus count_io
  yield_node-IsHeld level n s w =
      let s1 = update_node n.pid count_io s in
      let w1 : Good s1 = update-IsHeld nproc n.pid count_io s (λ m. (refl, refl)) w in
      let s2 = mlfq_promote level n.pid s1 in
      let w2 : Good s2 = promote-IsHeld nproc fits level n.pid s1 w1 in
      if-case Good (s1.io_bonus_enabled && ltb 5 (count_io n).io_count) _ _
        (same_queues-IsHeld nproc (update_node n.pid (λ m. record m { io_count = 0 }) s2) _ refl
          refl refl (update-IsHeld nproc n.pid _ s2 (λ m. (refl, refl)) w2))
        w1

  -- What is done with *current_node.
  current-IsHeld :
      (f : Node → Mlfq → Mlfq) (s : Mlfq)
      → ((n : Node) → Stands nproc n s → Good (f n s))
      → Good s
      → Good (with_node (current_of s) f s)
  unfolding with_node current_of
  current-IsHeld f s keep w = found_current s.current_node
    where
      found_current :
          (c : Option ℤ)
          → Good (with_node (elim c [ none ↦ none | some p ↦ mlfq_find_node p s ]) f s)
      found_current none = w
      found_current (some p) = with-IsHeld nproc fits p f s keep w

  pub yield-IsHeld :
      (promoted scheduled : ℕ) (k : Kernel) (s : Mlfq)
      → Good s
      → GoodPair (mlfq_yield promoted scheduled k s)
  unfolding mlfq_yield
  yield-IsHeld promoted scheduled k s w =
      let s1 = with_node (current_of s) (yield_node promoted) s in
      let w1 =
        current-IsHeld (yield_node promoted) s (λ n here. yield_node-IsHeld promoted n s w) w in
      schedule-IsHeld scheduled (stop_running k k.currpid) (record s1 { current_node = none })
        (same_queues-IsHeld nproc s1 _ refl refl refl w1)

  -- A node that stands still stands when it has been written, its pid and level kept.
  written-Stands :
      (n : Node) (f : Node → Node) (s : Mlfq)
      → ((m : Node) → ((f m).pid ≡ m.pid) × ((f m).level ≡ m.level))
      → Stands nproc n s
      → Stands nproc (f n) (update_node n.pid f s)
  unfolding update_node
  written-Stands n f s keeps (lt, here, range) =
      let (pid_kept, level_kept) = keeps n in
      let same = hits-update n.pid n.pid f (s.queues n.level).nodes (λ m. (keeps m).0) in
      (omega arith, rw (pid_kept, level_kept) (omega arith), ap (in_range nproc) pid_kept ∙ range)

  preempt_node-IsHeld :
      (level : ℕ) (n : Node) (s : Mlfq) → Good s → Stands nproc n s → Good (preempt_node level n s)
  unfolding preempt_node
  preempt_node-IsHeld level n s w here =
      let spend : Node → Node =
        λ (m : Node). record m { time_used = add32 m.time_used (s.level_quantums m.level) } in
      let s1 = update_node n.pid spend s in
      let w1 : Good s1 = update-IsHeld nproc n.pid spend s (λ m. (refl, refl)) w in
      let here1 = written-Stands n spend s (λ m. (refl, refl)) here in
      let (gone, away) = remove-IsHeld nproc (spend n) s1 fits w1 here1 in
      if-case Good (leb (spend n).time_allotment (spend n).time_used) _ _
        (demote-IsHeld nproc fits level n.pid s1 w1)
        (add-IsHeld nproc (spend n) n.level (mlfq_remove_from_queue (spend n) s1) 0 fits gone away
          here.2)

  pub preempt-IsHeld :
      (demoted scheduled : ℕ) (k : Kernel) (s : Mlfq)
      → Good s
      → GoodPair (mlfq_preempt demoted scheduled k s)
  unfolding mlfq_preempt
  preempt-IsHeld demoted scheduled k s w =
      let s1 = with_node (current_of s) (preempt_node demoted) s in
      let w1 =
        current-IsHeld (preempt_node demoted) s (λ n here. preempt_node-IsHeld demoted n s w here)
          w in
      schedule-IsHeld scheduled (stop_running k k.currpid) (record s1 { current_node = none })
        (same_queues-IsHeld nproc s1 _ refl refl refl w1)

  boost_step-IsHeld : (s : Mlfq) → Good s → Good (boost_step s)
  unfolding boost_step
  boost_step-IsHeld s w =
      let s1 : Mlfq = record s { boost_counter = inc32 s.boost_counter } in
      let w1 : Good s1 = same_queues-IsHeld nproc s s1 refl refl refl w in
      if-case Good (not s.boost_enabled) _ _ w (
        if-case Good (leb s1.boost_interval s1.boost_counter) _ _
          (same_queues-IsHeld nproc (mlfq_priority_boost s1) _ refl refl refl
            (boost-IsHeld nproc fits s1 w1))
          w1)

  pub tick-IsHeld : (k : Kernel) (s : Mlfq) → Good s → GoodPair (mlfq_tick k s)
  unfolding mlfq_tick
  tick-IsHeld k s w = boost_step-IsHeld _ (ticked (current_of s1))
    where
      s1 : Mlfq
      s1 = record s { ticks = inc64 s.ticks; current_time_used = inc32 s.current_time_used }

      ticked : (c : Option Node) → GoodPair (tick_node c k s1)
      ticked none = unfold tick_node in same_queues-IsHeld nproc s _ refl refl refl w
      ticked (some n) = unfold tick_node in same_queues-IsHeld nproc s _ refl refl refl w
