-- ===== src/RoundRobin/Calls.antt =====
-- Sequences of calls of round_robin.c, in any order and with any arguments.
use scheduler_module.Base.{
  ℕ, ◌<◌, ℤ, eqz, is_neg, refl, Option, none, some, List, [], ◌∷◌, All, arith, u32_mod, if-case,
}
use scheduler_module.Kernel.{Kernel}
use scheduler_module.RoundRobin.{
  RoundRobin, set_slice, update_node, end_slice, end_slice_at, rr_find_node, count_switch,
  round_robin_init, round_robin_shutdown, round_robin_enqueue, round_robin_dequeue,
  round_robin_rotate, round_robin_schedule, round_robin_yield, round_robin_preempt,
  round_robin_reset_stats, round_robin_pick_next,
}
use scheduler_module.RoundRobin.Slices.{
  use_tick, expire, tick_running, tick_at, slice_over, round_robin_set_quantum, round_robin_tick,
  round_robin_reset_slice,
}
use scheduler_module.RoundRobin.Ring.{idle}
use scheduler_module.RoundRobin.Invariant.{
  IsRing, same_queue-IsRing, update_node-IsRing, rotate-IsRing,
}
use scheduler_module.RoundRobin.Linking.{enqueue-IsRing}
use scheduler_module.RoundRobin.Unlinking.{dequeue-IsRing}

-- The calls of the scheduler, with their arguments.
pub data Call : Type 0 where
  enqueue dequeue reset_slice : ℤ → Call
  set_quantum : ℕ → Call
  init shutdown rotate schedule yield preempt tick reset_stats : Call

-- Every call but the shutdown, which drops the queue without giving its nodes back.
abbrev pub KeepsNodes : Call → Type 0
KeepsNodes shutdown = ⊥
KeepsNodes _ = Unit {0}

unfoldable pub step : ℕ → Kernel × RoundRobin → Call → Kernel × RoundRobin
step nproc (k, s) (enqueue p) = (k, round_robin_enqueue nproc p s)
step nproc (k, s) (dequeue p) = (k, round_robin_dequeue nproc p s)
step nproc (k, s) (reset_slice p) = (k, round_robin_reset_slice p s)
step nproc (k, s) (set_quantum q) = (k, round_robin_set_quantum q s)
step nproc (k, s) init = (k, round_robin_init nproc)
step nproc (k, s) shutdown = (k, round_robin_shutdown s)
step nproc (k, s) rotate = (k, round_robin_rotate s)
step nproc (k, s) schedule = round_robin_schedule k s
step nproc (k, s) yield = round_robin_yield k s
step nproc (k, s) preempt = round_robin_preempt k s
step nproc (k, s) tick = round_robin_tick k s
step nproc (k, s) reset_stats = (k, round_robin_reset_stats s)

unfoldable pub run : ℕ → Kernel × RoundRobin → List Call → Kernel × RoundRobin
run nproc w [] = w
run nproc w (a ∷ calls) = run nproc (step nproc w a) calls

module _ (nproc : ℕ) where
  abbrev Good : Kernel × RoundRobin → Type 0
  Good w = IsRing nproc w.1

  pub init-IsRing : IsRing nproc (round_robin_init nproc)
  unfolding round_robin_init
  init-IsRing = record {
    range = tt;
    distinct = tt;
    count = refl;
    room = omega arith;
    current = idle refl refl;
  }

  schedule-IsRing :
      (k : Kernel) (s : RoundRobin) → IsRing nproc s → IsRing nproc (round_robin_schedule k s).1
  unfolding round_robin_schedule count_switch
  schedule-IsRing k s i =
      let i1 : IsRing nproc (count_switch s) =
        same_queue-IsRing nproc s (count_switch s) refl refl refl refl i in
      if-case Good (is_neg next) _ _ i (if-case Good (eqz next k.currpid) _ _ i i1)
    where
      next : ℤ
      next = round_robin_pick_next s

  end_slice-IsRing : (s : RoundRobin) → IsRing nproc s → IsRing nproc (end_slice s)
  unfolding end_slice end_slice_at set_slice
  end_slice-IsRing s i = ended s.current
    where
      ended : (c : Option ℤ) → IsRing nproc (end_slice_at c s)
      ended none = i
      ended (some p) = update_node-IsRing nproc p (set_slice 0) s (λ n. refl) i

  yield-IsRing :
      (k : Kernel) (s : RoundRobin) → IsRing nproc s → IsRing nproc (round_robin_yield k s).1
  unfolding round_robin_yield
  yield-IsRing k s i =
      schedule-IsRing _ _ (rotate-IsRing nproc (end_slice s) (end_slice-IsRing s i))

  expire-IsRing : (k : Kernel) (s : RoundRobin) → IsRing nproc s → IsRing nproc (expire k s).1
  unfolding expire
  expire-IsRing k s i = rotate-IsRing nproc _ (same_queue-IsRing nproc s _ refl refl refl refl i)

  tick-IsRing :
      (k : Kernel) (s : RoundRobin) → IsRing nproc s → IsRing nproc (round_robin_tick k s).1
  unfolding round_robin_tick tick_at tick_running use_tick
  tick-IsRing k s i = ticked s.current
    where
      ticked : (c : Option ℤ) → IsRing nproc (tick_at c k s).1
      ticked none = i
      ticked (some p) =
          let i1 = update_node-IsRing nproc p use_tick s (λ n. refl) i in
          let i2 = expire-IsRing k (update_node p use_tick s) i1 in
          if-case Good (eqz p k.currpid) _ _
            (if-case Good (slice_over (rr_find_node p (update_node p use_tick s).queue)) _ _ i2 i1)
            i

  module _ (fits : nproc < u32_mod) where
    pub step-IsRing :
        (k : Kernel) (s : RoundRobin) (a : Call)
        → KeepsNodes a
        → IsRing nproc s
        → IsRing nproc (step nproc (k, s) a).1
    unfolding step round_robin_reset_slice round_robin_set_quantum round_robin_preempt
        round_robin_reset_stats set_slice
    step-IsRing k s (enqueue p) ok i = enqueue-IsRing nproc p s fits i
    step-IsRing k s (dequeue p) ok i = dequeue-IsRing nproc p s fits i
    step-IsRing k s (reset_slice p) ok i =
        update_node-IsRing nproc p (set_slice s.quantum) s (λ n. refl) i
    step-IsRing k s (set_quantum q) ok i = same_queue-IsRing nproc s _ refl refl refl refl i
    step-IsRing k s init ok i = init-IsRing
    step-IsRing k s shutdown ok i = absurd ok
    step-IsRing k s rotate ok i = rotate-IsRing nproc s i
    step-IsRing k s schedule ok i = schedule-IsRing k s i
    step-IsRing k s yield ok i = yield-IsRing k s i
    step-IsRing k s preempt ok i = yield-IsRing k s i
    step-IsRing k s tick ok i = tick-IsRing k s i
    step-IsRing k s reset_stats ok i = same_queue-IsRing nproc s _ refl refl refl refl i

    run-IsRing :
        (k : Kernel) (s : RoundRobin) (calls : List Call)
        → All KeepsNodes calls
        → IsRing nproc s
        → IsRing nproc (run nproc (k, s) calls).1
    unfolding run
    run-IsRing k s [] ok i = i
    run-IsRing k s (a ∷ calls) ok i =
        let w = step nproc (k, s) a in run-IsRing w.0 w.1 calls ok.1 (step-IsRing k s a ok.0 i)

    -- With NPROC below 2 ^ 32, after round_robin_init and any calls but round_robin_shutdown the
    -- queued processes are distinct and in range, rr_current is one of them and is NULL only if
    -- there is none, rr_queue_count is the length of the queue, and each of the NPROC nodes is
    -- queued or free.
    pub run-init-IsRing :
        (k : Kernel) (calls : List Call)
        → All KeepsNodes calls
        → IsRing nproc (run nproc (k, round_robin_init nproc) calls).1
    run-init-IsRing k calls ok = run-IsRing k (round_robin_init nproc) calls ok init-IsRing
