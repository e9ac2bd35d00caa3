-- ===== src/Mlfq/Tests.antt =====
-- The theorems on multilevel_queue.c at a concrete state.
use scheduler_module.Base.{
  false, if◌then◌else◌, eqz, ℕ, zero, suc, ◌<◌, pos, true, ◌≡◌, refl, none, List, [], ◌∷◌, arith,
}
use scheduler_module.Mlfq.{Node, Mlfq, zero_stats, mlfq_pick_next, mlfq_init}
use scheduler_module.Mlfq.Running.{mlfq_priority_boost}
use scheduler_module.Mlfq.Levels.{mlfq_pick_next-highest}
use scheduler_module.Kernel.{Kernel, pr_ready}
use scheduler_module.Mlfq.Invariant.{IsHeld}
use scheduler_module.Mlfq.Calls.{
  Call, enqueue, dequeue, demote, schedule, yield, preempt, set_quantum, boost, tick, reset_stats,
  run, run-init-IsHeld,
}
use scheduler_module.Mlfq.Boost.{pids, pids_from, Levelled, mlfq_priority_boost-empties}

abbrev node : ℕ → ℕ → Node
node p l = record {
  pid = pos p;
  level = l;
  time_allotment = 16;
  time_used = 3;
  arrival_time = 0;
  io_count = 0;
}

-- Process 4 on level 1, processes 2 and 3 on level 2.
abbrev nodes_at : ℕ → List Node
nodes_at zero = []
nodes_at (suc zero) = node 4 1 ∷ []
nodes_at (suc (suc zero)) = node 2 2 ∷ node 3 2 ∷ []
nodes_at (suc (suc (suc l))) = []

abbrev three : Mlfq
three = record {
  queues = λ l. record { nodes = nodes_at l; count = 0; quantum = 8; allotment = 16 };
  free_nodes = 5;
  level_quantums = λ l. 8;
  level_allotments = λ l. 16;
  boost_enabled = true;
  boost_interval = 1000;
  boost_counter = 0;
  io_bonus_enabled = true;
  current_node = none;
  current_time_used = 0;
  stats = zero_stats;
  ticks = 0;
}

three-Levelled : Levelled three
three-Levelled zero = tt
three-Levelled (suc zero) = (refl, tt)
three-Levelled (suc (suc zero)) = (refl, (refl, tt))
three-Levelled (suc (suc (suc l))) = tt

above_one : (i : ℕ) → i < 1 → nodes_at i ≡ []
above_one zero h = refl
above_one (suc i) h = absurd (omega arith)

mlfq_pick_next-highest_example : mlfq_pick_next three ≡ pos 4
mlfq_pick_next-highest_example =
    mlfq_pick_next-highest three 1 (node 4 1) [] (omega arith) above_one refl

mlfq_priority_boost-empties_example :
    let t = mlfq_priority_boost three in
    (pids (t.queues 0).nodes ≡ pos 4 ∷ pos 2 ∷ pos 3 ∷ [])
    × ((l : ℕ) → 0 < l → l < 8 → (t.queues l).nodes ≡ [])
unfolding pids_from
mlfq_priority_boost-empties_example = mlfq_priority_boost-empties three three-Levelled

-- Process 2 has run on level 0 and yields to process 3 on level 2.
abbrev kernel : Kernel
kernel = record {
  proctab = λ i. record { pstate = pr_ready; pprio = if eqz i (pos 2) then 80 else 50 };
  currpid = pos 2;
  need_resched = false;
  switches = [];
}

abbrev some_calls : List Call
some_calls =
    enqueue (pos 2)
    ∷ enqueue (pos 3)
    ∷ schedule 5
    ∷ tick
    ∷ preempt 6 1
    ∷ yield 3 0
    ∷ demote 0 (pos 3)
    ∷ set_quantum 0 4
    ∷ boost
    ∷ reset_stats
    ∷ dequeue (pos 2)
    ∷ []

run-init-IsHeld_example : IsHeld 8 0 (run 8 (kernel, mlfq_init 8 three) some_calls).1
run-init-IsHeld_example = run-init-IsHeld 8 (omega arith) kernel three some_calls (
  tt,
  (
    tt,
    (
      omega arith,
      (
        tt,
        (
          (omega arith, omega arith),
          ((omega arith, omega arith), (omega arith, (tt, (tt, (tt, (tt, tt)))))),
        ),
      ),
    ),
  ),
)
