-- ===== src/RoundRobin/Tests.antt =====
-- The theorems on round_robin.c at concrete states.
use scheduler_module.Base.{
  ℕ, ◌<◌, ◌≤◌, pos, eqz, false, true, ◌≡◌, refl, some, List, [], ◌∷◌, if◌then◌else◌, arith,
}
use scheduler_module.Base.Keyed
use scheduler_module.Kernel.{Kernel, pr_curr, pr_ready}
use scheduler_module.RoundRobin.{
  Node, RoundRobin, zero_stats, rr_find_node, round_robin_init, round_robin_rotate,
  round_robin_pick_next,
}
use scheduler_module.RoundRobin.Ring.{at, ring, rotate_left, ring-rotate}
use scheduler_module.RoundRobin.Invariant.{IsRing}
use scheduler_module.RoundRobin.Fairness.{rotations, rotations-serve}
use scheduler_module.RoundRobin.Ticks.{ticks, slice}
use scheduler_module.RoundRobin.Calls.{
  Call, shutdown, enqueue, dequeue, set_quantum, schedule, yield, tick, run, run-init-IsRing,
}
use scheduler_module.RoundRobin.Bounds.{IsBounded, run-init-IsBounded}

-- Process 1 runs.
abbrev kernel : Kernel
kernel = record {
  proctab = λ i. record { pstate = if eqz i (pos 1) then pr_curr else pr_ready; pprio = 50 };
  currpid = pos 1;
  need_resched = false;
  switches = [];
}

abbrev node : ℕ → Node
node p = record { pid = pos p; time_remaining = 3; total_time = 0; rounds = 0 }

abbrev three : RoundRobin
three = record {
  queue = node 1 ∷ node 2 ∷ node 3 ∷ [];
  current = some (pos 1);
  free_nodes = 5;
  queue_count = 3;
  quantum = 3;
  quantum_remaining = 3;
  stats = zero_stats;
}

three-IsRing : IsRing 8 three
three-IsRing = record {
  range = (refl, (refl, (refl, tt)));
  distinct = ((ground arith, (ground arith, tt)), ((ground arith, tt), (tt, tt)));
  count = refl;
  room = refl;
  current = at (pos 1) [] (pos 2 ∷ pos 3 ∷ []) refl refl;
}

abbrev some_calls : List Call
some_calls =
    enqueue (pos 1)
    ∷ enqueue (pos 2)
    ∷ enqueue (pos 9)
    ∷ set_quantum 500
    ∷ schedule
    ∷ tick
    ∷ yield
    ∷ dequeue (pos 2)
    ∷ []

run-init-IsRing_example : IsRing 8 (run 8 (kernel, round_robin_init 8) some_calls).1
run-init-IsRing_example =
    run-init-IsRing 8 (omega arith) kernel some_calls
      (tt, (tt, (tt, (tt, (tt, (tt, (tt, (tt, tt))))))))

run-init-IsBounded_example :
    IsBounded (run 8 (kernel, round_robin_init 8) (shutdown ∷ some_calls)).1
run-init-IsBounded_example = run-init-IsBounded 8 kernel (shutdown ∷ some_calls)

rotations-serve_example : (k : ℕ) × (k < 3) × (round_robin_pick_next (rotations k three) ≡ pos 3)
unfolding rr_find_node Keyed.find eqz
rotations-serve_example = rotations-serve 8 (pos 3) (node 3) three three-IsRing refl

ring-rotate_example : ring (round_robin_rotate three) ≡ rotate_left (ring three)
ring-rotate_example = ring-rotate three three-IsRing.distinct refl three-IsRing.current

slice_example :
    ((m : ℕ) → m ≤ 2 → (ticks m (kernel, three)).0 ≡ kernel)
    × ((ticks 3 (kernel, three)).0 ≡ record kernel { need_resched = true })
    × (ring (ticks 3 (kernel, three)).1 ≡ rotate_left (ring three))
unfolding rr_find_node Keyed.find eqz
slice_example = slice kernel 2 8 three (node 1) three-IsRing refl refl refl
