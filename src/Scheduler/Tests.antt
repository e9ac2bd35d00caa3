-- ===== src/Scheduler/Tests.antt =====
-- The theorems on scheduler.c at concrete states, with a policy that has no operations and one that
-- counts its shutdowns.
use scheduler_module.Base.{
  ℕ, suc, ◌≤◌, pos, eqz, true, false, ◌≡◌, ◌⊎◌, ◌↔◌, refl, none, some, List, [], ◌∷◌, if◌then◌else◌,
  arith,
}
use scheduler_module.Kernel.{Kernel, pr_curr, pr_ready, pr_free, pr_wait}
use scheduler_module.Scheduler.{
  scheduler_round_robin, scheduler_priority, known, unknown, Ops, System, World, Sched, ReadyNode,
  zero_stats, zero_proc_stats, ready_queue_init, ready_queue_empty,
}
use scheduler_module.Scheduler.Dispatch.{entry, ask_or, to_int32, syserr, setpriority, getpriority}
use scheduler_module.Scheduler.Life.{scheduler_init}
use scheduler_module.Scheduler.Ready.{IsReady, IsCounted}
use scheduler_module.Scheduler.Drain.{enqueue_all, pop_all, drain-enqueue_all}
use scheduler_module.Scheduler.Clock.{sched_ticks, quantum_runs_out}
use scheduler_module.Scheduler.Calls.{
  Call, switch, ready, block, wakeup, exit, push, remove, do_yield, tick, pop, run,
}
use scheduler_module.Scheduler.Counts.{run-init-IsReady, run-init-IsCounted}
use scheduler_module.Scheduler.Requests.{Refused, setpriority_iff}

-- The state counts the shutdowns.
abbrev no_ops : Ops ℕ
no_ops = record {
  shutdown = some suc;
  schedule = none;
  yield = none;
  preempt = none;
  enqueue = none;
  dequeue = none;
  set_priority = none;
  get_priority = none;
  set_quantum = none;
  get_quantum = none;
  tick = none;
  reset_stats = none;
}

abbrev bare : System ℕ
bare = record { init_policy = λ p s. s; ops = λ p. no_ops }

-- Process 1 runs, process 2 waits, process 5 is free, the others are ready.
abbrev kernel : Kernel
kernel = record {
  proctab = λ i. record {
    pstate =
        if eqz i (pos 1)
        then pr_curr
        else if eqz i (pos 2)
        then pr_wait
        else if eqz i (pos 5)
        then pr_free
        else pr_ready;
    pprio = 50;
  };
  currpid = pos 1;
  need_resched = false;
  switches = [];
}

abbrev node : ℕ → ReadyNode
node p = record { pid = pos p; priority = 50; time_slice = 10; enqueue_time = 0 }

abbrev two : Sched
two = record {
  current = some scheduler_priority;
  policy = known scheduler_priority;
  stats = record zero_stats { runnable_count = 2; max_runnable = 2 };
  ready = node 3 ∷ node 4 ∷ [];
  ready_count = 2;
  ready_priority = 0;
  free_nodes = 6;
  current_quantum = 10;
  quantum_remaining = 4;
  proc_stats = λ i. zero_proc_stats;
  system_ticks = 0;
  initialized = true;
}

abbrev world : World ℕ
world = record { kernel = kernel; sched = two; policies = 0 }

abbrev some_calls : List Call
some_calls =
    push (pos 3)
    ∷ ready (pos 4)
    ∷ do_yield
    ∷ tick
    ∷ pop
    ∷ block (pos 1)
    ∷ wakeup (pos 1)
    ∷ remove (pos 4)
    ∷ switch (unknown 9)
    ∷ exit (pos 1)
    ∷ []

run-init-IsReady_example :
    IsReady 8
      (run 8 bare (scheduler_init 8 bare (known scheduler_round_robin) world) some_calls).sched
run-init-IsReady_example =
    run-init-IsReady 8 (omega arith) bare (known scheduler_round_robin) world some_calls

run-init-IsCounted_example :
    IsCounted
      (run 8 bare (scheduler_init 8 bare (known scheduler_round_robin) world) some_calls).sched
run-init-IsCounted_example =
    run-init-IsCounted 8 (omega arith) bare (known scheduler_round_robin) world some_calls
      (tt, (tt, (tt, (tt, (tt, (tt, (tt, (tt, (tt, (tt, tt))))))))))

drain-enqueue_all_example :
    let ps = pos 3 ∷ pos 1 ∷ pos 3 ∷ [] in
    let w = pop_all 3 (enqueue_all 8 kernel ps (ready_queue_init 8 two)) in
    (w.0 ≡ ps) × (ready_queue_empty w.1 ≡ true)
drain-enqueue_all_example =
    drain-enqueue_all 8 kernel (pos 3 ∷ pos 1 ∷ pos 3 ∷ []) two (refl, (refl, (refl, tt)))
      (omega arith)

quantum_runs_out_example :
    ((m : ℕ) → m ≤ 3 → (sched_ticks 8 bare m world).kernel ≡ kernel)
    × ((sched_ticks 8 bare 4 world).kernel ≡ record kernel { need_resched = true })
    × ((sched_ticks 8 bare 4 world).sched.quantum_remaining ≡ 10)
unfolding entry
quantum_runs_out_example = quantum_runs_out 8 bare 3 world refl refl

setpriority_iff_example :
    (((setpriority 8 bare (pos 5) 7 world).0 ≡ syserr) ↔ Refused 8 bare (pos 5) world)
    × ((getpriority 8 bare (pos 5) world ≡ syserr) ↔ Refused 8 bare (pos 5) world)
    × ((setpriority 8 bare (pos 5) 7 world ≡ (syserr, world))
        ⊎ ((setpriority 8 bare (pos 5) 7 world).0 ≡ to_int32 (kernel.proctab (pos 5)).pprio))
setpriority_iff_example =
    setpriority_iff 8 bare (pos 5) 7 world (omega arith)
      (unfold ask_or in unfold entry in omega arith)
