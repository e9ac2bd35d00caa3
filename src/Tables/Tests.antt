-- ===== src/Tables/Tests.antt =====
-- The contract between the dispatcher and the policies at a concrete run.
use scheduler_module.Base.{
  ℕ, pos, false, true, leb, ◌-◌, ◌*◌, ◌/◌, ◌%◌, ◌+◌, ◌≡◌, refl, none, some, length, List, [], ◌∷◌,
  arith, u32_mod,
}
use scheduler_module.Kernel.{Kernel, pr_ready}
use scheduler_module.Scheduler.{
  scheduler_priority, scheduler_round_robin, known, unknown, System, World, Sched, zero_stats,
  zero_proc_stats,
}
use scheduler_module.Scheduler.Life.{scheduler_init, scheduler_switch}
use scheduler_module.Scheduler.Calls.{
  Call, switch, ready, block, set_priority, do_schedule, do_yield, tick, run,
}
use scheduler_module.RoundRobin.{round_robin_init}
use scheduler_module.RoundRobin.Calls
use scheduler_module.Priority.Queue.{Config}
use scheduler_module.Priority.{priority_init}
use scheduler_module.Lottery.{lottery_init}
use scheduler_module.Lottery.Tickets.{Floats}
use scheduler_module.Tables.{Policies, schedulers}
use scheduler_module.Tables.Contract.{InUse, schedulers-WellFormed}
use scheduler_module.Tables.Stranded.{schedules, quiet, switch_unknown_strands}

abbrev config : Config
config = record {
  nproc = 8;
  aging_on = true;
  interval = 10;
  aging_amount = 1;
  starvation_threshold = 100;
  starvation_boost = 10;
}

abbrev whole_numbers : Floats
whole_numbers = record {
  Float = ℕ;
  of_nat = λ n. n;
  sub = λ a b. a - b;
  mul = λ a b. a * b;
  div = λ a b. a / b;
  le = leb;
  to_u32 = λ a. a % u32_mod;
  to_u32-lt = λ a. omega arith;
}

-- The policies of the other files, without operations and without state.
abbrev others : System (Unit {0})
others = record {
  init_policy = λ p s. s;
  ops = λ p. record {
    shutdown = none;
    schedule = none;
    yield = none;
    preempt = none;
    enqueue = none;
    dequeue = none;
    set_priority = none;
    get_priority = none;
    set_quantum = none;
    get_quantum = none;
    tick = none;
    reset_stats = none;
  };
}

abbrev kernel : Kernel
kernel = record {
  proctab = λ i. record { pstate = pr_ready; pprio = 50 };
  currpid = pos 0;
  need_resched = false;
  switches = [];
}

-- Before the first scheduler_init.
abbrev off : Sched
off = record {
  current = none;
  policy = known scheduler_priority;
  stats = zero_stats;
  ready = [];
  ready_count = 0;
  ready_priority = 0;
  free_nodes = 0;
  current_quantum = 10;
  quantum_remaining = 10;
  proc_stats = λ i. zero_proc_stats;
  system_ticks = 0;
  initialized = false;
}

abbrev world : World (Policies (Unit {0}))
world = record {
  kernel = kernel;
  sched = off;
  policies = record {
    round_robin = round_robin_init 0;
    priority = priority_init config;
    lottery = lottery_init;
    rest = tt;
  };
}

abbrev some_calls : List Call
some_calls =
    ready (pos 1)
    ∷ ready (pos 2)
    ∷ set_priority (pos 2) 70
    ∷ do_schedule
    ∷ switch (known scheduler_round_robin)
    ∷ ready (pos 3)
    ∷ tick
    ∷ do_yield
    ∷ block (pos 3)
    ∷ []

schedulers-WellFormed_example :
    let v =
      run 8
        (schedulers config whole_numbers others)
        (scheduler_init 8 (schedulers config whole_numbers others) (unknown 9) world)
        some_calls in
    InUse config v.sched.current v.policies
schedulers-WellFormed_example =
    schedulers-WellFormed config (omega arith) whole_numbers others (unknown 9) world some_calls
      (tt, (tt, (tt, (tt, (tt, (tt, (tt, (tt, (tt, tt)))))))))

-- Two processes are queued under round robin.
abbrev queued : List Calls.Call
queued = Calls.enqueue (pos 2) ∷ Calls.enqueue (pos 3) ∷ []

abbrev rr_world : World (Policies (Unit {0}))
rr_world = record {
  kernel = kernel;
  sched = record off {
    current = some scheduler_round_robin;
    policy = known scheduler_round_robin;
    initialized = true;
  };
  policies = record {
    round_robin = (Calls.run 8 (kernel, round_robin_init 8) queued).1;
    priority = priority_init config;
    lottery = lottery_init;
    rest = tt;
  };
}

switch_unknown_strands_example :
    let r = scheduler_switch 8 (schedulers config whole_numbers others) (unknown 9) rr_world in
    let v = schedules config whole_numbers others 3 r.1 in
    (r.0 ≡ false)
    × (v.sched.current ≡ some scheduler_round_robin)
    × (quiet v.kernel ≡ quiet kernel)
    × (v.policies.round_robin.queue ≡ [])
    × (v.policies.round_robin.free_nodes + length rr_world.policies.round_robin.queue ≡ 8)
switch_unknown_strands_example =
    switch_unknown_strands config whole_numbers others 9 3 rr_world refl
      (Calls.run-init-IsRing 8 (omega arith) kernel queued (tt, (tt, tt)))
