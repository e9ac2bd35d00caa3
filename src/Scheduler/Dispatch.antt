-- ===== src/Scheduler/Dispatch.antt =====
-- scheduler.c: the calls that the dispatcher hands to the policy in use, and what it does where the
-- policy's table has no entry.
use scheduler_module.Base.{
  ℕ, ◌-◌, ◌+◌, ◌^◌, ℤ, pos, negsuc, eqz, in_range, true, false, not, ◌||◌, Option, none, some, ltb,
  ◌==◌, if◌then◌else◌, is_some, inc32, inc64,
}
use scheduler_module.Kernel.{Kernel, is_curr, is_free, is_ready, pr_ready, set_pstate, set_pprio}
use scheduler_module.Scheduler.{Policy, Ops, System, World, Sched, ProcStats, ready_enqueue}

abbrev pub min_quantum : ℕ
min_quantum = 1

abbrev pub max_quantum : ℕ
max_quantum = 1000

abbrev pub priority_max : ℕ
priority_max = 99

-- (int32_t)n for a number of 32 bits.
unfoldable pub to_int32 : ℕ → ℤ
to_int32 n = if ltb n (2 ^ 31) then pos n else negsuc (2 ^ 32 - 1 - n)

-- SYSERR, the value -1 of a system call, whose results are numbers of 32 bits with a sign. An old
-- priority of 2 ^ 32 - 1 is the same value.
abbrev pub syserr : ℤ
syserr = negsuc 0

-- a - b, where the difference fits int32_t; C leaves the other cases undefined.
unfoldable pub sub_int : ℤ → ℤ → ℤ
sub_int (pos a) (pos b) = if ltb a b then negsuc (b - a - 1) else pos (a - b)
sub_int (pos a) (negsuc b) = pos (a + b + 1)
sub_int (negsuc a) (pos b) = negsuc (a + b)
sub_int (negsuc a) (negsuc b) = if ltb b a then negsuc (a - b - 1) else pos (b - a)

-- Between PRIORITY_MIN, which is 0, and PRIORITY_MAX.
unfoldable pub clamp_priority : ℤ → ℕ
clamp_priority (negsuc a) = 0
clamp_priority (pos a) = if ltb priority_max a then priority_max else a

-- proc_stats[pid] = f(proc_stats[pid])
unfoldable pub set_proc_stats : ℤ → (ProcStats → ProcStats) → (ℤ → ProcStats) → ℤ → ProcStats
set_proc_stats p f tab i = if eqz p i then f (tab i) else tab i

unfoldable pub count_runtime : ProcStats → ProcStats
count_runtime t = record t {
  total_runtime = inc64 t.total_runtime;
  last_runtime = inc64 t.last_runtime;
}

unfoldable pub expire_quantum : Sched → Sched
expire_quantum s = record s {
  stats = record (s.stats) { quantum_expirations = inc64 s.stats.quantum_expirations };
  quantum_remaining = s.current_quantum;
}

-- if (quantum_remaining > 0) quantum_remaining--;
unfoldable pub quantum_left : Sched → ℕ
quantum_left s = if ltb 0 s.quantum_remaining then s.quantum_remaining - 1 else s.quantum_remaining

-- if (priority > PRIORITY_MAX) priority = PRIORITY_MAX;
unfoldable pub bound_priority : ℕ → ℕ
bound_priority n = if ltb priority_max n then priority_max else n

unfoldable pub clamp_quantum : ℕ → ℕ
clamp_quantum q =
    let q1 = if ltb q min_quantum then min_quantum else q in
    if ltb max_quantum q1 then max_quantum else q1

-- A call of an entry of the table, and what the dispatcher does where there is none.
unfoldable pub call_or :
    {P : Type 0} → Option (Kernel → P → Kernel × P) → World P → World P → World P
call_or none w other = other
call_or (some f) w other =
    let r = f w.kernel w.policies in record w { kernel = r.0; policies = r.1 }

unfoldable pub on_pid :
    {P : Type 0} → ℤ → Option (ℤ → Kernel → P → Kernel × P) → Option (Kernel → P → Kernel × P)
on_pid p none = none
on_pid p (some f) = some (f p)

unfoldable pub on_priority :
    {P : Type 0}
    → ℤ
    → ℕ
    → Option (ℤ → ℕ → Kernel → P → Kernel × P)
    → Option (Kernel → P → Kernel × P)
on_priority p n none = none
on_priority p n (some f) = some (f p n)

unfoldable pub ask_or : {P : Type 0} → ℤ → Option (ℤ → Kernel → P → ℕ) → World P → ℕ → ℕ
ask_or p none w other = other
ask_or p (some f) w other = f p w.kernel w.policies

unfoldable pub call_policy : {P : Type 0} → Option (P → P) → P → P
call_policy none s = s
call_policy (some f) s = f s

unfoldable pub read_quantum : {P : Type 0} → Option (P → ℕ) → P → ℕ → ℕ
read_quantum none s other = other
read_quantum (some f) s other = f s

unfoldable pub quantum_call : {P : Type 0} → ℕ → Option (ℕ → P → P) → Option (P → P)
quantum_call q none = none
quantum_call q (some f) = some (f q)

module _ {P : Type 0} (nproc : ℕ) (sys : System P) where
  -- The entry of current_scheduler's table, if there is a table and the entry is not NULL.
  unfoldable pub entry : {F : Type 0} → (Ops P → Option F) → Option Policy → Option F
  entry field none = none
  entry field (some p) = field (sys.ops p)

  unfoldable pub count_schedule : World P → World P
  count_schedule w = record w {
    kernel = record (w.kernel) { need_resched = false };
    sched = record (w.sched) {
      stats = record (w.sched.stats) { total_schedules = inc64 w.sched.stats.total_schedules };
    };
  }

  unfoldable pub schedule : World P → World P
  schedule w =
      if not w.sched.initialized || not (is_some w.sched.current)
      then w
      else (let w1 = count_schedule w in call_or (entry (λ o. o.schedule) w1.sched.current) w1 w1)

  unfoldable pub resched : World P → World P
  resched w = schedule (record w { kernel = record (w.kernel) { need_resched = true } })

  -- The running process becomes ready and joins the ready queue.
  unfoldable pub requeue_current : World P → World P
  requeue_current w =
      let p = w.kernel.currpid in
      if is_curr (w.kernel.proctab p).pstate
      then (let k = set_pstate w.kernel p pr_ready in
          record w { kernel = k; sched = ready_enqueue nproc k p w.sched })
      else w

  unfoldable pub count_yield : World P → World P
  count_yield w = record w {
    sched = record (w.sched) {
      stats = record (w.sched.stats) { voluntary_yields = inc32 w.sched.stats.voluntary_yields };
      proc_stats =
          set_proc_stats w.kernel.currpid
            (λ (t : ProcStats). record t { voluntary_switches = inc32 t.voluntary_switches })
            w.sched.proc_stats;
    };
  }

  unfoldable pub yield : World P → World P
  yield w =
      let w1 = count_yield w in
      call_or (entry (λ o. o.yield) w1.sched.current) w1 (resched (requeue_current w1))

  unfoldable pub count_preempt : World P → World P
  count_preempt w = record w {
    sched = record (w.sched) {
      stats = record (w.sched.stats) { preemptions = inc32 w.sched.stats.preemptions };
      proc_stats =
          set_proc_stats w.kernel.currpid
            (λ (t : ProcStats). record t { involuntary_switches = inc32 t.involuntary_switches })
            w.sched.proc_stats;
    };
  }

  unfoldable pub preempt : World P → World P
  preempt w =
      let w1 = count_preempt w in
      call_or (entry (λ o. o.preempt) w1.sched.current) w1 (resched (requeue_current w1))

  -- proctab[pid].pprio = n
  unfoldable pub write_priority : ℤ → ℕ → World P → World P
  write_priority p n w = record w { kernel = set_pprio w.kernel p n }

  unfoldable pub resched_ready : ℤ → World P → World P
  resched_ready p w = if is_ready (w.kernel.proctab p).pstate then resched w else w

  unfoldable pub setpriority : ℤ → ℕ → World P → ℤ × World P
  setpriority p n w =
      if not (in_range nproc p)
      then (syserr, w)
      else if is_free (w.kernel.proctab p).pstate
      then (syserr, w)
      else (let n1 = bound_priority n in
          (
            to_int32 (w.kernel.proctab p).pprio,
            resched_ready p (
                call_or (on_priority p n1 (entry (λ o. o.set_priority) w.sched.current)) w
                  (write_priority p n1 w)),
          ))

  unfoldable pub getpriority : ℤ → World P → ℤ
  getpriority p w =
      if not (in_range nproc p)
      then syserr
      else if is_free (w.kernel.proctab p).pstate
      then syserr
      else to_int32
          (ask_or p (entry (λ o. o.get_priority) w.sched.current) w (w.kernel.proctab p).pprio)

  unfoldable pub nice : ℤ → World P → ℕ × World P
  nice increment w =
      let p = w.kernel.currpid in
      let n = clamp_priority (sub_int (to_int32 (w.kernel.proctab p).pprio) increment) in
      (n, write_priority p n w)

  unfoldable pub sched_set_quantum : ℕ → World P → World P
  sched_set_quantum q w =
      let q1 = clamp_quantum q in
      record w {
        sched = record (w.sched) { current_quantum = q1 };
        policies =
            call_policy (quantum_call q1 (entry (λ o. o.set_quantum) w.sched.current)) w.policies;
      }

  unfoldable pub sched_get_quantum : World P → ℕ
  sched_get_quantum w =
      read_quantum (entry (λ o. o.get_quantum) w.sched.current) w.policies w.sched.current_quantum

  unfoldable pub count_tick : World P → World P
  count_tick w = record w {
    sched = record (w.sched) {
      system_ticks = inc64 w.sched.system_ticks;
      proc_stats =
          if in_range nproc w.kernel.currpid
          then set_proc_stats w.kernel.currpid count_runtime w.sched.proc_stats
          else w.sched.proc_stats;
    };
  }

  unfoldable pub spend : World P → World P
  spend w = record w { sched = record (w.sched) { quantum_remaining = quantum_left w.sched } }

  unfoldable pub expire_tick : World P → World P
  expire_tick w = record w {
    kernel = record (w.kernel) { need_resched = true };
    sched = expire_quantum w.sched;
  }

  -- The tick of a policy without an entry for it.
  unfoldable pub use_quantum : World P → World P
  use_quantum w = if quantum_left w.sched == 0 then expire_tick (spend w) else spend w

  unfoldable pub sched_tick : World P → World P
  sched_tick w =
      let w1 = count_tick w in call_or (entry (λ o. o.tick) w1.sched.current) w1 (use_quantum w1)
