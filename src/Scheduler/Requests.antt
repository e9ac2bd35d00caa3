-- ===== src/Scheduler/Requests.antt =====
-- The system calls of scheduler.c: priorities, the switch of policies and the reset of statistics.
use scheduler_module.Base.{
  ℕ, ◌-◌, ◌+◌, ◌^◌, ◌≤◌, ◌<◌, ℤ, pos, negsuc, eqz_iff, in_range, true, false, ◌≡◌, refl, ap, ◌∙◌,
  ◌⊎◌, ◌↔◌, inl, inr, Option, none, some, ltb, if◌then◌else◌, arith, Bool-cases,
}
use scheduler_module.Base.Keyed
use scheduler_module.Kernel.{Kernel, is_free, is_ready, set_pprio, set_proc}
use scheduler_module.Scheduler.{
  Policy, known, System, World, ReadyNode, node_pid, ready_dequeue, drop_node, drop_runnable,
}
use scheduler_module.Scheduler.Dispatch.{
  entry, call_or, ask_or, on_priority, schedule, resched, resched_ready, write_priority,
  bound_priority, clamp_priority, to_int32, syserr, sub_int, setpriority, getpriority, nice,
}
use scheduler_module.Scheduler.Life.{
  stop_policy, scheduler_shutdown, start_policy, scheduler_switch, sched_reset_stats,
}

-- pprio of the running process, less the increment, within 0 and 99.
abbrev pub niced : ℕ → ℤ → ℕ
niced prio (pos i) = if ltb 99 (prio - i) then 99 else prio - i
niced prio (negsuc i) = if ltb 99 (prio + i + 1) then 99 else prio + i + 1

clamp-sub :
    (prio : ℕ) (increment : ℤ)
    → prio < 2 ^ 31
    → clamp_priority (sub_int (to_int32 prio) increment) ≡ niced prio increment
unfolding clamp_priority sub_int to_int32
clamp-sub prio (pos i) small = ground arith
clamp-sub prio (negsuc i) small = ground arith

set-pstate :
    (k : Kernel) (p : ℤ) (n : ℕ) → ((set_pprio k p n).proctab p).pstate ≡ (k.proctab p).pstate
unfolding set_pprio set_proc
set-pstate k p n = rw ((eqz_iff p p).1 refl) refl

set-pprio : (k : Kernel) (p : ℤ) (n : ℕ) → ((set_pprio k p n).proctab p).pprio ≡ n
unfolding set_pprio set_proc
set-pprio k p n = rw ((eqz_iff p p).1 refl) refl

to_int32-syserr : (n : ℕ) → n < 2 ^ 32 - 1 → to_int32 n ≡ syserr → ⊥
unfolding to_int32
to_int32-syserr n small e = ground arith

module _ {P : Type 0} (nproc : ℕ) (sys : System P) where
  -- For a running process whose priority is below 2 ^ 31, nice returns its priority less the
  -- increment, at least 0 and at most PRIORITY_MAX, writes it to the process table, and does not
  -- touch the policies.
  pub nice_lem :
      (increment : ℤ) (w : World P)
      → let prio = (w.kernel.proctab w.kernel.currpid).pprio in
        prio < 2 ^ 31
        → let r = nice nproc sys increment w in
          (r.0 ≡ niced prio increment)
          × (r.0 ≤ 99)
          × ((r.1.kernel.proctab w.kernel.currpid).pprio ≡ r.0)
          × (r.1.policies ≡ w.policies)
  unfolding nice write_priority set_pprio set_proc
  nice_lem increment w small =
      let e = clamp-sub (w.kernel.proctab w.kernel.currpid).pprio increment small in
      (e, rw e (bounded increment), written, refl)
    where
      bounded : (i : ℤ) → niced (w.kernel.proctab w.kernel.currpid).pprio i ≤ 99
      bounded (pos i) = ground arith
      bounded (negsuc i) = ground arith

      written :
          ((nice nproc sys increment w).1.kernel.proctab w.kernel.currpid).pprio
          ≡ (nice nproc sys increment w).0
      written = rw ((eqz_iff w.kernel.currpid w.kernel.currpid).1 refl) refl

  -- Out of range or free.
  abbrev pub Refused : ℤ → World P → Type 0
  Refused p w = (in_range nproc p ≡ false) ⊎ (is_free (w.kernel.proctab p).pstate ≡ true)

  -- Where neither the priority in the process table nor the one that getpriority reads is 2 ^ 32 -
  -- 1 or more, setpriority returns SYSERR exactly if the process is out of range or free, and so
  -- does getpriority. setpriority returns SYSERR and changes nothing, or it returns the old
  -- priority as an int32_t.
  pub setpriority_iff :
      (p : ℤ) (n : ℕ) (w : World P)
      → (w.kernel.proctab p).pprio < 2 ^ 32 - 1
      → ask_or p
          (entry nproc sys (λ o. o.get_priority) w.sched.current)
          w
          (w.kernel.proctab p).pprio
        < 2 ^ 32 - 1
      → (((setpriority nproc sys p n w).0 ≡ syserr) ↔ Refused p w)
        × ((getpriority nproc sys p w ≡ syserr) ↔ Refused p w)
        × ((setpriority nproc sys p n w ≡ (syserr, w))
            ⊎ ((setpriority nproc sys p n w).0 ≡ to_int32 (w.kernel.proctab p).pprio))
  unfolding setpriority getpriority
  setpriority_iff p n w small asked = elim (Bool-cases (in_range nproc p)) [
    | inr out ↦ rw out ((λ h. inl refl, λ h. refl), (λ h. inl refl, λ h. refl), inl refl)
    | inl inside ↦ elim (Bool-cases (is_free (w.kernel.proctab p).pstate)) [
      | inl free ↦
          rw (inside, free) ((λ h. inr refl, λ h. refl), (λ h. inr refl, λ h. refl), inl refl)
      | inr used ↦
          rw (inside, used)
            (
              (λ h. absurd (to_int32-syserr _ small h), λ h. absurd (ground arith)),
              (λ h. absurd (to_int32-syserr _ asked h), λ h. absurd (ground arith)),
              inr refl,
            )
    ]
  ]

  write-settled :
      (p : ℤ) (n : ℕ) (w : World P)
      → is_ready (w.kernel.proctab p).pstate ≡ false
      → resched_ready nproc sys p (write_priority nproc sys p n w) ≡ write_priority nproc sys p n w
  unfolding resched_ready write_priority
  write-settled p n w running =
      ap
        (λ b.
          if b
          then resched nproc sys (write_priority nproc sys p n w)
          else write_priority nproc sys p n w)
        (ap is_ready (set-pstate w.kernel p n) ∙ running)

  set-writes :
      (p : ℤ) (n : ℕ) (w : World P)
      → in_range nproc p ≡ true
      → is_free (w.kernel.proctab p).pstate ≡ false
      → is_ready (w.kernel.proctab p).pstate ≡ false
      → entry nproc sys (λ o. o.set_priority) w.sched.current ≡ none
      → setpriority nproc sys p n w
        ≡ (to_int32 (w.kernel.proctab p).pprio, write_priority nproc sys p (bound_priority n) w)
  unfolding setpriority call_or on_priority
  set-writes p n w inside used running nos =
      rw (inside, used) refl
      ∙ ap
          (λ (e : Option (ℤ → ℕ → Kernel → P → Kernel × P)). (
            to_int32 (w.kernel.proctab p).pprio,
            resched_ready nproc sys p (
                call_or (on_priority p (bound_priority n) e) w
                  (write_priority nproc sys p (bound_priority n) w)),
          ))
          nos
      ∙ ap (λ v. (to_int32 (w.kernel.proctab p).pprio, v))
          (write-settled p (bound_priority n) w running)

  get-written :
      (p : ℤ) (n : ℕ) (w : World P)
      → in_range nproc p ≡ true
      → is_free (w.kernel.proctab p).pstate ≡ false
      → entry nproc sys (λ o. o.get_priority) w.sched.current ≡ none
      → getpriority nproc sys p (write_priority nproc sys p n w) ≡ to_int32 n
  unfolding getpriority write_priority ask_or
  get-written p n w inside used nog =
      let e = ap is_free (set-pstate w.kernel p n) ∙ used in
      rw (inside, e, nog) (ap to_int32 (set-pprio w.kernel p n))

  -- Where the policy has no entries for priorities, setpriority of a process in range that is
  -- neither free nor ready returns its old priority, and getpriority then returns the new one, at
  -- most PRIORITY_MAX.
  pub getpriority-setpriority :
      (p : ℤ) (n : ℕ) (w : World P)
      → in_range nproc p ≡ true
      → is_free (w.kernel.proctab p).pstate ≡ false
      → is_ready (w.kernel.proctab p).pstate ≡ false
      → entry nproc sys (λ o. o.set_priority) w.sched.current ≡ none
      → entry nproc sys (λ o. o.get_priority) w.sched.current ≡ none
      → let r = setpriority nproc sys p n w in
        (r.0 ≡ to_int32 (w.kernel.proctab p).pprio)
        × (getpriority nproc sys p r.1 ≡ to_int32 (bound_priority n))
  getpriority-setpriority p n w inside used running nos nog =
      let e = set-writes p n w inside used running nos in
      (
        ap (λ r. r.0) e,
        ap (λ r. getpriority nproc sys p r.1) e
            ∙ get-written p (bound_priority n) w inside used nog,
      )

  -- After scheduler_shutdown, scheduler_switch to a known type makes its policy the one in use,
  -- but schedule does nothing afterwards.
  pub switch-shutdown :
      (p : Policy) (w : World P)
      → let v = (scheduler_switch nproc sys (known p) (scheduler_shutdown nproc sys w)).1 in
        (v.sched.current ≡ some p) × (schedule nproc sys v ≡ v)
  unfolding scheduler_switch start_policy stop_policy scheduler_shutdown schedule
  switch-shutdown p w = (refl, refl)

  -- For a process in range that is in the ready queue, sched_reset_stats leaves the queue as it is
  -- and sets runnable_count to 0, and ready_dequeue of the process then takes runnable_count to 2
  -- ^ 32 - 1.
  pub dequeue-reset_stats :
      (p : ℤ) (n : ReadyNode) (w : World P)
      → in_range nproc p ≡ true
      → Keyed.find node_pid p w.sched.ready ≡ some n
      → let v = sched_reset_stats nproc sys w in
        (v.sched.ready ≡ w.sched.ready)
        × (v.sched.stats.runnable_count ≡ 0)
        × ((ready_dequeue nproc p v.sched).stats.runnable_count ≡ 2 ^ 32 - 1)
  unfolding sched_reset_stats ready_dequeue drop_node drop_runnable
  dequeue-reset_stats p n w inside there = (refl, refl, rw (inside, there) refl)
