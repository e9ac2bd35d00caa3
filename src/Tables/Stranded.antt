-- ===== src/Tables/Stranded.antt =====
-- What a switch to an unknown type leaves behind where the round robin policy is in use: the dispatcher
-- of scheduler.c with the table of round_robin.c.
use scheduler_module.Base.{
  ℕ, zero, suc, ◌+◌, is_neg, true, false, not, ◌||◌, ◌≡◌, refl, sym, ap, ◌∙◌, subst, none, some, [],
  is_some, length, if-case,
}
use scheduler_module.Kernel.{Kernel}
use scheduler_module.Scheduler.{scheduler_round_robin, unknown, System, World, Ops}
use scheduler_module.Scheduler.Dispatch.{entry, call_or, call_policy, count_schedule, schedule}
use scheduler_module.Scheduler.Life.{stop_policy, start_policy, scheduler_switch}
use scheduler_module.Priority.Queue.{Config}
use scheduler_module.Lottery.Tickets.{Floats}
use scheduler_module.RoundRobin.{
  RoundRobin, round_robin_shutdown, pid_or_none, round_robin_pick_next, round_robin_schedule,
}
use scheduler_module.RoundRobin.Invariant.{IsRing}
use scheduler_module.Tables.{Policies, schedulers, table, lift_ops, rr_ops}

idle_schedule : (k : Kernel) (s : RoundRobin) → s.current ≡ none → round_robin_schedule k s ≡ (k, s)
unfolding round_robin_schedule round_robin_pick_next
idle_schedule k s e =
    let stop : is_neg (pid_or_none s.current) ≡ true =
      ap (λ o. is_neg (pid_or_none o)) e ∙ (unfold pid_or_none in refl) in
    rw stop refl

-- The kernel without a request to reschedule, which every schedule clears.
abbrev pub quiet : Kernel → Kernel
quiet k = record k { need_resched = false }

module _ (c : Config) (fl : Floats) {R : Type 0} (others : System R) where
  abbrev sys : System (Policies R)
  sys = schedulers c fl others

  unfoldable pub schedules : ℕ → World (Policies R) → World (Policies R)
  schedules zero w = w
  schedules (suc m) w = schedules m (schedule c.nproc sys w)

  -- The round robin policy is in use with the state s, and the kernel is k but for such a request.
  abbrev InState : Kernel → RoundRobin → World (Policies R) → Type 0
  InState k s w =
      (w.sched.current ≡ some scheduler_round_robin)
      × (w.policies.round_robin ≡ s)
      × (quiet w.kernel ≡ quiet k)

  entry-schedule :
      entry c.nproc sys (λ o. o.schedule) (some scheduler_round_robin)
      ≡ some (λ k (p : Policies R).
        let r = round_robin_schedule k p.round_robin in (r.0, record p { round_robin = r.1 }))
  unfolding entry table lift_ops rr_ops
  entry-schedule = refl

  schedule-InState :
      (k : Kernel) (s : RoundRobin) (w : World (Policies R))
      → s.current ≡ none
      → InState k s w
      → InState k s (schedule c.nproc sys w)
  unfolding schedule count_schedule
  schedule-InState k s w idle (cur, st, ker) =
      let w1 = count_schedule c.nproc sys w in
      let same =
        idle_schedule (quiet w.kernel) w.policies.round_robin
          (ap (λ (x : RoundRobin). x.current) st ∙ idle) in
      let called : InState k s
          (call_or (entry c.nproc sys (λ o. o.schedule) w.sched.current) w1 w1) =
        subst (λ f. InState k s (call_or f w1 w1))
          (sym (ap (entry c.nproc sys (λ o. o.schedule)) cur ∙ entry-schedule))
          (unfold call_or in
            (
              cur,
              ap (λ (r : Kernel × RoundRobin). r.1) same ∙ st,
              ap (λ (r : Kernel × RoundRobin). quiet r.0) same ∙ ker,
            )) in
      if-case (InState k s) (not w.sched.initialized || not (is_some w.sched.current)) _ _
        (cur, st, ker) called

  schedules-InState :
      (m : ℕ) (k : Kernel) (s : RoundRobin) (w : World (Policies R))
      → s.current ≡ none
      → InState k s w
      → InState k s (schedules m w)
  unfolding schedules
  schedules-InState zero k s w idle i = i
  schedules-InState (suc m) k s w idle i =
      schedules-InState m k s (schedule c.nproc sys w) idle (schedule-InState k s w idle i)

  switch-InState :
      (n : ℕ) (w : World (Policies R))
      → w.sched.current ≡ some scheduler_round_robin
      → InState w.kernel
          (round_robin_shutdown w.policies.round_robin)
          (scheduler_switch c.nproc sys (unknown n) w).1
  unfolding scheduler_switch start_policy stop_policy entry call_policy table lift_ops rr_ops
  switch-InState n w cur = (
    cur,
    ap
        (λ o.
          (call_policy (entry c.nproc sys (λ (x : Ops (Policies R)). x.shutdown) o)
            w.policies).round_robin)
        cur,
    refl,
  )

  -- Where the round robin policy is in use and well formed, scheduler_switch to an unknown type
  -- returns SYSERR, and after any number of calls of schedule that follow the round robin policy
  -- is still in use, its queue is empty, and the kernel is as before the switch, but for a request
  -- to reschedule: nothing was switched to. The nodes that were queued are lost: the free ones and
  -- they are NPROC together.
  pub switch_unknown_strands :
      (n m : ℕ) (w : World (Policies R))
      → w.sched.current ≡ some scheduler_round_robin
      → IsRing c.nproc w.policies.round_robin
      → let r = scheduler_switch c.nproc sys (unknown n) w in
        let v = schedules m r.1 in
        (r.0 ≡ false)
        × (v.sched.current ≡ some scheduler_round_robin)
        × (quiet v.kernel ≡ quiet w.kernel)
        × (v.policies.round_robin.queue ≡ [])
        × (v.policies.round_robin.free_nodes + length w.policies.round_robin.queue ≡ c.nproc)
  switch_unknown_strands n m w cur ring =
      let s = round_robin_shutdown w.policies.round_robin in
      let r = scheduler_switch c.nproc sys (unknown n) w in
      let idle : s.current ≡ none = unfold round_robin_shutdown in refl in
      let empty : s.queue ≡ [] = unfold round_robin_shutdown in refl in
      let free : s.free_nodes ≡ w.policies.round_robin.free_nodes =
        unfold round_robin_shutdown in refl in
      let fails : r.0 ≡ false = unfold scheduler_switch start_policy in refl in
      let (same, state, kernel) =
        schedules-InState m w.kernel s r.1 idle (switch-InState n w cur) in
      (
        fails,
        same,
        kernel,
        ap (λ (x : RoundRobin). x.queue) state ∙ empty,
        ap (λ (x : RoundRobin). x.free_nodes + length w.policies.round_robin.queue) state
            ∙ ap (λ f. f + length w.policies.round_robin.queue) free
            ∙ ring.room,
      )
