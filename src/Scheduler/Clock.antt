-- ===== src/Scheduler/Clock.antt =====
-- sched_tick of scheduler.c where no policy has an entry for it: the dispatcher's own quantum.
use scheduler_module.Base.{
  ℕ, zero, suc, ◌≤◌, true, false, ◌≡◌, refl, ap, ◌∙◌, Option, none, ◌==◌, if◌then◌else◌, arith,
}
use scheduler_module.Kernel.{Kernel}
use scheduler_module.Scheduler.{System, World, Sched}
use scheduler_module.Scheduler.Dispatch.{
  entry, call_or, count_tick, quantum_left, spend, expire_tick, use_quantum, expire_quantum,
  sched_tick,
}

quantum_left-suc : (s : Sched) (n : ℕ) → s.quantum_remaining ≡ suc n → quantum_left s ≡ n
unfolding quantum_left
quantum_left-suc s n e = ground arith

not_zero : (n : ℕ) → (suc n == 0) ≡ false
not_zero n = ground arith

module _ {P : Type 0} (nproc : ℕ) (sys : System P) where
  unfoldable pub sched_ticks : ℕ → World P → World P
  sched_ticks zero w = w
  sched_ticks (suc n) w = sched_ticks n (sched_tick nproc sys w)

  abbrev counted : World P → World P
  counted w = count_tick nproc sys w

  abbrev NoTick : World P → Type 0
  NoTick w = entry nproc sys (λ o. o.tick) w.sched.current ≡ none

  tick-falls_back :
      (w : World P) → NoTick w → sched_tick nproc sys w ≡ use_quantum nproc sys (counted w)
  unfolding sched_tick call_or count_tick
  tick-falls_back w h =
      ap
        (λ (f : Option (Kernel → P → Kernel × P)).
          call_or f (counted w) (use_quantum nproc sys (counted w)))
        h

  tick-lasts :
      (w : World P) (n : ℕ)
      → NoTick w
      → w.sched.quantum_remaining ≡ suc (suc n)
      → sched_tick nproc sys w ≡ spend nproc sys (counted w)
  unfolding use_quantum count_tick
  tick-lasts w n h e =
      let left = quantum_left-suc (counted w).sched (suc n) e in
      tick-falls_back w h
      ∙ ap
          (λ q.
            if q == 0
            then expire_tick nproc sys (spend nproc sys (counted w))
            else spend nproc sys (counted w))
          left
      ∙ ap
          (λ b.
            if b
            then expire_tick nproc sys (spend nproc sys (counted w))
            else spend nproc sys (counted w))
          (not_zero n)

  tick-last :
      (w : World P)
      → NoTick w
      → w.sched.quantum_remaining ≡ 1
      → sched_tick nproc sys w ≡ expire_tick nproc sys (spend nproc sys (counted w))
  unfolding use_quantum count_tick
  tick-last w h e =
      let left = quantum_left-suc (counted w).sched 0 e in
      tick-falls_back w h
      ∙ ap
          (λ q.
            if q == 0
            then expire_tick nproc sys (spend nproc sys (counted w))
            else spend nproc sys (counted w))
          left

  quiet_ticks :
      (m n : ℕ) (w : World P)
      → NoTick w
      → w.sched.quantum_remaining ≡ suc n
      → m ≤ n
      → (sched_ticks m w).kernel ≡ w.kernel
  unfolding sched_ticks spend count_tick
  quiet_ticks zero n w h e le = refl
  quiet_ticks (suc m) zero w h e le = absurd (omega arith)
  quiet_ticks (suc m) (suc n) w h e le =
      ap (λ v. (sched_ticks m v).kernel) (tick-lasts w n h e)
      ∙ quiet_ticks m n (spend nproc sys (counted w)) h
          (quantum_left-suc (counted w).sched (suc n) e) (omega arith)

  last_tick :
      (n : ℕ) (w : World P)
      → NoTick w
      → w.sched.quantum_remaining ≡ suc n
      → ((sched_ticks (suc n) w).kernel ≡ record (w.kernel) { need_resched = true })
        × ((sched_ticks (suc n) w).sched.quantum_remaining ≡ w.sched.current_quantum)
  unfolding sched_ticks spend count_tick expire_tick expire_quantum
  last_tick zero w h e =
      let l = tick-last w h e in (ap (λ v. v.kernel) l, ap (λ v. v.sched.quantum_remaining) l)
  last_tick (suc n) w h e =
      let l = tick-lasts w n h e in
      let (asked, full) =
        last_tick n (spend nproc sys (counted w)) h
          (quantum_left-suc (counted w).sched (suc n) e) in
      (
        ap (λ v. (sched_ticks (suc n) v).kernel) l ∙ asked,
        ap (λ v. (sched_ticks (suc n) v).sched.quantum_remaining) l ∙ full,
      )

  -- Where the policy has no entry for the tick and quantum_remaining is n + 1, the first n calls
  -- of sched_tick leave the kernel as it is, and the next one sets need_resched, changes nothing
  -- else in the kernel, and leaves the current quantum as the remaining one.
  pub quantum_runs_out :
      (n : ℕ) (w : World P)
      → entry nproc sys (λ o. o.tick) w.sched.current ≡ none
      → w.sched.quantum_remaining ≡ suc n
      → ((m : ℕ) → m ≤ n → (sched_ticks m w).kernel ≡ w.kernel)
        × ((sched_ticks (suc n) w).kernel ≡ record (w.kernel) { need_resched = true })
        × ((sched_ticks (suc n) w).sched.quantum_remaining ≡ w.sched.current_quantum)
  quantum_runs_out n w h e =
      let (asked, full) = last_tick n w h e in (λ m le. quiet_ticks m n w h e le, asked, full)
