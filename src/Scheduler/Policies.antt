-- ===== src/Scheduler/Policies.antt =====
-- The contract between scheduler.c and a policy: what every entry of a table must keep, and that
-- the dispatcher then keeps it in the policy that is in use.
use scheduler_module.Base.{
  ℕ, ℤ, eqz, in_range, true, not, ◌||◌, ◌≡◌, refl, sym, subst, Option, none, some, List, [], ◌∷◌,
  if-case, is_some, ltb, ◌==◌,
}
use scheduler_module.Kernel.{Kernel, is_curr, is_free, is_ready, pr_ready, set_pstate}
use scheduler_module.Scheduler.{
  ReadyNode, link_ready, drop_node, pop_at, Policy, unknown, Ops, System, World, Sched,
  ready_enqueue, ready_dequeue, ready_pop,
}
use scheduler_module.Scheduler.Dispatch.{
  entry, call_or, on_pid, on_priority, call_policy, quantum_call, count_schedule, schedule, resched,
  requeue_current, count_yield, yield, count_preempt, preempt, write_priority, bound_priority,
  quantum_left, spend, expire_tick, resched_ready, setpriority, sched_set_quantum, clamp_quantum,
  count_tick, use_quantum, expire_quantum, sched_tick,
}
use scheduler_module.Scheduler.Life.{
  enqueue_process, dequeue_process, resched_current, ask_if_higher,
}
use scheduler_module.Scheduler.Calls.{Call, switch, shutdown}

abbrev pub Keeps : {P : Type 0} → (P → Type 0) → Option (Kernel → P → Kernel × P) → Type 0
Keeps J none = Unit {0}
Keeps J (some f) = (k : Kernel) (s : _) → J s → J (f k s).1

abbrev pub KeepsState : {P : Type 0} → (P → Type 0) → Option (P → P) → Type 0
KeepsState J none = Unit {0}
KeepsState J (some f) = (s : _) → J s → J (f s)

-- What a table promises: no entry but shutdown breaks J.
pub record IsPolicy {P : Type 0} (J : P → Type 0) (o : Ops P) : Type 0 where
  pub schedule : Keeps J o.schedule
  pub yield : Keeps J o.yield
  pub preempt : Keeps J o.preempt
  pub enqueue : (p : ℤ) → Keeps J (on_pid p o.enqueue)
  pub dequeue : (p : ℤ) → Keeps J (on_pid p o.dequeue)
  pub set_priority : (p : ℤ) (n : ℕ) → Keeps J (on_priority p n o.set_priority)
  pub set_quantum : (q : ℕ) → KeepsState J (quantum_call q o.set_quantum)
  pub tick : Keeps J o.tick
  pub reset_stats : KeepsState J o.reset_stats

-- Every policy starts well formed and stays so.
pub record IsLawful {P : Type 0} (sys : System P) (I : Policy → P → Type 0) : Type 0 where
  pub starts : (p : Policy) (s : P) → I p (sys.init_policy p s)
  pub keeps : (p : Policy) → IsPolicy (I p) (sys.ops p)

-- The calls that do not shut the policy in use down without starting one.
abbrev pub KeepsPolicy : Call → Type 0
KeepsPolicy (switch (unknown n)) = ⊥
KeepsPolicy shutdown = ⊥
KeepsPolicy _ = Unit {0}

module _ {P : Type 0} (nproc : ℕ) (sys : System P) (I : Policy → P → Type 0)
    (law : IsLawful sys I) where
  -- The policy in use, if any, is well formed.
  abbrev pub At : Option Policy → P → Type 0
  At none s = Unit {0}
  At (some p) s = I p s

  abbrev pub Sound : World P → Type 0
  Sound w = At w.sched.current w.policies

  entry-Keeps :
      (field : Ops P → Option (Kernel → P → Kernel × P))
      → ((p : Policy) → Keeps (I p) (field (sys.ops p)))
      → (c : Option Policy) → Keeps (At c) (entry nproc sys field c)
  unfolding entry
  entry-Keeps field keep none = tt
  entry-Keeps field keep (some p) = keep p

  on_pid-Keeps :
      (q : ℤ) (field : Ops P → Option (ℤ → Kernel → P → Kernel × P))
      → ((p : Policy) → Keeps (I p) (on_pid q (field (sys.ops p))))
      → (c : Option Policy) → Keeps (At c) (on_pid q (entry nproc sys field c))
  unfolding entry on_pid
  on_pid-Keeps q field keep none = tt
  on_pid-Keeps q field keep (some p) = keep p

  on_priority-Keeps :
      (q : ℤ) (n : ℕ) (c : Option Policy)
      → Keeps (At c) (on_priority q n (entry nproc sys (λ o. o.set_priority) c))
  unfolding entry on_priority
  on_priority-Keeps q n none = tt
  on_priority-Keeps q n (some p) = (law.keeps p).set_priority q n

  called :
      (J : P → Type 0) (f : Option (P → P)) (s : P) → KeepsState J f → J s → J (call_policy f s)
  unfolding call_policy
  called J none s h a = a
  called J (some f) s h a = h s a

  pub call_policy-At :
      (field : Ops P → Option (P → P))
      → ((p : Policy) → KeepsState (I p) (field (sys.ops p)))
      → (c : Option Policy) (s : P) → At c s
      → At c (call_policy (entry nproc sys field c) s)
  unfolding entry call_policy
  call_policy-At field keep none s a = tt
  call_policy-At field keep (some p) s a = called (I p) (field (sys.ops p)) s (keep p) a

  call-Sound :
      (f : Option (Kernel → P → Kernel × P)) (w other : World P)
      → Keeps (At w.sched.current) f
      → Sound w
      → Sound other
      → Sound (call_or f w other)
  unfolding call_or
  call-Sound none w other keep a b = b
  call-Sound (some f) w other keep a b = keep w.kernel w.policies a

  pub schedule-Sound : (w : World P) → Sound w → Sound (schedule nproc sys w)
  unfolding schedule count_schedule
  schedule-Sound w a =
      let w1 = count_schedule nproc sys w in
      if-case Sound (not w.sched.initialized || not (is_some w.sched.current)) _ _ a (
        call-Sound (entry nproc sys (λ o. o.schedule) w.sched.current) w1 w1
          (entry-Keeps (λ o. o.schedule) (λ p. (law.keeps p).schedule) w.sched.current) a a)

  pub resched-Sound : (w : World P) → Sound w → Sound (resched nproc sys w)
  unfolding resched
  resched-Sound w a = schedule-Sound _ a

  pub enqueue-current :
      (k : Kernel) (p : ℤ) (s : Sched) → (ready_enqueue nproc k p s).current ≡ s.current
  unfolding ready_enqueue link_ready
  enqueue-current k p s =
      if-case (λ (t : Sched). t.current ≡ s.current) (not (in_range nproc p)) _ _ refl
        (if-case (λ (t : Sched). t.current ≡ s.current) (s.free_nodes == 0) _ _ refl refl)

  pub dequeue-current : (p : ℤ) (s : Sched) → (ready_dequeue nproc p s).current ≡ s.current
  unfolding ready_dequeue drop_node
  dequeue-current p s =
      if-case (λ (t : Sched). t.current ≡ s.current) (not (in_range nproc p)) _ _ refl
        (if-case (λ (t : Sched). t.current ≡ s.current) _ _ _ refl refl)

  pub moved-Sound :
      (w : World P) (t : Sched) (k : Kernel)
      → t.current ≡ w.sched.current
      → Sound w
      → Sound (record w { kernel = k; sched = t })
  moved-Sound w t k e a = subst (λ c. At c w.policies) (sym e) a

  requeue-Sound : (w : World P) → Sound w → Sound (requeue_current nproc sys w)
  unfolding requeue_current
  requeue-Sound w a =
      let p = w.kernel.currpid in
      let k = set_pstate w.kernel p pr_ready in
      if-case Sound (is_curr (w.kernel.proctab p).pstate) _ _
        (moved-Sound w (ready_enqueue nproc k p w.sched) k (enqueue-current k p w.sched) a) a

  pub yield-Sound : (w : World P) → Sound w → Sound (yield nproc sys w)
  unfolding yield count_yield
  yield-Sound w a =
      let w1 = count_yield nproc sys w in
      call-Sound (entry nproc sys (λ o. o.yield) w1.sched.current) w1
        (resched nproc sys (requeue_current nproc sys w1))
        (entry-Keeps (λ o. o.yield) (λ p. (law.keeps p).yield) w.sched.current) a
        (resched-Sound _ (requeue-Sound w1 a))

  pub preempt-Sound : (w : World P) → Sound w → Sound (preempt nproc sys w)
  unfolding preempt count_preempt
  preempt-Sound w a =
      let w1 = count_preempt nproc sys w in
      call-Sound (entry nproc sys (λ o. o.preempt) w1.sched.current) w1
        (resched nproc sys (requeue_current nproc sys w1))
        (entry-Keeps (λ o. o.preempt) (λ p. (law.keeps p).preempt) w.sched.current) a
        (resched-Sound _ (requeue-Sound w1 a))

  pub setpriority-Sound :
      (p : ℤ) (n : ℕ) (w : World P) → Sound w → Sound (setpriority nproc sys p n w).1
  unfolding setpriority resched_ready write_priority
  setpriority-Sound p n w a =
      let n1 = bound_priority n in
      let f = on_priority p n1 (entry nproc sys (λ o. o.set_priority) w.sched.current) in
      let w1 = call_or f w (write_priority nproc sys p n1 w) in
      let a1 : Sound w1 =
        call-Sound f w (write_priority nproc sys p n1 w) (on_priority-Keeps p n1 w.sched.current) a
          a in
      let Out = λ (r : ℤ × World P). Sound r.1 in
      if-case Out (not (in_range nproc p)) _ _ a (
        if-case Out (is_free (w.kernel.proctab p).pstate) _ _ a
          (if-case Sound (is_ready (w1.kernel.proctab p).pstate) _ _ (resched-Sound w1 a1) a1))

  pub set_quantum-Sound : (q : ℕ) (w : World P) → Sound w → Sound (sched_set_quantum nproc sys q w)
  unfolding sched_set_quantum entry
  set_quantum-Sound q w a = told w.sched.current a
    where
      told :
          (c : Option Policy)
          → At c w.policies
          → At c (
              call_policy
                (quantum_call (clamp_quantum q) (entry nproc sys (λ o. o.set_quantum) c))
                w.policies)
      told none h = tt
      told (some p) h =
          called (I p) (quantum_call (clamp_quantum q) (sys.ops p).set_quantum) w.policies
            ((law.keeps p).set_quantum (clamp_quantum q)) h

  pub tick-Sound : (w : World P) → Sound w → Sound (sched_tick nproc sys w)
  unfolding sched_tick count_tick use_quantum spend expire_tick expire_quantum
  tick-Sound w a =
      let w1 = count_tick nproc sys w in
      call-Sound (entry nproc sys (λ o. o.tick) w1.sched.current) w1 (use_quantum nproc sys w1)
        (entry-Keeps (λ o. o.tick) (λ p. (law.keeps p).tick) w.sched.current) a
        (if-case Sound (quantum_left w1.sched == 0) (expire_tick nproc sys (spend nproc sys w1))
          (spend nproc sys w1) a a)

  pub enqueue-Sound : (p : ℤ) (w : World P) → Sound w → Sound (enqueue_process nproc sys p w)
  unfolding enqueue_process
  enqueue-Sound p w a =
      call-Sound (on_pid p (entry nproc sys (λ o. o.enqueue) w.sched.current)) w _
        (on_pid-Keeps p (λ o. o.enqueue) (λ q. (law.keeps q).enqueue p) w.sched.current) a
        (moved-Sound w (ready_enqueue nproc w.kernel p w.sched) w.kernel
          (enqueue-current w.kernel p w.sched) a)

  pub dequeue-Sound : (p : ℤ) (w : World P) → Sound w → Sound (dequeue_process nproc sys p w)
  unfolding dequeue_process
  dequeue-Sound p w a =
      call-Sound (on_pid p (entry nproc sys (λ o. o.dequeue) w.sched.current)) w _
        (on_pid-Keeps p (λ o. o.dequeue) (λ q. (law.keeps q).dequeue p) w.sched.current) a
        (moved-Sound w (ready_dequeue nproc p w.sched) w.kernel (dequeue-current p w.sched) a)

  pub resched_current-Sound :
      (p : ℤ) (w : World P) → Sound w → Sound (resched_current nproc sys p w)
  unfolding resched_current
  resched_current-Sound p w a = if-case Sound (eqz p w.kernel.currpid) _ _ (resched-Sound w a) a

  pub ask-Sound : (p : ℤ) (w : World P) → Sound w → Sound (ask_if_higher nproc sys p w)
  unfolding ask_if_higher
  ask-Sound p w a =
      let k = w.kernel in
      if-case Sound (ltb (k.proctab k.currpid).pprio (k.proctab p).pprio)
        (record w { kernel = record k { need_resched = true } }) w a a

  pub pop-current : (s : Sched) → (ready_pop s).1.current ≡ s.current
  unfolding ready_pop pop_at drop_node
  pop-current s = popped s.ready
    where
      popped : (ns : List ReadyNode) → (pop_at ns s).1.current ≡ s.current
      popped [] = refl
      popped (n ∷ ns) = refl
