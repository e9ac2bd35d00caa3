-- ===== src/RoundRobin/Ticks.antt =====
-- round_robin_tick over a whole time slice.
use scheduler_module.Base.{
  ℕ, zero, suc, ◌≤◌, eqz_iff, ◌≡◌, refl, ap, ◌∙◌, some, true, false, arith, inc64, if◌then◌else◌,
}
use scheduler_module.Base.Keyed
use scheduler_module.Kernel.{Kernel}
use scheduler_module.RoundRobin.{Node, node_pid, RoundRobin, rr_find_node, update_node}
use scheduler_module.RoundRobin.Slices.{
  use_tick, slice_over, expire, tick_running, tick_at, round_robin_tick,
}
use scheduler_module.RoundRobin.Ring.{ring, ring_at, rotate_left, ring-rotate, pids-update}
use scheduler_module.RoundRobin.Invariant.{IsRing, update_node-IsRing, same_queue-IsRing}

unfoldable pub ticks : ℕ → Kernel × RoundRobin → Kernel × RoundRobin
ticks zero w = w
ticks (suc n) (k, s) = ticks n (round_robin_tick k s)

left_over :
    (x : Node) (n : ℕ) → x.time_remaining ≡ suc (suc n) → slice_over (some (use_tick x)) ≡ false
unfolding slice_over use_tick
left_over x n t = ground arith

used_up : (x : Node) → x.time_remaining ≤ 1 → slice_over (some (use_tick x)) ≡ true
unfolding slice_over use_tick
used_up x t = ground arith

used_one : (x : Node) (n : ℕ) → x.time_remaining ≡ suc n → (use_tick x).time_remaining ≡ n
unfolding use_tick
used_one x n t = ground arith

module _ (k : Kernel) where
  abbrev used : RoundRobin → RoundRobin
  used s = update_node k.currpid use_tick s

  tick-running :
      (s : RoundRobin)
      → s.current ≡ some k.currpid
      → round_robin_tick k s ≡ tick_running k k.currpid s
  unfolding round_robin_tick tick_at
  tick-running s cur =
      ap (λ c. tick_at c k s) cur
      ∙ ap (λ b. if b then tick_running k k.currpid s else (k, s))
          ((eqz_iff k.currpid k.currpid).1 refl)

  find-used :
      (s : RoundRobin) (x : Node)
      → rr_find_node k.currpid s.queue ≡ some x
      → rr_find_node k.currpid (used s).queue ≡ some (use_tick x)
  unfolding rr_find_node update_node use_tick
  find-used s x f = Keyed.find-update_self node_pid k.currpid use_tick (λ n. refl) s.queue x f

  -- A tick that is not the last of the slice.
  tick-lasts :
      (s : RoundRobin) (x : Node) (n : ℕ)
      → s.current ≡ some k.currpid
      → rr_find_node k.currpid s.queue ≡ some x
      → x.time_remaining ≡ suc (suc n)
      → round_robin_tick k s ≡ (k, used s)
  unfolding tick_running
  tick-lasts s x n cur f t = tick-running s cur ∙ rw (find-used s x f, left_over x n t) refl

  tick-last :
      (s : RoundRobin) (x : Node)
      → s.current ≡ some k.currpid
      → rr_find_node k.currpid s.queue ≡ some x
      → x.time_remaining ≤ 1
      → round_robin_tick k s ≡ expire k (used s)
  unfolding tick_running
  tick-last s x cur f t = tick-running s cur ∙ rw (find-used s x f, used_up x t) refl

  ring-used : (s : RoundRobin) → ring (used s) ≡ ring s
  unfolding ring update_node use_tick
  ring-used s = ap (ring_at s.current) (pids-update k.currpid use_tick s.queue (λ n. refl))

  used-IsRing : (nproc : ℕ) (s : RoundRobin) → IsRing nproc s → IsRing nproc (used s)
  unfolding use_tick
  used-IsRing nproc s i = update_node-IsRing nproc k.currpid use_tick s (λ n. refl) i

  expire-ring :
      (nproc : ℕ) (s : RoundRobin) → IsRing nproc s → ring (expire k s).1 ≡ rotate_left (ring s)
  unfolding expire ring
  expire-ring nproc s i =
      let t : RoundRobin = record s {
        stats = record (s.stats) { total_quantum_expires = inc64 s.stats.total_quantum_expires };
      } in
      let i1 : IsRing nproc t = same_queue-IsRing nproc s t refl refl refl refl i in
      ring-rotate t i1.distinct i1.count i1.current

  expire-kernel : (s : RoundRobin) → (expire k s).0 ≡ record k { need_resched = true }
  unfolding expire
  expire-kernel s = refl

  quiet_ticks :
      (m n : ℕ) (s : RoundRobin) (x : Node)
      → s.current ≡ some k.currpid
      → rr_find_node k.currpid s.queue ≡ some x
      → x.time_remaining ≡ suc n
      → m ≤ n
      → (ticks m (k, s)).0 ≡ k
  unfolding ticks update_node
  quiet_ticks zero n s x cur f t h = refl
  quiet_ticks (suc m) zero s x cur f t h = absurd (omega arith)
  quiet_ticks (suc m) (suc n) s x cur f t h =
      ap (λ w. (ticks m w).0) (tick-lasts s x n cur f t)
      ∙ quiet_ticks m n (used s) (use_tick x) cur (find-used s x f) (used_one x (suc n) t)
          (omega arith)

  slice_end :
      (n nproc : ℕ) (s : RoundRobin) (x : Node)
      → IsRing nproc s
      → s.current ≡ some k.currpid
      → rr_find_node k.currpid s.queue ≡ some x
      → x.time_remaining ≡ suc n
      → ((ticks (suc n) (k, s)).0 ≡ record k { need_resched = true })
        × (ring (ticks (suc n) (k, s)).1 ≡ rotate_left (ring s))
  unfolding ticks update_node
  slice_end zero nproc s x i cur f t =
      let e = tick-last s x cur f (omega arith) in
      (
        ap (λ w. w.0) e ∙ expire-kernel (used s),
        ap (λ w. ring w.1) e
            ∙ expire-ring nproc (used s) (used-IsRing nproc s i)
            ∙ ap rotate_left (ring-used s),
      )
  slice_end (suc n) nproc s x i cur f t =
      let e = tick-lasts s x n cur f t in
      let (ended, turned) =
        slice_end n nproc (used s) (use_tick x) (used-IsRing nproc s i) cur (find-used s x f)
          (used_one x (suc n) t) in
      (
        ap (λ w. (ticks (suc n) w).0) e ∙ ended,
        ap (λ w. ring (ticks (suc n) w).1) e ∙ turned ∙ ap rotate_left (ring-used s),
      )

  -- In a well formed round robin state in which rr_current is the running process and has n + 1
  -- ticks left, the first n ticks leave the kernel as it is, and the next one asks for a
  -- reschedule, changes nothing else in the kernel, and leaves the order in which the processes
  -- run rotated by one.
  pub slice :
      (n nproc : ℕ) (s : RoundRobin) (x : Node)
      → IsRing nproc s
      → s.current ≡ some k.currpid
      → rr_find_node k.currpid s.queue ≡ some x
      → x.time_remaining ≡ suc n
      → ((m : ℕ) → m ≤ n → (ticks m (k, s)).0 ≡ k)
        × ((ticks (suc n) (k, s)).0 ≡ record k { need_resched = true })
        × (ring (ticks (suc n) (k, s)).1 ≡ rotate_left (ring s))
  slice n nproc s x i cur f t =
      let (asked, turned) = slice_end n nproc s x i cur f t in
      (λ m h. quiet_ticks m n s x cur f t h, asked, turned)
