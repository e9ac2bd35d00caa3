-- ===== src/RoundRobin/Bounds.antt =====
-- The time slices of round_robin.c stay within RR_MIN_QUANTUM and RR_MAX_QUANTUM.
use scheduler_module.Base.{
  ℕ, ◌≤◌, ℤ, eqz, is_neg, ◌≡◌, refl, Option, none, some, List, [], ◌∷◌, arith, ltb, if-case,
  in_range, is_some, ◌==◌, not, All, All-join,
}
use scheduler_module.Base.Keyed
use scheduler_module.Kernel.{Kernel}
use scheduler_module.RoundRobin.{
  Node, RoundRobin, node_pid, new_node, set_slice, count_round, update_node, end_slice,
  end_slice_at, rr_find_node, count_switch, advance, rotate_at, unlink_node, link_last,
  count_enqueue, pids, next_pid, round_robin_init, round_robin_shutdown, round_robin_enqueue,
  round_robin_dequeue, round_robin_rotate, round_robin_schedule, round_robin_yield,
  round_robin_preempt, round_robin_reset_stats, round_robin_pick_next,
}
use scheduler_module.RoundRobin.Slices.{
  use_tick, expire, tick_running, tick_at, slice_over, round_robin_set_quantum, round_robin_tick,
  round_robin_reset_slice,
}
use scheduler_module.RoundRobin.Calls.{
  Call, init, shutdown, enqueue, dequeue, reset_slice, set_quantum, rotate, schedule, yield,
  preempt, tick, reset_stats, step, run,
}

abbrev pub Short : Node → Type 0
Short n = n.time_remaining ≤ 100

-- The quantum in its bounds, and no process with more time than the largest quantum.
pub record IsBounded (s : RoundRobin) : Type 0 where
  pub low : 1 ≤ s.quantum
  pub high : s.quantum ≤ 100
  pub slices : All Short s.queue

same-IsBounded :
    (s t : RoundRobin) → t.queue ≡ s.queue → t.quantum ≡ s.quantum → IsBounded s → IsBounded t
same-IsBounded s t q h b =
    let l = b.low in
    let m = b.high in record { low = omega arith; high = omega arith; slices = rw q b.slices }

update-IsBounded :
    (p : ℤ) (f : Node → Node) (s : RoundRobin)
    → ((n : Node) → Short n → Short (f n))
    → IsBounded s
    → IsBounded (update_node p f s)
unfolding update_node
update-IsBounded p f s short b = record {
  low = b.low;
  high = b.high;
  slices = Keyed.All-update node_pid p f Short s.queue short b.slices;
}

slice-Short : (s : RoundRobin) → IsBounded s → (n : Node) → Short n → Short (set_slice s.quantum n)
unfolding set_slice
slice-Short s b n h = b.high

tick-Short : (n : Node) → Short n → Short (use_tick n)
unfolding use_tick
tick-Short n h = ground arith

advance-IsBounded : (p : ℤ) (s : RoundRobin) → IsBounded s → IsBounded (advance p s)
unfolding advance update_node count_round
advance-IsBounded p s b =
    let b1 = update-IsBounded p count_round s (λ n h. h) b in
    let b2 =
      update-IsBounded (next_pid p (pids s.queue)) (set_slice s.quantum)
        (update_node p count_round s) (slice-Short s b) b1 in
    same-IsBounded _ (advance p s) refl refl b2

rotate-IsBounded : (s : RoundRobin) → IsBounded s → IsBounded (round_robin_rotate s)
unfolding round_robin_rotate rotate_at
rotate-IsBounded s b = rotated s.current
  where
    rotated : (c : Option ℤ) → IsBounded (rotate_at c s)
    rotated none = b
    rotated (some p) = if-case IsBounded (ltb 1 s.queue_count) _ _ (advance-IsBounded p s b) b

enqueue-IsBounded :
    (nproc : ℕ) (p : ℤ) (s : RoundRobin) → IsBounded s → IsBounded (round_robin_enqueue nproc p s)
unfolding round_robin_enqueue count_enqueue link_last new_node
enqueue-IsBounded nproc p s b = if-case IsBounded (not (in_range nproc p)) _ _ b (
    if-case IsBounded (is_some (rr_find_node p s.queue)) _ _ b (
      if-case IsBounded (s.free_nodes == 0) _ _ b (record {
        low = b.low;
        high = b.high;
        slices = All-join Short s.queue (new_node p s ∷ []) b.slices (b.high, tt);
      })))

dequeue-IsBounded :
    (nproc : ℕ) (p : ℤ) (s : RoundRobin) → IsBounded s → IsBounded (round_robin_dequeue nproc p s)
unfolding round_robin_dequeue unlink_node
dequeue-IsBounded nproc p s b = if-case IsBounded (not (in_range nproc p)) _ _ b (
    if-case IsBounded (is_some (rr_find_node p s.queue)) _ _
      (record {
        low = b.low;
        high = b.high;
        slices = Keyed.All-unlink node_pid p Short s.queue b.slices;
      })
      b)

abbrev Good : Kernel × RoundRobin → Type 0
Good w = IsBounded w.1

schedule-IsBounded :
    (k : Kernel) (s : RoundRobin) → IsBounded s → IsBounded (round_robin_schedule k s).1
unfolding round_robin_schedule count_switch
schedule-IsBounded k s b =
    let next = round_robin_pick_next s in
    if-case Good (is_neg next) _ _ b
      (if-case Good (eqz next k.currpid) _ _ b (same-IsBounded s (count_switch s) refl refl b))

end_slice-IsBounded : (s : RoundRobin) → IsBounded s → IsBounded (end_slice s)
unfolding end_slice end_slice_at set_slice
end_slice-IsBounded s b = ended s.current
  where
    ended : (c : Option ℤ) → IsBounded (end_slice_at c s)
    ended none = b
    ended (some p) = update-IsBounded p (set_slice 0) s (λ n h. omega arith) b

yield-IsBounded : (k : Kernel) (s : RoundRobin) → IsBounded s → IsBounded (round_robin_yield k s).1
unfolding round_robin_yield
yield-IsBounded k s b =
    schedule-IsBounded _ _ (rotate-IsBounded (end_slice s) (end_slice-IsBounded s b))

expire-IsBounded : (k : Kernel) (s : RoundRobin) → IsBounded s → IsBounded (expire k s).1
unfolding expire
expire-IsBounded k s b = rotate-IsBounded _ (same-IsBounded s _ refl refl b)

tick-IsBounded : (k : Kernel) (s : RoundRobin) → IsBounded s → IsBounded (round_robin_tick k s).1
unfolding round_robin_tick tick_at tick_running
tick-IsBounded k s b = ticked s.current
  where
    ticked : (c : Option ℤ) → IsBounded (tick_at c k s).1
    ticked none = b
    ticked (some p) =
        let b1 = update-IsBounded p use_tick s tick-Short b in
        let b2 = expire-IsBounded k (update_node p use_tick s) b1 in
        if-case Good (eqz p k.currpid) _ _
          (if-case Good (slice_over (rr_find_node p (update_node p use_tick s).queue)) _ _ b2 b1) b

set_quantum-IsBounded :
    (q : ℕ) (s : RoundRobin) → IsBounded s → IsBounded (round_robin_set_quantum q s)
unfolding round_robin_set_quantum
set_quantum-IsBounded q s b = record { low = ground arith; high = ground arith; slices = b.slices }

init-IsBounded : (nproc : ℕ) → IsBounded (round_robin_init nproc)
unfolding round_robin_init
init-IsBounded nproc = record { low = omega arith; high = omega arith; slices = tt }

step-IsBounded :
    (nproc : ℕ) (k : Kernel) (s : RoundRobin) (a : Call)
    → IsBounded s
    → IsBounded (step nproc (k, s) a).1
unfolding step round_robin_shutdown round_robin_reset_slice round_robin_preempt
    round_robin_reset_stats
step-IsBounded nproc k s (enqueue p) b = enqueue-IsBounded nproc p s b
step-IsBounded nproc k s (dequeue p) b = dequeue-IsBounded nproc p s b
step-IsBounded nproc k s (reset_slice p) b =
    update-IsBounded p (set_slice s.quantum) s (slice-Short s b) b
step-IsBounded nproc k s (set_quantum q) b = set_quantum-IsBounded q s b
step-IsBounded nproc k s init b = init-IsBounded nproc
step-IsBounded nproc k s shutdown b = record { low = b.low; high = b.high; slices = tt }
step-IsBounded nproc k s rotate b = rotate-IsBounded s b
step-IsBounded nproc k s schedule b = schedule-IsBounded k s b
step-IsBounded nproc k s yield b = yield-IsBounded k s b
step-IsBounded nproc k s preempt b = yield-IsBounded k s b
step-IsBounded nproc k s tick b = tick-IsBounded k s b
step-IsBounded nproc k s reset_stats b = same-IsBounded s _ refl refl b

run-IsBounded :
    (nproc : ℕ) (k : Kernel) (s : RoundRobin) (calls : List Call)
    → IsBounded s
    → IsBounded (run nproc (k, s) calls).1
unfolding run
run-IsBounded nproc k s [] b = b
run-IsBounded nproc k s (a ∷ calls) b =
    let w = step nproc (k, s) a in run-IsBounded nproc w.0 w.1 calls (step-IsBounded nproc k s a b)

-- After round_robin_init and any calls, round_robin_init and round_robin_shutdown among them, the
-- quantum is between RR_MIN_QUANTUM and RR_MAX_QUANTUM, and no queued process has more than
-- RR_MAX_QUANTUM ticks left.
pub run-init-IsBounded :
    (nproc : ℕ) (k : Kernel) (calls : List Call)
    → IsBounded (run nproc (k, round_robin_init nproc) calls).1
run-init-IsBounded nproc k calls =
    run-IsBounded nproc k (round_robin_init nproc) calls (init-IsBounded nproc)
