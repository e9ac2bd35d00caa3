-- ===== src/RoundRobin/Switches.antt =====
-- The process switches of round_robin.c.
use scheduler_module.Base.{ℕ, ℤ, eqz_iff, pos, ◌≡◌, ◌≢◌, refl, ap, ◌∙◌, some, ◌∷◌, arith, if-case}
use scheduler_module.Kernel.{
  Kernel, pr_curr, pr_ready, set_pstate, set_proc, stop_running, context_switch, is_curr,
}
use scheduler_module.RoundRobin.{
  RoundRobin, pid_or_none, round_robin_pick_next, run_next, round_robin_schedule, end_slice,
  end_slice_at, update_node, set_slice, round_robin_rotate, round_robin_yield,
}
use scheduler_module.RoundRobin.Ring.{rotate_alone}

-- If rr_current is a process other than the running one, which is in state PR_CURR,
-- round_robin_schedule makes it the running one in state PR_CURR, leaves the other one in
-- PR_READY, and calls context_switch once, from the one to the other.
pub schedule-runs :
    (k : Kernel) (s : RoundRobin) (p : ℕ)
    → s.current ≡ some (pos p)
    → (k.proctab k.currpid).pstate ≡ pr_curr
    → k.currpid ≢ pos p
    → let k1 = (round_robin_schedule k s).0 in
      (k1.currpid ≡ pos p)
      × ((k1.proctab (pos p)).pstate ≡ pr_curr)
      × ((k1.proctab k.currpid).pstate ≡ pr_ready)
      × (k1.switches ≡ (k.currpid, pos p) ∷ k.switches)
unfolding round_robin_schedule round_robin_pick_next pid_or_none run_next stop_running set_pstate
    set_proc context_switch is_curr
schedule-runs k s p cur runs ne =
    rw (cur, runs)
      (ground (
        arith,
        eqz_iff k.currpid (pos p),
        eqz_iff (pos p) k.currpid,
        eqz_iff k.currpid k.currpid,
        eqz_iff (pos p) (pos p),
      ))

end_slice-node :
    (s : RoundRobin) (p : ℤ) → s.current ≡ some p → end_slice s ≡ update_node p (set_slice 0) s
unfolding end_slice end_slice_at
end_slice-node s p cur = ap (λ c. end_slice_at c s) cur

stays :
    (k : Kernel) (s : RoundRobin) (p : ℕ)
    → s.current ≡ some (pos p)
    → k.currpid ≡ pos p
    → round_robin_schedule k s ≡ (k, s)
unfolding round_robin_schedule round_robin_pick_next pid_or_none
stays k s p cur e = rw (cur, e, (eqz_iff (pos p) (pos p)).1 refl) refl

stop-ready :
    (k : Kernel) (p : ℤ)
    → (k.proctab p).pstate ≡ pr_curr
    → ((stop_running k p).proctab p).pstate ≡ pr_ready
unfolding stop_running set_pstate set_proc is_curr
stop-ready k p runs = rw (runs, (eqz_iff p p).1 refl) refl

stop-currpid : (k : Kernel) (p : ℤ) → (stop_running k p).currpid ≡ k.currpid
unfolding stop_running set_pstate is_curr
stop-currpid k p =
    if-case (λ (j : Kernel). j.currpid ≡ k.currpid) (is_curr (k.proctab p).pstate) _ _ refl refl

rotate_ended :
    (s : RoundRobin) (p : ℤ)
    → s.current ≡ some p
    → s.queue_count ≡ 1
    → round_robin_rotate (end_slice s) ≡ update_node p (set_slice 0) s
unfolding update_node
rotate_ended s p cur one =
    ap round_robin_rotate (end_slice-node s p cur)
    ∙ rotate_alone (update_node p (set_slice 0) s) p cur (ground arith)

-- If the running process is rr_current, in state PR_CURR, and rr_queue_count is 1, then after
-- round_robin_yield it is still the running process, the kernel has only its state changed, and
-- its state is PR_READY.
pub yield_alone_ready :
    (k : Kernel) (s : RoundRobin) (p : ℕ)
    → s.current ≡ some (pos p)
    → k.currpid ≡ pos p
    → s.queue_count ≡ 1
    → (k.proctab k.currpid).pstate ≡ pr_curr
    → let k1 = (round_robin_yield k s).0 in
      (k1 ≡ stop_running k k.currpid)
      × (k1.currpid ≡ pos p)
      × ((k1.proctab k1.currpid).pstate ≡ pr_ready)
unfolding round_robin_yield update_node
yield_alone_ready k s p cur e one runs =
    let k1 = stop_running k k.currpid in
    let turned = rotate_ended s (pos p) cur one in
    let kept : round_robin_yield k s ≡ (k1, update_node (pos p) (set_slice 0) s) =
      ap (round_robin_schedule k1) turned
      ∙ stays k1 (update_node (pos p) (set_slice 0) s) p cur (stop-currpid k k.currpid ∙ e) in
    let here : (round_robin_yield k s).0 ≡ k1 = ap (λ w. w.0) kept in
    (
      here,
      ap (λ (j : Kernel). j.currpid) here ∙ stop-currpid k k.currpid ∙ e,
      ap (λ (j : Kernel). (j.proctab j.currpid).pstate) here
          ∙ ap (λ i. (k1.proctab i).pstate) (stop-currpid k k.currpid)
          ∙ stop-ready k k.currpid runs,
    )
