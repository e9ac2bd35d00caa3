-- ===== src/RoundRobin/Slices.antt =====
-- The quantum of round_robin.c, and round_robin_tick.
use scheduler_module.Base.{
  ℕ, ◌-◌, ℤ, eqz, Bool, true, false, Option, none, some, ltb, ◌==◌, if◌then◌else◌, inc64,
}
use scheduler_module.Kernel.{Kernel}
use scheduler_module.RoundRobin.{
  Node, RoundRobin, min_quantum, max_quantum, rr_find_node, update_node, set_slice,
  round_robin_rotate,
}

unfoldable pub round_robin_set_quantum : ℕ → RoundRobin → RoundRobin
round_robin_set_quantum q s =
    let q1 = if ltb q min_quantum then min_quantum else q in
    record s { quantum = if ltb max_quantum q1 then max_quantum else q1 }

unfoldable pub round_robin_get_quantum : RoundRobin → ℕ
round_robin_get_quantum s = s.quantum

-- total_time++; if (time_remaining > 0) time_remaining--;
unfoldable pub use_tick : Node → Node
use_tick n = record n {
  total_time = inc64 n.total_time;
  time_remaining = if ltb 0 n.time_remaining then n.time_remaining - 1 else n.time_remaining;
}

unfoldable pub expire : Kernel → RoundRobin → Kernel × RoundRobin
expire k s = (
  record k { need_resched = true },
  round_robin_rotate (record s {
    stats = record (s.stats) { total_quantum_expires = inc64 s.stats.total_quantum_expires };
  }),
)

-- rr_current->time_remaining == 0
unfoldable pub slice_over : Option Node → Bool
slice_over none = false
slice_over (some n) = n.time_remaining == 0

-- The tick of the running process `p`, whose node is rr_current.
unfoldable pub tick_running : Kernel → ℤ → RoundRobin → Kernel × RoundRobin
tick_running k p s =
    let s1 = update_node p use_tick s in
    if slice_over (rr_find_node p s1.queue) then expire k s1 else (k, s1)

-- round_robin_tick at rr_current, NULL or a node.
unfoldable pub tick_at : Option ℤ → Kernel → RoundRobin → Kernel × RoundRobin
tick_at none k s = (k, s)
tick_at (some p) k s = if eqz p k.currpid then tick_running k p s else (k, s)

unfoldable pub round_robin_tick : Kernel → RoundRobin → Kernel × RoundRobin
round_robin_tick k s = tick_at s.current k s

unfoldable pub round_robin_reset_slice : ℤ → RoundRobin → RoundRobin
round_robin_reset_slice p s = update_node p (set_slice s.quantum) s
