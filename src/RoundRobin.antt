-- ===== src/RoundRobin.antt =====
-- round_robin.c: the state of the round-robin scheduler and its operations. The circular list is
-- the list of its nodes from rr_queue_head on, in the order of the `next` links; rr_current is the
-- pid of the node that it points to. The free list of the NPROC nodes is its length. Each operation
-- runs with interrupts disabled, and takes and gives back rr_lock, so it is one step.
pub mod Slices
pub mod Ring
pub mod Pids
pub mod Invariant
pub mod Linking
pub mod Unlinking
pub mod Fairness
pub mod Ticks
pub mod Calls
pub mod Bounds
pub mod Switches
mod Tests
use scheduler_module.Base.{
  ℕ, ◌+◌, ◌-◌, ℤ, eqz, is_neg, minus_one, in_range, Bool, true, false, ◌&&◌, not, Option, none,
  some, List, [], ◌∷◌, ◌++◌, map, ltb, ◌==◌, if◌then◌else◌, is_some, inc32, dec32, inc64,
}
use scheduler_module.Base.Keyed
use scheduler_module.Kernel.{Kernel, pr_curr, pr_ready, set_pstate, stop_running, context_switch}

pub record Node : Type 0 where
  pub pid : ℤ
  pub time_remaining : ℕ
  pub total_time : ℕ
  pub rounds : ℕ

abbrev pub node_pid : Node → ℤ
node_pid n = n.pid

pub record RrStats : Type 0 where
  pub total_processes : ℕ
  pub total_context_switches : ℕ
  pub total_quantum_expires : ℕ
  pub avg_wait_time : ℕ
  pub current_queue_length : ℕ
  pub max_queue_length : ℕ

pub record RoundRobin : Type 0 where
  pub queue : List Node
  pub current : Option ℤ
  pub free_nodes : ℕ
  pub queue_count : ℕ
  pub quantum : ℕ
  pub quantum_remaining : ℕ
  pub stats : RrStats

abbrev pub default_quantum : ℕ
default_quantum = 10

abbrev pub min_quantum : ℕ
min_quantum = 1

abbrev pub max_quantum : ℕ
max_quantum = 100

abbrev pub zero_stats : RrStats
zero_stats = record {
  total_processes = 0;
  total_context_switches = 0;
  total_quantum_expires = 0;
  avg_wait_time = 0;
  current_queue_length = 0;
  max_queue_length = 0;
}

unfoldable pub rr_find_node : ℤ → List Node → Option Node
rr_find_node p queue = Keyed.find node_pid p queue

-- node->next->pid in the circular list: the successor, and behind the last node the first.
unfoldable pub next_in : ℤ → ℤ → List ℤ → ℤ
next_in p head [] = head
next_in p head (x ∷ []) = head
next_in p head (x ∷ y ∷ rest) = if eqz x p then y else next_in p head (y ∷ rest)

unfoldable pub next_pid : ℤ → List ℤ → ℤ
unfolding next_in
next_pid p [] = p
next_pid p (head ∷ rest) = next_in p head (head ∷ rest)

abbrev pub pids : List Node → List ℤ
pids = map node_pid

-- The node as round_robin_enqueue fills it.
unfoldable pub new_node : ℤ → RoundRobin → Node
new_node p s = record { pid = p; time_remaining = s.quantum; total_time = 0; rounds = 0 }

unfoldable pub is_nil : List Node → Bool
is_nil [] = true
is_nil (n ∷ ns) = false

unfoldable pub round_robin_shutdown : RoundRobin → RoundRobin
round_robin_shutdown s = record s { queue = []; current = none; queue_count = 0 }

-- The counters after the queue has grown.
unfoldable pub count_enqueue : RoundRobin → RoundRobin
count_enqueue s =
    let n = inc32 s.queue_count in
    record s {
      queue_count = n;
      stats = record (s.stats) {
        total_processes = inc32 s.stats.total_processes;
        max_queue_length = if ltb s.stats.max_queue_length n then n else s.stats.max_queue_length;
        current_queue_length = n;
      };
    }

-- In front of the head, which is behind the last node of the circle.
unfoldable pub link_last : Node → RoundRobin → RoundRobin
unfolding is_nil
link_last n s = record s {
  queue = s.queue ++ n ∷ [];
  current = if is_nil s.queue then some n.pid else s.current;
  free_nodes = s.free_nodes - 1;
}

-- if (rr_current == node) rr_current = node->next;
unfoldable pub move_off : ℤ → List Node → Option ℤ → Option ℤ
move_off p queue none = none
move_off p queue (some q) = if eqz q p then some (next_pid p (pids queue)) else some q

-- rr_current after the node `p` has gone: NULL if the node was alone.
unfoldable pub current_without : ℤ → RoundRobin → Option ℤ
unfolding is_nil
current_without p s =
    if is_nil (Keyed.unlink node_pid p s.queue) then none else move_off p s.queue s.current

unfoldable pub unlink_node : ℤ → RoundRobin → RoundRobin
unlink_node p s =
    let n = dec32 s.queue_count in
    record s {
      queue = Keyed.unlink node_pid p s.queue;
      current = current_without p s;
      queue_count = n;
      free_nodes = s.free_nodes + 1;
      stats = record (s.stats) { current_queue_length = n };
    }

-- The writes to the node at rr_current.
unfoldable pub update_node : ℤ → (Node → Node) → RoundRobin → RoundRobin
update_node p f s = record s { queue = Keyed.update node_pid p f s.queue }

unfoldable pub count_round : Node → Node
count_round n = record n { rounds = inc32 n.rounds }

unfoldable pub set_slice : ℕ → Node → Node
set_slice slice n = record n { time_remaining = slice }

-- rr_current moves on, and the next node gets a full quantum.
unfoldable pub advance : ℤ → RoundRobin → RoundRobin
unfolding update_node count_round set_slice
advance p s =
    let next = next_pid p (pids s.queue) in
    record (update_node next (set_slice s.quantum) (update_node p count_round s)) {
      current = some next;
    }

-- round_robin_rotate at rr_current, NULL or a node.
unfoldable pub rotate_at : Option ℤ → RoundRobin → RoundRobin
rotate_at none s = s
rotate_at (some p) s = if ltb 1 s.queue_count then advance p s else s

unfoldable pub round_robin_rotate : RoundRobin → RoundRobin
round_robin_rotate s = rotate_at s.current s

-- rr_current->pid, or -1.
unfoldable pub pid_or_none : Option ℤ → ℤ
pid_or_none none = minus_one
pid_or_none (some p) = p

unfoldable pub round_robin_pick_next : RoundRobin → ℤ
round_robin_pick_next s = pid_or_none s.current

-- The kernel's side of the switch to `next`.
unfoldable pub run_next : Kernel → ℤ → Kernel
run_next k next =
    let k1 = set_pstate (stop_running k k.currpid) next pr_curr in
    context_switch (record k1 { currpid = next }) k.currpid next

unfoldable pub count_switch : RoundRobin → RoundRobin
count_switch s = record s {
  stats = record (s.stats) { total_context_switches = inc64 s.stats.total_context_switches };
}

unfoldable pub round_robin_schedule : Kernel → RoundRobin → Kernel × RoundRobin
round_robin_schedule k s =
    let next = round_robin_pick_next s in
    if is_neg next
    then (k, s)
    else if eqz next k.currpid
    then (k, s)
    else (run_next k next, count_switch s)

-- if (rr_current != NULL) rr_current->time_remaining = 0;
unfoldable pub end_slice_at : Option ℤ → RoundRobin → RoundRobin
end_slice_at none s = s
end_slice_at (some p) s = update_node p (set_slice 0) s

unfoldable pub end_slice : RoundRobin → RoundRobin
end_slice s = end_slice_at s.current s

unfoldable pub round_robin_yield : Kernel → RoundRobin → Kernel × RoundRobin
round_robin_yield k s =
    round_robin_schedule (stop_running k k.currpid) (round_robin_rotate (end_slice s))

unfoldable pub round_robin_preempt : Kernel → RoundRobin → Kernel × RoundRobin
round_robin_preempt k s = round_robin_yield k s

unfoldable pub round_robin_reset_stats : RoundRobin → RoundRobin
round_robin_reset_stats s = record s {
  stats = record zero_stats { current_queue_length = s.queue_count };
}

module _ (nproc : ℕ) where
  unfoldable pub round_robin_init : RoundRobin
  round_robin_init = record {
    queue = [];
    current = none;
    free_nodes = nproc;
    queue_count = 0;
    quantum = default_quantum;
    quantum_remaining = default_quantum;
    stats = zero_stats;
  }

  unfoldable pub round_robin_enqueue : ℤ → RoundRobin → RoundRobin
  round_robin_enqueue p s =
      if not (in_range nproc p)
      then s
      else if is_some (rr_find_node p s.queue)
      then s
      else if s.free_nodes == 0
      then s
      else count_enqueue (link_last (new_node p s) s)

  unfoldable pub round_robin_dequeue : ℤ → RoundRobin → RoundRobin
  round_robin_dequeue p s =
      if not (in_range nproc p)
      then s
      else if is_some (rr_find_node p s.queue)
      then unlink_node p s
      else s
