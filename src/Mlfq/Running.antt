-- ===== src/Mlfq/Running.antt =====
-- multilevel_queue.c: demotion and promotion, the choice of the next process, and the tick.
use scheduler_module.Base.{
  ℕ, suc, zero, ◌+◌, ◌-◌, ℤ, eqz, is_neg, Bool, true, not, ◌&&◌, Option, none, some, List, [], ◌∷◌,
  ltb, leb, ◌==◌, if◌then◌else◌, inc32, inc64, add32, sub32,
}
use scheduler_module.Base.Keyed
use scheduler_module.Kernel.{Kernel, pr_curr, set_pstate, stop_running, context_switch}
use scheduler_module.Mlfq.{
  Node, node_pid, Queue, Mlfq, zero_stats, num_levels, change, mlfq_find_node, mlfq_add_to_level,
  mlfq_remove_from_queue, move_node, with_node, mlfq_pick_next, mlfq_move_to_level, double,
  clamp_level,
}

abbrev pub io_bonus_levels : ℕ
io_bonus_levels = 2

-- A write to the node with the pid.
unfoldable pub update_node : ℤ → (Node → Node) → Mlfq → Mlfq
update_node p f s = record s {
  queues = λ l. record (s.queues l) { nodes = Keyed.update node_pid p f (s.queues l).nodes };
}

unfoldable pub demote_node : ℕ → Node → Mlfq → Mlfq
demote_node level n s =
    if leb (num_levels - 1) level
    then update_node n.pid
        (λ m. record m { time_used = 0; time_allotment = s.level_allotments level }) s
    else (let s1 = move_node (level + 1) n s in
        record s1 { stats = record (s1.stats) { demotions = inc32 s1.stats.demotions } })

unfoldable pub mlfq_demote : ℕ → ℤ → Mlfq → Mlfq
mlfq_demote level p s = with_node (mlfq_find_node p s) (demote_node level) s

unfoldable pub promote_node : ℕ → Node → Mlfq → Mlfq
promote_node level n s =
    if level == 0
    then s
    else (let s1 = move_node (level - 1) n s in
        record s1 { stats = record (s1.stats) { promotions = inc32 s1.stats.promotions } })

unfoldable pub mlfq_promote : ℕ → ℤ → Mlfq → Mlfq
mlfq_promote level p s = with_node (mlfq_find_node p s) (promote_node level) s

unfoldable pub count_schedule : Mlfq → Mlfq
count_schedule s = record s {
  stats = record (s.stats) { total_schedules = inc64 s.stats.total_schedules };
}

-- The kernel's side of the switch to `next`.
unfoldable pub run_next : Kernel → ℤ → Kernel
run_next k next =
    let k1 = set_pstate (stop_running k k.currpid) next pr_curr in
    context_switch (record k1 { currpid = next }) k.currpid next

-- `level` is below 8: for others the code of C writes beyond per_level_time, and nothing is said of
-- them.
unfoldable pub note_switch : ℕ → ℤ → Mlfq → Mlfq
note_switch level next s = record s {
  current_node = some next;
  current_time_used = 0;
  stats = record (s.stats) {
    context_switches = inc64 s.stats.context_switches;
    per_level_time = change level inc64 s.stats.per_level_time;
  };
}

unfoldable pub mlfq_schedule : ℕ → Kernel → Mlfq → Kernel × Mlfq
mlfq_schedule level k s =
    let s1 = count_schedule s in
    let next = mlfq_pick_next s1 in
    if is_neg next
    then (k, s1)
    else if eqz next k.currpid
    then (k, s1)
    else (run_next k next, note_switch level next s1)

-- The bonus of mlfq_yield for the node `n`, whose io_count has been counted.
unfoldable pub yield_bonus : ℕ → Node → Mlfq → Mlfq
yield_bonus level n s =
    if s.io_bonus_enabled && ltb 5 n.io_count
    then (let s1 =
          update_node n.pid (λ m. record m { io_count = 0 }) (mlfq_promote level n.pid s) in
        record s1 { stats = record (s1.stats) { io_bonuses = inc32 s1.stats.io_bonuses } })
    else s

unfoldable pub count_io : Node → Node
count_io n = record n { io_count = inc32 n.io_count; time_used = 0 }

unfoldable pub yield_node : ℕ → Node → Mlfq → Mlfq
yield_node level n s = yield_bonus level (count_io n) (update_node n.pid count_io s)

-- *current_node
unfoldable pub current_of : Mlfq → Option Node
current_of s = elim s.current_node [ none ↦ none | some p ↦ mlfq_find_node p s ]

-- `promoted` and `scheduled` are the unset variables of mlfq_promote and mlfq_schedule.
unfoldable pub mlfq_yield : ℕ → ℕ → Kernel → Mlfq → Kernel × Mlfq
mlfq_yield promoted scheduled k s =
    let s1 = with_node (current_of s) (yield_node promoted) s in
    mlfq_schedule scheduled (stop_running k k.currpid) (record s1 { current_node = none })

unfoldable pub preempt_node : ℕ → Node → Mlfq → Mlfq
preempt_node level n s =
    let spend : Node → Node =
      λ (m : Node). record m { time_used = add32 m.time_used (s.level_quantums m.level) } in
    let n1 = spend n in
    let s1 = update_node n.pid spend s in
    if leb n1.time_allotment n1.time_used
    then mlfq_demote level n.pid s1
    else mlfq_add_to_level n1 n1.level (mlfq_remove_from_queue n1 s1)

unfoldable pub mlfq_preempt : ℕ → ℕ → Kernel → Mlfq → Kernel × Mlfq
mlfq_preempt demoted scheduled k s =
    let s1 = with_node (current_of s) (preempt_node demoted) s in
    mlfq_schedule scheduled (stop_running k k.currpid) (record s1 { current_node = none })

-- The inner loop of mlfq_priority_boost, over the nodes of a level.
unfoldable pub boost_nodes : List Node → Mlfq → Mlfq
boost_nodes [] s = s
boost_nodes (n ∷ ns) s = boost_nodes ns (move_node 0 n s)

-- The outer loop, over n levels from `level` on.
unfoldable pub boost_from : ℕ → ℕ → Mlfq → Mlfq
boost_from zero level s = s
boost_from (suc n) level s = boost_from n (suc level) (boost_nodes (s.queues level).nodes s)

unfoldable pub mlfq_priority_boost : Mlfq → Mlfq
mlfq_priority_boost s =
    let s1 = boost_from (num_levels - 1) 1 s in
    record s1 { stats = record (s1.stats) { priority_boosts = inc32 s1.stats.priority_boosts } }

unfoldable pub mlfq_set_boost_interval : ℕ → Mlfq → Mlfq
mlfq_set_boost_interval n s = record s { boost_interval = n }

unfoldable pub mlfq_boost_enable : Bool → Mlfq → Mlfq
mlfq_boost_enable b s = record s { boost_enabled = b }

unfoldable pub mlfq_io_bonus_enable : Bool → Mlfq → Mlfq
mlfq_io_bonus_enable b s = record s { io_bonus_enabled = b }

unfoldable pub mlfq_get_quantum : ℕ → Mlfq → ℕ
mlfq_get_quantum level s = s.level_quantums (clamp_level level)

unfoldable pub mlfq_set_quantum : ℕ → ℕ → Mlfq → Mlfq
mlfq_set_quantum level q s = if leb num_levels level then s else record s {
  level_quantums = change level (λ n. q) s.level_quantums;
  level_allotments = change level (λ n. double q) s.level_allotments;
  queues = change level (λ (r : Queue). record r { quantum = q; allotment = double q }) s.queues;
}

unfoldable pub boost_step : Mlfq → Mlfq
boost_step s =
    if not s.boost_enabled
    then s
    else (let s1 : Mlfq = record s { boost_counter = inc32 s.boost_counter } in
        if leb s1.boost_interval s1.boost_counter
        then record (mlfq_priority_boost s1) { boost_counter = 0 }
        else s1)

-- What mlfq_tick does for *current_node.
unfoldable pub tick_node : Option Node → Kernel → Mlfq → Kernel × Mlfq
tick_node none k s = (k, s)
tick_node (some n) k s = (
  if leb (s.level_quantums n.level) s.current_time_used
      then record k { need_resched = true }
      else k,
  record s {
    stats = record (s.stats) { per_level_time = change n.level inc64 s.stats.per_level_time };
  },
)

unfoldable pub mlfq_tick : Kernel → Mlfq → Kernel × Mlfq
mlfq_tick k s =
    let s1 : Mlfq = record s {
      ticks = inc64 s.ticks;
      current_time_used = inc32 s.current_time_used;
    } in
    let r = tick_node (current_of s1) k s1 in (r.0, boost_step r.1)

unfoldable pub mlfq_reset_stats : Mlfq → Mlfq
mlfq_reset_stats s = record s {
  stats = record zero_stats {
    per_level_count = λ l. if ltb l num_levels then (s.queues l).count else 0;
  };
}

-- -1 for a process that is not queued.
unfoldable pub mlfq_get_level : ℕ → ℤ → Mlfq → Option ℕ
mlfq_get_level level p s = elim (mlfq_find_node p s) [ none ↦ none | some n ↦ some level ]

-- level - MLFQ_IO_BONUS_LEVELS on 32 bits, and 0 where it has wrapped around.
unfoldable pub bonus_level : ℕ → ℕ
bonus_level level = let l = sub32 level io_bonus_levels in if ltb level l then 0 else l

module _ (nproc : ℕ) where
  unfoldable pub io_bonus : ℕ → Node → Mlfq → Mlfq
  io_bonus level n s =
      let l = bonus_level level in
      if l == level
      then s
      else (let s1 = mlfq_move_to_level nproc n.pid l s in
          record s1 { stats = record (s1.stats) { io_bonuses = inc32 s1.stats.io_bonuses } })

  unfoldable pub io_done_node : ℕ → Node → Mlfq → Mlfq
  io_done_node level n s =
      let s1 = update_node n.pid (λ m. record m { io_count = inc32 m.io_count }) s in
      if ltb 3 (inc32 n.io_count) && ltb 0 level
      then update_node n.pid (λ m. record m { io_count = 0 }) (io_bonus level n s1)
      else s1

  unfoldable pub mlfq_io_done : ℕ → ℤ → Mlfq → Mlfq
  mlfq_io_done level p s =
      if not s.io_bonus_enabled then s else with_node (mlfq_find_node p s) (io_done_node level) s
