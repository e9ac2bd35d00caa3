-- ===== src/Mlfq.antt =====
-- multilevel_queue.c: the eight levels and the operations on their queues. A queue is the list of
-- its nodes from head to tail, the pool of NPROC nodes the number of the free ones, and current_node
-- the pid of its node. mlfq_find_node never writes `*out_level`, so its callers read a variable that
-- was never set: that value is their argument `level`. It is to be below 8, as with others the code of
-- C leaves its arrays. A node is unlinked from the queue that its level names, in which it stands.
pub mod Running
pub mod Boost
pub mod Levels
pub mod Held
pub mod Invariant
pub mod Moves
pub mod Turns
pub mod Calls
mod Tests
use scheduler_module.Base.{
  ℕ, zero, suc, ◌+◌, ◌-◌, ◌*◌, ◌%◌, ℤ, eqz, minus_one, in_range, Bool, true, false, not, ◌||◌,
  Option, none, some, List, [], ◌∷◌, ◌++◌, ltb, leb, ◌==◌, if◌then◌else◌, is_some, inc32, dec32,
  u32_mod,
}
use scheduler_module.Base.Keyed
use scheduler_module.Kernel.{Kernel}

pub record Node : Type 0 where
  pub pid : ℤ
  pub level : ℕ
  pub time_allotment : ℕ
  pub time_used : ℕ
  pub arrival_time : ℕ
  pub io_count : ℕ

abbrev pub node_pid : Node → ℤ
node_pid n = n.pid

pub record Queue : Type 0 where
  pub nodes : List Node
  pub count : ℕ
  pub quantum : ℕ
  pub allotment : ℕ

pub record MlfqStats : Type 0 where
  pub total_schedules : ℕ
  pub context_switches : ℕ
  pub promotions : ℕ
  pub demotions : ℕ
  pub priority_boosts : ℕ
  pub io_bonuses : ℕ
  pub per_level_count : ℕ → ℕ
  pub per_level_time : ℕ → ℕ

pub record Mlfq : Type 0 where
  pub queues : ℕ → Queue
  pub free_nodes : ℕ
  pub level_quantums : ℕ → ℕ
  pub level_allotments : ℕ → ℕ
  pub boost_enabled : Bool
  pub boost_interval : ℕ
  pub boost_counter : ℕ
  pub io_bonus_enabled : Bool
  pub current_node : Option ℤ
  pub current_time_used : ℕ
  pub stats : MlfqStats
  pub ticks : ℕ

abbrev pub num_levels : ℕ
num_levels = 8

abbrev pub default_boost_interval : ℕ
default_boost_interval = 1000

abbrev pub zero_stats : MlfqStats
zero_stats = record {
  total_schedules = 0;
  context_switches = 0;
  promotions = 0;
  demotions = 0;
  priority_boosts = 0;
  io_bonuses = 0;
  per_level_count = λ l. 0;
  per_level_time = λ l. 0;
}

-- array[i] = f(array[i])
unfoldable pub change {ℓ} : {A : Type ℓ} → ℕ → (A → A) → (ℕ → A) → ℕ → A
change i f array j = if i == j then f (array j) else array j

-- The search of mlfq_find_node over n levels from `level` on.
unfoldable pub find_from : ℕ → ℕ → ℤ → (ℕ → Queue) → Option Node
find_from zero level p queues = none
find_from (suc n) level p queues = elim (Keyed.find node_pid p (queues level).nodes) [
  | none ↦ find_from n (suc level) p queues
  | some x ↦ some x
]

unfoldable pub mlfq_find_node : ℤ → Mlfq → Option Node
mlfq_find_node p s = find_from num_levels 0 p s.queues

unfoldable pub append_node : Node → Queue → Queue
append_node n q = record q { nodes = q.nodes ++ n ∷ []; count = inc32 q.count }

unfoldable pub drop_node : ℤ → Queue → Queue
drop_node p q = record q { nodes = Keyed.unlink node_pid p q.nodes; count = dec32 q.count }

-- if (level >= MLFQ_NUM_LEVELS) level = MLFQ_NUM_LEVELS - 1;
unfoldable pub clamp_level : ℕ → ℕ
clamp_level level = if leb num_levels level then num_levels - 1 else level

unfoldable pub mlfq_add_to_level : Node → ℕ → Mlfq → Mlfq
mlfq_add_to_level n level s =
    let l = clamp_level level in
    record s {
      queues = change l (append_node (record n { level = l })) s.queues;
      stats = record (s.stats) { per_level_count = change l inc32 s.stats.per_level_count };
    }

unfoldable pub mlfq_remove_from_queue : Node → Mlfq → Mlfq
mlfq_remove_from_queue n s = record s {
  queues = change n.level (drop_node n.pid) s.queues;
  stats = record (s.stats) { per_level_count = change n.level dec32 s.stats.per_level_count };
}

-- The time of a node that arrives on a level, which is below 8: for others the code of C reads beyond
-- level_allotments, and nothing is said of them.
unfoldable pub refresh : ℕ → Mlfq → Node → Node
refresh level s n = record n {
  time_allotment = s.level_allotments level;
  time_used = 0;
  arrival_time = s.ticks;
}

-- The node leaves its queue and arrives on the level.
unfoldable pub move_node : ℕ → Node → Mlfq → Mlfq
move_node level n s = mlfq_add_to_level (refresh level s n) level (mlfq_remove_from_queue n s)

-- quantum * 2 on 32 bits.
unfoldable pub double : ℕ → ℕ
double q = q * 2 % u32_mod

unfoldable pub mlfq_shutdown : Mlfq → Mlfq
mlfq_shutdown s = record s {
  queues =
      λ l. if ltb l num_levels then record (s.queues l) { nodes = []; count = 0 } else s.queues l;
  current_node = none;
}

unfoldable pub start_level : ℕ → ℕ
start_level prio =
    if leb 75 prio then 0 else if leb 50 prio then 2 else if leb 25 prio then 4 else 6

-- The head of a level, and what the lower levels have where it is empty.
unfoldable pub head_or : List Node → ℤ → ℤ
head_or [] rest = rest
head_or (n ∷ ns) rest = n.pid

-- The search of mlfq_pick_next over n levels from `level` on.
unfoldable pub pick_from : ℕ → ℕ → (ℕ → Queue) → ℤ
pick_from zero level queues = minus_one
pick_from (suc n) level queues = head_or (queues level).nodes (pick_from n (suc level) queues)

unfoldable pub mlfq_pick_next : Mlfq → ℤ
mlfq_pick_next s = pick_from num_levels 0 s.queues

-- if (current_node == node) current_node = NULL;
unfoldable pub forget : ℤ → Option ℤ → Option ℤ
forget p none = none
forget p (some q) = if eqz q p then none else some q

unfoldable pub free_node : Node → Mlfq → Mlfq
free_node n s =
    let s1 = mlfq_remove_from_queue n (record s { current_node = forget n.pid s.current_node }) in
    record s1 { free_nodes = s1.free_nodes + 1 }

unfoldable pub add_new : Kernel → ℤ → Mlfq → Mlfq
add_new k p s =
    let level = start_level (k.proctab p).pprio in
    let n : Node = record {
      pid = p;
      level = 0;
      time_allotment = s.level_allotments level;
      time_used = 0;
      arrival_time = s.ticks;
      io_count = 0;
    } in
    mlfq_add_to_level n level (record s { free_nodes = s.free_nodes - 1 })

-- The change of a found node, if there is one.
unfoldable pub with_node : Option Node → (Node → Mlfq → Mlfq) → Mlfq → Mlfq
with_node none f s = s
with_node (some n) f s = f n s

module _ (nproc : ℕ) where
  unfoldable pub mlfq_init : Mlfq → Mlfq
  mlfq_init s = record {
    queues = λ l.
        if ltb l num_levels
        then record {
          nodes = [];
          count = 0;
          quantum = s.level_quantums l;
          allotment = double (s.level_quantums l);
        }
        else s.queues l;
    free_nodes = nproc;
    level_quantums = s.level_quantums;
    level_allotments =
        λ l. if ltb l num_levels then double (s.level_quantums l) else s.level_allotments l;
    boost_enabled = true;
    boost_interval = default_boost_interval;
    boost_counter = 0;
    io_bonus_enabled = true;
    current_node = none;
    current_time_used = 0;
    stats = zero_stats;
    ticks = 0;
  }

  unfoldable pub mlfq_enqueue : Kernel → ℤ → Mlfq → Mlfq
  mlfq_enqueue k p s =
      if not (in_range nproc p)
      then s
      else if is_some (mlfq_find_node p s)
      then s
      else if s.free_nodes == 0
      then s
      else add_new k p s

  unfoldable pub mlfq_dequeue : ℤ → Mlfq → Mlfq
  mlfq_dequeue p s =
      if not (in_range nproc p) then s else with_node (mlfq_find_node p s) free_node s

  unfoldable pub mlfq_move_to_level : ℤ → ℕ → Mlfq → Mlfq
  mlfq_move_to_level p level s =
      if not (in_range nproc p) || leb num_levels level
      then s
      else with_node (mlfq_find_node p s) (move_node level) s
