-- ===== src/Priority/Queue.antt =====
-- prio_node_t and the walks over `prio_queue` (priority.h, priority.c). The list holds the nodes in
-- link order; a node is named by its pid, as prio_find_node names it.
use scheduler_module.Base.{
  ℕ, ◌+◌, ℤ, in_range, Bool, true, false, ◌&&◌, not, Option, none, some, List, [], ◌∷◌, ltb, leb,
  if◌then◌else◌, add32, inc32, inc64,
}
use scheduler_module.Base.Keyed

pub record Node : Type 0 where
  pub pid : ℤ
  pub base_priority : ℕ
  pub current_priority : ℕ
  pub wait_time : ℕ
  pub last_run : ℕ
  pub cpu_burst : ℕ
  pub io_bound : Bool

abbrev pub node_pid : Node → ℤ
node_pid n = n.pid

abbrev pub priority_max : ℕ
priority_max = 99

-- NPROC and the PRIO_ constants, which come from headers outside this repository.
pub record Config : Type 0 where
  pub nproc : ℕ
  pub aging_on : Bool
  pub interval : ℕ
  pub aging_amount : ℕ
  pub starvation_threshold : ℕ
  pub starvation_boost : ℕ

unfoldable pub prio_find_node : ℤ → List Node → Option Node
prio_find_node p queue = Keyed.find node_pid p queue

-- The walk of priority_insert_ordered: behind every node with at least this priority.
unfoldable pub insert_walk : Node → List Node → List Node
insert_walk n [] = n ∷ []
insert_walk n (x ∷ xs) =
    if leb n.current_priority x.current_priority then x ∷ insert_walk n xs else n ∷ x ∷ xs

-- if (node->current_priority > PRIORITY_MAX) node->current_priority = PRIORITY_MAX;
abbrev pub cap_priority : ℕ → ℕ
cap_priority n = if ltb priority_max n then priority_max else n

unfoldable pub aged : ℕ → Node → Node
aged amount n = record n { current_priority = cap_priority (add32 n.current_priority amount) }

-- The loop of priority_age_all, over aging_boosts and the queue.
unfoldable pub age_walk : ℕ → ℕ → List Node → ℕ × List Node
age_walk amount boosts [] = (boosts, [])
age_walk amount boosts (n ∷ ns) =
    let young = ltb n.current_priority priority_max in
    let (b, r) = age_walk amount (if young then inc32 boosts else boosts) ns in
    (b, (if young then aged amount n else n) ∷ r)

unfoldable pub starved : ℕ → Node → Node
starved boost n = record n {
  current_priority = cap_priority (add32 n.current_priority boost);
  wait_time = 0;
}

-- The loop of priority_check_starvation, over starvation_boosts and the queue.
unfoldable pub starvation_walk : ℕ → ℕ → ℕ → List Node → ℕ × List Node
starvation_walk threshold boost boosts [] = (boosts, [])
starvation_walk threshold boost boosts (n ∷ ns) =
    let hungry = ltb threshold n.wait_time in
    let (b, r) = starvation_walk threshold boost (if hungry then inc32 boosts else boosts) ns in
    (b, (if hungry then starved boost n else n) ∷ r)

unfoldable pub wait_walk : List Node → List Node
wait_walk [] = []
wait_walk (n ∷ ns) = record n { wait_time = inc64 n.wait_time } ∷ wait_walk ns

-- !(prev != NULL && node->current_priority > prev->current_priority)
unfoldable pub in_order : Option ℕ → ℕ → Bool
in_order none c = true
in_order (some prev) c = not (ltb prev c)

-- The loop of priority_validate: the verdict and the nodes counted, given the previous priority.
unfoldable pub validate_walk : ℕ → Option ℕ → ℕ → List Node → Bool × ℕ
unfolding in_order
validate_walk nproc prev count [] = (true, count)
validate_walk nproc prev count (n ∷ ns) =
    let rest = validate_walk nproc (some n.current_priority) (count + 1) ns in
    if ltb nproc (count + 1)
    then (false, count + 1)
    else (in_range nproc n.pid && in_order prev n.current_priority && rest.0, rest.1)
