-- ===== src/Priority/Walks.antt =====
-- The walks of priority.c over the whole queue: which nodes they keep, and the order under aging.
use scheduler_module.Base.{
  ℕ, ◌+◌, ◌≤◌, ◌<◌, refl, List, [], ◌∷◌, arith, All, add32, u32_mod, ltb, if◌then◌else◌, inc32,
  Bool-cases, inl, inr,
}
use scheduler_module.Base.Keyed.{SameKeys}
use scheduler_module.Priority.Queue.{
  Node, node_pid, priority_max, aged, age_walk, starved, starvation_walk, wait_walk, cap_priority,
}
use scheduler_module.Priority.Sorted.{Sorted}

pub age_walk-SameKeys : (a b : ℕ) (ns : List Node) → SameKeys node_pid ns (age_walk a b ns).1
unfolding age_walk aged
age_walk-SameKeys a b [] = tt
age_walk-SameKeys a b (n ∷ ns) =
    ground (arith, age_walk-SameKeys a b ns, age_walk-SameKeys a (inc32 b) ns)

pub starvation_walk-SameKeys :
    (t boost b : ℕ) (ns : List Node) → SameKeys node_pid ns (starvation_walk t boost b ns).1
unfolding starvation_walk starved
starvation_walk-SameKeys t boost b [] = tt
starvation_walk-SameKeys t boost b (n ∷ ns) =
    ground
      (arith, starvation_walk-SameKeys t boost b ns, starvation_walk-SameKeys t boost (inc32 b) ns)

pub wait_walk-SameKeys : (ns : List Node) → SameKeys node_pid ns (wait_walk ns)
unfolding wait_walk
wait_walk-SameKeys [] = tt
wait_walk-SameKeys (n ∷ ns) = (refl, wait_walk-SameKeys ns)

-- What aging makes of a priority.
abbrev pub grown : ℕ → ℕ → ℕ
grown a c = if ltb c priority_max then cap_priority (add32 c a) else c

age_walk-All :
    (a b c : ℕ) (ns : List Node)
    → priority_max + a < u32_mod
    → All (λ m. m.current_priority ≤ c) ns
    → All (λ m. m.current_priority ≤ grown a c) (age_walk a b ns).1
unfolding age_walk aged
age_walk-All a b c [] h all = tt
age_walk-All a b c (n ∷ ns) h all =
    ground (arith, all.0, age_walk-All a b c ns h all.1, age_walk-All a (inc32 b) c ns h all.1)

-- Aging keeps the order, as long as the amount does not overflow.
pub age_walk-Sorted :
    (a b : ℕ) (ns : List Node) → priority_max + a < u32_mod → Sorted ns → Sorted (age_walk a b ns).1
unfolding age_walk aged
age_walk-Sorted a b [] h s = tt
age_walk-Sorted a b (n ∷ ns) h s = elim (Bool-cases (ltb n.current_priority priority_max)) [
  | inl e ↦ rw e (
    rw e at (age_walk-All a (inc32 b) n.current_priority ns h s.0),
    age_walk-Sorted a (inc32 b) ns h s.1,
  )
  | inr e ↦
      rw e (rw e at (age_walk-All a b n.current_priority ns h s.0), age_walk-Sorted a b ns h s.1)
]

-- Aging takes no node above the maximum, and lowers none.
pub age_walk-capped :
    (a b : ℕ) (ns : List Node)
    → All (λ m. m.current_priority ≤ priority_max) ns
    → All (λ m. m.current_priority ≤ priority_max) (age_walk a b ns).1
unfolding age_walk aged
age_walk-capped a b [] all = tt
age_walk-capped a b (n ∷ ns) all =
    ground (arith, all.0, age_walk-capped a b ns all.1, age_walk-capped a (inc32 b) ns all.1)

pub starvation_walk-capped :
    (t boost b : ℕ) (ns : List Node)
    → All (λ m. m.current_priority ≤ priority_max) ns
    → All (λ m. m.current_priority ≤ priority_max) (starvation_walk t boost b ns).1
unfolding starvation_walk starved
starvation_walk-capped t boost b [] all = tt
starvation_walk-capped t boost b (n ∷ ns) all = ground (
  arith,
  all.0,
  starvation_walk-capped t boost b ns all.1,
  starvation_walk-capped t boost (inc32 b) ns all.1,
)

pub wait_walk-All :
    (P : ℕ → Type 0) (ns : List Node)
    → All (λ m. P m.current_priority) ns
    → All (λ m. P m.current_priority) (wait_walk ns)
unfolding wait_walk
wait_walk-All P [] all = tt
wait_walk-All P (n ∷ ns) all = (all.0, wait_walk-All P ns all.1)

pub wait_walk-Sorted : (ns : List Node) → Sorted ns → Sorted (wait_walk ns)
unfolding wait_walk
wait_walk-Sorted [] s = tt
wait_walk-Sorted (n ∷ ns) s =
    (wait_walk-All (λ c. c ≤ n.current_priority) ns s.0, wait_walk-Sorted ns s.1)
