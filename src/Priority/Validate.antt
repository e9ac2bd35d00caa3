-- ===== src/Priority/Validate.antt =====
-- priority_validate of priority.c decides the invariants of the queue.
use scheduler_module.Base.{
  ℕ, ◌+◌, ◌≤◌, in_range, true, ◌≡◌, refl, ◌↔◌, ◌⊎◌, inl, inr, Option, none, some, List, [], ◌∷◌,
  arith, length, All,
}
use scheduler_module.Priority.Queue.{Node, Config, validate_walk}
use scheduler_module.Priority.{Priority}
use scheduler_module.Priority.Aging.{priority_validate}
use scheduler_module.Priority.Sorted.{Sorted}

-- The order of neighbours, as the walk sees it.
abbrev pub Chained : Option ℕ → List Node → Type 0
Chained prev [] = Unit {0}
Chained none (n ∷ ns) = Chained (some n.current_priority) ns
Chained (some p) (n ∷ ns) = (n.current_priority ≤ p) × Chained (some n.current_priority) ns

abbrev AtMost : Option ℕ → List Node → Type 0
AtMost none ns = Unit {0}
AtMost (some p) ns = All (λ m. m.current_priority ≤ p) ns

All-le_trans :
    (a b : ℕ) (ns : List Node)
    → a ≤ b
    → All (λ m. m.current_priority ≤ a) ns
    → All (λ m. m.current_priority ≤ b) ns
All-le_trans a b [] h all = tt
All-le_trans a b (x ∷ ns) h all = (omega (arith, all.0), All-le_trans a b ns h all.1)

Chained→Sorted : (p : ℕ) (ns : List Node) → Chained (some p) ns → AtMost (some p) ns × Sorted ns
Chained→Sorted p [] h = (tt, tt)
Chained→Sorted p (n ∷ ns) h =
    let r = Chained→Sorted n.current_priority ns h.1 in
    ((h.0, All-le_trans n.current_priority p ns h.0 r.0), r)

Sorted→Chained : (p : ℕ) (ns : List Node) → AtMost (some p) ns → Sorted ns → Chained (some p) ns
Sorted→Chained p [] a s = tt
Sorted→Chained p (n ∷ ns) a s = (a.0, Sorted→Chained n.current_priority ns s.0 s.1)

Chained-iff : (ns : List Node) → Chained none ns ↔ Sorted ns
Chained-iff [] = ((λ h. tt), (λ s. tt))
Chained-iff (n ∷ ns) = (
  (λ h. Chained→Sorted n.current_priority ns h),
  (λ s. Sorted→Chained n.current_priority ns s.0 s.1),
)

-- What the walk reports from `count` nodes on.
validate_walk_sound :
    (nproc : ℕ) (prev : Option ℕ) (count : ℕ) (ns : List Node)
    → (validate_walk nproc prev count ns).0 ≡ true
    → All (λ n. in_range nproc n.pid ≡ true) ns
      × Chained prev ns
      × ((validate_walk nproc prev count ns).1 ≡ count + length ns)
      × ((ns ≡ []) ⊎ (count + length ns ≤ nproc))
unfolding validate_walk
validate_walk_sound nproc prev count [] h = (tt, tt, omega arith, inl refl)
validate_walk_sound nproc none count (n ∷ ns) h =
    let r = validate_walk_sound nproc (some n.current_priority) (count + 1) ns (ground arith) in
    ((ground arith, r.0), r.1, ground (arith, r.2), inr (ground (arith, r.3)))
validate_walk_sound nproc (some p) count (n ∷ ns) h =
    let r = validate_walk_sound nproc (some n.current_priority) (count + 1) ns (ground arith) in
    ((ground arith, r.0), (ground arith, r.1), ground (arith, r.2), inr (ground (arith, r.3)))

validate_walk_complete :
    (nproc : ℕ) (prev : Option ℕ) (count : ℕ) (ns : List Node)
    → All (λ n. in_range nproc n.pid ≡ true) ns
    → Chained prev ns
    → count + length ns ≤ nproc
    → (validate_walk nproc prev count ns).0 ≡ true
unfolding validate_walk
validate_walk_complete nproc prev count [] a h l = refl
validate_walk_complete nproc none count (n ∷ ns) a h l =
    ground (arith, a.0, validate_walk_complete nproc (some n.current_priority) (count + 1) ns a.1 h)
validate_walk_complete nproc (some p) count (n ∷ ns) a h l =
    ground (
      arith,
      a.0,
      h.0,
      validate_walk_complete nproc (some n.current_priority) (count + 1) ns a.1 h.1,
    )

-- priority_validate returns true exactly if every queued process is in range, the queue is in
-- order of current priority, prio_queue_count is its length, and the length is at most NPROC.
pub priority_validate_iff :
    (c : Config) (s : Priority)
    → (priority_validate c s ≡ true) ↔ (
        All (λ n. in_range c.nproc n.pid ≡ true) s.queue
        × Sorted s.queue
        × (s.queue_count ≡ length s.queue)
        × (length s.queue ≤ c.nproc))
unfolding priority_validate
priority_validate_iff c s = (
  (λ h.
      let w = validate_walk_sound c.nproc none 0 s.queue (ground arith) in
      (w.0, (Chained-iff s.queue).0 w.1, ground (arith, w.2), empty_or (ground (arith, w.3)))),
  (λ h.
      let w =
        validate_walk_complete c.nproc none 0 s.queue h.0 ((Chained-iff s.queue).1 h.1)
          (let l = h.3 in omega arith) in
      let v = validate_walk_sound c.nproc none 0 s.queue w in ground (arith, w, v.2)),
)
  where
    empty_or : (s.queue ≡ []) ⊎ (length s.queue ≤ c.nproc) → length s.queue ≤ c.nproc
    empty_or h = ground (arith, h)
