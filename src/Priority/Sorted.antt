-- ===== src/Priority/Sorted.antt =====
-- The order of the priority queue: the ordered insertion and the walks that keep it.
use scheduler_module.Base.{
  ℕ, suc, ◌≤◌, ◌<◌, ℤ, ◌≡◌, refl, sym, ap, ◌≢◌, List, [], ◌∷◌, ◌++◌, Bool-cases, inl, inr, leb,
  arith, length, All,
}
use scheduler_module.Base.Keyed.{Absent, Distinct}
use scheduler_module.Base.Keyed
use scheduler_module.Priority.Queue.{Node, node_pid, insert_walk}

-- No later node has a higher current priority.
abbrev pub Sorted : List Node → Type 0
Sorted [] = Unit {0}
Sorted (n ∷ ns) = All (λ m. m.current_priority ≤ n.current_priority) ns × Sorted ns

-- Where a node was put: behind all of its priority or higher, before all lower ones.
pub record Placed (n : Node) (xs ys : List Node) : Type 0 where
  pub before : List Node
  pub after : List Node
  pub whole : xs ≡ before ++ after
  pub placed : ys ≡ before ++ n ∷ after
  pub above : All (λ m. n.current_priority ≤ m.current_priority) before
  pub below : All (λ m. m.current_priority < n.current_priority) after

All-below :
    (a b : ℕ) (xs : List Node)
    → a < b
    → All (λ m. m.current_priority ≤ a) xs
    → All (λ m. m.current_priority < b) xs
All-below a b [] h all = tt
All-below a b (x ∷ xs) h all = (omega (arith, all.0), All-below a b xs h all.1)

pub insert_walk-Placed : (n : Node) (xs : List Node) → Sorted xs → Placed n xs (insert_walk n xs)
unfolding insert_walk
insert_walk-Placed n [] s = record {
  before = [];
  after = [];
  whole = refl;
  placed = refl;
  above = tt;
  below = tt;
}
insert_walk-Placed n (x ∷ xs) s = elim (Bool-cases (leb n.current_priority x.current_priority)) [
  | inl e ↦
      rw (e, insert_walk)
        (let r = insert_walk-Placed n xs s.1 in
          record {
            before = x ∷ r.before;
            after = r.after;
            whole = ap (◌∷◌ x) r.whole;
            placed = ap (◌∷◌ x) r.placed;
            above = (ground arith, r.above);
            below = r.below;
          })
  | inr e ↦
      rw (e, insert_walk)
        (record {
          before = [];
          after = x ∷ xs;
          whole = refl;
          placed = refl;
          above = tt;
          below =
              (ground arith, All-below x.current_priority n.current_priority xs (ground arith) s.0);
        })
]

module _ (P : Node → Type 0) where
  pub All-insert : (n : Node) (xs : List Node) → P n → All P xs → All P (insert_walk n xs)
  unfolding insert_walk
  All-insert n [] h a = (h, tt)
  All-insert n (x ∷ xs) h a = ground (arith, All-insert n xs h a.1)

pub length-insert : (n : Node) (xs : List Node) → length (insert_walk n xs) ≡ suc (length xs)
unfolding insert_walk
length-insert n [] = refl
length-insert n (x ∷ xs) = ground (arith, length-insert n xs)

pub Distinct-insert :
    (n : Node) (xs : List Node)
    → Absent node_pid n.pid xs
    → Distinct node_pid xs
    → Distinct node_pid (insert_walk n xs)
unfolding insert_walk
Distinct-insert n [] a d = (tt, tt)
Distinct-insert n (x ∷ xs) a d = elim (Bool-cases (leb n.current_priority x.current_priority)) [
  | inl e ↦
      rw (e, insert_walk)
        (All-insert (λ m. m.pid ≢ x.pid) n xs (λ z. a.0 (sym z)) d.0, Distinct-insert n xs a.1 d.1)
  | inr e ↦ rw (e, insert_walk) (a, d)
]

All-trans :
    (a b : ℕ) (xs : List Node)
    → a ≤ b
    → All (λ m. m.current_priority ≤ a) xs
    → All (λ m. m.current_priority ≤ b) xs
All-trans a b [] h all = tt
All-trans a b (x ∷ xs) h all = (omega (arith, all.0), All-trans a b xs h all.1)

pub insert_walk-Sorted : (n : Node) (xs : List Node) → Sorted xs → Sorted (insert_walk n xs)
unfolding insert_walk
insert_walk-Sorted n [] s = (tt, tt)
insert_walk-Sorted n (x ∷ xs) s = elim (Bool-cases (leb n.current_priority x.current_priority)) [
  | inl e ↦
      rw (e, insert_walk)
        (
          All-insert (λ m. m.current_priority ≤ x.current_priority) n xs (ground arith) s.0,
          insert_walk-Sorted n xs s.1,
        )
  | inr e ↦
      rw (e, insert_walk)
        ((ground arith, All-trans x.current_priority n.current_priority xs (ground arith) s.0), s)
]

pub unlink-Sorted : (p : ℤ) (xs : List Node) → Sorted xs → Sorted (Keyed.unlink node_pid p xs)
unfolding Keyed.unlink
unlink-Sorted p [] s = tt
unlink-Sorted p (x ∷ xs) s = ground (
  arith,
  Keyed.All-unlink node_pid p (λ m. m.current_priority ≤ x.current_priority) xs s.0,
  unlink-Sorted p xs s.1,
)
