-- ===== src/RoundRobin/Invariant.antt =====
-- The well-formedness of the circular list, and that the operations of round_robin.c keep it.
use scheduler_module.Base.{
  ℕ, ◌+◌, ℤ, in_range, true, ltb, ◌≡◌, refl, ap, ◌∙◌, subst, inl, inr, some, List, [], ◌∷◌, ◌++◌,
  arith, length, All, Bool-cases,
}
use scheduler_module.Base.Keyed
use scheduler_module.RoundRobin.{
  Node, node_pid, pids, RoundRobin, next_pid, advance, round_robin_rotate, update_node,
}
use scheduler_module.RoundRobin.Ring.{
  DistinctPids, Current, idle, at, pids-advance, pids-update, advance-current, next_pid-mid,
  next_pid-alone, next_pid-last, rotate_idle, rotate_alone, rotate_advances,
}

-- Distinct processes in range, rr_current one of them, the counter equal to the length, and every
-- node listed or free.
pub record IsRing (nproc : ℕ) (s : RoundRobin) : Type 0 where
  pub range : All (λ p. in_range nproc p ≡ true) (pids s.queue)
  pub distinct : DistinctPids (pids s.queue)
  pub count : s.queue_count ≡ length s.queue
  pub room : s.free_nodes + length s.queue ≡ nproc
  pub current : Current s

-- A change of fields of the nodes other than the pid, under which rr_current keeps its place.
pub same_pids-IsRing :
    (nproc : ℕ) (s t : RoundRobin)
    → pids t.queue ≡ pids s.queue
    → length t.queue ≡ length s.queue
    → t.queue_count ≡ s.queue_count
    → t.free_nodes ≡ s.free_nodes
    → Current t
    → IsRing nproc s
    → IsRing nproc t
same_pids-IsRing nproc s t same n h1 h2 cur i =
    let c = i.count in
    let r = i.room in
    record {
      range = rw same i.range;
      distinct = rw same i.distinct;
      count = omega arith;
      room = omega arith;
      current = cur;
    }

pub same-Current :
    (s t : RoundRobin)
    → pids t.queue ≡ pids s.queue
    → length t.queue ≡ length s.queue
    → t.current ≡ s.current
    → Current s
    → Current t
same-Current s t same n c (idle e cur) = idle (nil t.queue (n ∙ ap length e)) (c ∙ cur)
  where
    nil : (l : List Node) → length l ≡ 0 → l ≡ []
    nil [] h = refl
    nil (x ∷ l) h = absurd (omega arith)
same-Current s t same n c (at p xs ys cur split) = at p xs ys (c ∙ cur) (same ∙ split)

-- The write of fields other than the pid to a node.
pub update_node-IsRing :
    (nproc : ℕ) (p : ℤ) (f : Node → Node) (s : RoundRobin)
    → ((n : Node) → (f n).pid ≡ n.pid)
    → IsRing nproc s
    → IsRing nproc (update_node p f s)
unfolding update_node
update_node-IsRing nproc p f s keeps i =
    let same = pids-update p f s.queue keeps in
    let n = Keyed.length-update node_pid p f s.queue in
    same_pids-IsRing nproc s (update_node p f s) same n refl refl
      (same-Current s (update_node p f s) same n refl i.current) i

-- The change of fields that the invariant does not read.
pub same_queue-IsRing :
    (nproc : ℕ) (s t : RoundRobin)
    → t.queue ≡ s.queue
    → t.current ≡ s.current
    → t.queue_count ≡ s.queue_count
    → t.free_nodes ≡ s.free_nodes
    → IsRing nproc s
    → IsRing nproc t
same_queue-IsRing nproc s t q c h1 h2 i =
    same_pids-IsRing nproc s t (ap pids q) (ap length q) h1 h2
      (same-Current s t (ap pids q) (ap length q) c i.current) i

advance-Current :
    (p : ℤ) (xs ys : List ℤ) (s : RoundRobin)
    → pids s.queue ≡ xs ++ p ∷ ys
    → DistinctPids (xs ++ p ∷ ys)
    → Current (advance p s)
advance-Current p xs (y ∷ ys) s split d =
    at y (xs ++ p ∷ []) ys
      (advance-current p s ∙ ap some (ap (next_pid p) split ∙ next_pid-mid p y xs ys d))
      (pids-advance p s ∙ split ∙ regroup xs)
  where
    regroup : (l : List ℤ) → l ++ p ∷ y ∷ ys ≡ (l ++ p ∷ []) ++ y ∷ ys
    regroup [] = refl
    regroup (z ∷ l) = ap (λ m. z ∷ m) (regroup l)
advance-Current p [] [] s split d =
    at p [] [] (advance-current p s ∙ ap some (ap (next_pid p) split ∙ next_pid-alone p))
      (pids-advance p s ∙ split)
advance-Current p (x ∷ xs) [] s split d =
    at x [] (xs ++ p ∷ [])
      (advance-current p s ∙ ap some (ap (next_pid p) split ∙ next_pid-last p x xs d))
      (pids-advance p s ∙ split)

advance-IsRing :
    (nproc : ℕ) (p : ℤ) (xs ys : List ℤ) (s : RoundRobin)
    → pids s.queue ≡ xs ++ p ∷ ys
    → IsRing nproc s
    → IsRing nproc (advance p s)
unfolding advance update_node
advance-IsRing nproc p xs ys s split i =
    same_pids-IsRing nproc s (advance p s) (pids-advance p s)
      (Keyed.length-update node_pid _ _ (Keyed.update node_pid p _ s.queue)
        ∙ Keyed.length-update node_pid p _ s.queue)
      refl refl (advance-Current p xs ys s split (subst DistinctPids split i.distinct)) i

pub rotate-IsRing :
    (nproc : ℕ) (s : RoundRobin) → IsRing nproc s → IsRing nproc (round_robin_rotate s)
rotate-IsRing nproc s i = elim i.current [
  | idle e cur ↦ rw (rotate_idle s cur) i
  | at p xs ys cur split ↦ elim (Bool-cases (ltb 1 s.queue_count)) [
    | inl more ↦ rw (rotate_advances s p cur more) (advance-IsRing nproc p xs ys s split i)
    | inr alone ↦ rw (rotate_alone s p cur alone) i
  ]
]
