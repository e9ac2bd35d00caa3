-- ===== src/Scheduler/Drain.antt =====
-- The ready queue of scheduler.c hands the processes out in the order in which they came in.
use scheduler_module.Base.{
  ℕ, zero, suc, ◌+◌, ◌≤◌, ℤ, in_range, true, false, ◌≡◌, refl, sym, ap, ◌∙◌, List, [], ◌∷◌, ◌++◌,
  length, All, ◌==◌, map, arith,
}
use mathlib.Core.List.{append_assoc, append-nil}
use scheduler_module.Kernel.{Kernel}
use scheduler_module.Scheduler.{
  ReadyNode, node_pid, Sched, ready_node, link_ready, drop_node, ready_pop, pop_at, ready_enqueue,
  ready_queue_init, ready_queue_empty, is_nil,
}

-- ready_enqueue of the processes one after the other.
unfoldable pub enqueue_all : ℕ → Kernel → List ℤ → Sched → Sched
enqueue_all nproc k [] s = s
enqueue_all nproc k (p ∷ ps) s = enqueue_all nproc k ps (ready_enqueue nproc k p s)

-- ready_pop n times.
unfoldable pub pop_all : ℕ → Sched → List ℤ × Sched
pop_all zero s = ([], s)
pop_all (suc n) s = let r = ready_pop s in let rest = pop_all n r.1 in (r.0 ∷ rest.0, rest.1)

abbrev pub pids : List ReadyNode → List ℤ
pids = map node_pid

pids-last : (ns : List ReadyNode) (n : ReadyNode) → pids (ns ++ n ∷ []) ≡ pids ns ++ n.pid ∷ []
pids-last [] n = refl
pids-last (m ∷ ns) n = ap (λ l. m.pid ∷ l) (pids-last ns n)

module _ (nproc : ℕ) (k : Kernel) where
  enqueue-pids :
      (p : ℤ) (s : Sched)
      → in_range nproc p ≡ true
      → 1 ≤ s.free_nodes
      → (pids (ready_enqueue nproc k p s).ready ≡ pids s.ready ++ p ∷ [])
        × ((ready_enqueue nproc k p s).free_nodes + 1 ≡ s.free_nodes)
  unfolding ready_enqueue link_ready ready_node
  enqueue-pids p s r free =
      let some_free : (s.free_nodes == 0) ≡ false = ground arith in
      rw (r, some_free) (pids-last s.ready (ready_node k p s), ground arith)

  enqueue_all-pids :
      (ps : List ℤ) (s : Sched)
      → All (λ p. in_range nproc p ≡ true) ps
      → length ps ≤ s.free_nodes
      → pids (enqueue_all nproc k ps s).ready ≡ pids s.ready ++ ps
  unfolding enqueue_all
  enqueue_all-pids [] s a room = sym (append-nil (pids s.ready))
  enqueue_all-pids (p ∷ ps) s a room =
      let (e, f) = enqueue-pids p s a.0 (omega arith) in
      enqueue_all-pids ps (ready_enqueue nproc k p s) a.1 (omega arith)
      ∙ ap (λ l. l ++ ps) e
      ∙ append_assoc (pids s.ready) (p ∷ []) ps

pop-cons :
    (s : Sched) (n : ReadyNode) (ns : List ReadyNode)
    → s.ready ≡ n ∷ ns
    → ready_pop s ≡ (n.pid, drop_node ns s)
unfolding ready_pop pop_at
pop-cons s n ns e = ap (λ l. pop_at l s) e

pop_all-pids :
    (ns : List ReadyNode) (s : Sched)
    → s.ready ≡ ns
    → ((pop_all (length ns) s).0 ≡ pids ns) × ((pop_all (length ns) s).1.ready ≡ [])
unfolding pop_all drop_node
pop_all-pids [] s e = (refl, e)
pop_all-pids (n ∷ ns) s e =
    let r = pop-cons s n ns e in
    let (front, back) = pop_all-pids ns (drop_node ns s) refl in
    (
      ap (λ w. w.0 ∷ (pop_all (length ns) w.1).0) r ∙ ap (λ l. n.pid ∷ l) front,
      ap (λ w. (pop_all (length ns) w.1).1.ready) r ∙ back,
    )

length-map : (ns : List ReadyNode) → length (pids ns) ≡ length ns
length-map [] = refl
length-map (n ∷ ns) = ap suc (length-map ns)

-- After ready_queue_init, at most NPROC processes in range that ready_enqueue puts in come out of
-- as many calls of ready_pop in the same order, repeated ones included, and ready_queue_empty
-- holds then.
pub drain-enqueue_all :
    (nproc : ℕ) (k : Kernel) (ps : List ℤ) (s : Sched)
    → All (λ p. in_range nproc p ≡ true) ps
    → length ps ≤ nproc
    → let w = pop_all (length ps) (enqueue_all nproc k ps (ready_queue_init nproc s)) in
      (w.0 ≡ ps) × (ready_queue_empty w.1 ≡ true)
unfolding ready_queue_empty ready_queue_init is_nil
drain-enqueue_all nproc k ps s a room =
    let start = ready_queue_init nproc s in
    let full = enqueue_all nproc k ps start in
    let e = enqueue_all-pids nproc k ps start a room in
    let n : length full.ready ≡ length ps = sym (length-map full.ready) ∙ ap length e in
    let (out, left) = pop_all-pids full.ready full refl in
    (
      ap (λ m. (pop_all m full).0) (sym n) ∙ out ∙ e,
      ap is_nil (ap (λ m. (pop_all m full).1.ready) (sym n) ∙ left) ∙ nil,
    )
  where
    nil : is_nil [] ≡ true
    nil = refl
