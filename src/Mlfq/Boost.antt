-- ===== src/Mlfq/Boost.antt =====
-- mlfq_priority_boost of multilevel_queue.c empties the lower levels into the highest one.
use scheduler_module.Base.{
  ℕ, zero, suc, ◌+◌, ◌≤◌, ◌<◌, ℤ, eqz_iff, ◌≡◌, ◌≢◌, refl, sym, ap, ◌∙◌, subst, List, [], ◌∷◌, ◌++◌,
  map, arith, All, list_laws,
}
use native.Mathlib.Decide.{dec_lt}
use scheduler_module.Base.Keyed
use scheduler_module.Mlfq.{
  Node, node_pid, Queue, Mlfq, move_node, refresh, drop_node, mlfq_remove_from_queue,
}
use scheduler_module.Mlfq.Running.{boost_nodes, boost_from, mlfq_priority_boost}
use scheduler_module.Mlfq.Levels.{add-queue_ne, remove-queue, remove-queue_ne, move-queue}

abbrev pub pids : List Node → List ℤ
pids = map node_pid

-- Every node of a level carries its number.
abbrev pub Levelled : Mlfq → Type 0
Levelled s = (l : ℕ) → All (λ (n : Node). n.level ≡ l) (s.queues l).nodes

pids-last : (ns : List Node) (n : Node) → pids (ns ++ n ∷ []) ≡ pids ns ++ n.pid ∷ []
pids-last [] n = refl
pids-last (m ∷ ns) n = ap (λ l. m.pid ∷ l) (pids-last ns n)

unlink-head : (n : Node) (ns : List Node) → Keyed.unlink node_pid n.pid (n ∷ ns) ≡ ns
unfolding Keyed.unlink
unlink-head n ns = rw ((eqz_iff n.pid n.pid).1 refl) refl

-- The move of the head of a lower level to the highest one.
move-top :
    (n : Node) (s : Mlfq)
    → 0 < n.level
    → pids ((move_node 0 n s).queues 0).nodes ≡ pids (s.queues 0).nodes ++ n.pid ∷ []
unfolding refresh
move-top n s low =
    ap pids (move-queue 0 n s (omega arith) (ground arith))
    ∙ pids-last (s.queues 0).nodes (record (refresh 0 s n) { level = 0 })

pub move-head :
    (n : Node) (ns : List Node) (s : Mlfq)
    → 0 < n.level
    → (s.queues n.level).nodes ≡ n ∷ ns
    → ((move_node 0 n s).queues n.level).nodes ≡ ns
unfolding move_node drop_node
move-head n ns s low e =
    ap (λ (q : Queue). q.nodes)
      (add-queue_ne (refresh 0 s n) 0 n.level (mlfq_remove_from_queue n s) (omega arith)
        (ground arith))
    ∙ ap (λ (q : Queue). q.nodes) (remove-queue n s)
    ∙ ap (Keyed.unlink node_pid n.pid) e
    ∙ unlink-head n ns

move-other :
    (n : Node) (i : ℕ) (s : Mlfq) → 0 < i → n.level ≢ i → (move_node 0 n s).queues i ≡ s.queues i
unfolding move_node
move-other n i s low ne =
    add-queue_ne (refresh 0 s n) 0 i (mlfq_remove_from_queue n s) (omega arith) (ground arith)
    ∙ remove-queue_ne n i s ne

-- A whole level goes.
boost_nodes-level :
    (ns : List Node) (l : ℕ) (s : Mlfq)
    → 0 < l
    → (s.queues l).nodes ≡ ns
    → All (λ (n : Node). n.level ≡ l) ns
    → (((boost_nodes ns s).queues l).nodes ≡ [])
      × (pids ((boost_nodes ns s).queues 0).nodes ≡ pids (s.queues 0).nodes ++ pids ns)
      × ((i : ℕ) → 0 < i → l ≢ i → (boost_nodes ns s).queues i ≡ s.queues i)
unfolding boost_nodes
boost_nodes-level [] l s low e a = (e, simp list_laws, λ i h ne. refl)
boost_nodes-level (n ∷ ns) l s low e a =
    let s1 = move_node 0 n s in
    let low1 : 0 < n.level = rw a.0 low in
    let rest : (s1.queues l).nodes ≡ ns =
      subst (λ i. (s1.queues i).nodes ≡ ns) a.0
        (move-head n ns s low1 (subst (λ i. (s.queues i).nodes ≡ n ∷ ns) (sym a.0) e)) in
    let (gone, top, others) = boost_nodes-level ns l s1 low rest a.1 in
    (
      gone,
      top ∙ ap (λ p. p ++ pids ns) (move-top n s low1) ∙ simp list_laws,
      λ i h ne. others i h ne ∙ move-other n i s h (rw a.0 ne),
    )

-- The processes of n levels from `level` on, level by level.
unfoldable pub pids_from : ℕ → ℕ → (ℕ → Queue) → List ℤ
pids_from zero level queues = []
pids_from (suc n) level queues = pids (queues level).nodes ++ pids_from n (suc level) queues

pids_from-same :
    (m level : ℕ) (q r : ℕ → Queue)
    → ((i : ℕ) → level ≤ i → q i ≡ r i)
    → pids_from m level q ≡ pids_from m level r
unfolding pids_from
pids_from-same zero level q r same = refl
pids_from-same (suc m) level q r same =
    ap (λ (x : Queue). pids x.nodes ++ pids_from m (suc level) q) (same level (omega arith))
    ∙ ap (λ l. pids (r level).nodes ++ l)
        (pids_from-same m (suc level) q r (λ i h. same i (omega arith)))

boost_from-levels :
    (m level : ℕ) (s : Mlfq)
    → 0 < level
    → ((i : ℕ) → level ≤ i → All (λ (n : Node). n.level ≡ i) (s.queues i).nodes)
    → (pids ((boost_from m level s).queues 0).nodes
        ≡ pids (s.queues 0).nodes ++ pids_from m level s.queues)
      × ((i : ℕ) → 0 < i → i < level → (boost_from m level s).queues i ≡ s.queues i)
      × ((i : ℕ) → level ≤ i → i < level + m → ((boost_from m level s).queues i).nodes ≡ [])
unfolding boost_from pids_from
boost_from-levels zero level s low a =
    (simp list_laws, λ i h lt. refl, λ i h lt. absurd (omega arith))
boost_from-levels (suc m) level s low a =
    let s1 = boost_nodes (s.queues level).nodes s in
    let (gone, top, others) =
      boost_nodes-level (s.queues level).nodes level s low refl (a level (omega arith)) in
    let (all, front, empty) = boost_from-levels m (suc level) s1 (omega arith) (λ i h.
      subst (λ (q : Queue). All (λ (n : Node). n.level ≡ i) q.nodes)
        (sym (others i (omega arith) (ground arith))) (a i (omega arith))) in
    let later =
      pids_from-same m (suc level) s1.queues s.queues
        (λ i h. others i (omega arith) (ground arith)) in
    (
      all
          ∙ ap (λ p. p ++ pids_from m (suc level) s1.queues) top
          ∙ ap (λ p. (pids (s.queues 0).nodes ++ pids (s.queues level).nodes) ++ p) later
          ∙ simp list_laws,
      λ i h lt. front i h (omega arith) ∙ others i h (ground arith),
      λ i h lt. elim (dec_lt level i) [
        | yes above ↦ empty i (omega arith) (omega arith)
        | no here ↦
            let same : level ≡ i = omega arith in
            subst (λ j. ((boost_from m (suc level) s1).queues j).nodes ≡ []) same
              (ap (λ (q : Queue). q.nodes) (front level low (omega arith)) ∙ gone)
      ],
    )

-- If every node carries the number of its level, mlfq_priority_boost leaves the levels 1 to 7
-- empty, and the processes of level 0 are those that it had, followed by those of the levels 1 to
-- 7, level by level and in the order of each queue.
pub mlfq_priority_boost-empties :
    (s : Mlfq)
    → Levelled s
    → let t = mlfq_priority_boost s in
      (pids (t.queues 0).nodes ≡ pids (s.queues 0).nodes ++ pids_from 7 1 s.queues)
      × ((l : ℕ) → 0 < l → l < 8 → (t.queues l).nodes ≡ [])
unfolding mlfq_priority_boost
mlfq_priority_boost-empties s a =
    let (all, front, empty) = boost_from-levels 7 1 s (omega arith) (λ i h. a i) in
    (all, λ l low high. empty l (omega arith) (omega arith))
