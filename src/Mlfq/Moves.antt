-- ===== src/Mlfq/Moves.antt =====
-- A node of multilevel_queue.c that is found, written and moved: the invariant stays.
use scheduler_module.Base.{
  ℕ, zero, suc, ◌+◌, ◌-◌, ◌≤◌, ◌<◌, ℤ, eqz_iff, in_range, true, ◌≡◌, refl, sym, ap, ◌∙◌, subst,
  none, some, List, [], ◌∷◌, ◌==◌, leb, arith, length, All, u32_mod, inl, inr, Option-cases,
  if-case,
}
use scheduler_module.Base.Keyed
use scheduler_module.Mlfq.{
  Node, node_pid, Queue, Mlfq, num_levels, mlfq_find_node, mlfq_remove_from_queue, refresh,
  move_node, with_node,
}
use scheduler_module.Mlfq.Running.{
  update_node, demote_node, mlfq_demote, promote_node, mlfq_promote, boost_nodes, boost_from,
  mlfq_priority_boost,
}
use scheduler_module.Mlfq.Boost.{move-head}
use scheduler_module.Mlfq.Held.{
  hits, sum_levels, hits-find, hits-update, sum-same, find_from-some, find_from-none,
}
use scheduler_module.Mlfq.Invariant.{IsLevel, held, IsHeld, Stands, add-IsHeld, remove-IsHeld}

module _ (nproc : ℕ) where
  pub found-Stands :
      (p : ℤ) (n : Node) (s : Mlfq) (spare : ℕ)
      → IsHeld nproc spare s
      → mlfq_find_node p s ≡ some n
      → (n.pid ≡ p) × Stands nproc n s
  unfolding mlfq_find_node
  found-Stands p n s spare w e =
      let (l, lo, hi, found) = find_from-some 8 0 p n s.queues e in
      let lt : l < num_levels = omega arith in
      let fit = (w.levels l lt).0 in
      let own = Keyed.find-All node_pid p _ (s.queues l).nodes n fit found in
      let key = Keyed.find-key node_pid p (s.queues l).nodes n found in
      let some_hit = hits-find p n (s.queues l).nodes found in
      let there : 1 ≤ hits n.pid (s.queues n.level).nodes = rw (own.0, key) some_hit in
      (key, (omega arith, there, own.1))

  pub away-held : (p : ℤ) (s : Mlfq) → mlfq_find_node p s ≡ none → held p s ≡ 0
  unfolding mlfq_find_node
  away-held p s e = find_from-none 8 0 p s.queues e

  -- The queues and what counts them are the same.
  pub same_queues-IsHeld :
      (s t : Mlfq)
      → t.queues ≡ s.queues
      → t.free_nodes ≡ s.free_nodes
      → t.stats.per_level_count ≡ s.stats.per_level_count
      → IsHeld nproc 0 s
      → IsHeld nproc 0 t
  same_queues-IsHeld s t q f c w =
      let room = w.room in
      let total = ap (λ (x : ℕ → Queue). sum_levels num_levels 0 (λ l. length (x l).nodes)) q in
      record {
        levels = λ l lt.
            subst (λ (x : ℕ → Queue). IsLevel nproc l (x l) (t.stats.per_level_count l)) (sym q)
              (subst (λ (x : ℕ → ℕ). IsLevel nproc l (s.queues l) (x l)) (sym c) (w.levels l lt));
        once = λ p.
            subst (λ (x : ℕ → Queue). sum_levels num_levels 0 (λ l. hits p (x l).nodes) ≤ 1) (sym q)
              (w.once p);
        room = omega arith;
      }

  pub update-IsHeld :
      (p : ℤ) (f : Node → Node) (s : Mlfq)
      → ((n : Node) → ((f n).pid ≡ n.pid) × ((f n).level ≡ n.level))
      → IsHeld nproc 0 s
      → IsHeld nproc 0 (update_node p f s)
  unfolding update_node
  update-IsHeld p f s keeps w =
      let size = λ (l : ℕ). Keyed.length-update node_pid p f (s.queues l).nodes in
      let room = w.room in
      let total =
        sum-same 8 0 (λ l. length (s.queues l).nodes)
          (λ l. length (Keyed.update node_pid p f (s.queues l).nodes)) (λ l h. size l) in
      record {
        levels = λ l lt.
            let (fit, c, d) = w.levels l lt in
            let n = size l in
            (
              Keyed.All-update node_pid p f _ (s.queues l).nodes
                  (λ n h. ((keeps n).1 ∙ h.0, ap (in_range nproc) (keeps n).0 ∙ h.1)) fit,
              omega arith,
              omega arith,
            );
        once = λ q.
            let old = w.once q in
            let same =
              sum-same 8 0 (λ l. hits q (s.queues l).nodes)
                (λ l. hits q (Keyed.update node_pid p f (s.queues l).nodes))
                (λ l h. hits-update p q f (s.queues l).nodes (λ n. (keeps n).0)) in
            omega arith;
        room = omega arith;
      }

  module _ (fits : nproc < u32_mod) where
    pub move-IsHeld :
        (level : ℕ) (n : Node) (s : Mlfq)
        → IsHeld nproc 0 s
        → Stands nproc n s
        → IsHeld nproc 0 (move_node level n s)
    unfolding move_node refresh
    move-IsHeld level n s w here =
        let (gone, away) = remove-IsHeld nproc n s fits w here in
        add-IsHeld nproc (refresh level s n) level (mlfq_remove_from_queue n s) 0 fits gone away
          here.2

    pub with-IsHeld :
        (p : ℤ) (f : Node → Mlfq → Mlfq) (s : Mlfq)
        → ((n : Node) → Stands nproc n s → IsHeld nproc 0 (f n s))
        → IsHeld nproc 0 s
        → IsHeld nproc 0 (with_node (mlfq_find_node p s) f s)
    unfolding with_node
    with-IsHeld p f s keep w = elim (Option-cases (mlfq_find_node p s)) [
      | inl e ↦ rw (e, with_node) w
      | inr (n, e) ↦ rw (e, with_node) (keep n (found-Stands p n s 0 w e).1)
    ]

    pub demote-IsHeld :
        (level : ℕ) (p : ℤ) (s : Mlfq) → IsHeld nproc 0 s → IsHeld nproc 0 (mlfq_demote level p s)
    unfolding mlfq_demote demote_node
    demote-IsHeld level p s w =
        with-IsHeld p (demote_node level) s
          (λ n here.
            if-case (IsHeld nproc 0) (leb (num_levels - 1) level) _ _
              (update-IsHeld n.pid _ s (λ m. (refl, refl)) w)
              (same_queues-IsHeld (move_node (level + 1) n s) _ refl refl refl
                (move-IsHeld (level + 1) n s w here)))
          w

    pub promote-IsHeld :
        (level : ℕ) (p : ℤ) (s : Mlfq) → IsHeld nproc 0 s → IsHeld nproc 0 (mlfq_promote level p s)
    unfolding mlfq_promote promote_node
    promote-IsHeld level p s w =
        with-IsHeld p (promote_node level) s
          (λ n here. if-case (IsHeld nproc 0) (level == 0) _ _ w (
            same_queues-IsHeld (move_node (level - 1) n s) _ refl refl refl
              (move-IsHeld (level - 1) n s w here)))
          w

    -- The head of a level stands on it.
    head-Stands :
        (l : ℕ) (n : Node) (ns : List Node) (s : Mlfq)
        → l < num_levels
        → IsHeld nproc 0 s
        → (s.queues l).nodes ≡ n ∷ ns
        → (n.level ≡ l) × Stands nproc n s
    head-Stands l n ns s lt w e =
        let fit =
          subst (All (λ (n : Node). (n.level ≡ l) × (in_range nproc n.pid ≡ true))) e
            (w.levels l lt).0 in
        let hit = (eqz_iff n.pid n.pid).1 refl in
        let one : 1 ≤ hits n.pid (n ∷ ns) = ground arith in
        let there : 1 ≤ hits n.pid (s.queues l).nodes =
          subst (λ xs. 1 ≤ hits n.pid xs) (sym e) one in
        (fit.0.0, (omega arith, rw fit.0.0 there, fit.0.1))

    boost_nodes-IsHeld :
        (ns : List Node) (l : ℕ) (s : Mlfq)
        → 0 < l
        → l < num_levels
        → (s.queues l).nodes ≡ ns
        → IsHeld nproc 0 s
        → IsHeld nproc 0 (boost_nodes ns s)
    unfolding boost_nodes
    boost_nodes-IsHeld [] l s low lt e w = w
    boost_nodes-IsHeld (n ∷ ns) l s low lt e w =
        let (own, here) = head-Stands l n ns s lt w e in
        let e1 = subst (λ i. (s.queues i).nodes ≡ n ∷ ns) (sym own) e in
        let rest : ((move_node 0 n s).queues l).nodes ≡ ns =
          subst (λ i. ((move_node 0 n s).queues i).nodes ≡ ns) own
            (move-head n ns s (omega arith) e1) in
        boost_nodes-IsHeld ns l (move_node 0 n s) low lt rest (move-IsHeld 0 n s w here)

    boost_from-IsHeld :
        (m level : ℕ) (s : Mlfq)
        → 0 < level
        → level + m ≤ num_levels
        → IsHeld nproc 0 s
        → IsHeld nproc 0 (boost_from m level s)
    unfolding boost_from
    boost_from-IsHeld zero level s low top w = w
    boost_from-IsHeld (suc m) level s low top w =
        boost_from-IsHeld m (suc level) (boost_nodes (s.queues level).nodes s) (omega arith)
          (omega arith) (boost_nodes-IsHeld (s.queues level).nodes level s low (omega arith) refl w)

    pub boost-IsHeld : (s : Mlfq) → IsHeld nproc 0 s → IsHeld nproc 0 (mlfq_priority_boost s)
    unfolding mlfq_priority_boost
    boost-IsHeld s w =
        same_queues-IsHeld (boost_from (num_levels - 1) 1 s) _ refl refl refl
          (boost_from-IsHeld 7 1 s (omega arith) (omega arith) w)
