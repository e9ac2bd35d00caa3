-- ===== src/Mlfq/Invariant.antt =====
-- The invariant of multilevel_queue.c, and the operations on its queues that keep it.
use scheduler_module.Base.{
  ℕ, suc, ◌+◌, ◌≤◌, ◌<◌, ℤ, eqz, eqz_iff, in_range, true, ◌≡◌, refl, ap, ◌∙◌, subst, List, [], ◌∷◌,
  ◌==◌, arith, length, length-append, All, All-join, u32_mod, inc32, dec32, inl, inr, Bool-cases,
}
use scheduler_module.Base.Keyed
use scheduler_module.Mlfq.{
  Node, node_pid, Queue, Mlfq, num_levels, change, append_node, drop_node, clamp_level,
  mlfq_add_to_level, mlfq_remove_from_queue,
}
use scheduler_module.Mlfq.Levels.{change-same, change_ne}
use scheduler_module.Mlfq.Held.{
  hits, sum_levels, hits-append, hits-unlink, length-unlink, sum-change, sum-part,
}

-- The nodes of level l carry its number, and both counters hold how many they are.
abbrev pub IsLevel : ℕ → ℕ → Queue → ℕ → Type 0
IsLevel nproc l q c =
    All (λ (n : Node). (n.level ≡ l) × (in_range nproc n.pid ≡ true)) q.nodes
    × (q.count ≡ length q.nodes)
    × (c ≡ length q.nodes)

abbrev pub held : ℤ → Mlfq → ℕ
held p s = sum_levels num_levels 0 (λ l. hits p (s.queues l).nodes)

abbrev pub queued : Mlfq → ℕ
queued s = sum_levels num_levels 0 (λ l. length (s.queues l).nodes)

-- `spare` nodes are neither queued nor free.
pub record IsHeld (nproc spare : ℕ) (s : Mlfq) : Type 0 where
  pub levels : (l : ℕ) → l < num_levels → IsLevel nproc l (s.queues l) (s.stats.per_level_count l)
  pub once : (p : ℤ) → held p s ≤ 1
  pub room : queued s + s.free_nodes + spare ≡ nproc

-- The node is on the level that it names.
abbrev pub Stands : ℕ → Node → Mlfq → Type 0
Stands nproc n s =
    (n.level < num_levels)
    × (1 ≤ hits n.pid (s.queues n.level).nodes)
    × (in_range nproc n.pid ≡ true)

module _ (nproc : ℕ) where
  change-IsLevel :
      (i : ℕ) (f : Queue → Queue) (g : ℕ → ℕ) (q : ℕ → Queue) (c : ℕ → ℕ)
      → ((l : ℕ) → l < num_levels → IsLevel nproc l (q l) (c l))
      → IsLevel nproc i (f (q i)) (g (c i))
      → (l : ℕ) → l < num_levels
      → IsLevel nproc l (change i f q l) (change i g c l)
  unfolding change
  change-IsLevel i f g q c old new l lt = elim (Bool-cases (i == l)) [
    | inl e ↦
        let same : i ≡ l = ground arith in
        rw (e, change) (subst (λ x. IsLevel nproc x (f (q x)) (g (c x))) same new)
    | inr e ↦ rw (e, change) (old l lt)
  ]

  -- What a change of one level does to a sum over the levels.
  changed-sum :
      (i : ℕ) (f : Queue → Queue) (q : ℕ → Queue) (size : List Node → ℕ)
      → i < num_levels
      → sum_levels num_levels 0 (λ l. size (change i f q l).nodes) + size (q i).nodes
        ≡ sum_levels num_levels 0 (λ l. size (q l).nodes) + size (f (q i)).nodes
  changed-sum i f q size lt =
      sum-change 8 0 i (λ l. size (q l).nodes) (λ l. size (change i f q l).nodes) (omega arith)
        (omega arith) (λ j ne. ap (λ (x : Queue). size x.nodes) (change_ne i j f q ne))
      ∙ ap (λ (x : Queue). sum_levels num_levels 0 (λ l. size (q l).nodes) + size x.nodes)
          (change-same i f q)

  clamp_level_lt : (l : ℕ) → clamp_level l < num_levels
  unfolding clamp_level
  clamp_level_lt l = ground arith

  pub add-IsHeld :
      (n : Node) (level : ℕ) (s : Mlfq) (spare : ℕ)
      → nproc < u32_mod
      → IsHeld nproc (suc spare) s
      → held n.pid s ≡ 0
      → in_range nproc n.pid ≡ true
      → IsHeld nproc spare (mlfq_add_to_level n level s)
  unfolding mlfq_add_to_level append_node
  add-IsHeld n level s spare fits w away range =
      let l = clamp_level level in
      let lt = clamp_level_lt level in
      let node : Node = record n { level = l } in
      let ns = (s.queues l).nodes in
      let f = append_node node in
      let (fit, c, d) = w.levels l lt in
      let size = length-append ns (node ∷ []) in
      let part = sum-part 8 0 l (λ j. length (s.queues j).nodes) (omega arith) (omega arith) in
      let room = w.room in
      let total = changed-sum l f s.queues length lt in
      record {
        levels =
            change-IsLevel l f inc32 s.queues s.stats.per_level_count w.levels
              (All-join _ ns (node ∷ []) fit ((refl, range), tt), omega arith, omega arith);
        once = λ p.
            let sum = changed-sum l f s.queues (hits p) lt in
            let more = hits-append p node ns in
            let old = w.once p in
            elim (Bool-cases (eqz n.pid p)) [
              | inl e ↦
                  let same = (eqz_iff n.pid p).0 e in
                  let none_left = ap (λ x. held x s) same in ground arith
              | inr e ↦ ground arith
            ];
        room = omega arith;
      }

  pub remove-IsHeld :
      (n : Node) (s : Mlfq)
      → nproc < u32_mod
      → IsHeld nproc 0 s
      → Stands nproc n s
      → IsHeld nproc 1 (mlfq_remove_from_queue n s) × (held n.pid (mlfq_remove_from_queue n s) ≡ 0)
  unfolding mlfq_remove_from_queue drop_node
  remove-IsHeld n s fits w (lt, here, range) =
      let l = n.level in
      let ns = (s.queues l).nodes in
      let f = drop_node n.pid in
      let (fit, c, d) = w.levels l lt in
      let size = length-unlink n.pid ns here in
      let part = sum-part 8 0 l (λ j. length (s.queues j).nodes) (omega arith) (omega arith) in
      let room = w.room in
      let total = changed-sum l f s.queues length lt in
      (
        record {
          levels =
              change-IsLevel l f dec32 s.queues s.stats.per_level_count w.levels
                (Keyed.All-unlink node_pid n.pid _ ns fit, omega arith, omega arith);
          once = λ p.
              let sum = changed-sum l f s.queues (hits p) lt in
              let less = hits-unlink n.pid p ns here in let old = w.once p in omega arith;
          room = omega arith;
        },
        (let sum = changed-sum l f s.queues (hits n.pid) lt in
            let less = hits-unlink n.pid n.pid ns here in
            let hit = (eqz_iff n.pid n.pid).1 refl in let old = w.once n.pid in ground arith),
      )
