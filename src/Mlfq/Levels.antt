-- ===== src/Mlfq/Levels.antt =====
-- The levels of multilevel_queue.c: who runs next, and where a demotion leads.
use native.Mathlib.Decide.{dec_lt}
use scheduler_module.Base.{
  subst, ℕ, ◌-◌, zero, suc, ◌+◌, ◌≤◌, ◌<◌, ℤ, true, false, ◌≡◌, ◌≢◌, refl, ap, ◌∙◌, some, List, [],
  ◌∷◌, ◌++◌, leb, ◌==◌, if◌then◌else◌, arith,
}
use scheduler_module.Mlfq.{
  Node, Queue, Mlfq, num_levels, change, head_or, pick_from, mlfq_pick_next, mlfq_find_node,
  mlfq_add_to_level, mlfq_remove_from_queue, move_node, refresh, append_node, drop_node,
  clamp_level, with_node,
}
use scheduler_module.Mlfq.Running.{demote_node, mlfq_demote}

pick_from-first :
    (m level t : ℕ) (n : Node) (ns : List Node) (queues : ℕ → Queue)
    → level ≤ t
    → t < level + m
    → ((i : ℕ) → level ≤ i → i < t → (queues i).nodes ≡ [])
    → (queues t).nodes ≡ n ∷ ns
    → pick_from m level queues ≡ n.pid
unfolding pick_from head_or
pick_from-first zero level t n ns queues le lt empty here = absurd (omega arith)
pick_from-first (suc m) level t n ns queues le lt empty here = elim (dec_lt level t) [
  | yes above ↦
      ap (λ l. head_or l (pick_from m (suc level) queues)) (empty level (omega arith) above)
      ∙ pick_from-first m (suc level) t n ns queues (omega arith) (omega arith)
          (λ i h below. empty i (omega arith) below) here
  | no reached ↦
      let same : t ≡ level = omega arith in
      let top : (queues level).nodes ≡ n ∷ ns = subst (λ i. (queues i).nodes ≡ n ∷ ns) same here in
      ap (λ l. head_or l (pick_from m (suc level) queues)) top
]

-- Where level t, below 8, has a node at its head and the levels above it, those with a lower
-- number, are empty, mlfq_pick_next returns the pid of that node.
pub mlfq_pick_next-highest :
    (s : Mlfq) (t : ℕ) (n : Node) (ns : List Node)
    → t < 8
    → ((i : ℕ) → i < t → (s.queues i).nodes ≡ [])
    → (s.queues t).nodes ≡ n ∷ ns
    → mlfq_pick_next s ≡ n.pid
unfolding mlfq_pick_next
mlfq_pick_next-highest s t n ns lt empty here =
    pick_from-first 8 0 t n ns s.queues (omega arith) lt (λ i h below. empty i below) here

pub change-same :
    {A : Type 0} (i : ℕ) (f : A → A) (array : ℕ → A) → change i f array i ≡ f (array i)
unfolding change
change-same i f array =
    let hit : (i == i) ≡ true = ground arith in ap (λ b. if b then f (array i) else array i) hit

pub change_ne :
    {A : Type 0} (i j : ℕ) (f : A → A) (array : ℕ → A) → i ≢ j → change i f array j ≡ array j
unfolding change
change_ne i j f array ne =
    let miss : (i == j) ≡ false = ground arith in ap (λ b. if b then f (array j) else array j) miss

clamp-level : (l : ℕ) → l < 8 → clamp_level l ≡ l
unfolding clamp_level
clamp-level l h = ground arith

pub add-queue :
    (n : Node) (l : ℕ) (s : Mlfq)
    → l < 8
    → (mlfq_add_to_level n l s).queues l ≡ append_node (record n { level = l }) (s.queues l)
unfolding mlfq_add_to_level
add-queue n l s h =
    ap (λ c. change c (append_node (record n { level = c })) s.queues l) (clamp-level l h)
    ∙ change-same l (append_node (record n { level = l })) s.queues

pub add-queue_ne :
    (n : Node) (l i : ℕ) (s : Mlfq)
    → l < 8
    → l ≢ i
    → (mlfq_add_to_level n l s).queues i ≡ s.queues i
unfolding mlfq_add_to_level
add-queue_ne n l i s h ne =
    ap (λ c. change c (append_node (record n { level = c })) s.queues i) (clamp-level l h)
    ∙ change_ne l i (append_node (record n { level = l })) s.queues ne

pub remove-queue :
    (n : Node) (s : Mlfq)
    → (mlfq_remove_from_queue n s).queues n.level ≡ drop_node n.pid (s.queues n.level)
unfolding mlfq_remove_from_queue
remove-queue n s = change-same n.level (drop_node n.pid) s.queues

pub remove-queue_ne :
    (n : Node) (i : ℕ) (s : Mlfq) → n.level ≢ i → (mlfq_remove_from_queue n s).queues i ≡ s.queues i
unfolding mlfq_remove_from_queue
remove-queue_ne n i s ne = change_ne n.level i (drop_node n.pid) s.queues ne

pub move-queue :
    (l : ℕ) (n : Node) (s : Mlfq)
    → l < 8
    → n.level ≢ l
    → ((move_node l n s).queues l).nodes
      ≡ (s.queues l).nodes ++ record (refresh l s n) { level = l } ∷ []
unfolding move_node append_node refresh
move-queue l n s h ne =
    let e = add-queue (refresh l s n) l (mlfq_remove_from_queue n s) h in
    ap (λ (q : Queue). q.nodes) e
    ∙ ap (λ (q : Queue). q.nodes ++ record (refresh l s n) { level = l } ∷ [])
        (remove-queue_ne n l s ne)

demote_node-queues :
    (level : ℕ) (n : Node) (s : Mlfq)
    → level < 7
    → (demote_node level n s).queues ≡ (move_node (level + 1) n s).queues
unfolding demote_node
demote_node-queues level n s lt =
    let inner : leb (num_levels - 1) level ≡ false = ground arith in rw inner refl

-- If the variable that mlfq_demote reads as the level holds a number below 7, whatever the level
-- of the process is, as long as it is not the next one, the process is put at the end of the queue
-- of the next level.
pub demote-unset :
    (level : ℕ) (p : ℤ) (n : Node) (s : Mlfq)
    → level < 7
    → n.level ≢ level + 1
    → mlfq_find_node p s ≡ some n
    → ((mlfq_demote level p s).queues (level + 1)).nodes
      ≡ (s.queues (level + 1)).nodes ++ record (refresh (level + 1) s n) { level = level + 1 } ∷ []
unfolding mlfq_demote with_node
demote-unset level p n s lt ne found =
    ap (λ o. ((with_node o (demote_node level) s).queues (level + 1)).nodes) found
    ∙ ap (λ (q : ℕ → Queue). (q (level + 1)).nodes) (demote_node-queues level n s lt)
    ∙ move-queue (level + 1) n s (omega arith) ne
