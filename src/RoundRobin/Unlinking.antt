-- ===== src/RoundRobin/Unlinking.antt =====
-- round_robin_dequeue keeps the circular list well formed.
use scheduler_module.Base.{
  ℕ, ◌<◌, ℤ, eqz, eqz_iff, in_range, true, false, ◌≡◌, ◌≢◌, refl, ap, ◌∙◌, subst, inl, inr, none,
  some, List, [], ◌∷◌, ◌++◌, arith, u32_mod, Bool-cases, Option-cases, if◌then◌else◌,
}
use mathlib.Core.List.{append-nil}
use scheduler_module.Base.Keyed
use scheduler_module.RoundRobin.{
  Node, node_pid, pids, RoundRobin, next_pid, is_nil, round_robin_dequeue, unlink_node,
  current_without, move_off, rr_find_node,
}
use scheduler_module.RoundRobin.Ring.{DistinctPids, Current, idle, at, next_pid-mid, next_pid-last}
use scheduler_module.RoundRobin.Pids.{
  itself, pids-unlink, Distinct-unlink, Distinct-front, unlink-keeps,
}
use scheduler_module.RoundRobin.Invariant.{IsRing}

is_nil-true : (q : List Node) → is_nil q ≡ true → q ≡ []
unfolding is_nil
is_nil-true [] h = refl
is_nil-true (n ∷ q) h = ground arith

without-alone :
    (p : ℤ) (s : RoundRobin)
    → is_nil (Keyed.unlink node_pid p s.queue) ≡ true
    → current_without p s ≡ none
unfolding current_without
without-alone p s e = ap (λ b. if b then none else move_off p s.queue s.current) e

without-some :
    (p c : ℤ) (s : RoundRobin)
    → is_nil (Keyed.unlink node_pid p s.queue) ≡ false
    → s.current ≡ some c
    → current_without p s ≡ (if eqz c p then some (next_pid p (pids s.queue)) else some c)
unfolding current_without move_off
without-some p c s e cur =
    ap (λ b. if b then none else move_off p s.queue s.current) e ∙ ap (move_off p s.queue) cur

lost : (q : List Node) → pids q ≡ [] → is_nil q ≡ false → ⊥
unfolding is_nil
lost [] g h = ground arith
lost (n ∷ q) g h = ground arith

none_found : (p : ℤ) (x : Node) → Keyed.find node_pid p [] ≡ some x → ⊥
unfolding Keyed.find
none_found p x h = ground arith

-- The node at rr_current goes: its successor stays.
moved-Current :
    (p : ℤ) (xs ys : List ℤ) (s : RoundRobin)
    → pids s.queue ≡ xs ++ p ∷ ys
    → DistinctPids (xs ++ p ∷ ys)
    → is_nil (Keyed.unlink node_pid p s.queue) ≡ false
    → s.current ≡ some p
    → Current (unlink_node p s)
unfolding unlink_node
moved-Current p xs ys s split d left cur = place xs ys split d gone moved
  where
    gone : pids (Keyed.unlink node_pid p s.queue) ≡ xs ++ ys
    gone =
        pids-unlink p s.queue
        ∙ ap (Keyed.unlink itself p) split
        ∙ Keyed.unlink-split itself p xs ys p refl (Distinct-front p xs ys d)

    moved : current_without p s ≡ some (next_pid p (pids s.queue))
    moved =
        without-some p p s left cur
        ∙ ap (λ b. if b then some (next_pid p (pids s.queue)) else some p) ((eqz_iff p p).1 refl)

    place :
        (us vs : List ℤ)
        → pids s.queue ≡ us ++ p ∷ vs
        → DistinctPids (us ++ p ∷ vs)
        → pids (Keyed.unlink node_pid p s.queue) ≡ us ++ vs
        → current_without p s ≡ some (next_pid p (pids s.queue))
        → Current (unlink_node p s)
    place us (y ∷ vs) e du g m =
        at y us vs (m ∙ ap some (ap (next_pid p) e ∙ next_pid-mid p y us vs du)) g
    place (x ∷ us) [] e du g m =
        at x [] us (m ∙ ap some (ap (next_pid p) e ∙ next_pid-last p x us du))
          (g ∙ append-nil (x ∷ us))
    place [] [] e du g m = absurd (lost (Keyed.unlink node_pid p s.queue) g left)

unlink-Current :
    (nproc : ℕ) (p : ℤ) (x : Node) (s : RoundRobin)
    → Keyed.find node_pid p s.queue ≡ some x
    → IsRing nproc s
    → Current (unlink_node p s)
unfolding unlink_node
unlink-Current nproc p x s f i = elim (Bool-cases (is_nil (Keyed.unlink node_pid p s.queue))) [
  | inl alone ↦ idle (is_nil-true _ alone) (without-alone p s alone)
  | inr left ↦ elim i.current [
    | idle e cur ↦ absurd (none_found p x (subst (λ q. Keyed.find node_pid p q ≡ some x) e f))
    | at c xs ys cur split ↦ elim (Bool-cases (eqz c p)) [
      | inl hit ↦
          let e = (eqz_iff c p).0 hit in
          let split1 : pids s.queue ≡ xs ++ p ∷ ys = rw (← e) split in
          moved-Current p xs ys s split1 (subst DistinctPids split1 i.distinct) left (rw (← e) cur)
      | inr miss ↦
          let ne : c ≢ p = ground (arith, eqz_iff c p) in
          let (us, vs, e) = unlink-keeps p c xs ys ne in
          at c us vs
            (without-some p c s left cur
              ∙ ap (λ b. if b then some (next_pid p (pids s.queue)) else some c) miss)
            (pids-unlink p s.queue ∙ ap (Keyed.unlink itself p) split ∙ e)
    ]
  ]
]

unlinked-IsRing :
    (nproc : ℕ) (p : ℤ) (x : Node) (s : RoundRobin)
    → nproc < u32_mod
    → Keyed.find node_pid p s.queue ≡ some x
    → IsRing nproc s
    → IsRing nproc (unlink_node p s)
unfolding unlink_node
unlinked-IsRing nproc p x s fits f i =
    let c = i.count in
    let r = i.room in
    let len = Keyed.length-unlink node_pid p s.queue x f in
    record {
      range = rw (pids-unlink p s.queue) (Keyed.All-unlink itself p _ (pids s.queue) i.range);
      distinct = rw (pids-unlink p s.queue) (Distinct-unlink p (pids s.queue) i.distinct);
      count = ground arith;
      room = ground arith;
      current = unlink-Current nproc p x s f i;
    }

pub dequeue-IsRing :
    (nproc : ℕ) (p : ℤ) (s : RoundRobin)
    → nproc < u32_mod
    → IsRing nproc s
    → IsRing nproc (round_robin_dequeue nproc p s)
unfolding round_robin_dequeue rr_find_node
dequeue-IsRing nproc p s fits i = elim (Bool-cases (in_range nproc p)) [
  | inr e ↦ rw (e, round_robin_dequeue) i
  | inl e ↦ elim (Option-cases (Keyed.find node_pid p s.queue)) [
    | inr (x, f) ↦ rw (e, f, round_robin_dequeue) (unlinked-IsRing nproc p x s fits f i)
    | inl f ↦ rw (e, f, round_robin_dequeue) i
  ]
]
