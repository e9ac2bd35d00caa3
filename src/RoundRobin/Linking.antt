-- ===== src/RoundRobin/Linking.antt =====
-- round_robin_enqueue keeps the circular list well formed.
use scheduler_module.Base.{
  ℕ, ◌<◌, ℤ, in_range, true, false, ◌==◌, ◌≡◌, refl, ap, ◌∙◌, inl, inr, none, some, List, [], ◌∷◌,
  ◌++◌, arith, u32_mod, Bool-cases, Option-cases, if◌then◌else◌, length-append,
}
use mathlib.Core.List.{append_assoc}
use scheduler_module.Base.Keyed
use scheduler_module.RoundRobin.{
  Node, node_pid, pids, RoundRobin, link_last, new_node, count_enqueue, is_nil, round_robin_enqueue,
  rr_find_node,
}
use scheduler_module.RoundRobin.Ring.{Current, idle, at}
use scheduler_module.RoundRobin.Pids.{
  pids-append, find-none-pids, All-append_last, Distinct-append_last,
}
use scheduler_module.RoundRobin.Invariant.{IsRing, same-Current}

not-nil : (p : ℤ) (xs ys : List ℤ) (q : List Node) → pids q ≡ xs ++ p ∷ ys → is_nil q ≡ false
unfolding is_nil
not-nil p [] ys [] h = ground arith
not-nil p (x ∷ xs) ys [] h = ground arith
not-nil p xs ys (n ∷ q) h = refl

link_last-Current :
    (nproc : ℕ) (n : Node) (s : RoundRobin) → IsRing nproc s → Current (link_last n s)
unfolding link_last is_nil
link_last-Current nproc n s i = elim i.current [
  | idle e cur ↦ at n.pid [] [] (rw e refl) (rw e refl)
  | at p xs ys cur split ↦
      at p xs (ys ++ n.pid ∷ [])
        (ap (λ b. if b then some n.pid else s.current) (not-nil p xs ys s.queue split) ∙ cur)
        (pids-append s.queue (n ∷ [])
          ∙ ap (λ l. l ++ n.pid ∷ []) split
          ∙ append_assoc xs (p ∷ ys) (n.pid ∷ []))
]

linked-IsRing :
    (nproc : ℕ) (p : ℤ) (s : RoundRobin)
    → nproc < u32_mod
    → IsRing nproc s
    → in_range nproc p ≡ true
    → Keyed.find node_pid p s.queue ≡ none
    → (s.free_nodes == 0) ≡ false
    → IsRing nproc (count_enqueue (link_last (new_node p s) s))
unfolding new_node link_last count_enqueue
linked-IsRing nproc p s fits i e f free =
    let n = new_node p s in
    let c = i.count in
    let r = i.room in
    let len = length-append s.queue (n ∷ []) in
    let cur = link_last-Current nproc n s i in
    record {
      range = rw (pids-append s.queue (n ∷ [])) (All-append_last _ (pids s.queue) p i.range e);
      distinct =
          rw (pids-append s.queue (n ∷ []))
            (Distinct-append_last (pids s.queue) p i.distinct (find-none-pids p s.queue f));
      count = ground arith;
      room = ground arith;
      current = same-Current (link_last n s) _ refl refl refl cur;
    }

pub enqueue-IsRing :
    (nproc : ℕ) (p : ℤ) (s : RoundRobin)
    → nproc < u32_mod
    → IsRing nproc s
    → IsRing nproc (round_robin_enqueue nproc p s)
unfolding round_robin_enqueue rr_find_node
enqueue-IsRing nproc p s fits i = elim (Bool-cases (in_range nproc p)) [
  | inr e ↦ rw (e, round_robin_enqueue) i
  | inl e ↦ elim (Option-cases (Keyed.find node_pid p s.queue)) [
    | inr (x, f) ↦ rw (e, f, round_robin_enqueue) i
    | inl f ↦ elim (Bool-cases (s.free_nodes == 0)) [
      | inl full ↦ rw (e, f, full, round_robin_enqueue) i
      | inr free ↦ rw (e, f, free, round_robin_enqueue) (linked-IsRing nproc p s fits i e f free)
    ]
  ]
]
