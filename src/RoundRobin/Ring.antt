-- ===== src/RoundRobin/Ring.antt =====
-- The circular list of round_robin.c seen from rr_current, and the rotation.
use scheduler_module.Base.{
  list_laws, suc, ◌≤◌, ℤ, eqz, eqz_iff, true, false, ◌≡◌, refl, sym, ap, ◌∙◌, ◌≢◌, inl, inr, Option,
  none, some, List, [], ◌∷◌, ◌++◌, arith, length, All, Bool-cases, if◌then◌else◌, ltb, subst,
  length-append,
}
use mathlib.Core.List.{append_assoc, append-nil}
use scheduler_module.Base.Keyed
use scheduler_module.RoundRobin.{
  Node, node_pid, pids, RoundRobin, next_in, next_pid, advance, rotate_at, round_robin_rotate,
  update_node, count_round, set_slice,
}

-- No pid twice.
abbrev pub DistinctPids : List ℤ → Type 0
DistinctPids [] = Unit {0}
DistinctPids (x ∷ xs) = All (λ y. y ≢ x) xs × DistinctPids xs

-- The processes from `p` on, once round the circle.
unfoldable pub from_pid : ℤ → List ℤ → List ℤ → List ℤ
from_pid p seen [] = []
from_pid p seen (x ∷ xs) = if eqz x p then x ∷ (xs ++ seen) else from_pid p (seen ++ x ∷ []) xs

abbrev pub ring_at : Option ℤ → List ℤ → List ℤ
ring_at none ps = []
ring_at (some p) ps = from_pid p [] ps

-- The order in which the processes will run, the current one first.
unfoldable pub ring : RoundRobin → List ℤ
ring s = ring_at s.current (pids s.queue)

-- The first moves to the end.
unfoldable pub rotate_left : List ℤ → List ℤ
rotate_left [] = []
rotate_left (x ∷ xs) = xs ++ x ∷ []

pub All-mid : (P : ℤ → Type 0) (xs ys : List ℤ) (p : ℤ) → All P (xs ++ p ∷ ys) → P p
All-mid P [] ys p a = a.0
All-mid P (x ∷ xs) ys p a = All-mid P xs ys p a.1

pub from_pid-split :
    (p : ℤ) (seen xs ys : List ℤ)
    → DistinctPids (xs ++ p ∷ ys)
    → from_pid p seen (xs ++ p ∷ ys) ≡ p ∷ (ys ++ (seen ++ xs))
unfolding from_pid
from_pid-split p seen [] ys d = rw ((eqz_iff p p).1 refl, append-nil)
from_pid-split p seen (x ∷ xs) ys d =
    let ne = All-mid (λ y. y ≢ x) xs ys p d.0 in
    let miss : eqz x p ≡ false = ground (arith, eqz_iff x p, ne) in
    rw miss (from_pid-split p (seen ++ x ∷ []) xs ys d.1 ∙ ap (λ l. p ∷ (ys ++ l)) (simp list_laws))

pub next_in-last :
    (p h : ℤ) (xs : List ℤ) → DistinctPids (xs ++ p ∷ []) → next_in p h (xs ++ p ∷ []) ≡ h
unfolding next_in
next_in-last p h [] d = refl
next_in-last p h (x ∷ []) d = ground (arith, d.0.0, eqz_iff x p)
next_in-last p h (x ∷ y ∷ xs) d =
    let ne = All-mid (λ z. z ≢ x) (y ∷ xs) [] p d.0 in
    ground (arith, ne, eqz_iff x p, next_in-last p h (y ∷ xs) d.1)

next_in-mid :
    (p h y : ℤ) (xs ys : List ℤ)
    → DistinctPids (xs ++ p ∷ y ∷ ys)
    → next_in p h (xs ++ p ∷ y ∷ ys) ≡ y
unfolding next_in
next_in-mid p h y [] ys d = ground (arith, eqz_iff p p)
next_in-mid p h y (x ∷ []) ys d = ground (arith, d.0.0, eqz_iff x p, eqz_iff p p)
next_in-mid p h y (x ∷ z ∷ xs) ys d =
    let ne = All-mid (λ w. w ≢ x) (z ∷ xs) (y ∷ ys) p d.0 in
    ground (arith, ne, eqz_iff x p, next_in-mid p h y (z ∷ xs) ys d.1)

pub next_pid-mid :
    (p y : ℤ) (xs ys : List ℤ) → DistinctPids (xs ++ p ∷ y ∷ ys) → next_pid p (xs ++ p ∷ y ∷ ys) ≡ y
unfolding next_pid
next_pid-mid p y [] ys d = next_in-mid p p y [] ys d
next_pid-mid p y (x ∷ xs) ys d = next_in-mid p x y (x ∷ xs) ys d

pub next_pid-alone : (p : ℤ) → next_pid p (p ∷ []) ≡ p
unfolding next_pid next_in
next_pid-alone p = refl

pub next_pid-last :
    (p x : ℤ) (xs : List ℤ)
    → DistinctPids (x ∷ (xs ++ p ∷ []))
    → next_pid p (x ∷ (xs ++ p ∷ [])) ≡ x
unfolding next_pid
next_pid-last p x xs d = next_in-last p x (x ∷ xs) d

from_pid-mid :
    (p y : ℤ) (xs ys : List ℤ)
    → DistinctPids (xs ++ p ∷ y ∷ ys)
    → from_pid y [] (xs ++ p ∷ y ∷ ys) ≡ y ∷ (ys ++ (xs ++ p ∷ []))
from_pid-mid p y xs ys d =
    let e = append_assoc xs (p ∷ []) (y ∷ ys) in
    subst (λ l. from_pid y [] l ≡ y ∷ (ys ++ (xs ++ p ∷ []))) e
      (from_pid-split y [] (xs ++ p ∷ []) ys (subst DistinctPids (sym e) d))

-- Once round the circle from the successor is once round from the process, rotated.
ring-next :
    (p : ℤ) (xs ys : List ℤ)
    → DistinctPids (xs ++ p ∷ ys)
    → from_pid (next_pid p (xs ++ p ∷ ys)) [] (xs ++ p ∷ ys)
      ≡ rotate_left (from_pid p [] (xs ++ p ∷ ys))
unfolding next_pid rotate_left
ring-next p [] [] d = rw (from_pid-split p [] [] [] d)
ring-next p (x ∷ xs) [] d =
    rw
      (
        next_in-last p x (x ∷ xs) d,
        from_pid-split p [] (x ∷ xs) [] d,
        from_pid-split x [] [] (xs ++ p ∷ []) d,
      )
      (ap (λ l. x ∷ l) (append-nil (xs ++ p ∷ [])))
ring-next p xs (y ∷ ys) d =
    rw (next_pid-mid p y xs ys d, from_pid-mid p y xs ys d, from_pid-split p [] xs (y ∷ ys) d)
      (ap (λ l. y ∷ l) (sym (append_assoc ys xs (p ∷ []))))

-- rr_current stands in the queue, and is NULL only where the queue is empty.
pub data Current (s : RoundRobin) : Type 0 where
  idle : s.queue ≡ [] → s.current ≡ none → Current s
  at : (p : ℤ) (xs ys : List ℤ) → s.current ≡ some p → pids s.queue ≡ xs ++ p ∷ ys → Current s

pub pids-update :
    (p : ℤ) (f : Node → Node) (ns : List Node)
    → ((n : Node) → (f n).pid ≡ n.pid)
    → pids (Keyed.update node_pid p f ns) ≡ pids ns
unfolding Keyed.update
pids-update p f [] keeps = refl
pids-update p f (n ∷ ns) keeps = ground (arith, keeps n, pids-update p f ns keeps)

length-pids : (ns : List Node) → length (pids ns) ≡ length ns
length-pids [] = refl
length-pids (n ∷ ns) = ap suc (length-pids ns)

pub pids-advance : (p : ℤ) (s : RoundRobin) → pids (advance p s).queue ≡ pids s.queue
unfolding advance update_node count_round set_slice
pids-advance p s =
    pids-update (next_pid p (pids s.queue)) (set_slice s.quantum)
      (Keyed.update node_pid p count_round s.queue) (λ n. refl)
    ∙ pids-update p count_round s.queue (λ n. refl)

pub advance-current :
    (p : ℤ) (s : RoundRobin) → (advance p s).current ≡ some (next_pid p (pids s.queue))
unfolding advance update_node
advance-current p s = refl

ring-advance :
    (p : ℤ) (xs ys : List ℤ) (s : RoundRobin)
    → s.current ≡ some p
    → pids s.queue ≡ xs ++ p ∷ ys
    → DistinctPids (pids s.queue)
    → ring (advance p s) ≡ rotate_left (ring s)
unfolding ring
ring-advance p xs ys s cur split d =
    rw (advance-current p s, pids-advance p s, cur, split)
      (ring-next p xs ys (subst DistinctPids split d))

short_rotates : (l : List ℤ) → length l ≤ 1 → rotate_left l ≡ l
unfolding rotate_left
short_rotates [] h = refl
short_rotates (x ∷ []) h = refl
short_rotates (x ∷ y ∷ l) h = absurd (omega arith)

pub length-ring :
    (s : RoundRobin) → Current s → DistinctPids (pids s.queue) → length (ring s) ≡ length s.queue
unfolding ring
length-ring s (idle e cur) d = rw (cur, e)
length-ring s (at p xs ys cur split) d =
    rw (cur, split, from_pid-split p [] xs ys (subst DistinctPids split d))
      (omega (
        arith,
        length-append ys xs,
        length-append xs (p ∷ ys),
        ap length split,
        length-pids s.queue,
      ))

pub rotate_idle : (s : RoundRobin) → s.current ≡ none → round_robin_rotate s ≡ s
unfolding round_robin_rotate rotate_at
rotate_idle s cur = ap (λ c. rotate_at c s) cur

pub rotate_alone :
    (s : RoundRobin) (p : ℤ)
    → s.current ≡ some p
    → ltb 1 s.queue_count ≡ false
    → round_robin_rotate s ≡ s
unfolding round_robin_rotate rotate_at
rotate_alone s p cur small =
    ap (λ c. rotate_at c s) cur ∙ ap (λ b. if b then advance p s else s) small

pub rotate_advances :
    (s : RoundRobin) (p : ℤ)
    → s.current ≡ some p
    → ltb 1 s.queue_count ≡ true
    → round_robin_rotate s ≡ advance p s
unfolding round_robin_rotate rotate_at
rotate_advances s p cur more =
    ap (λ c. rotate_at c s) cur ∙ ap (λ b. if b then advance p s else s) more

-- For distinct queued processes, a counter that is the length and an rr_current that is queued,
-- round_robin_rotate moves the first process of the order in which they run, seen from rr_current,
-- to its end.
pub ring-rotate :
    (s : RoundRobin)
    → DistinctPids (pids s.queue)
    → s.queue_count ≡ length s.queue
    → Current s
    → ring (round_robin_rotate s) ≡ rotate_left (ring s)
ring-rotate s d count (idle e cur) =
    ap ring (rotate_idle s cur)
    ∙ sym (short_rotates (ring s) (omega (arith, length-ring s (idle e cur) d, ap length e)))
ring-rotate s d count (at p xs ys cur split) = elim (Bool-cases (ltb 1 s.queue_count)) [
  | inl e ↦ ap ring (rotate_advances s p cur e) ∙ ring-advance p xs ys s cur split d
  | inr e ↦
      let n = length-ring s (at p xs ys cur split) d in
      let small : s.queue_count ≤ 1 = ground arith in
      ap ring (rotate_alone s p cur e) ∙ sym (short_rotates (ring s) (omega arith))
]
