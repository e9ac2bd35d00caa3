-- ===== src/RoundRobin/Fairness.antt =====
-- round_robin_rotate serves every queued process within one round.
use scheduler_module.Base.{
  ℕ, zero, suc, ◌<◌, ℤ, eqz, eqz_iff, ◌≡◌, ◌≢◌, refl, ap, ◌∙◌, subst, inl, inr, ◌⊎◌, Option, none,
  some, List, [], ◌∷◌, ◌++◌, arith, length, All, All-join, All-front, All-back, Bool-cases,
  length-append, list_laws,
}
use scheduler_module.Base.Keyed
use scheduler_module.RoundRobin.{
  pids, RoundRobin, Node, rr_find_node, pid_or_none, round_robin_rotate, round_robin_pick_next,
}
use scheduler_module.RoundRobin.Ring.{
  DistinctPids, idle, at, ring_at, ring, rotate_left, from_pid, from_pid-split, ring-rotate,
  length-ring,
}
use scheduler_module.RoundRobin.Invariant.{IsRing, rotate-IsRing}

unfoldable pub rotations : ℕ → RoundRobin → RoundRobin
rotations zero s = s
rotations (suc n) s = rotations n (round_robin_rotate s)

from_pid-front : (c p : ℤ) (seen l ys : List ℤ) → from_pid c seen l ≡ p ∷ ys → c ≡ p
unfolding from_pid
from_pid-front c p seen [] ys h = ground arith
from_pid-front c p seen (x ∷ l) ys h =
    ground (arith, from_pid-front c p (seen ++ x ∷ []) l ys, eqz_iff x c)

front-at : (c : Option ℤ) (p : ℤ) (l ys : List ℤ) → ring_at c l ≡ p ∷ ys → pid_or_none c ≡ p
unfolding pid_or_none
front-at none p l ys h = ground arith
front-at (some c) p l ys h = from_pid-front c p [] l ys h

ring-front : (s : RoundRobin) (p : ℤ) (ys : List ℤ) → ring s ≡ p ∷ ys → round_robin_pick_next s ≡ p
unfolding round_robin_pick_next ring
ring-front s p ys h = front-at s.current p (pids s.queue) ys h

-- After as many rotations as processes stand in front of `p` in the round, `p` is next.
rotations-reach :
    (nproc : ℕ) (xs ys : List ℤ) (p : ℤ) (s : RoundRobin)
    → IsRing nproc s
    → ring s ≡ xs ++ p ∷ ys
    → round_robin_pick_next (rotations (length xs) s) ≡ p
unfolding rotations rotate_left
rotations-reach nproc [] ys p s i h = ring-front s p ys h
rotations-reach nproc (x ∷ xs) ys p s i h =
    rotations-reach nproc xs (ys ++ x ∷ []) p (round_robin_rotate s) (rotate-IsRing nproc s i)
      (ring-rotate s i.distinct i.count i.current ∙ ap rotate_left h ∙ moved)
  where
    moved : rotate_left (x ∷ (xs ++ p ∷ ys)) ≡ xs ++ p ∷ (ys ++ x ∷ [])
    moved = simp list_laws

-- A process is in a list or it is not.
place_or_absent :
    (p : ℤ) (l : List ℤ) → ((xs : List ℤ) × (ys : List ℤ) × (l ≡ xs ++ p ∷ ys)) ⊎ All (λ q. q ≢ p) l
place_or_absent p [] = inr tt
place_or_absent p (x ∷ l) = elim (Bool-cases (eqz x p)) [
  | inl hit ↦ inl ([], l, ap (λ q. q ∷ l) ((eqz_iff x p).0 hit))
  | inr miss ↦ elim (place_or_absent p l) [
    | inl (xs, ys, e) ↦ inl (x ∷ xs, ys, ap (λ m. x ∷ m) e)
    | inr a ↦ inr (ground (arith, eqz_iff x p), a)
  ]
]

All-swap : (P : ℤ → Type 0) (c : ℤ) (xs ys : List ℤ) → All P (c ∷ (ys ++ xs)) → All P (xs ++ c ∷ ys)
All-swap P c xs ys a = All-join P xs (c ∷ ys) (All-back P ys xs a.1) (a.0, All-front P ys xs a.1)

absent-find : (p : ℤ) (ns : List Node) → All (λ q. q ≢ p) (pids ns) → rr_find_node p ns ≡ none
unfolding rr_find_node Keyed.find
absent-find p [] a = refl
absent-find p (n ∷ ns) a = ground (arith, eqz_iff n.pid p, a.0, absent-find p ns a.1)

-- Every queued process has its place in the round.
queued-ring :
    (nproc : ℕ) (p : ℤ) (n : Node) (s : RoundRobin)
    → IsRing nproc s
    → rr_find_node p s.queue ≡ some n
    → (xs : List ℤ) × (ys : List ℤ) × (ring s ≡ xs ++ p ∷ ys)
unfolding ring
queued-ring nproc p n s i f = elim i.current [
  | idle e cur ↦ let miss = absent-find p s.queue (rw e tt) in absurd (ground arith)
  | at c us vs cur split ↦
      let e : ring s ≡ c ∷ (vs ++ us) =
        rw (cur, split) (from_pid-split c [] us vs (subst DistinctPids split i.distinct)) in
      elim (place_or_absent p (ring s)) [
        | inl place ↦ place
        | inr a ↦
            let gone : All (λ q. q ≢ p) (us ++ c ∷ vs) =
              All-swap _ c us vs (subst (All (λ q. q ≢ p)) e a) in
            let miss = absent-find p s.queue (rw split gone) in absurd (ground arith)
      ]
]

-- In a well formed round robin state every queued process is the one that round_robin_pick_next
-- returns after some number of calls of round_robin_rotate that is less than rr_queue_count.
pub rotations-serve :
    (nproc : ℕ) (p : ℤ) (n : Node) (s : RoundRobin)
    → IsRing nproc s
    → rr_find_node p s.queue ≡ some n
    → (k : ℕ) × (k < s.queue_count) × (round_robin_pick_next (rotations k s) ≡ p)
rotations-serve nproc p n s i f =
    let (xs, ys, e) = queued-ring nproc p n s i f in
    let c = i.count in
    let len = length-ring s i.current i.distinct in
    (
      length xs,
      omega (arith, ap length e, length-append xs (p ∷ ys)),
      rotations-reach nproc xs ys p s i e,
    )
