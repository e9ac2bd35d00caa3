-- ===== src/Mlfq/Held.antt =====
-- The nodes of multilevel_queue.c that carry a pid, counted on a level and over the levels.
use native.Mathlib.Decide.{dec_lt}
use scheduler_module.Base.{
  ℕ, zero, suc, ◌+◌, ◌≤◌, ◌<◌, ℤ, eqz, eqz_iff, ◌≡◌, ◌≢◌, refl, sym, ap, none, some, List, [], ◌∷◌,
  ◌++◌, if◌then◌else◌, arith, length, inl, inr, Bool-cases, Option-cases,
}
use scheduler_module.Base.Keyed
use scheduler_module.Mlfq.{Node, node_pid, Queue, find_from}

abbrev pub hits : ℤ → List Node → ℕ
hits p [] = 0
hits p (n ∷ ns) = (if eqz n.pid p then 1 else 0) + hits p ns

-- The sum of f over m levels from `level` on.
abbrev pub sum_levels : ℕ → ℕ → (ℕ → ℕ) → ℕ
sum_levels zero level f = 0
sum_levels (suc m) level f = f level + sum_levels m (suc level) f

pub hits-append :
    (p : ℤ) (n : Node) (ns : List Node) → hits p (ns ++ n ∷ []) ≡ hits p ns + hits p (n ∷ [])
hits-append p n [] = omega arith
hits-append p n (m ∷ ns) = omega (arith, hits-append p n ns)

pub hits-find :
    (p : ℤ) (n : Node) (ns : List Node) → Keyed.find node_pid p ns ≡ some n → 1 ≤ hits p ns
unfolding Keyed.find
hits-find p n [] e = ground arith
hits-find p n (m ∷ ns) e = ground (arith, hits-find p n ns)

pub hits-Absent : (p : ℤ) (ns : List Node) → Keyed.find node_pid p ns ≡ none → hits p ns ≡ 0
unfolding Keyed.find
hits-Absent p [] e = refl
hits-Absent p (m ∷ ns) e = ground (arith, hits-Absent p ns)

pub hits-unlink :
    (p q : ℤ) (ns : List Node)
    → 1 ≤ hits p ns
    → (if eqz p q then 1 else 0) + hits q (Keyed.unlink node_pid p ns) ≡ hits q ns
unfolding Keyed.unlink
hits-unlink p q [] h = absurd (omega arith)
hits-unlink p q (m ∷ ns) h = elim (Bool-cases (eqz m.pid p)) [
  | inl e ↦
      let same = (eqz_iff m.pid p).0 e in
      rw (e, Keyed.unlink) (ap (λ (x : ℤ). (if eqz x q then 1 else 0) + hits q ns) (sym same))
  | inr e ↦ let rest = hits-unlink p q ns (ground arith) in rw (e, Keyed.unlink) (omega arith)
]

pub length-unlink :
    (p : ℤ) (ns : List Node) → 1 ≤ hits p ns → suc (length (Keyed.unlink node_pid p ns)) ≡ length ns
unfolding Keyed.unlink
length-unlink p [] h = absurd (omega arith)
length-unlink p (m ∷ ns) h = ground (arith, length-unlink p ns)

pub hits-update :
    (p q : ℤ) (f : Node → Node) (ns : List Node)
    → ((n : Node) → (f n).pid ≡ n.pid)
    → hits q (Keyed.update node_pid p f ns) ≡ hits q ns
unfolding Keyed.update
hits-update p q f [] keeps = refl
hits-update p q f (m ∷ ns) keeps = elim (Bool-cases (eqz m.pid p)) [
  | inl e ↦ rw (e, Keyed.update) (ap (λ (x : ℤ). (if eqz x q then 1 else 0) + hits q ns) (keeps m))
  | inr e ↦
      rw (e, Keyed.update)
        (ap (λ (x : ℕ). (if eqz m.pid q then 1 else 0) + x) (hits-update p q f ns keeps))
]

pub sum-same :
    (m level : ℕ) (f g : ℕ → ℕ)
    → ((j : ℕ) → level ≤ j → g j ≡ f j)
    → sum_levels m level g ≡ sum_levels m level f
sum-same zero level f g same = refl
sum-same (suc m) level f g same =
    let here = same level (omega arith) in
    let rest = sum-same m (suc level) f g (λ j h. same j (omega arith)) in omega arith

-- A change on the level i alone.
pub sum-change :
    (m level i : ℕ) (f g : ℕ → ℕ)
    → level ≤ i
    → i < level + m
    → ((j : ℕ) → i ≢ j → g j ≡ f j)
    → sum_levels m level g + f i ≡ sum_levels m level f + g i
sum-change zero level i f g lo hi same = absurd (omega arith)
sum-change (suc m) level i f g lo hi same = elim (dec_lt level i) [
  | yes below ↦
      let rest = sum-change m (suc level) i f g (omega arith) (omega arith) same in
      let here = same level (ground arith) in omega arith
  | no reached ↦
      let e : level ≡ i = omega arith in
      let rest = sum-same m (suc level) f g (λ j h. same j (ground arith)) in
      let a = ap f e in let b = ap g e in omega arith
]

pub sum-part : (m level i : ℕ) (f : ℕ → ℕ) → level ≤ i → i < level + m → f i ≤ sum_levels m level f
sum-part zero level i f lo hi = absurd (omega arith)
sum-part (suc m) level i f lo hi = elim (dec_lt level i) [
  | yes below ↦ let rest = sum-part m (suc level) i f (omega arith) (omega arith) in omega arith
  | no reached ↦ let e : level ≡ i = omega arith in let a = ap f e in omega arith
]

pub find_from-some :
    (m level : ℕ) (p : ℤ) (n : Node) (q : ℕ → Queue)
    → find_from m level p q ≡ some n
    → (l : ℕ) × (level ≤ l) × (l < level + m) × (Keyed.find node_pid p (q l).nodes ≡ some n)
unfolding find_from
find_from-some zero level p n q e = ground arith
find_from-some (suc m) level p n q e = elim (Option-cases (Keyed.find node_pid p (q level).nodes)) [
  | inl miss ↦
      let (l, lo, hi, found) = find_from-some m (suc level) p n q (ground arith) in
      (l, omega arith, omega arith, found)
  | inr (x, hit) ↦ (level, omega arith, omega arith, ground arith)
]

pub find_from-none :
    (m level : ℕ) (p : ℤ) (q : ℕ → Queue)
    → find_from m level p q ≡ none
    → sum_levels m level (λ l. hits p (q l).nodes) ≡ 0
unfolding find_from
find_from-none zero level p q e = refl
find_from-none (suc m) level p q e = elim (Option-cases (Keyed.find node_pid p (q level).nodes)) [
  | inl miss ↦
      let here = hits-Absent p (q level).nodes miss in
      let rest = find_from-none m (suc level) p q (ground arith) in omega arith
  | inr (x, hit) ↦ absurd (ground arith)
]
