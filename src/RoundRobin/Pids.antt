-- ===== src/RoundRobin/Pids.antt =====
-- The process identifiers of the circular list of round_robin.c under the link and unlink of a node.
use scheduler_module.Base.{
  ℤ, eqz, eqz_iff, ◌≡◌, refl, ap, ◌≢◌, none, List, [], ◌∷◌, ◌++◌, arith, All, Bool-cases, inl, inr,
}
use scheduler_module.Base.Keyed
use scheduler_module.RoundRobin.{Node, node_pid, pids}
use scheduler_module.RoundRobin.Ring.{DistinctPids, All-mid}

abbrev pub itself : ℤ → ℤ
itself p = p

pub pids-append : (ns ms : List Node) → pids (ns ++ ms) ≡ pids ns ++ pids ms
pids-append [] ms = refl
pids-append (n ∷ ns) ms = ap (λ l. n.pid ∷ l) (pids-append ns ms)

pub pids-unlink :
    (p : ℤ) (ns : List Node) → pids (Keyed.unlink node_pid p ns) ≡ Keyed.unlink itself p (pids ns)
unfolding Keyed.unlink
pids-unlink p [] = refl
pids-unlink p (n ∷ ns) = ground (arith, pids-unlink p ns)

pub find-none-pids :
    (p : ℤ) (ns : List Node) → Keyed.find node_pid p ns ≡ none → All (λ q. q ≢ p) (pids ns)
unfolding Keyed.find
find-none-pids p [] h = tt
find-none-pids p (n ∷ ns) h = (ground (arith, eqz_iff n.pid p), find-none-pids p ns (ground arith))

pub All-append_last : (P : ℤ → Type 0) (xs : List ℤ) (p : ℤ) → All P xs → P p → All P (xs ++ p ∷ [])
All-append_last P [] p a h = (h, tt)
All-append_last P (x ∷ xs) p a h = (a.0, All-append_last P xs p a.1 h)

pub Distinct-append_last :
    (xs : List ℤ) (p : ℤ) → DistinctPids xs → All (λ q. q ≢ p) xs → DistinctPids (xs ++ p ∷ [])
Distinct-append_last [] p d a = (tt, tt)
Distinct-append_last (x ∷ xs) p d a =
    (All-append_last (λ q. q ≢ x) xs p d.0 (ground (arith, a.0)), Distinct-append_last xs p d.1 a.1)

pub Distinct-unlink :
    (p : ℤ) (xs : List ℤ) → DistinctPids xs → DistinctPids (Keyed.unlink itself p xs)
unfolding Keyed.unlink
Distinct-unlink p [] d = tt
Distinct-unlink p (x ∷ xs) d =
    ground (arith, Keyed.All-unlink itself p (λ q. q ≢ x) xs d.0, Distinct-unlink p xs d.1)

-- What stands in front of a process differs from it.
pub Distinct-front : (p : ℤ) (xs ys : List ℤ) → DistinctPids (xs ++ p ∷ ys) → All (λ q. q ≢ p) xs
Distinct-front p [] ys d = tt
Distinct-front p (x ∷ xs) ys d =
    (ground (arith, All-mid (λ y. y ≢ x) xs ys p d.0), Distinct-front p xs ys d.1)

-- Where another process stands after the unlinking.
pub unlink-keeps :
    (p q : ℤ) (xs ys : List ℤ)
    → q ≢ p
    → (us : List ℤ) × (vs : List ℤ) × (Keyed.unlink itself p (xs ++ q ∷ ys) ≡ us ++ q ∷ vs)
unfolding Keyed.unlink
unlink-keeps p q [] ys ne = ([], Keyed.unlink itself p ys, ground (arith, eqz_iff q p))
unlink-keeps p q (x ∷ xs) ys ne = elim (Bool-cases (eqz x p)) [
  | inl hit ↦ (xs, ys, ground arith)
  | inr miss ↦
      let (us, vs, e) = unlink-keeps p q xs ys ne in (x ∷ us, vs, rw miss (ap (λ l. x ∷ l) e))
]
