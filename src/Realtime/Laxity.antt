-- ===== src/Realtime/Laxity.antt =====
-- The walks of llf_pick_next of realtime.c: the task whose laxity is least.
use scheduler_module.Base.{
  ℕ, zero, suc, ◌-◌, ◌^◌, ◌≤◌, ℤ, pos, negsuc, true, false, ◌&&◌, Option, none, some, List, [], ◌∷◌,
  ◌≡◌, refl, ap, ◌∙◌, inl, inr, Bool-cases, arith, All, length, ◌≢◌,
}
use scheduler_module.Realtime.Tasks.{
  Task, is_ready, ltz, least_laxity, tasks_from, write, write_all, set_laxity,
}
use scheduler_module.Realtime.Chain.{Chain, fields-Chain}
use scheduler_module.Realtime.{Realtime, ◌>>=◌, llf_update_laxity, llf_pick_next}

-- A READY task has no less laxity than l.
abbrev pub NotLess : (ℕ → Task) → ℤ → ℕ → Type 0
NotLess pool l a = (is_ready (pool a).state && ltz (pool a).laxity l) ≡ false

-- x < z and z ≤ y give x < y; x < y and y < z give x < z.
ltz_le : (x y z : ℤ) → ltz x z ≡ true → ltz y z ≡ false → ltz x y ≡ true
unfolding ltz
ltz_le (pos x) (pos y) (pos z) h k = ground arith
ltz_le (pos x) (negsuc y) (pos z) h k = ground arith
ltz_le (pos x) y (negsuc z) h k = ground arith
ltz_le (negsuc x) (pos y) (pos z) h k = ground arith
ltz_le (negsuc x) (pos y) (negsuc z) h k = ground arith
ltz_le (negsuc x) (negsuc y) (pos z) h k = ground arith
ltz_le (negsuc x) (negsuc y) (negsuc z) h k = ground arith

ltz_trans : (x y z : ℤ) → ltz x y ≡ true → ltz y z ≡ true → ltz x z ≡ true
unfolding ltz
ltz_trans (pos x) (pos y) (pos z) h k = ground arith
ltz_trans (pos x) (pos y) (negsuc z) h k = ground arith
ltz_trans (pos x) (negsuc y) z h k = ground arith
ltz_trans (negsuc x) (pos y) (pos z) h k = ground arith
ltz_trans (negsuc x) (pos y) (negsuc z) h k = ground arith
ltz_trans (negsuc x) (negsuc y) (pos z) h k = ground arith
ltz_trans (negsuc x) (negsuc y) (negsuc z) h k = ground arith

ltz_irrefl : (x : ℤ) → ltz x x ≡ false
unfolding ltz
ltz_irrefl (pos x) = ground arith
ltz_irrefl (negsuc x) = ground arith

ltz_asym : (x y : ℤ) → ltz x y ≡ true → ltz y x ≡ false
ltz_asym x y h = elim (Bool-cases (ltz y x)) [
  | inr e ↦ e
  | inl e ↦ let loop = ltz_trans x y x h e in let own = ltz_irrefl x in cc
]

module _ (pool : ℕ → Task) where
  -- The task is READY, and no READY task of the list has less laxity; without a task none of the list
  -- has less than l.
  abbrev pub IsLeast : ℤ → List ℕ → Option ℕ → Type 0
  IsLeast l xs none = All (NotLess pool l) xs
  IsLeast l xs (some m) = (is_ready (pool m).state ≡ true) × All (NotLess pool (pool m).laxity) xs

  -- What holds of the task found so far, whose laxity is l.
  abbrev Agrees : Option ℕ → ℤ → Type 0
  Agrees none l = Unit {0}
  Agrees (some m) l = ((pool m).laxity ≡ l) × (is_ready (pool m).state ≡ true)

  NotLess-mono : (l m : ℤ) (x : ℕ) → NotLess pool l x → ltz l m ≡ false → NotLess pool m x
  NotLess-mono l m x n h = elim (Bool-cases (ltz (pool x).laxity m)) [
    | inr e ↦ ground arith
    | inl e ↦ let less = ltz_le (pool x).laxity l m e h in ground arith
  ]

  -- The walk from a task on, or from none.
  abbrev Ends : Option ℕ → ℤ → List ℕ → Option ℕ → Type 0
  Ends best l xs none = All (NotLess pool l) xs
  Ends best l xs (some m) =
      (is_ready (pool m).state ≡ true)
      × (ltz l (pool m).laxity ≡ false)
      × All (NotLess pool (pool m).laxity) xs

  Ends-less :
      (best : Option ℕ) (l : ℤ) (x : ℕ) (xs : List ℕ) (o : Option ℕ)
      → (is_ready (pool x).state && ltz (pool x).laxity l) ≡ true
      → o ≢ none
      → Ends (some x) (pool x).laxity xs o
      → Ends best l (x ∷ xs) o
  Ends-less best l x xs none h n e = absurd (n refl)
  Ends-less best l x xs (some m) h n e =
      let lower : ltz (pool x).laxity l ≡ true = ground arith in
      let keep = e.1 in
      let below : ltz l (pool m).laxity ≡ false = elim (Bool-cases (ltz l (pool m).laxity)) [
        | inr f ↦ f
        | inl f ↦ let up = ltz_trans (pool x).laxity l (pool m).laxity lower f in cc
      ] in
      (e.0, below, (ground arith, e.2))

  Ends-skip :
      (best : Option ℕ) (l : ℤ) (x : ℕ) (xs : List ℕ) (o : Option ℕ)
      → (is_ready (pool x).state && ltz (pool x).laxity l) ≡ false
      → Ends best l xs o
      → Ends best l (x ∷ xs) o
  Ends-skip best l x xs none h e = (h, e)
  Ends-skip best l x xs (some m) h e = (e.0, e.1, (NotLess-mono l (pool m).laxity x h e.1, e.2))

  -- A walk that starts with a task ends with one.
  least-some : (b : ℕ) (l : ℤ) (xs : List ℕ) → least_laxity pool (some b) l xs ≢ none
  unfolding least_laxity
  least-some b l [] = λ e. ground (arith, e)
  least-some b l (x ∷ xs) = elim (Bool-cases (is_ready (pool x).state && ltz (pool x).laxity l)) [
    | inl h ↦ rw h (least-some x (pool x).laxity xs)
    | inr h ↦ rw h (least-some b l xs)
  ]

  least-Ends :
      (best : Option ℕ) (l : ℤ) (xs : List ℕ)
      → Agrees best l
      → Ends best l xs (least_laxity pool best l xs)
  unfolding least_laxity
  least-Ends none l [] g = tt
  least-Ends (some m) l [] g = (g.1, rw g.0 (ltz_irrefl l), tt)
  least-Ends best l (x ∷ xs) g =
      elim (Bool-cases (is_ready (pool x).state && ltz (pool x).laxity l)) [
        | inl h ↦ rw h (
            Ends-less best l x xs (least_laxity pool (some x) (pool x).laxity xs) h
              (least-some x (pool x).laxity xs)
              (least-Ends (some x) (pool x).laxity xs (refl, ground arith)))
        | inr h ↦
            rw h (Ends-skip best l x xs (least_laxity pool best l xs) h (least-Ends best l xs g))
      ]

  Ends-IsLeast :
      (best : Option ℕ) (l : ℤ) (xs : List ℕ) (o : Option ℕ) → Ends best l xs o → IsLeast l xs o
  Ends-IsLeast best l xs none e = e
  Ends-IsLeast best l xs (some m) e = (e.0, e.2)

tasks_from-Chain :
    (fuel : ℕ) (pool : ℕ → Task) (first : Option ℕ) (xs : List ℕ)
    → length xs ≤ fuel
    → Chain pool first xs
    → tasks_from fuel pool first ≡ some xs
unfolding tasks_from
tasks_from-Chain zero pool first [] l c = ap (tasks_from zero pool) c
tasks_from-Chain (suc fuel) pool first [] l c = ap (tasks_from (suc fuel) pool) c
tasks_from-Chain zero pool first (x ∷ xs) l c = absurd (omega arith)
tasks_from-Chain (suc fuel) pool first (x ∷ xs) l c =
    let rest = tasks_from-Chain fuel pool (pool x).next xs (omega arith) c.1 in
    ap (tasks_from (suc fuel) pool) c.0 ∙ rw (rest, tasks_from) refl

write_all-Chain :
    (f : Task → Task) (ws : List ℕ) (pool : ℕ → Task) (first : Option ℕ) (xs : List ℕ)
    → ((t : Task) → (f t).next ≡ t.next)
    → Chain pool first xs
    → Chain (write_all f ws pool) first xs
unfolding write_all
write_all-Chain f [] pool first xs k c = c
write_all-Chain f (w ∷ ws) pool first xs k c =
    write_all-Chain f ws (write w f pool) first xs k (fields-Chain w f pool first xs k c)

set_laxity-next : (time : ℕ) (t : Task) → (set_laxity time t).next ≡ t.next
unfolding set_laxity
set_laxity-next time t = ground arith

-- INT64_MAX
abbrev pub max_laxity : ℤ
max_laxity = pos (2 ^ 63 - 1)

module _ {F : Type 0} where
  -- The state in which the laxities of the tasks of the list are up to date.
  abbrev pub relaxed : List ℕ → Realtime F → Realtime F
  relaxed all s = record s { task_pool = write_all (set_laxity s.system_time) all s.task_pool }

  pub llf_pick_next-walks :
      (fuel : ℕ) (s : Realtime F) (all queue : List ℕ)
      → length all ≤ fuel
      → length queue ≤ fuel
      → Chain s.task_pool s.all_tasks all
      → Chain s.task_pool s.ready_queue queue
      → (llf_pick_next fuel s
          ≡ some (least_laxity (relaxed all s).task_pool none max_laxity queue, relaxed all s))
        × Chain (relaxed all s).task_pool s.ready_queue queue
  unfolding llf_pick_next llf_update_laxity
  llf_pick_next-walks fuel s all queue la lq ca cq =
      let s1 = relaxed all s in
      let c1 =
        write_all-Chain (set_laxity s.system_time) all s.task_pool s.ready_queue queue
          (set_laxity-next s.system_time) cq in
      (
        ap
              (λ (o : Option (List ℕ)).
                (o >>= λ ts.
                some (record s { task_pool = write_all (set_laxity s.system_time) ts s.task_pool }))
                >>= λ t.
                    (tasks_from fuel t.task_pool t.ready_queue >>= λ ts.
                    some (least_laxity t.task_pool none max_laxity ts, t)))
              (tasks_from-Chain fuel s.task_pool s.all_tasks all la ca)
            ∙ ap
                (λ (o : Option (List ℕ)).
                  o >>= λ ts. some (least_laxity s1.task_pool none max_laxity ts, s1))
                (tasks_from-Chain fuel s1.task_pool s.ready_queue queue lq c1),
        c1,
      )

pub least_laxity-IsLeast :
    (pool : ℕ → Task) (queue : List ℕ)
    → IsLeast pool max_laxity queue (least_laxity pool none max_laxity queue)
least_laxity-IsLeast pool queue =
    Ends-IsLeast pool none max_laxity queue _ (least-Ends pool none max_laxity queue tt)
