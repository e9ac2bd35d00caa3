-- ===== src/Realtime/Chain.antt =====
-- The lists of realtime.c as chains of links, and the walk of insert_ready along a chain.
use scheduler_module.Base.{
  ℕ, zero, suc, ◌≤◌, Option, none, some, List, [], ◌∷◌, ◌≡◌, ◌≢◌, refl, sym, ap, ◌∙◌, subst,
  if◌then◌else◌, inl, inr, Bool-cases, arith, length, count,
}
use scheduler_module.Realtime.Tasks.{Algorithm, Task, goes_before, write, set_next, insert_walk}

-- The links from `first` on lead through the tasks, and end.
abbrev pub Chain : (ℕ → Task) → Option ℕ → List ℕ → Type 0
Chain pool first [] = first ≡ none
Chain pool first (a ∷ as') = (first ≡ some a) × Chain pool (pool a).next as'

pub write-Chain :
    (a : ℕ) (f : Task → Task) (pool : ℕ → Task) (first : Option ℕ) (xs : List ℕ)
    → count a xs ≡ 0
    → Chain pool first xs
    → Chain (write a f pool) first xs
write-Chain a f pool first [] n c = c
write-Chain a f pool first (x ∷ xs) n c = (
  c.0,
  subst (λ (o : Option ℕ). Chain (write a f pool) o xs) (sym kept)
      (write-Chain a f pool (pool x).next xs (ground arith) c.1),
)
  where
    kept : (write a f pool x).next ≡ (pool x).next
    kept = unfold write in ground arith

-- A write that keeps the links.
pub fields-Chain :
    (a : ℕ) (f : Task → Task) (pool : ℕ → Task) (first : Option ℕ) (xs : List ℕ)
    → ((t : Task) → (f t).next ≡ t.next)
    → Chain pool first xs
    → Chain (write a f pool) first xs
fields-Chain a f pool first [] k c = c
fields-Chain a f pool first (x ∷ xs) k c = (
  c.0,
  subst (λ (o : Option ℕ). Chain (write a f pool) o xs) (sym kept)
      (fields-Chain a f pool (pool x).next xs k c.1),
)
  where
    kept : (write a f pool x).next ≡ (pool x).next
    kept = unfold write in ground (arith, k (pool x))

-- The place of the task by the order of the algorithm, behind its equals.
unfoldable pub insert_by : Algorithm → (ℕ → Task) → Task → ℕ → List ℕ → List ℕ
insert_by algo pool t a [] = a ∷ []
insert_by algo pool t a (x ∷ xs) =
    if goes_before algo t (pool x) then a ∷ x ∷ xs else x ∷ insert_by algo pool t a xs

-- The links after `a` has been linked behind `q`.
abbrev pub linked : ℕ → ℕ → (ℕ → Task) → ℕ → Task
linked a q pool = set_next q (some a) (set_next a (pool q).next pool)

pub linked-Chain :
    (a q : ℕ) (pool : ℕ → Task) (first : Option ℕ) (xs : List ℕ)
    → count a xs ≡ 0
    → count q xs ≡ 0
    → Chain pool first xs
    → Chain (linked a q pool) first xs
unfolding set_next
linked-Chain a q pool first xs na nq c =
    write-Chain q (λ t. record t { next = some a })
      (write a (λ t. record t { next = (pool q).next }) pool) first xs nq
      (write-Chain a (λ t. record t { next = (pool q).next }) pool first xs na c)

pub linked-next :
    (a q : ℕ) (pool : ℕ → Task)
    → a ≢ q
    → ((linked a q pool q).next ≡ some a) × ((linked a q pool a).next ≡ (pool q).next)
unfolding set_next write
linked-next a q pool n = (ground arith, ground arith)

pub linked_other :
    (a q p : ℕ) (pool : ℕ → Task) → a ≢ p → q ≢ p → (linked a q pool p).next ≡ (pool p).next
unfolding set_next write
linked_other a q p pool n m = ground arith

pub insert_walk-none :
    (fuel : ℕ) (algo : Algorithm) (pool : ℕ → Task) (t : Task) (prev : Option ℕ)
    → insert_walk fuel algo pool t prev none ≡ some prev
unfolding insert_walk
insert_walk-none zero algo pool t prev = refl
insert_walk-none (suc fuel) algo pool t prev = refl

-- Behind `p`, whose chain is xs, the walk finds a predecessor of p and xs.
pub insert_behind :
    (fuel : ℕ) (algo : Algorithm) (pool : ℕ → Task) (t : Task) (a p : ℕ) (xs : List ℕ)
    → length xs ≤ fuel
    → a ≢ p
    → count a xs ≡ 0
    → count p xs ≡ 0
    → ((b : ℕ) → count b xs ≤ 1)
    → Chain pool (pool p).next xs
    → (q : ℕ) × (insert_walk fuel algo pool t (some p) (pool p).next ≡ some (some q))
      × (1 ≤ count q (p ∷ xs))
      × Chain (linked a q pool) (linked a q pool p).next (insert_by algo pool t a xs)
unfolding insert_walk insert_by
insert_behind fuel algo pool t a p [] l n na np d c =
    let next = linked-next a p pool n in
    (
      p,
      ap (λ (o : Option ℕ). insert_walk fuel algo pool t (some p) o) c
          ∙ insert_walk-none fuel algo pool t (some p),
      ground arith,
      (next.0, next.1 ∙ c),
    )
insert_behind zero algo pool t a p (x ∷ xs) l n na np d c = absurd (omega arith)
insert_behind (suc fuel) algo pool t a p (x ∷ xs) l n na np d c =
    let step = ap (λ (o : Option ℕ). insert_walk (suc fuel) algo pool t (some p) o) c.0 in
    let dx = d x in
    let ax : a ≢ x = λ e. ground (arith, ap (λ (i : ℕ). count i (x ∷ xs)) e) in
    let (q, walk, here, chain) =
      insert_behind fuel algo pool t a x xs (omega arith) ax (ground arith) (ground arith)
        (λ b. let db = d b in ground arith) c.1 in
    elim (Bool-cases (goes_before algo t (pool x))) [
      | inl e ↦
          let next = linked-next a p pool n in
          (
            p,
            step ∙ rw e refl,
            ground arith,
            rw (e, insert_by)
                (
                  next.0,
                  (next.1 ∙ c.0, (linked-Chain a p pool (some x) (x ∷ xs) na np (refl, c.1)).1),
                ),
          )
      | inr e ↦
          let qp : q ≢ p = λ f. ground (arith, ap (λ (i : ℕ). count i (x ∷ xs)) f) in
          (
            q,
            step ∙ rw e walk,
            ground arith,
            rw (e, insert_by) (linked_other a q p pool n qp ∙ c.0, chain),
          )
    ]
