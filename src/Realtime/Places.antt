-- ===== src/Realtime/Places.antt =====
-- The place of a task in the ready queue of realtime.c, against the orders that the algorithms stand
-- for: earlier deadlines, greater rms_priority and less laxity come first.
use scheduler_module.Base.{
  ℕ, ◌≤◌, ◌<◌, ℤ, pos, negsuc, true, false, some, List, [], ◌∷◌, ◌++◌, ◌≡◌, refl, ap, subst, inl,
  inr, Bool-cases, arith, length, count, All,
}
use scheduler_module.Realtime.Tasks.{Algorithm, edf, rms, dms, llf, Task, ltz, goes_before}
use scheduler_module.Realtime.{Realtime, insert_ready}
use scheduler_module.Realtime.Chain.{Chain, insert_by}
use scheduler_module.Realtime.Order.{Behind, Ordered, insert_ready-Ordered}

abbrev pub AtMost : ℤ → ℤ → Type 0
AtMost (pos a) (pos b) = a ≤ b
AtMost (pos a) (negsuc b) = ⊥
AtMost (negsuc a) (pos b) = Unit {0}
AtMost (negsuc a) (negsuc b) = b ≤ a

abbrev pub Below : ℤ → ℤ → Type 0
Below (pos a) (pos b) = a < b
Below (pos a) (negsuc b) = ⊥
Below (negsuc a) (pos b) = Unit {0}
Below (negsuc a) (negsuc b) = b < a

-- The first task may stand before the second one.
abbrev pub NotAfter : Algorithm → Task → Task → Type 0
NotAfter edf t u = t.absolute_deadline ≤ u.absolute_deadline
NotAfter rms t u = u.rms_priority ≤ t.rms_priority
NotAfter dms t u = u.rms_priority ≤ t.rms_priority
NotAfter llf t u = AtMost t.laxity u.laxity

-- It must.
abbrev pub Precedes : Algorithm → Task → Task → Type 0
Precedes edf t u = t.absolute_deadline < u.absolute_deadline
Precedes rms t u = u.rms_priority < t.rms_priority
Precedes dms t u = u.rms_priority < t.rms_priority
Precedes llf t u = Below t.laxity u.laxity

abbrev pub InOrder : Algorithm → (ℕ → Task) → List ℕ → Type 0
InOrder algo pool [] = Unit {0}
InOrder algo pool (a ∷ as') = All (λ b. NotAfter algo (pool a) (pool b)) as' × InOrder algo pool as'

ltz-Below : (x y : ℤ) → ltz x y ≡ true → Below x y
unfolding ltz
ltz-Below (pos a) (pos b) h = ground arith
ltz-Below (pos a) (negsuc b) h = absurd (ground arith)
ltz-Below (negsuc a) (pos b) h = tt
ltz-Below (negsuc a) (negsuc b) h = ground arith

ltz-AtMost : (x y : ℤ) → ltz x y ≡ false → AtMost y x
unfolding ltz
ltz-AtMost (pos a) (pos b) h = ground arith
ltz-AtMost (pos a) (negsuc b) h = tt
ltz-AtMost (negsuc a) (pos b) h = absurd (ground arith)
ltz-AtMost (negsuc a) (negsuc b) h = ground arith

AtMost-ltz : (x y : ℤ) → AtMost x y → ltz y x ≡ false
unfolding ltz
AtMost-ltz (pos a) (pos b) h = ground arith
AtMost-ltz (pos a) (negsuc b) h = absurd h
AtMost-ltz (negsuc a) (pos b) h = refl
AtMost-ltz (negsuc a) (negsuc b) h = ground arith

Below-AtMost : (x y z : ℤ) → Below x y → AtMost y z → Below x z
Below-AtMost (pos a) (pos b) (pos c) h k = omega arith
Below-AtMost (pos a) (pos b) (negsuc c) h k = absurd k
Below-AtMost (pos a) (negsuc b) z h k = absurd h
Below-AtMost (negsuc a) (pos b) (pos c) h k = tt
Below-AtMost (negsuc a) (pos b) (negsuc c) h k = absurd k
Below-AtMost (negsuc a) (negsuc b) (pos c) h k = tt
Below-AtMost (negsuc a) (negsuc b) (negsuc c) h k = omega arith

before-Precedes : (algo : Algorithm) (t u : Task) → goes_before algo t u ≡ true → Precedes algo t u
unfolding goes_before
before-Precedes edf t u h = ground arith
before-Precedes rms t u h = ground arith
before-Precedes dms t u h = ground arith
before-Precedes llf t u h = ltz-Below t.laxity u.laxity h

before-NotAfter : (algo : Algorithm) (t u : Task) → goes_before algo t u ≡ false → NotAfter algo u t
unfolding goes_before
before-NotAfter edf t u h = ground arith
before-NotAfter rms t u h = ground arith
before-NotAfter dms t u h = ground arith
before-NotAfter llf t u h = ltz-AtMost t.laxity u.laxity h

NotAfter-before : (algo : Algorithm) (t u : Task) → NotAfter algo t u → goes_before algo u t ≡ false
unfolding goes_before
NotAfter-before edf t u h = ground arith
NotAfter-before rms t u h = ground arith
NotAfter-before dms t u h = ground arith
NotAfter-before llf t u h = AtMost-ltz t.laxity u.laxity h

Precedes-NotAfter :
    (algo : Algorithm) (t u v : Task) → Precedes algo t u → NotAfter algo u v → Precedes algo t v
Precedes-NotAfter edf t u v h k = omega arith
Precedes-NotAfter rms t u v h k = omega arith
Precedes-NotAfter dms t u v h k = omega arith
Precedes-NotAfter llf t u v h k = Below-AtMost t.laxity u.laxity v.laxity h k

module _ (algo : Algorithm) (pool : ℕ → Task) where
  All-Behind :
      (a : ℕ) (xs : List ℕ)
      → All (λ b. NotAfter algo (pool a) (pool b)) xs
      → Behind algo pool (pool a) xs
  All-Behind a [] h = tt
  All-Behind a (x ∷ xs) h = (NotAfter-before algo (pool a) (pool x) h.0, All-Behind a xs h.1)

  Behind-All :
      (a : ℕ) (xs : List ℕ)
      → Behind algo pool (pool a) xs
      → All (λ b. NotAfter algo (pool a) (pool b)) xs
  Behind-All a [] h = tt
  Behind-All a (x ∷ xs) h = (before-NotAfter algo (pool x) (pool a) h.0, Behind-All a xs h.1)

  InOrder-Ordered : (xs : List ℕ) → InOrder algo pool xs → Ordered algo pool xs
  InOrder-Ordered [] h = tt
  InOrder-Ordered (x ∷ xs) h = (All-Behind x xs h.0, InOrder-Ordered xs h.1)

  Ordered-InOrder : (xs : List ℕ) → Ordered algo pool xs → InOrder algo pool xs
  Ordered-InOrder [] h = tt
  Ordered-InOrder (x ∷ xs) h = (Behind-All x xs h.0, Ordered-InOrder xs h.1)

  All-Precedes :
      (t u : Task) (xs : List ℕ)
      → Precedes algo t u
      → All (λ b. NotAfter algo u (pool b)) xs
      → All (λ b. Precedes algo t (pool b)) xs
  All-Precedes t u [] h k = tt
  All-Precedes t u (x ∷ xs) h k =
      (Precedes-NotAfter algo t u (pool x) h k.0, All-Precedes t u xs h k.1)

  -- The tasks before the inserted one, and those behind it.
  placed :
      (a : ℕ) (xs : List ℕ)
      → InOrder algo pool xs
      → (front back : List ℕ) × (xs ≡ front ++ back)
        × (insert_by algo pool (pool a) a xs ≡ front ++ a ∷ back)
        × All (λ b. NotAfter algo (pool b) (pool a)) front
        × All (λ b. Precedes algo (pool a) (pool b)) back
  unfolding insert_by
  placed a [] o = ([], [], refl, refl, tt, tt)
  placed a (x ∷ xs) o = elim (Bool-cases (goes_before algo (pool a) (pool x))) [
    | inl e ↦
        let first = before-Precedes algo (pool a) (pool x) e in
        (
          [],
          x ∷ xs,
          refl,
          rw (e, insert_by) refl,
          tt,
          (first, All-Precedes (pool a) (pool x) xs first o.0),
        )
    | inr e ↦
        let (front, back, split, eq, low, high) = placed a xs o.1 in
        (
          x ∷ front,
          back,
          ap (λ l. x ∷ l) split,
          rw (e, insert_by) (ap (λ l. x ∷ l) eq),
          (before-NotAfter algo (pool a) (pool x) e, low),
          high,
        )
  ]

module _ {F : Type 0} where
  -- Where the ready queue is a chain of distinct tasks in order, which is that of
  -- absolute_deadline under EDF, of rms_priority from the greatest down under RMS and DMS, and of
  -- laxity under LLF, the inserted task is not one of them, and the fuel is the length of the
  -- chain or more, insert_ready ends, and the ready queue is the chain in order that has the task
  -- behind those that it need not stand before, equals included, and before those that it must
  -- stand before.
  pub insert_ready-InOrder :
      (fuel a : ℕ) (s : Realtime F) (xs : List ℕ)
      → length xs ≤ fuel
      → count a xs ≡ 0
      → ((b : ℕ) → count b xs ≤ 1)
      → Chain s.task_pool s.ready_queue xs
      → InOrder s.current_algo s.task_pool xs
      → (t : Realtime F) × (front back : List ℕ) × (insert_ready fuel a s ≡ some t)
        × (xs ≡ front ++ back)
        × Chain t.task_pool t.ready_queue (front ++ a ∷ back)
        × InOrder s.current_algo s.task_pool (front ++ a ∷ back)
        × All (λ b. NotAfter s.current_algo (s.task_pool b) (s.task_pool a)) front
        × All (λ b. Precedes s.current_algo (s.task_pool a) (s.task_pool b)) back
  insert_ready-InOrder fuel a s xs l n d c o =
      let algo = s.current_algo in
      let (t, ends, chain, ordered) =
        insert_ready-Ordered fuel a s xs l n d c (InOrder-Ordered algo s.task_pool xs o) in
      let (front, back, split, eq, low, high) = placed algo s.task_pool a xs o in
      (
        t,
        front,
        back,
        ends,
        split,
        subst (Chain t.task_pool t.ready_queue) eq chain,
        Ordered-InOrder algo s.task_pool (front ++ a ∷ back)
            (subst (Ordered algo s.task_pool) eq ordered),
        low,
        high,
      )
