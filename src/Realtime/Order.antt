-- ===== src/Realtime/Order.antt =====
-- The insertion into the ready queue of realtime.c: where the queue is a chain, it ends with the
-- chain that has the task in its place, and keeps the order of the algorithm.
use scheduler_module.Base.{
  ℕ, zero, suc, ◌≤◌, ℤ, pos, negsuc, true, false, Option, none, some, List, [], ◌∷◌, ◌≡◌, ◌≢◌, refl,
  sym, ap, ◌∙◌, subst, inl, inr, Bool-cases, arith, length, All, count,
}
use scheduler_module.Realtime.Tasks.{
  Algorithm, edf, rms, dms, llf, Task, ready, ltz, goes_before, write, set_next, insert_walk,
}
use scheduler_module.Realtime.{Realtime, ◌>>=◌, write_task, link_ready, insert_ready}
use scheduler_module.Realtime.Chain.{
  Chain, write-Chain, insert_by, insert_walk-none, linked, insert_behind,
}

-- No task of the list is to go before an earlier one.
abbrev pub Behind : Algorithm → (ℕ → Task) → Task → List ℕ → Type 0
Behind algo pool t = All (λ a. goes_before algo (pool a) t ≡ false)

abbrev pub Ordered : Algorithm → (ℕ → Task) → List ℕ → Type 0
Ordered algo pool [] = Unit {0}
Ordered algo pool (a ∷ as') = Behind algo pool (pool a) as' × Ordered algo pool as'

-- t < c and c ≤ d give t ≤ d, and t ≥ c for t < c gives c ≤ t.
before_trans :
    (algo : Algorithm) (t c d : Task)
    → goes_before algo t c ≡ true
    → goes_before algo d c ≡ false
    → goes_before algo d t ≡ false
unfolding goes_before
before_trans edf t c d h k = ground arith
before_trans rms t c d h k = ground arith
before_trans dms t c d h k = ground arith
before_trans llf t c d h k = ltz_trans t.laxity c.laxity d.laxity h k
  where
    ltz_trans : (x y z : ℤ) → ltz x y ≡ true → ltz z y ≡ false → ltz z x ≡ false
    ltz_trans (pos x) (pos y) (pos z) h k = unfold ltz in ground arith
    ltz_trans (pos x) (pos y) (negsuc z) h k = unfold ltz in ground arith
    ltz_trans (pos x) (negsuc y) z h k = unfold ltz in ground arith
    ltz_trans (negsuc x) (pos y) (pos z) h k = unfold ltz in ground arith
    ltz_trans (negsuc x) (pos y) (negsuc z) h k = unfold ltz in ground arith
    ltz_trans (negsuc x) (negsuc y) (pos z) h k = unfold ltz in ground arith
    ltz_trans (negsuc x) (negsuc y) (negsuc z) h k = unfold ltz in ground arith

ltz_irrefl : (x : ℤ) → ltz x x ≡ false
unfolding ltz
ltz_irrefl (pos x) = ground arith
ltz_irrefl (negsuc x) = ground arith

pub before_irrefl : (algo : Algorithm) (c : Task) → goes_before algo c c ≡ false
unfolding goes_before
before_irrefl edf c = ground arith
before_irrefl rms c = ground arith
before_irrefl dms c = ground arith
before_irrefl llf c = ltz_irrefl c.laxity

before_asym :
    (algo : Algorithm) (t c : Task) → goes_before algo t c ≡ true → goes_before algo c t ≡ false
before_asym algo t c h = before_trans algo t c c h (before_irrefl algo c)

module _ (algo : Algorithm) (pool : ℕ → Task) where
  Behind-trans :
      (t : Task) (x : ℕ) (xs : List ℕ)
      → goes_before algo t (pool x) ≡ true
      → Behind algo pool (pool x) xs
      → Behind algo pool t xs
  Behind-trans t x [] h b = tt
  Behind-trans t x (y ∷ ys) h b =
      (before_trans algo t (pool x) (pool y) h b.0, Behind-trans t x ys h b.1)

  insert_by-Behind :
      (t : Task) (a : ℕ) (xs : List ℕ)
      → goes_before algo (pool a) t ≡ false
      → Behind algo pool t xs
      → Behind algo pool t (insert_by algo pool (pool a) a xs)
  unfolding insert_by
  insert_by-Behind t a [] h b = (h, tt)
  insert_by-Behind t a (x ∷ xs) h b = ground (arith, insert_by-Behind t a xs h b.1)

  pub insert_by-Ordered :
      (a : ℕ) (xs : List ℕ)
      → Ordered algo pool xs
      → Ordered algo pool (insert_by algo pool (pool a) a xs)
  unfolding insert_by
  insert_by-Ordered a [] o = (tt, tt)
  insert_by-Ordered a (x ∷ xs) o = elim (Bool-cases (goes_before algo (pool a) (pool x))) [
    | inl e ↦
        rw (e, insert_by)
          ((before_asym algo (pool a) (pool x) e, Behind-trans (pool a) x xs e o.0), o)
    | inr e ↦ rw (e, insert_by) (insert_by-Behind (pool x) a xs e o.0, insert_by-Ordered a xs o.1)
  ]

-- The order looks at no state.
pub ready_order :
    (algo : Algorithm) (t c : Task)
    → (goes_before algo (record t { state = ready }) c ≡ goes_before algo t c)
      × (goes_before algo t (record c { state = ready }) ≡ goes_before algo t c)
unfolding goes_before
ready_order edf t c = (refl, refl)
ready_order rms t c = (refl, refl)
ready_order dms t c = (refl, refl)
ready_order llf t c = (refl, refl)

insert_by-ready :
    (algo : Algorithm) (pool : ℕ → Task) (a : ℕ) (xs : List ℕ)
    → count a xs ≡ 0
    → let pool1 = write a (λ t. record t { state = ready }) pool in
      insert_by algo pool1 (pool1 a) a xs ≡ insert_by algo pool (pool a) a xs
unfolding insert_by
insert_by-ready algo pool a [] n = refl
insert_by-ready algo pool a (x ∷ xs) n =
    let pool1 = write a (λ (t : Task). record t { state = ready }) pool in
    let self : pool1 a ≡ record (pool a) { state = ready } = unfold write in ground arith in
    let other : pool1 x ≡ pool x = unfold write in ground arith in
    let same : goes_before algo (pool1 a) (pool1 x) ≡ goes_before algo (pool a) (pool x) =
      rw (self, other) ((ready_order algo (pool a) (pool x)).0) in
    rw (same, insert_by-ready algo pool a xs (ground arith)) refl

-- The links after the task has been linked behind `prev`, or in front.
abbrev LinksTo : Algorithm → (ℕ → Task) → Task → ℕ → Option ℕ → List ℕ → Option ℕ → Type 0
LinksTo algo pool t a first xs none =
    Chain (set_next a first pool) (some a) (insert_by algo pool t a xs)
LinksTo algo pool t a first xs (some q) = Chain (linked a q pool) first (insert_by algo pool t a xs)

set_next-front :
    (a : ℕ) (pool : ℕ → Task) (first : Option ℕ) (xs : List ℕ)
    → count a xs ≡ 0
    → Chain pool first xs
    → Chain (set_next a first pool) (some a) (a ∷ xs)
unfolding set_next
set_next-front a pool first xs n c = (
  refl,
  subst (λ (o : Option ℕ). Chain (write a front pool) o xs) (sym kept)
      (write-Chain a front pool first xs n c),
)
  where
    front : Task → Task
    front = λ t. record t { next = first }

    kept : (write a front pool a).next ≡ first
    kept = unfold write in ground arith

-- The walk from the head on.
insert_head :
    (fuel : ℕ) (algo : Algorithm) (pool : ℕ → Task) (t : Task) (a : ℕ) (first : Option ℕ)
    (xs : List ℕ)
    → length xs ≤ fuel
    → count a xs ≡ 0
    → ((b : ℕ) → count b xs ≤ 1)
    → Chain pool first xs
    → (prev : Option ℕ) × (insert_walk fuel algo pool t none first ≡ some prev)
      × LinksTo algo pool t a first xs prev
insert_head fuel algo pool t a first [] l n d c = (
  none,
  ap (insert_walk fuel algo pool t none) c ∙ insert_walk-none fuel algo pool t none,
  unfold insert_by in set_next-front a pool first [] n c,
)
insert_head zero algo pool t a first (x ∷ xs) l n d c = absurd (omega arith)
insert_head (suc fuel) algo pool t a first (x ∷ xs) l n d c =
    let step = ap (insert_walk (suc fuel) algo pool t none) c.0 in
    let dx = d x in
    let ax : a ≢ x = λ e. ground (arith, ap (λ (i : ℕ). count i (x ∷ xs)) e) in
    let (q, walk, here, chain) =
      insert_behind fuel algo pool t a x xs (omega arith) ax (ground arith) (ground arith)
        (λ b. let db = d b in ground arith) c.1 in
    elim (Bool-cases (goes_before algo t (pool x))) [
      | inl e ↦ (
        none,
        step ∙ (unfold insert_walk in rw e refl),
        unfold insert_by in rw (e, insert_by) (set_next-front a pool first (x ∷ xs) n c),
      )
      | inr e ↦ (
        some q,
        step ∙ (unfold insert_walk in rw e walk),
        unfold insert_by in rw (e, insert_by) (c.0, chain),
      )
    ]

module _ {F : Type 0} where
  link_ready-Chain :
      (algo : Algorithm) (t : Task) (a : ℕ) (prev : Option ℕ) (s : Realtime F) (xs : List ℕ)
      → LinksTo algo s.task_pool t a s.ready_queue xs prev
      → Chain
          (link_ready a prev s).task_pool
          (link_ready a prev s).ready_queue
          (insert_by algo s.task_pool t a xs)
  unfolding link_ready
  link_ready-Chain algo t a none s xs l = l
  link_ready-Chain algo t a (some q) s xs l = l

  -- Where the ready queue is a chain of distinct tasks in the order of the algorithm, the inserted
  -- task is not one of them, and the fuel is the length of the chain or more, insert_ready ends,
  -- and the ready queue is then the chain that has the task before the first one that it is to go
  -- before, in the order of the algorithm.
  pub insert_ready-Ordered :
      (fuel a : ℕ) (s : Realtime F) (xs : List ℕ)
      → length xs ≤ fuel
      → count a xs ≡ 0
      → ((b : ℕ) → count b xs ≤ 1)
      → Chain s.task_pool s.ready_queue xs
      → Ordered s.current_algo s.task_pool xs
      → let ys = insert_by s.current_algo s.task_pool (s.task_pool a) a xs in
        (t : Realtime F) × (insert_ready fuel a s ≡ some t)
        × Chain t.task_pool t.ready_queue ys
        × Ordered s.current_algo s.task_pool ys
  unfolding insert_ready write_task
  insert_ready-Ordered fuel a s xs l n d c o =
      let mark = λ (t : Task). record t { state = ready } in
      let pool = write a mark s.task_pool in
      let s1 : Realtime F = record s { task_pool = pool } in
      let c1 = write-Chain a mark s.task_pool s.ready_queue xs n c in
      let (prev, walk, links) =
        insert_head fuel s.current_algo pool (pool a) a s.ready_queue xs l n d c1 in
      (
        link_ready a prev s1,
        ap (λ (o : Option (Option ℕ)). o >>= λ p. some (link_ready a p s1)) walk,
        subst (Chain (link_ready a prev s1).task_pool (link_ready a prev s1).ready_queue)
            (insert_by-ready s.current_algo s.task_pool a xs n)
            (link_ready-Chain s.current_algo (pool a) a prev s1 xs links),
        insert_by-Ordered s.current_algo s.task_pool a xs o,
      )
