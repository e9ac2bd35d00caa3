-- ===== src/Realtime/Bounds.antt =====
-- realtime_response_time of realtime.c ends: where no period is 0 and no number of a round needs more
-- than 64 bits, as many rounds as the deadline has ticks, and one more, are enough.
use scheduler_module.Base.{
  ℕ, zero, suc, ◌+◌, ◌-◌, ◌*◌, ◌/◌, ◌≤◌, ◌<◌, false, Option, some, List, [], ◌∷◌, ◌≡◌, ◌⊎◌, refl,
  ap, ◌∙◌, ltb, ◌==◌, if◌then◌else◌, inl, inr, Bool-cases, arith, add64, u64_mod, ◌%◌,
}
use native.Mathlib.Nat.{le-div_iff_mul-le, div-mul-le_self, mul-le-mul, mod-eq_of_lt}
use scheduler_module.Realtime.Tasks.{Task, tasks_from}
use scheduler_module.Realtime.{Realtime, ◌>>=◌}
use scheduler_module.Realtime.Running.{sub64}
use scheduler_module.Realtime.Response.{
  interferes, response_step, step_if, response_round, round_ends, response_loop,
  realtime_response_time,
}

-- The step without a width.
abbrev plain_step : ℕ → ℕ → ℕ → ℕ → ℕ
plain_step own r period wcet = own + (r + period - 1) / period * wcet

abbrev pub plain_round : (ℕ → Task) → ℕ → List ℕ → ℕ → ℕ
plain_round pool a [] r = r
plain_round pool a (b ∷ bs) r = plain_round pool a bs (
    if interferes pool a b
    then plain_step (pool a).params.wcet r (pool b).params.period (pool b).params.wcet
    else r)

-- No number of a round from `r` on needs more than 64 bits, and no period is 0.
abbrev pub Fits : (ℕ → Task) → ℕ → List ℕ → ℕ → Type 0
Fits pool a [] r = Unit {0}
Fits pool a (b ∷ bs) r =
    (0 < (pool b).params.period)
    × (r + (pool b).params.period < u64_mod)
    × (plain_step (pool a).params.wcet r (pool b).params.period (pool b).params.wcet < u64_mod)
    × Fits pool a bs (
        if interferes pool a b
        then plain_step (pool a).params.wcet r (pool b).params.period (pool b).params.wcet
        else r)

div_mono : (x y n : ℕ) → 0 < n → x ≤ y → x / n ≤ y / n
div_mono x y n p h = (le-div_iff_mul-le p).1 (omega (arith, div-mul-le_self x n))

plain_step_mono :
    (own r q period wcet : ℕ)
    → 0 < period
    → r ≤ q
    → plain_step own r period wcet ≤ plain_step own q period wcet
plain_step_mono own r q period wcet p h =
    let d = div_mono (r + period - 1) (q + period - 1) period p (omega arith) in
    let m : (r + period - 1) / period * wcet ≤ (q + period - 1) / period * wcet =
      mul-le-mul d (omega arith) in
    omega arith

response_step-plain :
    (own r period wcet : ℕ)
    → 0 < period
    → r + period < u64_mod
    → plain_step own r period wcet < u64_mod
    → response_step own r period wcet ≡ some (plain_step own r period wcet)
unfolding response_step
response_step-plain own r period wcet p f g =
    let some_period : (period == 0) ≡ false = ground arith in
    let up : sub64 (add64 r period) 1 ≡ r + period - 1 = omega arith in
    let fit : (r + period - 1) / period * wcet % u64_mod ≡ (r + period - 1) / period * wcet =
      mod-eq_of_lt (omega arith) in
    rw (some_period, response_step, up, fit) (ap some (mod-eq_of_lt g))

module _ (pool : ℕ → Task) (a : ℕ) where
  abbrev next_number : ℕ → ℕ → ℕ
  next_number b r =
      if interferes pool a b
      then plain_step (pool a).params.wcet r (pool b).params.period (pool b).params.wcet
      else r

  next_number_mono :
      (b r q : ℕ) → 0 < (pool b).params.period → r ≤ q → next_number b r ≤ next_number b q
  next_number_mono b r q p h = elim (Bool-cases (interferes pool a b)) [
    | inl e ↦ rw e (plain_step_mono (pool a).params.wcet r q (pool b).params.period _ p h)
    | inr e ↦ rw e h
  ]

  Fits-mono : (bs : List ℕ) (r q : ℕ) → r ≤ q → Fits pool a bs q → Fits pool a bs r
  Fits-mono [] r q h f = tt
  Fits-mono (b ∷ bs) r q h f =
      let m =
        plain_step_mono (pool a).params.wcet r q (pool b).params.period (pool b).params.wcet f.0
          h in
      let period = f.0 in
      let sum = f.1 in
      let step = f.2 in
      (
        period,
        omega arith,
        omega arith,
        Fits-mono bs (next_number b r) (next_number b q) (next_number_mono b r q period h) f.3,
      )

  plain_round_mono :
      (bs : List ℕ) (r q : ℕ)
      → r ≤ q
      → Fits pool a bs q
      → plain_round pool a bs r ≤ plain_round pool a bs q
  plain_round_mono [] r q h f = h
  plain_round_mono (b ∷ bs) r q h f =
      plain_round_mono bs (next_number b r) (next_number b q) (next_number_mono b r q f.0 h) f.3

  -- No number of a round is below the wcet.
  plain_round-own :
      (bs : List ℕ) (r : ℕ)
      → (pool a).params.wcet ≤ r
      → (pool a).params.wcet ≤ plain_round pool a bs r
  plain_round-own [] r h = h
  plain_round-own (b ∷ bs) r h = plain_round-own bs (next_number b r) (own_le b)
    where
      own_le : (b : ℕ) → (pool a).params.wcet ≤ next_number b r
      own_le b = elim (Bool-cases (interferes pool a b)) [
        | inl e ↦ rw e (omega arith)
        | inr e ↦ rw e h
      ]

  response_round-plain :
      (bs : List ℕ) (r : ℕ)
      → Fits pool a bs r
      → response_round pool a bs r ≡ some (plain_round pool a bs r)
  unfolding response_round step_if
  response_round-plain [] r f = refl
  response_round-plain (b ∷ bs) r f =
      let rest = response_round-plain bs (next_number b r) f.3 in
      let step : step_if pool a b r ≡ some (next_number b r) =
        elim (Bool-cases (interferes pool a b)) [
          | inl e ↦
              rw (e, step_if)
                (response_step-plain (pool a).params.wcet r (pool b).params.period
                  (pool b).params.wcet f.0 f.1 f.2)
          | inr e ↦ rw (e, step_if) refl
        ] in
      ap (λ (o : Option ℕ). o >>= λ n. response_round pool a bs n) step ∙ rest

  -- What the loop may return: more than the deadline, or a fixed point.
  abbrev pub IsAnswer : List ℕ → ℕ → Type 0
  IsAnswer bs r = ((pool a).params.deadline < r) ⊎ (plain_round pool a bs r ≡ r)

  loop_ends :
      (rounds : ℕ) (bs : List ℕ) (r : ℕ)
      → Fits pool a bs (pool a).params.deadline
      → r ≤ (pool a).params.deadline
      → r ≤ plain_round pool a bs r
      → (pool a).params.deadline < r + rounds
      → (n : ℕ) × (response_loop rounds pool a bs r ≡ some n) × IsAnswer bs n
  unfolding response_loop round_ends
  loop_ends zero bs r f h up m = absurd (omega arith)
  loop_ends (suc rounds) bs r f h up m =
      let q = plain_round pool a bs r in
      let fr = Fits-mono bs r (pool a).params.deadline h f in
      let round = response_round-plain bs r fr in
      let deadline = (pool a).params.deadline in
      let body = λ (n : ℕ). round_ends deadline r n (response_loop rounds pool a bs n) in
      let step : response_loop (suc rounds) pool a bs r ≡ body q =
        ap (λ (o : Option ℕ). o >>= body) round in
      let again = λ (low : q ≤ deadline) (more : r < q).
        loop_ends rounds bs q f low (plain_round_mono bs r q up (Fits-mono bs q deadline low f))
          (omega arith) in
      elim (Bool-cases (ltb deadline q)) [
        | inl e ↦ (q, step ∙ rw (e, round_ends) refl, inl (ground arith))
        | inr e ↦ elim (Bool-cases (q == r)) [
          | inl g ↦
              let same : q ≡ r = ground arith in
              (q, step ∙ rw (e, g, round_ends) refl, inr (ap (plain_round pool a bs) same))
          | inr g ↦
              let (n, done, answer) = again (ground arith) (ground arith) in
              (n, step ∙ rw (e, g, round_ends) done, answer)
        ]
      ]

module _ {F : Type 0} where
  -- Where all_tasks can be walked with the fuel, the wcet of a task is at most its deadline, no
  -- period is 0, and no number of a round that starts at the deadline needs more than 64 bits,
  -- realtime_response_time ends within as many rounds as the deadline exceeds the wcet by, and one
  -- more. It returns a number above the deadline or one that a further round leaves as it is.
  pub response_time_ends :
      (fuel rounds a : ℕ) (s : Realtime F) (tasks : List ℕ)
      → tasks_from fuel s.task_pool s.all_tasks ≡ some tasks
      → (s.task_pool a).params.wcet ≤ (s.task_pool a).params.deadline
      → (s.task_pool a).params.deadline < (s.task_pool a).params.wcet + rounds
      → Fits s.task_pool a tasks (s.task_pool a).params.deadline
      → (n : ℕ) × (realtime_response_time fuel rounds a s ≡ some n) × IsAnswer s.task_pool a tasks n
  unfolding realtime_response_time
  response_time_ends fuel rounds a s tasks e h m f =
      let pool = s.task_pool in
      let own = (pool a).params.wcet in
      let (n, done, answer) =
        loop_ends pool a rounds tasks own f h (plain_round-own pool a tasks own (omega arith)) m in
      (
        n,
        ap (λ (o : Option (List ℕ)). o >>= λ bs. response_loop rounds pool a bs own) e ∙ done,
        answer,
      )
