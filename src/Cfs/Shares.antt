-- ===== src/Cfs/Shares.antt =====
-- The weights of cfs.c: the two tables, virtual time and the slices that they give.
use scheduler_module.Base.{
  ℕ, zero, suc, ◌+◌, ◌*◌, ◌/◌, ◌%◌, ◌^◌, ◌≤◌, ◌<◌, ℤ, false, Option, some, List, [], ◌∷◌, ◌≡◌, ◌⊎◌,
  refl, ap, ◌∙◌, ◌==◌, ltb, if◌then◌else◌, inl, inr, Bool-cases, arith, length, All, u32_mod,
  u64_mod,
}
use native.Mathlib.Nat.{le-div_iff_mul-le, div-mul-le_self, mul-le-mul, mod-eq_of_lt, mul_assoc}
use scheduler_module.Cfs.Weights.{
  weight_table, wmult_table, weight_nice0, table_entry, nice_index, cfs_nice_to_weight,
  cfs_nice_to_wmult, cfs_calc_delta,
}
use scheduler_module.Cfs.{
  Cfs, target_latency, cfs_sched_latency, at_least_granularity, cfs_timeslice,
}
use scheduler_module.Cfs.Invariant.{WellFormed}
use scheduler_module.Cfs.Moves.{
  table_entry-All, nice_index_bound, nice_to_weight_bounds, sum_weights_bounds,
}

abbrev Descends : List ℕ → Type 0
Descends [] = Unit {0}
Descends (w ∷ ws) = All (λ v. v ≤ w) ws × Descends ws

table_entry-Descends :
    (i j : ℕ) (ws : List ℕ)
    → Descends ws
    → i ≤ j
    → j < length ws
    → table_entry j ws ≤ table_entry i ws
unfolding table_entry
table_entry-Descends i j [] d h l = absurd (omega arith)
table_entry-Descends zero zero (w ∷ ws) d h l = omega arith
table_entry-Descends zero (suc j) (w ∷ ws) d h l =
    table_entry-All (λ v. v ≤ w) j ws d.0 (omega arith)
table_entry-Descends (suc i) zero (w ∷ ws) d h l = absurd (omega arith)
table_entry-Descends (suc i) (suc j) (w ∷ ws) d h l =
    table_entry-Descends i j ws d.1 (omega arith) (omega arith)

div-antitone : (x v w : ℕ) → 0 < v → v ≤ w → x / w ≤ x / v
div-antitone x v w p h = (le-div_iff_mul-le p).1 (grind (arith, div-mul-le_self x w))

pub delta_mono :
    (delta : ℕ) (a b : ℤ)
    → nice_index a ≤ nice_index b
    → cfs_calc_delta delta (cfs_nice_to_weight a) ≤ cfs_calc_delta delta (cfs_nice_to_weight b)
unfolding cfs_calc_delta
delta_mono delta a b h =
    let heavier : cfs_nice_to_weight b ≤ cfs_nice_to_weight a =
      unfold cfs_nice_to_weight in
      table_entry-Descends (nice_index a) (nice_index b) weight_table (omega arith) h
        (nice_index_bound b) in
    let wa = nice_to_weight_bounds a in
    let wb = nice_to_weight_bounds b in
    let na : (cfs_nice_to_weight a == 0) ≡ false = ground arith in
    let nb : (cfs_nice_to_weight b == 0) ≡ false = ground arith in
    rw (na, nb)
      (div-antitone (delta * weight_nice0 % u64_mod) (cfs_nice_to_weight b) (cfs_nice_to_weight a)
        (omega arith) heavier)

-- The entries of the two tables at one place.
abbrev Inverse : List ℕ → List ℕ → Type 0
Inverse [] ms = Unit {0}
Inverse (w ∷ ws) [] = Unit {0}
Inverse (w ∷ ws) (m ∷ ms) = ((w * m ≤ 2 ^ 32 + w) × (2 ^ 32 ≤ w * m + w)) × Inverse ws ms

table_entry-Inverse :
    (i : ℕ) (ws ms : List ℕ)
    → Inverse ws ms
    → i < length ws
    → length ws ≡ length ms
    → (table_entry i ws * table_entry i ms ≤ 2 ^ 32 + table_entry i ws)
      × (2 ^ 32 ≤ table_entry i ws * table_entry i ms + table_entry i ws)
unfolding table_entry
table_entry-Inverse i [] ms v h e = absurd (omega arith)
table_entry-Inverse i (w ∷ ws) [] v h e = absurd (omega arith)
table_entry-Inverse zero (w ∷ ws) (m ∷ ms) v h e = v.0
table_entry-Inverse (suc i) (w ∷ ws) (m ∷ ms) v h e =
    table_entry-Inverse i ws ms v.1 (omega arith) (omega arith)

pub weight-wmult :
    (nice : ℤ)
    → (cfs_nice_to_weight nice * cfs_nice_to_wmult nice ≤ 2 ^ 32 + cfs_nice_to_weight nice)
      × (2 ^ 32 ≤ cfs_nice_to_weight nice * cfs_nice_to_wmult nice + cfs_nice_to_weight nice)
unfolding cfs_nice_to_weight cfs_nice_to_wmult
weight-wmult nice =
    table_entry-Inverse (nice_index nice) weight_table wmult_table (omega arith)
      (nice_index_bound nice) (omega arith)

-- The period that cfs_sched_latency is to return, without a width.
abbrev pub period : ℕ → ℕ
period running = if ltb 8 running then 4 * running else 20

share : (l w load : ℕ) → 0 < load → w ≤ load → (l * w / load * load ≤ l * w) × (l * w / load ≤ l)
share l w load p h = (div-mul-le_self (l * w) load, grind (arith, div-mul-le_self (l * w) load))

product_fits : (n w : ℕ) → n ≤ 256 → w ≤ 88761 → 4 * n * w % u32_mod ≡ 4 * n * w
product_fits n w h k =
    let le : n * w ≤ 256 * 88761 = mul-le-mul h k in mod-eq_of_lt (omega (arith, mul_assoc 4 n w))

-- Neither the period nor its product with a weight wraps around.
latency-period :
    (s : Cfs) (w : ℕ)
    → s.nr_running ≤ 256
    → w ≤ 88761
    → (cfs_sched_latency s ≡ period s.nr_running)
      × (cfs_sched_latency s * w % u32_mod ≡ period s.nr_running * w)
unfolding cfs_sched_latency
latency-period s w r h = elim (Bool-cases (ltb 8 s.nr_running)) [
  | inl e ↦
      rw (e, cfs_sched_latency)
        (let e1 : 4 * s.nr_running % u32_mod ≡ 4 * s.nr_running = omega arith in
          (e1, ap (λ (n : ℕ). n * w % u32_mod) e1 ∙ product_fits s.nr_running w r h))
  | inr e ↦ rw (e, cfs_sched_latency) (refl, omega arith)
]

period_min : (running : ℕ) → 4 ≤ period running
period_min running = ground arith

-- The share, or the least slice.
clamp_share :
    {slice : Option ℕ} (l w load : ℕ)
    → (l * w / load * load ≤ l * w) × (l * w / load ≤ l)
    → 4 ≤ l
    → slice ≡ some (at_least_granularity (l * w / load))
    → (n : ℕ) × (slice ≡ some n) × (4 ≤ n) × (n ≤ l) × ((n ≡ 4) ⊎ (n * load ≤ l * w))
unfolding at_least_granularity
clamp_share l w load part more e = elim (Bool-cases (ltb (l * w / load) 4)) [
  | inl f ↦ (4, rw e (rw (f, at_least_granularity) refl), omega arith, more, inl refl)
  | inr f ↦
      (l * w / load, rw e (rw (f, at_least_granularity) refl), ground arith, part.1, inr part.0)
]

-- In a well formed run queue the slice of a task with a weight of at most 88761 and at most
-- load_weight is a number from 4 to the period, which is 20 ticks, or 4 for each running task if
-- there are more than 8. It is 4 or at most the share of the period that the task's weight has in
-- load_weight, without wrap-around.
pub timeslice-share :
    (a : ℕ) (s : Cfs)
    → WellFormed s
    → (s.task_pool a).weight ≤ 88761
    → (s.task_pool a).weight ≤ s.load_weight
    → (slice : ℕ) × (cfs_timeslice a s ≡ some slice)
      × (4 ≤ slice)
      × (slice ≤ period s.nr_running)
      × ((slice ≡ 4) ⊎ (slice * s.load_weight ≤ period s.nr_running * (s.task_pool a).weight))
unfolding cfs_timeslice at_least_granularity
timeslice-share a s (t, o, l) light own = elim (Bool-cases (s.nr_running == 0)) [
  | inl e ↦
      let bounds = sum_weights_bounds s.task_pool s.tasks_timeline t.queued in
      let high = l.high in
      let listed = l.listed in
      let idle : s.nr_running ≡ 0 = ground arith in
      let none_loaded : 20 * s.load_weight ≡ 0 = omega arith in
      (
        target_latency,
        rw (e, cfs_timeslice) refl,
        omega arith,
        ground arith,
        inr (rw none_loaded (omega arith)),
      )
  | inr e ↦
      let bounds = sum_weights_bounds s.task_pool s.tasks_timeline t.queued in
      let low = l.low in
      let busy : (s.load_weight == 0) ≡ false = ground arith in
      let fit = latency-period s (s.task_pool a).weight (omega arith) light in
      let part =
        share (period s.nr_running) (s.task_pool a).weight s.load_weight (ground arith) own in
      clamp_share (period s.nr_running) (s.task_pool a).weight s.load_weight part (period_min _)
        (rw (e, busy, cfs_timeslice, fit.1) refl)
]
