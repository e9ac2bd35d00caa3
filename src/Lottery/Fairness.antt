-- ===== src/Lottery/Fairness.antt =====
-- lottery_fairness_index of lottery.c, over an interface of doubles. No function reads
-- `stats.fairness_index`, which lottery_init and lottery_reset_stats set to 1.0: it is not part of
-- the state, and what this function writes to it is a result.
use scheduler_module.Base.{
  ℕ, Bool, Option, none, some, List, [], ◌∷◌, ltb, ◌==◌, ◌||◌, if◌then◌else◌,
}
use scheduler_module.Lottery.{Lottery}
use scheduler_module.Lottery.Pool.{Entry}

-- The conversion, +, *, /, > 0 and == 0.0.
pub record Doubles (F : Type 0) : Type 0 where
  pub of_nat : ℕ → F
  pub plus : F → F → F
  pub times : F → F → F
  pub over : F → F → F
  pub is_positive : F → Bool
  pub is_zero : F → Bool

module _ {F : Type 0} (d : Doubles F) where
  -- The actual share of an entry by its expected share.
  unfoldable pub share_ratio : Lottery → Entry → F
  share_ratio s e =
      let expected_share = d.over (d.of_nat e.current_tickets) (d.of_nat s.total_tickets) in
      let actual_share = d.over (d.of_nat e.wins) (d.of_nat s.stats.total_lotteries) in
      if d.is_positive expected_share then d.over actual_share expected_share else d.of_nat 0

  -- The sums of the ratios and of their squares.
  unfoldable pub ratio_walk : Lottery → F → F → List Entry → F × F
  ratio_walk s sum sum_sq [] = (sum, sum_sq)
  ratio_walk s sum sum_sq (e ∷ es) =
      let ratio = share_ratio s e in
      ratio_walk s (d.plus sum ratio) (d.plus sum_sq (d.times ratio ratio)) es

  unfoldable pub fairness_of : ℕ → F × F → F × Option F
  fairness_of participants (sum, sum_sq) =
      if d.is_zero sum_sq
      then (d.of_nat 1, none)
      else let index = d.over (d.times sum sum) (d.times (d.of_nat participants) sum_sq) in
        (index, some index)

  -- What is returned, and what is written to stats.fairness_index, if anything.
  unfoldable pub lottery_fairness_index : Lottery → F × Option F
  lottery_fairness_index s =
      if ltb s.participant_count 2 || s.stats.total_lotteries == 0
      then (d.of_nat 1, none)
      else fairness_of s.participant_count (ratio_walk s (d.of_nat 0) (d.of_nat 0) s.pool)
