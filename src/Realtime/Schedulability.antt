-- ===== src/Realtime/Schedulability.antt =====
-- realtime.c: the tests of schedulability on doubles, and realtime_get_stats for a pointer that is
-- not NULL.
use scheduler_module.Base.{ℕ, Bool, true, Option, some, ◌==◌, if◌then◌else◌}
use scheduler_module.Realtime.Tasks.{Algorithm, edf, rms, dms, llf}
use scheduler_module.Realtime.{Realtime, Floats, ◌>>=◌}
use scheduler_module.Realtime.Timing.{realtime_calc_utilization}

-- The other operations on doubles: the conversion, -, *, /, pow and <=.
pub record Doubles (F : Type 0) : Type 0 where
  pub floats : Floats F
  pub of_nat : ℕ → F
  pub minus : F → F → F
  pub times : F → F → F
  pub over : F → F → F
  pub power : F → F → F
  pub le : F → F → Bool

-- What realtime_get_stats writes to *s.
pub record Report (F : Type 0) : Type 0 where
  pub utilization : F
  pub schedulable : Bool
  pub schedulability_bound : F

module _ {F : Type 0} (d : Doubles F) where
  unfoldable pub edf_check_schedulability : ℕ → Realtime F → Option (Bool × Realtime F)
  edf_check_schedulability fuel s = do
    s1 ← realtime_calc_utilization (d.floats) fuel s
    some (d.le s1.utilization (d.of_nat 1), s1)

  unfoldable pub rms_utilization_bound : ℕ → F
  rms_utilization_bound n =
      if n == 0
      then d.of_nat 0
      else d.times (d.of_nat n)
          (d.minus (d.power (d.of_nat 2) (d.over (d.of_nat 1) (d.of_nat n))) (d.of_nat 1))

  -- The walk of realtime_calc_utilization has written stats.utilization.
  unfoldable pub record_bound : Realtime F → Bool × Realtime F
  record_bound s =
      let bound = rms_utilization_bound s.task_count in
      let fits = d.le s.utilization bound in
      (fits, record s { schedulability_bound = bound; schedulable = fits })

  unfoldable pub rms_check_schedulability : ℕ → Realtime F → Option (Bool × Realtime F)
  rms_check_schedulability fuel s =
      if s.task_count == 0
      then some (true, s)
      else realtime_calc_utilization (d.floats) fuel s >>= λ s1. some (record_bound s1)

  unfoldable pub check_for : ℕ → Algorithm → Realtime F → Option (Bool × Realtime F)
  check_for fuel edf s = edf_check_schedulability fuel s
  check_for fuel rms s = rms_check_schedulability fuel s
  check_for fuel dms s = edf_check_schedulability fuel s
  check_for fuel llf s = edf_check_schedulability fuel s

  unfoldable pub realtime_is_schedulable : ℕ → Realtime F → Option (Bool × Realtime F)
  realtime_is_schedulable fuel s = check_for fuel s.current_algo s

  unfoldable pub bound_for : Algorithm → ℕ → F
  bound_for rms n = rms_utilization_bound n
  bound_for edf n = d.of_nat 1
  bound_for dms n = d.of_nat 1
  bound_for llf n = d.of_nat 1

  unfoldable pub realtime_get_stats : ℕ → Realtime F → Option (Report F × Realtime F)
  realtime_get_stats fuel s = do
    s1 ← realtime_calc_utilization (d.floats) fuel s
    (fits, s2) ← realtime_is_schedulable fuel s1
    some (
      record {
        utilization = s1.utilization;
        schedulable = fits;
        schedulability_bound = bound_for s2.current_algo s2.task_count;
      },
      s2,
    )
