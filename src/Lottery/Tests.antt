-- ===== src/Lottery/Tests.antt =====
-- The theorems on lottery.c at concrete states.
use scheduler_module.Base.{
  ℕ, ◌+◌, ◌-◌, ◌*◌, ◌/◌, ◌%◌, ◌≤◌, ◌<◌, pos, eqz, false, true, leb, ◌≡◌, refl, List, [], ◌∷◌,
  if◌then◌else◌, arith, All, u32_mod,
}
use scheduler_module.Kernel.{Kernel, pr_curr, pr_ready}
use scheduler_module.Lottery.{
  Lottery, lottery_init, lottery_draw, lottery_schedule, lottery_is_participant, lottery_validate,
  random_next, random_range,
}
use scheduler_module.Lottery.Pool.{Entry, find_entry}
use scheduler_module.Lottery.Tickets.{Floats, lottery_transfer_tickets, lottery_compensate}
use scheduler_module.Lottery.Totals.{tickets, IsValidEntry, IsConsistent}
use scheduler_module.Lottery.Draw.{
  won, winning_ticket, after_win, lottery_draw-winner, lottery_schedule-runs,
}
use scheduler_module.Lottery.Transfer.{
  Transferred, lottery_transfer_tickets-Transferred, lottery_compensate-drifts,
}
use scheduler_module.Lottery.Calls.{
  Call, draw, shutdown, enqueue, dequeue, set_tickets, transfer_tickets, inflate, schedule, tick,
  run, run-init-valid,
}

-- Doubles that keep only the whole part.
abbrev whole_numbers : Floats
whole_numbers = record {
  Float = ℕ;
  of_nat = λ n. n;
  sub = λ a b. a - b;
  mul = λ a b. a * b;
  div = λ a b. a / b;
  le = leb;
  to_u32 = λ a. a % u32_mod;
  to_u32-lt = λ a. omega arith;
}

abbrev kernel : Kernel
kernel = record {
  proctab = λ i. record { pstate = if eqz i (pos 1) then pr_curr else pr_ready; pprio = 50 };
  currpid = pos 1;
  need_resched = false;
  switches = [];
}

abbrev entry : ℕ → ℕ → Entry
entry p n = record {
  pid = pos p;
  base_tickets = n;
  current_tickets = n;
  compensation = 0;
  wins = 0;
  total_tickets_held = 0;
}

abbrev two : Lottery
two = record lottery_init {
  pool = entry 1 10 ∷ entry 2 20 ∷ [];
  total_tickets = 30;
  participant_count = 2;
  free_entries = 254;
}

abbrev some_calls : List (Call ℕ)
some_calls =
    enqueue (pos 1)
    ∷ enqueue (pos 2)
    ∷ set_tickets (pos 2) 70
    ∷ transfer_tickets (pos 2) (pos 1) 30
    ∷ inflate 2
    ∷ schedule
    ∷ tick
    ∷ dequeue (pos 1)
    ∷ draw
    ∷ shutdown
    ∷ []

entry-IsValid : (p n : ℕ) → 0 < n → n ≤ 10000 → IsValidEntry (entry p n)
entry-IsValid p n lo hi = record {
  base_pos = lo;
  base_le = hi;
  compensation_lt = omega arith;
  current = omega arith;
}

two-valid : All IsValidEntry two.pool
two-valid = (
  entry-IsValid 1 10 (omega arith) (omega arith),
  (entry-IsValid 2 20 (omega arith) (omega arith), tt),
)

two-IsConsistent : IsConsistent two
unfolding tickets lottery_init
two-IsConsistent = record {
  total = omega arith;
  count = refl;
  room = refl;
  entries = two-valid;
  distinct = ((ground arith, tt), (tt, tt));
}

lottery_draw-winner_example :
    lottery_draw two ≡ (pos 1, after_win two (won (entry 1 10) ∷ entry 2 20 ∷ []))
unfolding tickets winning_ticket random_range random_next lottery_init
lottery_draw-winner_example =
    lottery_draw-winner two [] (entry 2 20 ∷ []) (entry 1 10) refl (omega arith) (omega arith)
      (omega arith) (omega arith)

lottery_schedule-runs_example :
    let t = (lottery_schedule kernel two).1 in
    (lottery_is_participant t.current_pid t ≡ true) × (0 < t.time_remaining)
unfolding tickets
lottery_schedule-runs_example =
    lottery_schedule-runs kernel two two-IsConsistent (refl, (refl, tt)) (omega arith) (omega arith)

lottery_transfer_tickets-Transferred_example :
    Transferred
      (pos 1)
      (pos 2)
      4
      (entry 1 10)
      (entry 2 20)
      two
      (lottery_transfer_tickets (pos 1) (pos 2) 4 two)
unfolding find_entry eqz
lottery_transfer_tickets-Transferred_example =
    lottery_transfer_tickets-Transferred (pos 1) (pos 2) 4 (entry 1 10) (entry 2 20) two
      (ground arith) two-valid refl refl

lottery_compensate-drifts_example :
    let t = lottery_compensate whole_numbers (pos 1) 1 two in
    (t.total_tickets ≡ (tickets t.pool + 10) % u32_mod) × (¬ IsConsistent t)
unfolding find_entry eqz lottery_init
lottery_compensate-drifts_example =
    lottery_compensate-drifts whole_numbers (pos 1) 1 two (entry 1 10) refl refl two-IsConsistent

run-init-valid_example :
    let s = (run whole_numbers (kernel, lottery_init) some_calls).1 in
    IsConsistent s × (lottery_validate s ≡ true)
run-init-valid_example = run-init-valid whole_numbers kernel some_calls
