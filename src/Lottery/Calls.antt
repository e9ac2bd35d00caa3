-- ===== src/Lottery/Calls.antt =====
-- Sequences of calls of lottery.c, and lottery_validate.
use scheduler_module.Base.{
  ℕ, ◌%◌, ◌≤◌, ℤ, Bool, true, ◌≡◌, refl, ◌↔◌, List, [], ◌∷◌, arith, length, All, add32, u32_mod,
}
use scheduler_module.Kernel.{Kernel}
use scheduler_module.Lottery.{
  Lottery, lottery_init, lottery_shutdown, lottery_draw, lottery_enqueue, lottery_dequeue,
  lottery_schedule, lottery_preempt, lottery_tick, lottery_reset_stats, lottery_set_seed,
  lottery_validate,
}
use scheduler_module.Lottery.Pool.{Entry, entries_valid, entry_valid, min_tickets, max_tickets}
use scheduler_module.Lottery.Tickets.{
  Floats, lottery_set_tickets, lottery_add_tickets, lottery_remove_tickets,
  lottery_transfer_tickets, lottery_compensation_enable, lottery_inflate,
}
use scheduler_module.Lottery.Totals.{
  tickets, IsValidEntry, IsConsistent, sum_tickets-tickets, count_entries-length,
}
use scheduler_module.Lottery.Consistency.{
  lottery_init-IsConsistent, lottery_shutdown-IsConsistent, lottery_enqueue-IsConsistent,
  lottery_dequeue-IsConsistent, lottery_set_tickets-IsConsistent, lottery_add_tickets-IsConsistent,
  lottery_remove_tickets-IsConsistent, lottery_transfer_tickets-IsConsistent,
}
use scheduler_module.Lottery.Rewrites.{
  SameTickets-refl, replace_pool, lottery_draw-IsConsistent, lottery_schedule-IsConsistent,
  lottery_preempt-IsConsistent, lottery_tick-IsConsistent, lottery_reset_stats-IsConsistent,
}
use scheduler_module.Lottery.Recounts.{
  lottery_compensation_enable-IsConsistent, lottery_inflate-IsConsistent,
}

-- What lottery_validate checks: legal bases, current_tickets = base + compensation on 32 bits, and
-- both counters.
abbrev pub Checked : Entry → Type 0
Checked e =
    (min_tickets ≤ e.base_tickets)
    × (e.base_tickets ≤ max_tickets)
    × (e.current_tickets ≡ add32 e.base_tickets e.compensation)

entry_valid_iff : (e : Entry) → (entry_valid e ≡ true) ↔ Checked e
unfolding entry_valid
entry_valid_iff e = (ground arith, ground arith)

entries_valid→All : (es : List Entry) → entries_valid es ≡ true → All Checked es
unfolding entries_valid
entries_valid→All [] h = tt
entries_valid→All (e ∷ es) h =
    ((entry_valid_iff e).0 (ground arith), entries_valid→All es (ground arith))

All→entries_valid : (es : List Entry) → All Checked es → entries_valid es ≡ true
unfolding entries_valid
All→entries_valid [] a = refl
All→entries_valid (e ∷ es) a = rw ((entry_valid_iff e).1 a.0, All→entries_valid es a.1)

-- lottery_validate returns true exactly if every entry has a legal base and the tickets of its
-- base and compensation, total_tickets is the sum of the tickets on 32 bits, and participant_count
-- is the length of the list on 32 bits.
pub lottery_validate_iff :
    (s : Lottery)
    → (lottery_validate s ≡ true) ↔ (
        All Checked s.pool
        × (s.total_tickets ≡ tickets s.pool % u32_mod)
        × (s.participant_count ≡ length s.pool % u32_mod))
unfolding lottery_validate
lottery_validate_iff s =
    let sum = sum_tickets-tickets 0 s.pool (omega arith) in
    let count = count_entries-length 0 s.pool (omega arith) in
    (
      λ h. (entries_valid→All s.pool (ground arith), ground arith, ground arith),
      λ a. rw (All→entries_valid s.pool a.0) (ground arith),
    )

All-Checked : (es : List Entry) → All IsValidEntry es → All Checked es
All-Checked [] a = tt
All-Checked (e ∷ es) a = ((a.0.base_pos, a.0.base_le, a.0.current), All-Checked es a.1)

-- The calls of the scheduler, with their arguments, except lottery_compensate and lottery_yield.
pub data Call (F : Type 0) : Type 0 where
  enqueue dequeue : ℤ → Call F
  set_tickets add_tickets remove_tickets : ℤ → ℕ → Call F
  transfer_tickets : ℤ → ℤ → ℕ → Call F
  compensation_enable : Bool → Call F
  inflate : F → Call F
  set_seed : ℕ → Call F
  init shutdown draw schedule preempt tick reset_stats : Call F

module _ (fl : Floats) where
  unfoldable pub step : Kernel × Lottery → Call fl.Float → Kernel × Lottery
  step (k, s) (enqueue p) = (k, lottery_enqueue p s)
  step (k, s) (dequeue p) = (k, lottery_dequeue p s)
  step (k, s) (set_tickets p n) = (k, (lottery_set_tickets p n s).1)
  step (k, s) (add_tickets p n) = (k, lottery_add_tickets p n s)
  step (k, s) (remove_tickets p n) = (k, lottery_remove_tickets p n s)
  step (k, s) (transfer_tickets p q n) = (k, (lottery_transfer_tickets p q n s).1)
  step (k, s) (compensation_enable b) = (k, lottery_compensation_enable b s)
  step (k, s) (inflate x) = (k, lottery_inflate fl x s)
  step (k, s) (set_seed n) = (k, lottery_set_seed n s)
  step (k, s) init = (k, lottery_init)
  step (k, s) shutdown = (k, lottery_shutdown s)
  step (k, s) draw = (k, (lottery_draw s).1)
  step (k, s) schedule = lottery_schedule k s
  step (k, s) preempt = lottery_preempt k s
  step (k, s) tick = lottery_tick k s
  step (k, s) reset_stats = (k, lottery_reset_stats s)

  unfoldable pub run : Kernel × Lottery → List (Call fl.Float) → Kernel × Lottery
  run w [] = w
  run w (c ∷ cs) = run (step w c) cs

  step-IsConsistent :
      (k : Kernel) (s : Lottery) (c : Call fl.Float)
      → IsConsistent s
      → IsConsistent (step (k, s) c).1
  unfolding step lottery_set_seed
  step-IsConsistent k s (enqueue p) i = lottery_enqueue-IsConsistent p s i
  step-IsConsistent k s (dequeue p) i = lottery_dequeue-IsConsistent p s i
  step-IsConsistent k s (set_tickets p n) i = lottery_set_tickets-IsConsistent p n s i
  step-IsConsistent k s (add_tickets p n) i = lottery_add_tickets-IsConsistent p n s i
  step-IsConsistent k s (remove_tickets p n) i = lottery_remove_tickets-IsConsistent p n s i
  step-IsConsistent k s (transfer_tickets p q n) i = lottery_transfer_tickets-IsConsistent p q n s i
  step-IsConsistent k s (compensation_enable b) i = lottery_compensation_enable-IsConsistent b s i
  step-IsConsistent k s (inflate x) i = lottery_inflate-IsConsistent fl x s i
  step-IsConsistent k s (set_seed n) i = replace_pool s _ (SameTickets-refl s.pool) refl refl refl i
  step-IsConsistent k s init i = lottery_init-IsConsistent
  step-IsConsistent k s shutdown i = lottery_shutdown-IsConsistent s i
  step-IsConsistent k s draw i = lottery_draw-IsConsistent s i
  step-IsConsistent k s schedule i = lottery_schedule-IsConsistent k s i
  step-IsConsistent k s preempt i = lottery_preempt-IsConsistent k s i
  step-IsConsistent k s tick i = lottery_tick-IsConsistent k s i
  step-IsConsistent k s reset_stats i = lottery_reset_stats-IsConsistent s i

  run-IsConsistent :
      (k : Kernel) (s : Lottery) (cs : List (Call fl.Float))
      → IsConsistent s
      → IsConsistent (run (k, s) cs).1
  unfolding run
  run-IsConsistent k s [] i = i
  run-IsConsistent k s (c ∷ cs) i =
      let (k', s') = step (k, s) c in run-IsConsistent k' s' cs (step-IsConsistent k s c i)

  -- After lottery_init and any calls of the functions that change the state, lottery_init,
  -- lottery_shutdown and lottery_draw among them, but of lottery_compensate and lottery_yield, the
  -- pool is consistent and lottery_validate returns true.
  pub run-init-valid :
      (k : Kernel) (cs : List (Call fl.Float))
      → let s = (run (k, lottery_init) cs).1 in IsConsistent s × (lottery_validate s ≡ true)
  run-init-valid k cs =
      let s = (run (k, lottery_init) cs).1 in
      let c = run-IsConsistent k lottery_init cs lottery_init-IsConsistent in
      let room = c.room in
      let count = c.count in
      (c, (lottery_validate_iff s).1 (All-Checked s.pool c.entries, c.total, omega arith))
