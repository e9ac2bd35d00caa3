-- ===== src/Lottery/Rewrites.antt =====
-- The operations of lottery.c that walk the whole pool, and those that change only the counters of
-- wins, keep the pool consistent.
use scheduler_module.Base.{
  pos, negsuc, ℕ, ℤ, is_neg, ◌≡◌, refl, inl, inr, none, some, List, [], ◌||◌, ◌==◌, ◌∷◌, arith,
  length, All, add32, Option-cases, Bool-cases, ltb, if◌then◌else◌, Option,
}
use scheduler_module.Kernel.{Kernel}
use scheduler_module.Lottery.{
  Lottery, lottery_schedule, keeps_running, dispatch_winner, lottery_draw, record_win, find_winner,
  first_wins, is_nil, random_range, lottery_preempt, lottery_tick, count_down, hold_tickets,
  lottery_reset_stats,
}
use scheduler_module.Lottery.Pool.{Entry, update_entry, draw_walk, clear_wins}
use scheduler_module.Lottery.Totals.{tickets, IsValidEntry, Absent, Distinct, IsConsistent}

-- Entry by entry the same, but for the counters of wins and of tickets held.
abbrev pub SameTickets : List Entry → List Entry → Type 0
SameTickets [] [] = Unit {0}
SameTickets [] (y ∷ ys) = ⊥
SameTickets (x ∷ xs) [] = ⊥
SameTickets (x ∷ xs) (y ∷ ys) =
    (y.pid ≡ x.pid)
    × (y.base_tickets ≡ x.base_tickets)
    × (y.current_tickets ≡ x.current_tickets)
    × (y.compensation ≡ x.compensation)
    × SameTickets xs ys

pub SameTickets-refl : (xs : List Entry) → SameTickets xs xs
SameTickets-refl [] = tt
SameTickets-refl (x ∷ xs) = (refl, refl, refl, refl, SameTickets-refl xs)

module _ where
  tickets-same : (xs ys : List Entry) → SameTickets xs ys → tickets ys ≡ tickets xs
  unfolding tickets
  tickets-same [] [] h = refl
  tickets-same [] (y ∷ ys) h = absurd h
  tickets-same (x ∷ xs) [] h = absurd h
  tickets-same (x ∷ xs) (y ∷ ys) h = omega (arith, tickets-same xs ys h.4)

  length-same : (xs ys : List Entry) → SameTickets xs ys → length ys ≡ length xs
  length-same [] [] h = refl
  length-same [] (y ∷ ys) h = absurd h
  length-same (x ∷ xs) [] h = absurd h
  length-same (x ∷ xs) (y ∷ ys) h = omega (arith, length-same xs ys h.4)

  valid-same : (xs ys : List Entry) → SameTickets xs ys → All IsValidEntry xs → All IsValidEntry ys
  valid-same [] [] h a = tt
  valid-same [] (y ∷ ys) h a = absurd h
  valid-same (x ∷ xs) [] h a = absurd h
  valid-same (x ∷ xs) (y ∷ ys) h a = (ground arith, valid-same xs ys h.4 a.1)

  Absent-same : (p : ℤ) (xs ys : List Entry) → SameTickets xs ys → Absent p xs → Absent p ys
  Absent-same p [] [] h a = tt
  Absent-same p [] (y ∷ ys) h a = absurd h
  Absent-same p (x ∷ xs) [] h a = absurd h
  Absent-same p (x ∷ xs) (y ∷ ys) h a = (rw h.0 a.0, Absent-same p xs ys h.4 a.1)

  Distinct-same : (xs ys : List Entry) → SameTickets xs ys → Distinct xs → Distinct ys
  Distinct-same [] [] h d = tt
  Distinct-same [] (y ∷ ys) h d = absurd h
  Distinct-same (x ∷ xs) [] h d = absurd h
  Distinct-same (x ∷ xs) (y ∷ ys) h d =
      (rw h.0 (Absent-same x.pid xs ys h.4 d.0), Distinct-same xs ys h.4 d.1)

-- A change of the pool and of fields that consistency does not read.
pub replace_pool :
    (s t : Lottery)
    → SameTickets s.pool t.pool
    → t.total_tickets ≡ s.total_tickets
    → t.participant_count ≡ s.participant_count
    → t.free_entries ≡ s.free_entries
    → IsConsistent s
    → IsConsistent t
replace_pool s t same h1 h2 h3 c = record {
  total = rw (h1, tickets-same s.pool t.pool same) c.total;
  count = rw (h2, length-same s.pool t.pool same) c.count;
  room = rw (h3, length-same s.pool t.pool same) c.room;
  entries = valid-same s.pool t.pool same c.entries;
  distinct = Distinct-same s.pool t.pool same c.distinct;
}

pub draw_walk-SameTickets :
    (w c : ℕ) (es : List Entry) (p : ℤ) (r : List Entry)
    → draw_walk w c es ≡ some (p, r)
    → SameTickets es r
unfolding draw_walk
draw_walk-SameTickets w c [] p r h = absurd (ground arith)
draw_walk-SameTickets w c (e ∷ es) p r h =
    elim (Option-cases (draw_walk w (add32 c e.current_tickets) es)) [
      | inl g ↦ ground (arith, SameTickets-refl es)
      | inr (a, g) ↦ ground (
        arith,
        SameTickets-refl es,
        draw_walk-SameTickets w (add32 c e.current_tickets) es a.0 a.1,
      )
    ]

update-SameTickets : (p : ℤ) (es : List Entry) → SameTickets es (update_entry p hold_tickets es)
unfolding update_entry hold_tickets
update-SameTickets p [] = tt
update-SameTickets p (e ∷ es) = ground (arith, SameTickets-refl es, update-SameTickets p es)

clear_wins-SameTickets : (es : List Entry) → SameTickets es (clear_wins es)
unfolding clear_wins
clear_wins-SameTickets [] = tt
clear_wins-SameTickets (e ∷ es) = (refl, refl, refl, refl, clear_wins-SameTickets es)

first_wins-SameTickets :
    (es : List Entry) (p : ℤ) (r : List Entry) → first_wins es ≡ some (p, r) → SameTickets es r
unfolding first_wins
first_wins-SameTickets [] p r h = absurd (ground arith)
first_wins-SameTickets (e ∷ es) p r h = ground (arith, SameTickets-refl es)

find_winner-SameTickets :
    (w : ℕ) (es : List Entry) (p : ℤ) (r : List Entry)
    → find_winner w es ≡ some (p, r)
    → SameTickets es r
unfolding find_winner
find_winner-SameTickets w es p r h =
    ground (arith, draw_walk-SameTickets w 0 es p r, first_wins-SameTickets es p r)

record_win-IsConsistent :
    (s : Lottery) (o : Option (ℤ × List Entry))
    → ((p : ℤ) (r : List Entry) → o ≡ some (p, r) → SameTickets s.pool r)
    → IsConsistent s
    → IsConsistent (record_win s o).1
unfolding record_win
record_win-IsConsistent s none same c = c
record_win-IsConsistent s (some (p, r)) same c = replace_pool s _ (same p r refl) refl refl refl c

pub lottery_draw-IsConsistent : (s : Lottery) → IsConsistent s → IsConsistent (lottery_draw s).1
unfolding lottery_draw
lottery_draw-IsConsistent s c =
    let (w, st) = random_range s.random_state s.total_tickets in
    let s' : Lottery = record s { random_state = st } in
    let drawn =
      record_win-IsConsistent s' (find_winner w s.pool)
        (λ p r e. find_winner-SameTickets w s.pool p r e)
        (replace_pool s s' (SameTickets-refl s.pool) refl refl refl c) in
    elim (Bool-cases (is_nil s.pool || (s.total_tickets == 0))) [
      | inl e ↦ rw (e, lottery_draw) c
      | inr e ↦ rw (e, lottery_draw) drawn
    ]

dispatch_winner-IsConsistent :
    (k : Kernel) (p : ℤ) (s : Lottery) → IsConsistent s → IsConsistent (dispatch_winner k p s).1
unfolding dispatch_winner
dispatch_winner-IsConsistent k p s c = ground (arith, c)

pub lottery_schedule-IsConsistent :
    (k : Kernel) (s : Lottery) → IsConsistent s → IsConsistent (lottery_schedule k s).1
unfolding lottery_schedule
lottery_schedule-IsConsistent k s c =
    let (p, s') = lottery_draw s in
    let drawn = dispatch_winner-IsConsistent k p s' (lottery_draw-IsConsistent s c) in
    elim (Bool-cases (keeps_running s)) [
      | inl e ↦ rw (e, lottery_schedule) c
      | inr e ↦ rw (e, lottery_schedule) drawn
    ]

pub lottery_preempt-IsConsistent :
    (k : Kernel) (s : Lottery) → IsConsistent s → IsConsistent (lottery_preempt k s).1
unfolding lottery_preempt
lottery_preempt-IsConsistent k s c =
    lottery_schedule-IsConsistent k _ (replace_pool s _ (SameTickets-refl s.pool) refl refl refl c)

count_down-IsConsistent : (s : Lottery) → IsConsistent s → IsConsistent (count_down s)
unfolding count_down
count_down-IsConsistent s c = elim (Bool-cases (ltb 0 s.time_remaining)) [
  | inl e ↦ rw (e, count_down) (replace_pool s _ (held s.current_pid) refl refl refl c)
  | inr e ↦ rw (e, count_down) c
]
  where
    held :
        (p : ℤ)
        → SameTickets s.pool (if is_neg p then s.pool else update_entry p hold_tickets s.pool)
    held (pos n) = update-SameTickets (pos n) s.pool
    held (negsuc n) = SameTickets-refl s.pool

pub lottery_tick-IsConsistent :
    (k : Kernel) (s : Lottery) → IsConsistent s → IsConsistent (lottery_tick k s).1
unfolding lottery_tick
lottery_tick-IsConsistent k s c =
    let c' = count_down-IsConsistent s c in
    let drawn = lottery_schedule-IsConsistent k (count_down s) c' in
    elim (Bool-cases ((count_down s).time_remaining == 0)) [
      | inl e ↦ rw (e, lottery_tick) drawn
      | inr e ↦ rw (e, lottery_tick) c'
    ]

pub lottery_reset_stats-IsConsistent :
    (s : Lottery) → IsConsistent s → IsConsistent (lottery_reset_stats s)
unfolding lottery_reset_stats
lottery_reset_stats-IsConsistent s c =
    replace_pool s _ (clear_wins-SameTickets s.pool) refl refl refl c
