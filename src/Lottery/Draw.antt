-- ===== src/Lottery/Draw.antt =====
-- Who wins a lottery: lottery_draw, random_range and the walk over the pool.
use native.Mathlib.Decide.{dec_lt}
use native.Mathlib.Nat.{mod-lt}
use mathlib.Core.List.{append_assoc}
use scheduler_module.Base.{
  ℕ, ◌+◌, ◌-◌, ◌≤◌, ◌<◌, ◌^◌, ℤ, true, false, ◌≡◌, refl, inl, inr, some, List, [], ◌∷◌, ◌++◌, ◌||◌,
  ◌==◌, arith, All, inc64, u32_mod, Bool-cases, is_some, eqz_iff, ap, subst, ◌∙◌, is_neg,
}
use scheduler_module.Kernel.{Kernel}
use scheduler_module.Lottery.{
  Lottery, lottery_draw, record_win, find_winner, is_nil, random_range, random_next,
  lottery_schedule, keeps_running, dispatch_winner, lottery_is_participant,
}
use scheduler_module.Lottery.Pool.{Entry, find_entry, draw_walk}
use scheduler_module.Lottery.Totals.{tickets, IsConsistent}

-- The entry after a win.
abbrev pub won : Entry → Entry
won e = record e { wins = inc64 e.wins }

-- The ticket that the next lottery draws.
unfoldable pub winning_ticket : Lottery → ℕ
winning_ticket s = (random_range s.random_state s.total_tickets).0

random_range-lt : (st max : ℕ) → 0 < max → (random_range st max).0 < max
unfolding random_range
random_range-lt st max h = ground (arith, mod-lt (random_next st).0 h)

random_next-lt_bits : (st : ℕ) → (random_next st).0 < 2 ^ 15
unfolding random_next
random_next-lt_bits st = omega arith

-- random_next has 15 bits, and so has random_range.
random_range-lt_bits : (st max : ℕ) → (random_range st max).0 < 2 ^ 15
unfolding random_range
random_range-lt_bits st max = ground (arith, random_next-lt_bits st)

draw_walk-split :
    (w c : ℕ) (xs ys : List Entry) (e : Entry)
    → c + tickets (xs ++ e ∷ ys) < u32_mod
    → c + tickets xs ≤ w
    → w < c + tickets xs + e.current_tickets
    → draw_walk w c (xs ++ e ∷ ys) ≡ some (e.pid, xs ++ won e ∷ ys)
unfolding draw_walk tickets
draw_walk-split w c [] ys e total lo hi = ground arith
draw_walk-split w c (x ∷ xs) ys e total lo hi =
    ground (arith, draw_walk-split w (c + x.current_tickets) xs ys e)

-- The numbered tickets: those of the entries in order. An entry with the tickets from t up to
-- t + current_tickets is at the place that splits the pool so.
pub record Holds (es : List Entry) (w : ℕ) : Type 0 where
  pub before : List Entry
  pub holder : Entry
  pub after : List Entry
  pub split : es ≡ before ++ holder ∷ after
  pub lower : tickets before ≤ w
  pub upper : w < tickets before + holder.current_tickets

holder_of : (es : List Entry) (w : ℕ) → w < tickets es → Holds es w
unfolding tickets
holder_of [] w h = elim h [ ]
holder_of (e ∷ es) w h = elim (dec_lt w e.current_tickets) [
  | yes p ↦ record {
    before = [];
    holder = e;
    after = es;
    split = refl;
    lower = omega arith;
    upper = omega arith;
  }
  | no n ↦
      let r = holder_of es (w - e.current_tickets) (omega arith) in
      let lo = r.lower in
      let hi = r.upper in
      record {
        before = e ∷ r.before;
        holder = r.holder;
        after = r.after;
        split = ap (◌∷◌ e) r.split;
        lower = omega arith;
        upper = omega arith;
      }
]

is_nil-split : (xs ys : List Entry) (e : Entry) → is_nil (xs ++ e ∷ ys) ≡ false
unfolding is_nil
is_nil-split [] ys e = refl
is_nil-split (x ∷ xs) ys e = refl

tickets-ge :
    (xs ys : List Entry) (e : Entry) → tickets xs + e.current_tickets ≤ tickets (xs ++ e ∷ ys)
unfolding tickets
tickets-ge [] ys e = omega arith
tickets-ge (x ∷ xs) ys e = omega (arith, tickets-ge xs ys e)

find_winner-split :
    (w : ℕ) (xs ys : List Entry) (e : Entry)
    → tickets (xs ++ e ∷ ys) < u32_mod
    → tickets xs ≤ w
    → w < tickets xs + e.current_tickets
    → find_winner w (xs ++ e ∷ ys) ≡ some (e.pid, xs ++ won e ∷ ys)
unfolding find_winner
find_winner-split w xs ys e small lo hi =
    rw (draw_walk-split w 0 xs ys e (omega arith) (omega arith) (omega arith), find_winner)

-- The state after the entry has won.
pub after_win : Lottery → List Entry → Lottery
after_win s pool = record s {
  pool = pool;
  random_state = (random_range s.random_state s.total_tickets).1;
  stats = record (s.stats) { total_lotteries = inc64 s.stats.total_lotteries };
}

-- If total_tickets is the sum of the tickets of the pool and the sum is below 2 ^ 32, the entry
-- that holds the drawn ticket wins: lottery_draw returns its pid, its wins and the number of
-- lotteries grow by one, the random state is the next one, and nothing else changes.
pub lottery_draw-winner :
    (s : Lottery) (xs ys : List Entry) (e : Entry)
    → s.pool ≡ xs ++ e ∷ ys
    → s.total_tickets ≡ tickets s.pool
    → tickets s.pool < u32_mod
    → tickets xs ≤ winning_ticket s
    → winning_ticket s < tickets xs + e.current_tickets
    → lottery_draw s ≡ (e.pid, after_win s (xs ++ won e ∷ ys))
unfolding winning_ticket after_win lottery_draw record_win
lottery_draw-winner s xs ys e split total small lo hi =
    let w = (random_range s.random_state s.total_tickets).0 in
    let drawn : find_winner w s.pool ≡ some (e.pid, xs ++ won e ∷ ys) =
      rw split (find_winner-split w xs ys e (rw split at small) lo hi) in
    let sum = tickets-ge xs ys e in
    let open_pool : (is_nil s.pool || (s.total_tickets == 0)) ≡ false =
      rw (total, split) (ground (arith, is_nil-split xs ys e)) in
    rw (open_pool, drawn, lottery_draw)

-- If total_tickets is the sum of the tickets, below 2 ^ 32, and the entries of a front part of the
-- pool hold 2 ^ 15 tickets or more together, then, whatever the random state, the winner is one of
-- them, and the entries behind them are left as they are.
pub lottery_draw-far :
    (s : Lottery) (xs ys : List Entry)
    → s.pool ≡ xs ++ ys
    → s.total_tickets ≡ tickets s.pool
    → tickets s.pool < u32_mod
    → 2 ^ 15 ≤ tickets xs
    → (h : Holds xs (winning_ticket s)) × (lottery_draw s
        ≡ (h.holder.pid, after_win s ((h.before ++ won h.holder ∷ h.after) ++ ys)))
unfolding winning_ticket
lottery_draw-far s xs ys split total small far =
    let bits = random_range-lt_bits s.random_state s.total_tickets in
    let h = holder_of xs (winning_ticket s) (omega arith) in
    let whole : s.pool ≡ h.before ++ h.holder ∷ (h.after ++ ys) =
      split ∙ ap (λ l. l ++ ys) h.split ∙ append_assoc h.before (h.holder ∷ h.after) ys in
    (
      h,
      rw (append_assoc h.before (won h.holder ∷ h.after) ys) (
          lottery_draw-winner s h.before (h.after ++ ys) h.holder whole total small h.lower
            h.upper),
    )

find_entry-split :
    (xs ys : List Entry) (e : Entry) → is_some (find_entry e.pid (xs ++ won e ∷ ys)) ≡ true
unfolding find_entry
find_entry-split [] ys e = ground (arith, eqz_iff e.pid e.pid)
find_entry-split (x ∷ xs) ys e = ground (arith, find_entry-split xs ys e)

All-split : (P : Entry → Type 0) (xs ys : List Entry) (e : Entry) → All P (xs ++ e ∷ ys) → P e
All-split P [] ys e a = a.0
All-split P (x ∷ xs) ys e a = All-split P xs ys e a.1

dispatch_winner-runs :
    (k : Kernel) (s : Lottery) (p : ℤ)
    → is_neg p ≡ false
    → is_some (find_entry p s.pool) ≡ true
    → let t = (dispatch_winner k p s).1 in
      (lottery_is_participant t.current_pid t ≡ true) × (0 < t.time_remaining)
unfolding dispatch_winner lottery_is_participant
dispatch_winner-runs k s p n found = ground (arith, eqz_iff p s.current_pid)

keeps_running-runs :
    (s : Lottery)
    → keeps_running s ≡ true
    → (lottery_is_participant s.current_pid s ≡ true) × (0 < s.time_remaining)
unfolding keeps_running lottery_is_participant
keeps_running-runs s h = ground arith

drawn_holder :
    (s : Lottery)
    → s.total_tickets ≡ tickets s.pool
    → 0 < tickets s.pool
    → Holds s.pool (winning_ticket s)
unfolding winning_ticket
drawn_holder s total h =
    holder_of s.pool (winning_ticket s)
      (let lt = random_range-lt s.random_state s.total_tickets (omega arith) in omega arith)

-- Over a consistent pool of processes with nonnegative pids that hold a ticket together, fewer
-- than 2 ^ 32, lottery_schedule leaves a participant running, with time remaining.
pub lottery_schedule-runs :
    (k : Kernel) (s : Lottery)
    → IsConsistent s
    → All (λ e. is_neg e.pid ≡ false) s.pool
    → 0 < tickets s.pool
    → tickets s.pool < u32_mod
    → let t = (lottery_schedule k s).1 in
      (lottery_is_participant t.current_pid t ≡ true) × (0 < t.time_remaining)
unfolding lottery_schedule after_win
lottery_schedule-runs k s c procs some_ticket small =
    let sum = c.total in
    let total : s.total_tickets ≡ tickets s.pool = omega arith in
    let h = drawn_holder s total some_ticket in
    let drawn =
      lottery_draw-winner s h.before h.after h.holder h.split total small h.lower h.upper in
    let runs =
      dispatch_winner-runs k _ h.holder.pid
        (All-split _ h.before h.after h.holder (subst (All _) h.split procs))
        (find_entry-split h.before h.after h.holder) in
    elim (Bool-cases (keeps_running s)) [
      | inl e ↦ rw (e, lottery_schedule) (keeps_running-runs s e)
      | inr e ↦ rw (e, drawn, lottery_schedule) runs
    ]
