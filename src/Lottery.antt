-- ===== src/Lottery.antt =====
-- lottery.c: the state of the lottery scheduler and its operations. The free list of the 256 pool
-- entries is its length; `fairness_index`, the one double in the state, is left out.
pub mod Pool
pub mod Tickets
pub mod Totals
pub mod Consistency
pub mod Rewrites
pub mod Recounts
pub mod Draw
pub mod Fairness
pub mod Transfer
pub mod Calls
mod Tests
use scheduler_module.Base.{
  ℕ, zero, suc, ◌+◌, ◌-◌, ◌*◌, ◌/◌, ◌%◌, ◌^◌, ℤ, eqz, is_neg, minus_one, Bool, true, false, ◌&&◌,
  ◌||◌, not, Option, none, some, List, [], ◌∷◌, ltb, leb, ◌==◌, if◌then◌else◌, is_some, add32,
  sub32, inc32, dec32, add64, inc64, u32_mod,
}
use scheduler_module.Kernel.{Kernel, context_switch}
use Pool.{
  Entry, find_entry, update_entry, unlink, sum_tickets, count_entries, draw_walk, drop_compensation,
  clear_wins, entries_valid, min_tickets, max_tickets, default_tickets,
}

pub record LotteryStats : Type 0 where
  pub total_lotteries : ℕ
  pub total_tickets : ℕ
  pub participant_count : ℕ
  pub tickets_transferred : ℕ
  pub compensation_given : ℕ

pub record Lottery : Type 0 where
  pub pool : List Entry
  pub total_tickets : ℕ
  pub participant_count : ℕ
  pub compensation_enabled : Bool
  pub current_pid : ℤ
  pub time_remaining : ℕ
  pub stats : LotteryStats
  pub random_state : ℕ
  pub free_entries : ℕ

abbrev pub max_entries : ℕ
max_entries = 256

abbrev pub default_quantum : ℕ
default_quantum = 10

abbrev pub zero_stats : LotteryStats
zero_stats = record {
  total_lotteries = 0;
  total_tickets = 0;
  participant_count = 0;
  tickets_transferred = 0;
  compensation_given = 0;
}

unfoldable pub lottery_init : Lottery
lottery_init = record {
  pool = [];
  total_tickets = 0;
  participant_count = 0;
  compensation_enabled = true;
  current_pid = minus_one;
  time_remaining = 0;
  stats = zero_stats;
  random_state = 1;
  free_entries = max_entries;
}

-- The entries go back to the free list one by one.
unfoldable pub free_all : ℕ → List Entry → ℕ
free_all free [] = free
free_all free (e ∷ es) = free_all (free + 1) es

unfoldable pub lottery_shutdown : Lottery → Lottery
unfolding free_all
lottery_shutdown s = record s {
  pool = [];
  total_tickets = 0;
  participant_count = 0;
  current_pid = minus_one;
  free_entries = free_all s.free_entries s.pool;
}

-- random_state * 1103515245 + 12345 on 32 bits, of which bits 16 to 30 are returned.
unfoldable pub random_next : ℕ → ℕ × ℕ
random_next state =
    let state' = (state * 1103515245 + 12345) % u32_mod in (state' / 2 ^ 16 % 2 ^ 15, state')

unfoldable pub random_range : ℕ → ℕ → ℕ × ℕ
unfolding random_next
random_range state max =
    if max == 0 then (0, state) else let (r, state') = random_next state in (r % max, state')

unfoldable pub recalculate_totals : Lottery → Lottery
recalculate_totals s =
    let total = sum_tickets 0 s.pool in
    let count = count_entries 0 s.pool in
    record s {
      total_tickets = total;
      participant_count = count;
      stats = record (s.stats) { total_tickets = total; participant_count = count };
    }

-- lottery_pool->wins++
unfoldable pub first_wins : List Entry → Option (ℤ × List Entry)
first_wins [] = none
first_wins (e ∷ es) = some (e.pid, record e { wins = inc64 e.wins } ∷ es)

-- What both exits of lottery_draw do with the entry that won.
unfoldable pub record_win : Lottery → Option (ℤ × List Entry) → ℤ × Lottery
record_win s none = (minus_one, s)
record_win s (some (pid, pool)) = (
  pid,
  record s {
    pool = pool;
    stats = record (s.stats) { total_lotteries = inc64 s.stats.total_lotteries };
  },
)

-- The walk, and the fallback to the first entry.
unfoldable pub find_winner : ℕ → List Entry → Option (ℤ × List Entry)
unfolding first_wins
find_winner winning pool = elim (draw_walk winning 0 pool) [
  | none ↦ first_wins pool
  | some r ↦ some r
]

unfoldable pub is_nil : List Entry → Bool
is_nil [] = true
is_nil (e ∷ es) = false

unfoldable pub lottery_draw : Lottery → ℤ × Lottery
lottery_draw s =
    if is_nil s.pool || (s.total_tickets == 0)
    then (minus_one, s)
    else let (winning, state') = random_range s.random_state s.total_tickets in
      record_win (record s { random_state = state' }) (find_winner winning s.pool)

-- The end of lottery_schedule, once a winner is drawn.
unfoldable pub dispatch_winner : Kernel → ℤ → Lottery → Kernel × Lottery
dispatch_winner k winner s =
    if is_neg winner
    then (k, s)
    else if eqz winner s.current_pid
    then (k, record s { time_remaining = default_quantum })
    else (
      context_switch k s.current_pid winner,
      record s { current_pid = winner; time_remaining = default_quantum },
    )

-- current_pid >= 0 && time_remaining > 0 && find_entry(current_pid) != NULL
unfoldable pub keeps_running : Lottery → Bool
keeps_running s =
    not (is_neg s.current_pid)
    && ltb 0 s.time_remaining
    && is_some (find_entry s.current_pid s.pool)

unfoldable pub lottery_schedule : Kernel → Lottery → Kernel × Lottery
lottery_schedule k s =
    if keeps_running s
    then (k, s)
    else let (winner, s') = lottery_draw s in dispatch_winner k winner s'

unfoldable pub lottery_preempt : Kernel → Lottery → Kernel × Lottery
lottery_preempt k s = lottery_schedule k (record s { time_remaining = 0 })

-- The entry as lottery_enqueue fills it.
abbrev pub new_entry : ℤ → Entry
new_entry p = record {
  pid = p;
  base_tickets = default_tickets;
  current_tickets = default_tickets;
  compensation = 0;
  wins = 0;
  total_tickets_held = 0;
}

unfoldable pub lottery_enqueue : ℤ → Lottery → Lottery
lottery_enqueue p s =
    if is_some (find_entry p s.pool)
    then s
    else if s.free_entries == 0
    then s
    else let total = add32 s.total_tickets default_tickets in
      let count = inc32 s.participant_count in
      record s {
        pool = new_entry p ∷ s.pool;
        free_entries = s.free_entries - 1;
        total_tickets = total;
        participant_count = count;
        stats = record (s.stats) { total_tickets = total; participant_count = count };
      }

unfoldable pub remove_entry : ℤ → Entry → Lottery → Lottery
remove_entry p e s =
    let total = sub32 s.total_tickets e.current_tickets in
    let count = dec32 s.participant_count in
    record s {
      pool = unlink p s.pool;
      free_entries = s.free_entries + 1;
      total_tickets = total;
      participant_count = count;
      stats = record (s.stats) { total_tickets = total; participant_count = count };
      current_pid = if eqz s.current_pid p then minus_one else s.current_pid;
      time_remaining = if eqz s.current_pid p then 0 else s.time_remaining;
    }

unfoldable pub lottery_dequeue : ℤ → Lottery → Lottery
lottery_dequeue p s = elim (find_entry p s.pool) [ none ↦ s | some e ↦ remove_entry p e s ]

unfoldable pub lottery_is_participant : ℤ → Lottery → Bool
lottery_is_participant p s = is_some (find_entry p s.pool)

-- Timer tick: one tick less, the tickets held are added up, and a lottery at the end of the quantum.
unfoldable pub hold_tickets : Entry → Entry
hold_tickets e = record e { total_tickets_held = add64 e.total_tickets_held e.current_tickets }

unfoldable pub count_down : Lottery → Lottery
unfolding hold_tickets
count_down s =
    if ltb 0 s.time_remaining
    then record s {
      time_remaining = s.time_remaining - 1;
      pool =
          if is_neg s.current_pid then s.pool else update_entry s.current_pid hold_tickets s.pool;
    }
    else s

unfoldable pub lottery_tick : Kernel → Lottery → Kernel × Lottery
lottery_tick k s =
    let s' = count_down s in if s'.time_remaining == 0 then lottery_schedule k s' else (k, s')

unfoldable pub lottery_reset_stats : Lottery → Lottery
lottery_reset_stats s = record s {
  stats = record (s.stats) { total_lotteries = 0; tickets_transferred = 0; compensation_given = 0 };
  pool = clear_wins s.pool;
}

unfoldable pub lottery_set_seed : ℕ → Lottery → Lottery
lottery_set_seed seed s = record s { random_state = seed }

unfoldable pub lottery_validate : Lottery → Bool
lottery_validate s =
    entries_valid s.pool
    && (sum_tickets 0 s.pool == s.total_tickets)
    && (count_entries 0 s.pool == s.participant_count)
