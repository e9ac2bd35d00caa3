-- ===== src/Lottery/Pool.antt =====
-- lottery_entry_t and the walks over the linked list `lottery_pool` (lottery.h, lottery.c). The
-- list holds the entries in link order; an entry is named by its pid, as find_entry names it.
use scheduler_module.Base.{
  ℕ, ℤ, eqz, Bool, true, ◌&&◌, not, Option, none, some, List, [], ◌∷◌, ltb, ◌==◌, if◌then◌else◌,
  add32, sub32, inc32, inc64,
}

pub record Entry : Type 0 where
  pub pid : ℤ
  pub base_tickets : ℕ
  pub current_tickets : ℕ
  pub compensation : ℕ
  pub wins : ℕ
  pub total_tickets_held : ℕ

abbrev pub min_tickets : ℕ
min_tickets = 1

abbrev pub max_tickets : ℕ
max_tickets = 10000

abbrev pub default_tickets : ℕ
default_tickets = 100

unfoldable pub find_entry : ℤ → List Entry → Option Entry
find_entry p [] = none
find_entry p (e ∷ es) = if eqz e.pid p then some e else find_entry p es

-- A write through the pointer that find_entry returns.
unfoldable pub update_entry : ℤ → (Entry → Entry) → List Entry → List Entry
update_entry p f [] = []
update_entry p f (e ∷ es) = if eqz e.pid p then f e ∷ es else e ∷ update_entry p f es

-- prev->next = entry->next, or lottery_pool = entry->next
unfoldable pub unlink : ℤ → List Entry → List Entry
unlink p [] = []
unlink p (e ∷ es) = if eqz e.pid p then es else e ∷ unlink p es

-- The two sums of recalculate_totals.
unfoldable pub sum_tickets : ℕ → List Entry → ℕ
sum_tickets acc [] = acc
sum_tickets acc (e ∷ es) = sum_tickets (add32 acc e.current_tickets) es

unfoldable pub count_entries : ℕ → List Entry → ℕ
count_entries acc [] = acc
count_entries acc (e ∷ es) = count_entries (inc32 acc) es

-- The walk of lottery_draw: tickets are added up until the sum passes the winning ticket.
unfoldable pub draw_walk : ℕ → ℕ → List Entry → Option (ℤ × List Entry)
draw_walk winning counter [] = none
draw_walk winning counter (e ∷ es) =
    let counter' = add32 counter e.current_tickets in
    let rest = draw_walk winning counter' es in
    if ltb winning counter'
    then some (e.pid, record e { wins = inc64 e.wins } ∷ es)
    else elim rest [ none ↦ none | some (p, r) ↦ some (p, e ∷ r) ]

-- The loop of lottery_compensation_enable(false), over the pool and total_tickets.
unfoldable pub drop_compensation : ℕ → List Entry → ℕ × List Entry
drop_compensation total [] = (total, [])
drop_compensation total (e ∷ es) =
    let (t, r) = drop_compensation (sub32 total e.compensation) es in
    (t, record e { compensation = 0; current_tickets = e.base_tickets } ∷ r)

unfoldable pub clear_wins : List Entry → List Entry
clear_wins [] = []
clear_wins (e ∷ es) = record e { wins = 0; total_tickets_held = 0 } ∷ clear_wins es

-- The two checks that lottery_validate makes of each entry.
unfoldable pub entry_valid : Entry → Bool
entry_valid e =
    not (ltb e.base_tickets min_tickets)
    && not (ltb max_tickets e.base_tickets)
    && (e.current_tickets == add32 e.base_tickets e.compensation)

unfoldable pub entries_valid : List Entry → Bool
unfolding entry_valid
entries_valid [] = true
entries_valid (e ∷ es) = entry_valid e && entries_valid es
