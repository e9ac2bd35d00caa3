-- ===== src/Lottery/Tickets.antt =====
-- The ticket operations of lottery.c. Floating-point arithmetic is a parameter: the operators that
-- the code applies to `float` and `double` values, with their documented range on conversion.
use scheduler_module.Base.{
  ℕ, ◌-◌, ◌<◌, ℤ, is_neg, Bool, true, false, ◌&&◌, ◌||◌, not, none, some, List, [], ◌∷◌, ltb, leb,
  ◌==◌, if◌then◌else◌, add32, sub32, u32_mod,
}
use scheduler_module.Kernel.{Kernel}
use scheduler_module.Lottery.{Lottery, recalculate_totals, default_quantum, lottery_schedule}
use scheduler_module.Lottery.Pool.{
  Entry, find_entry, update_entry, drop_compensation, min_tickets, max_tickets,
}

-- `of_nat` is the conversion of an unsigned integer, `to_u32` the cast back.
pub record Floats : Type 1 where
  pub Float : Type 0
  pub of_nat : ℕ → Float
  pub sub : Float → Float → Float
  pub mul : Float → Float → Float
  pub div : Float → Float → Float
  pub le : Float → Float → Bool
  pub to_u32 : Float → ℕ
  pub to_u32-lt : (x : Float) → to_u32 x < u32_mod

-- The clamp to LOTTERY_MIN_TICKETS .. LOTTERY_MAX_TICKETS.
unfoldable pub clamp : ℕ → ℕ
clamp tickets =
    if ltb tickets min_tickets
    then min_tickets
    else if ltb max_tickets tickets
    then max_tickets
    else tickets

unfoldable pub set_base : ℕ → Entry → Entry
set_base tickets e = record e {
  base_tickets = tickets;
  current_tickets = add32 tickets e.compensation;
}

-- total_tickets is moved from the old tickets of the entry to the new ones.
unfoldable pub replace_tickets : ℤ → (Entry → Entry) → Entry → Lottery → Lottery
replace_tickets p f e s =
    let total = add32 (sub32 s.total_tickets e.current_tickets) (f e).current_tickets in
    record s {
      pool = update_entry p f s.pool;
      total_tickets = total;
      stats = record (s.stats) { total_tickets = total };
    }

unfoldable pub lottery_set_tickets : ℤ → ℕ → Lottery → ℕ × Lottery
unfolding replace_tickets
lottery_set_tickets p tickets s = elim (find_entry p s.pool) [
  | none ↦ (0, s)
  | some e ↦ (e.base_tickets, replace_tickets p (set_base (clamp tickets)) e s)
]

unfoldable pub lottery_get_tickets : ℤ → Lottery → ℕ
lottery_get_tickets p s = elim (find_entry p s.pool) [ none ↦ 0 | some e ↦ e.current_tickets ]

unfoldable pub lottery_add_tickets : ℤ → ℕ → Lottery → Lottery
lottery_add_tickets p tickets s = elim (find_entry p s.pool) [
  | none ↦ s
  | some e ↦
      let sum = add32 e.base_tickets tickets in
      (lottery_set_tickets p (if ltb max_tickets sum then max_tickets else sum) s).1
]

unfoldable pub lottery_remove_tickets : ℤ → ℕ → Lottery → Lottery
lottery_remove_tickets p tickets s = elim (find_entry p s.pool) [
  | none ↦ s
  | some e ↦
      (lottery_set_tickets p
        (if leb e.base_tickets tickets then min_tickets else e.base_tickets - tickets) s).1
]

-- The amount that lottery_transfer_tickets moves between the entries `from` and `to`.
unfoldable pub transfer_amount : Entry → Entry → ℕ → ℕ
transfer_amount from to tickets =
    let available = sub32 from.base_tickets min_tickets in
    let wanted = if ltb tickets available then tickets else available in
    let space = sub32 max_tickets to.base_tickets in
    if wanted == 0 then 0 else if ltb space wanted then space else wanted

-- `to->base_tickets` is read after the first call of lottery_set_tickets.
unfoldable pub give_tickets : ℤ → ℕ → Lottery → Lottery
give_tickets p amount s = elim (find_entry p s.pool) [
  | none ↦ s
  | some e ↦ (lottery_set_tickets p (add32 e.base_tickets amount) s).1
]

unfoldable pub move_tickets : ℤ → ℤ → ℕ → Entry → Lottery → Lottery
unfolding give_tickets
move_tickets from_pid to_pid amount from s =
    let s1 = (lottery_set_tickets from_pid (sub32 from.base_tickets amount) s).1 in
    let s2 = give_tickets to_pid amount s1 in
    record s2 {
      stats = record (s2.stats) { tickets_transferred = add32 s2.stats.tickets_transferred amount };
    }

-- With nothing to give (`to_transfer == 0` before the cap) the code returns at once.
unfoldable pub nothing_to_give : Entry → ℕ → Bool
nothing_to_give from tickets =
    let available = sub32 from.base_tickets min_tickets in
    (if ltb tickets available then tickets else available) == 0

unfoldable pub lottery_transfer_tickets : ℤ → ℤ → ℕ → Lottery → ℕ × Lottery
lottery_transfer_tickets from_pid to_pid tickets s = elim (find_entry from_pid s.pool) [
  | none ↦ (0, s)
  | some from ↦ elim (find_entry to_pid s.pool) [
    | none ↦ (0, s)
    | some to ↦
        if nothing_to_give from tickets
        then (0, s)
        else let amount = transfer_amount from to tickets in
          (amount, move_tickets from_pid to_pid amount from s)
  ]
]

unfoldable pub lottery_compensation_enable : Bool → Lottery → Lottery
lottery_compensation_enable true s = record s { compensation_enabled = true }
lottery_compensation_enable false s =
    let (total, pool) = drop_compensation s.total_tickets s.pool in
    record s {
      compensation_enabled = false;
      pool = pool;
      total_tickets = total;
      stats = record (s.stats) { total_tickets = total };
    }

unfoldable pub set_compensation : ℕ → Entry → Entry
set_compensation comp e = record e {
  compensation = comp;
  current_tickets = add32 e.base_tickets comp;
}

unfoldable pub clear_compensation : Entry → Entry
clear_compensation e = record e { compensation = 0; current_tickets = e.base_tickets }

-- What both branches of lottery_compensate do with total_tickets: the old compensation is taken
-- off, and all of the new current_tickets are added.
unfoldable pub replace_compensation : ℤ → (Entry → Entry) → Entry → Lottery → Lottery
replace_compensation p f e s =
    let total = add32 (sub32 s.total_tickets e.compensation) (f e).current_tickets in
    record s {
      pool = update_entry p f s.pool;
      total_tickets = total;
      stats = record (s.stats) { total_tickets = total };
    }

unfoldable pub withdraw_compensation : ℤ → Entry → Lottery → Lottery
unfolding replace_compensation
withdraw_compensation p e s = replace_compensation p clear_compensation e s

unfoldable pub grant_compensation : ℤ → ℕ → Entry → Lottery → Lottery
unfolding replace_compensation
grant_compensation p comp e s =
    let s' = replace_compensation p (set_compensation comp) e s in
    record s' {
      stats = record (s'.stats) { compensation_given = add32 s'.stats.compensation_given comp };
    }

module _ (fl : Floats) where
  open fl use {Float, of_nat, sub, mul, div, le, to_u32}

  -- fraction_used <= 0.0f || fraction_used >= 1.0f
  unfoldable pub no_compensation : Float → Bool
  no_compensation fraction = le fraction (of_nat 0) || le (of_nat 1) fraction

  -- base_tickets * (1.0f / fraction_used - 1.0f)
  unfoldable pub compensation_for : ℕ → Float → ℕ
  compensation_for base fraction =
      to_u32 (mul (of_nat base) (sub (div (of_nat 1) fraction) (of_nat 1)))

  unfoldable pub lottery_compensate : ℤ → Float → Lottery → Lottery
  unfolding withdraw_compensation grant_compensation no_compensation
  lottery_compensate p fraction s =
      if not s.compensation_enabled then s else elim (find_entry p s.pool) [
        | none ↦ s
        | some e ↦
            if no_compensation fraction
            then withdraw_compensation p e s
            else grant_compensation p (compensation_for e.base_tickets fraction) e s
      ]

  -- 1.0f - ((float)time_remaining / DEFAULT_QUANTUM)
  unfoldable pub fraction_used : ℕ → Float
  fraction_used time_remaining =
      sub (of_nat 1) (div (of_nat time_remaining) (of_nat default_quantum))

  unfoldable pub lottery_yield : Kernel → Lottery → Kernel × Lottery
  lottery_yield k s =
      let s' =
        if not (is_neg s.current_pid) && s.compensation_enabled
        then lottery_compensate s.current_pid (fraction_used s.time_remaining) s
        else s in
      lottery_schedule k (record s' { time_remaining = 0 })

  -- local_tickets * ((double)current_tickets / total_tickets)
  unfoldable pub lottery_local_to_global : ℤ → ℕ → Lottery → ℕ
  lottery_local_to_global p local_tickets s = elim (find_entry p s.pool) [
    | none ↦ local_tickets
    | some e ↦
        if s.total_tickets == 0
        then local_tickets
        else to_u32
            (mul (of_nat local_tickets) (div (of_nat e.current_tickets) (of_nat s.total_tickets)))
  ]

  -- The loop of lottery_inflate.
  unfoldable pub inflate_entries : Float → List Entry → List Entry
  inflate_entries factor [] = []
  inflate_entries factor (e ∷ es) =
      set_base (clamp (to_u32 (mul (of_nat e.base_tickets) factor))) e ∷ inflate_entries factor es

  unfoldable pub lottery_inflate : Float → Lottery → Lottery
  unfolding inflate_entries
  lottery_inflate factor s =
      if le factor (of_nat 0)
      then s
      else recalculate_totals (record s { pool = inflate_entries factor s.pool })
