-- ===== src/Cfs/Weights.antt =====
-- cfs.c: the tables of weights and the conversion of a nice value; the conversion of real time to
-- virtual time.
use scheduler_module.Base.{
  ℕ, zero, suc, ◌+◌, ◌-◌, ◌*◌, ◌/◌, ◌%◌, ℤ, pos, negsuc, List, [], ◌∷◌, ltb, leb, ◌==◌,
  if◌then◌else◌, u64_mod,
}

abbrev pub nice_levels : ℕ
nice_levels = 40

abbrev pub weight_nice0 : ℕ
weight_nice0 = 1024

abbrev pub weight_table : List ℕ
weight_table =
    88761 ∷ 71755 ∷ 56483 ∷ 46273 ∷ 36291 ∷ 29154 ∷ 23254 ∷ 18705 ∷ 14949 ∷ 11916 ∷ 9548 ∷ 7620
    ∷ 6100 ∷ 4904 ∷ 3906 ∷ 3121 ∷ 2501 ∷ 1991 ∷ 1586 ∷ 1277 ∷ 1024 ∷ 820 ∷ 655 ∷ 526 ∷ 423 ∷ 335
    ∷ 272 ∷ 215 ∷ 172 ∷ 137 ∷ 110 ∷ 87 ∷ 70 ∷ 56 ∷ 45 ∷ 36 ∷ 29 ∷ 23 ∷ 18 ∷ 15 ∷ []

abbrev pub wmult_table : List ℕ
wmult_table =
    48388 ∷ 59856 ∷ 76040 ∷ 92818 ∷ 118348 ∷ 147320 ∷ 184698 ∷ 229616 ∷ 287308 ∷ 360437 ∷ 449829
    ∷ 563644 ∷ 704093 ∷ 875809 ∷ 1099582 ∷ 1376151 ∷ 1717300 ∷ 2157191 ∷ 2708050 ∷ 3363326 ∷ 4194304
    ∷ 5237765 ∷ 6557202 ∷ 8165337 ∷ 10153587 ∷ 12820798 ∷ 15790321 ∷ 19976592 ∷ 24970740 ∷ 31350126
    ∷ 39045157 ∷ 49367440 ∷ 61356676 ∷ 76695844 ∷ 95443717 ∷ 119304647 ∷ 148102320 ∷ 186737708
    ∷ 238609294 ∷ 286331153 ∷ []

-- table[i]
unfoldable pub table_entry : ℕ → List ℕ → ℕ
table_entry i [] = 0
table_entry zero (w ∷ ws) = w
table_entry (suc i) (w ∷ ws) = table_entry i ws

-- nice + 20, at least 0 and below CFS_NICE_LEVELS. `-` on ℕ stops at 0.
unfoldable pub nice_index : ℤ → ℕ
nice_index (pos n) = if leb nice_levels (n + 20) then nice_levels - 1 else n + 20
nice_index (negsuc n) = 19 - n

unfoldable pub cfs_nice_to_weight : ℤ → ℕ
cfs_nice_to_weight nice = table_entry (nice_index nice) weight_table

unfoldable pub cfs_nice_to_wmult : ℤ → ℕ
cfs_nice_to_wmult nice = table_entry (nice_index nice) wmult_table

-- At least CFS_NICE_MIN, -20, and at most CFS_NICE_MAX, 19.
unfoldable pub clamp_nice : ℤ → ℤ
clamp_nice (pos n) = if ltb 19 n then pos 19 else pos n
clamp_nice (negsuc n) = if ltb 19 n then negsuc 19 else negsuc n

unfoldable pub cfs_calc_delta : ℕ → ℕ → ℕ
cfs_calc_delta delta_exec weight =
    if weight == 0 then delta_exec else delta_exec * weight_nice0 % u64_mod / weight

unfoldable pub max64 : ℕ → ℕ → ℕ
max64 a b = if ltb b a then a else b
