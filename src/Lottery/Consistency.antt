-- ===== src/Lottery/Consistency.antt =====
-- The operations of lottery.c keep the pool consistent: enqueue, dequeue and the ticket operations.
use scheduler_module.Base.{
  ℕ, ◌+◌, List, [], ◌∷◌, length, ◌≤◌, ◌<◌, ℤ, ◌≡◌, refl, inl, inr, some, arith, sub32, Option-cases,
  Bool-cases,
}
use scheduler_module.Lottery.{
  free_all, lottery_shutdown, Lottery, lottery_init, lottery_enqueue, lottery_dequeue, remove_entry,
}
use scheduler_module.Lottery.Pool.{Entry, find_entry, max_tickets}
use scheduler_module.Lottery.Tickets.{
  clamp, set_base, replace_tickets, lottery_set_tickets, lottery_add_tickets,
  lottery_remove_tickets, lottery_transfer_tickets, transfer_amount, nothing_to_give, give_tickets,
  move_tickets,
}
use scheduler_module.Lottery.Totals.{
  tickets, IsValidEntry, IsConsistent, find_entry-All, find_entry-none, tickets-update,
  length-update, All-update, Distinct-update, tickets-unlink, length-unlink, All-unlink,
  Distinct-unlink,
}

-- Every clamped ticket count is a legal base.
pub clamp_bounds : (n : ℕ) → (0 < clamp n) × (clamp n ≤ max_tickets)
unfolding clamp
clamp_bounds n = ground arith

pub lottery_init-IsConsistent : IsConsistent lottery_init
unfolding lottery_init tickets
lottery_init-IsConsistent = record {
  total = refl;
  count = refl;
  room = refl;
  entries = tt;
  distinct = tt;
}

free_all-length : (free : ℕ) (es : List Entry) → free_all free es ≡ free + length es
unfolding free_all
free_all-length free [] = omega arith
free_all-length free (e ∷ es) = omega (arith, free_all-length (free + 1) es)

pub lottery_shutdown-IsConsistent :
    (s : Lottery) → IsConsistent s → IsConsistent (lottery_shutdown s)
unfolding lottery_shutdown tickets
lottery_shutdown-IsConsistent s i =
    let room = i.room in
    record {
      total = refl;
      count = refl;
      room = omega (arith, free_all-length s.free_entries s.pool);
      entries = tt;
      distinct = tt;
    }

pub lottery_enqueue-IsConsistent :
    (p : ℤ) (s : Lottery) → IsConsistent s → IsConsistent (lottery_enqueue p s)
unfolding lottery_enqueue tickets
lottery_enqueue-IsConsistent p s c = elim (Option-cases (find_entry p s.pool)) [
  | inl e ↦ ground (arith, find_entry-none p s.pool e)
  | inr (x, e) ↦ rw (e, lottery_enqueue) c
]

remove_entry-IsConsistent :
    (p : ℤ) (e : Entry) (s : Lottery)
    → find_entry p s.pool ≡ some e
    → IsConsistent s
    → IsConsistent (remove_entry p e s)
unfolding remove_entry
remove_entry-IsConsistent p e s found c =
    let valid = find_entry-All p IsValidEntry s.pool e c.entries found in
    record {
      total = omega (arith, tickets-unlink p s.pool e found, valid.current);
      count = omega (arith, length-unlink p s.pool e found);
      room = omega (arith, length-unlink p s.pool e found);
      entries = All-unlink p IsValidEntry s.pool c.entries;
      distinct = Distinct-unlink p s.pool c.distinct;
    }

pub lottery_dequeue-IsConsistent :
    (p : ℤ) (s : Lottery) → IsConsistent s → IsConsistent (lottery_dequeue p s)
unfolding lottery_dequeue
lottery_dequeue-IsConsistent p s c = elim (Option-cases (find_entry p s.pool)) [
  | inl e ↦ rw (e, lottery_dequeue) c
  | inr (x, e) ↦ rw (e, lottery_dequeue) (remove_entry-IsConsistent p x s e c)
]

replace_tickets-IsConsistent :
    (p : ℤ) (n : ℕ) (e : Entry) (s : Lottery)
    → find_entry p s.pool ≡ some e
    → 0 < n
    → n ≤ max_tickets
    → IsConsistent s
    → IsConsistent (replace_tickets p (set_base n) e s)
unfolding replace_tickets set_base
replace_tickets-IsConsistent p n e s found lo hi c =
    let valid = find_entry-All p IsValidEntry s.pool e c.entries found in
    record {
      total = omega (arith, tickets-update p (set_base n) s.pool e found, valid.current);
      count = omega (arith, length-update p (set_base n) s.pool);
      room = omega (arith, length-update p (set_base n) s.pool);
      entries = All-update p (set_base n) IsValidEntry s.pool (λ x v. ground arith) c.entries;
      distinct = Distinct-update p (set_base n) (λ x. refl) s.pool c.distinct;
    }

pub lottery_set_tickets-IsConsistent :
    (p : ℤ) (n : ℕ) (s : Lottery) → IsConsistent s → IsConsistent (lottery_set_tickets p n s).1
unfolding lottery_set_tickets
lottery_set_tickets-IsConsistent p n s c = elim (Option-cases (find_entry p s.pool)) [
  | inl e ↦ rw (e, lottery_set_tickets) c
  | inr (x, e) ↦
      let b = clamp_bounds n in
      rw (e, lottery_set_tickets) (replace_tickets-IsConsistent p (clamp n) x s e b.0 b.1 c)
]

pub lottery_add_tickets-IsConsistent :
    (p : ℤ) (n : ℕ) (s : Lottery) → IsConsistent s → IsConsistent (lottery_add_tickets p n s)
unfolding lottery_add_tickets
lottery_add_tickets-IsConsistent p n s c = elim (Option-cases (find_entry p s.pool)) [
  | inl e ↦ rw (e, lottery_add_tickets) c
  | inr (x, e) ↦ rw (e, lottery_add_tickets) (lottery_set_tickets-IsConsistent p _ s c)
]

pub lottery_remove_tickets-IsConsistent :
    (p : ℤ) (n : ℕ) (s : Lottery) → IsConsistent s → IsConsistent (lottery_remove_tickets p n s)
unfolding lottery_remove_tickets
lottery_remove_tickets-IsConsistent p n s c = elim (Option-cases (find_entry p s.pool)) [
  | inl e ↦ rw (e, lottery_remove_tickets) c
  | inr (x, e) ↦ rw (e, lottery_remove_tickets) (lottery_set_tickets-IsConsistent p _ s c)
]

give_tickets-IsConsistent :
    (p : ℤ) (n : ℕ) (s : Lottery) → IsConsistent s → IsConsistent (give_tickets p n s)
unfolding give_tickets
give_tickets-IsConsistent p n s c = elim (Option-cases (find_entry p s.pool)) [
  | inl e ↦ rw (e, give_tickets) c
  | inr (x, e) ↦ rw (e, give_tickets) (lottery_set_tickets-IsConsistent p _ s c)
]

move_tickets-IsConsistent :
    (p q : ℤ) (n : ℕ) (e : Entry) (s : Lottery)
    → IsConsistent s
    → IsConsistent (move_tickets p q n e s)
unfolding move_tickets
move_tickets-IsConsistent p q n e s c =
    let moved =
      give_tickets-IsConsistent q n _
        (lottery_set_tickets-IsConsistent p (sub32 e.base_tickets n) s c) in
    record {
      total = moved.total;
      count = moved.count;
      room = moved.room;
      entries = moved.entries;
      distinct = moved.distinct;
    }

pub lottery_transfer_tickets-IsConsistent :
    (p q : ℤ) (n : ℕ) (s : Lottery)
    → IsConsistent s
    → IsConsistent (lottery_transfer_tickets p q n s).1
unfolding lottery_transfer_tickets
lottery_transfer_tickets-IsConsistent p q n s c = elim (Option-cases (find_entry p s.pool)) [
  | inl e ↦ rw (e, lottery_transfer_tickets) c
  | inr (x, e) ↦ elim (Option-cases (find_entry q s.pool)) [
    | inl d ↦ rw (e, d, lottery_transfer_tickets) c
    | inr (y, d) ↦
        let moved = move_tickets-IsConsistent p q (transfer_amount x y n) x s c in
        elim (Bool-cases (nothing_to_give x n)) [
          | inl z ↦ rw (e, d, z, lottery_transfer_tickets) c
          | inr z ↦ rw (e, d, z, lottery_transfer_tickets) moved
        ]
  ]
]
