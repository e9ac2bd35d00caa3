-- ===== src/Lottery/Transfer.antt =====
-- Ticket transfers of lottery.c conserve the tickets; compensation does not keep total_tickets.
use scheduler_module.Base.{
  ℕ, ◌+◌, ◌%◌, ◌≤◌, ◌<◌, ℤ, true, ◌≡◌, refl, sym, ◌∙◌, ◌≢◌, inl, inr, some, arith, All, add32,
  sub32, u32_mod, Option-cases, Bool-cases,
}
use scheduler_module.Lottery.{Lottery}
use scheduler_module.Lottery.Pool.{Entry, find_entry, max_tickets}
use scheduler_module.Lottery.Tickets.{
  clamp, set_base, lottery_set_tickets, transfer_amount, nothing_to_give, give_tickets,
  move_tickets, lottery_transfer_tickets, Floats, lottery_compensate, withdraw_compensation,
  grant_compensation, replace_compensation, clear_compensation, set_compensation, no_compensation,
  compensation_for,
}
use scheduler_module.Lottery.Totals.{
  tickets, bases, IsValidEntry, IsConsistent, bases-update, tickets-update, find-update_self,
  find-update_ne, find_entry-All,
}

-- On a legal ticket count the clamp does nothing.
clamp_self : (n : ℕ) → 0 < n → n ≤ max_tickets → clamp n ≡ n
unfolding clamp
clamp_self n lo hi = ground arith

-- Setting a legal base moves the sum of the bases by the difference.
set_tickets-bases :
    (p : ℤ) (n : ℕ) (s : Lottery) (e : Entry)
    → find_entry p s.pool ≡ some e
    → 0 < n
    → n ≤ max_tickets
    → bases (lottery_set_tickets p n s).1.pool + e.base_tickets ≡ bases s.pool + n
unfolding lottery_set_tickets set_base
set_tickets-bases p n s e found lo hi =
    rw (found, lottery_set_tickets, clamp_self n lo hi) (bases-update p (set_base n) s.pool e found)

-- The entry that was set has the new base, and the others are as they were.
set_tickets_self :
    (p : ℤ) (n : ℕ) (s : Lottery) (e : Entry)
    → find_entry p s.pool ≡ some e
    → 0 < n
    → n ≤ max_tickets
    → find_entry p (lottery_set_tickets p n s).1.pool ≡ some (set_base n e)
unfolding lottery_set_tickets set_base
set_tickets_self p n s e found lo hi =
    rw (found, lottery_set_tickets, clamp_self n lo hi)
      (find-update_self p (set_base n) (λ x. refl) s.pool e found)

set_tickets-ne :
    (p q : ℤ) (n : ℕ) (s : Lottery)
    → p ≢ q
    → find_entry q (lottery_set_tickets p n s).1.pool ≡ find_entry q s.pool
unfolding lottery_set_tickets set_base
set_tickets-ne p q n s ne = elim (Option-cases (find_entry p s.pool)) [
  | inl e ↦ rw (e, lottery_set_tickets)
  | inr (x, e) ↦
      rw (e, lottery_set_tickets) (find-update_ne p (set_base (clamp n)) (λ x. refl) q s.pool ne)
]

-- The amount is within what was asked for, leaves the giver its minimum, and fits under the maximum.
transfer_amount_bounds :
    (e d : Entry) (n : ℕ)
    → IsValidEntry e
    → IsValidEntry d
    → let t = transfer_amount e d n in
      (t ≤ n) × (t < e.base_tickets) × (t + d.base_tickets ≤ max_tickets)
unfolding transfer_amount
transfer_amount_bounds e d n v w =
    let a = v.base_pos in let b = v.base_le in let c = w.base_le in ground arith

-- What a transfer of `moved` tickets between two entries does to the pool.
pub record Transferred (p q : ℤ) (n : ℕ) (e d : Entry) (s : Lottery) (r : ℕ × Lottery)
    : Type 0 where
  pub within : r.0 ≤ n
  pub keeps_minimum : r.0 < e.base_tickets
  pub conserved : bases r.1.pool ≡ bases s.pool
  pub giver : Entry
  pub giver_found : find_entry p r.1.pool ≡ some giver
  pub giver_base : giver.base_tickets + r.0 ≡ e.base_tickets
  pub taker : Entry
  pub taker_found : find_entry q r.1.pool ≡ some taker
  pub taker_base : taker.base_tickets ≡ d.base_tickets + r.0

give_tickets-at :
    (q : ℤ) (t : ℕ) (s : Lottery) (d : Entry)
    → find_entry q s.pool ≡ some d
    → give_tickets q t s ≡ (lottery_set_tickets q (add32 d.base_tickets t) s).1
unfolding give_tickets
give_tickets-at q t s d at = rw (at, give_tickets)

move_tickets-Transferred :
    (p q : ℤ) (n t : ℕ) (e d : Entry) (s : Lottery)
    → p ≢ q
    → find_entry p s.pool ≡ some e
    → find_entry q s.pool ≡ some d
    → IsValidEntry e
    → IsValidEntry d
    → t ≤ n
    → t < e.base_tickets
    → t + d.base_tickets ≤ max_tickets
    → Transferred p q n e d s (t, move_tickets p q t e s)
unfolding move_tickets set_base
move_tickets-Transferred p q n t e d s ne found at v w h1 h2 h3 =
    let b = v.base_le in
    let s1 : Lottery = (lottery_set_tickets p (sub32 e.base_tickets t) s).1 in
    let lo : 0 < sub32 e.base_tickets t = omega arith in
    let hi : sub32 e.base_tickets t ≤ max_tickets = omega arith in
    let at1 : find_entry q s1.pool ≡ some d =
      set_tickets-ne p q (sub32 e.base_tickets t) s ne ∙ at in
    let sum1 = set_tickets-bases p (sub32 e.base_tickets t) s e found lo hi in
    let lo2 : 0 < add32 d.base_tickets t = let w0 = w.base_pos in omega arith in
    let hi2 : add32 d.base_tickets t ≤ max_tickets = omega arith in
    let given = give_tickets-at q t s1 d at1 in
    let giver1 = set_tickets_self p (sub32 e.base_tickets t) s e found lo hi in
    let sum2 = set_tickets-bases q (add32 d.base_tickets t) s1 d at1 lo2 hi2 in
    record {
      within = h1;
      keeps_minimum = h2;
      conserved = rw given (omega arith);
      giver = set_base (sub32 e.base_tickets t) e;
      giver_found =
          rw given (set_tickets-ne q p (add32 d.base_tickets t) s1 (λ z. ne (sym z)) ∙ giver1);
      giver_base = omega arith;
      taker = set_base (add32 d.base_tickets t) d;
      taker_found = rw given (set_tickets_self q (add32 d.base_tickets t) s1 d at1 lo2 hi2);
      taker_base = omega arith;
    }

-- A transfer between two different participants of a pool of valid entries returns the amount that
-- it moved: at most the amount asked for, and less than all that the giver has. The giver's base
-- falls by it, the taker's grows by it, and the sum of all bases stays.
pub lottery_transfer_tickets-Transferred :
    (p q : ℤ) (n : ℕ) (e d : Entry) (s : Lottery)
    → p ≢ q
    → All IsValidEntry s.pool
    → find_entry p s.pool ≡ some e
    → find_entry q s.pool ≡ some d
    → Transferred p q n e d s (lottery_transfer_tickets p q n s)
unfolding lottery_transfer_tickets
lottery_transfer_tickets-Transferred p q n e d s ne valid found at =
    let v = find_entry-All p IsValidEntry s.pool e valid found in
    let w = find_entry-All q IsValidEntry s.pool d valid at in
    let t = transfer_amount_bounds e d n v w in
    let moved =
      move_tickets-Transferred p q n (transfer_amount e d n) e d s ne found at v w t.0 t.1 t.2 in
    let pos = v.base_pos in
    let le = w.base_le in
    let unmoved : Transferred p q n e d s (0, s) = record {
      within = omega arith;
      keeps_minimum = omega arith;
      conserved = refl;
      giver = e;
      giver_found = found;
      giver_base = omega arith;
      taker = d;
      taker_found = at;
      taker_base = omega arith;
    } in
    elim (Bool-cases (nothing_to_give e n)) [
      | inl z ↦ rw (found, at, z, lottery_transfer_tickets) unmoved
      | inr z ↦ rw (found, at, z, lottery_transfer_tickets) moved
    ]

-- What lottery_compensate leaves in total_tickets.
replace_compensation-total :
    (p : ℤ) (f : Entry → Entry) (s : Lottery) (e : Entry)
    → find_entry p s.pool ≡ some e
    → IsConsistent s
    → (f e).current_tickets < u32_mod
    → (replace_compensation p f e s).total_tickets
      ≡ (tickets (replace_compensation p f e s).pool + e.base_tickets) % u32_mod
unfolding replace_compensation
replace_compensation-total p f s e found c small =
    let v = find_entry-All p IsValidEntry s.pool e c.entries found in
    omega
      (arith, tickets-update p f s.pool e found, v.current, v.compensation_lt, v.base_le, c.total)

-- The total after compensating a participant, with or without an award.
lottery_compensate-total :
    (fl : Floats) (p : ℤ) (x : fl.Float) (s : Lottery) (e : Entry)
    → s.compensation_enabled ≡ true
    → find_entry p s.pool ≡ some e
    → IsConsistent s
    → let t = lottery_compensate fl p x s in
      t.total_tickets ≡ (tickets t.pool + e.base_tickets) % u32_mod
unfolding lottery_compensate withdraw_compensation grant_compensation clear_compensation
    set_compensation
lottery_compensate-total fl p x s e on found c =
    let v = find_entry-All p IsValidEntry s.pool e c.entries found in
    let low = v.base_le in
    let none_given = replace_compensation-total p clear_compensation s e found c (omega arith) in
    let given =
      replace_compensation-total p (set_compensation (compensation_for fl e.base_tickets x)) s e
        found c (omega arith) in
    elim (Bool-cases (no_compensation fl x)) [
      | inl z ↦ rw (on, found, z, lottery_compensate) none_given
      | inr z ↦ rw (on, found, z, lottery_compensate) given
    ]

-- With compensation enabled, compensating a participant of a consistent pool, with or without an
-- award, leaves total_tickets ahead of the sum of the tickets by its base tickets, on 32 bits, so
-- the pool is not consistent afterwards.
pub lottery_compensate-drifts :
    (fl : Floats) (p : ℤ) (x : fl.Float) (s : Lottery) (e : Entry)
    → s.compensation_enabled ≡ true
    → find_entry p s.pool ≡ some e
    → IsConsistent s
    → let t = lottery_compensate fl p x s in
      (t.total_tickets ≡ (tickets t.pool + e.base_tickets) % u32_mod) × (¬ IsConsistent t)
lottery_compensate-drifts fl p x s e on found c =
    let v = find_entry-All p IsValidEntry s.pool e c.entries found in
    let lo = v.base_pos in
    let hi = v.base_le in
    let total = lottery_compensate-total fl p x s e on found c in
    (total, λ c'. let total' = c'.total in omega arith)
