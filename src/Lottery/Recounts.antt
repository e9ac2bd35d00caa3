-- ===== src/Lottery/Recounts.antt =====
-- The ticket operations of lottery.c that walk the whole pool, disabling the compensation and
-- inflation, keep the pool consistent.
use scheduler_module.Base.{
  ℕ, ◌+◌, ◌%◌, ℤ, Bool, true, false, ◌≡◌, refl, inl, inr, List, [], ◌∷◌, arith, length, All, sub32,
  u32_mod, Bool-cases,
}
use scheduler_module.Lottery.{Lottery, recalculate_totals}
use scheduler_module.Lottery.Pool.{Entry, drop_compensation}
use scheduler_module.Lottery.Tickets.{
  set_base, lottery_compensation_enable, Floats, lottery_inflate, inflate_entries,
}
use scheduler_module.Lottery.Totals.{
  tickets, bases, IsValidEntry, Absent, Distinct, IsConsistent, sum_tickets-tickets,
  count_entries-length,
}
use scheduler_module.Lottery.Consistency.{clamp_bounds}
use scheduler_module.Lottery.Rewrites.{SameTickets-refl, replace_pool}

-- What is left of total_tickets when the loop has passed the entries: their bases for their tickets.
drop_compensation-total :
    (t r : ℕ) (es : List Entry)
    → All IsValidEntry es
    → t ≡ (tickets es + r) % u32_mod
    → (drop_compensation t es).0 ≡ (bases es + r) % u32_mod
unfolding drop_compensation tickets bases
drop_compensation-total t r [] a h = h
drop_compensation-total t r (e ∷ es) a h = omega (
  arith,
  drop_compensation-total (sub32 t e.compensation) (e.base_tickets + r) es a.1
      (let v = a.0.current in let w = a.0.compensation_lt in omega arith),
)

drop_compensation-entries :
    (t : ℕ) (es : List Entry)
    → All IsValidEntry es
    → let r = (drop_compensation t es).1 in
      (tickets r ≡ bases es) × (length r ≡ length es) × All IsValidEntry r
unfolding drop_compensation tickets bases
drop_compensation-entries t [] a = (refl, refl, tt)
drop_compensation-entries t (e ∷ es) a =
    let ih = drop_compensation-entries (sub32 t e.compensation) es a.1 in
    let v = a.0.base_pos in let w = a.0.base_le in (omega arith, omega arith, (ground arith, ih.2))

drop_compensation-Absent :
    (p : ℤ) (t : ℕ) (es : List Entry) → Absent p es → Absent p (drop_compensation t es).1
unfolding drop_compensation
drop_compensation-Absent p t [] a = tt
drop_compensation-Absent p t (e ∷ es) a =
    (a.0, drop_compensation-Absent p (sub32 t e.compensation) es a.1)

drop_compensation-Distinct :
    (t : ℕ) (es : List Entry) → Distinct es → Distinct (drop_compensation t es).1
unfolding drop_compensation
drop_compensation-Distinct t [] d = tt
drop_compensation-Distinct t (e ∷ es) d = (
  drop_compensation-Absent e.pid (sub32 t e.compensation) es d.0,
  drop_compensation-Distinct (sub32 t e.compensation) es d.1,
)

pub lottery_compensation_enable-IsConsistent :
    (b : Bool) (s : Lottery) → IsConsistent s → IsConsistent (lottery_compensation_enable b s)
unfolding lottery_compensation_enable
lottery_compensation_enable-IsConsistent true s c =
    replace_pool s _ (SameTickets-refl s.pool) refl refl refl c
lottery_compensation_enable-IsConsistent false s c =
    let sums = drop_compensation-entries s.total_tickets s.pool c.entries in
    record {
      total =
          let h = c.total in
          omega (arith, drop_compensation-total s.total_tickets 0 s.pool c.entries (omega arith));
      count = let h = c.count in omega arith;
      room = let h = c.room in omega arith;
      entries = sums.2;
      distinct = drop_compensation-Distinct s.total_tickets s.pool c.distinct;
    }

module _ (fl : Floats) (factor : fl.Float) where
  inflate-entries :
      (es : List Entry)
      → All IsValidEntry es
      → let r = inflate_entries fl factor es in (length r ≡ length es) × All IsValidEntry r
  unfolding inflate_entries set_base
  inflate-entries [] a = (refl, tt)
  inflate-entries (e ∷ es) a =
      let ih = inflate-entries es a.1 in
      let n = fl.to_u32 (fl.mul (fl.of_nat e.base_tickets) factor) in
      let b = clamp_bounds n in
      (
        omega arith,
        (
          record {
            base_pos = b.0;
            base_le = b.1;
            compensation_lt = a.0.compensation_lt;
            current = refl;
          },
          ih.1,
        ),
      )

  inflate-Absent : (p : ℤ) (es : List Entry) → Absent p es → Absent p (inflate_entries fl factor es)
  unfolding inflate_entries set_base
  inflate-Absent p [] a = tt
  inflate-Absent p (e ∷ es) a = (a.0, inflate-Absent p es a.1)

  inflate-Distinct : (es : List Entry) → Distinct es → Distinct (inflate_entries fl factor es)
  unfolding inflate_entries set_base
  inflate-Distinct [] d = tt
  inflate-Distinct (e ∷ es) d = (inflate-Absent e.pid es d.0, inflate-Distinct es d.1)

  pub lottery_inflate-IsConsistent :
      (s : Lottery) → IsConsistent s → IsConsistent (lottery_inflate fl factor s)
  unfolding lottery_inflate recalculate_totals
  lottery_inflate-IsConsistent s c =
      let r = inflate_entries fl factor s.pool in
      let ih = inflate-entries s.pool c.entries in
      let inflated : IsConsistent (recalculate_totals (record s { pool = r })) = record {
        total = omega (arith, sum_tickets-tickets 0 r (omega arith));
        count = let h = c.room in omega (arith, count_entries-length 0 r (omega arith));
        room = let h = c.room in omega arith;
        entries = ih.1;
        distinct = inflate-Distinct s.pool c.distinct;
      } in
      elim (Bool-cases (fl.le factor (fl.of_nat 0))) [
        | inl e ↦ rw (e, lottery_inflate) c
        | inr e ↦ rw (e, lottery_inflate) inflated
      ]
