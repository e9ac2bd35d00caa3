-- ===== src/Lottery/Totals.antt =====
-- The consistency of the lottery pool that lottery_validate tests, and how the list operations of
-- lottery.c act on the true sums of tickets.
use scheduler_module.Base.{
  ℕ, suc, ◌+◌, ◌%◌, ◌≤◌, ◌<◌, ℤ, eqz, eqz_iff, ◌≡◌, refl, ◌≢◌, none, some, List, [], ◌∷◌, arith,
  length, All, add32, u32_mod, Bool-cases, inl, inr, subst,
}
use scheduler_module.Lottery.{Lottery, max_entries}
use scheduler_module.Lottery.Pool.{
  Entry, find_entry, update_entry, unlink, sum_tickets, count_entries, max_tickets,
}

-- The sum of the current tickets, with no wrap-around.
unfoldable pub tickets : List Entry → ℕ
tickets [] = 0
tickets (e ∷ es) = e.current_tickets + tickets es

unfoldable pub bases : List Entry → ℕ
bases [] = 0
bases (e ∷ es) = e.base_tickets + bases es

pub record IsValidEntry (e : Entry) : Type 0 where
  pub base_pos : 0 < e.base_tickets
  pub base_le : e.base_tickets ≤ max_tickets
  pub compensation_lt : e.compensation < u32_mod
  pub current : e.current_tickets ≡ add32 e.base_tickets e.compensation

abbrev pub Absent : ℤ → List Entry → Type 0
Absent p = All (λ e. e.pid ≢ p)

abbrev pub Distinct : List Entry → Type 0
Distinct [] = Unit {0}
Distinct (e ∷ es) = Absent e.pid es × Distinct es

-- total_tickets is the sum of the tickets on 32 bits, participant_count the length, no pid is
-- listed twice, and every pool entry is listed or free.
pub record IsConsistent (s : Lottery) : Type 0 where
  pub total : s.total_tickets ≡ tickets s.pool % u32_mod
  pub count : s.participant_count ≡ length s.pool
  pub room : s.free_entries + length s.pool ≡ max_entries
  pub entries : All IsValidEntry s.pool
  pub distinct : Distinct s.pool

pub sum_tickets-tickets :
    (acc : ℕ) (es : List Entry) → acc < u32_mod → sum_tickets acc es ≡ (acc + tickets es) % u32_mod
unfolding sum_tickets tickets
sum_tickets-tickets acc [] h = omega arith
sum_tickets-tickets acc (e ∷ es) h =
    omega (arith, sum_tickets-tickets (add32 acc e.current_tickets) es (omega arith))

pub count_entries-length :
    (acc : ℕ) (es : List Entry) → acc < u32_mod → count_entries acc es ≡ (acc + length es) % u32_mod
unfolding count_entries
count_entries-length acc [] h = omega arith
count_entries-length acc (e ∷ es) h =
    omega (arith, count_entries-length (add32 acc 1) es (omega arith))

module _ (p : ℤ) where
  pub find_entry-pid : (es : List Entry) (e : Entry) → find_entry p es ≡ some e → e.pid ≡ p
  unfolding find_entry
  find_entry-pid [] e h = ground arith
  find_entry-pid (x ∷ es) e h = ground (arith, find_entry-pid es e, eqz_iff x.pid p)

  pub find_entry-All :
      (P : Entry → Type 0) (es : List Entry) (e : Entry) → All P es → find_entry p es ≡ some e → P e
  unfolding find_entry
  find_entry-All P [] e a h = ground arith
  find_entry-All P (x ∷ es) e a h = elim (Bool-cases (eqz x.pid p)) [
    | inl hit ↦ subst P (ground arith) a.0
    | inr miss ↦ find_entry-All P es e a.1 (ground arith)
  ]

  pub find_entry-none : (es : List Entry) → find_entry p es ≡ none → Absent p es
  unfolding find_entry
  find_entry-none [] h = tt
  find_entry-none (x ∷ es) h = (ground (arith, eqz_iff x.pid p), find_entry-none es (ground arith))

  module _ (f : Entry → Entry) where
    pub tickets-update :
        (es : List Entry) (e : Entry)
        → find_entry p es ≡ some e
        → tickets (update_entry p f es) + e.current_tickets ≡ tickets es + (f e).current_tickets
    unfolding tickets find_entry update_entry
    tickets-update [] e h = ground arith
    tickets-update (x ∷ es) e h = ground (arith, tickets-update es e)

    pub bases-update :
        (es : List Entry) (e : Entry)
        → find_entry p es ≡ some e
        → bases (update_entry p f es) + e.base_tickets ≡ bases es + (f e).base_tickets
    unfolding bases find_entry update_entry
    bases-update [] e h = ground arith
    bases-update (x ∷ es) e h = ground (arith, bases-update es e)

    pub length-update : (es : List Entry) → length (update_entry p f es) ≡ length es
    unfolding update_entry
    length-update [] = refl
    length-update (x ∷ es) = ground (arith, length-update es)

    pub All-update :
        (P : Entry → Type 0) (es : List Entry)
        → ((e : Entry) → P e → P (f e))
        → All P es
        → All P (update_entry p f es)
    unfolding update_entry
    All-update P [] keep a = tt
    All-update P (x ∷ es) keep a = ground (arith, keep x a.0, All-update P es keep a.1)

  module _ (f : Entry → Entry) (keeps : (e : Entry) → (f e).pid ≡ e.pid) where
    pub Distinct-update : (es : List Entry) → Distinct es → Distinct (update_entry p f es)
    unfolding update_entry
    Distinct-update [] d = tt
    Distinct-update (x ∷ es) d = ground (
      arith,
      keeps x,
      All-update f (λ e. e.pid ≢ x.pid) es (λ e n. rw (keeps e) n) d.0,
      Distinct-update es d.1,
    )

    pub find-update_self :
        (es : List Entry) (e : Entry)
        → find_entry p es ≡ some e
        → find_entry p (update_entry p f es) ≡ some (f e)
    unfolding find_entry update_entry
    find-update_self [] e h = ground arith
    find-update_self (x ∷ es) e h = ground (arith, keeps x, find-update_self es e)

    pub find-update_ne :
        (q : ℤ) (es : List Entry) → p ≢ q → find_entry q (update_entry p f es) ≡ find_entry q es
    unfolding find_entry update_entry
    find-update_ne q [] n = refl
    find-update_ne q (x ∷ es) n =
        ground (arith, keeps x, eqz_iff x.pid p, eqz_iff x.pid q, find-update_ne q es n)

  pub tickets-unlink :
      (es : List Entry) (e : Entry)
      → find_entry p es ≡ some e
      → tickets (unlink p es) + e.current_tickets ≡ tickets es
  unfolding tickets find_entry unlink
  tickets-unlink [] e h = ground arith
  tickets-unlink (x ∷ es) e h = ground (arith, tickets-unlink es e)

  pub length-unlink :
      (es : List Entry) (e : Entry)
      → find_entry p es ≡ some e
      → suc (length (unlink p es)) ≡ length es
  unfolding find_entry unlink
  length-unlink [] e h = ground arith
  length-unlink (x ∷ es) e h = ground (arith, length-unlink es e)

  pub All-unlink : (P : Entry → Type 0) (es : List Entry) → All P es → All P (unlink p es)
  unfolding unlink
  All-unlink P [] a = tt
  All-unlink P (x ∷ es) a = ground (arith, All-unlink P es a.1)

  pub Distinct-unlink : (es : List Entry) → Distinct es → Distinct (unlink p es)
  unfolding unlink
  Distinct-unlink [] d = tt
  Distinct-unlink (x ∷ es) d =
      ground (arith, All-unlink (λ e. e.pid ≢ x.pid) es d.0, Distinct-unlink es d.1)
