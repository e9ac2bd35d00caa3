-- ===== src/Realtime/Writes.antt =====
-- What the walk of llf_update_laxity of realtime.c leaves in the tasks.
use scheduler_module.Base.{
  ℕ, ◌≤◌, true, false, List, [], ◌∷◌, ◌≡◌, refl, sym, ap, ◌∙◌, inl, inr, Bool-cases, arith, count,
  add64, subst, ◌==◌,
}
use native.Mathlib.Decide.{dec_lt}
use scheduler_module.Realtime.Tasks.{Task, is_ready, signed_sub, write, write_all, set_laxity}

-- A field that the write keeps.
pub write_all-keeps :
    {X : Type 0} (g : Task → X) (f : Task → Task) (ws : List ℕ) (pool : ℕ → Task) (a : ℕ)
    → ((t : Task) → g (f t) ≡ g t)
    → g (write_all f ws pool a) ≡ g (pool a)
unfolding write_all write
write_all-keeps g f [] pool a k = refl
write_all-keeps g f (w ∷ ws) pool a k =
    write_all-keeps g f ws (write w f pool) a k
    ∙ (elim (Bool-cases (w == a)) [ inl e ↦ rw e (k (pool a)) | inr e ↦ rw e refl ])

pub write_all-out :
    (f : Task → Task) (ws : List ℕ) (pool : ℕ → Task) (a : ℕ)
    → count a ws ≡ 0
    → write_all f ws pool a ≡ pool a
unfolding write_all write
write_all-out f [] pool a n = refl
write_all-out f (w ∷ ws) pool a n =
    let miss : (w == a) ≡ false = ground arith in
    write_all-out f ws (write w f pool) a (ground arith) ∙ rw miss refl

-- What a write brings about holds of every task of the list.
pub write_all-holds :
    (P : Task → Type 0) (f : Task → Task) (ws : List ℕ) (pool : ℕ → Task) (a : ℕ)
    → ((t : Task) → P (f t))
    → 1 ≤ count a ws
    → P (write_all f ws pool a)
unfolding write_all write
write_all-holds P f [] pool a k n = absurd (omega arith)
write_all-holds P f (w ∷ ws) pool a k n = elim (dec_lt 0 (count a ws)) [
  | yes h ↦ write_all-holds P f ws (write w f pool) a k h
  | no h ↦
      let hit : (w == a) ≡ true = ground arith in
      subst P (sym (write_all-out f ws (write w f pool) a (omega arith))) (rw hit (k (pool a)))
]

pub set_laxity-state : (time : ℕ) (t : Task) → (set_laxity time t).state ≡ t.state
unfolding set_laxity
set_laxity-state time t = ground arith

pub set_laxity-deadline :
    (time : ℕ) (t : Task) → (set_laxity time t).absolute_deadline ≡ t.absolute_deadline
unfolding set_laxity
set_laxity-deadline time t = ground arith

pub set_laxity-remaining :
    (time : ℕ) (t : Task) → (set_laxity time t).remaining_time ≡ t.remaining_time
unfolding set_laxity
set_laxity-remaining time t = ground arith

-- The laxity of a READY task is up to date.
abbrev pub UpToDate : ℕ → Task → Type 0
UpToDate time t =
    is_ready t.state ≡ true
    → t.laxity ≡ signed_sub t.absolute_deadline (add64 time t.remaining_time)

pub set_laxity-UpToDate : (time : ℕ) (t : Task) → UpToDate time (set_laxity time t)
unfolding set_laxity
set_laxity-UpToDate time t r = elim (Bool-cases (is_ready t.state)) [
  | inl e ↦ rw e refl
  | inr e ↦ absurd (ground (arith, ap is_ready (set_laxity-state time t)))
]
