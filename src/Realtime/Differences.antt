-- ===== src/Realtime/Differences.antt =====
-- The differences of numbers of 64 bits with a sign, as llf_update_laxity of realtime.c takes them.
use scheduler_module.Base.{
  ℕ, ◌+◌, ◌-◌, ◌^◌, ◌≤◌, ◌<◌, ℤ, pos, negsuc, true, false, ◌≡◌, refl, arith, subst,
}
use native.Mathlib.Decide.{dec_lt}
use scheduler_module.Realtime.Tasks.{ltz, to_int64, signed_sub}
use scheduler_module.Realtime.Laxity.{max_laxity}

signed_sub-pos : (a b : ℕ) → a < 2 ^ 62 → b ≤ a → signed_sub a b ≡ pos (a - b)
unfolding signed_sub to_int64
signed_sub-pos a b h k = ground arith

signed_sub-negsuc : (a b : ℕ) → b < 2 ^ 62 → a < b → signed_sub a b ≡ negsuc (b - a - 1)
unfolding signed_sub to_int64
signed_sub-negsuc a b h k = ground arith

-- The comparison of two differences.
pub signed_sub-less :
    (a b c d : ℕ)
    → a < 2 ^ 62
    → b < 2 ^ 62
    → c < 2 ^ 62
    → d < 2 ^ 62
    → ltz (signed_sub a b) (signed_sub c d) ≡ false
    → c + b ≤ a + d
signed_sub-less a b c d ha hb hc hd h = elim (dec_lt a b) [
  | yes n ↦ elim (dec_lt c d) [
    | yes m ↦
        decided (signed_sub-negsuc a b hb n) (signed_sub-negsuc c d hd m)
          (λ k. unfold ltz in ground arith)
    | no m ↦
        decided (signed_sub-negsuc a b hb n) (signed_sub-pos c d hc (omega arith))
          (λ k. unfold ltz in ground arith)
  ]
  | no n ↦ elim (dec_lt c d) [
    | yes m ↦
        decided (signed_sub-pos a b ha (omega arith)) (signed_sub-negsuc c d hd m)
          (λ k. omega arith)
    | no m ↦
        decided (signed_sub-pos a b ha (omega arith)) (signed_sub-pos c d hc (omega arith))
          (λ k. unfold ltz in ground arith)
  ]
]
  where
    decided :
        {x y : ℤ}
        → signed_sub a b ≡ x
        → signed_sub c d ≡ y
        → (ltz x y ≡ false → c + b ≤ a + d)
        → c + b ≤ a + d
    decided {x} {y} e f use_order =
        use_order (subst (λ z. ltz x z ≡ false) f (subst (λ z. ltz z (signed_sub c d) ≡ false) e h))

pub signed_sub-max : (a b : ℕ) → a < 2 ^ 62 → b < 2 ^ 62 → ltz (signed_sub a b) max_laxity ≡ true
unfolding ltz
signed_sub-max a b h k = elim (dec_lt a b) [
  | yes n ↦ rw (signed_sub-negsuc a b k n) refl
  | no n ↦ rw (signed_sub-pos a b h (omega arith)) (ground arith)
]
