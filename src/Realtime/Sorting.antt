-- ===== src/Realtime/Sorting.antt =====
-- The sorting of the tasks by rms_assign_priorities and dms_assign_priorities of realtime.c:
-- it sorts.
use scheduler_module.Base.{
  ℕ, zero, suc, ◌+◌, ◌-◌, ◌≤◌, List, [], ◌∷◌, ◌++◌, ◌≡◌, refl, sym, ap, ◌∙◌, subst, ltb, ◌==◌,
  if◌then◌else◌, inl, inr, Bool-cases, arith, length, All, count,
}
use mathlib.Core.List.{append-nil}
use scheduler_module.Realtime.Priorities.{bubble, bubble_sort}

-- What holds of each element that a list holds.
All-of_count : (P : ℕ → Type 0) (xs : List ℕ) → ((b : ℕ) → 1 ≤ count b xs → P b) → All P xs
All-of_count P [] h = tt
All-of_count P (x ∷ xs) h = (h x (ground arith), All-of_count P xs (λ b c. h b (omega arith)))

pub count-All : (P : ℕ → Type 0) (xs : List ℕ) (b : ℕ) → All P xs → 1 ≤ count b xs → P b
count-All P [] b h c = absurd (omega arith)
count-All P (x ∷ xs) b h c = elim (Bool-cases (b == x)) [
  | inl e ↦ let same : b ≡ x = ground arith in subst P (sym same) h.0
  | inr e ↦ count-All P xs b h.1 (ground arith)
]

count-append : (b : ℕ) (xs ys : List ℕ) → count b (xs ++ ys) ≡ count b xs + count b ys
count-append b [] ys = omega arith
count-append b (x ∷ xs) ys = omega (arith, count-append b xs ys)

module _ (key : ℕ → ℕ) where
  abbrev pub UpTo : ℕ → List ℕ → Type 0
  UpTo m = All (λ y. key y ≤ key m)

  abbrev pub From : ℕ → List ℕ → Type 0
  From m = All (λ y. key m ≤ key y)

  abbrev pub Sorted : List ℕ → Type 0
  Sorted [] = Unit {0}
  Sorted (x ∷ xs) = From x xs × Sorted xs

  length-bubble : (n : ℕ) (xs : List ℕ) → length (bubble key n xs) ≡ length xs
  unfolding bubble
  length-bubble zero xs = refl
  length-bubble (suc n) [] = refl
  length-bubble (suc n) (x ∷ []) = refl
  length-bubble (suc n) (x ∷ y ∷ ys) =
      omega (arith, length-bubble n ((if ltb (key y) (key x) then x else y) ∷ ys))

  pub length-bubble_sort : (n : ℕ) (xs : List ℕ) → length (bubble_sort key n xs) ≡ length xs
  unfolding bubble_sort
  length-bubble_sort zero xs = refl
  length-bubble_sort (suc n) xs =
      length-bubble_sort n (bubble key (suc n) xs) ∙ length-bubble (suc n) xs

  -- One round over x and xs takes a greatest task to the end of them.
  record Round (x : ℕ) (xs back ys : List ℕ) : Type 0 where
    front : List ℕ
    greatest : ℕ
    split : ys ≡ front ++ greatest ∷ back
    size : length front ≡ length xs
    below : UpTo greatest front
    first_below : key x ≤ key greatest
    same : (b : ℕ) → count b (greatest ∷ front) ≡ count b (x ∷ xs)

  bubble-Round :
      (x : ℕ) (xs back : List ℕ) → Round x xs back (bubble key (length xs) (x ∷ xs ++ back))
  unfolding bubble
  bubble-Round x [] back = record {
    front = [];
    greatest = x;
    split = refl;
    size = refl;
    below = tt;
    first_below = omega arith;
    same = λ b. refl;
  }
  bubble-Round x (y ∷ ys) back =
      let swap = ltb (key y) (key x) in
      let high = if swap then x else y in
      let low = if swap then y else x in
      let rest = bubble-Round high ys back in
      let top = rest.first_below in
      let size = rest.size in
      record {
        front = low ∷ rest.front;
        greatest = rest.greatest;
        split = ap (λ (zs : List ℕ). low ∷ zs) rest.split;
        size = omega arith;
        below = (ground arith, rest.below);
        first_below = ground arith;
        same = λ b. let s = rest.same b in ground arith;
      }

  bubble_sort-Sorted :
      (k : ℕ) (front back : List ℕ)
      → length front ≡ suc k
      → Sorted back
      → All (λ y. From y back) front
      → Sorted (bubble_sort key k (front ++ back))
        × ((b : ℕ) → count b (bubble_sort key k (front ++ back)) ≡ count b front + count b back)
  unfolding bubble_sort
  bubble_sort-Sorted k [] back l s f = absurd (omega arith)
  bubble_sort-Sorted zero (x ∷ []) back l s f = ((f.0, s), λ b. omega arith)
  bubble_sort-Sorted zero (x ∷ y ∷ ys) back l s f = absurd (omega arith)
  bubble_sort-Sorted (suc k) (x ∷ xs) back l s f =
      let e : length xs ≡ suc k = omega arith in
      let r = bubble-Round x xs back in
      let m = r.greatest in
      let eq = ap (λ (n : ℕ). bubble key n (x ∷ xs ++ back)) (sym e) ∙ r.split in
      let in_m : 1 ≤ count m (x ∷ xs) = let same = r.same m in ground arith in
      let back_m = count-All (λ y. From y back) (x ∷ xs) m f in_m in
      let front_m =
        All-of_count (λ y. From y (m ∷ back)) r.front
          (λ b c.
            let same = r.same b in
            (
              count-All (λ y. key y ≤ key m) r.front b r.below c,
              count-All (λ y. From y back) (x ∷ xs) b f (omega arith),
            )) in
      let (sorted, counts) =
        bubble_sort-Sorted k r.front (m ∷ back) (r.size ∙ e) (back_m, s) front_m in
      (
        subst (λ (ys : List ℕ). Sorted (bubble_sort key k ys)) (sym eq) sorted,
        λ b.
            let same = r.same b in
            let n = counts b in
            let c = ap (λ (ys : List ℕ). count b (bubble_sort key k ys)) eq in omega arith,
      )

  pub sort-Sorted :
      (xs : List ℕ)
      → Sorted (bubble_sort key (length xs - 1) xs)
        × ((b : ℕ) → count b (bubble_sort key (length xs - 1) xs) ≡ count b xs)
  sort-Sorted [] = unfold bubble_sort in (tt, λ b. refl)
  sort-Sorted (x ∷ xs) =
      let all = All-of_count (λ y. From y []) (x ∷ xs) (λ b c. tt) in
      let (sorted, counts) = bubble_sort-Sorted (length xs) (x ∷ xs) [] refl tt all in
      let one : length xs ≡ length (x ∷ xs) - 1 = omega arith in
      let eq =
        ap (λ (ys : List ℕ). bubble_sort key (length xs) ys) (append-nil (x ∷ xs))
        ∙ ap (λ (n : ℕ). bubble_sort key n (x ∷ xs)) one in
      (subst Sorted eq sorted, λ b. let n = counts b in let c = ap (count b) eq in omega arith)
