-- ===== src/Base/Keyed.antt =====
-- Linked lists whose nodes carry a process identifier: the search, the write through a found node,
-- the unlinking of a node, and their laws. A node is named by its key, the first that carries it.
use Prim.Native.Nat.{suc}
use mathlib.Core.Path.{◌≡◌, refl, subst}
use mathlib.Core.Logic.{◌≢◌, inl, inr}
use mathlib.Core.Option.{Option, none, some}
use mathlib.Core.List.{List, [], ◌∷◌, ◌++◌}
use native.Mathlib.Omega.{arith}
use scheduler_module.Base.Tests.{if◌then◌else◌, Bool-cases}
use scheduler_module.Base.Lists.{length, All}
use scheduler_module.Base.Int.{ℤ, eqz, eqz_iff}

module _ {A : Type 0} (key : A → ℤ) where
  unfoldable pub find : ℤ → List A → Option A
  find p [] = none
  find p (x ∷ xs) = if eqz (key x) p then some x else find p xs

  unfoldable pub update : ℤ → (A → A) → List A → List A
  update p f [] = []
  update p f (x ∷ xs) = if eqz (key x) p then f x ∷ xs else x ∷ update p f xs

  unfoldable pub unlink : ℤ → List A → List A
  unlink p [] = []
  unlink p (x ∷ xs) = if eqz (key x) p then xs else x ∷ unlink p xs

  abbrev pub Absent : ℤ → List A → Type 0
  Absent p = All (λ x. key x ≢ p)

  abbrev pub Distinct : List A → Type 0
  Distinct [] = Unit {0}
  Distinct (x ∷ xs) = Absent (key x) xs × Distinct xs

module _ {A : Type 0} (key : A → ℤ) (p : ℤ) where
  pub find-key : (xs : List A) (x : A) → find key p xs ≡ some x → key x ≡ p
  unfolding find
  find-key [] x h = ground arith
  find-key (y ∷ xs) x h = ground (arith, find-key xs x, eqz_iff (key y) p)

  pub find-All : (P : A → Type 0) (xs : List A) (x : A) → All P xs → find key p xs ≡ some x → P x
  unfolding find
  find-All P [] x a h = ground arith
  find-All P (y ∷ xs) x a h = elim (Bool-cases (eqz (key y) p)) [
    | inl hit ↦ subst P (ground arith) a.0
    | inr miss ↦ find-All P xs x a.1 (ground arith)
  ]

  pub find-none : (xs : List A) → find key p xs ≡ none → Absent key p xs
  unfolding find
  find-none [] h = tt
  find-none (y ∷ xs) h = (ground (arith, eqz_iff (key y) p), find-none xs (ground arith))

  pub find-Absent : (xs : List A) → Absent key p xs → find key p xs ≡ none
  unfolding find
  find-Absent [] a = refl
  find-Absent (y ∷ xs) a = ground (arith, eqz_iff (key y) p, find-Absent xs a.1, a.0)

  pub Absent-append_left : (xs ys : List A) → Absent key p (xs ++ ys) → Absent key p xs
  Absent-append_left [] ys a = tt
  Absent-append_left (x ∷ xs) ys a = (a.0, Absent-append_left xs ys a.1)

  -- A key that stands in the list is found there.
  pub find-split :
      (xs ys : List A) (x : A) → key x ≡ p → Absent key p xs → find key p (xs ++ x ∷ ys) ≡ some x
  unfolding find
  find-split [] ys x e a = ground (arith, eqz_iff (key x) p)
  find-split (y ∷ xs) ys x e a = ground (arith, eqz_iff (key y) p, find-split xs ys x e a.1, a.0)

  pub unlink-split :
      (xs ys : List A) (x : A)
      → key x ≡ p
      → Absent key p xs
      → unlink key p (xs ++ x ∷ ys) ≡ xs ++ ys
  unfolding unlink
  unlink-split [] ys x e a = ground (arith, eqz_iff (key x) p)
  unlink-split (y ∷ xs) ys x e a =
      ground (arith, eqz_iff (key y) p, unlink-split xs ys x e a.1, a.0)

  pub length-unlink :
      (xs : List A) (x : A) → find key p xs ≡ some x → suc (length (unlink key p xs)) ≡ length xs
  unfolding find unlink
  length-unlink [] x h = ground arith
  length-unlink (y ∷ xs) x h = ground (arith, length-unlink xs x)

  pub unlink_unchanged : (xs : List A) → Absent key p xs → unlink key p xs ≡ xs
  unfolding unlink
  unlink_unchanged [] a = refl
  unlink_unchanged (y ∷ xs) a = ground (arith, eqz_iff (key y) p, unlink_unchanged xs a.1, a.0)

  pub All-unlink : (P : A → Type 0) (xs : List A) → All P xs → All P (unlink key p xs)
  unfolding unlink
  All-unlink P [] a = tt
  All-unlink P (y ∷ xs) a = ground (arith, All-unlink P xs a.1)

  pub Distinct-unlink : (xs : List A) → Distinct key xs → Distinct key (unlink key p xs)
  unfolding unlink
  Distinct-unlink [] d = tt
  Distinct-unlink (y ∷ xs) d =
      ground (arith, All-unlink (λ x. key x ≢ key y) xs d.0, Distinct-unlink xs d.1)

  -- With distinct keys nothing with the key is left.
  pub unlink-Absent : (xs : List A) → Distinct key xs → Absent key p (unlink key p xs)
  unfolding unlink
  unlink-Absent [] d = tt
  unlink-Absent (y ∷ xs) d = elim (Bool-cases (eqz (key y) p)) [
    | inl hit ↦ rw hit (subst (λ q. Absent key q xs) ((eqz_iff (key y) p).0 hit) d.0)
    | inr miss ↦ rw miss (ground (arith, eqz_iff (key y) p), unlink-Absent xs d.1)
  ]

  module _ (f : A → A) where
    pub length-update : (xs : List A) → length (update key p f xs) ≡ length xs
    unfolding update
    length-update [] = refl
    length-update (y ∷ xs) = ground (arith, length-update xs)

    pub All-update :
        (P : A → Type 0) (xs : List A)
        → ((x : A) → P x → P (f x))
        → All P xs
        → All P (update key p f xs)
    unfolding update
    All-update P [] keep a = tt
    All-update P (y ∷ xs) keep a = ground (arith, keep y a.0, All-update P xs keep a.1)

  module _ (f : A → A) (keeps : (x : A) → key (f x) ≡ key x) where
    pub Distinct-update : (xs : List A) → Distinct key xs → Distinct key (update key p f xs)
    unfolding update
    Distinct-update [] d = tt
    Distinct-update (y ∷ xs) d = ground (
      arith,
      keeps y,
      All-update f (λ x. key x ≢ key y) xs (λ x n. rw (keeps x) n) d.0,
      Distinct-update xs d.1,
    )

    pub find-update_self :
        (xs : List A) (x : A) → find key p xs ≡ some x → find key p (update key p f xs) ≡ some (f x)
    unfolding find update
    find-update_self [] x h = ground arith
    find-update_self (y ∷ xs) x h = ground (arith, keeps y, find-update_self xs x)

    pub find-update_ne :
        (q : ℤ) (xs : List A) → p ≢ q → find key q (update key p f xs) ≡ find key q xs
    unfolding find update
    find-update_ne q [] n = refl
    find-update_ne q (y ∷ xs) n =
        ground (arith, keeps y, eqz_iff (key y) p, eqz_iff (key y) q, find-update_ne q xs n)

-- Two lists with the same keys in the same order.
module _ {A : Type 0} (key : A → ℤ) where
  abbrev pub SameKeys : List A → List A → Type 0
  SameKeys [] [] = Unit {0}
  SameKeys [] (y ∷ ys) = ⊥
  SameKeys (x ∷ xs) [] = ⊥
  SameKeys (x ∷ xs) (y ∷ ys) = (key y ≡ key x) × SameKeys xs ys

  pub SameKeys-refl : (xs : List A) → SameKeys xs xs
  SameKeys-refl [] = tt
  SameKeys-refl (x ∷ xs) = (refl, SameKeys-refl xs)

  pub SameKeys-length : (xs ys : List A) → SameKeys xs ys → length ys ≡ length xs
  SameKeys-length [] [] h = refl
  SameKeys-length [] (y ∷ ys) h = absurd h
  SameKeys-length (x ∷ xs) [] h = absurd h
  SameKeys-length (x ∷ xs) (y ∷ ys) h = omega (arith, SameKeys-length xs ys h.1)

  pub SameKeys-All :
      (P : ℤ → Type 0) (xs ys : List A)
      → SameKeys xs ys
      → All (λ x. P (key x)) xs
      → All (λ x. P (key x)) ys
  SameKeys-All P [] [] h a = tt
  SameKeys-All P [] (y ∷ ys) h a = absurd h
  SameKeys-All P (x ∷ xs) [] h a = absurd h
  SameKeys-All P (x ∷ xs) (y ∷ ys) h a = (rw h.0 a.0, SameKeys-All P xs ys h.1 a.1)

  pub SameKeys-Distinct : (xs ys : List A) → SameKeys xs ys → Distinct key xs → Distinct key ys
  SameKeys-Distinct [] [] h d = tt
  SameKeys-Distinct [] (y ∷ ys) h d = absurd h
  SameKeys-Distinct (x ∷ xs) [] h d = absurd h
  SameKeys-Distinct (x ∷ xs) (y ∷ ys) h d =
      (rw h.0 (SameKeys-All (λ q. q ≢ key x) xs ys h.1 d.0), SameKeys-Distinct xs ys h.1 d.1)

  pub update-SameKeys :
      (p : ℤ) (f : A → A) (xs : List A)
      → ((x : A) → key (f x) ≡ key x)
      → SameKeys xs (update key p f xs)
  unfolding update
  update-SameKeys p f [] keeps = tt
  update-SameKeys p f (x ∷ xs) keeps =
      ground (arith, keeps x, SameKeys-refl xs, update-SameKeys p f xs keeps)

-- The second of two neighbours, where the keys are distinct.
module _ {A : Type 0} (key : A → ℤ) where
  pub All-second : (P : A → Type 0) (xs ys : List A) (a b : A) → All P (xs ++ a ∷ b ∷ ys) → P b
  All-second P [] ys a b h = h.1.0
  All-second P (x ∷ xs) ys a b h = All-second P xs ys a b h.1

  pub find-second :
      (xs ys : List A) (a b : A)
      → Distinct key (xs ++ a ∷ b ∷ ys)
      → find key (key b) (xs ++ a ∷ b ∷ ys) ≡ some b
  unfolding find
  find-second [] ys a b d = ground (arith, d.0.0, eqz_iff (key a) (key b), eqz_iff (key b) (key b))
  find-second (x ∷ xs) ys a b d =
      let ne = All-second (λ z. key z ≢ key x) xs ys a b d.0 in
      ground (arith, ne, eqz_iff (key x) (key b), find-second xs ys a b d.1)

  pub update-second :
      (f : A → A) (xs ys : List A) (a b : A)
      → Distinct key (xs ++ a ∷ b ∷ ys)
      → update key (key b) f (xs ++ a ∷ b ∷ ys) ≡ xs ++ a ∷ f b ∷ ys
  unfolding update
  update-second f [] ys a b d =
      ground (arith, d.0.0, eqz_iff (key a) (key b), eqz_iff (key b) (key b))
  update-second f (x ∷ xs) ys a b d =
      let ne = All-second (λ z. key z ≢ key x) xs ys a b d.0 in
      ground (arith, ne, eqz_iff (key x) (key b), update-second f xs ys a b d.1)
