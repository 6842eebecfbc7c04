-- ===== src/Prelude/Sort.antt =====
-- SQL's ORDER BY on an integer column: a stable insertion sort.
use mathlib.Core.Path.{◌≡◌, refl, ap, ◌∙◌}
use mathlib.Core.Bool.{Bool, true, false, ◌||◌}
use mathlib.Core.Option.{Option, none, some}
use mathlib.Core.Logic.{◌≢◌, inl, inr}
use mathlib.Core.List.{List, [], ◌∷◌, ◌++◌, map, Perm}
use mathlib.Core.List.Perm
use native.Mathlib.Omega.{arith}
use live_transcript_server.Prelude.Tests.{if◌then◌else◌, Bool-cases}
use live_transcript_server.Prelude.Int.{ℤ, le_ℤ, ◌≤ℤ◌, le_ℤ→le, le_ℤ_false}
use live_transcript_server.Prelude.Lists.{
  any, All, All-map, All-empty, head?, length, filter, update_where,
}

module _ {ℓ} {A : Type ℓ} (first : A → A → Bool) where
  -- Puts an entry before the first that does not come before it.
  unfoldable pub insert_by : A → List A → List A
  insert_by x [] = x ∷ []
  insert_by x (y ∷ ys) = if first x y then x ∷ y ∷ ys else y ∷ insert_by x ys

  unfoldable pub sort_by : List A → List A
  unfolding insert_by
  sort_by [] = []
  sort_by (x ∷ xs) = insert_by x (sort_by xs)

module _ {ℓ} {A : Type ℓ} where
  -- ORDER BY key ASC, and DESC.
  abbrev pub sort_asc : (A → ℤ) → List A → List A
  sort_asc key = sort_by (λ x y. le_ℤ (key x) (key y))

  abbrev pub sort_desc : (A → ℤ) → List A → List A
  sort_desc key = sort_by (λ x y. le_ℤ (key y) (key x))

  insert_by-last :
      (first : A → A → Bool) (x y : A) (xs : List A)
      → first x y ≡ true
      → insert_by first x (xs ++ y ∷ []) ≡ insert_by first x xs ++ y ∷ []
  unfolding insert_by
  insert_by-last first x y [] h = ground arith
  insert_by-last first x y (z ∷ zs) h = ground (arith, insert_by-last first x y zs h)

  -- An entry that comes after all others stays at the end.
  pub sort_by-last :
      (first : A → A → Bool) (y : A) (xs : List A)
      → All (λ x. first x y ≡ true) xs
      → sort_by first (xs ++ y ∷ []) ≡ sort_by first xs ++ y ∷ []
  unfolding sort_by
  sort_by-last first y [] h = refl
  sort_by-last first y (x ∷ xs) h =
      rw (sort_by-last first y xs h.1) (insert_by-last first x y (sort_by first xs) h.0)

  any-insert_by :
      (first : A → A → Bool) (p : A → Bool) (x : A) (xs : List A)
      → any p (insert_by first x xs) ≡ (p x || any p xs)
  unfolding insert_by
  any-insert_by first p x [] = refl
  any-insert_by first p x (y ∷ ys) = ground (arith, any-insert_by first p x ys)

  -- Sorting keeps the entries.
  pub any-sort_by :
      (first : A → A → Bool) (p : A → Bool) (xs : List A) → any p (sort_by first xs) ≡ any p xs
  unfolding sort_by
  any-sort_by first p [] = refl
  any-sort_by first p (x ∷ xs) =
      any-insert_by first p x (sort_by first xs) ∙ ap (λ b. p x || b) (any-sort_by first p xs)

  insert_by-ne-nil : (first : A → A → Bool) (x : A) (xs : List A) → insert_by first x xs ≢ []
  unfolding insert_by
  insert_by-ne-nil first x [] e = cc
  insert_by-ne-nil first x (y ∷ ys) e = ground arith

  pub sort_by-nil : (first : A → A → Bool) (xs : List A) → sort_by first xs ≡ [] → xs ≡ []
  unfolding sort_by
  sort_by-nil first [] e = refl
  sort_by-nil first (x ∷ xs) e = absurd (insert_by-ne-nil first x (sort_by first xs) e)

  insert_by-perm :
      (first : A → A → Bool) (x : A) (xs : List A) → Perm (insert_by first x xs) (x ∷ xs)
  unfolding insert_by
  insert_by-perm first x [] = Perm.refl _
  insert_by-perm first x (y ∷ ys) = elim (Bool-cases (first x y)) [
    | inl e ↦ rw e (Perm.refl _)
    | inr e ↦ rw e (Perm.trans (Perm.cons y (insert_by-perm first x ys)) (Perm.swap x y ys))
  ]

  -- The result has the rows that were given, as often.
  pub sort_by-perm : (first : A → A → Bool) (xs : List A) → Perm (sort_by first xs) xs
  unfolding sort_by
  sort_by-perm first [] = Perm.refl _
  sort_by-perm first (x ∷ xs) =
      Perm.trans (insert_by-perm first x (sort_by first xs)) (Perm.cons x (sort_by-perm first xs))

  pub insert_by-All {κ} :
      (first : A → A → Bool) (P : A → Type κ) (x : A) (xs : List A)
      → P x
      → All P xs
      → All P (insert_by first x xs)
  unfolding insert_by
  insert_by-All first P x [] h k = (h, tt)
  insert_by-All first P x (y ∷ ys) h k = elim (Bool-cases (first x y)) [
    | inl e ↦ rw e (h, k)
    | inr e ↦ rw e (k.0, insert_by-All first P x ys h k.1)
  ]

  pub sort_by-All {κ} :
      (first : A → A → Bool) (P : A → Type κ) (xs : List A) → All P xs → All P (sort_by first xs)
  unfolding sort_by
  sort_by-All first P [] h = tt
  sort_by-All first P (x ∷ xs) h =
      insert_by-All first P x (sort_by first xs) h.0 (sort_by-All first P xs h.1)

  All-insert_by {κ} :
      (first : A → A → Bool) (P : A → Type κ) (x : A) (xs : List A)
      → All P (insert_by first x xs)
      → P x × All P xs
  unfolding insert_by
  All-insert_by first P x [] h = h
  All-insert_by first P x (y ∷ ys) h = go (first x y) (All-insert_by first P x ys) h
    where
      go :
          (b : Bool)
          → (All P (insert_by first x ys) → P x × All P ys)
          → All P (if b then x ∷ y ∷ ys else y ∷ insert_by first x ys)
          → P x × (P y × All P ys)
      go true ih k = k
      go false ih k = let r = ih k.1 in (r.0, (k.0, r.1))

  -- What holds of all sorted rows holds of all rows.
  pub All-sort_by {κ} :
      (first : A → A → Bool) (P : A → Type κ) (xs : List A) → All P (sort_by first xs) → All P xs
  unfolding sort_by
  All-sort_by first P [] h = tt
  All-sort_by first P (x ∷ xs) h =
      let k = All-insert_by first P x (sort_by first xs) h in (k.0, All-sort_by first P xs k.1)

  length-filter-insert_by :
      (first : A → A → Bool) (p : A → Bool) (x : A) (xs : List A)
      → length (filter p (insert_by first x xs)) ≡ length (filter p (x ∷ xs))
  unfolding insert_by filter
  length-filter-insert_by first p x [] = refl
  length-filter-insert_by first p x (y ∷ ys) = ground (arith, length-filter-insert_by first p x ys)

  -- Sorting keeps the number of rows that pass a test.
  pub length-filter-sort_by :
      (first : A → A → Bool) (p : A → Bool) (xs : List A)
      → length (filter p (sort_by first xs)) ≡ length (filter p xs)
  unfolding sort_by filter
  length-filter-sort_by first p [] = refl
  length-filter-sort_by first p (x ∷ xs) = ground (
    arith,
    length-filter-insert_by first p x (sort_by first xs),
    length-filter-sort_by first p xs,
  )

  insert_by-update_where :
      (first : A → A → Bool) (p : A → Bool) (f : A → A) (x : A) (xs : List A)
      → ((a b : A) → first (f a) b ≡ first a b)
      → ((a b : A) → first a (f b) ≡ first a b)
      → insert_by first (if p x then f x else x) (update_where p f xs)
        ≡ update_where p f (insert_by first x xs)
  unfolding insert_by update_where
  insert_by-update_where first p f x [] l r = refl
  insert_by-update_where first p f x (y ∷ ys) l r =
      ground (arith, insert_by-update_where first p f x ys l r, l x y, l x (f y), r x y, r (f x) y)

  -- A change of rows that leaves their order alone can be made before or after sorting.
  pub sort_by-update_where :
      (first : A → A → Bool) (p : A → Bool) (f : A → A) (xs : List A)
      → ((a b : A) → first (f a) b ≡ first a b)
      → ((a b : A) → first a (f b) ≡ first a b)
      → sort_by first (update_where p f xs) ≡ update_where p f (sort_by first xs)
  unfolding sort_by update_where
  sort_by-update_where first p f [] l r = refl
  sort_by-update_where first p f (x ∷ xs) l r =
      ap (insert_by first (if p x then f x else x)) (sort_by-update_where first p f xs l r)
      ∙ insert_by-update_where first p f x (sort_by first xs) l r

  -- Rows in increasing order of a key, with nothing between two neighbours out of order.
  abbrev pub IsSorted : (A → ℤ) → List A → Type 0
  IsSorted key [] = Unit {0}
  IsSorted key (x ∷ xs) = All (λ y. key x ≤ℤ key y) xs × IsSorted key xs

  insert_asc-All :
      (key : A → ℤ) (z x : A) (xs : List A)
      → key z ≤ℤ key x
      → All (λ y. key z ≤ℤ key y) xs
      → All (λ y. key z ≤ℤ key y) (insert_by (λ a b. le_ℤ (key a) (key b)) x xs)
  unfolding insert_by
  insert_asc-All key z x [] h k = (h, tt)
  insert_asc-All key z x (y ∷ ys) h k = elim (Bool-cases (le_ℤ (key x) (key y))) [
    | inl e ↦ rw e (h, k)
    | inr e ↦ rw e (k.0, insert_asc-All key z x ys h k.1)
  ]

  le_trans_All :
      (key : A → ℤ) (x y : A) (ys : List A)
      → key x ≤ℤ key y
      → All (λ z. key y ≤ℤ key z) ys
      → All (λ z. key x ≤ℤ key z) ys
  le_trans_All key x y ys h k = All-map (λ z (e : key y ≤ℤ key z). omega arith) ys k

  insert_asc-IsSorted :
      (key : A → ℤ) (x : A) (xs : List A)
      → IsSorted key xs
      → IsSorted key (insert_by (λ a b. le_ℤ (key a) (key b)) x xs)
  unfolding insert_by
  insert_asc-IsSorted key x [] s = (tt, tt)
  insert_asc-IsSorted key x (y ∷ ys) s = elim (Bool-cases (le_ℤ (key x) (key y))) [
    | inl e ↦
        rw e
          ((le_ℤ→le (key x) (key y) e, le_trans_All key x y ys (le_ℤ→le (key x) (key y) e) s.0), s)
    | inr e ↦ rw e (
      insert_asc-All key y x ys (le_ℤ_false (key x) (key y) e) s.0,
      insert_asc-IsSorted key x ys s.1,
    )
  ]

  pub sort_asc-IsSorted : (key : A → ℤ) (xs : List A) → IsSorted key (sort_asc key xs)
  unfolding sort_by
  sort_asc-IsSorted key [] = tt
  sort_asc-IsSorted key (x ∷ xs) =
      insert_asc-IsSorted key x (sort_asc key xs) (sort_asc-IsSorted key xs)

  -- The first row, if there is one, has the largest key.
  abbrev pub IsTop : (A → ℤ) → Option A → List A → Type 0
  IsTop key none xs = length xs ≡ 0
  IsTop key (some h) xs = All (λ x. key x ≤ℤ key h) xs

  insert_desc-IsTop :
      (key : A → ℤ) (x : A) (s xs : List A)
      → IsTop key (head? s) xs
      → IsTop key (head? (insert_by (λ a b. le_ℤ (key b) (key a)) x s)) (x ∷ xs)
  unfolding insert_by
  insert_desc-IsTop key x [] xs h = (omega arith, All-empty _ xs h)
  insert_desc-IsTop key x (y ∷ ys) xs h = elim (Bool-cases (le_ℤ (key y) (key x))) [
    | inl e ↦ rw e (
      omega arith,
      All-map (λ z (k : key z ≤ℤ key y). omega (arith, le_ℤ→le (key y) (key x) e)) xs h,
    )
    | inr e ↦ rw e (le_ℤ_false (key y) (key x) e, h)
  ]

  pub sort_desc-IsTop : (key : A → ℤ) (xs : List A) → IsTop key (head? (sort_desc key xs)) xs
  unfolding sort_by
  sort_desc-IsTop key [] = refl
  sort_desc-IsTop key (x ∷ xs) =
      insert_desc-IsTop key x (sort_desc key xs) xs (sort_desc-IsTop key xs)

module _ {ℓ κ} {A : Type ℓ} {B : Type κ} (f : A → B) (first : B → B → Bool) where
  insert_by-map :
      (x : A) (xs : List A)
      → insert_by first (f x) (map f xs) ≡ map f (insert_by (λ a b. first (f a) (f b)) x xs)
  unfolding insert_by
  insert_by-map x [] = refl
  insert_by-map x (y ∷ ys) = elim (Bool-cases (first (f x) (f y))) [
    | inl e ↦ rw e refl
    | inr e ↦ rw (e, insert_by-map x ys) refl
  ]

  -- Sorting commutes with a change of the rows' form.
  pub sort_by-map :
      (xs : List A) → sort_by first (map f xs) ≡ map f (sort_by (λ a b. first (f a) (f b)) xs)
  unfolding sort_by
  sort_by-map [] = refl
  sort_by-map (x ∷ xs) =
      ap (insert_by first (f x)) (sort_by-map xs)
      ∙ insert_by-map x (sort_by (λ a b. first (f a) (f b)) xs)
