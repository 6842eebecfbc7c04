-- ===== src/Prelude/Select.antt =====
-- What a selection of a table's rows keeps: predicates on all rows, and the first row.
use mathlib.Core.Path.{◌≡◌, refl}
use mathlib.Core.Bool.{Bool, true, false}
use mathlib.Core.Option.{none, some}
use mathlib.Core.List.{List, [], ◌∷◌}
use native.Mathlib.Omega.{arith}
use live_transcript_server.Prelude.Tests.{if◌then◌else◌}
use live_transcript_server.Prelude.Lists.{length, head?, filter, any, update_where, All}

module _ {ℓ} {A : Type ℓ} where
  pub All-filter {κ} :
      (P : A → Type κ) (p : A → Bool) (xs : List A) → All P xs → All P (filter p xs)
  unfolding filter
  All-filter P p [] h = tt
  All-filter P p (x ∷ xs) h = go (p x) (All-filter P p xs h.1)
    where
      go : (b : Bool) → All P (filter p xs) → All P (if b then x ∷ filter p xs else filter p xs)
      go true ih = (h.0, ih)
      go false ih = ih

  -- What a selection has passed its test.
  pub All-filter_test : (p : A → Bool) (xs : List A) → All (λ x. p x ≡ true) (filter p xs)
  unfolding filter
  All-filter_test p [] = tt
  All-filter_test p (x ∷ xs) = go (p x) refl (All-filter_test p xs)
    where
      go :
          (b : Bool)
          → p x ≡ b
          → All (λ y. p y ≡ true) (filter p xs)
          → All (λ y. p y ≡ true) (if b then x ∷ filter p xs else filter p xs)
      go true e ih = (e, ih)
      go false e ih = ih

  pub All-update_where {κ μ} :
      {P : A → Type κ} (Q : A → Type μ) (p : A → Bool) (f : A → A) (xs : List A)
      → ((x : A) → P x → Q x)
      → ((x : A) → P x → Q (f x))
      → All P xs
      → All Q (update_where p f xs)
  unfolding update_where
  All-update_where Q p f [] l r h = tt
  All-update_where Q p f (x ∷ xs) l r h = (go (p x), All-update_where Q p f xs l r h.1)
    where
      go : (b : Bool) → Q (if b then f x else x)
      go true = r x h.0
      go false = l x h.0

  pub any-All : (p : A → Bool) (xs : List A) → any p xs ≡ false → All (λ x. p x ≡ false) xs
  any-All p [] h = tt
  any-All p (x ∷ xs) h = (ground arith, any-All p xs (ground arith))

module _ {ℓ} {A : Type ℓ} where
  pub All-zip {κ μ ν} :
      {P : A → Type κ} {Q : A → Type μ} (R : A → Type ν) (xs : List A)
      → ((x : A) → P x → Q x → R x)
      → All P xs
      → All Q xs
      → All R xs
  All-zip R [] f h k = tt
  All-zip R (x ∷ xs) f h k = (f x h.0 k.0, All-zip R xs f h.1 k.1)

  -- Dropping entries that a search does not look for does not change its answer.
  pub any-filter :
      (p q : A → Bool) (xs : List A)
      → ((x : A) → p x ≡ true → q x ≡ true)
      → any p (filter q xs) ≡ any p xs
  unfolding filter
  any-filter p q [] h = refl
  any-filter p q (x ∷ xs) h = ground (arith, any-filter p q xs h, h x)

  -- The first entry that a search finds, when such entries are changed.
  pub head-update_where :
      (p : A → Bool) (f : A → A) (xs : List A)
      → any p xs ≡ true
      → ((x : A) → p (f x) ≡ p x)
      → (a : A) × (head? (filter p xs) ≡ some a)
        × (head? (filter p (update_where p f xs)) ≡ some (f a))
  unfolding filter update_where
  head-update_where p f [] h k = cc
  head-update_where p f (x ∷ xs) h k = go (p x) refl (head-update_where p f xs)
    where
      Goal : List A → List A → Type ℓ
      Goal ys zs = (a : A) × (head? ys ≡ some a) × (head? zs ≡ some (f a))

      go :
          (b : Bool)
          → p x ≡ b
          → (any p xs ≡ true
              → ((y : A) → p (f y) ≡ p y)
              → Goal (filter p xs) (filter p (update_where p f xs)))
          → Goal (filter p (x ∷ xs)) (filter p (update_where p f (x ∷ xs)))
      go true e ih = (x, rw e refl, rw e (rw (k x) (rw e refl)))
      go false e ih = let (a, l, r) = ih (ground arith) k in (a, rw e l, rw e (rw e r))

  pub filter-any-none : (p : A → Bool) (xs : List A) → any p xs ≡ false → head? (filter p xs) ≡ none
  unfolding filter
  filter-any-none p [] h = refl
  filter-any-none p (x ∷ xs) h = ground (arith, filter-any-none p xs)

  -- No entry of a selection passes a test that excludes the selection's.
  pub length-filter_both :
      (p q : A → Bool) (xs : List A)
      → ((x : A) → p x ≡ true → q x ≡ false)
      → length (filter q (filter p xs)) ≡ 0
  unfolding filter
  length-filter_both p q [] h = refl
  length-filter_both p q (x ∷ xs) h = ground (arith, length-filter_both p q xs h, h x)

  pub filter-cong :
      (p q : A → Bool) (xs : List A) → All (λ x. p x ≡ q x) xs → filter p xs ≡ filter q xs
  unfolding filter
  filter-cong p q [] h = refl
  filter-cong p q (x ∷ xs) h = ground (arith, filter-cong p q xs h.1, h.0)
