-- ===== src/Prelude/Lists.antt =====
-- Lists as the program and its tables use them: lengths by native numbers, selections by Boolean
-- tests, and the predicates of the invariants.
use Prim.Native.Nat.{ℕ, zero, suc, ◌+◌, ◌≤◌}
use mathlib.Core.Path.{◌≡◌, refl}
use mathlib.Core.Bool.{Bool, true, false, not, ◌&&◌, ◌||◌}
use mathlib.Core.Option.{Option, none, some}
use mathlib.Core.List.{List, [], ◌∷◌, ◌++◌, map}
use native.Mathlib.Omega.{arith}
use live_transcript_server.Prelude.Tests.{if◌then◌else◌}

module _ {ℓ} {A : Type ℓ} where
  abbrev pub length : List A → ℕ
  length [] = 0
  length (x ∷ xs) = suc (length xs)

  abbrev pub take : ℕ → List A → List A
  take zero xs = []
  take (suc n) [] = []
  take (suc n) (x ∷ xs) = x ∷ take n xs

  abbrev pub drop : ℕ → List A → List A
  drop zero xs = xs
  drop (suc n) [] = []
  drop (suc n) (x ∷ xs) = drop n xs

  abbrev pub get_elem? : List A → ℕ → Option A
  get_elem? [] i = none
  get_elem? (x ∷ xs) zero = some x
  get_elem? (x ∷ xs) (suc i) = get_elem? xs i

  abbrev pub head? : List A → Option A
  head? [] = none
  head? (x ∷ xs) = some x

  -- The rows that pass a test, in order.
  unfoldable pub filter : (A → Bool) → List A → List A
  filter p [] = []
  filter p (x ∷ xs) = let rest = filter p xs in if p x then x ∷ rest else rest

  abbrev pub any : (A → Bool) → List A → Bool
  any p [] = false
  any p (x ∷ xs) = p x || any p xs

  -- Changes the entries that pass a test.
  unfoldable pub update_where : (A → Bool) → (A → A) → List A → List A
  update_where p f [] = []
  update_where p f (x ∷ xs) = (if p x then f x else x) ∷ update_where p f xs

  pub length-append : (xs ys : List A) → length (xs ++ ys) ≡ length xs + length ys
  length-append [] ys = omega arith
  length-append (x ∷ xs) ys = omega (arith, length-append xs ys)

  pub length-filter-le : (p : A → Bool) (xs : List A) → length (filter p xs) ≤ length xs
  unfolding filter
  length-filter-le p [] = omega arith
  length-filter-le p (x ∷ xs) = ground (arith, length-filter-le p xs)

  pub filter-append :
      (p : A → Bool) (xs ys : List A) → filter p (xs ++ ys) ≡ filter p xs ++ filter p ys
  unfolding filter
  filter-append p [] ys = refl
  filter-append p (x ∷ xs) ys = ground (arith, filter-append p xs ys)

  abbrev pub All {κ} : (A → Type κ) → List A → Type κ
  All P [] = Unit
  All P (x ∷ xs) = P x × All P xs

  pub All-append {κ} : (P : A → Type κ) (xs ys : List A) → All P xs → All P ys → All P (xs ++ ys)
  All-append P [] ys hx hy = hy
  All-append P (x ∷ xs) ys hx hy = (hx.0, All-append P xs ys hx.1 hy)

  pub All-split {κ} : (P : A → Type κ) (xs ys : List A) → All P (xs ++ ys) → All P xs × All P ys
  All-split P [] ys h = (tt, h)
  All-split P (x ∷ xs) ys h = let k = All-split P xs ys h.1 in ((h.0, k.0), k.1)

  pub All-map {κ μ} :
      {P : A → Type κ} {Q : A → Type μ} (f : (x : A) → P x → Q x) (xs : List A)
      → All P xs
      → All Q xs
  All-map f [] h = tt
  All-map f (x ∷ xs) h = (f x h.0, All-map f xs h.1)

  pub filter-filter :
      (p q : A → Bool) (xs : List A) → filter q (filter p xs) ≡ filter (λ x. p x && q x) xs
  unfolding filter
  filter-filter p q [] = refl
  filter-filter p q (x ∷ xs) = ground (arith, filter-filter p q xs)

  -- A change of the entries that pass a test changes nothing where none does.
  pub update_where-none :
      (p : A → Bool) (f : A → A) (xs : List A) → length (filter p xs) ≡ 0 → update_where p f xs ≡ xs
  unfolding filter update_where
  update_where-none p f [] h = refl
  update_where-none p f (x ∷ xs) h = ground (arith, update_where-none p f xs)

  -- A change that a selection does not see can be made before or after it.
  pub filter-update_where :
      (q p : A → Bool) (f : A → A) (xs : List A)
      → ((x : A) → q (f x) ≡ q x)
      → filter q (update_where p f xs) ≡ update_where p f (filter q xs)
  unfolding filter update_where
  filter-update_where q p f [] h = refl
  filter-update_where q p f (x ∷ xs) h = ground (arith, filter-update_where q p f xs h, h x)

  -- Where a test holds throughout, it need not be made.
  pub update_where-and :
      (q p : A → Bool) (f : A → A) (xs : List A)
      → update_where (λ x. q x && p x) f (filter q xs) ≡ update_where p f (filter q xs)
  unfolding filter update_where
  update_where-and q p f [] = refl
  update_where-and q p f (x ∷ xs) = ground (arith, update_where-and q p f xs)

  pub filter-not : (p : A → Bool) (xs : List A) → filter p (filter (λ x. not (p x)) xs) ≡ []
  unfolding filter
  filter-not p [] = refl
  filter-not p (x ∷ xs) = ground (arith, filter-not p xs)

  pub filter-All : (p : A → Bool) (xs : List A) → All (λ x. p x ≡ true) xs → filter p xs ≡ xs
  unfolding filter
  filter-All p [] h = refl
  filter-All p (x ∷ xs) h = rw h.0 (rw (filter-All p xs h.1) refl)

  pub filter_none : (p : A → Bool) (xs : List A) → All (λ x. p x ≡ false) xs → filter p xs ≡ []
  unfolding filter
  filter_none p [] h = refl
  filter_none p (x ∷ xs) h = rw h.0 (filter_none p xs h.1)

  -- Dropping what one test selects leaves what a disjoint test selects.
  pub filter-filter_disjoint :
      (p q : A → Bool) (xs : List A)
      → ((x : A) → q x ≡ true → p x ≡ true)
      → filter q (filter p xs) ≡ filter q xs
  unfolding filter
  filter-filter_disjoint p q [] h = refl
  filter-filter_disjoint p q (x ∷ xs) h = ground (arith, filter-filter_disjoint p q xs h, h x)

  pub any-append : (p : A → Bool) (xs ys : List A) → any p (xs ++ ys) ≡ (any p xs || any p ys)
  any-append p [] ys = refl
  any-append p (x ∷ xs) ys = ground (arith, any-append p xs ys)

  -- If no entry that passes the first test passes the second, no entry passes both.
  pub any-and :
      (p q : A → Bool) (xs : List A)
      → All (λ x. q x ≡ false) (filter p xs)
      → any (λ x. p x && q x) xs ≡ false
  unfolding filter
  any-and p q [] h = refl
  any-and p q (x ∷ xs) h = go (p x) (any-and p q xs) h
    where
      go :
          (b : Bool)
          → (All (λ y. q y ≡ false) (filter p xs) → any (λ y. p y && q y) xs ≡ false)
          → All (λ y. q y ≡ false) (if b then x ∷ filter p xs else filter p xs)
          → (b && q x || any (λ y. p y && q y) xs) ≡ false
      go true ih k = ground (arith, ih k.1, k.0)
      go false ih k = ih k

  pub All-empty {κ} : (P : A → Type κ) (xs : List A) → length xs ≡ 0 → All P xs
  All-empty P [] h = tt
  All-empty P (x ∷ xs) h = absurd (omega arith)

  -- No two entries are the same by the given test: a table's primary key.
  abbrev pub Distinct : (A → A → Bool) → List A → Type 0
  Distinct same [] = Unit {0}
  Distinct same (x ∷ xs) = All (λ y. same x y ≡ false) xs × Distinct same xs

module _ {ℓ κ} {A : Type ℓ} {B : Type κ} (f : A → B) where
  pub All-map_to {μ} : (P : B → Type μ) (xs : List A) → All (λ x. P (f x)) xs → All P (map f xs)
  All-map_to P [] h = tt
  All-map_to P (x ∷ xs) h = (h.0, All-map_to P xs h.1)

  pub All-map_of {μ} : (P : B → Type μ) (xs : List A) → All P (map f xs) → All (λ x. P (f x)) xs
  All-map_of P [] h = tt
  All-map_of P (x ∷ xs) h = (h.0, All-map_of P xs h.1)

  pub length-map : (xs : List A) → length (map f xs) ≡ length xs
  length-map [] = refl
  length-map (x ∷ xs) = omega (arith, length-map xs)

  pub map-update_where :
      (p : A → Bool) (g : A → A) (q : B → Bool) (h : B → B) (xs : List A)
      → ((x : A) → q (f x) ≡ p x)
      → ((x : A) → f (g x) ≡ h (f x))
      → map f (update_where p g xs) ≡ update_where q h (map f xs)
  unfolding update_where
  map-update_where p g q h [] same change = refl
  map-update_where p g q h (x ∷ xs) same change =
      ground (arith, map-update_where p g q h xs same change, same x, change x)

  pub length-filter-map :
      (q : B → Bool) (xs : List A)
      → length (filter q (map f xs)) ≡ length (filter (λ x. q (f x)) xs)
  unfolding filter
  length-filter-map q [] = refl
  length-filter-map q (x ∷ xs) = ground (arith, length-filter-map q xs)
