-- ===== src/Prelude/Keyed.antt =====
-- Tables with a primary key, under the statements.
use mathlib.Core.Path.{◌≡◌, refl, ◌∙◌}
use mathlib.Core.Option.{some}
use mathlib.Core.Bool.{Bool, true, false}
use mathlib.Core.Logic.{inl, inr}
use mathlib.Core.List.{List, [], ◌∷◌, ◌++◌}
use native.Mathlib.Omega.{arith}
use live_transcript_server.Prelude.Tests.{if◌then◌else◌}
use live_transcript_server.Prelude.Lists.{
  head?, filter, any, update_where, All, All-map, All-append, Distinct,
}
use live_transcript_server.Prelude.Tests.{Bool-cases}
use live_transcript_server.Prelude.Sort.{insert_by, insert_by-All, sort_by, sort_by-All}
use live_transcript_server.Prelude.Select.{All-zip, All-filter, All-update_where}

module _ {ℓ} {A : Type ℓ} (same : A → A → Bool) where
  pub Distinct-filter :
      (p : A → Bool) (xs : List A) → Distinct same xs → Distinct same (filter p xs)
  unfolding filter
  Distinct-filter p [] h = tt
  Distinct-filter p (x ∷ xs) h = go (p x) (Distinct-filter p xs h.1)
    where
      go :
          (b : Bool)
          → Distinct same (filter p xs)
          → Distinct same (if b then x ∷ filter p xs else filter p xs)
      go true ih = (All-filter _ p xs h.0, ih)
      go false ih = ih

  -- A change that leaves the key alone keeps the keys distinct.
  pub Distinct-update_where :
      (p : A → Bool) (f : A → A) (xs : List A)
      → ((x y : A) → same (f x) y ≡ same x y)
      → ((x y : A) → same x (f y) ≡ same x y)
      → Distinct same xs
      → Distinct same (update_where p f xs)
  unfolding update_where
  Distinct-update_where p f [] l r h = tt
  Distinct-update_where p f (x ∷ xs) l r h = (
    All-update_where (λ y. same (if p x then f x else x) y ≡ false) p f xs (first (p x))
        (λ y e. r (if p x then f x else x) y ∙ first (p x) y e) h.0,
    Distinct-update_where p f xs l r h.1,
  )
    where
      first : (b : Bool) (y : A) → same x y ≡ false → same (if b then f x else x) y ≡ false
      first true y e = l x y ∙ e
      first false y e = e

  -- A new entry at the end keeps the keys distinct.
  pub Distinct-append :
      (x : A) (xs : List A)
      → ((y : A) → same x y ≡ false → same y x ≡ false)
      → any (same x) xs ≡ false
      → Distinct same xs
      → Distinct same (xs ++ x ∷ [])
  Distinct-append x [] symm new h = (tt, tt)
  Distinct-append x (y ∷ ys) symm new h = (
    All-append _ ys (x ∷ []) h.0 (symm y (ground arith), tt),
    Distinct-append x ys symm (ground arith) h.1,
  )

  module _ (symm : (x y : A) → same x y ≡ false → same y x ≡ false) (first : A → A → Bool) where
    insert_by-Distinct :
        (x : A) (xs : List A)
        → All (λ y. same x y ≡ false) xs
        → Distinct same xs
        → Distinct same (insert_by first x xs)
    unfolding insert_by
    insert_by-Distinct x [] h d = (tt, tt)
    insert_by-Distinct x (y ∷ ys) h d = elim (Bool-cases (first x y)) [
      | inl e ↦ rw e (h, d)
      | inr e ↦ rw e (
        insert_by-All first (λ z. same y z ≡ false) x ys (symm x y h.0) d.0,
        insert_by-Distinct x ys h.1 d.1,
      )
    ]

    -- Sorting keeps the keys distinct.
    pub Distinct-sort_by : (xs : List A) → Distinct same xs → Distinct same (sort_by first xs)
    unfolding sort_by
    Distinct-sort_by [] d = tt
    Distinct-sort_by (x ∷ xs) d =
        insert_by-Distinct x (sort_by first xs) (sort_by-All first (λ y. same x y ≡ false) xs d.0)
          (Distinct-sort_by xs d.1)

  -- Another test that agrees on the entries with a property.
  pub Distinct-on {κ} :
      (P : A → Type κ) (other : A → A → Bool) (xs : List A)
      → ((x y : A) → P x → P y → same x y ≡ false → other x y ≡ false)
      → All P xs
      → Distinct same xs
      → Distinct other xs
  Distinct-on P other [] f h d = tt
  Distinct-on P other (x ∷ xs) f h d =
      (All-zip _ xs (λ y p e. f x y h.0 p e) h.1 d.0, Distinct-on P other xs f h.1 d.1)

module _ {ℓ} {A : Type ℓ} (p : A → Bool) (first : A → A → Bool) where
  head-insert_by-skip :
      (x : A) (xs : List A)
      → p x ≡ false
      → head? (filter p (insert_by first x xs)) ≡ head? (filter p xs)
  unfolding insert_by filter
  head-insert_by-skip x [] h = rw h refl
  head-insert_by-skip x (y ∷ ys) h = ground (arith, h, head-insert_by-skip x ys)

  head-insert_by-only :
      (x : A) (xs : List A)
      → p x ≡ true
      → All (λ y. p y ≡ false) xs
      → head? (filter p (insert_by first x xs)) ≡ some x
  unfolding insert_by filter
  head-insert_by-only x [] h k = rw h refl
  head-insert_by-only x (y ∷ ys) h k = ground (arith, h, k.0, head-insert_by-only x ys h k.1)

  -- Where only one entry can pass a test, sorting does not change which one does.
  pub head-sort_by :
      (same : A → A → Bool) (xs : List A)
      → ((x y : A) → p x ≡ true → same x y ≡ false → p y ≡ false)
      → Distinct same xs
      → head? (filter p (sort_by first xs)) ≡ head? (filter p xs)
  unfolding sort_by filter
  head-sort_by same [] apart d = refl
  head-sort_by same (x ∷ xs) apart d = elim (Bool-cases (p x)) [
    | inl e ↦
        let others : All (λ y. p y ≡ false) xs = All-map (λ y h. apart x y e h) xs d.0 in
        rw e (
          head-insert_by-only x (sort_by first xs) e
            (sort_by-All first (λ y. p y ≡ false) xs others))
    | inr e ↦ rw e (head-insert_by-skip x (sort_by first xs) e ∙ head-sort_by same xs apart d.1)
  ]
