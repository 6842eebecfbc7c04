-- ===== src/Media/Family.antt =====
-- internal/media/merge.go: the chunks of a merge as a family, its counts and sums.
use live_transcript_server.Prelude.{
  ℕ, zero, suc, ◌+◌, ◌-◌, ◌≤◌, ◌<◌, ◌≡◌, refl, true, not, ◌&&◌, ◌⊎◌, inl, inr, arith, eqb,
  Bool-cases,
}
use live_transcript_server.Media.Merge.{
  Chunk, waiting, downloading, set_chunk, is_downloading, quiet,
}

-- The sum of a weight over the first `n` chunks.
pub total : (Chunk → ℕ) → ℕ → (ℕ → Chunk) → ℕ
total w zero f = 0
total w (suc n) f = total w n f + w (f n)

module _ (w : Chunk → ℕ) where
  total-set_of_le :
      (n : ℕ) (f : ℕ → Chunk) (i : ℕ) (c : Chunk)
      → n ≤ i
      → total w n (set_chunk i c f) ≡ total w n f
  unfolding total
  total-set_of_le zero f i c h = refl
  total-set_of_le (suc n) f i c h = ground (arith, total-set_of_le n f i c)

  pub total-set :
      (n : ℕ) (f : ℕ → Chunk) (i : ℕ) (c : Chunk)
      → i < n
      → total w n (set_chunk i c f) + w (f i) ≡ total w n f + w c
  unfolding total
  total-set zero f i c h = absurd (omega arith)
  total-set (suc n) f i c h = elim (Bool-cases (eqb i n)) [
    | inl last ↦ ground (arith, total-set_of_le n f i c)
    | inr below ↦ ground (arith, total-set n f i c)
  ]

  pub total-const : (n : ℕ) (c : Chunk) → w c ≤ 3 → total w n (λ i. c) ≤ n + n + n
  unfolding total
  total-const zero c h = omega arith
  total-const (suc n) c h = omega (arith, total-const n c h)

  -- A weight of at most 1 that is 0 outside an interval sums to at most its length.
  pub total-interval :
      (n : ℕ) (f : ℕ → Chunk) (lo hi : ℕ)
      → ((c : Chunk) → w c ≤ 1)
      → ((i : ℕ) → i < lo → w (f i) ≡ 0)
      → ((i : ℕ) → hi ≤ i → w (f i) ≡ 0)
      → lo ≤ hi
      → (total w n f ≤ n - lo) × (total w n f ≤ hi - lo)
  unfolding total
  total-interval zero f lo hi one below above h = omega arith
  total-interval (suc n) f lo hi one below above h =
      let (p, q) = total-interval n f lo hi one below above h in
      ground (arith, one (f n), below n, above n)

-- A download that runs, if not all are quiet.
pub quiet-cases :
    (n : ℕ) (f : ℕ → Chunk) → (quiet n f ≡ true) ⊎ ((i : ℕ) × (i < n) × (f i ≡ downloading))
unfolding quiet
quiet-cases zero f = inl refl
quiet-cases (suc n) f = go (f n) refl (quiet-cases n f)
  where
    go :
        (c : Chunk)
        → f n ≡ c
        → (quiet n f ≡ true) ⊎ ((i : ℕ) × (i < n) × (f i ≡ downloading))
        → ((not (is_downloading (f n)) && quiet n f) ≡ true)
          ⊎ ((i : ℕ) × (i < suc n) × (f i ≡ downloading))
    go downloading e r = inr (n, omega arith, e)
    go Chunk.waiting e (inl q) = inl (ground arith)
    go Chunk.broken e (inl q) = inl (ground arith)
    go Chunk.gone e (inl q) = inl (ground arith)
    go (Chunk.arrived b) e (inl q) = inl (ground arith)
    go Chunk.waiting e (inr (i, lt, d)) = inr (i, omega arith, d)
    go Chunk.broken e (inr (i, lt, d)) = inr (i, omega arith, d)
    go Chunk.gone e (inr (i, lt, d)) = inr (i, omega arith, d)
    go (Chunk.arrived b) e (inr (i, lt, d)) = inr (i, omega arith, d)

pub quiet-waiting : (n : ℕ) → quiet n (λ i. waiting) ≡ true
unfolding quiet
quiet-waiting zero = refl
quiet-waiting (suc n) = quiet-waiting n

pub quiet-at : (n : ℕ) (f : ℕ → Chunk) (i : ℕ) → quiet n f ≡ true → i < n → f i ≡ downloading → ⊥
unfolding quiet
quiet-at zero f i q lt d = absurd (omega arith)
quiet-at (suc n) f i q lt d = ground (arith, quiet-at n f i)
