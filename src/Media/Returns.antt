-- ===== src/Media/Returns.antt =====
-- internal/media/merge.go: a merge returns, whatever the schedule.
use live_transcript_server.Prelude.{
  ℕ, ◌+◌, ◌-◌, ◌*◌, ◌≤◌, ◌<◌, ◌≡◌, refl, String, Bool, true, false, Option, none, some, List, arith,
  ◌⊎◌, inl, inr, length, if◌then◌else◌, ltb, eqb, Bool-cases,
}
use live_transcript_server.Media.Merge.{
  Bytes, Chunk, waiting, downloading, broken, gone, arrived, Stage, checking, receiving, aborting,
  returned, Merge, Event, start, exhaust, quit, lose, check, append, reject, notice, finish, leave,
  cancel, quiet, step, begin,
}
use live_transcript_server.Media.Family.{total, total-set, total-const, quiet-cases}
use live_transcript_server.Media.Moves.{
  Move, starts, ends, lands, loses, receives, aborts, appends, finishes, leaves, cancels, fetched,
  next, step-Move,
}
use live_transcript_server.Media.Invariant.{IsSound, Reach, here, after, Reach-IsSound}

-- The events that are left for a chunk, a stage and a flag.
abbrev pub chunk_steps : Chunk → ℕ
chunk_steps waiting = 3
chunk_steps downloading = 2
chunk_steps gone = 0
chunk_steps _ = 1

abbrev pub stage_steps : Stage → ℕ
stage_steps checking = 3
stage_steps receiving = 2
stage_steps aborting = 1
stage_steps (returned o) = 0

abbrev pub is_cancel : Event → Bool
is_cancel cancel = true
is_cancel _ = false

pub data HasReturned : Stage → Type 0 where
  returns : (o : Option Bytes) → HasReturned (returned o)

abbrev pub is_some : {A : Type 0} → Option A → Bool
is_some none = false
is_some (some a) = true

module _ (stored : String → Option Bytes) (channel stream : String) (file_ids : List String) where
  abbrev files : ℕ
  files = length file_ids

  fetched_steps : (i : ℕ) → chunk_steps (fetched stored channel stream file_ids i) ≡ 1
  fetched_steps i = ground arith

  measure : Merge → ℕ
  measure m =
      total chunk_steps files m.chunks
      + 2 * (files - m.appended)
      + stage_steps m.stage
      + (if m.producing then 1 else 0)
      + (if m.cancelled then 0 else 1)

  Move-measure :
      {m m' : Merge}
      → IsSound stored channel stream file_ids m
      → Move stored channel stream file_ids m m'
      → measure m' < measure m
  unfolding measure
  Move-measure {m} v (starts p q r) =
      ground (arith, total-set chunk_steps files m.chunks m.started downloading, v.rest m.started)
  Move-measure {m} v (lands j d) = ground (
    arith,
    total-set chunk_steps files m.chunks j (fetched stored channel stream file_ids j),
    v.rest j,
    v.within,
    fetched_steps j,
  )
  Move-measure {m} v (loses j d) =
      ground (arith, total-set chunk_steps files m.chunks j broken, v.rest j, v.within)
  Move-measure {m} v (appends b p q r) =
      ground (arith, total-set chunk_steps files m.chunks m.appended gone, v.reading p)
  Move-measure v (aborts (inl p)) = ground arith
  Move-measure v (aborts (inr p)) = ground arith
  Move-measure v (ends p q) = ground arith
  Move-measure v (receives p q) = ground arith
  Move-measure v (finishes p q r) = ground arith
  Move-measure v (leaves p q) = ground arith
  Move-measure v (cancels p) = ground arith

  measure-begin :
      (made : Bool) → measure (begin stored channel stream file_ids made) ≤ 5 * files + 5
  unfolding measure begin
  measure-begin made = ground (arith, total-const chunk_steps files waiting (omega arith))

  Reach-measure :
      {made : Bool} {k : ℕ} {m : Merge}
      → Reach stored channel stream file_ids made k m
      → k + measure m ≤ 5 * files + 5
  Reach-measure {made} here = omega (arith, measure-begin made)
  Reach-measure (after {m = m} e r h) = omega (
    arith,
    Reach-measure r,
    Move-measure (Reach-IsSound stored channel stream file_ids r)
        (step-Move stored channel stream file_ids e m h),
  )

  -- An event of the merge itself that can happen.
  abbrev pub CanStep : Merge → Type 0
  CanStep m =
      (e : Event) × (is_some (next stored channel stream file_ids e m) ≡ true)
      × (is_cancel e ≡ false)

  lands-CanStep : (m : Merge) (i : ℕ) → m.chunks i ≡ downloading → CanStep m
  unfolding step
  lands-CanStep m i d = (lose i, rw d refl, refl)

  ends-CanStep : (m : Merge) → m.producing ≡ true → m.started ≡ files → CanStep m
  unfolding step
  ends-CanStep m p e = (exhaust, ground arith, refl)

  -- The call returns once its goroutines have ended; until then one of these can go on.
  waits-CanStep :
      (m : Merge)
      → (m.producing ≡ true → CanStep m)
      → (m.producing ≡ false → quiet files m.chunks ≡ true → CanStep m)
      → CanStep m
  waits-CanStep m f g = elim (Bool-cases m.producing) [
    | inl p ↦ f p
    | inr p ↦ elim (quiet-cases files m.chunks) [
      | inl q ↦ g p q
      | inr (i, lt, d) ↦ lands-CanStep m i d
    ]
  ]

  module _ {m : Merge} (v : IsSound stored channel stream file_ids m) where
    open v use {behind, within, counted, few, flying, ended, halted, halting, reading}

    aborting-CanStep : m.stage ≡ aborting → CanStep m
    unfolding step
    aborting-CanStep s =
        waits-CanStep m
          (λ p. elim (Bool-cases (eqb m.started files)) [
            | inl e ↦ ends-CanStep m p (ground arith)
            | inr e ↦ (quit, ground (arith, halting s), refl)
          ])
          (λ p q. (leave, rw (s, p, q) refl, refl))

    checking-CanStep : m.stage ≡ checking → CanStep m
    unfolding step
    checking-CanStep s = elim (Bool-cases (ltb m.appended files)) [
      | inl lt ↦ (check, rw (s, lt) refl, refl)
      | inr ge ↦
          waits-CanStep m (λ p. ends-CanStep m p (ground arith))
            (λ p q. (finish, rw s (ground arith), refl))
    ]

    flying-CanStep :
        m.stage ≡ receiving
        → m.appended < m.started
        → (c : Chunk) → m.chunks m.appended ≡ c
        → CanStep m
    unfolding step
    flying-CanStep s lt downloading e = lands-CanStep m m.appended e
    flying-CanStep s lt broken e = (reject, rw (s, e) refl, refl)
    flying-CanStep s lt (arrived b) e = (append, rw (s, e) (ground arith), refl)
    flying-CanStep s lt waiting e = ground (arith, flying m.appended)
    flying-CanStep s lt gone e = ground (arith, flying m.appended)

    receiving-CanStep : m.stage ≡ receiving → CanStep m
    unfolding step
    receiving-CanStep s = elim (Bool-cases (ltb m.appended m.started)) [
      | inl lt ↦ flying-CanStep s (ground arith) (m.chunks m.appended) refl
      | inr ge ↦ elim (Bool-cases m.producing) [
        | inl p ↦ (start, ground (arith, reading s), refl)
        | inr p ↦ (notice, ground (arith, reading s, ended p, halted), refl)
      ]
    ]

  IsSound-CanStep :
      {m : Merge} → IsSound stored channel stream file_ids m → HasReturned m.stage ⊎ CanStep m
  IsSound-CanStep {m} v = go m.stage refl
    where
      go : (s : Stage) → m.stage ≡ s → HasReturned s ⊎ CanStep m
      go checking e = inr (checking-CanStep v e)
      go receiving e = inr (receiving-CanStep v e)
      go aborting e = inr (aborting-CanStep v e)
      go (returned o) e = inl (returns o)

  -- Whatever the schedule: a merge of n files has at most 5 n + 5 events, and as long as it has not
  -- returned, an event other than the caller's cancellation can happen. So it always returns.
  pub merge-Returns :
      {made : Bool} {k : ℕ} {m : Merge}
      → Reach stored channel stream file_ids made k m
      → (k ≤ 5 * length file_ids + 5) × (HasReturned m.stage ⊎ CanStep m)
  merge-Returns r = (
    omega (arith, Reach-measure r),
    IsSound-CanStep (Reach-IsSound stored channel stream file_ids r),
  )
