-- ===== src/Media/Invariant.antt =====
-- internal/media/merge.go: what holds of a merge after any events.
use live_transcript_server.Prelude.{
  ℕ, zero, suc, ◌+◌, ◌≤◌, ◌<◌, ◌≡◌, refl, String, Bool, true, false, ◌&&◌, ◌||◌, Option, none, some,
  List, [], ◌∷◌, ◌++◌, inl, inr, arith, ltb, eqb, length, take, get_elem?, append-nil, append_assoc,
  Bool-cases,
}
use live_transcript_server.Storage.Keys.{raw_key}
use live_transcript_server.Media.Merge.{
  Bytes, Chunk, waiting, downloading, broken, gone, arrived, Stage, receiving, aborting, returned,
  Merge, Event, fetch, begin, merge_concurrency, is_idle,
}
use live_transcript_server.Media.Family.{quiet-at, quiet-waiting}
use live_transcript_server.Media.Moves.{
  Move, starts, ends, lands, loses, receives, appends, finishes, leaves, cancels, fetched, next,
  step-Move,
}

abbrev pub flies : Chunk → Bool
flies downloading = true
flies broken = true
flies (arrived b) = true
flies _ = false

-- The call is at its end with an error.
abbrev pub is_over : Stage → Bool
is_over aborting = true
is_over (returned none) = true
is_over _ = false

abbrev pub prefix_with : Option Bytes → Option Bytes → Option Bytes
prefix_with none rest = none
prefix_with (some b) none = none
prefix_with (some b) (some bs) = some (b ++ bs)

prefix-more :
    (s g : Option Bytes) {g' : Option Bytes} (before bytes : Bytes)
    → ((bs : Bytes) → g ≡ some bs → g' ≡ some (bs ++ bytes))
    → prefix_with s g ≡ some before
    → prefix_with s g' ≡ some (before ++ bytes)
prefix-more none g before bytes f q = cc
prefix-more (some b) none before bytes f q = cc
prefix-more (some b) (some bs) before bytes f q = rw (f bs refl) (cc (q, append_assoc b bs bytes))

module _ (stored : String → Option Bytes) (channel stream : String) where
  -- The raw files of the IDs in their order, one after the other; `none` if one is not stored.
  pub gather : List String → Option Bytes
  gather [] = some []
  gather (id ∷ ids) = prefix_with (stored (raw_key channel stream id)) (gather ids)

module _ (stored : String → Option Bytes) (channel stream : String) (file_ids : List String) where
  gather-more :
      (ids : List String) (i : ℕ) (before bytes : Bytes)
      → gather stored channel stream (take i ids) ≡ some before
      → fetch stored channel stream file_ids (get_elem? ids i) ≡ arrived bytes
      → gather stored channel stream (take (suc i) ids) ≡ some (before ++ bytes)
  unfolding gather
  gather-more [] i before bytes h k = cc
  gather-more (id ∷ ids) zero before bytes h k = ground (arith, append-nil bytes)
  gather-more (id ∷ ids) (suc i) before bytes h k =
      prefix-more (stored (raw_key channel stream id)) (gather stored channel stream (take i ids))
        before bytes (λ bs e. gather-more ids i bs bytes e k) h

  pub record IsSound (m : Merge) : Type 0 where
    pub behind : m.appended ≤ m.started
    pub within : m.started ≤ length file_ids
    pub counted : m.slots + m.appended ≡ m.started
    pub few : m.slots ≤ merge_concurrency
    pub taken : (i : ℕ) → i < m.appended → m.chunks i ≡ gone
    pub rest : (i : ℕ) → m.started ≤ i → m.chunks i ≡ waiting
    pub flying : (i : ℕ) → m.appended ≤ i → i < m.started → flies (m.chunks i) ≡ true
    pub right :
        (i : ℕ) (bytes : Bytes)
        → m.chunks i ≡ arrived bytes
        → fetched stored channel stream file_ids i ≡ arrived bytes
    pub ordered : gather stored channel stream (take m.appended file_ids) ≡ some m.merged
    pub ended :
        m.producing ≡ false
        → (eqb m.started (length file_ids) || m.cancelled || m.stopped || is_over m.stage) ≡ true
    pub halted : m.stopped ≡ true → is_over m.stage ≡ true
    pub halting : m.stage ≡ aborting → m.stopped ≡ true
    pub reading : m.stage ≡ receiving → m.appended < length file_ids
    pub result :
        (out : Bytes)
        → m.stage ≡ returned (some out)
        → (out ≡ m.merged) × (m.appended ≡ length file_ids)
    pub rested :
        (o : Option Bytes) → m.stage ≡ returned o → is_idle stored channel stream file_ids m ≡ true

  module _ {m : Merge} (v : IsSound m) where
    open v use {
      behind, within, counted, few, taken, rest, flying, right, ordered, ended, halted, halting,
      reading, result, rested,
    }

    Move-counts :
        {m' : Merge}
        → Move stored channel stream file_ids m m'
        → (m'.appended ≤ m'.started)
          × (m'.started ≤ length file_ids)
          × (m'.slots + m'.appended ≡ m'.started)
          × (m'.slots ≤ merge_concurrency)
    Move-counts (starts p q r) = omega arith
    Move-counts (appends b p q r) = omega arith
    Move-counts mv = omega arith

    Move-taken :
        {m' : Merge}
        → Move stored channel stream file_ids m m'
        → (i : ℕ) → i < m'.appended
        → m'.chunks i ≡ gone
    Move-taken (lands j d) i h = ground (arith, taken i)
    Move-taken (loses j d) i h = ground (arith, taken i)
    Move-taken mv i h = ground (arith, taken i)

    Move-rest :
        {m' : Merge}
        → Move stored channel stream file_ids m m'
        → (i : ℕ) → m'.started ≤ i
        → m'.chunks i ≡ waiting
    Move-rest (lands j d) i h = ground (arith, rest i)
    Move-rest (loses j d) i h = ground (arith, rest i)
    Move-rest (appends b p q r) i h = ground (arith, rest i)
    Move-rest mv i h = ground (arith, rest i)

    flies-fetched : (i : ℕ) → flies (fetched stored channel stream file_ids i) ≡ true
    flies-fetched i = ground arith

    Move-flying :
        {m' : Merge}
        → Move stored channel stream file_ids m m'
        → (i : ℕ) → m'.appended ≤ i
        → i < m'.started
        → flies (m'.chunks i) ≡ true
    Move-flying (lands j d) i h k = ground (arith, flying i, flies-fetched j)
    Move-flying (appends b p q r) i h k = ground (arith, flying i)
    Move-flying mv i h k = ground (arith, flying i)

    Move-right :
        {m' : Merge}
        → Move stored channel stream file_ids m m'
        → (i : ℕ) (bytes : Bytes) → m'.chunks i ≡ arrived bytes
        → fetched stored channel stream file_ids i ≡ arrived bytes
    Move-right (lands j d) i bytes h = ground (arith, right i bytes)
    Move-right mv i bytes h = ground (arith, right i bytes)

    Move-ordered :
        {m' : Merge}
        → Move stored channel stream file_ids m m'
        → gather stored channel stream (take m'.appended file_ids) ≡ some m'.merged
    Move-ordered (appends b p q r) =
        gather-more file_ids m.appended m.merged b ordered (right m.appended b q)
    Move-ordered mv = ordered

    Move-ended :
        {m' : Merge}
        → Move stored channel stream file_ids m m'
        → m'.producing ≡ false
        → (eqb m'.started (length file_ids) || m'.cancelled || m'.stopped || is_over m'.stage)
          ≡ true
    Move-ended (starts p q r) h = cc
    Move-ended (ends p q) h = ground arith
    Move-ended (receives p q) h = ground arith
    Move-ended (appends b p q r) h = ground arith
    Move-ended (finishes p q r) h = ground arith
    Move-ended mv h = ground arith

    Move-halted :
        {m' : Merge}
        → Move stored channel stream file_ids m m'
        → m'.stopped ≡ true
        → is_over m'.stage ≡ true
    Move-halted (receives p q) h = ground arith
    Move-halted (appends b p q r) h = ground arith
    Move-halted (finishes p q r) h = ground arith
    Move-halted (leaves p q) h = refl
    Move-halted mv h = ground arith

    Move-stage :
        {m' : Merge}
        → Move stored channel stream file_ids m m'
        → (m'.stage ≡ aborting → m'.stopped ≡ true)
          × (m'.stage ≡ receiving → m'.appended < length file_ids)
    Move-stage (receives p q) = (λ h. ground arith, λ h. ground arith)
    Move-stage mv = (λ h. ground arith, λ h. ground arith)

    Move-result :
        {m' : Merge}
        → Move stored channel stream file_ids m m'
        → (out : Bytes) → m'.stage ≡ returned (some out)
        → (out ≡ m'.merged) × (m'.appended ≡ length file_ids)
    Move-result (finishes p q r) out h = (cc, q)
    Move-result (appends b p q r) out h = (cc, cc)
    Move-result (starts p q r) out h = result out h
    Move-result (ends p q) out h = result out h
    Move-result (lands j d) out h = result out h
    Move-result (loses j d) out h = result out h
    Move-result (cancels p) out h = result out h
    Move-result mv out h = (cc, cc)

    Move-rested :
        {m' : Merge}
        → Move stored channel stream file_ids m m'
        → (o : Option Bytes) → m'.stage ≡ returned o
        → is_idle stored channel stream file_ids m' ≡ true
    Move-rested (starts p q r) o h = ground (arith, rested o)
    Move-rested (ends p q) o h = ground (arith, rested o)
    Move-rested (lands j d) o h =
        ground (arith, rested o, rest j, quiet-at (length file_ids) m.chunks j)
    Move-rested (loses j d) o h =
        ground (arith, rested o, rest j, quiet-at (length file_ids) m.chunks j)
    Move-rested (cancels p) o h = rested o h
    Move-rested (finishes p q r) o h = r
    Move-rested (leaves p q) o h = q
    Move-rested mv o h = cc

    pub Move-IsSound : {m' : Merge} → Move stored channel stream file_ids m m' → IsSound m'
    Move-IsSound mv = record {
      behind = (Move-counts mv).0;
      within = (Move-counts mv).1;
      counted = (Move-counts mv).2;
      few = (Move-counts mv).3;
      taken = Move-taken mv;
      rest = Move-rest mv;
      flying = Move-flying mv;
      right = Move-right mv;
      ordered = Move-ordered mv;
      ended = Move-ended mv;
      halted = Move-halted mv;
      halting = (Move-stage mv).0;
      reading = (Move-stage mv).1;
      result = Move-result mv;
      rested = Move-rested mv;
    }

  begin-IsSound : (made : Bool) → IsSound (begin stored channel stream file_ids made)
  unfolding begin gather
  begin-IsSound made = elim (Bool-cases (made && ltb 0 (length file_ids))) [
    | inl t ↦ rw t (record {
      behind = omega arith;
      within = omega arith;
      counted = omega arith;
      few = omega arith;
      taken = λ i h. absurd (omega arith);
      rest = λ i h. refl;
      flying = λ i h k. absurd (omega arith);
      right = λ i bytes h. cc;
      ordered = refl;
      ended = λ h. cc;
      halted = λ h. cc;
      halting = λ h. cc;
      reading = λ h. cc;
      result = λ out h. (cc, cc);
      rested = λ o h. cc;
    })
    | inr t ↦ rw t (record {
      behind = omega arith;
      within = omega arith;
      counted = omega arith;
      few = omega arith;
      taken = λ i h. absurd (omega arith);
      rest = λ i h. refl;
      flying = λ i h k. absurd (omega arith);
      right = λ i bytes h. cc;
      ordered = refl;
      ended = λ h. ground arith;
      halted = λ h. cc;
      halting = λ h. cc;
      reading = λ h. cc;
      result = λ out h. (cc, cc);
      rested = λ o h. quiet-waiting (length file_ids);
    })
  ]

  -- The merges that any events lead to, with their number.
  pub data Reach (made : Bool) : ℕ → Merge → Type 0 where
    here : Reach made 0 (begin stored channel stream file_ids made)
    after :
        {k : ℕ} {m m' : Merge} (e : Event)
        → Reach made k m
        → next stored channel stream file_ids e m ≡ some m'
        → Reach made (suc k) m'

  pub Reach-IsSound : {made : Bool} {k : ℕ} {m : Merge} → Reach made k m → IsSound m
  Reach-IsSound {made} here = begin-IsSound made
  Reach-IsSound (after {m = m} e r h) =
      Move-IsSound (Reach-IsSound r) (step-Move stored channel stream file_ids e m h)
