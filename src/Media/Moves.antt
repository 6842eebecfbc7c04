-- ===== src/Media/Moves.antt =====
-- internal/media/merge.go: the events of a merge by what they change, with the guards as premises.
use live_transcript_server.Prelude.{
  ℕ, suc, ◌<◌, ◌≡◌, refl, subst, String, Bool, true, false, ◌&&◌, ◌||◌, Option, none, some, List,
  ◌⊎◌, inl, inr, arith, ltb, eqb, length, get_elem?, Bool-cases, if◌then◌else◌,
}
use live_transcript_server.Media.Merge.{
  Bytes, Chunk, waiting, downloading, broken, gone, arrived, Stage, checking, receiving, aborting,
  returned, Merge, Event, start, exhaust, quit, deliver, lose, check, append, reject, fail, notice,
  finish, leave, cancel, set_chunk, abort, take_chunk, fetch, set_at, step, merge_concurrency,
  is_idle, end_download, on_append, on_reject, on_fail, when_receiving, on_check, on_finish,
  on_leave,
}

if-some :
    {A : Type 0} (b : Bool) (x : A) {y : A}
    → (if b then some x else none) ≡ some y
    → (b ≡ true) × (x ≡ y)
if-some true x h = (refl, cc)
if-some false x h = cc

some_inj : {A : Type 0} {x y : A} → some x ≡ some y → x ≡ y
some_inj h = cc

module _ (stored : String → Option Bytes) (channel stream : String) (file_ids : List String) where
  abbrev pub fetched : ℕ → Chunk
  fetched i = fetch stored channel stream file_ids (get_elem? file_ids i)

  abbrev pub next : Event → Merge → Option Merge
  next = step stored channel stream file_ids

  abbrev pub put : ℕ → Chunk → Merge → Merge
  put i c m = set_at stored channel stream file_ids i c m

  pub data Move (m : Merge) : Merge → Type 0 where
    starts :
        m.producing ≡ true
        → m.started < length file_ids
        → m.slots < merge_concurrency
        → Move m (record m {
          started = suc m.started;
          slots = suc m.slots;
          chunks = set_chunk m.started downloading m.chunks;
        })
    ends :
        m.producing ≡ true
        → (eqb m.started (length file_ids) || m.cancelled || m.stopped) ≡ true
        → Move m (record m { producing = false })
    lands : (i : ℕ) → m.chunks i ≡ downloading → Move m (put i (fetched i) m)
    loses : (i : ℕ) → m.chunks i ≡ downloading → Move m (put i broken m)
    receives :
        m.stage ≡ checking → m.appended < length file_ids → Move m (record m { stage = receiving })
    aborts : (m.stage ≡ checking) ⊎ (m.stage ≡ receiving) → Move m (abort m)
    appends :
        (bytes : Bytes)
        → m.stage ≡ receiving
        → m.chunks m.appended ≡ arrived bytes
        → 0 < m.slots
        → Move m (take_chunk bytes m)
    finishes :
        m.stage ≡ checking
        → m.appended ≡ length file_ids
        → is_idle stored channel stream file_ids m ≡ true
        → Move m (record m { stage = returned (some m.merged) })
    leaves :
        m.stage ≡ aborting
        → is_idle stored channel stream file_ids m ≡ true
        → Move m (record m { stage = returned none })
    cancels : m.cancelled ≡ false → Move m (record m { cancelled = true })

  lands-Move :
      (i : ℕ) (m : Merge) (c : Chunk) {m' : Merge} (d : Chunk)
      → (d ≡ downloading → Move m (put i c m))
      → end_download stored channel stream file_ids i c m d ≡ some m'
      → Move m m'
  lands-Move i m c downloading mv h = subst (Move m) (some_inj h) (mv refl)
  lands-Move i m c waiting mv h = cc
  lands-Move i m c broken mv h = cc
  lands-Move i m c gone mv h = cc
  lands-Move i m c (arrived b) mv h = cc

  receiving-Move :
      (m : Merge) (r : Option Merge) {m' : Merge} (s : Stage)
      → m.stage ≡ s
      → (m.stage ≡ receiving → r ≡ some m' → Move m m')
      → when_receiving stored channel stream file_ids s r ≡ some m'
      → Move m m'
  receiving-Move m r receiving e mv h = mv e h
  receiving-Move m r checking e mv h = cc
  receiving-Move m r aborting e mv h = cc
  receiving-Move m r (returned o) e mv h = cc

  abort-Move : (m : Merge) {m' : Merge} → m.stage ≡ receiving → abort m ≡ m' → Move m m'
  abort-Move m e h = subst (Move m) h (aborts (inr e))

  append-Move :
      (m : Merge) {m' : Merge} (c : Chunk)
      → m.chunks m.appended ≡ c
      → m.stage ≡ receiving
      → on_append stored channel stream file_ids m c ≡ some m'
      → Move m m'
  append-Move m (arrived b) e s h =
      let (t, q) = if-some (ltb 0 m.slots) (take_chunk b m) h in
      subst (Move m) q (appends b s e (ground arith))
  append-Move m waiting e s h = cc
  append-Move m downloading e s h = cc
  append-Move m broken e s h = cc
  append-Move m gone e s h = cc

  reject-Move :
      (m : Merge) {m' : Merge} (c : Chunk)
      → m.stage ≡ receiving
      → on_reject stored channel stream file_ids m c ≡ some m'
      → Move m m'
  reject-Move m broken s h = abort-Move m s (some_inj h)
  reject-Move m waiting s h = cc
  reject-Move m downloading s h = cc
  reject-Move m (arrived b) s h = cc
  reject-Move m gone s h = cc

  fail-Move :
      (m : Merge) {m' : Merge} (c : Chunk)
      → m.stage ≡ receiving
      → on_fail stored channel stream file_ids m c ≡ some m'
      → Move m m'
  fail-Move m (arrived b) s h = abort-Move m s (some_inj h)
  fail-Move m waiting s h = cc
  fail-Move m downloading s h = cc
  fail-Move m broken s h = cc
  fail-Move m gone s h = cc

  tested-Move :
      (m : Merge) {m' : Merge} (b : Bool)
      → m.stage ≡ checking
      → m.appended < length file_ids
      → (if b then abort m else record m { stage = receiving }) ≡ m'
      → Move m m'
  tested-Move m true e lt h = subst (Move m) h (aborts (inl e))
  tested-Move m false e lt h = subst (Move m) h (receives e lt)

  check-Move :
      (m : Merge) {m' : Merge} (s : Stage)
      → m.stage ≡ s
      → on_check stored channel stream file_ids m s ≡ some m'
      → Move m m'
  check-Move m checking e h =
      let (t, q) =
        if-some (ltb m.appended (length file_ids))
          (if m.cancelled then abort m else record m { stage = receiving }) h in
      tested-Move m m.cancelled e (ground arith) q
  check-Move m receiving e h = cc
  check-Move m aborting e h = cc
  check-Move m (returned o) e h = cc

  finish-Move :
      (m : Merge) {m' : Merge} (s : Stage)
      → m.stage ≡ s
      → on_finish stored channel stream file_ids m s ≡ some m'
      → Move m m'
  finish-Move m checking e h =
      let (t, q) =
        if-some (eqb m.appended (length file_ids) && is_idle stored channel stream file_ids m)
          (record m { stage = returned (some m.merged) }) h in
      subst (Move m) q (finishes e (ground arith) (ground arith))
  finish-Move m receiving e h = cc
  finish-Move m aborting e h = cc
  finish-Move m (returned o) e h = cc

  leave-Move :
      (m : Merge) {m' : Merge} (s : Stage)
      → m.stage ≡ s
      → on_leave stored channel stream file_ids m s ≡ some m'
      → Move m m'
  leave-Move m aborting e h =
      let (t, q) =
        if-some (is_idle stored channel stream file_ids m) (record m { stage = returned none }) h in
      subst (Move m) q (leaves e t)
  leave-Move m checking e h = cc
  leave-Move m receiving e h = cc
  leave-Move m (returned o) e h = cc

  pub step-Move : (e : Event) (m : Merge) {m' : Merge} → next e m ≡ some m' → Move m m'
  unfolding step
  step-Move start m h =
      let (t, q) =
        if-some (m.producing && ltb m.started (length file_ids) && ltb m.slots merge_concurrency) _
          h in
      subst (Move m) q (starts (ground arith) (ground arith) (ground arith))
  step-Move exhaust m h =
      let (t, q) = if-some (m.producing && eqb m.started (length file_ids)) _ h in
      subst (Move m) q (ends (ground arith) (ground arith))
  step-Move quit m h =
      let (t, q) =
        if-some (m.producing && ltb m.started (length file_ids) && (m.cancelled || m.stopped)) _
          h in
      subst (Move m) q (ends (ground arith) (ground arith))
  step-Move (deliver i) m h = lands-Move i m (fetched i) (m.chunks i) (lands i) h
  step-Move (lose i) m h = lands-Move i m broken (m.chunks i) (loses i) h
  step-Move check m h = check-Move m m.stage refl h
  step-Move append m h =
      receiving-Move m _ m.stage refl (append-Move m (m.chunks m.appended) refl) h
  step-Move reject m h = receiving-Move m _ m.stage refl (reject-Move m (m.chunks m.appended)) h
  step-Move fail m h = receiving-Move m _ m.stage refl (fail-Move m (m.chunks m.appended)) h
  step-Move notice m h =
      receiving-Move m _ m.stage refl (λ e q. abort-Move m e (if-some m.cancelled (abort m) q).1) h
  step-Move finish m h = finish-Move m m.stage refl h
  step-Move leave m h = leave-Move m m.stage refl h
  step-Move cancel m h = elim (Bool-cases m.cancelled) [
    | inl c ↦ let k : none ≡ some _ = rw c at h in cc
    | inr c ↦ subst (Move m) (some_inj (rw c at h)) (cancels c)
  ]
