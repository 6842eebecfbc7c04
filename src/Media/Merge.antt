-- ===== src/Media/Merge.antt =====
-- internal/media/merge.go: MergeRawAudio as a machine. The producer, the downloads and the writer are
-- goroutines: an event is a step of one of them, or the caller's cancellation, and the order of the
-- events is the schedule's. A chunk is bytes; names of temporary files are left out.
use live_transcript_server.Prelude.{
  ℕ, zero, suc, ◌-◌, String, Bool, true, false, not, ◌&&◌, ◌||◌, Option, none, some, List, [], ◌++◌,
  ltb, eqb, length, get_elem?, if◌then◌else◌,
}
use live_transcript_server.Storage.Keys.{raw_key}

abbrev pub Bytes : Type 0
Bytes = List ℕ

-- mergeConcurrency
abbrev pub merge_concurrency : ℕ
merge_concurrency = 32

-- Where a chunk is: not yet asked for, being downloaded, in its result slot as a file or as an error,
-- or appended and deleted.
pub data Chunk : Type 0 where
  waiting downloading broken gone : Chunk
  arrived : Bytes → Chunk

-- Where the writer is: before the test of ctx.Err() or past its loop, in the select, in abort, or
-- returned, with `none` for an error.
pub data Stage : Type 0 where
  checking receiving aborting : Stage
  returned : Option Bytes → Stage

pub record Merge : Type 0 where
  pub producing : Bool
  pub started : ℕ
  pub slots : ℕ
  pub chunks : ℕ → Chunk
  pub appended : ℕ
  pub merged : Bytes
  pub cancelled : Bool
  pub stopped : Bool
  pub stage : Stage

-- The producer starts a download, ends its loop, or sees dlCtx done; a download ends with what the
-- storage has, or fails; the writer tests ctx.Err(), appends a chunk, finds an error in the slot,
-- fails to open or copy a chunk, sees ctx done in the select, or returns after wg.Wait; the caller
-- cancels.
pub data Event : Type 0 where
  start exhaust quit : Event
  deliver lose : ℕ → Event
  check append reject fail notice finish leave : Event
  cancel : Event

abbrev pub set_chunk : ℕ → Chunk → (ℕ → Chunk) → ℕ → Chunk
set_chunk i c chunks j = if eqb i j then c else chunks j

abbrev pub is_downloading : Chunk → Bool
is_downloading downloading = true
is_downloading _ = false

-- No download of the first `n` is running.
unfoldable pub quiet : ℕ → (ℕ → Chunk) → Bool
quiet zero chunks = true
quiet (suc n) chunks = not (is_downloading (chunks n)) && quiet n chunks

-- Cancels the downloads; the deferred clean-up follows when they have ended.
abbrev pub abort : Merge → Merge
abort m = record m { stopped = true; stage = aborting }

-- The chunk is appended and deleted, and its slot released.
abbrev pub take_chunk : Bytes → Merge → Merge
take_chunk bytes m = record m {
  merged = m.merged ++ bytes;
  chunks = set_chunk m.appended gone m.chunks;
  slots = m.slots - 1;
  appended = suc m.appended;
  stage = checking;
}

module _ (stored : String → Option Bytes) (channel stream : String) (file_ids : List String) where
  abbrev pub files : ℕ
  files = length file_ids

  -- What a download of the chunk reads: downloadChunk with no I/O error.
  abbrev pub fetch : Option String → Chunk
  fetch none = broken
  fetch (some id) = elim (stored (raw_key channel stream id)) [
    | none ↦ broken
    | some bytes ↦ arrived bytes
  ]

  abbrev pub set_at : ℕ → Chunk → Merge → Merge
  set_at i c m = record m { chunks = set_chunk i c m.chunks }

  abbrev pub end_download : ℕ → Chunk → Merge → Chunk → Option Merge
  end_download i c m downloading = some (set_at i c m)
  end_download i c m _ = none

  -- The writer's step on the chunk that is next.
  abbrev pub on_append : Merge → Chunk → Option Merge
  on_append m (arrived bytes) = if ltb 0 m.slots then some (take_chunk bytes m) else none
  on_append m _ = none

  abbrev pub on_reject : Merge → Chunk → Option Merge
  on_reject m broken = some (abort m)
  on_reject m _ = none

  abbrev pub on_fail : Merge → Chunk → Option Merge
  on_fail m (arrived bytes) = some (abort m)
  on_fail m _ = none

  abbrev pub when_receiving : Stage → Option Merge → Option Merge
  when_receiving receiving next = next
  when_receiving _ next = none

  abbrev pub on_check : Merge → Stage → Option Merge
  on_check m checking =
      if ltb m.appended files
      then some (if m.cancelled then abort m else record m { stage = receiving })
      else none
  on_check m _ = none

  -- wg.Wait goes through.
  abbrev pub is_idle : Merge → Bool
  is_idle m = not m.producing && quiet files m.chunks

  abbrev pub on_finish : Merge → Stage → Option Merge
  on_finish m checking =
      if eqb m.appended files && is_idle m
      then some (record m { stage = returned (some m.merged) })
      else none
  on_finish m _ = none

  abbrev pub on_leave : Merge → Stage → Option Merge
  on_leave m aborting = if is_idle m then some (record m { stage = returned none }) else none
  on_leave m _ = none

  -- MergeRawAudio, one event of it; `none` for an event that cannot happen.
  unfoldable pub step : Event → Merge → Option Merge
  unfolding quiet
  step start m =
      if m.producing && ltb m.started files && ltb m.slots merge_concurrency
      then some (record m {
        started = suc m.started;
        slots = suc m.slots;
        chunks = set_chunk m.started downloading m.chunks;
      })
      else none
  step exhaust m =
      if m.producing && eqb m.started files then some (record m { producing = false }) else none
  step quit m =
      if m.producing && ltb m.started files && (m.cancelled || m.stopped)
      then some (record m { producing = false })
      else none
  step (deliver i) m = end_download i (fetch (get_elem? file_ids i)) m (m.chunks i)
  step (lose i) m = end_download i broken m (m.chunks i)
  step check m = on_check m m.stage
  step append m = when_receiving m.stage (on_append m (m.chunks m.appended))
  step reject m = when_receiving m.stage (on_reject m (m.chunks m.appended))
  step fail m = when_receiving m.stage (on_fail m (m.chunks m.appended))
  step notice m = when_receiving m.stage (if m.cancelled then some (abort m) else none)
  step finish m = on_finish m m.stage
  step leave m = on_leave m m.stage
  step cancel m = if m.cancelled then none else some (record m { cancelled = true })

  abbrev pub initial : Merge
  initial = record {
    producing = true;
    started = 0;
    slots = 0;
    chunks = λ i. waiting;
    appended = 0;
    merged = [];
    cancelled = false;
    stopped = false;
    stage = checking;
  }

  -- The start of MergeRawAudio: with no files, or if a file or folder cannot be made, it returns an
  -- error.
  unfoldable pub begin : Bool → Merge
  begin made =
      if made && ltb 0 files
      then initial
      else record initial { producing = false; stage = returned none }
