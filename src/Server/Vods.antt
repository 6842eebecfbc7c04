-- ===== src/Server/Vods.antt =====
-- internal/server/vod.go: the registry of VOD builds. A `*vodJob` is a number: the jobs are made by
-- claim, and their state is in the registry's heap, also after forget.
use Prim.Native.String.{String, ◌++◌}
use live_transcript_server.Prelude.{
  ℕ, suc, Bool, true, false, not, Option, none, some, List, [], ◌∷◌, ℤ, pos, filter, ◌==◌, eqb,
  if◌then◌else◌,
}

-- The states that a job can have.
pub data State : Type 0 where
  running done failed : State

-- type vodStatus
pub record VodStatus : Type 0 where
  pub state : State
  pub phase : String
  pub failure : String
  pub started_at : ℤ
  pub finished_at : ℤ

-- type vodRegistry
pub record VodRegistry : Type 0 where
  pub jobs : List (String × ℕ)
  pub heap : ℕ → VodStatus
  pub allocated : ℕ

-- vodJobKey
unfoldable pub vod_job_key : String → String → String
vod_job_key channel stream = channel ++ ("/" ++ stream)

abbrev pub idle : VodStatus
idle = record { state = failed; phase = ""; failure = ""; started_at = pos 0; finished_at = pos 0 }

-- newVodRegistry
unfoldable pub new_vod_registry : VodRegistry
new_vod_registry = record { jobs = []; heap = λ j. idle; allocated = 0 }

unfoldable pub find_job : String → List (String × ℕ) → Option ℕ
find_job key [] = none
find_job key (entry ∷ rest) =
    let found = find_job key rest in if entry.0 == key then some entry.1 else found

-- get
unfoldable pub get_job : String → VodRegistry → Option ℕ
unfolding find_job
get_job key r = find_job key r.jobs

abbrev pub without_key : String → List (String × ℕ) → List (String × ℕ)
without_key key jobs = filter (λ entry. not (entry.0 == key)) jobs

abbrev pub set_job : ℕ → VodStatus → VodRegistry → VodRegistry
set_job j s r = record r { heap = λ i. if eqb j i then s else r.heap i }

abbrev pub is_running : State → Bool
is_running running = true
is_running done = false
is_running failed = false

-- vodJob.setPhase
unfoldable pub set_phase : ℕ → String → VodRegistry → VodRegistry
set_phase j phase r = set_job j (record (r.heap j) { phase = phase }) r

abbrev pub outcome : ℤ → Option String → VodStatus → VodStatus
outcome now none s = record s { phase = ""; finished_at = now; state = done }
outcome now (some failure) s = record s {
  phase = "";
  finished_at = now;
  state = failed;
  failure = failure;
}

-- vodJob.finish; `none` for a nil error.
unfoldable pub finish : ℕ → ℤ → Option String → VodRegistry → VodRegistry
finish j now error r = set_job j (outcome now error (r.heap j)) r

-- A fresh job under the key: r.jobs[key] = job.
unfoldable pub install : String → ℤ → VodRegistry → (ℕ × Bool) × VodRegistry
unfolding filter
install key now r = (
  (r.allocated, true),
  set_job r.allocated
      (record {
        state = running;
        phase = "merging chunks";
        failure = "";
        started_at = now;
        finished_at = pos 0;
      })
      (record r {
        jobs = (key, r.allocated) ∷ without_key key r.jobs;
        allocated = suc r.allocated;
      }),
)

abbrev pub claim_found : String → ℤ → VodRegistry → Option ℕ → (ℕ × Bool) × VodRegistry
claim_found key now r none = install key now r
claim_found key now r (some j) =
    if is_running (r.heap j).state then ((j, false), r) else install key now r

-- claim
unfoldable pub claim : String → ℤ → VodRegistry → (ℕ × Bool) × VodRegistry
unfolding find_job install
claim key now r = claim_found key now r (find_job key r.jobs)

-- forget
unfoldable pub forget_job : String → VodRegistry → VodRegistry
unfolding filter
forget_job key r = record r { jobs = without_key key r.jobs }
