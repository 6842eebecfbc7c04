-- ===== src/Server/BuildEnds.antt =====
-- internal/server/vod.go: the end of a build, among the calls of other requests and builds.
use live_transcript_server.Prelude.{
  ℕ, ◌<◌, String, ◌≡◌, refl, ap, ◌∙◌, inl, inr, Bool, true, false, Option, none, some, List, [],
  ◌∷◌, ℤ, All, Bool-cases, eqb, eqb_refl, arith,
}
use live_transcript_server.Server.App.{Config}
use live_transcript_server.Server.Vods.{
  State, running, done, failed, VodRegistry, find_job, is_running, set_phase, finish, install,
  claim, claim_found, forget_job,
}
use live_transcript_server.Server.Builds.{
  Call, claims, phases, finishes, forgets, run, run_all, claim-IsBuilding,
}
use live_transcript_server.Server.VodBuild.{
  Build, Steps, BuildRun, build_vod, merge_step, convert_step, upload_step, in_phase, fails,
}

-- The calls of a build among those of others, each in their own order.
pub data Interleaved : List Call → List Call → List Call → Type 0 where
  over : Interleaved [] [] []
  builds :
      {mine others all : List Call} (call : Call)
      → Interleaved mine others all
      → Interleaved (call ∷ mine) others (call ∷ all)
  another :
      {mine others all : List Call} (call : Call)
      → Interleaved mine others all
      → Interleaved mine (call ∷ others) (call ∷ all)

module _ (job : ℕ) where
  abbrev pub ends : Call → Bool
  ends (claims key now) = false
  ends (phases j phase) = false
  ends (finishes j now error) = eqb j job
  ends (forgets key) = false

  -- The job has been made, and is in a state.
  abbrev IsIn : State → VodRegistry → Type 0
  IsIn s r = (job < r.allocated) × ((r.heap job).state ≡ s)

  install-IsIn :
      (s : State) (key : String) (now : ℤ) (r : VodRegistry)
      → IsIn s r
      → IsIn s (install key now r).1
  unfolding install
  install-IsIn s key now r (made, e) =
      let other : eqb r.allocated job ≡ false = ground arith in (omega arith, rw other e)

  run-IsIn :
      (s : State) (call : Call) (r : VodRegistry)
      → ends call ≡ false
      → IsIn s r
      → IsIn s (run call r)
  unfolding run claim set_phase finish forget_job
  run-IsIn s (claims key now) r h i = go (find_job key r.jobs)
    where
      go : (o : Option ℕ) → IsIn s (claim_found key now r o).1
      go none = install-IsIn s key now r i
      go (some j) = elim (Bool-cases (is_running (r.heap j).state)) [
        | inl e ↦ rw e i
        | inr e ↦ rw e (install-IsIn s key now r i)
      ]
  run-IsIn s (phases j phase) r h (made, e) = elim (Bool-cases (eqb j job)) [
    | inl k ↦ let same : j ≡ job = ground arith in rw k (made, ap (λ x. (r.heap x).state) same ∙ e)
    | inr k ↦ rw k (made, e)
  ]
  run-IsIn s (finishes j now error) r h (made, e) = rw h (made, e)
  run-IsIn s (forgets key) r h i = i

  abbrev pub result : Option String → State
  result none = done
  result (some error) = failed

  finish-IsIn :
      (s : State) (now : ℤ) (error : Option String) (r : VodRegistry)
      → IsIn s r
      → IsIn (result error) (run (finishes job now error) r)
  unfolding run finish
  finish-IsIn s now none r (made, e) = (made, rw (eqb_refl job) refl)
  finish-IsIn s now (some error) r (made, e) = (made, rw (eqb_refl job) refl)

  -- Calls of which only the last finishes the job.
  pub data Ends (error : Option String) : List Call → Type 0 where
    last : (now : ℤ) → Ends error (finishes job now error ∷ [])
    more :
        {calls : List Call} (call : Call)
        → ends call ≡ false
        → Ends error calls
        → Ends error (call ∷ calls)

  others-IsIn :
      (s : State) {others all : List Call} (r : VodRegistry)
      → Interleaved [] others all
      → All (λ call. ends call ≡ false) others
      → IsIn s r
      → IsIn s (run_all all r)
  unfolding run_all
  others-IsIn s r over h i = i
  others-IsIn s r (another call rest) h i =
      others-IsIn s (run call r) rest h.1 (run-IsIn s call r h.0 i)

  run_all-IsIn :
      (s : State) (error : Option String) {mine others all : List Call} (r : VodRegistry)
      → Ends error mine
      → Interleaved mine others all
      → All (λ call. ends call ≡ false) others
      → IsIn s r
      → IsIn (result error) (run_all all r)
  unfolding run_all
  run_all-IsIn s error r e over h i = elim e [ ]
  run_all-IsIn s error r (last now) (builds call rest) h i =
      others-IsIn (result error) _ rest h (finish-IsIn s now error r i)
  run_all-IsIn s error r (more call e ends_rest) (builds call' rest) h i =
      run_all-IsIn s error (run call r) ends_rest rest h (run-IsIn s call r e i)
  run_all-IsIn s error r e (another call rest) h i =
      run_all-IsIn s error (run call r) e rest h.1 (run-IsIn s call r h.0 i)

abbrev pub state_of : Option String → State
state_of none = failed
state_of (some key) = done

module _ (cfg : Config) (b : Build) (steps : Steps) where
  -- A build's calls, with the error that the last of them gives, against what it has saved.
  abbrev IsEnding : BuildRun → Type 0
  IsEnding run =
      (error : Option String) × (Ends b.job error run.calls)
      × (result b.job error ≡ state_of run.saved)

  in_phase-IsEnding :
      (phase : String) (run : BuildRun) → IsEnding run → IsEnding (in_phase b.job phase run)
  in_phase-IsEnding phase run (error, calls, same) =
      (error, more (phases b.job phase) refl calls, same)

  fails-IsEnding : (what error : String) → IsEnding (fails b.job steps.finished_at what error)
  fails-IsEnding what error = (_, last steps.finished_at, refl)

  upload_step-IsEnding : (answer : Option String) → IsEnding (upload_step cfg b steps answer)
  upload_step-IsEnding (some e) = fails-IsEnding "upload vod: " e
  upload_step-IsEnding none = (none, last steps.finished_at, refl)

  convert_step-IsEnding : (answer : Option String) → IsEnding (convert_step cfg b steps answer)
  convert_step-IsEnding (some e) = fails-IsEnding _ e
  convert_step-IsEnding none = in_phase-IsEnding "uploading" _ (upload_step-IsEnding steps.uploaded)

  merge_step-IsEnding : (answer : Option String) → IsEnding (merge_step cfg b steps answer)
  merge_step-IsEnding (some e) = fails-IsEnding "merge raw audio: " e
  merge_step-IsEnding none = in_phase-IsEnding "encoding" _ (convert_step-IsEnding _)

  build_vod-IsEnding : IsEnding (build_vod cfg b steps)
  unfolding build_vod
  build_vod-IsEnding = in_phase-IsEnding "merging chunks" _ (merge_step-IsEnding steps.merged)

  -- The build of a job that a claim has started, whatever its steps answer, with the calls of other
  -- requests and builds among its own, of which none finishes this job: at the end the job is not
  -- running; it is done exactly if the render has been saved, and failed otherwise.
  pub build_vod-IsFinished :
      (key : String) (now : ℤ) (r : VodRegistry) {others all : List Call}
      → (claim key now r).0 ≡ (b.job, true)
      → Interleaved (build_vod cfg b steps).calls others all
      → All (λ call. ends b.job call ≡ false) others
      → ((run_all all (claim key now r).1).heap b.job).state
        ≡ state_of (build_vod cfg b steps).saved
  build_vod-IsFinished key now r started mixed spared =
      let building = claim-IsBuilding key b.job now r started in
      let (error, calls, same) = build_vod-IsEnding in
      let (made, ended) =
        run_all-IsIn b.job running error (claim key now r).1 calls mixed spared
          (building.made, building.runs) in
      ended ∙ same
