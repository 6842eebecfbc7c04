-- ===== src/Server/VodBuild.antt =====
-- internal/server/vod.go: the requests that report and start a VOD build, and the build. The other
-- requests and builds that run meanwhile change the registry; what they do is an argument.
use Prim.Native.String.{String, ◌++◌}
use live_transcript_server.Prelude.{
  ℕ, Bool, true, false, Option, none, some, List, [], ◌∷◌, ℤ, eqb, ◌==◌, if◌then◌else◌,
}
use live_transcript_server.Store.Sql.{Result, ok, err}
use live_transcript_server.Store.Transcripts.{get_all_media_file_ids}
use live_transcript_server.Storage.Keys.{vod_key}
use live_transcript_server.Server.App.{
  Config, App, Act, Reply, answered, json, give, ◌>>=◌, ◌>>◌, store, notify_admin_action,
}
use live_transcript_server.Server.Vods.{VodRegistry, claim, vod_job_key}
use live_transcript_server.Server.Builds.{Call, phases, finishes}
use live_transcript_server.Server.Vod.{
  Names, Shown, absent, in_flight, built, broken, VodResponse, VodTarget, Resolved, refused, target,
  ext_of, resolve_vod_target, Listing, vod_response,
}

-- The arguments of buildVod.
pub record Build : Type 0 where
  pub job : ℕ
  pub target : VodTarget
  pub file_ids : List String

-- The answer to a request for a build, and the build that it has started.
pub record PostVod : Type 0 where
  pub status : ℕ
  pub body : Option VodResponse
  pub build : Option Build

abbrev pub only : ℕ → PostVod
only status = record { status = status; body = none; build = none }

abbrev pub shows : ℕ → VodResponse → PostVod
shows status resp = record { status = status; body = some resp; build = none }

-- What happens to the registry while a request waits.
abbrev pub meanwhile : (VodRegistry → VodRegistry) → Act (Unit {0})
meanwhile f app = (tt, record app { vods = f app.vods })

abbrev pub ask : {A : Type 0} → (App → A) → Act A
ask f app = (f app, app)

abbrev pub claim_job : String → ℤ → Act (ℕ × Bool)
claim_job key now app =
    ((claim key now app.vods).0, record app { vods = (claim key now app.vods).1 })

abbrev pub note_if : Bool → Act (Unit {0})
note_if true = notify_admin_action "Started full VOD build"
note_if false = give tt

module _ (cfg : Config) (names : Names) where
  abbrev pub tell_vod : Option VodResponse → Act (Reply VodResponse)
  tell_vod none = give (answered 502)
  tell_vod (some resp) = give (json resp)

  abbrev pub report : Listing → Resolved → Act (Reply VodResponse)
  report list (refused code) = give (answered code)
  report list (target t) = do
    resp ← ask (λ app. vod_response cfg names list t app.vods)
    tell_vod resp

  -- getAdminVodHandler
  unfoldable pub get_admin_vod_handler : Listing → String → Act (Reply VodResponse)
  unfolding resolve_vod_target vod_response
  get_admin_vod_handler list stream = do
    resolved ← resolve_vod_target cfg stream
    report list resolved

  -- The answer after a claim; a lookup that fails is reported as running.
  abbrev pub final_response : VodResponse → Option VodResponse → VodResponse
  final_response resp none = record resp { state = in_flight; phase = "merging chunks" }
  final_response resp (some final) = final

  module _ (now : ℤ) (list list' : Listing) (between after : VodRegistry → VodRegistry) where
    -- postAdminVodHandler with the chunk list.
    abbrev pub start_build : VodTarget → VodResponse → List String → Act PostVod
    start_build t resp [] = give (only 409)
    start_build t resp (id ∷ ids) = do
      meanwhile between
      claimed ← claim_job (vod_job_key cfg.key t.stream.stream_id) now
      note_if claimed.1
      meanwhile after
      final ← ask (λ app. vod_response cfg names list' t app.vods)
      give (record {
        status = 202;
        body = some (final_response resp final);
        build =
            if claimed.1
            then some (record { job = claimed.0; target = t; file_ids = id ∷ ids })
            else none;
      })

    abbrev pub with_chunks : VodTarget → VodResponse → Result (List String) → Act PostVod
    with_chunks t resp (err e) = give (only 500)
    with_chunks t resp (ok ids) = start_build t resp ids

    abbrev pub read_chunks : VodTarget → VodResponse → Act PostVod
    read_chunks t resp = do
      ids ← store (get_all_media_file_ids cfg.key t.stream.stream_id)
      with_chunks t resp ids

    abbrev pub unless_shown : VodTarget → VodResponse → Shown → Act PostVod
    unless_shown t resp built = give (shows 200 resp)
    unless_shown t resp in_flight = give (shows 202 resp)
    unless_shown t resp absent = read_chunks t resp
    unless_shown t resp broken = read_chunks t resp

    abbrev pub unless_unknown : VodTarget → Option VodResponse → Act PostVod
    unless_unknown t none = give (only 502)
    unless_unknown t (some resp) = unless_shown t resp resp.state

    abbrev pub request_build : Resolved → Act PostVod
    request_build (refused code) = give (only code)
    request_build (target t) =
        if eqb t.media_lines 0
        then give (only 409)
        else do resp ← ask (λ app. vod_response cfg names list t app.vods); unless_unknown t resp

    -- postAdminVodHandler: `list` is the storage at its first look, `list'` at its last; `between`
    -- happens after the first look, `after` after the claim.
    unfoldable pub post_admin_vod_handler : String → Act PostVod
    unfolding resolve_vod_target vod_response claim vod_job_key
    post_admin_vod_handler stream = do
      resolved ← resolve_vod_target cfg stream
      request_build resolved

-- What the steps of a build answer, `none` for no error, the ID that names the render, and the time
-- at which it ends.
pub record Steps : Type 0 where
  pub merged : Option String
  pub remuxed : Option String
  pub converted : Option String
  pub uploaded : Option String
  pub render : String
  pub finished_at : ℤ

-- What a build calls on its job, in order, and the key that it has uploaded.
pub record BuildRun : Type 0 where
  pub calls : List Call
  pub saved : Option String

abbrev pub fails : ℕ → ℤ → String → String → BuildRun
fails job at what error = record {
  calls = finishes job at (some (what ++ error)) ∷ [];
  saved = none;
}

abbrev pub in_phase : ℕ → String → BuildRun → BuildRun
in_phase job phase r = record r { calls = phases job phase ∷ r.calls }

module _ (cfg : Config) (b : Build) (steps : Steps) where
  abbrev pub upload_step : Option String → BuildRun
  upload_step (some e) = fails b.job steps.finished_at "upload vod: " e
  upload_step none = record {
    calls = finishes b.job steps.finished_at none ∷ [];
    saved = some (vod_key cfg.key b.target.stream.stream_id steps.render (ext_of b.target));
  }

  abbrev pub convert_step : Option String → BuildRun
  convert_step (some e) =
      fails b.job steps.finished_at ("convert merged audio to " ++ (ext_of b.target ++ ": ")) e
  convert_step none = in_phase b.job "uploading" (upload_step steps.uploaded)

  abbrev pub merge_step : Option String → BuildRun
  merge_step (some e) = fails b.job steps.finished_at "merge raw audio: " e
  merge_step none =
      in_phase b.job "encoding"
        (convert_step (if ext_of b.target == ".mp4" then steps.remuxed else steps.converted))

  -- buildVod
  unfoldable pub build_vod : BuildRun
  unfolding vod_key
  build_vod = in_phase b.job "merging chunks" (merge_step steps.merged)
