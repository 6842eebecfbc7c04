-- ===== src/Server/Files.antt =====
-- internal/server/handlers_public.go: the handlers that serve files, transcripts and the status. A
-- file is served by its path below the channel's media folder; os.Stat is an argument.
use Prim.Native.String.{◌++◌}
use live_transcript_server.Prelude.{
  String, Bool, true, false, not, ◌||◌, Option, none, some, List, [], ◌∷◌, map, ℤ, pos, le_ℤ, lt_ℤ,
  sub_ℤ, any, ext, trim_suffix, ◌==◌, if◌then◌else◌,
}
use live_transcript_server.Model.{Line, Stream, WorkerStatus}
use live_transcript_server.Store.Sql.{Result, ok, err}
use live_transcript_server.Store.Streams.{get_stream_by_id}
use live_transcript_server.Store.Transcripts.{get_transcript}
use live_transcript_server.Store.Worker.{get_all_worker_status}
use live_transcript_server.Server.Ids.{is_valid_id}
use live_transcript_server.Server.App.{Config, Act, Reply, answered, json, give, ◌>>=◌, store}
use live_transcript_server.Server.Maintenance.{worker_active_window}
use live_transcript_server.Server.Admin.{or_500}

-- os.Stat: the file is there, is not, or cannot be looked at.
pub data Stat : Type 0 where
  present missing unknown : Stat

-- A file that is served, with its content type.
pub record Served : Type 0 where
  pub path : List String
  pub content_type : String

-- mediaContentTypes
unfoldable pub content_type : String → Option String
content_type ext =
    if ext == ".m4a"
    then some "audio/mp4"
    else if ext == ".mp4"
    then some "video/mp4"
    else if ext == ".mp3"
    then some "audio/mpeg"
    else if ext == ".jpg"
    then some "image/jpeg"
    else none

abbrev pub is_one_of : String → List String → Bool
is_one_of s options = any (λ o. s == o) options

module _ (cfg : Config) (stat : List String → Stat) where
  -- http.ServeFile after os.Stat.
  abbrev pub serve_if : List String → String → Stat → Reply Served
  serve_if path content present = json (record { path = path; content_type = content })
  serve_if path content missing = answered 404
  serve_if path content unknown = answered 500

  abbrev pub serve : List String → String → Reply Served
  serve path content = serve_if path content (stat path)

  abbrev pub stream_as : String → String → String → String → Option String → Reply Served
  stream_as stream kind id ext none = answered 400
  stream_as stream kind id ext (some content) =
      if ext == ".jpg"
      then answered 400
      else if not (is_valid_id stream) || not (is_valid_id id)
      then answered 400
      else serve (stream ∷ kind ∷ (id ++ ext) ∷ []) content

  -- streamHandler: the stream, type and filename of the path.
  unfoldable pub stream_handler : String → String → String → Reply Served
  unfolding is_valid_id content_type ext trim_suffix
  stream_handler stream kind filename =
      if not cfg.is_local
      then answered 400
      else if not (is_one_of kind ("audio" ∷ "clips" ∷ []))
      then answered 400
      else stream_as stream kind (trim_suffix filename (ext filename)) (ext filename)
          (content_type (ext filename))

  -- getFrameHandler
  unfoldable pub get_frame_handler : String → String → Reply Served
  unfolding is_valid_id ext trim_suffix
  get_frame_handler stream filename =
      if not cfg.is_local
      then answered 400
      else if not (ext filename == ".jpg")
      then answered 400
      else if not (is_valid_id stream) || not (is_valid_id (trim_suffix filename (ext filename)))
      then answered 400
      else serve (stream ∷ "frame" ∷ (trim_suffix filename (ext filename) ++ ext filename) ∷ [])
          "image/jpeg"

  abbrev pub is_present : Stat → Bool
  is_present present = true
  is_present _ = false

  abbrev pub download_as : String → String → String → String → Option String → Reply Served
  download_as stream kind id ext none = answered 400
  download_as stream kind id ext (some content) = serve (stream ∷ kind ∷ (id ++ ext) ∷ []) content

  -- downloadHandler, without the name that it suggests.
  unfoldable pub download_handler : String → String → String → Reply Served
  unfolding is_valid_id content_type ext trim_suffix
  download_handler stream kind filename =
      if not cfg.is_local
      then answered 400
      else if not (is_one_of kind ("audio" ∷ "clips" ∷ "frame" ∷ "vod" ∷ []))
      then answered 400
      else if not (is_valid_id stream)
      then answered 400
      else if not (is_present (stat (stream ∷ [])))
      then answered 404
      else if not (is_valid_id (trim_suffix filename (ext filename)))
      then answered 400
      else download_as stream kind (trim_suffix filename (ext filename)) (ext filename)
          (content_type (ext filename))

-- observePastStreamAge, in microseconds: what the histogram records, if anything.
abbrev pub age_of : ℤ → Result (Option Stream) → Option ℤ
age_of now (err e) = none
age_of now (ok none) = none
age_of now (ok (some st)) =
    if st.is_live || le_ℤ st.activated_time (pos 0)
    then none
    else if lt_ℤ now st.activated_time
    then none
    else some (sub_ℤ now st.activated_time)

module _ (cfg : Config) where
  unfoldable pub observe_past_stream_age : ℤ → String → Act (Option ℤ)
  observe_past_stream_age now stream = do
    found ← store (get_stream_by_id cfg.key stream)
    give (age_of now found)

  -- getTranscriptHandler
  unfoldable pub get_transcript_handler : ℤ → String → Act (Reply (List Line))
  unfolding is_valid_id observe_past_stream_age
  get_transcript_handler now stream = if not (is_valid_id stream) then give (answered 400) else do
    lines ← store (get_transcript cfg.key stream)
    or_500 (λ lines. do age ← observe_past_stream_age now stream; give (json lines)) lines

abbrev pub with_active : ℤ → WorkerStatus → WorkerStatus
with_active now w = record w { is_active = lt_ℤ (sub_ℤ now w.last_seen) worker_active_window }

-- getStatusHandler, without the build of the server.
unfoldable pub get_status_handler : ℤ → Act (Reply (List WorkerStatus))
get_status_handler now = do
  workers ← store get_all_worker_status
  or_500 (λ workers. give (json (map (with_active now) workers))) workers
