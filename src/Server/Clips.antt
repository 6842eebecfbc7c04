-- ===== src/Server/Clips.antt =====
-- internal/server/handlers_public.go: postClipHandler and postTrimHandler. What decoding, ffmpeg and
-- the storage answer, and the ID that shortuuid gives, are arguments.
use Prim.Native.String.{◌++◌}
use live_transcript_server.Prelude.{
  ℕ, String, Bool, true, false, not, ◌&&◌, ◌||◌, Option, none, some, List, [], ◌∷◌, ℤ, pos, lt_ℤ,
  le_ℤ, eq_ℤ, sub_ℤ, succ_ℤ, length, ◌==◌, if◌then◌else◌,
}
use live_transcript_server.Model.{Stream}
use live_transcript_server.Store.Sql.{Result, ok, err}
use live_transcript_server.Store.Streams.{get_stream_by_id}
use live_transcript_server.Store.Transcripts.{get_file_ids_in_range}
use live_transcript_server.Storage.Keys.{clip_key}
use live_transcript_server.Server.Ids.{is_valid_id}
use live_transcript_server.Server.App.{Config, Act, Reply, answered, json, give, ◌>>=◌, store}

-- The body of a request for a clip.
pub record ClipRequest : Type 0 where
  pub stream_id : String
  pub start : ℤ
  pub end : ℤ
  pub type : String

-- MergeRawAudio, Media.Remux, the two calls of Media.Convert, and the two uploads: whether each
-- succeeds.
pub record ClipSteps : Type 0 where
  pub merged : List String → Bool
  pub remuxed : Bool
  pub converted : Bool
  pub sidecar : Bool
  pub uploaded : Bool
  pub sidecar_uploaded : Bool

-- The answer, with the clip's ID, the files that were merged for it, and the keys that were saved.
pub record Clip : Type 0 where
  pub reply : Reply String
  pub sources : List String
  pub saved : List String

abbrev pub refused : ℕ → Clip
refused code = record { reply = answered code; sources = []; saved = [] }

abbrev pub media_of : Option Stream → String
media_of none = "none"
media_of (some st) = st.media_type

-- clipExt; an error is a status.
unfoldable pub clip_ext : String → String → Reply String
clip_ext type media =
    if type == "mp4"
    then if not (media == "video") then answered 405 else json ".mp4"
    else if type == "mp3"
    then json ".mp3"
    else if type == "m4a" || type == ""
    then json ".m4a"
    else answered 400

-- start < 0 || end < start || end-start >= app.MaxClipSize
abbrev pub is_bad_range : ℤ → ClipRequest → Bool
is_bad_range max req =
    lt_ℤ req.start (pos 0) || lt_ℤ req.end req.start || le_ℤ max (sub_ℤ req.end req.start)

-- The container is made; a failure is a 500.
abbrev pub is_converted : ClipSteps → String → Bool
is_converted steps type = if type == "mp4" then steps.remuxed else steps.converted

module _ (cfg : Config) (max : ℤ) (steps : ClipSteps) (id : String) (req : ClipRequest) where
  abbrev pub sidecar_keys : List String
  sidecar_keys =
      if req.type == "mp4" && steps.sidecar && steps.sidecar_uploaded
      then clip_key cfg.key req.stream_id id ".m4a" ∷ []
      else []

  -- From the merge of the files on: whether the merge, the conversion and the upload succeed.
  abbrev pub clip_if : String → List String → Bool → Bool → Bool → Clip
  clip_if ext files false converted uploaded = refused 500
  clip_if ext files true false uploaded = refused 500
  clip_if ext files true true false = refused 500
  clip_if ext files true true true = record {
    reply = json id;
    sources = files;
    saved = clip_key cfg.key req.stream_id id ext ∷ sidecar_keys;
  }

  abbrev pub make_clip : String → List String → Clip
  make_clip ext files =
      clip_if ext files (steps.merged files) (is_converted steps req.type) steps.uploaded

  abbrev pub with_files : String → Result (List String) → Act Clip
  with_files ext (err e) = give (refused 500)
  with_files ext (ok files) =
      if not (eq_ℤ (pos (length files)) (succ_ℤ (sub_ℤ req.end req.start)))
      then give (refused 500)
      else give (make_clip ext files)

  abbrev pub with_ext : Reply String → Act Clip
  with_ext (answered code) = give (refused code)
  with_ext (json ext) = if is_bad_range max req then give (refused 400) else do
    files ← store (get_file_ids_in_range cfg.key req.stream_id req.start req.end)
    with_files ext files

  abbrev pub with_media : Result (Option Stream) → Act Clip
  with_media (err e) = give (refused 500)
  with_media (ok found) = with_ext (clip_ext req.type (media_of found))

  -- postClipHandler, for a body that decodes.
  unfoldable pub clip_for : Act Clip
  unfolding is_valid_id clip_ext clip_key
  clip_for =
      if not (is_valid_id req.stream_id)
      then give (refused 400)
      else do found ← store (get_stream_by_id cfg.key req.stream_id); with_media found

-- postClipHandler; `none` for a body that does not decode.
unfoldable pub post_clip_handler : Config → ℤ → ClipSteps → String → Option ClipRequest → Act Clip
unfolding clip_for
post_clip_handler cfg max steps id none = give (refused 400)
post_clip_handler cfg max steps id (some req) = clip_for cfg max steps id req

-- The body of a request for a trim; of its times only the outcome of the test on them is used.
pub record TrimRequest : Type 0 where
  pub stream_id : String
  pub clip_id : String
  pub file_format : String
  pub valid_times : Bool

-- Storage.Get, os.Create, io.Copy, Media.Trim and the upload: whether each succeeds.
pub record TrimSteps : Type 0 where
  pub found : String → Bool
  pub created : Bool
  pub copied : Bool
  pub trimmed : Bool
  pub uploaded : Bool

abbrev pub is_trim_format : String → Bool
is_trim_format format = format == "m4a" || format == "mp3" || format == "mp4"

abbrev pub trim_for : Config → TrimSteps → String → TrimRequest → Clip
trim_for cfg steps id req =
    let source = clip_key cfg.key req.stream_id req.clip_id ("." ++ req.file_format) in
    if not req.valid_times
    then refused 400
    else if not (is_trim_format req.file_format)
    then refused 400
    else if not (is_valid_id req.stream_id) || not (is_valid_id req.clip_id)
    then refused 400
    else if not (steps.found source)
    then refused 404
    else if not (steps.created && steps.copied)
    then refused 500
    else if not steps.trimmed
    then refused 500
    else if not steps.uploaded
    then refused 500
    else record {
      reply = json id;
      sources = source ∷ [];
      saved = clip_key cfg.key req.stream_id id ("." ++ req.file_format) ∷ [];
    }

-- postTrimHandler; `none` for a body that does not decode.
unfoldable pub post_trim_handler : Config → TrimSteps → String → Option TrimRequest → Clip
unfolding is_valid_id clip_key
post_trim_handler cfg steps id none = refused 400
post_trim_handler cfg steps id (some req) = trim_for cfg steps id req
