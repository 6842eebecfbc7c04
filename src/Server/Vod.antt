-- ===== src/Server/Vod.antt =====
-- internal/server/vod.go: whether a stream can have a VOD, what is reported of it, and how a build is
-- started and runs. What the storage lists is an argument, as it changes with the builds.
use Prim.Native.String.{String, ◌++◌}
use live_transcript_server.Prelude.{
  ℕ, ◌-◌, not, Option, none, some, List, [], ◌∷◌, ℤ, pos, has_suffix, ◌==◌, if◌then◌else◌,
}
use live_transcript_server.Model.{Stream}
use live_transcript_server.Store.Sql.{Result, ok, err}
use live_transcript_server.Store.Streams.{get_stream_by_id}
use live_transcript_server.Store.Transcripts.{count_transcript_media}
use live_transcript_server.Storage.Keys.{vod_prefix}
use live_transcript_server.Server.Ids.{is_valid_id}
use live_transcript_server.Server.App.{Config, Act, give, ◌>>=◌, store}
use live_transcript_server.Server.Vods.{
  failed, VodStatus, VodRegistry, is_running, get_job, vod_job_key,
}

-- What the storage and the libraries make of a file's name: Storage.GetURL, filepath.Base,
-- sanitize.BaseName and url.QueryEscape.
pub record Names : Type 0 where
  pub get_url : String → String
  pub file_base : String → String
  pub sanitize : String → String
  pub escape : String → String

-- The states of AdminVodResponse.
pub data Shown : Type 0 where
  absent in_flight built broken : Shown

-- type AdminVodResponse; `error` is `failure`.
pub record VodResponse : Type 0 where
  pub stream_id : String
  pub state : Shown
  pub phase : String
  pub failure : String
  pub format : String
  pub total_lines : ℕ
  pub media_lines : ℕ
  pub missing_lines : ℕ
  pub url : String
  pub path : String
  pub started_at : ℤ
  pub finished_at : ℤ

-- vodExtension, with what follows the dot; `none` for the empty text.
unfoldable pub vod_format : Stream → Option String
vod_format st =
    if st.media_type == "video"
    then some "mp4"
    else if st.media_type == "audio"
    then some "m4a"
    else none

-- type vodTarget; the extension is "." with `format`.
pub record VodTarget : Type 0 where
  pub stream : Stream
  pub format : String
  pub total_lines : ℕ
  pub media_lines : ℕ

abbrev pub ext_of : VodTarget → String
ext_of target = "." ++ target.format

-- A step of a handler that can write the error response itself.
pub data Resolved : Type 0 where
  refused : ℕ → Resolved
  target : VodTarget → Resolved

-- What storage.List answers for a prefix; `none` for an error.
abbrev pub Listing : Type 0
Listing = String → Option (List String)

unfoldable pub first_with : String → List String → Option String
unfolding has_suffix
first_with ext [] = none
first_with ext (key ∷ keys) =
    let found = first_with ext keys in if has_suffix key ext then some key else found

-- findVodArtifact: `none` for an error, `some none` for no render.
abbrev pub artifact_in : String → Option (List String) → Option (Option String)
artifact_in ext none = none
artifact_in ext (some keys) = some (first_with ext keys)

-- resp before the state is known.
abbrev pub base_response : VodTarget → VodResponse
base_response t = record {
  stream_id = t.stream.stream_id;
  state = absent;
  phase = "";
  failure = "";
  format = t.format;
  total_lines = t.total_lines;
  media_lines = t.media_lines;
  missing_lines = t.total_lines - t.media_lines;
  url = "";
  path = "";
  started_at = pos 0;
  finished_at = pos 0;
}

abbrev pub shown_links : VodResponse → String × String → VodResponse
shown_links resp links = record resp { state = built; url = links.0; path = links.1 }

-- The state of a job that does not run, where no artifact is found.
abbrev pub shown_failure : VodResponse → Option VodStatus → VodResponse
shown_failure resp none = resp
shown_failure resp (some s) = elim s.state [
  | failed ↦ record resp { state = broken; failure = s.failure }
  | _ ↦ resp
]

abbrev pub with_times : VodResponse → Option VodStatus → VodResponse
with_times resp none = resp
with_times resp (some s) = record resp { started_at = s.started_at; finished_at = s.finished_at }

abbrev pub runs : Option VodStatus → Option String
runs none = none
runs (some s) = if is_running s.state then some s.phase else none

abbrev pub status_of : VodRegistry → Option ℕ → Option VodStatus
status_of r none = none
status_of r (some job) = some (r.heap job)

module _ (cfg : Config) where
  abbrev pub with_counts : Stream → String → Result (ℕ × ℕ) → Act Resolved
  with_counts st format (err e) = give (refused 500)
  with_counts st format (ok counts) = give (
      target
        (record { stream = st; format = format; total_lines = counts.0; media_lines = counts.1 }))

  abbrev pub with_format : String → Stream → Option String → Act Resolved
  with_format stream st none = give (refused 409)
  with_format stream st (some format) = do
    counts ← store (count_transcript_media cfg.key stream)
    with_counts st format counts

  abbrev pub with_row : String → Result (Option Stream) → Act Resolved
  with_row stream (err e) = give (refused 500)
  with_row stream (ok none) = give (refused 404)
  with_row stream (ok (some st)) =
      if st.is_live then give (refused 409) else with_format stream st (vod_format st)

  -- resolveVodTarget
  unfoldable pub resolve_vod_target : String → Act Resolved
  unfolding is_valid_id vod_format
  resolve_vod_target stream =
      if not (is_valid_id stream)
      then give (refused 400)
      else do found ← store (get_stream_by_id cfg.key stream); with_row stream found

  unfoldable pub find_vod_artifact : Listing → String → String → Option (Option String)
  unfolding first_with vod_prefix
  find_vod_artifact list stream ext = artifact_in ext (list (vod_prefix cfg.key stream))

  module _ (names : Names) where
    -- vodDownloadName
    unfoldable pub vod_download_name : Stream → String
    vod_download_name st =
        let name = names.sanitize st.stream_title in if not (name == "") then name else st.stream_id

    -- vodDownloadLinks: the URL and the path.
    unfoldable pub vod_download_links : String → Stream → String → String × String
    unfolding vod_download_name
    vod_download_links key st ext =
        if cfg.is_local
        then (
          "",
          "/download/"
              ++ (st.stream_id
                  ++ ("/vod/"
                      ++ (names.file_base key
                          ++ ("?name=" ++ names.escape (vod_download_name st))))),
        )
        else (
          names.get_url key
              ++ ("?download=true&name=" ++ names.escape (vod_download_name st ++ ext)),
          "",
        )

    abbrev pub with_artifact :
        VodTarget → VodResponse → Option VodStatus → Option (Option String) → Option VodResponse
    with_artifact t resp s none = none
    with_artifact t resp s (some none) = some (shown_failure resp s)
    with_artifact t resp s (some (some key)) =
        some (shown_links resp (vod_download_links key t.stream (ext_of t)))

    abbrev pub unless_running :
        Listing → VodTarget → VodResponse → Option VodStatus → Option String → Option VodResponse
    unless_running list t resp s (some phase) =
        some (record resp { state = in_flight; phase = phase })
    unless_running list t resp s none =
        with_artifact t resp s (find_vod_artifact list t.stream.stream_id (ext_of t))

    -- vodResponse; `none` for an error.
    unfoldable pub vod_response : Listing → VodTarget → VodRegistry → Option VodResponse
    unfolding find_vod_artifact vod_download_links get_job vod_job_key
    vod_response list t r =
        let s = status_of r (get_job (vod_job_key cfg.key t.stream.stream_id) r) in
        unless_running list t (with_times (base_response t) s) s (runs s)
