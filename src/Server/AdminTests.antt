-- ===== src/Server/AdminTests.antt =====
-- internal/server: the theorems on the requests of viewers and admins, at a channel with three streams.
use live_transcript_server.Prelude.{
  ◌≡◌, refl, String, true, false, none, some, [], ◌∷◌, ℤ, pos, sort_by,
}
use live_transcript_server.Model.{Line}
use live_transcript_server.Store.Sql.{statement}
use live_transcript_server.Store.Outcome.{clean}
use live_transcript_server.Store.Streams.{find_stream, get_stream_by_id}
use live_transcript_server.Store.Transcripts.{
  row_of, rows_of, count_media, count_transcript_media, get_all_media_file_ids, all_media_file_ids,
}
use live_transcript_server.Server.App.{App}
use live_transcript_server.Server.Vods.{VodRegistry, new_vod_registry, claim, find_job, install}
use live_transcript_server.Server.Edit.{EditBody, post_admin_stream_handler}
use live_transcript_server.Server.Edits
use live_transcript_server.Server.Edits.{post_admin_stream_handler-effect}
use live_transcript_server.Server.Admin.{delete_admin_stream_handler}
use live_transcript_server.Server.Deletions
use live_transcript_server.Server.Deletions.{delete_admin_stream_handler-effect}
use live_transcript_server.Server.Clips.{ClipRequest, ClipSteps}
use live_transcript_server.Server.Files.{present, stream_handler}
use live_transcript_server.Server.Confined.{to_stream, IsConfined, files-IsConfined}
use live_transcript_server.Server.Vod.{Names, Listing}
use live_transcript_server.Server.VodBuild.{Build, Steps, build_vod, post_admin_vod_handler}
use live_transcript_server.Server.Builds.{claims, phases, finishes, forgets, run_all}
use live_transcript_server.Server.BuildEnds.{over, builds, another, state_of, build_vod-IsFinished}
use live_transcript_server.Server.VodStarts.{IsStarted, post_admin_vod_handler-IsStarted}
use live_transcript_server.Server.Fixtures.{config, app_with, tables, stream_at, first_line}

-- A new title, and a media type that the server knows.
abbrev edit : EditBody
edit = record { stream_title = some " new "; start_time = none; media_type = some "video" }

post_admin_stream_handler-effect_example :
    Edits.Outcome config
      (pos 0)
      "a"
      edit
      (Edits.updated config (pos 0) "a" edit (app_with []))
      (app_with [])
      (post_admin_stream_handler config (pos 0) "a" (some edit) (app_with []))
post_admin_stream_handler-effect_example =
    post_admin_stream_handler-effect config (pos 0) "a" edit (app_with [])

delete_admin_stream_handler-effect_example :
    Deletions.Outcome config "a" true
      (app_with [])
      (delete_admin_stream_handler config "a" true (app_with []))
delete_admin_stream_handler-effect_example =
    delete_admin_stream_handler-effect config "a" true (app_with [])

-- Lines 0 and 1 of stream "a", with files.
abbrev line_with : ℤ → String → Line
line_with id file = record first_line { id = id; file_id = file; media_available = true }

abbrev two_lines : App
two_lines = record (app_with []) {
  conn = clean (record tables {
    transcripts =
        row_of "chan" "a" (line_with (pos 0) "x") ∷ row_of "chan" "a" (line_with (pos 1) "y") ∷ [];
  });
}

abbrev request : ClipRequest
request = record { stream_id = "a"; start = pos 0; end = pos 1; type = "mp3" }

abbrev all_fine : ClipSteps
all_fine = record {
  merged = λ files. true;
  remuxed = true;
  converted = true;
  sidecar = true;
  uploaded = true;
  sidecar_uploaded = true;
}

files-IsConfined_example : IsConfined ("audio" ∷ "clips" ∷ []) ("a" ∷ "clips" ∷ "x.mp3" ∷ [])
unfolding stream_handler
files-IsConfined_example =
    files-IsConfined config (λ path. present) (to_stream "a" "clips" "x.mp3")
      (record { path = "a" ∷ "clips" ∷ "x.mp3" ∷ []; content_type = "audio/mpeg" }) refl

abbrev names : Names
names = record {
  get_url = λ key. key;
  file_base = λ key. key;
  sanitize = λ name. name;
  escape = λ name. name;
}

abbrev nothing_listed : Listing
nothing_listed prefix = some []

abbrev same : VodRegistry → VodRegistry
same r = r

abbrev build : Build
build = record {
  job = 0;
  target = record {
    stream = stream_at "a" (pos 1) false;
    format = "m4a";
    total_lines = 2;
    media_lines = 2;
  };
  file_ids = "x" ∷ "y" ∷ [];
}

post_admin_vod_handler-IsStarted_example :
    (find_stream "chan" "a" two_lines.conn.db ≡ some (stream_at "a" (pos 1) false))
    × IsStarted config names (pos 9) nothing_listed nothing_listed same same two_lines build
unfolding post_admin_vod_handler get_stream_by_id statement find_stream count_transcript_media
    count_media rows_of new_vod_registry get_all_media_file_ids all_media_file_ids sort_by
post_admin_vod_handler-IsStarted_example =
    post_admin_vod_handler-IsStarted config names (pos 9) nothing_listed nothing_listed same same
      "a" two_lines build refl

-- The encoding fails.
abbrev broken_steps : Steps
broken_steps = record {
  merged = none;
  remuxed = none;
  converted = some "exit status 1";
  uploaded = none;
  render = "r";
  finished_at = pos 20;
}

build_vod-IsFinished_example :
    ((run_all
        (phases 0 "merging chunks"
          ∷ claims "chan/a" (pos 12)
          ∷ phases 0 "encoding"
          ∷ forgets "chan/a"
          ∷ finishes 0 (pos 20) (some "convert merged audio to .m4a: exit status 1")
          ∷ [])
        (claim "chan/a" (pos 10) new_vod_registry).1).heap
      0).state
    ≡ state_of (build_vod config build broken_steps).saved
unfolding claim find_job install new_vod_registry build_vod
build_vod-IsFinished_example =
    build_vod-IsFinished config build broken_steps "chan/a" (pos 10) new_vod_registry
      {others = claims "chan/a" (pos 12) ∷ forgets "chan/a" ∷ []} refl
      (builds (phases 0 "merging chunks") (
        another (claims "chan/a" (pos 12))
          (builds (phases 0 "encoding") (another (forgets "chan/a") (builds _ over)))))
      (refl, (refl, tt))
