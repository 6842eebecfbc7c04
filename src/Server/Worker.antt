-- ===== src/Server/Worker.antt =====
-- internal/server/handlers_worker.go: the requests of a worker. What decoding, conversion and the
-- storage answer is an argument of the handler.
use live_transcript_server.Prelude.{
  ℕ, String, Bool, true, false, not, ◌||◌, Option, none, some, List, [], ◌∷◌, map, ℤ, pos, negsuc,
  lt_ℤ, eq_ℤ, eqb, head?, filter, ◌==◌, if◌then◌else◌,
}
use live_transcript_server.Model.{Line, WorkerData}
use live_transcript_server.Store.Sql.{Result, ok, err, out_of_sync}
use live_transcript_server.Store.Streams.{upsert_stream}
use live_transcript_server.Store.Transcripts.{
  get_last_available_media_files, replace_transcript, insert_next_line,
}
use live_transcript_server.Store.Incoming.{get_incoming_streams, delete_incoming_stream}
use live_transcript_server.Store.Worker.{
  upsert_worker_status, upsert_restart_request, get_restart_request, delete_restart_request,
}
use live_transcript_server.Ws.Hub.{connections}
use live_transcript_server.Server.Ids.{is_valid_id}
use live_transcript_server.Server.App.{Config, Act, give, ◌>>=◌, ◌>>◌, store, bump_admin_change}
use live_transcript_server.Server.Lifecycle.{broadcast_new_line, activate_stream, deactivate_stream}

-- The status of an answer, with the data of its body where a client reads it.
pub data Response : Type 0 where
  status : ℕ → Response
  urls : List String → Response
  restart_status : Bool → ℤ → Response
  clients : ℤ → Response

-- The entry of a map from line to file.
abbrev pub file_of : ℤ → List (ℤ × String) → Option (ℤ × String)
file_of id files = head? (filter (λ f. eq_ℤ f.0 id) files)

abbrev pub carry_to : Line → Option (ℤ × String) → Line
carry_to line none = line
carry_to line (some f) = record line { media_available = true; file_id = f.1 }

-- The loop of syncHandler that carries the media over.
unfoldable pub carry_media : List (ℤ × String) → List Line → List Line
unfolding filter
carry_media files lines = map (λ line. carry_to line (file_of line.id files)) lines

-- A nil map, if the query fails.
abbrev pub files_or_none : Result (List (ℤ × String)) → List (ℤ × String)
files_or_none (ok files) = files
files_or_none (err e) = []

-- "Force MediaAvailable to false for new lines"
abbrev pub without_media : Line → Line
without_media line = record line { media_available = false }

module _ (cfg : Config) where
  abbrev pub sync_replaced : WorkerData → ℤ → Result (Unit {0}) → Act Response
  sync_replaced data_in upload (err e) = give (status 500)
  sync_replaced data_in upload (ok u) = do
    bump_admin_change
    broadcast_new_line cfg data_in.stream_id upload none
    give (status 200)

  abbrev pub sync_stored : WorkerData → ℤ → Result (Unit {0}) → Act Response
  sync_stored data_in upload (err e) = give (status 500)
  sync_stored data_in upload (ok u) = do
    files ← store (get_last_available_media_files cfg.key data_in.stream_id (negsuc 0))
    replaced ← store (
        replace_transcript cfg.key data_in.stream_id
          (carry_media (files_or_none files) data_in.transcript))
    sync_replaced data_in upload replaced

  -- syncHandler; `none` for a body that does not decode.
  unfoldable pub sync_handler : ℤ → Option WorkerData → Act Response
  unfolding carry_media bump_admin_change broadcast_new_line is_valid_id
  sync_handler upload none = give (status 400)
  sync_handler upload (some data_in) =
      if not (is_valid_id data_in.stream_id) then give (status 400) else do
        stored ← store (
            upsert_stream (record {
              channel_id = cfg.key;
              stream_id = data_in.stream_id;
              stream_title = data_in.stream_title;
              start_time = data_in.start_time;
              is_live = data_in.is_live;
              media_type = data_in.media_type;
              activated_time = pos 0;
            }))
        sync_stored data_in upload stored

  abbrev pub line_stored : String → ℤ → Line → Result (Unit {0}) → Act Response
  line_stored stream upload line (err out_of_sync) = give (status 409)
  line_stored stream upload line (err e) = give (status 500)
  line_stored stream upload line (ok u) = do
    broadcast_new_line cfg stream upload (some line)
    give (status 200)

  -- lineHandler
  unfoldable pub line_handler : String → ℤ → Option Line → Act Response
  unfolding broadcast_new_line is_valid_id
  line_handler stream upload none = give (status 400)
  line_handler stream upload (some line) =
      if not (is_valid_id stream) then give (status 400) else do
        stored ← store (insert_next_line cfg.key stream (without_media line))
        line_stored stream upload (without_media line) stored

  -- activateHandler: the query's id, title, startTime and mediaType, and the start time that
  -- ParseInt and FormatInt make of it, or of the clock.
  unfoldable pub activate_handler : ℤ → String → String → String → String → String → Act Response
  unfolding activate_stream is_valid_id
  activate_handler now stream title start final_start media =
      if stream == "" || title == "" || start == ""
      then give (status 400)
      else if not (is_valid_id stream)
      then give (status 400)
      else do
        activated ← activate_stream cfg now stream title final_start media
        give (status (if activated then 200 else 208))

  -- deactivateHandler
  unfoldable pub deactivate_handler : String → Act Response
  unfolding deactivate_stream is_valid_id
  deactivate_handler stream = if not (is_valid_id stream) then give (status 400) else do
    deactivated ← deactivate_stream cfg stream
    give (status (if deactivated then 200 else 208))

  -- workerStatusHandler, for a body that decodes.
  unfoldable pub worker_status_handler : String → String → ℤ → List String → Act Response
  worker_status_handler version build seen [] = give (status 200)
  worker_status_handler version build seen (key ∷ keys) = do
    stored ← store (upsert_worker_status key version build seen)
    worker_status_handler version build seen keys

  -- statuscheckHandler
  unfoldable pub statuscheck_handler : Act Response
  unfolding connections
  statuscheck_handler app = (clients (connections app.hub), app)

  abbrev pub tell_urls : Result (List String) → Act Response
  tell_urls (err e) = give (status 500)
  tell_urls (ok queue) = give (urls queue)

  -- getIncomingHandler
  unfoldable pub get_incoming_handler : Act Response
  get_incoming_handler = do queue ← store (get_incoming_streams cfg.key); tell_urls queue

  -- What follows a DELETE: an error, no row, or a change that admin pages show.
  abbrev pub after_delete : Result ℕ → Act Response
  after_delete (err e) = give (status 500)
  after_delete (ok n) =
      if eqb n 0 then give (status 404) else (do bump_admin_change; give (status 204))

  -- deleteIncomingHandler
  unfoldable pub delete_incoming_handler : String → Act Response
  unfolding bump_admin_change
  delete_incoming_handler url =
      if url == ""
      then give (status 400)
      else do deleted ← store (delete_incoming_stream cfg.key url); after_delete deleted

  abbrev pub after_request : Result (Unit {0}) → Act Response
  after_request (err e) = give (status 500)
  after_request (ok u) = do bump_admin_change; give (status 204)

  -- postRestartHandler
  unfoldable pub post_restart_handler : ℤ → Act Response
  unfolding bump_admin_change
  post_restart_handler now = do
    stored ← store (upsert_restart_request cfg.key now)
    after_request stored

  abbrev pub tell_restart : Result ℤ → Act Response
  tell_restart (err e) = give (status 500)
  tell_restart (ok at) = give (restart_status (lt_ℤ (pos 0) at) at)

  -- getRestartHandler
  unfoldable pub get_restart_handler : Act Response
  get_restart_handler = do at ← store (get_restart_request cfg.key); tell_restart at

  -- deleteRestartHandler
  unfoldable pub delete_restart_handler : Act Response
  unfolding bump_admin_change
  delete_restart_handler = do deleted ← store (delete_restart_request cfg.key); after_delete deleted
