-- ===== src/Server/WorkerTests.antt =====
-- internal/server: the theorems on the worker handlers, the WebSocket handler and the storage prefixes.
use live_transcript_server.Prelude.{
  ◌≡◌, ◌≢◌, eqb, refl, ◌⊎◌, true, false, some, [], ◌∷◌, pos, any, filter, update_where, sort_by,
  arith,
}
use live_transcript_server.Store.Sql.{statement}
use live_transcript_server.Store.Streams.{find_stream}
use live_transcript_server.Storage.Keys.{stream_prefix}
use live_transcript_server.Store.Transcripts.{
  last_row, rows_of, set_media_available, set_media, get_last_available_media_files,
}
use live_transcript_server.Store.Streams.{stream_exists, get_stream_by_id}
use live_transcript_server.Server.Ids.{is_valid_id, has_id_chars}
use live_transcript_server.Server.Worker.{status, line_handler}
use live_transcript_server.Server.Lines.{IsPosted, IsRefused}
use live_transcript_server.Server.Upload.{media_handler, accept_media, commit_media}
use live_transcript_server.Server.Commits.{IsHeld}
use live_transcript_server.Server.Lifecycle.{broadcast_new_media}
use live_transcript_server.Server.Websocket.{ws_handler}
use live_transcript_server.Ws.Pumps.{ping, timestamp, disconnected}
use live_transcript_server.Ws.Wf.{IsWf, new_hub-IsWf}
use live_transcript_server.Server.Lines.{line_handler-effect}
use live_transcript_server.Server.Commits.{media_handler-IsHeld}
use live_transcript_server.Server.Slots.{ws_handler-IsWf}
use live_transcript_server.Server.Prefixes.{stream_prefix_inj}
use live_transcript_server.Server.Fixtures.{
  config, app_with, chan, stream_a, with_line, next_line, upload,
}

line_handler-effect_example :
    (((line_handler config "a" (pos 5) (some next_line) with_line).0 ≡ status 200)
      × IsPosted config "a"
          (pos 5)
          next_line
          with_line
          (line_handler config "a" (pos 5) (some next_line) with_line).1)
    ⊎ (((line_handler config "a" (pos 5) (some next_line) with_line).0 ≢ status 200)
        × IsRefused config "a"
            (pos 5)
            next_line
            with_line
            (line_handler config "a" (pos 5) (some next_line) with_line).1)
unfolding last_row rows_of filter sort_by
line_handler-effect_example =
    line_handler-effect config "a" (pos 5) next_line with_line (omega arith)

media_handler-IsHeld_example :
    IsHeld config.key "a"
      (pos 0)
      upload.file_id
      (media_handler config "a" upload with_line).1.conn.db
unfolding media_handler accept_media commit_media is_valid_id has_id_chars stream_exists
    get_stream_by_id find_stream set_media_available set_media get_last_available_media_files
    statement filter update_where broadcast_new_media
media_handler-IsHeld_example = media_handler-IsHeld config "a" upload (pos 0) with_line refl refl

ws_handler-IsWf_example :
    IsWf 2 0
      (ws_handler config true (ping (timestamp (pos 3)) ∷ disconnected ∷ []) (app_with [])).1.hub
    × (any
          (eqb (app_with []).hub.allocated)
          (ws_handler config true
            (ping (timestamp (pos 3)) ∷ disconnected ∷ [])
            (app_with [])).1.hub.clients
        ≡ false)
ws_handler-IsWf_example =
    ws_handler-IsWf {limit = 2} 0 config true (ping (timestamp (pos 3)) ∷ disconnected ∷ [])
      (app_with []) (omega arith) (new_hub-IsWf "chan")

stream_prefix_inj_example : (chan ≡ chan) × (stream_a ≡ stream_a)
unfolding is_valid_id has_id_chars stream_prefix
stream_prefix_inj_example =
    stream_prefix_inj chan stream_a chan stream_a "chan/a/raw/f.raw" refl refl refl refl
      ("raw/f.raw", refl) ("raw/f.raw", refl)
