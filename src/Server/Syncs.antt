-- ===== src/Server/Syncs.antt =====
-- internal/server/handlers_worker.go: what syncHandler leaves.
use live_transcript_server.Prelude.{
  String, ◌≡◌, ◌⊎◌, true, Option, none, some, List, map, ℤ, pos, negsuc, sort_asc,
}
use live_transcript_server.Model.{Line, Stream, WorkerData}
use live_transcript_server.Store.Sql.{Db, Conn, err, Error}
use live_transcript_server.Store.Transcripts.{
  transcript_of, null_string, last_media, get_last_available_media_files,
}
use live_transcript_server.Store.Held.{held_in}
use live_transcript_server.Server.App.{Config, App, ◌>>=◌}

-- A line as a sync stores it, where `held` is the file that its ID had.
abbrev pub carried : Line → Option String → Line
carried line none = line
carried line (some file) = record line { media_available = true; file_id = file }

-- The lines that are sent, with the files that the tables hold for the stream.
abbrev pub carried_from : String → String → Db → List Line → List Line
carried_from channel stream db lines =
    map (λ line. carried line (held_in channel stream line.id db.transcripts)) lines

-- The map from the lines of a stream that have media to their files.
abbrev media_of : String → String → Db → List (ℤ × String)
media_of channel stream db =
    map (λ r. (r.line_id, null_string r.file_id)) (last_media channel stream (negsuc 0) db)

module _ (cfg : Config) (sent : WorkerData) (upload : ℤ) where
  -- The transcript after the lines that are stored.
  abbrev HasLines : List Line → App → Type 0
  HasLines lines app = transcript_of cfg.key sent.stream_id app.conn.db ≡ sort_asc (λ l. l.id) lines

  -- The lines carry the media that the tables held, or, where the read of it on `read` has failed,
  -- are as they were sent.
  abbrev IsCarried : Db → Conn → App → Type 0
  IsCarried db read app =
      HasLines (carried_from cfg.key sent.stream_id db sent.transcript) app
      ⊎ ((e : Error) × ((get_last_available_media_files cfg.key sent.stream_id (negsuc 0) read).0
            ≡ err e)
          × HasLines sent.transcript app)

  -- The row that a sync stores.
  abbrev pub synced : Stream
  synced = record {
    channel_id = cfg.key;
    stream_id = sent.stream_id;
    stream_title = sent.stream_title;
    start_time = sent.start_time;
    is_live = sent.is_live;
    media_type = sent.media_type;
    activated_time = pos 0;
  }
