-- ===== src/Server/Lifecycle.antt =====
-- internal/server/lifecycle.go: how a channel's streams start, end and are removed.
use live_transcript_server.Prelude.{
  String, Bool, true, false, not, Option, none, some, List, [], ◌∷◌, ℤ, pos, lt_ℤ, succ64, leb,
  length, ◌==◌, if◌then◌else◌,
}
use live_transcript_server.Model.{Line, Stream}
use live_transcript_server.Store.Sql.{Result, ok, err}
use live_transcript_server.Store.Streams.{
  get_recent_stream, get_all_streams, get_past_streams, upsert_stream, set_stream_live,
  delete_stream_cascade,
}
use live_transcript_server.Store.Transcripts.{get_last_line}
use live_transcript_server.Ws.Events.{
  past_streams, new_stream, status, deleted_stream, new_line, new_media,
}
use live_transcript_server.Storage.Keys.{stream_prefix}
use live_transcript_server.Server.App.{
  Config, Act, give, ◌>>=◌, ◌>>◌, store, send, bump_admin_change, delete_stream_storage_async,
  forget, notify_stream_start,
}

module _ (cfg : Config) where
  -- The deletion of one stream by the retention of local storage.
  abbrev pub delete_media : String → Result (Unit {0}) → Act (Unit {0})
  delete_media stream (ok u) = delete_stream_storage_async cfg.key stream
  delete_media stream (err e) = give tt

  -- applyRetention's loop for local storage, with pastStreamsKept.
  unfoldable pub keep_local : String → ℤ → List Stream → Act (Unit {0})
  unfolding delete_stream_storage_async succ64
  keep_local active kept [] = give tt
  keep_local active kept (s ∷ rest) =
      if s.stream_id == active
      then keep_local active kept rest
      else if lt_ℤ kept cfg.num_past_streams
      then keep_local active (succ64 kept) rest
      else do
        deleted ← store (delete_stream_cascade cfg.key s.stream_id)
        delete_media s.stream_id deleted
        keep_local active kept rest

  abbrev pub drop_missing : String → Option Bool → Act (Unit {0})
  drop_missing stream none = give tt
  drop_missing stream (some true) = give tt
  drop_missing stream (some false) = do
    deleted ← store (delete_stream_cascade cfg.key stream)
    give tt

  -- applyRetention's loop for R2 storage.
  unfoldable pub keep_present : String → List Stream → Act (Unit {0})
  unfolding stream_prefix
  keep_present active [] = give tt
  keep_present active (s ∷ rest) = if s.stream_id == active then keep_present active rest else do
    drop_missing s.stream_id (cfg.probe (stream_prefix cfg.key s.stream_id))
    keep_present active rest

  abbrev pub retain : String → Result (List Stream) → Act (Unit {0})
  retain active (err e) = give tt
  retain active (ok streams) =
      if cfg.is_local
      then keep_local active (pos 0) streams
      else if leb (length streams) 1
      then give tt
      else keep_present active streams

  -- applyRetention
  unfoldable pub apply_retention : String → Act (Unit {0})
  unfolding keep_local keep_present
  apply_retention active = do streams ← store (get_all_streams cfg.key); retain active streams

  abbrev pub tell_past : Result (List Stream) → Act (Unit {0})
  tell_past (err e) = give tt
  tell_past (ok streams) = send (past_streams streams)

  abbrev pub first_live : String → List Stream → String
  first_live other [] = other
  first_live other (s ∷ rest) = if s.is_live then s.stream_id else first_live other rest

  -- The stream that broadcastPastStreams holds out.
  abbrev pub held_out : List Stream → String
  held_out [] = ""
  held_out (s ∷ rest) = first_live s.stream_id (s ∷ rest)

  abbrev pub tell_past_but : Result (List Stream) → Act (Unit {0})
  tell_past_but (err e) = give tt
  tell_past_but (ok streams) = do
    past ← store (get_past_streams cfg.key (held_out streams))
    tell_past past

  -- broadcastPastStreams
  unfoldable pub broadcast_past_streams : Act (Unit {0})
  broadcast_past_streams = do streams ← store (get_all_streams cfg.key); tell_past_but streams

  -- The steps of activateStream after its UpsertStream has succeeded.
  unfoldable pub announce_stream : Stream → Act Bool
  unfolding apply_retention bump_admin_change
  announce_stream st = do
    notify_stream_start (record {
      stream_id = st.stream_id;
      stream_title = st.stream_title;
      start_time = st.start_time;
    })
    apply_retention st.stream_id
    past ← store (get_past_streams cfg.key st.stream_id)
    tell_past past
    send (
        new_stream (record {
          stream_id = st.stream_id;
          stream_title = st.stream_title;
          start_time = st.start_time;
          media_type = st.media_type;
          media_base_url = cfg.base_url;
          is_live = st.is_live;
        }))
    bump_admin_change
    give true

  abbrev pub announce_if : Stream → Result (Unit {0}) → Act Bool
  announce_if st (err e) = give false
  announce_if st (ok u) = announce_stream st

  -- "Deactivate previous stream if it was live"; an error is logged.
  abbrev pub end_previous : Option Stream → Act (Unit {0})
  end_previous none = give tt
  end_previous (some old) =
      if old.is_live
      then (do ended ← store (set_stream_live cfg.key old.stream_id false); give tt)
      else give tt

  -- activateStream where there is no stream, or another one.
  unfoldable pub start_stream : Option Stream → Stream → Act Bool
  unfolding announce_stream
  start_stream previous st = do
    end_previous previous
    stored ← store (upsert_stream st)
    announce_if st stored

  abbrev pub resumed : Stream → Result (Unit {0}) → Act Bool
  resumed st (err e) = give false
  resumed st (ok u) = do
    send (
        status
          (record { stream_id = st.stream_id; stream_title = st.stream_title; is_live = true }))
    bump_admin_change
    give true

  -- activateStream where the recent stream has the ID.
  unfoldable pub resume_stream : Stream → Act Bool
  unfolding bump_admin_change
  resume_stream st =
      if st.is_live
      then give false
      else do stored ← store (set_stream_live cfg.key st.stream_id true); resumed st stored

  abbrev pub activate_after : Stream → Result (Option Stream) → Act Bool
  activate_after st (err e) = give false
  activate_after st (ok none) = start_stream none st
  activate_after st (ok (some current)) =
      if current.stream_id == st.stream_id
      then resume_stream current
      else start_stream (some current) st

  -- newStream
  abbrev pub new_row : ℤ → String → String → String → String → Stream
  new_row now stream_id title start media = record {
    channel_id = cfg.key;
    stream_id = stream_id;
    stream_title = title;
    start_time = start;
    is_live = true;
    media_type = media;
    activated_time = now;
  }

  -- activateStream; `now` is time.Now().UnixMicro().
  unfoldable pub activate_stream : ℤ → String → String → String → String → Act Bool
  unfolding start_stream resume_stream
  activate_stream now stream_id title start media = do
    current ← store (get_recent_stream cfg.key)
    activate_after (new_row now stream_id title start media) current

  abbrev pub ended : Stream → Result (Unit {0}) → Act Bool
  ended st (err e) = give false
  ended st (ok u) = do
    send (
        status
          (record { stream_id = st.stream_id; stream_title = st.stream_title; is_live = false }))
    bump_admin_change
    give true

  abbrev pub deactivate_after : String → Result (Option Stream) → Act Bool
  deactivate_after stream (err e) = give false
  deactivate_after stream (ok none) = give false
  deactivate_after stream (ok (some current)) =
      if not (current.stream_id == stream)
      then give false
      else if not current.is_live
      then give false
      else do stored ← store (set_stream_live cfg.key stream false); ended current stored

  -- deactivateStream
  unfoldable pub deactivate_stream : String → Act Bool
  unfolding bump_admin_change
  deactivate_stream stream = do
    current ← store (get_recent_stream cfg.key)
    deactivate_after stream current

  abbrev pub delete_if : Bool → String → Act (Unit {0})
  delete_if true stream = delete_stream_storage_async cfg.key stream
  delete_if false stream = give tt

  abbrev pub removed : Stream → Bool → Result (Unit {0}) → Act (Result (Unit {0}))
  removed st media (err e) = give (err e)
  removed st media (ok u) = do
    forget cfg.key st.stream_id
    send (
        deleted_stream (record {
          stream_id = st.stream_id;
          stream_title = st.stream_title;
          was_live = st.is_live;
        }))
    delete_if media st.stream_id
    give (ok tt)

  -- removeStream
  unfoldable pub remove_stream : Stream → Bool → Act (Result (Unit {0}))
  unfolding forget delete_stream_storage_async
  remove_stream st media = do
    deleted ← store (delete_stream_cascade cfg.key st.stream_id)
    removed st media deleted

  abbrev pub tell_line : ℤ → Result (Option Line) → Act (Unit {0})
  tell_line upload (err e) = give tt
  tell_line upload (ok none) = give tt
  tell_line upload (ok (some line)) = send (
      new_line (record {
        line_id = line.id;
        timestamp = line.timestamp;
        upload_time = upload;
        media_available = false;
        segments = line.segments;
        vod_accurate = line.vod_accurate;
      }))

  -- broadcastNewLine
  unfoldable pub broadcast_new_line : String → ℤ → Option Line → Act (Unit {0})
  broadcast_new_line active upload (some line) = tell_line upload (ok (some line))
  broadcast_new_line active upload none = do
    last ← store (get_last_line cfg.key active)
    tell_line upload last

  -- broadcastNewMedia
  unfoldable pub broadcast_new_media : String → List (ℤ × String) → Act (Unit {0})
  broadcast_new_media stream files = send (new_media (record { stream_id = stream; files = files }))
