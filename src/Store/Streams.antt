-- ===== src/Store/Streams.antt =====
-- internal/store/streams.go: the queries on the table `streams`.
use live_transcript_server.Prelude.{
  String, Bool, true, false, not, ◌&&◌, Option, none, some, List, [], ◌∷◌, ◌++◌, length, head?,
  filter, any, update_where, sort_desc, ◌==◌, eqb, if◌then◌else◌,
}
use live_transcript_server.Model.{Stream}
use live_transcript_server.Store.Sql.{
  Db, Result, ok, err, Sql, raise, not_found, no_update, ◌>>◌, statement, query, exec, transaction,
}
use live_transcript_server.Store.Transcripts.{delete_rows}

-- WHERE channel_id = ? AND stream_id = ?
abbrev pub is_stream : String → String → Stream → Bool
is_stream channel stream s = s.channel_id == channel && s.stream_id == stream

-- PRIMARY KEY (channel_id, stream_id)
abbrev pub same_stream : Stream → Stream → Bool
same_stream s t = is_stream s.channel_id s.stream_id t

unfoldable pub streams_of : String → Db → List Stream
unfolding filter
streams_of channel db = filter (λ s. s.channel_id == channel) db.streams

-- SELECT … WHERE channel_id = ? ORDER BY activated_time DESC
unfoldable pub newest_first : String → Db → List Stream
unfolding streams_of
newest_first channel db = sort_desc (λ s. s.activated_time) (streams_of channel db)

-- GetRecentStream
unfoldable pub get_recent_stream : String → Sql (Option Stream)
get_recent_stream channel = query (λ db. head? (newest_first channel db))

unfoldable pub find_stream : String → String → Db → Option Stream
unfolding filter
find_stream channel stream db = head? (filter (is_stream channel stream) db.streams)

-- GetStreamByID
unfoldable pub get_stream_by_id : String → String → Sql (Option Stream)
get_stream_by_id channel stream = query (find_stream channel stream)

-- GetAllStreams
unfoldable pub get_all_streams : String → Sql (List Stream)
get_all_streams channel = query (newest_first channel)

-- AND is_live = 0 AND stream_id != ?
abbrev pub is_past : String → Stream → Bool
is_past exclude s = not s.is_live && not (s.stream_id == exclude)

unfoldable pub past_streams : String → String → Db → List Stream
unfolding filter streams_of
past_streams channel exclude db =
    sort_desc (λ s. s.activated_time) (filter (is_past exclude) (streams_of channel db))

-- GetPastStreams
unfoldable pub get_past_streams : String → String → Sql (List Stream)
get_past_streams channel exclude = query (past_streams channel exclude)

-- DELETE FROM streams WHERE channel_id = ? AND stream_id = ?
unfoldable pub drop_stream : String → String → Db → Db
unfolding filter
drop_stream channel stream db = record db {
  streams = filter (λ s. not (is_stream channel stream s)) db.streams;
}

-- DeleteStream
unfoldable pub delete_stream : String → String → Sql (Unit {0})
delete_stream channel stream = exec (drop_stream channel stream)

-- DeleteStreamCascade
unfoldable pub delete_stream_cascade : String → String → Sql (Unit {0})
delete_stream_cascade channel stream =
    transaction (do exec (drop_stream channel stream); exec (delete_rows channel stream))

-- ON CONFLICT(channel_id, stream_id) DO UPDATE SET: `activated_time` is left as it was.
abbrev pub overwrite : Stream → Stream → Stream
overwrite st old = record old {
  stream_title = st.stream_title;
  start_time = st.start_time;
  is_live = st.is_live;
  media_type = st.media_type;
}

unfoldable pub put_stream : Stream → Db → Db
unfolding update_where
put_stream st db = record db {
  streams =
      if any (same_stream st) db.streams
      then update_where (same_stream st) (overwrite st) db.streams
      else db.streams ++ st ∷ [];
}

-- UpsertStream
unfoldable pub upsert_stream : Stream → Sql (Unit {0})
upsert_stream st = exec (put_stream st)

-- type StreamUpdate: a nil field is left as it was.
pub record StreamUpdate : Type 0 where
  pub stream_title : Option String
  pub start_time : Option String
  pub media_type : Option String

abbrev pub is_nil : Option String → Bool
is_nil none = true
is_nil (some s) = false

-- StreamUpdate.IsEmpty
unfoldable pub is_empty : StreamUpdate → Bool
is_empty u = is_nil u.stream_title && is_nil u.start_time && is_nil u.media_type

abbrev pub or_else : Option String → String → String
or_else none old = old
or_else (some new) old = new

-- The SET clauses that UpdateStream puts together.
abbrev pub apply_update : StreamUpdate → Stream → Stream
apply_update u s = record s {
  stream_title = or_else u.stream_title s.stream_title;
  start_time = or_else u.start_time s.start_time;
  media_type = or_else u.media_type s.media_type;
}

unfoldable pub edit_stream : String → String → StreamUpdate → Db → Result (Unit {0}) × Db
unfolding filter update_where
edit_stream channel stream u db = (
  if eqb (length (filter (is_stream channel stream) db.streams)) 0 then err not_found else ok tt,
  record db { streams = update_where (is_stream channel stream) (apply_update u) db.streams },
)

-- UpdateStream
unfoldable pub update_stream : String → String → StreamUpdate → Sql (Unit {0})
unfolding is_empty edit_stream
update_stream channel stream u =
    if is_empty u then raise no_update else statement (edit_stream channel stream u)

unfoldable pub set_live : String → String → Bool → Db → Db
unfolding update_where
set_live channel stream live db = record db {
  streams = update_where (is_stream channel stream) (λ s. record s { is_live = live }) db.streams;
}

-- SetStreamLive
unfoldable pub set_stream_live : String → String → Bool → Sql (Unit {0})
set_stream_live channel stream live = exec (set_live channel stream live)

-- StreamExists
unfoldable pub stream_exists : String → String → Sql Bool
stream_exists channel stream = query (λ db. any (is_stream channel stream) db.streams)
