-- ===== src/Store/Incoming.antt =====
-- internal/store/incoming.go: the queue of announced stream URLs.
use live_transcript_server.Prelude.{
  ℕ, String, Bool, not, ◌&&◌, List, [], ◌∷◌, ◌++◌, map, ℤ, pos, lt_ℤ, length, filter, any,
  update_where, sort_asc, ◌==◌, if◌then◌else◌,
}
use live_transcript_server.Store.Sql.{IncomingRow, Db, Result, ok, Sql, statement, query, exec}

-- PRIMARY KEY (channel_key, url)
abbrev pub is_queued : String → String → IncomingRow → Bool
is_queued channel url row = row.channel_key == channel && row.url == url

abbrev pub is_for : String → IncomingRow → Bool
is_for channel row = row.channel_key == channel

unfoldable pub queue_url : String → String → ℤ → Db → Db
unfolding update_where
queue_url channel url at db = record db {
  incoming_streams =
      if any (is_queued channel url) db.incoming_streams
      then update_where (is_queued channel url) (λ r. record r { received_at = at })
          db.incoming_streams
      else db.incoming_streams
        ++ record { channel_key = channel; url = url; received_at = at } ∷ [];
}

-- UpsertIncomingStream
unfoldable pub upsert_incoming_stream : String → String → ℤ → Sql (Unit {0})
upsert_incoming_stream channel url at = exec (queue_url channel url at)

unfoldable pub queued_for : String → Db → List IncomingRow
unfolding filter
queued_for channel db = filter (is_for channel) db.incoming_streams

unfoldable pub queued_urls : String → Db → List String
unfolding queued_for
queued_urls channel db = map (λ r. r.url) (sort_asc (λ r. r.received_at) (queued_for channel db))

-- GetIncomingStreams
unfoldable pub get_incoming_streams : String → Sql (List String)
get_incoming_streams channel = query (queued_urls channel)

-- MAX(received_at) from the first row on.
abbrev pub max_received : ℤ → List IncomingRow → ℤ
max_received m [] = m
max_received m (r ∷ rs) = max_received (if lt_ℤ m r.received_at then r.received_at else m) rs

-- COALESCE(MAX(received_at), 0)
abbrev pub latest_of : List IncomingRow → ℤ
latest_of [] = pos 0
latest_of (r ∷ rs) = max_received r.received_at rs

unfoldable pub latest_incoming : String → Db → ℤ
unfolding queued_for
latest_incoming channel db = latest_of (queued_for channel db)

-- GetLatestIncomingTime
unfoldable pub get_latest_incoming_time : String → Sql ℤ
get_latest_incoming_time channel = query (latest_incoming channel)

-- DELETE … WHERE test, with the number of rows deleted.
abbrev pub delete_rows_where : (IncomingRow → Bool) → Db → Result ℕ × Db
delete_rows_where test db = (
  ok (length (filter test db.incoming_streams)),
  record db { incoming_streams = filter (λ r. not (test r)) db.incoming_streams },
)

abbrev pub delete_incoming : (IncomingRow → Bool) → Sql ℕ
delete_incoming test = statement (delete_rows_where test)

-- DeleteIncomingStream
unfoldable pub delete_incoming_stream : String → String → Sql ℕ
unfolding filter
delete_incoming_stream channel url = delete_incoming (is_queued channel url)

-- CleanupExpiredIncomingStreams
unfoldable pub cleanup_expired_incoming_streams : ℤ → Sql ℕ
unfolding filter
cleanup_expired_incoming_streams cutoff = delete_incoming (λ r. lt_ℤ r.received_at cutoff)

-- ClearIncomingStreams
unfoldable pub clear_incoming_streams : String → Sql ℕ
unfolding filter
clear_incoming_streams channel = delete_incoming (is_for channel)
