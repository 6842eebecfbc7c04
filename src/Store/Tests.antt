-- ===== src/Store/Tests.antt =====
-- internal/store: the theorems on two streams of a channel.
use live_transcript_server.Prelude.{
  ℕ, ◌+◌, ◌≤◌, String, ◌≡◌, refl, ◌⊎◌, Bool, true, false, none, some, List, [], ◌∷◌, ◌++◌, ℤ, pos,
  eq_ℤ, succ_ℤ, length, filter, update_where, sort_by, sort_asc, eqb, if◌then◌else◌, any, ◌==◌,
  arith,
}
use live_transcript_server.Model.{Line, Stream}
use live_transcript_server.Store.Sql.{
  Db, Conn, ok, err, Error, not_found, out_of_sync, failed, ◌>>◌,
}
use live_transcript_server.Store.Transcripts.{
  row_of, rows_of, transcript_of, insert_next_line, replace_transcript, get_transcript,
  set_media_available,
}
use live_transcript_server.Store.Streams.{find_stream, delete_stream_cascade, upsert_stream}
use live_transcript_server.Store.Outcome.{clean}
use live_transcript_server.Store.Gapless.{IsGapless, post_all}
use live_transcript_server.Store.Replace.{replaced}
use live_transcript_server.Store.Keys.{IsKeyed}
use live_transcript_server.Store.Calls.{
  Call, cascades, inserts_line, upserts_stream, queues, run_calls, empty_db,
}
use live_transcript_server.Store.Upsert.{merged}
use live_transcript_server.Store.Gapless.{post_all-IsGapless}
use live_transcript_server.Store.Accept.{added, insert_next_line-exact}
use live_transcript_server.Store.Newest.{newest_id}
use live_transcript_server.Store.Replace.{
  replace_transcript-effect, get_transcript-replace_transcript,
}
use live_transcript_server.Store.Media.{set_media_available-effect}
use live_transcript_server.Store.Calls.{run_calls-IsKeyed}
use live_transcript_server.Store.Incoming.{queued_urls}
use live_transcript_server.Store.Refines.{
  QueueCall, announces, ages, run_queue, run_map, queue_of, is_some, run_queue-Refines,
}
use live_transcript_server.Store.Cascade.{delete_stream_cascade-effect}
use live_transcript_server.Store.Upsert.{upsert_stream-effect}

abbrev line_at : ℤ → Line
line_at id = record {
  id = id;
  file_id = "f";
  timestamp = pos 10;
  segments = "[]";
  media_available = true;
  vod_accurate = false;
}

abbrev line0 : Line
line0 = line_at (pos 0)

abbrev line1 : Line
line1 = line_at (pos 1)

abbrev line2 : Line
line2 = line_at (pos 2)

abbrev stream_at : String → ℤ → Stream
stream_at id at = record {
  channel_id = "chan";
  stream_id = id;
  stream_title = "title";
  start_time = "100";
  is_live = true;
  media_type = "audio";
  activated_time = at;
}

abbrev again : Stream
again = record (stream_at "a" (pos 9)) { stream_title = "new title" }

-- Two streams, of which each has line 0.
abbrev tables : Db
tables = record empty_db {
  streams = stream_at "a" (pos 5) ∷ stream_at "b" (pos 6) ∷ [];
  transcripts = row_of "chan" "a" line0 ∷ row_of "chan" "b" line0 ∷ [];
}

-- The second statement fails.
abbrev conn : Conn
conn = record { db = tables; faults = false ∷ true ∷ [] }

abbrev calls : List Call
calls =
    upserts_stream (stream_at "a" (pos 5))
    ∷ inserts_line "chan" "a" line0
    ∷ queues "chan" "url" (pos 3)
    ∷ cascades "chan" "a"
    ∷ []

abbrev faults : List Bool
faults = false ∷ false ∷ false ∷ true ∷ []

post_all-IsGapless_example :
    (m : ℕ) × (1 ≤ m)
    × (m ≤ 1 + length (line2 ∷ line1 ∷ []))
    × IsGapless "chan" "a" m (post_all "chan" "a" (line2 ∷ line1 ∷ []) conn).db
unfolding transcript_of rows_of filter sort_by
post_all-IsGapless_example =
    post_all-IsGapless "chan" "a" (line2 ∷ line1 ∷ []) 1 conn (omega arith) refl

insert_next_line-exact_example : insert_next_line "chan" "a" line1 (clean tables) ≡ (
    if eq_ℤ line1.id (succ_ℤ (newest_id "chan" "a" tables))
    then (
      ok tt,
      clean (record tables {
        transcripts = tables.transcripts ++ added "chan" "a" line1 tables ∷ [];
      }),
    )
    else (err out_of_sync, clean tables))
insert_next_line-exact_example = insert_next_line-exact "chan" "a" line1 tables (omega arith)

replace_transcript-effect_example :
    (((replace_transcript "chan" "a" (line2 ∷ line0 ∷ []) conn).0 ≡ ok tt)
      × (transcript_of "chan" "a" (replace_transcript "chan" "a" (line2 ∷ line0 ∷ []) conn).1.db
          ≡ sort_asc (λ l. l.id) (line2 ∷ line0 ∷ []))
      × (transcript_of "chan" "b" (replace_transcript "chan" "a" (line2 ∷ line0 ∷ []) conn).1.db
          ≡ transcript_of "chan" "b" conn.db))
    ⊎ ((e : Error) × ((replace_transcript "chan" "a" (line2 ∷ line0 ∷ []) conn).0 ≡ err e)
        × ((replace_transcript "chan" "a" (line2 ∷ line0 ∷ []) conn).1.db ≡ conn.db))
replace_transcript-effect_example =
    replace_transcript-effect "chan" "a" (line2 ∷ line0 ∷ []) conn "chan" "b" refl

get_transcript-replace_transcript_example :
    (replace_transcript "chan" "a" (line2 ∷ line0 ∷ []) >> get_transcript "chan" "a") (clean tables)
    ≡ (
      ok (sort_asc (λ l. l.id) (line2 ∷ line0 ∷ [])),
      clean (replaced "chan" "a" (line2 ∷ line0 ∷ []) tables),
    )
get_transcript-replace_transcript_example =
    get_transcript-replace_transcript "chan" "a" (line2 ∷ line0 ∷ []) tables ((refl, tt), (tt, tt))

set_media_available-effect_example :
    (((set_media_available "chan" "a" (pos 0) "file" true conn).0 ≡ (
        if eqb (length (filter (λ l. eq_ℤ l.id (pos 0)) (transcript_of "chan" "a" conn.db))) 0
        then err not_found
        else ok tt))
      × (transcript_of "chan" "a" (set_media_available "chan" "a" (pos 0) "file" true conn).1.db
          ≡ update_where
              (λ l. eq_ℤ l.id (pos 0))
              (λ l. record l { media_available = true; file_id = "file" })
              (transcript_of "chan" "a" conn.db)))
    ⊎ (((set_media_available "chan" "a" (pos 0) "file" true conn).0 ≡ err failed)
        × ((set_media_available "chan" "a" (pos 0) "file" true conn).1.db ≡ conn.db))
set_media_available-effect_example = set_media_available-effect "chan" "a" (pos 0) "file" true conn

run_calls-IsKeyed_example : IsKeyed (run_calls calls (record { db = empty_db; faults = faults })).db
run_calls-IsKeyed_example = run_calls-IsKeyed calls faults

delete_stream_cascade-effect_example :
    (((delete_stream_cascade "chan" "a" conn).0 ≡ ok tt)
      × (find_stream "chan" "a" (delete_stream_cascade "chan" "a" conn).1.db ≡ none)
      × (transcript_of "chan" "a" (delete_stream_cascade "chan" "a" conn).1.db ≡ [])
      × (find_stream "chan" "b" (delete_stream_cascade "chan" "a" conn).1.db
          ≡ find_stream "chan" "b" conn.db)
      × (transcript_of "chan" "b" (delete_stream_cascade "chan" "a" conn).1.db
          ≡ transcript_of "chan" "b" conn.db))
    ⊎ ((e : Error) × ((delete_stream_cascade "chan" "a" conn).0 ≡ err e)
        × ((delete_stream_cascade "chan" "a" conn).1.db ≡ conn.db))
delete_stream_cascade-effect_example = delete_stream_cascade-effect "chan" "a" conn "chan" "b" refl

upsert_stream-effect_example :
    (((upsert_stream again conn).0 ≡ ok tt)
      × (find_stream again.channel_id again.stream_id (upsert_stream again conn).1.db
          ≡ some (merged again (find_stream again.channel_id again.stream_id conn.db)))
      × (find_stream "chan" "b" (upsert_stream again conn).1.db ≡ find_stream "chan" "b" conn.db))
    ⊎ ((e : Error) × ((upsert_stream again conn).0 ≡ err e)
        × ((upsert_stream again conn).1.db ≡ conn.db))
upsert_stream-effect_example = upsert_stream-effect again conn "chan" "b" refl

abbrev queue_calls : List QueueCall
queue_calls =
    announces "chan" "url" (pos 3)
    ∷ announces "chan" "other" (pos 8)
    ∷ announces "chan" "url" (pos 4)
    ∷ ages (pos 4)
    ∷ []

tables-IsKeyed : IsKeyed tables
tables-IsKeyed = record {
  streams = ((refl, tt), (tt, tt));
  transcripts = ((refl, tt), (tt, tt));
  worker_status = tt;
  incoming_streams = tt;
  worker_restart_requests = tt;
}

run_queue-Refines_example :
    (queue_of (run_queue queue_calls conn).db "chan" "url"
      ≡ run_map queue_calls conn (queue_of conn.db) "chan" "url")
    × (any (λ u. u == "url") (queued_urls "chan" (run_queue queue_calls conn).db)
        ≡ is_some (run_map queue_calls conn (queue_of conn.db) "chan" "url"))
run_queue-Refines_example = run_queue-Refines queue_calls conn tables-IsKeyed "chan" "url"
