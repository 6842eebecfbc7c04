-- ===== src/Store/Calls.antt =====
-- internal/store: every call of the package that writes, in any order and with any failures.
use live_transcript_server.Prelude.{String, Bool, List, [], ◌∷◌, ℤ, Distinct-filter, filter, not}
use live_transcript_server.Model.{Line, Stream}
use live_transcript_server.Store.Sql.{Db, Conn, IncomingRow}
use live_transcript_server.Store.Transcripts.{
  same_line, replace_transcript, delete_transcript, insert_next_line, set_media_available,
  cleanup_orphaned_transcripts, without_orphans,
}
use live_transcript_server.Store.Streams.{
  upsert_stream, delete_stream, delete_stream_cascade, StreamUpdate, update_stream, set_stream_live,
}
use live_transcript_server.Store.Incoming.{
  upsert_incoming_stream, delete_incoming_stream, cleanup_expired_incoming_streams,
  clear_incoming_streams,
}
use live_transcript_server.Store.Worker.{
  upsert_worker_status, reset_worker_status, upsert_restart_request, delete_restart_request,
  drop_restart,
}
use live_transcript_server.Store.Outcome.{Keeps-statement}
use live_transcript_server.Store.Keys.{
  IsKeyed, same_url, same_restart, set_transcripts, set_incoming_streams, set_worker_status,
  set_worker_restart_requests, replace_transcript-IsKeyed, insert_next_line-IsKeyed,
  set_media_available-IsKeyed, delete_stream_cascade-IsKeyed, update_stream-IsKeyed,
  set_live-IsKeyed, queue_url-IsKeyed, put_worker-IsKeyed, put_restart-IsKeyed, delete_rows-IsKeyed,
  put_stream-IsKeyed, drop_stream-IsKeyed,
}

pub data Call : Type 0 where
  replaces_transcript : String → String → List Line → Call
  deletes_transcript : String → String → Call
  inserts_line : String → String → Line → Call
  sets_media : String → String → ℤ → String → Bool → Call
  cleans_orphans : Call
  upserts_stream : Stream → Call
  deletes_stream : String → String → Call
  cascades : String → String → Call
  updates_stream : String → String → StreamUpdate → Call
  sets_live : String → String → Bool → Call
  queues : String → String → ℤ → Call
  dequeues : String → String → Call
  expires : ℤ → Call
  clears : String → Call
  beats : String → String → String → ℤ → Call
  resets_workers : Call
  requests_restart : String → ℤ → Call
  acknowledges_restart : String → Call

unfoldable pub run_call : Call → Conn → Conn
run_call (replaces_transcript ch st lines) c = (replace_transcript ch st lines c).1
run_call (deletes_transcript ch st) c = (delete_transcript ch st c).1
run_call (inserts_line ch st line) c = (insert_next_line ch st line c).1
run_call (sets_media ch st id file b) c = (set_media_available ch st id file b c).1
run_call cleans_orphans c = (cleanup_orphaned_transcripts c).1
run_call (upserts_stream st) c = (upsert_stream st c).1
run_call (deletes_stream ch st) c = (delete_stream ch st c).1
run_call (cascades ch st) c = (delete_stream_cascade ch st c).1
run_call (updates_stream ch st u) c = (update_stream ch st u c).1
run_call (sets_live ch st b) c = (set_stream_live ch st b c).1
run_call (queues ch url at) c = (upsert_incoming_stream ch url at c).1
run_call (dequeues ch url) c = (delete_incoming_stream ch url c).1
run_call (expires cutoff) c = (cleanup_expired_incoming_streams cutoff c).1
run_call (clears ch) c = (clear_incoming_streams ch c).1
run_call (beats key v b seen) c = (upsert_worker_status key v b seen c).1
run_call resets_workers c = (reset_worker_status c).1
run_call (requests_restart key at) c = (upsert_restart_request key at c).1
run_call (acknowledges_restart key) c = (delete_restart_request key c).1

pub run_calls : List Call → Conn → Conn
run_calls [] c = c
run_calls (call ∷ calls) c = run_calls calls (run_call call c)

-- The tables of `createSchema` in a new database.
abbrev pub empty_db : Db
empty_db = record {
  streams = [];
  transcripts = [];
  worker_status = [];
  incoming_streams = [];
  worker_restart_requests = [];
}

dequeue-IsKeyed :
    (test : IncomingRow → Bool) (db : Db)
    → IsKeyed db
    → IsKeyed (record db { incoming_streams = filter (λ r. not (test r)) db.incoming_streams })
dequeue-IsKeyed test db h =
    set_incoming_streams h _ (Distinct-filter same_url _ db.incoming_streams h.incoming_streams)

pub run_call-IsKeyed : (call : Call) (c : Conn) → IsKeyed c.db → IsKeyed (run_call call c).db
unfolding run_call delete_transcript cleanup_orphaned_transcripts without_orphans upsert_stream
    delete_stream set_stream_live upsert_incoming_stream delete_incoming_stream
    cleanup_expired_incoming_streams clear_incoming_streams upsert_worker_status reset_worker_status
    upsert_restart_request delete_restart_request drop_restart
run_call-IsKeyed (replaces_transcript ch st lines) c = (replace_transcript-IsKeyed ch st lines).at c
run_call-IsKeyed (deletes_transcript ch st) c = (Keeps-statement _ (delete_rows-IsKeyed ch st)).at c
run_call-IsKeyed (inserts_line ch st line) c = (insert_next_line-IsKeyed ch st line).at c
run_call-IsKeyed (sets_media ch st id file b) c = (set_media_available-IsKeyed ch st id file b).at c
run_call-IsKeyed cleans_orphans c =
    (Keeps-statement _ λ (db : Db) (h : IsKeyed db).
        set_transcripts h _ (Distinct-filter same_line _ db.transcripts h.transcripts)).at
      c
run_call-IsKeyed (upserts_stream st) c = (Keeps-statement _ (put_stream-IsKeyed st)).at c
run_call-IsKeyed (deletes_stream ch st) c = (Keeps-statement _ (drop_stream-IsKeyed ch st)).at c
run_call-IsKeyed (cascades ch st) c = (delete_stream_cascade-IsKeyed ch st).at c
run_call-IsKeyed (updates_stream ch st u) c = (update_stream-IsKeyed ch st u).at c
run_call-IsKeyed (sets_live ch st b) c = (Keeps-statement _ (set_live-IsKeyed ch st b)).at c
run_call-IsKeyed (queues ch url at) c = (Keeps-statement _ (queue_url-IsKeyed ch url at)).at c
run_call-IsKeyed (dequeues ch url) c = (Keeps-statement _ (dequeue-IsKeyed _)).at c
run_call-IsKeyed (expires cutoff) c = (Keeps-statement _ (dequeue-IsKeyed _)).at c
run_call-IsKeyed (clears ch) c = (Keeps-statement _ (dequeue-IsKeyed _)).at c
run_call-IsKeyed (beats key v b seen) c = (Keeps-statement _ (put_worker-IsKeyed key v b seen)).at c
run_call-IsKeyed resets_workers c =
    (Keeps-statement _ (λ (db : Db) (h : IsKeyed db). set_worker_status h [] tt)).at c
run_call-IsKeyed (requests_restart key at) c = (Keeps-statement _ (put_restart-IsKeyed key at)).at c
run_call-IsKeyed (acknowledges_restart key) c =
    (Keeps-statement _ λ (db : Db) (h : IsKeyed db).
        set_worker_restart_requests h _
          (Distinct-filter same_restart _ db.worker_restart_requests h.worker_restart_requests)).at
      c

run_calls-keeps : (calls : List Call) (c : Conn) → IsKeyed c.db → IsKeyed (run_calls calls c).db
unfolding run_calls
run_calls-keeps [] c h = h
run_calls-keeps (call ∷ calls) c h =
    run_calls-keeps calls (run_call call c) (run_call-IsKeyed call c h)

-- From the empty database, whatever calls are made and whatever statements fail, no two rows of a
-- table have the same primary key.
pub run_calls-IsKeyed :
    (calls : List Call) (faults : List Bool)
    → IsKeyed (run_calls calls (record { db = empty_db; faults = faults })).db
run_calls-IsKeyed calls faults = run_calls-keeps calls _ (record {
  streams = tt;
  transcripts = tt;
  worker_status = tt;
  incoming_streams = tt;
  worker_restart_requests = tt;
})
