-- ===== src/Store/Cascade.antt =====
-- Streams and their transcripts, internal/store/streams.go: what deleting a stream removes, and what
-- UpsertStream keeps.
use live_transcript_server.Prelude.{
  String, ◌≡◌, refl, ap, ◌∙◌, ◌⊎◌, inl, inr, true, false, not, ◌&&◌, none, [], map, sort_by,
  filter-not, filter-filter_disjoint, any-filter, All-zip, head?, All, All-filter, All-filter_test,
  sort_asc, ◌==◌, eq_iff, arith,
}
use live_transcript_server.Model.{Stream}
use live_transcript_server.Store.Sql.{Db, Conn, ok, err, Error, TranscriptRow, statement}
use live_transcript_server.Store.Transcripts.{
  is_of, rows_of, has_stream, delete_rows, transcript_of, line_of, without_orphans,
  cleanup_orphaned_transcripts,
}
use live_transcript_server.Store.Streams.{
  is_stream, find_stream, drop_stream, delete_stream_cascade,
}
use live_transcript_server.Store.Outcome.{
  Ensures, Ensures-exec, Ensures-statement, Ensures-transaction, Atomic, Atomic-transaction,
  Result-cases, statement-ok, clean, transaction-clean,
}

abbrev pub cascaded : String → String → Db → Db
cascaded channel stream db = delete_rows channel stream (drop_stream channel stream db)

pub delete_stream_cascade-Ensures :
    (channel stream : String) (db : Db)
    → Ensures
        (delete_stream_cascade channel stream)
        db
        (λ _ after. after ≡ cascaded channel stream db)
unfolding delete_stream_cascade
delete_stream_cascade-Ensures channel stream db =
    Ensures-transaction _ (Ensures-exec _ _ (Ensures-statement _ (λ _ h. refl)))

pub delete_stream_cascade-Atomic :
    (channel stream : String) → Atomic (delete_stream_cascade channel stream)
unfolding delete_stream_cascade
delete_stream_cascade-Atomic channel stream = Atomic-transaction _

other_text :
    (a b c d e f : String)
    → (a == c && b == d) ≡ false
    → (e == c && f == d) ≡ true
    → not (e == a && f == b) ≡ true
other_text a b c d e f h k =
    ground (arith, eq_iff a c, eq_iff b d, eq_iff e c, eq_iff f d, eq_iff e a, eq_iff f b)

module _ (channel stream : String) (db : Db) where
  pub cascaded_gone :
      (find_stream channel stream (cascaded channel stream db) ≡ none)
      × (transcript_of channel stream (cascaded channel stream db) ≡ [])
  unfolding find_stream transcript_of rows_of drop_stream delete_rows sort_by
  cascaded_gone = (
    rw (filter-not (is_stream channel stream) db.streams) refl,
    rw (filter-not (is_of channel stream) db.transcripts) refl,
  )

  module _ (channel' stream' : String)
      (other : (channel == channel' && stream == stream') ≡ false) where
    pub cascaded_others :
        (find_stream channel' stream' (cascaded channel stream db)
          ≡ find_stream channel' stream' db)
        × (transcript_of channel' stream' (cascaded channel stream db)
            ≡ transcript_of channel' stream' db)
    unfolding find_stream transcript_of rows_of drop_stream delete_rows
    cascaded_others = (
      ap head? (
          filter-filter_disjoint (λ s. not (is_stream channel stream s))
            (is_stream channel' stream') db.streams
            (λ s. other_text channel stream channel' stream' s.channel_id s.stream_id other)),
      ap (λ rs. map line_of (sort_asc (λ r. r.line_id) rs))
          (filter-filter_disjoint (λ r. not (is_of channel stream r)) (is_of channel' stream')
            db.transcripts
            (λ r. other_text channel stream channel' stream' r.channel_id r.stream_id other)),
    )

-- Whatever statements fail: DeleteStreamCascade either succeeds, and then the stream and its whole
-- transcript are gone while any other stream and its transcript are as they were, or it answers
-- with an error and no table has changed.
pub delete_stream_cascade-effect :
    (channel stream : String) (c : Conn) (channel' stream' : String)
    → (channel == channel' && stream == stream') ≡ false
    → (((delete_stream_cascade channel stream c).0 ≡ ok tt)
        × (find_stream channel stream (delete_stream_cascade channel stream c).1.db ≡ none)
        × (transcript_of channel stream (delete_stream_cascade channel stream c).1.db ≡ [])
        × (find_stream channel' stream' (delete_stream_cascade channel stream c).1.db
            ≡ find_stream channel' stream' c.db)
        × (transcript_of channel' stream' (delete_stream_cascade channel stream c).1.db
            ≡ transcript_of channel' stream' c.db))
      ⊎ ((e : Error) × ((delete_stream_cascade channel stream c).0 ≡ err e)
          × ((delete_stream_cascade channel stream c).1.db ≡ c.db))
delete_stream_cascade-effect channel stream c channel' stream' other =
    elim (Result-cases (delete_stream_cascade channel stream c).0) [
      | inl (u, done) ↦
          let after = (delete_stream_cascade-Ensures channel stream c.db).at c refl u done in
          let gone = cascaded_gone channel stream c.db in
          let others = cascaded_others channel stream c.db channel' stream' other in
          inl (done, rw after gone.0, rw after gone.1, rw after others.0, rw after others.1)
      | inr (e, refused) ↦
          inr (e, refused, (delete_stream_cascade-Atomic channel stream).at c e refused)
    ]

-- Every line of a transcript has its stream.
abbrev pub HasNoOrphans : Db → Type 0
HasNoOrphans db = All (λ row. has_stream db.streams row ≡ true) db.transcripts

cascaded-HasNoOrphans :
    (channel stream : String) (db : Db)
    → HasNoOrphans db
    → HasNoOrphans (cascaded channel stream db)
unfolding drop_stream delete_rows
cascaded-HasNoOrphans channel stream db h =
    All-zip _ _
      (λ row (has : has_stream db.streams row ≡ true)
          (kept : not (is_of channel stream row) ≡ true).
        any-filter (λ s. s.channel_id == row.channel_id && s.stream_id == row.stream_id)
          (λ s. not (is_stream channel stream s)) db.streams (λ s. still channel stream row s kept)
        ∙ has)
      (All-filter _ _ db.transcripts h) (All-filter_test _ db.transcripts)
  where
    still :
        (channel stream : String) (row : TranscriptRow) (s : Stream)
        → not (is_of channel stream row) ≡ true
        → (s.channel_id == row.channel_id && s.stream_id == row.stream_id) ≡ true
        → not (is_stream channel stream s) ≡ true
    still channel stream row s kept same = ground (
      arith,
      eq_iff row.channel_id channel,
      eq_iff row.stream_id stream,
      eq_iff s.channel_id row.channel_id,
      eq_iff s.stream_id row.stream_id,
      eq_iff s.channel_id channel,
      eq_iff s.stream_id stream,
    )

-- If every line has its stream, then so it is after DeleteStreamCascade, whatever statements fail.
pub delete_stream_cascade-HasNoOrphans :
    (channel stream : String) (c : Conn)
    → HasNoOrphans c.db
    → HasNoOrphans (delete_stream_cascade channel stream c).1.db
delete_stream_cascade-HasNoOrphans channel stream c h =
    elim (Result-cases (delete_stream_cascade channel stream c).0) [
      | inl (u, done) ↦
          rw ((delete_stream_cascade-Ensures channel stream c.db).at c refl u done)
            (cascaded-HasNoOrphans channel stream c.db h)
      | inr (e, refused) ↦ rw ((delete_stream_cascade-Atomic channel stream).at c e refused) h
    ]

-- After a CleanupOrphanedTranscripts that succeeds, every line has its stream.
pub cleanup_orphaned_transcripts-HasNoOrphans :
    (c : Conn)
    → (cleanup_orphaned_transcripts c).0 ≡ ok tt
    → HasNoOrphans (cleanup_orphaned_transcripts c).1.db
unfolding cleanup_orphaned_transcripts
cleanup_orphaned_transcripts-HasNoOrphans c done =
    rw (statement-ok (λ db. (ok tt, without_orphans db)) c tt done).1
      (unfold without_orphans in All-filter_test (has_stream c.db.streams) c.db.transcripts)

-- Whatever statements fail, the other streams and their transcripts are as they were.
pub delete_stream_cascade-others :
    (channel stream : String) (c : Conn) (channel' stream' : String)
    → (channel == channel' && stream == stream') ≡ false
    → (find_stream channel' stream' (delete_stream_cascade channel stream c).1.db
        ≡ find_stream channel' stream' c.db)
      × (transcript_of channel' stream' (delete_stream_cascade channel stream c).1.db
          ≡ transcript_of channel' stream' c.db)
delete_stream_cascade-others channel stream c channel' stream' other =
    elim (delete_stream_cascade-effect channel stream c channel' stream' other) [
      | inl (done, gone, empty, same, lines) ↦ (same, lines)
      | inr (e, refused, same) ↦ (rw same refl, rw same refl)
    ]

-- With no failing statement it does its work.
pub delete_stream_cascade-clean :
    (channel stream : String) (db : Db)
    → delete_stream_cascade channel stream (clean db) ≡ (ok tt, clean (cascaded channel stream db))
unfolding delete_stream_cascade statement
delete_stream_cascade-clean channel stream db =
    transaction-clean _ db (cascaded channel stream db) (ok tt) refl
