-- ===== src/Store/Accept.antt =====
-- InsertNextLine of internal/store/transcripts.go, when no statement fails: which lines it accepts.
use live_transcript_server.Prelude.{
  String, ◌≡◌, refl, ap, Bool-cases, inl, inr, eq_ℤ, succ64, succ64-eq, succ_ℤ, ◌<ℤ◌, max64,
  any-and, All, All-map, eq_ℤ_of_lt, some, [], ◌∷◌, ◌++◌, if◌then◌else◌,
}
use live_transcript_server.Model.{Line}
use live_transcript_server.Store.Sql.{Db, ok, err, out_of_sync, TranscriptRow, statement}
use live_transcript_server.Store.Transcripts.{
  is_of, rows_of, row_of, insert_row, last_row, last_id, insert_next_line,
}
use live_transcript_server.Store.Outcome.{clean, transaction-clean}
use live_transcript_server.Store.Newest.{newest_id, last_id-newest_id}
use live_transcript_server.Store.Append.{with_row, next-past-All}

module _ (channel stream : String) (line : Line) (db : Db) where
  abbrev row : TranscriptRow
  row = row_of channel stream line

  -- A line past all lines of its transcript meets no other line's key.
  insert_row-past :
      All (λ r. r.line_id <ℤ line.id) (rows_of channel stream db)
      → insert_row row db ≡ (ok tt, with_row row db)
  unfolding insert_row rows_of
  insert_row-past past =
      rw
        (any-and (is_of channel stream) (λ r. eq_ℤ r.line_id line.id) db.transcripts
          (All-map (λ r (h : r.line_id <ℤ line.id). eq_ℤ_of_lt r.line_id line.id h) _ past))
        refl

  insert_next_line-last_id :
      last_id (last_row channel stream db) <ℤ max64
      → insert_next_line channel stream line (clean db) ≡ (
          if eq_ℤ line.id (succ64 (last_id (last_row channel stream db)))
          then (ok tt, clean (with_row row db))
          else (err out_of_sync, clean db))
  unfolding insert_next_line statement
  insert_next_line-last_id room =
      elim (Bool-cases (eq_ℤ line.id (succ64 (last_id (last_row channel stream db))))) [
        | inl next ↦ rw next (
            transaction-clean _ db (with_row row db) (ok tt) (
              rw next (
                ap (λ r. (r.0, clean r.1))
                  (insert_row-past (next-past-All channel stream line.id db room next)))))
        | inr other ↦ rw other (transaction-clean _ db db (err out_of_sync) (rw other refl))
      ]

  -- The row that is added.
  abbrev pub added : TranscriptRow
  added = record {
    channel_id = channel;
    stream_id = stream;
    line_id = line.id;
    file_id = some line.file_id;
    timestamp = line.timestamp;
    segments = line.segments;
    media_available = line.media_available;
    vod_accurate = line.vod_accurate;
  }

  -- With no failing statement, and the greatest ID of the transcript (-1 if it is empty) below the
  -- greatest int, 2^63 - 1: a line is accepted exactly if its ID is one past that ID, and then its
  -- row, with all its fields, is added at the end of the table and nothing else has changed; any
  -- other line is answered by ErrOutOfSync, with no change.
  pub insert_next_line-exact :
      newest_id channel stream db <ℤ max64
      → insert_next_line channel stream line (clean db) ≡ (
          if eq_ℤ line.id (succ_ℤ (newest_id channel stream db))
          then (ok tt, clean (record db { transcripts = db.transcripts ++ added ∷ [] }))
          else (err out_of_sync, clean db))
  insert_next_line-exact room =
      let same = last_id-newest_id channel stream db in
      rw (← succ64-eq (newest_id channel stream db) room, ← same)
        (insert_next_line-last_id (rw same room))
