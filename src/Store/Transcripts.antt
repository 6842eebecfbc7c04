-- ===== src/Store/Transcripts.antt =====
-- internal/store/transcripts.go: the queries on the table `transcripts`.
use live_transcript_server.Prelude.{
  ℕ, String, Bool, not, ◌&&◌, Option, none, some, List, [], ◌∷◌, ◌++◌, map, ℤ, pos, negsuc, eq_ℤ,
  le_ℤ, succ64, length, take, head?, filter, any, update_where, sort_asc, sort_desc, ◌==◌, eqb,
  if◌then◌else◌,
}
use live_transcript_server.Model.{Line, Stream}
use live_transcript_server.Store.Sql.{
  TranscriptRow, Db, Result, ok, err, Sql, pure, raise, not_found, out_of_sync, constraint, ◌>>=◌,
  ◌>>◌, statement, query, exec, nothing, transaction,
}

-- WHERE channel_id = ? AND stream_id = ?
abbrev pub is_of : String → String → TranscriptRow → Bool
is_of channel stream row = row.channel_id == channel && row.stream_id == stream

unfoldable pub rows_of : String → String → Db → List TranscriptRow
unfolding filter
rows_of channel stream db = filter (is_of channel stream) db.transcripts

-- PRIMARY KEY (channel_id, stream_id, line_id)
abbrev pub same_line : TranscriptRow → TranscriptRow → Bool
same_line r s = is_of r.channel_id r.stream_id s && eq_ℤ s.line_id r.line_id

-- The values that an INSERT of a line binds.
abbrev pub row_of : String → String → Line → TranscriptRow
row_of channel stream line = record {
  channel_id = channel;
  stream_id = stream;
  line_id = line.id;
  file_id = some line.file_id;
  timestamp = line.timestamp;
  segments = line.segments;
  media_available = line.media_available;
  vod_accurate = line.vod_accurate;
}

-- sql.NullString: NULL reads as the empty text.
abbrev pub null_string : Option String → String
null_string none = ""
null_string (some s) = s

-- The scan of a row into a model.Line.
abbrev pub line_of : TranscriptRow → Line
line_of row = record {
  id = row.line_id;
  file_id = null_string row.file_id;
  timestamp = row.timestamp;
  segments = row.segments;
  media_available = row.media_available;
  vod_accurate = row.vod_accurate;
}

-- INSERT INTO transcripts
unfoldable pub insert_row : TranscriptRow → Db → Result (Unit {0}) × Db
insert_row row db =
    if any (same_line row) db.transcripts
    then (err constraint, db)
    else (ok tt, record db { transcripts = db.transcripts ++ row ∷ [] })

-- DELETE FROM transcripts WHERE channel_id = ? AND stream_id = ?
unfoldable pub delete_rows : String → String → Db → Db
unfolding filter
delete_rows channel stream db = record db {
  transcripts = filter (λ row. not (is_of channel stream row)) db.transcripts;
}

unfoldable pub insert_lines : String → String → List Line → Sql (Unit {0})
insert_lines channel stream [] = pure tt
insert_lines channel stream (line ∷ lines) =
    statement (insert_row (row_of channel stream line)) >> insert_lines channel stream lines

-- ReplaceTranscript
unfoldable pub replace_transcript : String → String → List Line → Sql (Unit {0})
replace_transcript channel stream lines =
    transaction (do exec (delete_rows channel stream); nothing; insert_lines channel stream lines)

-- DeleteTranscript
unfoldable pub delete_transcript : String → String → Sql (Unit {0})
unfolding delete_rows
delete_transcript channel stream = exec (delete_rows channel stream)

-- SELECT … ORDER BY line_id DESC LIMIT 1
unfoldable pub last_row : String → String → Db → Option TranscriptRow
last_row channel stream db = head? (sort_desc (λ r. r.line_id) (rows_of channel stream db))

-- `last := -1`, unless a row is scanned.
abbrev pub last_id : Option TranscriptRow → ℤ
last_id none = negsuc 0
last_id (some row) = row.line_id

-- InsertNextLine
unfoldable pub insert_next_line : String → String → Line → Sql (Unit {0})
insert_next_line channel stream line = transaction (do
  last ← query (last_row channel stream)
  if eq_ℤ line.id (succ64 (last_id last))
      then statement (insert_row (row_of channel stream line))
      else raise out_of_sync)

unfoldable pub transcript_of : String → String → Db → List Line
transcript_of channel stream db =
    map line_of (sort_asc (λ r. r.line_id) (rows_of channel stream db))

-- GetTranscript
unfoldable pub get_transcript : String → String → Sql (List Line)
get_transcript channel stream = query (transcript_of channel stream)

-- GetLastLineID
unfoldable pub get_last_line_id : String → String → Sql ℤ
get_last_line_id channel stream = query (λ db. last_id (last_row channel stream db))

abbrev pub map_line : Option TranscriptRow → Option Line
map_line none = none
map_line (some row) = some (line_of row)

-- GetLastLine
unfoldable pub get_last_line : String → String → Sql (Option Line)
get_last_line channel stream = query (λ db. map_line (last_row channel stream db))

-- WHERE channel_id = ? AND stream_id = ? AND line_id = ?
abbrev pub is_line : String → String → ℤ → TranscriptRow → Bool
is_line channel stream id row = is_of channel stream row && eq_ℤ row.line_id id

unfoldable pub set_media : String → String → ℤ → String → Bool → Db → Result (Unit {0}) × Db
unfolding filter update_where
set_media channel stream id file available db =
    let rows = filter (is_line channel stream id) db.transcripts in
    let db' : Db = record db {
      transcripts =
          update_where (is_line channel stream id)
            (λ row. record row { media_available = available; file_id = some file }) db.transcripts;
    } in
    (if eqb (length rows) 0 then err not_found else ok tt, db')

-- SetMediaAvailable
unfoldable pub set_media_available : String → String → ℤ → String → Bool → Sql (Unit {0})
unfolding set_media
set_media_available channel stream id file available =
    statement (set_media channel stream id file available)

-- AND media_available = 1
unfoldable pub media_rows : String → String → Db → List TranscriptRow
unfolding filter
media_rows channel stream db = filter (λ row. row.media_available) (rows_of channel stream db)

-- LIMIT ?, where a negative limit is none.
abbrev pub limited {ℓ} : {A : Type ℓ} → ℤ → List A → List A
limited (pos n) xs = take n xs
limited (negsuc n) xs = xs

unfoldable pub last_media : String → String → ℤ → Db → List TranscriptRow
unfolding media_rows
last_media channel stream limit db =
    let rows = sort_desc (λ r. r.line_id) (media_rows channel stream db) in
    if eq_ℤ limit (negsuc 0) then rows else limited limit rows

-- GetLastAvailableMediaFiles; the map from line IDs to file IDs as an association list.
unfoldable pub get_last_available_media_files : String → String → ℤ → Sql (List (ℤ × String))
unfolding last_media
get_last_available_media_files channel stream limit =
    query (λ db. map (λ r. (r.line_id, null_string r.file_id)) (last_media channel stream limit db))

-- scanFileIDs
unfoldable pub scan_file_ids : List (Option String) → List String
scan_file_ids [] = []
scan_file_ids (none ∷ rows) = scan_file_ids rows
scan_file_ids (some file ∷ rows) =
    let rest = scan_file_ids rows in if file == "" then rest else file ∷ rest

-- GetFileIDsInRange
unfoldable pub get_file_ids_in_range : String → String → ℤ → ℤ → Sql (List String)
unfolding media_rows filter scan_file_ids
get_file_ids_in_range channel stream first last = query (λ db. scan_file_ids (
    map (λ r. r.file_id)
      (sort_asc (λ r. r.line_id)
        (filter (λ r. le_ℤ first r.line_id && le_ℤ r.line_id last)
          (media_rows channel stream db)))))

unfoldable pub all_media_file_ids : String → String → Db → List String
unfolding media_rows scan_file_ids
all_media_file_ids channel stream db =
    scan_file_ids (map (λ r. r.file_id) (sort_asc (λ r. r.line_id) (media_rows channel stream db)))

-- GetAllMediaFileIDs
unfoldable pub get_all_media_file_ids : String → String → Sql (List String)
get_all_media_file_ids channel stream = query (all_media_file_ids channel stream)

-- CASE WHEN media_available = 1 AND file_id IS NOT NULL AND file_id != '' THEN 1 ELSE 0 END
abbrev pub has_media : TranscriptRow → Bool
has_media row = row.media_available && not (null_string row.file_id == "")

unfoldable pub count_media : String → String → Db → ℕ × ℕ
unfolding filter
count_media channel stream db =
    let rows = rows_of channel stream db in (length rows, length (filter has_media rows))

-- CountTranscriptMedia
unfoldable pub count_transcript_media : String → String → Sql (ℕ × ℕ)
count_transcript_media channel stream = query (count_media channel stream)

-- (channel_id, stream_id) IN (SELECT channel_id, stream_id FROM streams)
abbrev pub has_stream : List Stream → TranscriptRow → Bool
has_stream streams row =
    any (λ s. s.channel_id == row.channel_id && s.stream_id == row.stream_id) streams

unfoldable pub without_orphans : Db → Db
unfolding filter
without_orphans db = record db { transcripts = filter (has_stream db.streams) db.transcripts }

-- CleanupOrphanedTranscripts
unfoldable pub cleanup_orphaned_transcripts : Sql (Unit {0})
cleanup_orphaned_transcripts = exec without_orphans
