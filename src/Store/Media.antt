-- ===== src/Store/Media.antt =====
-- The media columns of `transcripts` in internal/store/transcripts.go: CountTranscriptMedia against
-- GetAllMediaFileIDs, and SetMediaAvailable.
use live_transcript_server.Prelude.{
  ◌≤◌, ◌⊎◌, inl, inr, String, ◌≡◌, refl, ap, sym, ◌∙◌, Bool, not, Option, none, some, List, [], ◌∷◌,
  map, ℤ, eq_ℤ, length, filter, filter-filter, length-filter-le, length-filter-sort_by, sort_asc,
  update_where, update_where-none, filter-update_where, update_where-and, map-update_where,
  sort_by-update_where, length-filter-map, ◌==◌, eq_refl, eqb, eqb→eq, if◌then◌else◌, arith,
}
use live_transcript_server.Model.{Line}
use live_transcript_server.Store.Sql.{Db, Conn, ok, err, Error, failed, not_found, TranscriptRow}
use live_transcript_server.Store.Transcripts.{
  is_of, is_line, rows_of, null_string, has_media, media_rows, scan_file_ids, all_media_file_ids,
  count_media, set_media, set_media_available, transcript_of, line_of,
}
use live_transcript_server.Store.Outcome.{statement-cases, Atomic, Atomic-statement}

abbrev has_file : TranscriptRow → Bool
has_file row = not (null_string row.file_id == "")

-- scanFileIDs keeps the rows that name a file.
length-scan_file_ids :
    (rows : List TranscriptRow)
    → length (scan_file_ids (map (λ r. r.file_id) rows)) ≡ length (filter has_file rows)
unfolding scan_file_ids filter
length-scan_file_ids [] = refl
length-scan_file_ids (r ∷ rows) = go r.file_id (length-scan_file_ids rows)
  where
    files : List (Option String)
    files = map (λ r. r.file_id) rows

    go :
        (file : Option String)
        → length (scan_file_ids files) ≡ length (filter has_file rows)
        → length (scan_file_ids (file ∷ files))
          ≡ length (
              if not (null_string file == "")
              then r ∷ filter has_file rows
              else filter has_file rows)
    go none ih = ground (arith, eq_refl "")
    go (some file) ih = ground arith

-- CountTranscriptMedia reports all lines of the transcript, and as many with media as
-- GetAllMediaFileIDs returns files; so the gap between the two numbers is never negative.
pub count_media-exact :
    (channel stream : String) (db : Db)
    → ((count_media channel stream db).0 ≡ length (rows_of channel stream db))
      × ((count_media channel stream db).1 ≡ length (all_media_file_ids channel stream db))
      × ((count_media channel stream db).1 ≤ (count_media channel stream db).0)
unfolding count_media all_media_file_ids media_rows
count_media-exact channel stream db =
    (refl, sym files, length-filter-le has_media (rows_of channel stream db))
  where
    rows : List TranscriptRow
    rows = rows_of channel stream db

    files : length (all_media_file_ids channel stream db) ≡ length (filter has_media rows)
    files =
        length-scan_file_ids (sort_asc (λ r. r.line_id) (filter (λ row. row.media_available) rows))
        ∙ length-filter-sort_by _ has_file (filter (λ row. row.media_available) rows)
        ∙ ap length (filter-filter (λ row. row.media_available) has_file rows)

set_media_available-Atomic :
    (channel stream : String) (id : ℤ) (file : String) (available : Bool)
    → Atomic (set_media_available channel stream id file available)
unfolding set_media_available
set_media_available-Atomic channel stream id file available =
    Atomic-statement (set_media channel stream id file available) unchanged
  where
    unchanged :
        (db : Db) (e : Error)
        → (set_media channel stream id file available db).0 ≡ err e
        → (set_media channel stream id file available db).1 ≡ db
    unchanged db e h =
        ap (λ t. record db { transcripts = t })
          (update_where-none (is_line channel stream id) _ db.transcripts
            (eqb→eq (length (filter (is_line channel stream id) db.transcripts)) 0 (ground arith)))

module _ (channel stream : String) (id : ℤ) (file : String) (available : Bool) (db : Db) where
  abbrev here : Line → Bool
  here l = eq_ℤ l.id id

  abbrev with_media : Line → Line
  with_media l = record l { media_available = available; file_id = file }

  abbrev here_row : TranscriptRow → Bool
  here_row r = eq_ℤ r.line_id id

  abbrev row_with_media : TranscriptRow → TranscriptRow
  row_with_media r = record r { media_available = available; file_id = some file }

  transcript_of-set_media :
      transcript_of channel stream (set_media channel stream id file available db).1
      ≡ update_where here with_media (transcript_of channel stream db)
  unfolding transcript_of set_media rows_of
  transcript_of-set_media =
      ap (λ rs. map line_of (sort_asc (λ r. r.line_id) rs))
        (filter-update_where (is_of channel stream) (is_line channel stream id) row_with_media
            db.transcripts (λ x. refl)
          ∙ update_where-and (is_of channel stream) here_row row_with_media db.transcripts)
      ∙ ap (map line_of) (
          sort_by-update_where _ here_row row_with_media (rows_of channel stream db) (λ a b. refl)
            (λ a b. refl))
      ∙ map-update_where line_of here_row row_with_media here with_media
          (sort_asc (λ r. r.line_id) (rows_of channel stream db)) (λ x. refl) (λ x. refl)

  length-here :
      length (filter (is_line channel stream id) db.transcripts)
      ≡ length (filter here (transcript_of channel stream db))
  unfolding transcript_of rows_of
  length-here =
      sym (ap length (filter-filter (is_of channel stream) here_row db.transcripts))
      ∙ sym (length-filter-sort_by _ here_row (rows_of channel stream db))
      ∙ sym (length-filter-map line_of here (sort_asc (λ r. r.line_id) (rows_of channel stream db)))

-- SetMediaAvailable on a transcript: unless the statement fails, it answers ErrNotFound exactly if
-- no line has the ID, and in what GetTranscript returns changes the media columns of the lines
-- with that ID and nothing else. If the statement fails, no table has changed.
pub set_media_available-effect :
    (channel stream : String) (id : ℤ) (file : String) (available : Bool) (c : Conn)
    → (((set_media_available channel stream id file available c).0 ≡ (
          if eqb (length (filter (λ l. eq_ℤ l.id id) (transcript_of channel stream c.db))) 0
          then err not_found
          else ok tt))
        × (transcript_of channel stream
              (set_media_available channel stream id file available c).1.db
            ≡ update_where
                (λ l. eq_ℤ l.id id)
                (λ l. record l { media_available = available; file_id = file })
                (transcript_of channel stream c.db)))
      ⊎ (((set_media_available channel stream id file available c).0 ≡ err failed)
          × ((set_media_available channel stream id file available c).1.db ≡ c.db))
unfolding set_media_available
set_media_available-effect channel stream id file available c =
    elim (statement-cases (set_media channel stream id file available) c) [
      | inl (r, t) ↦ inl (
        r ∙ unfold set_media in rw (length-here channel stream id file available c.db) refl,
        rw t (transcript_of-set_media channel stream id file available c.db),
      )
      | inr h ↦ inr h
    ]
