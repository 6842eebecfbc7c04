-- ===== src/Store/Replace.antt =====
-- ReplaceTranscript of internal/store/transcripts.go: the transcript is the posted one, or unchanged.
use live_transcript_server.Prelude.{
  ◌⊎◌, inl, inr, String, ◌≡◌, refl, ap, ap₂, subst, sym, ◌∙◌, true, false, not, ◌&&◌, List, [], ◌∷◌,
  ◌++◌, map, eq_ℤ, filter-append, filter-not, filter-All, filter_none, filter-filter_disjoint, any,
  any-append, any-and, All, All-map_to, Distinct, sort_asc, sort_by-map, eq_refl, eq_iff, ◌==◌,
  append_assoc, append-nil, arith,
}
use live_transcript_server.Model.{Line}
use live_transcript_server.Store.Sql.{Db, Conn, ok, err, TranscriptRow, statement, Error, ◌>>◌}
use live_transcript_server.Store.Transcripts.{
  is_of, rows_of, row_of, line_of, same_line, insert_row, delete_rows, insert_lines,
  replace_transcript, transcript_of, get_transcript,
}
use live_transcript_server.Store.Outcome.{
  clean, transaction-clean, Ensures, Ensures-pure, Ensures-bind, Ensures-exec, Ensures-statement,
  Ensures-transaction, Result-cases, Atomic, Atomic-transaction,
}
use live_transcript_server.Store.Append.{with_row, insert_row-ok}

abbrev with_rows : List TranscriptRow → Db → Db
with_rows rows db = record db { transcripts = db.transcripts ++ rows }

pub replace_transcript-Atomic :
    (channel stream : String) (lines : List Line) → Atomic (replace_transcript channel stream lines)
unfolding replace_transcript
replace_transcript-Atomic channel stream lines = Atomic-transaction _

with_rows-with_row :
    (row : TranscriptRow) (rows : List TranscriptRow) (db : Db)
    → with_rows rows (with_row row db) ≡ with_rows (row ∷ rows) db
with_rows-with_row row rows db =
    ap (λ t. record db { transcripts = t }) (append_assoc db.transcripts (row ∷ []) rows)

module _ (channel stream : String) where
  abbrev rows_for : List Line → List TranscriptRow
  rows_for = map (row_of channel stream)

  -- The table after a replacement.
  abbrev pub replaced : List Line → Db → Db
  replaced lines db = with_rows (rows_for lines) (delete_rows channel stream db)

  insert_lines-Ensures :
      (lines : List Line) (db : Db)
      → Ensures
          (insert_lines channel stream lines)
          db
          (λ _ db'. db' ≡ with_rows (rows_for lines) db)
  unfolding insert_lines
  insert_lines-Ensures [] db =
      Ensures-pure tt (ap (λ t. record db { transcripts = t }) (sym (append-nil db.transcripts)))
  insert_lines-Ensures (line ∷ lines) db =
      let row = row_of channel stream line in
      Ensures-bind (statement (insert_row row)) (λ _. insert_lines channel stream lines)
        (λ _ db'. db' ≡ with_row row db) (Ensures-statement _ (λ _ done. insert_row-ok row db done))
        λ _ db' e. rw e (
          subst
            (λ t.
              Ensures (insert_lines channel stream lines) (with_row row db) (λ _ after. after ≡ t))
            (with_rows-with_row row (rows_for lines) db)
            (insert_lines-Ensures lines (with_row row db)))

  pub replace_transcript-Ensures :
      (lines : List Line) (db : Db)
      → Ensures (replace_transcript channel stream lines) db (λ _ db'. db' ≡ replaced lines db)
  unfolding replace_transcript
  replace_transcript-Ensures lines db = Ensures-transaction _ (
      Ensures-exec _ _
        (Ensures-exec _ _ (insert_lines-Ensures lines (delete_rows channel stream db))))

  is_of-row_of : (line : Line) → is_of channel stream (row_of channel stream line) ≡ true
  is_of-row_of line = ground (arith, eq_refl channel, eq_refl stream)

  All-are :
      (lines : List Line) → All (λ l. is_of channel stream (row_of channel stream l) ≡ true) lines
  All-are [] = tt
  All-are (line ∷ lines) = (is_of-row_of line, All-are lines)

  lines-rows_for : (lines : List Line) → map line_of (rows_for lines) ≡ lines
  lines-rows_for [] = refl
  lines-rows_for (line ∷ lines) = ap (◌∷◌ line) (lines-rows_for lines)

  rows_of-replaced :
      (lines : List Line) (db : Db) → rows_of channel stream (replaced lines db) ≡ rows_for lines
  unfolding rows_of delete_rows
  rows_of-replaced lines db =
      filter-append (is_of channel stream) _ (rows_for lines)
      ∙ ap₂ ◌++◌ (filter-not (is_of channel stream) db.transcripts) (
          filter-All (is_of channel stream) (rows_for lines)
            (All-map_to (row_of channel stream) _ lines (All-are lines)))

  pub transcript_of-replaced :
      (lines : List Line) (db : Db)
      → transcript_of channel stream (replaced lines db) ≡ sort_asc (λ l. l.id) lines
  unfolding transcript_of
  transcript_of-replaced lines db =
      rw (rows_of-replaced lines db, sort_by-map (row_of channel stream) _ lines)
        (lines-rows_for (sort_asc (λ l. l.id) lines))

  -- The other transcripts are not touched.
  module _ (channel' stream' : String)
      (other : (channel == channel' && stream == stream') ≡ false) where
    rows_for-others :
        (lines : List Line) → All (λ r. is_of channel' stream' r ≡ false) (rows_for lines)
    rows_for-others [] = tt
    rows_for-others (line ∷ lines) = (other, rows_for-others lines)

    is_of_one :
        (r : TranscriptRow) → is_of channel' stream' r ≡ true → not (is_of channel stream r) ≡ true
    is_of_one r h = ground (
      arith,
      eq_iff r.channel_id channel',
      eq_iff r.channel_id channel,
      eq_iff channel channel',
      eq_iff r.stream_id stream',
      eq_iff r.stream_id stream,
      eq_iff stream stream',
    )

    transcript_of-replaced_ne :
        (lines : List Line) (db : Db)
        → transcript_of channel' stream' (replaced lines db) ≡ transcript_of channel' stream' db
    unfolding transcript_of rows_of delete_rows
    transcript_of-replaced_ne lines db =
        ap (λ rows. map line_of (sort_asc (λ r. r.line_id) rows))
          (filter-append (is_of channel' stream') _ (rows_for lines)
            ∙ ap₂ ◌++◌
                (filter-filter_disjoint (λ r. not (is_of channel stream r)) (is_of channel' stream')
                  db.transcripts is_of_one)
                (filter_none (is_of channel' stream') (rows_for lines) (rows_for-others lines))
            ∙ append-nil _)

module _ (channel stream : String) where
  abbrev IsFresh : Db → Line → Type 0
  IsFresh db line = any (same_line (row_of channel stream line)) db.transcripts ≡ false

  insert_row-fresh :
      (db : Db) (line : Line)
      → IsFresh db line
      → insert_row (row_of channel stream line) db
        ≡ (ok tt, with_row (row_of channel stream line) db)
  unfolding insert_row
  insert_row-fresh db line fresh = rw fresh refl

  IsFresh-with_row :
      (db : Db) (line other : Line)
      → eq_ℤ line.id other.id ≡ false
      → IsFresh db other
      → IsFresh (with_row (row_of channel stream line) db) other
  IsFresh-with_row db line other ne fresh =
      let test = same_line (row_of channel stream other) in
      ground (arith, any-append test db.transcripts (row_of channel stream line ∷ []))

  IsFresh-rest :
      (db : Db) (line : Line) (lines : List Line)
      → All (IsFresh db) lines
      → All (λ l. eq_ℤ line.id l.id ≡ false) lines
      → All (IsFresh (with_row (row_of channel stream line) db)) lines
  IsFresh-rest db line [] h k = tt
  IsFresh-rest db line (l ∷ lines) h k =
      (IsFresh-with_row db line l k.0 h.0, IsFresh-rest db line lines h.1 k.1)

  insert_lines-clean :
      (lines : List Line) (db : Db)
      → All (IsFresh db) lines
      → Distinct (λ l m. eq_ℤ l.id m.id) lines
      → insert_lines channel stream lines (clean db)
        ≡ (ok tt, clean (with_rows (rows_for channel stream lines) db))
  unfolding insert_lines statement
  insert_lines-clean [] db fresh distinct =
      ap (λ t. (ok tt, clean (record db { transcripts = t }))) (sym (append-nil db.transcripts))
  insert_lines-clean (line ∷ lines) db fresh distinct = rw (insert_row-fresh db line fresh.0) (
      insert_lines-clean lines (with_row (row_of channel stream line) db)
        (IsFresh-rest db line lines fresh.1 distinct.0) distinct.1
      ∙ ap (λ d. (ok tt, clean d))
          (with_rows-with_row (row_of channel stream line) (rows_for channel stream lines) db))

  IsFresh-deleted :
      (db : Db) (lines : List Line) → All (IsFresh (delete_rows channel stream db)) lines
  unfolding delete_rows
  IsFresh-deleted db [] = tt
  IsFresh-deleted db (line ∷ lines) = (
    any-and (is_of channel stream) (λ r. eq_ℤ r.line_id line.id) _
        (rw (filter-not (is_of channel stream) db.transcripts) tt),
    IsFresh-deleted db lines,
  )

  pub replace_transcript-clean :
      (lines : List Line) (db : Db)
      → Distinct (λ l m. eq_ℤ l.id m.id) lines
      → replace_transcript channel stream lines (clean db)
        ≡ (ok tt, clean (replaced channel stream lines db))
  unfolding replace_transcript statement
  replace_transcript-clean lines db distinct =
      transaction-clean _ db (replaced channel stream lines db) (ok tt) (
        insert_lines-clean lines (delete_rows channel stream db) (IsFresh-deleted db lines)
          distinct)

  -- With no failing statement and no line ID twice, ReplaceTranscript succeeds, and GetTranscript
  -- then returns the given lines in the order of their IDs.
  pub get_transcript-replace_transcript :
      (lines : List Line) (db : Db)
      → Distinct (λ l m. eq_ℤ l.id m.id) lines
      → (replace_transcript channel stream lines >> get_transcript channel stream) (clean db)
        ≡ (ok (sort_asc (λ l. l.id) lines), clean (replaced channel stream lines db))
  unfolding get_transcript statement
  get_transcript-replace_transcript lines db distinct =
      rw (replace_transcript-clean lines db distinct)
        (rw (transcript_of-replaced channel stream lines db) refl)

  -- Whatever statements fail: after a success the transcript has the given lines in the order of
  -- their IDs, and the transcript of any other stream is as it was; after an error no table has
  -- changed.
  pub replace_transcript-effect :
      (lines : List Line) (c : Conn) (channel' stream' : String)
      → (channel == channel' && stream == stream') ≡ false
      → (((replace_transcript channel stream lines c).0 ≡ ok tt)
          × (transcript_of channel stream (replace_transcript channel stream lines c).1.db
              ≡ sort_asc (λ l. l.id) lines)
          × (transcript_of channel' stream' (replace_transcript channel stream lines c).1.db
              ≡ transcript_of channel' stream' c.db))
        ⊎ ((e : Error) × ((replace_transcript channel stream lines c).0 ≡ err e)
            × ((replace_transcript channel stream lines c).1.db ≡ c.db))
  replace_transcript-effect lines c channel' stream' other =
      elim (Result-cases (replace_transcript channel stream lines c).0) [
        | inl (u, done) ↦
            let after = (replace_transcript-Ensures channel stream lines c.db).at c refl u done in
            inl (
              done,
              rw after (transcript_of-replaced channel stream lines c.db),
              rw after (transcript_of-replaced_ne channel stream channel' stream' other lines c.db),
            )
        | inr (e, refused) ↦
            inr (e, refused, (replace_transcript-Atomic channel stream lines).at c e refused)
      ]
