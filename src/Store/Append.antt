-- ===== src/Store/Append.antt =====
-- InsertNextLine of internal/store/transcripts.go: what appending a line does to the transcript.
use live_transcript_server.Prelude.{
  String, ◌≡◌, ap, ◌∙◌, true, Option, none, some, List, [], ◌∷◌, ◌++◌, ℤ, eq_ℤ, succ64, head?,
  eq_refl, filter-append, if◌then◌else◌, arith, All, All-map, All-empty, IsTop, sort_desc,
  sort_desc-IsTop, sort_by-last, ◌<ℤ◌, ◌≤ℤ◌, max64, lt_succ_ℤ, succ64-eq, eq_ℤ→eq, map-append, le_ℤ,
  le→le_ℤ,
}
use live_transcript_server.Model.{Line}
use live_transcript_server.Store.Sql.{Db, ok, out_of_sync, TranscriptRow}
use live_transcript_server.Store.Transcripts.{
  is_of, rows_of, row_of, insert_row, last_row, last_id, insert_next_line, transcript_of, line_of,
}
use live_transcript_server.Store.Outcome.{
  Ensures, Ensures-raise, Ensures-statement, Ensures-transaction, Ensures-if, Ensures-query, Atomic,
  Atomic-transaction,
}

abbrev pub with_row : TranscriptRow → Db → Db
with_row row db = record db { transcripts = db.transcripts ++ row ∷ [] }

pub insert_row-ok :
    (row : TranscriptRow) (db : Db)
    → (insert_row row db).0 ≡ ok tt
    → (insert_row row db).1 ≡ with_row row db
unfolding insert_row
insert_row-ok row db h = ground arith

module _ (channel stream : String) (line : Line) where
  -- A line that was accepted is one past the last, and is the only change.
  pub insert_next_line-Ensures :
      (db : Db)
      → Ensures (insert_next_line channel stream line) db (λ _ db'.
        (eq_ℤ line.id (succ64 (last_id (last_row channel stream db))) ≡ true)
        × (db' ≡ with_row (row_of channel stream line) db))
  unfolding insert_next_line
  insert_next_line-Ensures db = Ensures-transaction _ (
      Ensures-query _ _ (
        Ensures-if _ _ _ (λ next. Ensures-statement _ (λ _ done. (next, insert_row-ok _ db done)))
          (λ _. Ensures-raise out_of_sync)))

-- Which rows a new row is added to.
pub rows_of-with_row :
    (channel stream : String) (row : TranscriptRow) (db : Db)
    → rows_of channel stream (with_row row db)
      ≡ rows_of channel stream db ++ (if is_of channel stream row then row ∷ [] else [])
unfolding rows_of
rows_of-with_row channel stream row db =
    filter-append (is_of channel stream) db.transcripts (row ∷ [])

-- With no wrap-around, one past the last is past every row.
pub next-past-All :
    (channel stream : String) (id : ℤ) (db : Db)
    → last_id (last_row channel stream db) <ℤ max64
    → eq_ℤ id (succ64 (last_id (last_row channel stream db))) ≡ true
    → All (λ r. r.line_id <ℤ id) (rows_of channel stream db)
unfolding last_row
next-past-All channel stream id db room next =
    go (head? (sort_desc (λ r. r.line_id) rows)) (sort_desc-IsTop (λ r. r.line_id) rows) room next
  where
    rows : List TranscriptRow
    rows = rows_of channel stream db

    go :
        (last : Option TranscriptRow)
        → IsTop (λ r. r.line_id) last rows
        → last_id last <ℤ max64
        → eq_ℤ id (succ64 (last_id last)) ≡ true
        → All (λ r. r.line_id <ℤ id) rows
    go none empty room next = All-empty _ rows empty
    go (some top) above room next =
        All-map
          (λ r (h : r.line_id ≤ℤ top.line_id).
            rw (eq_ℤ→eq id (succ64 top.line_id) next ∙ succ64-eq top.line_id room)
              (omega (arith, lt_succ_ℤ top.line_id)))
          rows above

module _ (channel stream : String) (line : Line) where
  is_of-row_of : is_of channel stream (row_of channel stream line) ≡ true
  is_of-row_of = ground (arith, eq_refl channel, eq_refl stream)

  rows_of-append :
      (db : Db)
      → rows_of channel stream (with_row (row_of channel stream line) db)
        ≡ rows_of channel stream db ++ row_of channel stream line ∷ []
  rows_of-append db =
      rows_of-with_row channel stream (row_of channel stream line) db
      ∙ ap (λ b. rows_of channel stream db ++ (if b then row_of channel stream line ∷ [] else []))
          is_of-row_of

  -- The line is the last one that GetTranscript returns.
  pub transcript_of-append :
      (db : Db)
      → All (λ r. r.line_id <ℤ line.id) (rows_of channel stream db)
      → transcript_of channel stream (with_row (row_of channel stream line) db)
        ≡ transcript_of channel stream db ++ line ∷ []
  unfolding transcript_of
  transcript_of-append db past =
      rw (rows_of-append db, sort_by-last _ (row_of channel stream line) rows first)
        (map-append line_of _ _)
    where
      rows : List TranscriptRow
      rows = rows_of channel stream db

      first : All (λ r. le_ℤ r.line_id line.id ≡ true) rows
      first =
          All-map (λ r (h : r.line_id <ℤ line.id). le→le_ℤ r.line_id line.id (omega arith)) rows
            past

-- A post that is refused, for whatever reason, leaves the tables as they were.
pub insert_next_line-Atomic :
    (channel stream : String) (line : Line) → Atomic (insert_next_line channel stream line)
unfolding insert_next_line
insert_next_line-Atomic channel stream line = Atomic-transaction _
