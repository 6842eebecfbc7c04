-- ===== src/Store/Newest.antt =====
-- InsertNextLine of internal/store/transcripts.go: the last ID of a transcript, by its rows.
use live_transcript_server.Prelude.{
  String, ◌≡◌, refl, ap, ◌∙◌, inl, inr, Bool, ◌&&◌, Option, none, some, List, [], ◌∷◌, ℤ, negsuc,
  le_ℤ, head?, filter, insert_by, sort_by, eq_of_parts, Bool-cases, ◌==◌, if◌then◌else◌, arith,
}
use live_transcript_server.Store.Sql.{Db, TranscriptRow}
use live_transcript_server.Store.Transcripts.{is_of, rows_of, last_row, last_id}

abbrev pub greater : ℤ → Option ℤ → ℤ
greater x none = x
greater x (some y) = if le_ℤ x y then y else x

-- The greatest ID of a stream's rows.
abbrev pub greatest : String → String → List TranscriptRow → Option ℤ
greatest channel stream [] = none
greatest channel stream (r ∷ rows) =
    let rest = greatest channel stream rows in
    if r.channel_id == channel && r.stream_id == stream then some (greater r.line_id rest) else rest

abbrev pub id_or : Option ℤ → ℤ
id_or none = negsuc 0
id_or (some id) = id

-- The greatest ID of a transcript, -1 if it is empty.
abbrev pub newest_id : String → String → Db → ℤ
newest_id channel stream db = id_or (greatest channel stream db.transcripts)

abbrev below : TranscriptRow → TranscriptRow → Bool
below r s = le_ℤ s.line_id r.line_id

abbrev id_of : Option TranscriptRow → Option ℤ
id_of none = none
id_of (some r) = some r.line_id

later : (x y : ℤ) → (if le_ℤ y x then x else y) ≡ greater x (some y)
later x y = elim (Bool-cases (le_ℤ y x)) [
  | inl e ↦ elim (Bool-cases (le_ℤ x y)) [
    | inl k ↦ rw (e, k) (eq_of_parts x y (ground arith))
    | inr k ↦ rw (e, k) refl
  ]
  | inr e ↦ elim (Bool-cases (le_ℤ x y)) [ inl k ↦ rw (e, k) refl | inr k ↦ absurd (ground arith) ]
]

head-insert_by :
    (r : TranscriptRow) (rows : List TranscriptRow)
    → id_of (head? (insert_by below r rows)) ≡ some (greater r.line_id (id_of (head? rows)))
unfolding insert_by
head-insert_by r [] = refl
head-insert_by r (s ∷ rows) = elim (Bool-cases (below r s)) [
  | inl e ↦ rw e (ap (λ x. some x) (rw e at (later r.line_id s.line_id)))
  | inr e ↦ rw e (ap (λ x. some x) (rw e at (later r.line_id s.line_id)))
]

head-greatest :
    (channel stream : String) (rows : List TranscriptRow)
    → id_of (head? (sort_by below (filter (is_of channel stream) rows)))
      ≡ greatest channel stream rows
unfolding sort_by filter
head-greatest channel stream [] = refl
head-greatest channel stream (r ∷ rows) = elim (Bool-cases (is_of channel stream r)) [
  | inl e ↦ rw e (
      head-insert_by r (sort_by below (filter (is_of channel stream) rows))
      ∙ ap (λ o. some (greater r.line_id o)) (head-greatest channel stream rows))
  | inr e ↦ rw e (head-greatest channel stream rows)
]

last_id-id_or : (o : Option TranscriptRow) → last_id o ≡ id_or (id_of o)
last_id-id_or none = refl
last_id-id_or (some r) = refl

-- The query of InsertNextLine finds it.
pub last_id-newest_id :
    (channel stream : String) (db : Db)
    → last_id (last_row channel stream db) ≡ newest_id channel stream db
unfolding last_row rows_of
last_id-newest_id channel stream db =
    last_id-id_or (head? (sort_by below (filter (is_of channel stream) db.transcripts)))
    ∙ ap id_or (head-greatest channel stream db.transcripts)
