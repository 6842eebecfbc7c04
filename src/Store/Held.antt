-- ===== src/Store/Held.antt =====
-- GetLastAvailableMediaFiles, internal/store/transcripts.go: the file of a line in the map that it
-- returns.
use live_transcript_server.Prelude.{
  String, ◌≡◌, refl, ap, ◌∙◌, inl, inr, Bool, true, false, ◌&&◌, Option, none, some, List, [], ◌∷◌,
  map, ℤ, negsuc, le_ℤ, eq_ℤ, head?, filter, head-sort_by, Bool-cases, ◌==◌, if◌then◌else◌, arith,
}
use live_transcript_server.Store.Sql.{Db, TranscriptRow}
use live_transcript_server.Store.Transcripts.{null_string, is_of, rows_of, media_rows, last_media}
use live_transcript_server.Store.Keys.{IsKeyed}
use live_transcript_server.Store.Range.{media_rows-Apart}

-- NULL reads as the empty text.
abbrev pub text_of : Option String → String
text_of none = ""
text_of (some s) = s

-- The file of a stream's line that has media.
abbrev pub held_in : String → String → ℤ → List TranscriptRow → Option String
held_in channel stream id [] = none
held_in channel stream id (r ∷ rows) =
    if (r.channel_id == channel && r.stream_id == stream)
      && (eq_ℤ r.line_id id && r.media_available)
    then some (text_of r.file_id)
    else held_in channel stream id rows

text_null : (o : Option String) → null_string o ≡ text_of o
text_null none = refl
text_null (some s) = refl

abbrev line_is : ℤ → TranscriptRow → Bool
line_is id r = eq_ℤ r.line_id id

-- The file of an entry of the query's map.
abbrev pub file_part : Option (ℤ × String) → Option String
file_part none = none
file_part (some f) = some f.1

module _ (channel stream : String) (id : ℤ) where
  named : List TranscriptRow → List (ℤ × String)
  named rows = map (λ r. (r.line_id, null_string r.file_id)) rows

  found : Option TranscriptRow → Option (ℤ × String)
  found none = none
  found (some r) = some (r.line_id, null_string r.file_id)

  head-named :
      (rows : List TranscriptRow)
      → head? (filter (λ f. eq_ℤ f.0 id) (named rows)) ≡ found (head? (filter (line_is id) rows))
  unfolding filter found named
  head-named [] = refl
  head-named (r ∷ rows) = elim (Bool-cases (line_is id r)) [
    | inl e ↦ rw e refl
    | inr e ↦ rw e (head-named rows)
  ]

  head-held :
      (rows : List TranscriptRow)
      → file_part (
          found (
            head? (
              filter
                (line_is id)
                (filter (λ r. r.media_available) (filter (is_of channel stream) rows)))))
        ≡ held_in channel stream id rows
  unfolding filter found
  head-held [] = refl
  head-held (r ∷ rows) = ground (arith, head-held rows, text_null r.file_id)

  -- The map has for a line that has media its file, and no other entry.
  pub file_part-held :
      (db : Db)
      → IsKeyed db
      → file_part (
          head? (
            filter
              (λ f. eq_ℤ f.0 id)
              (map
                (λ r. (r.line_id, null_string r.file_id))
                (last_media channel stream (negsuc 0) db))))
        ≡ held_in channel stream id db.transcripts
  unfolding media_rows last_media rows_of named
  file_part-held db keyed =
      ap file_part (
        head-named (last_media channel stream (negsuc 0) db)
        ∙ ap found (
            head-sort_by (line_is id) (λ r s. le_ℤ s.line_id r.line_id)
              (λ r s. eq_ℤ r.line_id s.line_id) (media_rows channel stream db) apart
              (media_rows-Apart channel stream db keyed)))
      ∙ head-held db.transcripts
    where
      apart :
          (r s : TranscriptRow)
          → line_is id r ≡ true
          → eq_ℤ r.line_id s.line_id ≡ false
          → line_is id s ≡ false
      apart r s h k = ground arith
