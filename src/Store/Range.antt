-- ===== src/Store/Range.antt =====
-- GetFileIDsInRange, internal/store/transcripts.go: when it returns a file for every line of a range.
use live_transcript_server.Prelude.{
  ℕ, suc, ◌+◌, ◌≤◌, ◌≡◌, refl, ap, ◌∙◌, subst, String, Bool, true, false, ◌&&◌, Option, none, some,
  List, [], ◌∷◌, map, ℤ, pos, pos_part, neg_part, ◌≤ℤ◌, le_ℤ, eq_ℤ, succ_ℤ, sub_ℤ, eq_of_parts,
  length, filter, All, All-map, Distinct, Distinct-filter, Distinct-sort_by, Distinct-on, IsSorted,
  sort_asc, sort_asc-IsSorted, sort_by-All, ◌⊎◌, inl, inr, Bool-cases, All-filter_test, ◌==◌,
  eq_iff, arith,
}
use live_transcript_server.Store.Outcome.{statement-cases}
use live_transcript_server.Store.Sql.{Db, Conn, ok, err, failed, TranscriptRow}
use live_transcript_server.Store.Transcripts.{
  same_line, is_of, rows_of, media_rows, scan_file_ids, get_file_ids_in_range,
}
use live_transcript_server.Store.Keys.{IsKeyed}

succ_ℤ_parts : (x : ℤ) → pos_part (succ_ℤ x) + neg_part x ≡ pos_part x + neg_part (succ_ℤ x) + 1
succ_ℤ_parts x = ground arith

abbrev line : TranscriptRow → ℤ
line r = r.line_id

-- The line IDs are the first, the next, and so on.
abbrev pub Consecutive : ℤ → List TranscriptRow → Type 0
Consecutive first [] = Unit {0}
Consecutive first (r ∷ rows) = (r.line_id ≡ first) × Consecutive (succ_ℤ first) rows

-- No two rows have the same line ID.
abbrev pub Apart : List TranscriptRow → Type 0
Apart = Distinct (λ r s. eq_ℤ r.line_id s.line_id)

above :
    (r : TranscriptRow) (rows : List TranscriptRow)
    → All (λ s. line r ≤ℤ line s) rows
    → All (λ s. eq_ℤ r.line_id s.line_id ≡ false) rows
    → All (λ s. succ_ℤ (line r) ≤ℤ line s) rows
above r [] h d = tt
above r (s ∷ rows) h d = (ground (arith, h.0, d.0, succ_ℤ_parts (line r)), above r rows h.1 d.1)

-- At most as many rows as there are IDs in the range.
bounded :
    (lo hi : ℤ) (rows : List TranscriptRow)
    → lo ≤ℤ succ_ℤ hi
    → IsSorted line rows
    → Apart rows
    → All (λ r. lo ≤ℤ line r) rows
    → All (λ r. line r ≤ℤ hi) rows
    → length rows + pos_part lo + neg_part hi ≤ pos_part hi + neg_part lo + 1
bounded lo hi [] w s d l h = omega (arith, succ_ℤ_parts hi)
bounded lo hi (r ∷ rows) w s d l h =
    let rest =
      bounded (succ_ℤ (line r)) hi rows (omega (arith, succ_ℤ_parts hi, succ_ℤ_parts (line r), h.0))
        s.1 d.1 (above r rows s.0 d.0) h.1 in
    omega (arith, rest, succ_ℤ_parts (line r), l.0)

-- If there are as many, then every ID has its row.
filled :
    (lo hi : ℤ) (rows : List TranscriptRow)
    → IsSorted line rows
    → Apart rows
    → All (λ r. lo ≤ℤ line r) rows
    → All (λ r. line r ≤ℤ hi) rows
    → length rows + pos_part lo + neg_part hi ≡ pos_part hi + neg_part lo + 1
    → Consecutive lo rows
filled lo hi [] s d l h n = tt
filled lo hi (r ∷ rows) s d l h n =
    let rest =
      bounded (succ_ℤ (line r)) hi rows (omega (arith, succ_ℤ_parts hi, succ_ℤ_parts (line r), h.0))
        s.1 d.1 (above r rows s.0 d.0) h.1 in
    let e : line r ≡ lo =
      eq_of_parts (line r) lo (omega (arith, rest, succ_ℤ_parts (line r), l.0, n)) in
    let up = subst (λ z. All (λ s. succ_ℤ z ≤ℤ line s) rows) e (above r rows s.0 d.0) in
    (e, filled (succ_ℤ lo) hi rows s.1 d.1 up h.1 (omega (arith, n, succ_ℤ_parts lo)))

-- The rows of the query.
abbrev pub in_range : ℤ → ℤ → TranscriptRow → Bool
in_range first last r = le_ℤ first r.line_id && le_ℤ r.line_id last

abbrev pub range_rows : String → String → ℤ → ℤ → Db → List TranscriptRow
range_rows channel stream first last db =
    sort_asc line (filter (in_range first last) (media_rows channel stream db))

symm : (r s : TranscriptRow) → eq_ℤ r.line_id s.line_id ≡ false → eq_ℤ s.line_id r.line_id ≡ false
symm r s h = ground arith

pub media_rows-Apart :
    (channel stream : String) (db : Db) → IsKeyed db → Apart (media_rows channel stream db)
unfolding rows_of media_rows
media_rows-Apart channel stream db keyed =
    Distinct-filter _ (λ row. row.media_available) _
      (Distinct-on same_line (λ r. is_of channel stream r ≡ true) _ _ apart
        (All-filter_test (is_of channel stream) db.transcripts)
        (Distinct-filter same_line (is_of channel stream) db.transcripts keyed.transcripts))
  where
    apart :
        (r s : TranscriptRow)
        → is_of channel stream r ≡ true
        → is_of channel stream s ≡ true
        → same_line r s ≡ false
        → eq_ℤ r.line_id s.line_id ≡ false
    apart r s p q h = ground (
      arith,
      eq_iff r.channel_id channel,
      eq_iff s.channel_id channel,
      eq_iff r.stream_id stream,
      eq_iff s.stream_id stream,
      eq_iff s.channel_id r.channel_id,
      eq_iff s.stream_id r.stream_id,
    )

range_rows-Apart :
    (channel stream : String) (first last : ℤ) (db : Db)
    → IsKeyed db
    → Apart (range_rows channel stream first last db)
range_rows-Apart channel stream first last db keyed =
    Distinct-sort_by (λ r s. eq_ℤ r.line_id s.line_id) symm _ _
      (Distinct-filter _ (in_range first last) _ (media_rows-Apart channel stream db keyed))

range_rows-within :
    (channel stream : String) (first last : ℤ) (db : Db)
    → All (λ r. (first ≤ℤ line r) × (line r ≤ℤ last)) (range_rows channel stream first last db)
unfolding filter
range_rows-within channel stream first last db = sort_by-All _ _ _ (
    All-map (λ r h. (ground arith, ground arith))
      (filter (in_range first last) (media_rows channel stream db))
      (All-filter_test (in_range first last) (media_rows channel stream db)))

-- The query drops the rows without a file.
scan_full :
    (fs : List (Option String))
    → (length (scan_file_ids fs) ≤ length fs)
      × (length (scan_file_ids fs) ≡ length fs → fs ≡ map some (scan_file_ids fs))
unfolding scan_file_ids
scan_full [] = (omega arith, λ e. refl)
scan_full (none ∷ fs) = let (p, q) = scan_full fs in (omega arith, λ e. absurd (omega arith))
scan_full (some f ∷ fs) =
    let (p, q) = scan_full fs in
    elim (Bool-cases (f == "")) [
      | inl e ↦ rw e (omega arith, λ e. absurd (omega arith))
      | inr e ↦ rw e (omega arith, λ n. ap (λ fs. some f ∷ fs) (q (omega arith)))
    ]

-- A file for every ID from the first to the last, in their order, as the rows have it.
pub record IsWhole (first last : ℤ) (rows : List TranscriptRow) (files : List String) : Type 0 where
  pub every : Consecutive first rows
  pub number : pos (length rows) ≡ succ_ℤ (sub_ℤ last first)
  pub files_of : map (λ r. r.file_id) rows ≡ map some files

length-map : {A B : Type 0} (f : A → B) (xs : List A) → length (map f xs) ≡ length xs
length-map f [] = refl
length-map f (x ∷ xs) = ap suc (length-map f xs)

span :
    (first last : ℤ) (n : ℕ)
    → pos n ≡ succ_ℤ (sub_ℤ last first)
    → first ≤ℤ last
    → n + pos_part first + neg_part last ≡ pos_part last + neg_part first + 1
span first last n h w = ground arith

module _ (channel stream : String) (first last : ℤ) (db : Db) where
  abbrev rows : List TranscriptRow
  rows = range_rows channel stream first last db

  -- As many files as the range has IDs: then every ID has its row.
  pub range_rows-IsWhole :
      IsKeyed db
      → first ≤ℤ last
      → pos (length (scan_file_ids (map (λ r. r.file_id) rows))) ≡ succ_ℤ (sub_ℤ last first)
      → IsWhole first last rows (scan_file_ids (map (λ r. r.file_id) rows))
  range_rows-IsWhole keyed w n =
      let (p, q) = scan_full (map (λ r. r.file_id) rows) in
      let l : length (map (λ r. r.file_id) rows) ≡ length rows = length-map _ rows in
      let sorted =
        sort_asc-IsSorted line (filter (in_range first last) (media_rows channel stream db)) in
      let apart = range_rows-Apart channel stream first last db keyed in
      let within = range_rows-within channel stream first last db in
      let low = All-map {P = λ r. (first ≤ℤ line r) × (line r ≤ℤ last)} (λ r h. h.0) rows within in
      let high = All-map {P = λ r. (first ≤ℤ line r) × (line r ≤ℤ last)} (λ r h. h.1) rows within in
      let most = bounded first last rows (omega (arith, succ_ℤ_parts last)) sorted apart low high in
      let many = span first last _ n w in
      record {
        every = filled first last rows sorted apart low high (omega (arith, most, many, p, l));
        number = ap pos (omega (arith, most, many, p, l)) ∙ n;
        files_of = q (omega (arith, most, many, p, l));
      }

-- The answer of the query, unless the statement fails.
pub get_file_ids_in_range-cases :
    (channel stream : String) (first last : ℤ) (c : Conn)
    → ((get_file_ids_in_range channel stream first last c).0
        ≡ ok (scan_file_ids (map (λ r. r.file_id) (range_rows channel stream first last c.db))))
      ⊎ ((get_file_ids_in_range channel stream first last c).0 ≡ err failed)
unfolding get_file_ids_in_range
get_file_ids_in_range-cases channel stream first last c =
    elim (statement-cases
      (λ db.
        (ok (scan_file_ids (map (λ r. r.file_id) (range_rows channel stream first last db))), db))
      c) [ inl (r, same) ↦ inl r | inr (r, same) ↦ inr r ]
