-- ===== src/Store/Gapless.antt =====
-- The transcript that InsertNextLine (internal/store/transcripts.go) builds: its line IDs are
-- 0, 1, 2, … whatever lines are posted and whatever statements fail.
use live_transcript_server.Prelude.{
  ℕ, zero, suc, ◌+◌, ◌^◌, ◌≤◌, ◌<◌, String, ◌≡◌, refl, sym, ap, ap₂, subst, ◌∙◌, inl, inr, true,
  Option, none, some, List, [], ◌∷◌, ◌++◌, map, map-append, ℤ, pos, ◌≤ℤ◌, ◌<ℤ◌, max64, succ64,
  succ_ℤ, succ64-eq, lt_succ_ℤ, eq_of_parts, eq_ℤ, eq_ℤ→eq, length, head?, All, All-map, All-split,
  All-empty, All-append, All-map_to, All-map_of, length-append, sort_asc, IsTop, sort_desc,
  sort_desc-IsTop, sort_by-All, All-sort_by, arith,
}
use live_transcript_server.Model.{Line}
use live_transcript_server.Store.Sql.{Db, Conn, ok, TranscriptRow}
use live_transcript_server.Store.Transcripts.{
  rows_of, row_of, last_row, last_id, insert_next_line, transcript_of, line_of,
}
use live_transcript_server.Store.Outcome.{Result-cases}
use live_transcript_server.Store.Append.{
  with_row, next-past-All, transcript_of-append, insert_next_line-Ensures, insert_next_line-Atomic,
}

-- 0, 1, …, n - 1
abbrev pub ids_below : ℕ → List ℤ
ids_below zero = []
ids_below (suc n) = ids_below n ++ pos n ∷ []

abbrev pub ids : List Line → List ℤ
ids = map (λ l. l.id)

-- The transcript has the lines 0 to n - 1.
abbrev pub IsGapless : String → String → ℕ → Db → Type 0
IsGapless channel stream n db = ids (transcript_of channel stream db) ≡ ids_below n

ids_below-All : (n : ℕ) → All (λ (i : ℤ). i <ℤ pos n) (ids_below n)
ids_below-All zero = tt
ids_below-All (suc n) =
    All-append _ (ids_below n) (pos n ∷ [])
      (All-map (λ i (h : i <ℤ pos n). omega arith) (ids_below n) (ids_below-All n)) (omega arith)

length-ids_below : (n : ℕ) → length (ids_below n) ≡ n
length-ids_below zero = refl
length-ids_below (suc n) =
    omega (arith, length-append (ids_below n) (pos n ∷ []), length-ids_below n)

abbrev key : TranscriptRow → ℤ
key r = r.line_id

ids-lines : (rows : List TranscriptRow) → ids (map line_of rows) ≡ map key rows
ids-lines [] = refl
ids-lines (r ∷ rows) = ap (◌∷◌ (key r)) (ids-lines rows)

-- What holds of the largest key, when the keys are 0 to n - 1.
last_id-keys :
    (n : ℕ) (rows : List TranscriptRow) (last : Option TranscriptRow)
    → ((P : ℤ → Type 0) → All (λ r. P (key r)) rows → All P (ids_below n))
    → IsTop key last rows
    → ((P : ℤ → Type 0)
        → All P (ids_below n)
        → (top : TranscriptRow) → last ≡ some top
        → P (key top))
    → succ_ℤ (last_id last) ≡ pos n
last_id-keys zero rows none all top below = refl
last_id-keys (suc m) rows none all top below =
    absurd (All-split (λ _. ⊥) (ids_below m) (pos m ∷ []) (all (λ _. ⊥) (All-empty _ rows top))).1.0
last_id-keys zero rows (some r) all top below = absurd (below (λ _. ⊥) tt r refl)
last_id-keys (suc m) rows (some r) all top below =
    let least = (All-split _ (ids_below m) (pos m ∷ []) (all (λ i. i ≤ℤ key r) top)).1.0 in
    let most = below (λ i. i <ℤ pos (suc m)) (ids_below-All (suc m)) r refl in
    let same : key r ≡ pos m = eq_of_parts (key r) (pos m) (omega arith) in
    rw same (ap pos (omega arith))

module _ (channel stream : String) (n : ℕ) (db : Db) (gapless : IsGapless channel stream n db) where
  sorted_keys : map key (sort_asc key (rows_of channel stream db)) ≡ ids_below n
  unfolding transcript_of
  sorted_keys = sym (ids-lines _) ∙ gapless

  All-ids :
      (P : ℤ → Type 0) → All (λ r. P (key r)) (rows_of channel stream db) → All P (ids_below n)
  All-ids P h =
      rw (← sorted_keys)
        (All-map_to key P _ (sort_by-All _ (λ r. P (key r)) (rows_of channel stream db) h))

  at_last :
      (P : ℤ → Type 0)
      → All P (ids_below n)
      → (top : TranscriptRow) → last_row channel stream db ≡ some top
      → P (key top)
  unfolding last_row
  at_last P h top = go _ descending
    where
      ascending : All (λ r. P (key r)) (sort_asc key (rows_of channel stream db))
      ascending = All-map_of key P _ (rw sorted_keys h)

      descending : All (λ r. P (key r)) (sort_desc key (rows_of channel stream db))
      descending = sort_by-All _ _ _ (All-sort_by _ _ _ ascending)

      go :
          (rows : List TranscriptRow)
          → All (λ r. P (key r)) rows
          → head? rows ≡ some top
          → P (key top)
      go [] h e = cc
      go (r ∷ rows) h e = let same : r ≡ top = cc in rw (← same) h.0

  -- The next line that is accepted is line n.
  pub last_id-gapless : succ_ℤ (last_id (last_row channel stream db)) ≡ pos n
  last_id-gapless =
      last_id-keys n (rows_of channel stream db) (last_row channel stream db) All-ids
        (unfold last_row in sort_desc-IsTop key (rows_of channel stream db)) at_last

module _ (channel stream : String) (line : Line) (n : ℕ) (room : n < 2 ^ 63) where
  last-lt-max64 :
      (db : Db) → IsGapless channel stream n db → last_id (last_row channel stream db) <ℤ max64
  last-lt-max64 db gapless =
      let last = last_id (last_row channel stream db) in
      let below : last <ℤ pos n =
        subst (λ i. last <ℤ i) (last_id-gapless channel stream n db gapless) (lt_succ_ℤ last) in
      omega arith

  with_row-IsGapless :
      (db : Db)
      → IsGapless channel stream n db
      → eq_ℤ line.id (succ64 (last_id (last_row channel stream db))) ≡ true
      → IsGapless channel stream (suc n) (with_row (row_of channel stream line) db)
  with_row-IsGapless db gapless next =
      let last = last_id (last_row channel stream db) in
      let small = last-lt-max64 db gapless in
      let is_n : line.id ≡ pos n =
        eq_ℤ→eq line.id (succ64 last) next
        ∙ succ64-eq last small
        ∙ last_id-gapless channel stream n db gapless in
      ap ids (
        transcript_of-append channel stream line db
          (next-past-All channel stream line.id db small next))
      ∙ map-append (λ (l : Line). l.id) (transcript_of channel stream db) (line ∷ [])
      ∙ ap₂ (λ xs x. xs ++ x ∷ []) gapless is_n

  -- A post that succeeds adds line n.
  pub insert_next_line-IsGapless :
      (c : Conn)
      → IsGapless channel stream n c.db
      → (insert_next_line channel stream line c).0 ≡ ok tt
      → IsGapless channel stream (suc n) (insert_next_line channel stream line c).1.db
  insert_next_line-IsGapless c gapless done =
      let (next, after) = (insert_next_line-Ensures channel stream line c.db).at c refl tt done in
      rw after (with_row-IsGapless c.db gapless next)

-- The lines that are posted one after the other, whatever the answers.
pub post_all : String → String → List Line → Conn → Conn
post_all channel stream [] c = c
post_all channel stream (line ∷ lines) c =
    post_all channel stream lines (insert_next_line channel stream line c).1

-- From a transcript with the lines 0 to n - 1, any posts leave one with the lines 0 to m - 1,
-- where m is at least n and at most n plus the number of posts, below 2^63.
pub post_all-IsGapless :
    (channel stream : String) (lines : List Line) (n : ℕ) (c : Conn)
    → n + length lines < 2 ^ 63
    → IsGapless channel stream n c.db
    → (m : ℕ) × (n ≤ m)
      × (m ≤ n + length lines)
      × IsGapless channel stream m (post_all channel stream lines c).db
unfolding post_all
post_all-IsGapless channel stream [] n c room gapless = (n, omega arith, omega arith, gapless)
post_all-IsGapless channel stream (line ∷ lines) n c room gapless =
    let after : Conn = (insert_next_line channel stream line c).1 in
    elim (Result-cases (insert_next_line channel stream line c).0) [
      | inl (u, done) ↦
          let (m, low, high, g) =
            post_all-IsGapless channel stream lines (suc n) after (omega arith)
              (insert_next_line-IsGapless channel stream line n (omega arith) c gapless done) in
          (m, omega arith, omega arith, g)
      | inr (e, refused) ↦
          let (m, low, high, g) =
            post_all-IsGapless channel stream lines n after (omega arith)
              (rw ((insert_next_line-Atomic channel stream line).at c e refused) gapless) in
          (m, omega arith, omega arith, g)
    ]
