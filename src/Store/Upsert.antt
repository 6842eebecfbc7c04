-- ===== src/Store/Upsert.antt =====
-- UpsertStream, internal/store/streams.go: what it keeps of the row that was there.
use live_transcript_server.Prelude.{
  String, ◌≡◌, refl, ◌⊎◌, inl, inr, true, false, ◌&&◌, Option, none, some, [], ◌∷◌, append-nil,
  filter, any, any-All, filter_none, head-update_where, filter-append, filter-update_where,
  update_where-none, length-filter_both, Bool-cases, ◌==◌, eq_iff, eq_refl, arith,
}
use live_transcript_server.Model.{Stream}
use live_transcript_server.Store.Sql.{Db, Conn, ok, err, Error}
use live_transcript_server.Store.Streams.{
  is_stream, same_stream, find_stream, overwrite, put_stream, upsert_stream,
}
use live_transcript_server.Store.Outcome.{
  Ensures, Ensures-statement, Atomic, Atomic-statement, Result-cases,
}

-- What UpsertStream leaves of the row that was there.
abbrev pub merged : Stream → Option Stream → Stream
merged st none = st
merged st (some old) = record old {
  stream_title = st.stream_title;
  start_time = st.start_time;
  media_type = st.media_type;
  is_live = st.is_live;
}

same_self : (st : Stream) → same_stream st st ≡ true
same_self st = rw (eq_refl st.channel_id, eq_refl st.stream_id) refl

module _ (st : Stream) (db : Db) where
  pub find_put_self :
      find_stream st.channel_id st.stream_id (put_stream st db)
      ≡ some (merged st (find_stream st.channel_id st.stream_id db))
  unfolding find_stream put_stream filter
  find_put_self = elim (Bool-cases (any (same_stream st) db.streams)) [
    | inl e ↦
        let (old, before, after) =
          head-update_where (same_stream st) (overwrite st) db.streams e (λ s. refl) in
        rw (e, before, after) refl
    | inr e ↦
        let absent = filter_none (same_stream st) db.streams (any-All _ db.streams e) in
        rw (e, filter-append (same_stream st) db.streams (st ∷ []), absent, same_self st) refl
  ]

  module _ (channel stream : String)
      (other : (st.channel_id == channel && st.stream_id == stream) ≡ false) where
    find_put_other : find_stream channel stream (put_stream st db) ≡ find_stream channel stream db
    unfolding find_stream put_stream filter
    find_put_other = elim (Bool-cases (any (same_stream st) db.streams)) [
      | inl e ↦
          rw
            (
              e,
              filter-update_where (is_stream channel stream) (same_stream st) (overwrite st)
                  db.streams (λ s. refl),
              update_where-none (same_stream st) (overwrite st)
                  (filter (is_stream channel stream) db.streams)
                  (length-filter_both (is_stream channel stream) (same_stream st) db.streams apart),
            )
            refl
      | inr e ↦
          rw
            (
              e,
              filter-append (is_stream channel stream) db.streams (st ∷ []),
              other,
              append-nil (filter (is_stream channel stream) db.streams),
            )
            refl
    ]
      where
        apart : (s : Stream) → is_stream channel stream s ≡ true → same_stream st s ≡ false
        apart s h = ground (
          arith,
          other,
          eq_iff s.channel_id channel,
          eq_iff s.stream_id stream,
          eq_iff s.channel_id st.channel_id,
          eq_iff s.stream_id st.stream_id,
          eq_iff st.channel_id channel,
          eq_iff st.stream_id stream,
        )

pub upsert_stream-Ensures :
    (st : Stream) (db : Db) → Ensures (upsert_stream st) db (λ _ after. after ≡ put_stream st db)
unfolding upsert_stream
upsert_stream-Ensures st db = Ensures-statement _ (λ _ h. refl)

pub upsert_stream-Atomic : (st : Stream) → Atomic (upsert_stream st)
unfolding upsert_stream
upsert_stream-Atomic st = Atomic-statement _ (λ db e h. cc)

-- UpsertStream either succeeds, and then the row of the stream's key has the given title, start
-- time, media type and live flag, and the activation time of the row that was there, or, if none was,
-- the given one,
-- while the row of any other key is as it was; or it answers with an error and no table has
-- changed.
pub upsert_stream-effect :
    (st : Stream) (c : Conn) (channel stream : String)
    → (st.channel_id == channel && st.stream_id == stream) ≡ false
    → (((upsert_stream st c).0 ≡ ok tt)
        × (find_stream st.channel_id st.stream_id (upsert_stream st c).1.db
            ≡ some (merged st (find_stream st.channel_id st.stream_id c.db)))
        × (find_stream channel stream (upsert_stream st c).1.db ≡ find_stream channel stream c.db))
      ⊎ ((e : Error) × ((upsert_stream st c).0 ≡ err e) × ((upsert_stream st c).1.db ≡ c.db))
upsert_stream-effect st c channel stream other = elim (Result-cases (upsert_stream st c).0) [
  | inl (u, done) ↦
      let after = (upsert_stream-Ensures st c.db).at c refl u done in
      inl (
        done,
        rw after (find_put_self st c.db),
        rw after (find_put_other st c.db channel stream other),
      )
  | inr (e, refused) ↦ inr (e, refused, (upsert_stream-Atomic st).at c e refused)
]
