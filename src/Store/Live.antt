-- ===== src/Store/Live.antt =====
-- SetStreamLive and GetRecentStream, internal/store/streams.go.
use live_transcript_server.Prelude.{
  String, ◌≡◌, ◌≢◌, subst, refl, inl, inr, Bool, true, false, some, List, [], ◌∷◌, head?, filter,
  any, any-All, head-update_where, sort_by-All, All, All-filter, All-filter_test, All-zip,
  Bool-cases, ◌==◌, eq_iff, arith,
}
use live_transcript_server.Model.{Stream}
use live_transcript_server.Store.Sql.{Db, Conn, ok}
use live_transcript_server.Store.Streams.{
  is_stream, find_stream, streams_of, newest_first, set_live, set_stream_live, get_recent_stream,
}
use live_transcript_server.Store.Outcome.{Ensures, Ensures-statement, statement-ok, query-same}

-- A stream that is there has the flag after SetStreamLive.
pub find-set_live :
    (channel stream : String) (live : Bool) (db : Db)
    → any (is_stream channel stream) db.streams ≡ true
    → (s : Stream) × (find_stream channel stream (set_live channel stream live db) ≡ some s)
      × (s.is_live ≡ live)
unfolding find_stream set_live
find-set_live channel stream live db h =
    let (old, before, after) =
      head-update_where (is_stream channel stream) (λ s. record s { is_live = live }) db.streams h
        (λ s. refl) in
    (record old { is_live = live }, after, refl)

pub set_stream_live-Ensures :
    (channel stream : String) (live : Bool) (db : Db)
    → Ensures
        (set_stream_live channel stream live)
        db
        (λ _ after. after ≡ set_live channel stream live db)
unfolding set_stream_live
set_stream_live-Ensures channel stream live db = Ensures-statement _ (λ _ h. refl)

true_ne : true ≢ false
true_ne e = cc

head-All {κ} :
    (P : Stream → Type κ) (xs : List Stream) (s : Stream) → All P xs → head? xs ≡ some s → P s
head-All P [] s h e = cc
head-All P (x ∷ xs) s h e = let k : x ≡ s = cc in subst P k h.0

-- The recent stream is a row of the channel.
pub newest_first-any :
    (channel : String) (db : Db) (s : Stream)
    → head? (newest_first channel db) ≡ some s
    → any (is_stream channel s.stream_id) db.streams ≡ true
unfolding newest_first streams_of filter
newest_first-any channel db s e =
    elim (Bool-cases (any (is_stream channel s.stream_id) db.streams)) [
      | inl k ↦ k
      | inr k ↦ absurd (
          true_ne (
            contradiction (
              head-All Wrong (newest_first channel db) s
                (sort_by-All _ Wrong (streams_of channel db) (
                  All-zip Wrong (streams_of channel db) (λ x here not_it. (here, not_it))
                    (All-filter_test (λ x. x.channel_id == channel) db.streams)
                    (All-filter _ (λ x. x.channel_id == channel) db.streams
                      (any-All (is_stream channel s.stream_id) db.streams k))))
                e)))
    ]
  where
    Wrong : Stream → Type 0
    Wrong x = ((x.channel_id == channel) ≡ true) × (is_stream channel s.stream_id x ≡ false)

    contradiction : Wrong s → true ≡ false
    contradiction h = ground (arith, eq_iff s.stream_id s.stream_id, h.0, h.1)

pub get_recent_stream-any :
    (channel : String) (c : Conn) (s : Stream)
    → (get_recent_stream channel c).0 ≡ ok (some s)
    → any (is_stream channel s.stream_id) c.db.streams ≡ true
unfolding get_recent_stream
get_recent_stream-any channel c s h =
    let (read, same) =
      statement-ok (λ db. (ok (head? (newest_first channel db)), db)) c (some s) h in
    newest_first-any channel c.db s (cc)

pub recent_same : (channel : String) (c : Conn) → (get_recent_stream channel c).1.db ≡ c.db
unfolding get_recent_stream
recent_same channel c = query-same _ c
