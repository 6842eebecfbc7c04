-- ===== src/Server/VodTargets.antt =====
-- internal/server/vod.go: which streams resolveVodTarget accepts.
use live_transcript_server.Prelude.{
  ℕ, ◌≡◌, refl, ap, ◌∙◌, ◌⊎◌, inl, inr, String, Bool, true, false, not, Option, none, some,
  if◌then◌else◌, arith,
}
use live_transcript_server.Model.{Stream}
use live_transcript_server.Store.Sql.{Result, ok, err, failed, Sql, query}
use live_transcript_server.Store.Streams.{find_stream, get_stream_by_id}
use live_transcript_server.Store.Transcripts.{count_media, count_transcript_media}
use live_transcript_server.Store.Outcome.{statement-cases, query-same}
use live_transcript_server.Server.Ids.{is_valid_id}
use live_transcript_server.Server.App.{Config, App, store, give, ◌>>=◌}
use live_transcript_server.Server.Vod.{
  VodTarget, refused, target, vod_format, resolve_vod_target, with_format, with_counts, with_row,
}

module _ (cfg : Config) (stream : String) where
  -- A stream that can have a VOD, as the tables have it.
  pub record IsTarget (t : VodTarget) (app app' : App) : Type 0 where
    pub row : find_stream cfg.key stream app.conn.db ≡ some t.stream
    pub ended : t.stream.is_live ≡ false
    pub media : vod_format t.stream ≡ some t.format
    pub tables : app'.conn.db ≡ app.conn.db
    pub registry : app'.vods ≡ app.vods

  counts-target :
      (t : VodTarget) (st : Stream) (format : String) (r : Result (ℕ × ℕ)) (app : App)
      → (with_counts cfg st format r app).0 ≡ target t
      → (t.stream ≡ st) × (t.format ≡ format) × ((with_counts cfg st format r app).1 ≡ app)
  counts-target t st format (ok counts) app h = (ground arith, ground arith, refl)
  counts-target t st format (err e) app h = cc

  module _ (t : VodTarget) (app0 : App) where
    format-IsTarget :
        (st : Stream) (app : App)
        → find_stream cfg.key stream app0.conn.db ≡ some st
        → st.is_live ≡ false
        → app.conn.db ≡ app0.conn.db
        → app.vods ≡ app0.vods
        → (f : Option String) → vod_format st ≡ f
        → (with_format cfg stream st f app).0 ≡ target t
        → IsTarget t app0 (with_format cfg stream st f app).1
    unfolding count_transcript_media
    format-IsTarget st app row ended same vods none fm h = cc
    format-IsTarget st app row ended same vods (some format) fm h =
        let (s, f, a) = counts-target t st format _ _ h in
        record {
          row = rw s row;
          ended = rw s ended;
          media = rw (s, f) fm;
          tables = ap (λ a. a.conn.db) a ∙ query-same (count_media cfg.key stream) app.conn ∙ same;
          registry = ap (λ a. a.vods) a ∙ vods;
        }

    live-IsTarget :
        (st : Stream) (app : App)
        → find_stream cfg.key stream app0.conn.db ≡ some st
        → app.conn.db ≡ app0.conn.db
        → app.vods ≡ app0.vods
        → (live : Bool) → st.is_live ≡ live
        → ((if live then give (refused 409) else with_format cfg stream st (vod_format st)) app).0
          ≡ target t
        → IsTarget t app0
            ((if live then give (refused 409) else with_format cfg stream st (vod_format st)) app).1
    live-IsTarget st app row same vods true e h = cc
    live-IsTarget st app row same vods false e h =
        format-IsTarget st app row e same vods (vod_format st) refl h

    row-IsTarget :
        (r : Result (Option Stream)) (app : App)
        → (r ≡ ok (find_stream cfg.key stream app0.conn.db)) ⊎ (r ≡ err failed)
        → app.conn.db ≡ app0.conn.db
        → app.vods ≡ app0.vods
        → (with_row cfg stream r app).0 ≡ target t
        → IsTarget t app0 (with_row cfg stream r app).1
    row-IsTarget (err e) app c same vods h = cc
    row-IsTarget (ok none) app c same vods h = cc
    row-IsTarget (ok (some st)) app c same vods h =
        live-IsTarget st app (ground arith) same vods st.is_live refl h

    pub resolve_vod_target-IsTarget :
        (resolve_vod_target cfg stream app0).0 ≡ target t
        → IsTarget t app0 (resolve_vod_target cfg stream app0).1
    unfolding resolve_vod_target get_stream_by_id
    resolve_vod_target-IsTarget h = go (is_valid_id stream) h
      where
        q : Sql (Option Stream)
        q = query (find_stream cfg.key stream)

        cases :
            ((q app0.conn).0 ≡ ok (find_stream cfg.key stream app0.conn.db))
            ⊎ ((q app0.conn).0 ≡ err failed)
        cases = elim (statement-cases (λ db. (ok (find_stream cfg.key stream db), db)) app0.conn) [
          | inl (r, same) ↦ inl r
          | inr (r, same) ↦ inr r
        ]

        go :
            (b : Bool)
            → ((if not b
                  then give (refused 400)
                  else (do found ← store q; with_row cfg stream found))
                app0).0
              ≡ target t
            → IsTarget t app0
                ((if not b
                    then give (refused 400)
                    else (do found ← store q; with_row cfg stream found))
                  app0).1
        go false h = cc
        go true h =
            row-IsTarget (q app0.conn).0 (store q app0).1 cases
              (query-same (find_stream cfg.key stream) app0.conn) refl h
