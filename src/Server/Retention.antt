-- ===== src/Server/Retention.antt =====
-- internal/server/lifecycle.go: which streams applyRetention leaves.
use live_transcript_server.Prelude.{
  String, ◌≡◌, refl, ap, ◌∙◌, inl, inr, Bool, true, false, Option, none, some, List, [], ◌∷◌, ℤ,
  pos, lt_ℤ, succ64, leb, length, Bool-cases, ◌==◌, eq_refl, if◌then◌else◌,
}
use live_transcript_server.Model.{Stream}
use live_transcript_server.Store.Sql.{Db, Conn, Result, ok, err}
use live_transcript_server.Store.Transcripts.{transcript_of}
use live_transcript_server.Store.Streams.{find_stream, get_all_streams, delete_stream_cascade}
use live_transcript_server.Store.Outcome.{query-same}
use live_transcript_server.Store.Cascade.{delete_stream_cascade-others}
use live_transcript_server.Storage.Keys.{stream_prefix}
use live_transcript_server.Server.App.{Config, App, Act, give, store, delete_stream_storage_async}
use live_transcript_server.Server.Lifecycle.{
  keep_local, keep_present, delete_media, drop_missing, retain, apply_retention,
}

module _ (cfg : Config) (active : String) where
  -- The active stream has the row and the transcript that it had.
  pub record Same (db db' : Db) : Type 0 where
    pub row : find_stream cfg.key active db' ≡ find_stream cfg.key active db
    pub lines : transcript_of cfg.key active db' ≡ transcript_of cfg.key active db

  pub Same-refl : {db : Db} → Same db db
  Same-refl = record { row = refl; lines = refl }

  pub Same-trans : {a b c : Db} → Same a b → Same b c → Same a c
  Same-trans h k = record { row = k.row ∙ h.row; lines = k.lines ∙ h.lines }

  Same-if :
      (b : Bool) (m n : Act (Unit {0})) (app : App)
      → Same app.conn.db (m app).1.conn.db
      → Same app.conn.db (n app).1.conn.db
      → Same app.conn.db ((if b then m else n) app).1.conn.db
  Same-if true m n app h k = h
  Same-if false m n app h k = k

  module _ (stream : String) (other : (stream == active) ≡ false) where
    cascade-Same : (c : Conn) → Same c.db (delete_stream_cascade cfg.key stream c).1.db
    cascade-Same c =
        let (row, lines) =
          delete_stream_cascade-others cfg.key stream c cfg.key active
            (rw (eq_refl cfg.key) other) in
        record { row = row; lines = lines }

    delete_media-Same :
        (r : Result (Unit {0})) (app : App)
        → Same app.conn.db (delete_media cfg stream r app).1.conn.db
    unfolding delete_stream_storage_async
    delete_media-Same (ok u) app = Same-refl
    delete_media-Same (err e) app = Same-refl

    drop_missing-Same :
        (o : Option Bool) (app : App) → Same app.conn.db (drop_missing cfg stream o app).1.conn.db
    drop_missing-Same none app = Same-refl
    drop_missing-Same (some true) app = Same-refl
    drop_missing-Same (some false) app = cascade-Same app.conn

  keep_local-Same :
      (kept : ℤ) (streams : List Stream) (app : App)
      → Same app.conn.db (keep_local cfg active kept streams app).1.conn.db
  unfolding keep_local
  keep_local-Same kept [] app = Same-refl
  keep_local-Same kept (s ∷ rest) app = elim (Bool-cases (s.stream_id == active)) [
    | inl e ↦ rw e (keep_local-Same kept rest app)
    | inr e ↦ elim (Bool-cases (lt_ℤ kept cfg.num_past_streams)) [
      | inl k ↦ rw (e, k) (keep_local-Same (succ64 kept) rest app)
      | inr k ↦
          rw (e, k)
            (Same-trans (cascade-Same s.stream_id e app.conn) (
              Same-trans
                (delete_media-Same s.stream_id e
                  (delete_stream_cascade cfg.key s.stream_id app.conn).0
                  (store (delete_stream_cascade cfg.key s.stream_id) app).1)
                (keep_local-Same kept rest _)))
    ]
  ]

  keep_present-Same :
      (streams : List Stream) (app : App)
      → Same app.conn.db (keep_present cfg active streams app).1.conn.db
  unfolding keep_present
  keep_present-Same [] app = Same-refl
  keep_present-Same (s ∷ rest) app = elim (Bool-cases (s.stream_id == active)) [
    | inl e ↦ rw e (keep_present-Same rest app)
    | inr e ↦ rw e (
        Same-trans
          (drop_missing-Same s.stream_id e (cfg.probe (stream_prefix cfg.key s.stream_id)) app)
          (keep_present-Same rest _))
  ]

  retain-Same :
      (r : Result (List Stream)) (app : App) → Same app.conn.db (retain cfg active r app).1.conn.db
  retain-Same (err e) app = Same-refl
  retain-Same (ok streams) app =
      Same-if cfg.is_local (keep_local cfg active (pos 0) streams)
        (if leb (length streams) 1 then give tt else keep_present cfg active streams) app
        (keep_local-Same (pos 0) streams app)
        (Same-if (leb (length streams) 1) (give tt) (keep_present cfg active streams) app Same-refl
          (keep_present-Same streams app))

  -- Whatever statements fail, whatever the storage answers, and whichever storage it is:
  -- applyRetention leaves the row and the transcript of the active stream as they were.
  pub apply_retention-keeps_active :
      (app : App)
      → (find_stream cfg.key active (apply_retention cfg active app).1.conn.db
          ≡ find_stream cfg.key active app.conn.db)
        × (transcript_of cfg.key active (apply_retention cfg active app).1.conn.db
            ≡ transcript_of cfg.key active app.conn.db)
  unfolding apply_retention get_all_streams
  apply_retention-keeps_active app =
      let read : Same app.conn.db (get_all_streams cfg.key app.conn).1.db = record {
        row = ap (find_stream cfg.key active) (query-same _ app.conn);
        lines = ap (transcript_of cfg.key active) (query-same _ app.conn);
      } in
      let h = Same-trans read (
        retain-Same (get_all_streams cfg.key app.conn).0 (store (get_all_streams cfg.key) app).1) in
      (h.row, h.lines)
