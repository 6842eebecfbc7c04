-- ===== src/Server/Pruning.antt =====
-- internal/server/maintenance.go: which streams pruneExpiredStreams leaves alone.
use live_transcript_server.Prelude.{
  String, ◌≡◌, ◌≢◌, refl, ap, sym, ◌∙◌, inl, inr, Bool, true, false, Option, none, some, List, [],
  ◌∷◌, ℤ, Bool-cases, ◌==◌, eq_iff, eq_refl,
}
use live_transcript_server.Model.{Stream}
use live_transcript_server.Store.Sql.{Db, Conn, Result, ok, err, query}
use live_transcript_server.Store.Transcripts.{transcript_of}
use live_transcript_server.Store.Streams.{find_stream, get_all_streams, get_past_streams}
use live_transcript_server.Store.Outcome.{query-same}
use live_transcript_server.Store.Cascade.{delete_stream_cascade-others}
use live_transcript_server.Storage.Keys.{raw_prefix}
use live_transcript_server.Server.App.{Config, App, store}
use live_transcript_server.Server.Lifecycle.{
  broadcast_past_streams, tell_past_but, tell_past, held_out,
}
use live_transcript_server.Server.Retention.{Same, Same-refl, Same-trans}
use live_transcript_server.Server.Maintenance.{
  is_young, prune_if_missing, prune_streams, tell_if, prune_listed, prune_expired_streams,
}

module _ (cfg : Config) (stream : String)
    (held : cfg.probe (raw_prefix cfg.key stream) ≢ some false) where
  -- The stream has its row and its transcript.
  abbrev Kept : App → App → Type 0
  Kept app app' = Same cfg stream app.conn.db app'.conn.db

  missing-other :
      (s : String) → cfg.probe (raw_prefix cfg.key s) ≡ some false → (s == stream) ≡ false
  missing-other s missing = elim (Bool-cases (s == stream)) [
    | inl e ↦
        absurd (
          held (ap (λ x. cfg.probe (raw_prefix cfg.key x)) (sym ((eq_iff s stream).0 e)) ∙ missing))
    | inr e ↦ e
  ]

  prune_if_missing-Kept :
      (s : String) (updates : Bool) (o : Option Bool) (app : App)
      → cfg.probe (raw_prefix cfg.key s) ≡ o
      → Kept app (prune_if_missing cfg s updates o app).1
  prune_if_missing-Kept s updates none app e = Same-refl cfg stream
  prune_if_missing-Kept s updates (some true) app e = Same-refl cfg stream
  prune_if_missing-Kept s updates (some false) app e =
      let (row, lines) =
        delete_stream_cascade-others cfg.key s app.conn cfg.key stream
          (rw (eq_refl cfg.key) (missing-other s e)) in
      record { row = row; lines = lines }

  prune_streams-Kept :
      (now_micro : ℤ) (streams : List Stream) (updates : Bool) (app : App)
      → Kept app (prune_streams cfg now_micro updates streams app).1
  unfolding prune_streams
  prune_streams-Kept now_micro [] updates app = Same-refl cfg stream
  prune_streams-Kept now_micro (s ∷ rest) updates app = elim (Bool-cases (is_young now_micro s)) [
    | inl e ↦ rw e (prune_streams-Kept now_micro rest updates app)
    | inr e ↦ rw e (
        Same-trans cfg stream (prune_if_missing-Kept s.stream_id updates _ app refl)
          (prune_streams-Kept now_micro rest _ _))
  ]

  tell_past-Kept : (r : Result (List Stream)) (app : App) → Kept app (tell_past cfg r app).1
  tell_past-Kept (err e) app = Same-refl cfg stream
  tell_past-Kept (ok streams) app = Same-refl cfg stream

  read-Kept : {A : Type 0} (f : Db → A) (c : Conn) → Same cfg stream c.db (query f c).1.db
  read-Kept f c = record {
    row = ap (find_stream cfg.key stream) (query-same f c);
    lines = ap (transcript_of cfg.key stream) (query-same f c);
  }

  tell_past_but-Kept : (r : Result (List Stream)) (app : App) → Kept app (tell_past_but cfg r app).1
  unfolding get_past_streams
  tell_past_but-Kept (err e) app = Same-refl cfg stream
  tell_past_but-Kept (ok streams) app = Same-trans cfg stream (read-Kept _ app.conn) (
      tell_past-Kept (get_past_streams cfg.key (held_out cfg streams) app.conn).0
        (store (get_past_streams cfg.key (held_out cfg streams)) app).1)

  tell_if-Kept : (updates : Bool) (app : App) → Kept app (tell_if cfg updates app).1
  unfolding broadcast_past_streams get_all_streams
  tell_if-Kept false app = Same-refl cfg stream
  tell_if-Kept true app = Same-trans cfg stream (read-Kept _ app.conn) (
      tell_past_but-Kept (get_all_streams cfg.key app.conn).0
        (store (get_all_streams cfg.key) app).1)

  prune_listed-Kept :
      (now_micro : ℤ) (r : Result (List Stream)) (app : App)
      → Kept app (prune_listed cfg now_micro r app).1
  prune_listed-Kept now_micro (err e) app = Same-refl cfg stream
  prune_listed-Kept now_micro (ok streams) app =
      Same-trans cfg stream (prune_streams-Kept now_micro streams false app) (
        tell_if-Kept (prune_streams cfg now_micro false streams app).0
          (prune_streams cfg now_micro false streams app).1)

  -- If the storage does not answer that the stream's raw folder is missing: pruneExpiredStreams
  -- leaves the row and the transcript of the stream as they were, whatever its age, whatever the
  -- storage answers for the other streams and whatever statements fail.
  pub prune_expired_streams-keeps_held :
      (now_micro : ℤ) (app : App)
      → (find_stream cfg.key stream (prune_expired_streams cfg now_micro app).1.conn.db
          ≡ find_stream cfg.key stream app.conn.db)
        × (transcript_of cfg.key stream (prune_expired_streams cfg now_micro app).1.conn.db
            ≡ transcript_of cfg.key stream app.conn.db)
  unfolding prune_expired_streams get_all_streams
  prune_expired_streams-keeps_held now_micro app =
      let h = Same-trans cfg stream (read-Kept _ app.conn) (
        prune_listed-Kept now_micro (get_all_streams cfg.key app.conn).0
          (store (get_all_streams cfg.key) app).1) in
      (h.row, h.lines)
