-- ===== src/Server/Activation.antt =====
-- internal/server/lifecycle.go: what activateStream leaves of its stream.
use live_transcript_server.Prelude.{
  String, ◌≡◌, refl, ap, ◌∙◌, inl, inr, Bool, true, false, Option, none, some, List, ℤ, any,
  Bool-cases, ◌==◌, eq_iff, if◌then◌else◌,
}
use live_transcript_server.Model.{Stream}
use live_transcript_server.Store.Sql.{Db, Conn, Result, ok, err}
use live_transcript_server.Store.Streams.{
  is_stream, find_stream, get_recent_stream, get_past_streams, upsert_stream, set_stream_live,
}
use live_transcript_server.Store.Outcome.{query-same}
use live_transcript_server.Store.Upsert.{merged, find_put_self, upsert_stream-Ensures}
use live_transcript_server.Store.Live.{
  find-set_live, set_stream_live-Ensures, get_recent_stream-any, recent_same,
}
use live_transcript_server.Server.App.{
  Config, App, give, ◌>>=◌, store, bump_admin_change, notify_stream_start,
}
use live_transcript_server.Server.Lifecycle.{
  apply_retention, tell_past, announce_stream, new_row, announce_if, end_previous, start_stream,
  resumed, resume_stream, activate_after, activate_stream,
}
use live_transcript_server.Server.Retention.{apply_retention-keeps_active}

module _ (cfg : Config) where
  -- The stream is there and live.
  abbrev pub IsLive : String → Db → Type 0
  IsLive stream db = (s : Stream) × (find_stream cfg.key stream db ≡ some s) × (s.is_live ≡ true)

  merged_live : (st : Stream) (old : Option Stream) → (merged st old).is_live ≡ st.is_live
  merged_live st none = refl
  merged_live st (some old) = refl

  upsert-IsLive :
      (st : Stream) (c : Conn)
      → st.channel_id ≡ cfg.key
      → st.is_live ≡ true
      → (upsert_stream st c).0 ≡ ok tt
      → IsLive st.stream_id (upsert_stream st c).1.db
  upsert-IsLive st c own live done =
      let after = (upsert_stream-Ensures st c.db).at c refl tt done in
      (
        merged st (find_stream st.channel_id st.stream_id c.db),
        rw (after, ← own) (find_put_self st c.db),
        merged_live st _ ∙ live,
      )

  tell_past-same :
      (r : Result (List Stream)) (app : App)
      → ((tell_past cfg r app).1.conn ≡ app.conn)
        × ((tell_past cfg r app).1.admin_change_counter ≡ app.admin_change_counter)
        × ((tell_past cfg r app).1.notifier ≡ app.notifier)
  tell_past-same (err e) app = (refl, refl, refl)
  tell_past-same (ok streams) app = (refl, refl, refl)

  announce-IsLive :
      (st : Stream) (app : App)
      → IsLive st.stream_id app.conn.db
      → IsLive st.stream_id (announce_stream cfg st app).1.conn.db
  unfolding announce_stream bump_admin_change get_past_streams
  announce-IsLive st app (s, found, live) =
      let told : App =
        (notify_stream_start
          (record {
            stream_id = st.stream_id;
            stream_title = st.stream_title;
            start_time = st.start_time;
          })
          app).1 in
      let kept : App = (apply_retention cfg st.stream_id told).1 in
      let past = get_past_streams cfg.key st.stream_id kept.conn in
      (
        s,
        ap (λ c. find_stream cfg.key st.stream_id c.db)
              (tell_past-same past.0 (record kept { conn = past.1 })).0
            ∙ ap (find_stream cfg.key st.stream_id) (query-same _ kept.conn)
            ∙ (apply_retention-keeps_active cfg st.stream_id told).0
            ∙ found,
        live,
      )

  announce_if-IsLive :
      (st : Stream) (r : Result (Unit {0})) (app : App)
      → (r ≡ ok tt → IsLive st.stream_id app.conn.db)
      → (announce_if cfg st r app).0 ≡ true
      → IsLive st.stream_id (announce_if cfg st r app).1.conn.db
  announce_if-IsLive st (ok u) app live h = announce-IsLive st app (live refl)
  announce_if-IsLive st (err e) app live h = cc

  start-IsLive :
      (previous : Option Stream) (st : Stream) (app : App)
      → st.channel_id ≡ cfg.key
      → st.is_live ≡ true
      → (start_stream cfg previous st app).0 ≡ true
      → IsLive st.stream_id (start_stream cfg previous st app).1.conn.db
  unfolding start_stream
  start-IsLive previous st app own live h =
      let app1 : App = (end_previous cfg previous app).1 in
      announce_if-IsLive st (upsert_stream st app1.conn).0 (store (upsert_stream st) app1).1
        (upsert-IsLive st app1.conn own live) h

  resumed-IsLive :
      (st : Stream) (r : Result (Unit {0})) (app : App)
      → (r ≡ ok tt → IsLive st.stream_id app.conn.db)
      → (resumed cfg st r app).0 ≡ true
      → IsLive st.stream_id (resumed cfg st r app).1.conn.db
  unfolding bump_admin_change
  resumed-IsLive st (ok u) app live h = live refl
  resumed-IsLive st (err e) app live h = cc

  resume-IsLive :
      (st : Stream) (app : App)
      → any (is_stream cfg.key st.stream_id) app.conn.db.streams ≡ true
      → (resume_stream cfg st app).0 ≡ true
      → IsLive st.stream_id (resume_stream cfg st app).1.conn.db
  unfolding resume_stream
  resume-IsLive st app there = go st.is_live
    where
      go :
          (b : Bool)
          → ((if b then give false else (do
            stored ← store (set_stream_live cfg.key st.stream_id true)
            resumed cfg st stored))
              app).0
            ≡ true
          → IsLive st.stream_id
              ((if b then give false else (do
                stored ← store (set_stream_live cfg.key st.stream_id true)
                resumed cfg st stored))
                app).1.conn.db
      go true h = cc
      go false h =
          resumed-IsLive st (set_stream_live cfg.key st.stream_id true app.conn).0
            (store (set_stream_live cfg.key st.stream_id true) app).1
            (λ done.
              rw
                ((set_stream_live-Ensures cfg.key st.stream_id true app.conn.db).at app.conn refl tt
                  done)
                (find-set_live cfg.key st.stream_id true app.conn.db there))
            h

  activate_after-IsLive :
      (st : Stream) (r : Result (Option Stream)) (app : App)
      → st.channel_id ≡ cfg.key
      → st.is_live ≡ true
      → ((current : Stream)
          → r ≡ ok (some current)
          → any (is_stream cfg.key current.stream_id) app.conn.db.streams ≡ true)
      → (activate_after cfg st r app).0 ≡ true
      → IsLive st.stream_id (activate_after cfg st r app).1.conn.db
  activate_after-IsLive st (err e) app own live there h = cc
  activate_after-IsLive st (ok none) app own live there h = start-IsLive none st app own live h
  activate_after-IsLive st (ok (some current)) app own live there h =
      elim (Bool-cases (current.stream_id == st.stream_id)) [
        | inl e ↦
            rw (e, ← (eq_iff current.stream_id st.stream_id).0 e)
              (resume-IsLive current app (there current refl) (rw e at h))
        | inr e ↦ rw e (start-IsLive (some current) st app own live (rw e at h))
      ]

  -- Whatever statements fail: if activateStream answers true, then the channel has a row for the
  -- stream, also after the retention, and the row is live.
  pub activate_stream-live :
      (now : ℤ) (stream title start media : String) (app : App)
      → (activate_stream cfg now stream title start media app).0 ≡ true
      → (s : Stream) × (find_stream cfg.key stream
            (activate_stream cfg now stream title start media app).1.conn.db
          ≡ some s)
        × (s.is_live ≡ true)
  unfolding activate_stream
  activate_stream-live now stream title start media app =
      activate_after-IsLive (new_row cfg now stream title start media)
        (get_recent_stream cfg.key app.conn).0 (store (get_recent_stream cfg.key) app).1 refl refl
        (λ current read.
          rw (recent_same cfg.key app.conn) (get_recent_stream-any cfg.key app.conn current read))
