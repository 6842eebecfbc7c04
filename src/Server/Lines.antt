-- ===== src/Server/Lines.antt =====
-- internal/server/handlers_worker.go: what an answer to a posted line or media file means.
use live_transcript_server.Prelude.{
  ℕ, String, ◌≡◌, ◌≢◌, refl, ap, ◌∙◌, ◌⊎◌, inl, inr, false, some, [], ◌∷◌, ◌++◌, ℤ, ◌<ℤ◌, max64,
  Bool-cases, arith,
}
use live_transcript_server.Model.{Line}
use live_transcript_server.Store.Sql.{
  err, Error, not_found, out_of_sync, no_update, failed, constraint,
}
use live_transcript_server.Store.Transcripts.{transcript_of, last_row, last_id, insert_next_line}
use live_transcript_server.Store.Outcome.{Result-cases}
use live_transcript_server.Store.Append.{
  insert_next_line-Ensures, insert_next_line-Atomic, next-past-All, transcript_of-append,
}
use live_transcript_server.Ws.Hub.{broadcast}
use live_transcript_server.Ws.Events.{new_line}
use live_transcript_server.Server.Ids.{is_valid_id}
use live_transcript_server.Server.App.{Config, App, store}
use live_transcript_server.Server.Lifecycle.{broadcast_new_line}
use live_transcript_server.Server.Worker.{
  Response, status, line_handler, line_stored, without_media,
}

code : Response → ℕ
code (status n) = n
code r = 0

pub status-ne : (n : ℕ) → n ≢ 200 → status n ≢ status 200
unfolding code
status-ne n other h = other (ap code h)

module _ (cfg : Config) (stream : String) (upload : ℤ) (line : Line) where
  -- The line is the transcript's last, and the clients are sent it.
  pub record IsPosted (app app' : App) : Type 0 where
    pub lines :
        transcript_of cfg.key stream app'.conn.db
        ≡ transcript_of cfg.key stream app.conn.db ++ record line { media_available = false } ∷ []
    pub told :
        app'.hub
        ≡ broadcast
            (new_line (record {
              line_id = line.id;
              timestamp = line.timestamp;
              upload_time = upload;
              media_available = false;
              segments = line.segments;
              vod_accurate = line.vod_accurate;
            }))
            app.hub

  pub record IsRefused (app app' : App) : Type 0 where
    pub tables : app'.conn.db ≡ app.conn.db
    pub told : app'.hub ≡ app.hub

  line_stored-err :
      (e : Error) (app : App)
      → ((line_stored cfg stream upload (without_media line) (err e) app).0 ≢ status 200)
        × ((line_stored cfg stream upload (without_media line) (err e) app).1 ≡ app)
  line_stored-err not_found app = (status-ne 500 (λ h. omega arith), refl)
  line_stored-err out_of_sync app = (status-ne 409 (λ h. omega arith), refl)
  line_stored-err no_update app = (status-ne 500 (λ h. omega arith), refl)
  line_stored-err failed app = (status-ne 500 (λ h. omega arith), refl)
  line_stored-err constraint app = (status-ne 500 (λ h. omega arith), refl)

  -- Whatever statements fail, a posted line whose body decodes is answered with 200, and then the
  -- transcript is the old one with the line, marked as without media, at its end, and the clients
  -- are sent it once; or with another status, and then no table has changed and no client is sent
  -- anything. The last line's ID is below the greatest int.
  pub line_handler-effect :
      (app : App)
      → last_id (last_row cfg.key stream app.conn.db) <ℤ max64
      → (((line_handler cfg stream upload (some line) app).0 ≡ status 200)
          × IsPosted app (line_handler cfg stream upload (some line) app).1)
        ⊎ (((line_handler cfg stream upload (some line) app).0 ≢ status 200)
            × IsRefused app (line_handler cfg stream upload (some line) app).1)
  unfolding line_handler broadcast_new_line
  line_handler-effect app room = elim (Bool-cases (is_valid_id stream)) [
    | inr bad ↦
        inr (
          rw bad (status-ne 400 (λ h. omega arith)),
          rw bad (record { tables = refl; told = refl }),
        )
    | inl good ↦
        elim (Result-cases (insert_next_line cfg.key stream (without_media line) app.conn).0) [
          | inl (u, done) ↦
              let (next, after) =
                (insert_next_line-Ensures cfg.key stream (without_media line) app.conn.db).at
                  app.conn refl u done in
              inl (
                rw (good, done) refl,
                rw (good, done)
                    (record {
                      lines = rw after (
                          transcript_of-append cfg.key stream (without_media line) app.conn.db
                            (next-past-All cfg.key stream line.id app.conn.db room next));
                      told = refl;
                    }),
              )
          | inr (e, refused) ↦
              let (other, same) =
                line_stored-err e
                  (store (insert_next_line cfg.key stream (without_media line)) app).1 in
              inr (
                rw (good, refused) other,
                rw (good, refused)
                    (record {
                      tables =
                          ap (λ a. a.conn.db) same
                          ∙ (insert_next_line-Atomic cfg.key stream (without_media line)).at
                              app.conn e refused;
                      told = ap (λ a. a.hub) same;
                    }),
              )
        ]
  ]
