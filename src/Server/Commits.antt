-- ===== src/Server/Commits.antt =====
-- internal/server/handlers_worker.go: what a 200 of mediaHandler means.
use live_transcript_server.Prelude.{
  ℕ, String, ◌≡◌, ◌≢◌, refl, ap, sym, ◌∙◌, inl, inr, Bool, true, false, not, ◌&&◌, some, List, [],
  ◌∷◌, ℤ, pos, eq_ℤ, length, filter, any, update_where, Bool-cases, ◌==◌, eq_refl, eqb,
  if◌then◌else◌, arith,
}
use live_transcript_server.Store.Sql.{
  Db, Conn, Result, ok, err, Error, not_found, out_of_sync, no_update, failed, constraint,
}
use live_transcript_server.Store.Streams.{stream_exists, get_stream_by_id}
use live_transcript_server.Store.Transcripts.{
  transcript_of, set_media_available, get_last_available_media_files,
}
use live_transcript_server.Store.Outcome.{query-same}
use live_transcript_server.Store.Media.{set_media_available-effect}
use live_transcript_server.Server.Ids.{is_valid_id}
use live_transcript_server.Server.App.{Config, App, Act, give, store}
use live_transcript_server.Server.Lifecycle.{broadcast_new_media}
use live_transcript_server.Server.Worker.{Response, status}
use live_transcript_server.Server.Lines.{status-ne}
use live_transcript_server.Server.Upload.{
  Upload, tell_files, committed, retried, commit_media, with_stream, accept_media, media_for,
  media_handler,
}

-- What a change of some entries makes of them.
any-update_where :
    {A : Type 0} (p q : A → Bool) (f : A → A) (xs : List A)
    → ((x : A) → p (f x) ≡ p x)
    → ((x : A) → q (f x) ≡ true)
    → eqb (length (filter p xs)) 0 ≡ false
    → any (λ x. p x && q x) (update_where p f xs) ≡ true
unfolding filter update_where
any-update_where p q f [] same now some_there = cc
any-update_where p q f (x ∷ xs) same now some_there = elim (Bool-cases (p x)) [
  | inl e ↦ rw (e, same x, e, now x) refl
  | inr e ↦ rw (e, e) (any-update_where p q f xs same now (rw e at some_there))
]

-- The transcript has a line with the ID, whose media is available under the file ID.
abbrev pub IsHeld : String → String → ℤ → String → Db → Type 0
IsHeld channel stream id file db =
    any (λ l. eq_ℤ l.id id && (l.media_available && (l.file_id == file)))
      (transcript_of channel stream db)
    ≡ true

err-ne : (e : Error) (r : Result (Unit {0})) → r ≡ err e → r ≢ ok tt
err-ne e r h k = cc

answered_ok :
    (b : Bool) (r : Result (Unit {0}))
    → r ≡ (if b then err not_found else ok tt)
    → r ≡ ok tt
    → b ≡ false
answered_ok true r e h = absurd (err-ne not_found r e h)
answered_ok false r e h = refl

set_media_available-IsHeld :
    (channel stream : String) (id : ℤ) (file : String) (c : Conn)
    → (set_media_available channel stream id file true c).0 ≡ ok tt
    → IsHeld channel stream id file (set_media_available channel stream id file true c).1.db
set_media_available-IsHeld channel stream id file c done =
    elim (set_media_available-effect channel stream id file true c) [
      | inl (r, t) ↦ rw t (
          any-update_where _ _ _ (transcript_of channel stream c.db) (λ l. refl) (λ l. eq_refl file)
            (answered_ok _ _ r done))
      | inr (r, t) ↦ absurd (err-ne failed _ r done)
    ]

module _ (cfg : Config) (stream : String) (up : Upload) (id : ℤ) where
  abbrev Held : App → Type 0
  Held app = IsHeld cfg.key stream id up.file_id app.conn.db

  -- What a step of the handler that answers 200 leaves.
  record Commits (m : Act Response) : Type 0 where
    at : (app : App) → (m app).0 ≡ status 200 → Held (m app).1

  Commits-give : (n : ℕ) → n ≢ 200 → Commits (give (status n))
  Commits-give n other = record { at = λ app h. absurd (status-ne n other h) }

  Commits-if :
      (b : Bool) (m n : Act Response) → Commits m → Commits n → Commits (if b then m else n)
  Commits-if true m n p q = p
  Commits-if false m n p q = q

  tell_files-Held :
      (r : Result (List (ℤ × String))) (app : App)
      → Held app
      → Held (tell_files cfg stream up id r app).1
  unfolding broadcast_new_media
  tell_files-Held (ok files) app h = h
  tell_files-Held (err e) app h = h

  committed-Held :
      (r : Result (Unit {0})) (app : App)
      → (r ≡ ok tt → Held app)
      → (committed cfg stream up id r app).0 ≡ status 200
      → Held (committed cfg stream up id r app).1
  unfolding get_last_available_media_files
  committed-Held (err e) app h done = absurd (status-ne 500 (λ k. omega arith) done)
  committed-Held (ok u) app h done =
      tell_files-Held (get_last_available_media_files cfg.key stream (pos 100) app.conn).0
        (store (get_last_available_media_files cfg.key stream (pos 100)) app).1
        (rw (query-same _ app.conn) (h refl))

  retried-Held :
      (r : Result (Unit {0})) (app : App)
      → (r ≡ ok tt → Held app)
      → (retried cfg stream up id r app).0 ≡ status 200
      → Held (retried cfg stream up id r app).1
  retried-Held (ok u) app h = committed-Held (ok u) app h
  retried-Held (err not_found) app h =
      committed-Held (set_media_available cfg.key stream id up.file_id true app.conn).0
        (store (set_media_available cfg.key stream id up.file_id true) app).1
        (set_media_available-IsHeld cfg.key stream id up.file_id app.conn)
  retried-Held (err out_of_sync) app h = committed-Held (err out_of_sync) app h
  retried-Held (err no_update) app h = committed-Held (err no_update) app h
  retried-Held (err failed) app h = committed-Held (err failed) app h
  retried-Held (err constraint) app h = committed-Held (err constraint) app h

  commit_media-Commits : Commits (commit_media cfg stream up id)
  unfolding commit_media
  commit_media-Commits = record {
    at = λ app.
        let found : App = (store (get_stream_by_id cfg.key stream) app).1 in
        retried-Held (set_media_available cfg.key stream id up.file_id true found.conn).0
          (store (set_media_available cfg.key stream id up.file_id true) found).1
          (set_media_available-IsHeld cfg.key stream id up.file_id found.conn);
  }

  with_stream-Commits : (r : Result Bool) → Commits (with_stream cfg stream up id r)
  with_stream-Commits (err e) = Commits-give 500 (λ k. omega arith)
  with_stream-Commits (ok false) = Commits-give 404 (λ k. omega arith)
  with_stream-Commits (ok true) =
      Commits-if (not (up.created && up.copied)) _ _ (Commits-give 500 (λ k. omega arith)) (
        Commits-if (not up.converted) _ _ (Commits-give 500 (λ k. omega arith)) (
          Commits-if (not (up.raw_saved && up.audio_saved)) _ _
            (Commits-give 500 (λ k. omega arith)) commit_media-Commits))

  accept_media-Commits : Commits (accept_media cfg stream up id)
  unfolding accept_media
  accept_media-Commits =
      Commits-if (not (up.form && up.file)) _ _ (Commits-give 400 (λ k. omega arith)) (
        Commits-if (not (is_valid_id stream)) _ _ (Commits-give 400 (λ k. omega arith)) (record {
          at = λ app.
              (with_stream-Commits (stream_exists cfg.key stream app.conn).0).at
                (store (stream_exists cfg.key stream) app).1;
        }))

-- Whatever statements fail, and whatever conversion and storage answer: if mediaHandler answers 200
-- to an upload for a line ID, then the stream's transcript has a line with that ID whose media is
-- available under the file ID that was given to it.
pub media_handler-IsHeld :
    (cfg : Config) (stream : String) (up : Upload) (id : ℤ) (app : App)
    → up.id ≡ some id
    → (media_handler cfg stream up app).0 ≡ status 200
    → IsHeld cfg.key stream id up.file_id (media_handler cfg stream up app).1.conn.db
unfolding media_handler
media_handler-IsHeld cfg stream up id app for_id done =
    rw (ap (λ o. media_for cfg stream up o app) for_id) (
      (accept_media-Commits cfg stream up id).at app
        (sym (ap (λ o. (media_for cfg stream up o app).0) for_id) ∙ done))
