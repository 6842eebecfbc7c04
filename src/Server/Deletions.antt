-- ===== src/Server/Deletions.antt =====
-- internal/server/handlers_admin.go: what the deletion of a stream by an admin does.
use live_transcript_server.Prelude.{
  ℕ, ◌≡◌, refl, ap, sym, ◌∙◌, ◌⊎◌, inl, inr, String, Bool, true, false, Option, none, some, [], ◌∷◌,
  ◌++◌, eqb, Bool-cases, if◌then◌else◌,
}
use live_transcript_server.Model.{Stream}
use live_transcript_server.Store.Sql.{Conn, Result, ok, err, Error}
use live_transcript_server.Store.Streams.{find_stream, get_stream_by_id, delete_stream_cascade}
use live_transcript_server.Store.Outcome.{statement-cases}
use live_transcript_server.Server.Ids.{is_valid_id}
use live_transcript_server.Server.App.{
  Config, App, Reply, answered, give, forget, delete_stream_storage_async, bump_admin_change,
}
use live_transcript_server.Server.Lifecycle.{remove_stream, removed}
use live_transcript_server.Server.Removal.{IsRemoved, remove_stream-effect}
use live_transcript_server.Server.Admin.{delete_ended, delete_found, delete_admin_stream_handler}
use live_transcript_server.Server.Announced.{IsUnseen}

module _ (cfg : Config) (stream : String) (media : Bool) where
  -- The stream had a row that was not live, and has been removed.
  pub record IsDeleted (st : Stream) (app app' : App) : Type 0 where
    pub row : find_stream cfg.key stream app.conn.db ≡ some st
    pub ended : st.is_live ≡ false
    pub removed : IsRemoved cfg st media app app'
    pub noted : app'.audits ≡ app.audits ++ "Deleted stream" ∷ []

  abbrev pub Outcome : App → Reply (Unit {0}) × App → Type 0
  Outcome app r =
      ((r.0 ≡ answered 204) × ((st : Stream) × IsDeleted st app r.1))
      ⊎ ((code : ℕ) × (r.0 ≡ answered code) × (eqb code 204 ≡ false) × IsUnseen app r.1)

  refused :
      (code : ℕ) (app app' : App)
      → eqb code 204 ≡ false
      → app'.conn.db ≡ app.conn.db
      → app' ≡ record app { conn = app'.conn }
      → Outcome app (answered code, app')
  refused code app app' c t h = inr (code, refl, c, record { tables = t; rest = h })

  removed-err :
      (st : Stream) (app : App) (r : Result (Unit {0})) (e : Error)
      → (removed cfg st media r app).0 ≡ err e
      → (removed cfg st media r app).1 ≡ app
  removed-err st app (ok u) e h = cc
  removed-err st app (err x) e h = refl

  removed-audits :
      (st : Stream) (app : App) (r : Result (Unit {0}))
      → (removed cfg st media r app).1.audits ≡ app.audits
  unfolding forget delete_stream_storage_async
  removed-audits st app (ok u) = go media
    where
      go : (m : Bool) → (removed cfg st m (ok u) app).1.audits ≡ app.audits
      go true = refl
      go false = refl
  removed-audits st app (err x) = refl

  remove_stream-audits :
      (st : Stream) (app : App) → (remove_stream cfg st media app).1.audits ≡ app.audits
  unfolding remove_stream
  remove_stream-audits st app = removed-audits st _ _

  remove_stream-err :
      (st : Stream) (app : App) (e : Error)
      → (remove_stream cfg st media app).0 ≡ err e
      → (remove_stream cfg st media app).1
        ≡ record app { conn = (remove_stream cfg st media app).1.conn }
  unfolding remove_stream
  remove_stream-err st app e h =
      let c : Conn = (delete_stream_cascade cfg.key st.stream_id app.conn).1 in
      let same =
        removed-err st (record app { conn = c })
          (delete_stream_cascade cfg.key st.stream_id app.conn).0 e h in
      same ∙ ap (λ a. record app { conn = a.conn }) (sym same)

  ended-Outcome :
      (st : Stream) (app : App)
      → find_stream cfg.key stream app.conn.db ≡ some st
      → st.is_live ≡ false
      → Outcome app (delete_ended cfg media st app)
  unfolding bump_admin_change
  ended-Outcome st app f e = elim (remove_stream-effect cfg st media app) [
    | inl (done, gone) ↦ rw done (
        inl (
          refl,
          (
            st,
            record {
              row = f;
              ended = e;
              removed = record {
                row = gone.row;
                lines = gone.lines;
                told = gone.told;
                forgotten = gone.forgotten;
                deleting = gone.deleting;
              };
              noted = ap (λ a. a ++ "Deleted stream" ∷ []) (remove_stream-audits st app);
            },
          ),
        ))
    | inr (x, said, same) ↦
        rw said (refused 500 app _ refl same.tables (remove_stream-err st app x said))
  ]

  found-Outcome :
      (o : Option Stream) (app : App)
      → find_stream cfg.key stream app.conn.db ≡ o
      → Outcome app (delete_found cfg media o app)
  found-Outcome none app f = refused 404 app app refl refl refl
  found-Outcome (some st) app f = go st.is_live refl
    where
      go :
          (live : Bool)
          → st.is_live ≡ live
          → Outcome app ((if live then give (answered 409) else delete_ended cfg media st) app)
      go true e = refused 409 app app refl refl refl
      go false e = ended-Outcome st app f e

  -- A read before the rest changes no table.
  moved :
      (app : App) (c : Conn) (r : Reply (Unit {0}) × App)
      → c.db ≡ app.conn.db
      → Outcome (record app { conn = c }) r
      → Outcome app r
  moved app c r same (inl (a, (st, d))) = inl (
    a,
    (
      st,
      record {
        row = rw same at d.row;
        ended = d.ended;
        removed = record {
          row = d.removed.row;
          lines = d.removed.lines;
          told = d.removed.told;
          forgotten = d.removed.forgotten;
          deleting = d.removed.deleting;
        };
        noted = d.noted;
      },
    ),
  )
  moved app c r same (inr (code, a, n, v)) =
      inr (code, a, n, record { tables = v.tables ∙ same; rest = v.rest })

  -- Whatever statements fail, a request to delete a stream either is answered with 204: the stream
  -- had a row that was not live, it has been removed, with the deletion of its media started exactly
  -- if that was asked for, and the action is noted; or it is answered with another status, and no
  -- table, client, job, media file or counter has changed and no action is noted.
  pub delete_admin_stream_handler-effect :
      (app : App) → Outcome app (delete_admin_stream_handler cfg stream media app)
  unfolding delete_admin_stream_handler get_stream_by_id
  delete_admin_stream_handler-effect app = elim (Bool-cases (is_valid_id stream)) [
    | inr invalid ↦ rw invalid (refused 400 app app refl refl refl)
    | inl valid ↦
        rw valid (elim (statement-cases (λ db. (ok (find_stream cfg.key stream db), db)) app.conn) [
          | inl (r, same) ↦
              let c : Conn = (get_stream_by_id cfg.key stream app.conn).1 in
              moved app c _ same (
                rw r (
                  found-Outcome (find_stream cfg.key stream app.conn.db) (record app { conn = c })
                    (ap (find_stream cfg.key stream) same)))
          | inr (r, same) ↦ rw r (refused 500 app _ refl same refl)
        ])
  ]
