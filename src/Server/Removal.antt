-- ===== src/Server/Removal.antt =====
-- internal/server/lifecycle.go: what removeStream does.
use live_transcript_server.Prelude.{
  ◌≡◌, refl, ◌⊎◌, inl, inr, Bool, true, false, none, [], ◌∷◌, ◌++◌, if◌then◌else◌,
}
use live_transcript_server.Model.{Stream}
use live_transcript_server.Store.Sql.{Db, ok, err, Error}
use live_transcript_server.Store.Transcripts.{transcript_of}
use live_transcript_server.Store.Streams.{find_stream, delete_stream_cascade}
use live_transcript_server.Store.Outcome.{Result-cases}
use live_transcript_server.Store.Cascade.{
  cascaded_gone, delete_stream_cascade-Ensures, delete_stream_cascade-Atomic,
}
use live_transcript_server.Storage.Keys.{stream_prefix}
use live_transcript_server.Ws.Hub.{broadcast}
use live_transcript_server.Ws.Events.{Message, deleted_stream}
use live_transcript_server.Server.Vods.{forget_job, vod_job_key}
use live_transcript_server.Server.App.{Config, App, store, delete_stream_storage_async, forget}
use live_transcript_server.Server.Lifecycle.{removed, remove_stream}

module _ (cfg : Config) (st : Stream) (media : Bool) where
  -- The message that tells the clients.
  abbrev pub goodbye : Message
  goodbye =
      deleted_stream
        (record { stream_id = st.stream_id; stream_title = st.stream_title; was_live = st.is_live })

  -- The stream is gone, is told to be, and its media is deleted if that was asked for.
  pub record IsRemoved (app app' : App) : Type 0 where
    pub row : find_stream cfg.key st.stream_id app'.conn.db ≡ none
    pub lines : transcript_of cfg.key st.stream_id app'.conn.db ≡ []
    pub told : app'.hub ≡ broadcast goodbye app.hub
    pub forgotten : app'.vods ≡ forget_job (vod_job_key cfg.key st.stream_id) app.vods
    pub deleting : app'.deletions ≡ (
        if media then app.deletions ++ stream_prefix cfg.key st.stream_id ∷ [] else app.deletions)

  -- Nothing has been done but the attempt.
  pub record IsUntouched (app app' : App) : Type 0 where
    pub tables : app'.conn.db ≡ app.conn.db
    pub told : app'.hub ≡ app.hub
    pub forgotten : app'.vods ≡ app.vods
    pub deleting : app'.deletions ≡ app.deletions

module _ (cfg : Config) (st : Stream) where
  removed-ok :
      (media : Bool) (db : Db) (app : App)
      → find_stream cfg.key st.stream_id app.conn.db ≡ none
      → transcript_of cfg.key st.stream_id app.conn.db ≡ []
      → ((removed cfg st media (ok tt) app).0 ≡ ok tt)
        × IsRemoved cfg st media
            (record app { conn = record app.conn { db = db } })
            (removed cfg st media (ok tt) app).1
  unfolding forget delete_stream_storage_async
  removed-ok true db app gone empty =
      (refl, record { row = gone; lines = empty; told = refl; forgotten = refl; deleting = refl })
  removed-ok false db app gone empty =
      (refl, record { row = gone; lines = empty; told = refl; forgotten = refl; deleting = refl })

pub remove_stream-effect :
    (cfg : Config) (st : Stream) (media : Bool) (app : App)
    → (((remove_stream cfg st media app).0 ≡ ok tt)
        × IsRemoved cfg st media app (remove_stream cfg st media app).1)
      ⊎ ((e : Error) × ((remove_stream cfg st media app).0 ≡ err e)
          × IsUntouched cfg st media app (remove_stream cfg st media app).1)
unfolding remove_stream forget delete_stream_storage_async
remove_stream-effect cfg st media app =
    elim (Result-cases (delete_stream_cascade cfg.key st.stream_id app.conn).0) [
      | inl (u, done) ↦
          let after =
            (delete_stream_cascade-Ensures cfg.key st.stream_id app.conn.db).at app.conn refl u
              done in
          let (row, lines) = cascaded_gone cfg.key st.stream_id app.conn.db in
          let (fine, all) =
            removed-ok cfg st media app.conn.db
              (store (delete_stream_cascade cfg.key st.stream_id) app).1 (rw after row)
              (rw after lines) in
          inl (
            rw done (
              fine,
              record {
                row = all.row;
                lines = all.lines;
                told = all.told;
                forgotten = all.forgotten;
                deleting = all.deleting;
              },
            ))
      | inr (e, refused) ↦ inr (
        e,
        rw refused refl,
        rw refused (record {
          tables = (delete_stream_cascade-Atomic cfg.key st.stream_id).at app.conn e refused;
          told = refl;
          forgotten = refl;
          deleting = refl;
        }),
      )
    ]
