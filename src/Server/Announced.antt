-- ===== src/Server/Announced.antt =====
-- internal/server/handlers_admin.go: what announceStreamEdit does.
use live_transcript_server.Prelude.{◌≡◌, refl, ap, ◌∙◌, List}
use live_transcript_server.Model.{Stream}
use live_transcript_server.Store.Sql.{Result, ok, err}
use live_transcript_server.Store.Streams.{get_all_streams, get_past_streams}
use live_transcript_server.Store.Outcome.{query-same}
use live_transcript_server.Ws.Hub.{Hub, broadcast}
use live_transcript_server.Ws.Events.{Message, past_streams}
use live_transcript_server.Server.App.{Config, App, store}
use live_transcript_server.Server.Lifecycle.{
  broadcast_past_streams, tell_past, tell_past_but, held_out,
}
use live_transcript_server.Server.Edit.{edited_message, announce_stream_edit}

-- The clients are told the edit, and then, if the reads succeed, the past streams.
pub data IsTold (msg : Message) (before : Hub) : Hub → Type 0 where
  details : IsTold msg before (broadcast msg before)
  with_past :
      (ps : List Stream) → IsTold msg before (broadcast (past_streams ps) (broadcast msg before))

-- A request that is refused has changed no table, and nothing else but the connection.
pub record IsUnseen (app app' : App) : Type 0 where
  pub tables : app'.conn.db ≡ app.conn.db
  pub rest : app' ≡ record app { conn = app'.conn }

module _ (cfg : Config) where
  tell_past-IsTold :
      (msg : Message) (before : Hub) (r : Result (List Stream)) (app : App)
      → app.hub ≡ broadcast msg before
      → IsTold msg before (tell_past cfg r app).1.hub
  tell_past-IsTold msg before (err e) app h = rw h details
  tell_past-IsTold msg before (ok ps) app h = rw h (with_past ps)

  tell_past_but-IsTold :
      (msg : Message) (before : Hub) (r : Result (List Stream)) (app : App)
      → app.hub ≡ broadcast msg before
      → IsTold msg before (tell_past_but cfg r app).1.hub
  tell_past_but-IsTold msg before (err e) app h = rw h details
  tell_past_but-IsTold msg before (ok streams) app h =
      tell_past-IsTold msg before _ (store (get_past_streams cfg.key (held_out cfg streams)) app).1
        h

  pub announce-IsTold :
      (st : Stream) (app : App)
      → IsTold (edited_message st) app.hub (announce_stream_edit cfg st app).1.hub
  unfolding announce_stream_edit broadcast_past_streams
  announce-IsTold st app = tell_past_but-IsTold (edited_message st) app.hub _ _ refl

  tell_past-conn : (r : Result (List Stream)) (app : App) → (tell_past cfg r app).1.conn ≡ app.conn
  tell_past-conn (err e) app = refl
  tell_past-conn (ok ps) app = refl

  tell_past_but-db :
      (r : Result (List Stream)) (app : App) → (tell_past_but cfg r app).1.conn.db ≡ app.conn.db
  unfolding get_past_streams
  tell_past_but-db (err e) app = refl
  tell_past_but-db (ok streams) app = ap (λ c. c.db) (tell_past-conn _ _) ∙ query-same _ app.conn

  pub announce-db :
      (st : Stream) (app : App) → (announce_stream_edit cfg st app).1.conn.db ≡ app.conn.db
  unfolding announce_stream_edit broadcast_past_streams get_all_streams
  announce-db st app = tell_past_but-db _ _ ∙ query-same _ app.conn

  tell_past-audits :
      (r : Result (List Stream)) (app : App) → (tell_past cfg r app).1.audits ≡ app.audits
  tell_past-audits (err e) app = refl
  tell_past-audits (ok ps) app = refl

  pub announce-audits :
      (st : Stream) (app : App) → (announce_stream_edit cfg st app).1.audits ≡ app.audits
  unfolding announce_stream_edit broadcast_past_streams
  announce-audits st app = go _ _
    where
      go : (r : Result (List Stream)) (app : App) → (tell_past_but cfg r app).1.audits ≡ app.audits
      go (err e) app = refl
      go (ok streams) app = tell_past-audits _ _
