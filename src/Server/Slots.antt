-- ===== src/Server/Slots.antt =====
-- internal/server/websocket.go: the slot and the client of wsHandler.
use live_transcript_server.Prelude.{
  ℕ, suc, eqb_refl, le_ℤ, ◌<◌, ◌^◌, ◌≡◌, subst, refl, Bool, true, false, Option, List, [], ◌∷◌,
  length, any, eqb, ltb, Bool-cases, inl, inr,
}
use live_transcript_server.Model.{Line, Stream}
use live_transcript_server.Store.Sql.{Result, ok, err}
use live_transcript_server.Store.Streams.{get_recent_stream, get_past_streams}
use live_transcript_server.Store.Transcripts.{get_transcript}
use live_transcript_server.Ws.Hub.{Hub, reserve, unreserve, add, remove, try_send}
use live_transcript_server.Ws.Events.{Message, sync, past_streams}
use live_transcript_server.Ws.Pumps.{
  Read, read_loop, answer_ping, PingData, not_map, no_timestamp, timestamp, ping, other,
  disconnected, broken,
}
use live_transcript_server.Ws.Wf.{
  IsWf, reserve-IsWf, unreserve-IsWf, add-IsWf, try_send-IsWf, any-fresh,
}
use live_transcript_server.Ws.Delete.{any-delete}
use live_transcript_server.Ws.Accounting.{remove-IsWf}
use live_transcript_server.Server.App.{Config, App, Act, give, ◌>>=◌, store}
use live_transcript_server.Server.Websocket.{
  on_hub, or_remove, sync_past, sync_full, sync_lines, sync_stream, sync_client, sync_data,
  serve_client, with_slot, ws_handler, has_streams, stream_or_none,
}

module _ {limit : ℕ} (pending : ℕ) (cfg : Config) (c : ℕ) where
  answer_ping-IsWf :
      (frame : PingData) (h : Hub)
      → IsWf limit pending h
      → IsWf limit pending (answer_ping c frame h)
  unfolding answer_ping
  answer_ping-IsWf not_map h wf = wf
  answer_ping-IsWf no_timestamp h wf = try_send-IsWf pending c _ h wf
  answer_ping-IsWf (timestamp t) h wf = try_send-IsWf pending c _ h wf

  read_loop-IsWf :
      (frames : List Read) (h : Hub)
      → IsWf limit pending h
      → IsWf limit pending (read_loop c frames h).1
  unfolding read_loop
  read_loop-IsWf [] h wf = wf
  read_loop-IsWf (ping frame ∷ rest) h wf =
      read_loop-IsWf rest (answer_ping c frame h) (answer_ping-IsWf frame h wf)
  read_loop-IsWf (other ∷ rest) h wf = read_loop-IsWf rest h wf
  read_loop-IsWf (disconnected ∷ rest) h wf = wf
  read_loop-IsWf (broken ∷ rest) h wf = wf

  or_remove-IsWf :
      (sent : Bool) (next : Act (Unit {0})) (app : App)
      → IsWf limit pending app.hub
      → (IsWf limit pending app.hub → IsWf limit pending (next app).1.hub)
      → IsWf limit pending (or_remove cfg c sent next app).1.hub
  or_remove-IsWf true next app wf k = k wf
  or_remove-IsWf false next app wf k = remove-IsWf pending c app.hub wf

  -- A message to the client, and what follows it.
  sent-IsWf :
      (msg : Message) (next : Act (Unit {0})) (app : App)
      → IsWf limit pending app.hub
      → ((a : App) → IsWf limit pending a.hub → IsWf limit pending (next a).1.hub)
      → IsWf limit pending
          ((do sent ← on_hub (try_send c msg); or_remove cfg c sent next) app).1.hub
  sent-IsWf msg next app wf k =
      or_remove-IsWf (try_send c msg app.hub).0 next (on_hub (try_send c msg) app).1
        (try_send-IsWf pending c msg app.hub wf) (k (on_hub (try_send c msg) app).1)

  sync_past-IsWf :
      (r : Result (List Stream)) (app : App)
      → IsWf limit pending app.hub
      → IsWf limit pending (sync_past cfg c r app).1.hub
  sync_past-IsWf (err e) app wf = wf
  sync_past-IsWf (ok streams) app wf = elim (Bool-cases (has_streams streams)) [
    | inl e ↦ rw e (sent-IsWf (past_streams streams) (give tt) app wf (λ a k. k))
    | inr e ↦ rw e wf
  ]

  sync_full-IsWf :
      (st : Stream) (lines : List Line) (app : App)
      → IsWf limit pending app.hub
      → IsWf limit pending (sync_full cfg c st lines app).1.hub
  sync_full-IsWf st lines app wf = sent-IsWf (sync (sync_data cfg c st lines)) _ app wf λ a k.
      sync_past-IsWf (get_past_streams cfg.key st.stream_id a.conn).0
        (store (get_past_streams cfg.key st.stream_id) a).1 k

  sync_lines-IsWf :
      (st : Stream) (r : Result (List Line)) (app : App)
      → IsWf limit pending app.hub
      → IsWf limit pending (sync_lines cfg c st r app).1.hub
  sync_lines-IsWf st (err e) app wf = wf
  sync_lines-IsWf st (ok lines) app wf = elim (Bool-cases (ltb 100 (length lines))) [
    | inl e ↦ rw e (sent-IsWf _ (sync_full cfg c st lines) app wf (sync_full-IsWf st lines))
    | inr e ↦ rw e (sync_full-IsWf st lines app wf)
  ]

  sync_stream-IsWf :
      (r : Result (Option Stream)) (app : App)
      → IsWf limit pending app.hub
      → IsWf limit pending (sync_stream cfg c r app).1.hub
  sync_stream-IsWf (err e) app wf = wf
  sync_stream-IsWf (ok found) app wf =
      sync_lines-IsWf (stream_or_none found)
        (get_transcript cfg.key (stream_or_none found).stream_id app.conn).0
        (store (get_transcript cfg.key (stream_or_none found).stream_id) app).1 wf

  sync_client-IsWf :
      (app : App) → IsWf limit pending app.hub → IsWf limit pending (sync_client cfg c app).1.hub
  unfolding sync_client
  sync_client-IsWf app wf =
      sync_stream-IsWf (get_recent_stream cfg.key app.conn).0
        (store (get_recent_stream cfg.key) app).1 wf

  serve_client-IsWf :
      (frames : List Read) (app : App)
      → IsWf limit pending app.hub
      → IsWf limit pending (serve_client cfg frames c app).1.hub
  unfolding serve_client
  serve_client-IsWf frames app wf =
      remove-IsWf pending c _ (read_loop-IsWf frames _ (sync_client-IsWf app wf))

reserve-allocated : (h : Hub) → (reserve h).1.allocated ≡ h.allocated
unfolding reserve
reserve-allocated h = elim (Bool-cases (le_ℤ h.max_conn h.connections)) [
  | inl e ↦ rw e refl
  | inr e ↦ rw e refl
]

remove-absent :
    {limit pending : ℕ} (c : ℕ) (h : Hub)
    → IsWf limit pending h
    → any (eqb c) (remove c h).1.clients ≡ false
unfolding remove
remove-absent c h wf = elim (Bool-cases (any (eqb c) h.clients)) [
  | inl e ↦ rw (e, any-delete c c h.clients wf.distinct, e, eqb_refl c) refl
  | inr e ↦ rw (e, e) refl
]

-- A Reserve that is refused changes nothing.
refused : (h : Hub) → (reserve h).0 ≡ false → (reserve h).1 ≡ h
unfolding reserve
refused h = elim (Bool-cases (le_ℤ h.max_conn h.connections)) [
  | inl e ↦ rw e (λ k. refl)
  | inr e ↦ rw e (λ k. cc)
]

module _ {limit : ℕ} (pending : ℕ) (cfg : Config) where
  with_slot-IsWf :
      (upgrade : Bool) (frames : List Read) (app : App)
      → IsWf limit (suc pending) app.hub
      → IsWf limit pending (with_slot cfg upgrade frames true app).1.hub
  with_slot-IsWf false frames app wf = unreserve-IsWf pending app.hub wf
  with_slot-IsWf true frames app wf =
      serve_client-IsWf pending cfg (add app.hub).0 frames (on_hub add app).1
        (add-IsWf pending app.hub wf)

  -- Its client, the next that Add would allocate, is not registered afterwards.
  with_slot-gone :
      (upgrade : Bool) (frames : List Read) (app : App)
      → IsWf limit (suc pending) app.hub
      → any (eqb app.hub.allocated) (with_slot cfg upgrade frames true app).1.hub.clients ≡ false
  unfolding serve_client unreserve add
  with_slot-gone false frames app wf = any-fresh app.hub.allocated app.hub.clients wf.allocated
  with_slot-gone true frames app wf = remove-absent app.hub.allocated _ (
      read_loop-IsWf pending cfg app.hub.allocated frames _ (
        sync_client-IsWf pending cfg app.hub.allocated (on_hub add app).1
          (add-IsWf pending app.hub wf)))

  -- On a well-formed hub with room for `limit` (in 64 bits) connections, and `pending` handlers that
  -- hold a slot and have no client: wsHandler, whether it gets a slot, whether the upgrade succeeds,
  -- whichever statements fail and whatever the client sends before it goes, leaves the hub
  -- well-formed with the same handlers pending, and its own client is not registered.
  pub ws_handler-IsWf :
      (upgrade : Bool) (frames : List Read) (app : App)
      → limit < 2 ^ 63
      → IsWf limit pending app.hub
      → IsWf limit pending (ws_handler cfg upgrade frames app).1.hub
        × (any (eqb app.hub.allocated) (ws_handler cfg upgrade frames app).1.hub.clients ≡ false)
  unfolding ws_handler
  ws_handler-IsWf upgrade frames app small wf = elim (Bool-cases (reserve app.hub).0) [
    | inl free ↦
        let slot = reserve-IsWf pending app.hub small wf free in
        (
          rw free (with_slot-IsWf upgrade frames (on_hub reserve app).1 slot),
          rw free (
              subst
                (λ n.
                  any (eqb n)
                    (with_slot cfg upgrade frames true (on_hub reserve app).1).1.hub.clients
                  ≡ false)
                (reserve-allocated app.hub)
                (with_slot-gone upgrade frames (on_hub reserve app).1 slot)),
        )
    | inr full ↦ (
      rw full (rw (refused app.hub full) wf),
      rw (full, refused app.hub full) (any-fresh app.hub.allocated app.hub.clients wf.allocated),
    )
  ]
