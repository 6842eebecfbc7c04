-- ===== src/Server/Websocket.antt =====
-- internal/server/websocket.go: a client's connection, from its slot to its removal.
use live_transcript_server.Prelude.{
  ℕ, ◌-◌, Bool, true, false, Option, none, some, List, [], ◌∷◌, pos, length, drop, ltb,
  if◌then◌else◌,
}
use live_transcript_server.Model.{Line, Stream}
use live_transcript_server.Store.Sql.{Result, ok, err}
use live_transcript_server.Store.Streams.{get_recent_stream, get_past_streams}
use live_transcript_server.Store.Transcripts.{get_transcript}
use live_transcript_server.Ws.Hub.{Hub, reserve, unreserve, add, remove, try_send}
use live_transcript_server.Ws.Events.{SyncData, sync, partial_sync, past_streams}
use live_transcript_server.Ws.Pumps.{Read, read_loop}
use live_transcript_server.Server.App.{Config, Act, give, ◌>>=◌, ◌>>◌, store}

-- A call on cs.Hub or on a client of it.
abbrev pub on_hub : {A : Type 0} → (Hub → A × Hub) → Act A
on_hub f app = ((f app.hub).0, record app { hub = (f app.hub).1 })

-- "If no stream": the stream that is sent for none.
abbrev pub stream_or_none : Option Stream → Stream
stream_or_none (some st) = st
stream_or_none none = record {
  channel_id = "";
  stream_id = "";
  stream_title = "";
  start_time = "0";
  is_live = false;
  media_type = "none";
  activated_time = pos 0;
}

-- A `nil` or empty list is not sent.
abbrev pub has_streams : List Stream → Bool
has_streams [] = false
has_streams (s ∷ rest) = true

module _ (cfg : Config) (c : ℕ) where
  -- What syncClient does when a TrySend is refused, and when it is not.
  abbrev pub or_remove : Bool → Act (Unit {0}) → Act (Unit {0})
  or_remove true next = next
  or_remove false next = do removed ← on_hub (remove c); give tt

  abbrev pub sync_past : Result (List Stream) → Act (Unit {0})
  sync_past (err e) = give tt
  sync_past (ok streams) =
      if has_streams streams
      then (do sent ← on_hub (try_send c (past_streams streams)); or_remove sent (give tt))
      else give tt

  abbrev pub sync_data : Stream → List Line → SyncData
  sync_data st lines = record {
    stream_id = st.stream_id;
    stream_title = st.stream_title;
    start_time = st.start_time;
    is_live = st.is_live;
    media_type = st.media_type;
    media_base_url = cfg.base_url;
    transcript = lines;
  }

  -- From the full sync on.
  abbrev pub sync_full : Stream → List Line → Act (Unit {0})
  sync_full st lines = do
    sent ← on_hub (try_send c (sync (sync_data st lines)))
    or_remove sent (do past ← store (get_past_streams cfg.key st.stream_id); sync_past past)

  abbrev pub sync_lines : Stream → Result (List Line) → Act (Unit {0})
  sync_lines st (err e) = give tt
  sync_lines st (ok lines) =
      if ltb 100 (length lines)
      then (do
        sent ← on_hub (try_send c (partial_sync (sync_data st (drop (length lines - 100) lines))))
        or_remove sent (sync_full st lines))
      else sync_full st lines

  abbrev pub sync_stream : Result (Option Stream) → Act (Unit {0})
  sync_stream (err e) = give tt
  sync_stream (ok found) = do
    lines ← store (get_transcript cfg.key (stream_or_none found).stream_id)
    sync_lines (stream_or_none found) lines

  -- syncClient
  unfoldable pub sync_client : Act (Unit {0})
  unfolding remove try_send
  sync_client = do found ← store (get_recent_stream cfg.key); sync_stream found

-- wsHandler from Add on: the initial sync, the read loop and the deferred Remove.
unfoldable pub serve_client : Config → List Read → ℕ → Act (Unit {0})
unfolding sync_client read_loop remove
serve_client cfg frames c = do
  sync_client cfg c
  ended ← on_hub (read_loop c frames)
  removed ← on_hub (remove c)
  give tt

abbrev pub upgraded : Config → Bool → List Read → Act (Unit {0})
upgraded cfg false frames = on_hub (λ h. (tt, unreserve h))
upgraded cfg true frames = do c ← on_hub add; serve_client cfg frames c

abbrev pub with_slot : Config → Bool → List Read → Bool → Act (Unit {0})
with_slot cfg upgrade frames false = give tt
with_slot cfg upgrade frames true = upgraded cfg upgrade frames

-- wsHandler: whether the upgrade succeeds, and the frames that the client then sends, of which the
-- last ends the loop.
unfoldable pub ws_handler : Config → Bool → List Read → Act (Unit {0})
unfolding serve_client reserve unreserve add
ws_handler cfg upgrade frames = do free ← on_hub reserve; with_slot cfg upgrade frames free
