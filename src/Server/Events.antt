-- ===== src/Server/Events.antt =====
-- internal/server/handlers_events.go: the signals that a worker polls for.
use live_transcript_server.Prelude.{
  ℕ, String, Bool, true, false, Option, none, some, List, [], ◌∷◌, ◌++◌, ℤ, pos, lt_ℤ, leb, any,
  update_where, ◌==◌, if◌then◌else◌,
}
use live_transcript_server.Store.Sql.{Sql, pure, ◌>>=◌}
use live_transcript_server.Store.Incoming.{get_latest_incoming_time}
use live_transcript_server.Store.Worker.{get_restart_request}

-- "incoming" and "restart"
pub data Flag : Type 0 where
  incoming restart : Flag

-- type WorkerEventsResponse; `events` is the map from channel to flags.
pub record WorkerEventsResponse : Type 0 where
  pub cursor : ℤ
  pub events : List (String × List Flag)

abbrev pub is_entry : String → String × List Flag → Bool
is_entry key entry = entry.0 == key

-- resp.Events[key] = flags
unfoldable pub set_events :
    String → List Flag → List (String × List Flag) → List (String × List Flag)
unfolding update_where
set_events key flags events =
    if any (is_entry key) events
    then update_where (is_entry key) (λ entry. (key, flags)) events
    else events ++ (key, flags) ∷ []

abbrev pub is_empty : List Flag → Bool
is_empty [] = true
is_empty (f ∷ fs) = false

-- The flags of a channel, from its latest received_at and its restart request.
unfoldable pub flags_of : ℤ → ℤ → ℤ → List Flag
flags_of since latest requested =
    (if lt_ℤ since latest then incoming ∷ [] else [])
    ++ (if lt_ℤ (pos 0) requested then restart ∷ [] else [])

-- One turn of the loop of collectWorkerEvents, after its two queries.
unfoldable pub note_channel : String → ℤ → ℤ → ℤ → WorkerEventsResponse → WorkerEventsResponse
unfolding set_events flags_of
note_channel key since latest requested resp =
    let flags = flags_of since latest requested in
    record {
      cursor = if lt_ℤ resp.cursor latest then latest else resp.cursor;
      events = if is_empty flags then resp.events else set_events key flags resp.events;
    }

unfoldable pub collect_from : List String → ℤ → WorkerEventsResponse → Sql WorkerEventsResponse
unfolding note_channel get_latest_incoming_time get_restart_request
collect_from [] since resp = pure resp
collect_from (key ∷ keys) since resp = do
  latest ← get_latest_incoming_time key
  requested ← get_restart_request key
  collect_from keys since (note_channel key since latest requested resp)

-- collectWorkerEvents
unfoldable pub collect_worker_events : List String → ℤ → Sql WorkerEventsResponse
unfolding collect_from
collect_worker_events keys since = collect_from keys since (record { cursor = since; events = [] })

-- parseWaitSeconds, from what strconv.Atoi makes of a `wait` that is given.
unfoldable pub parse_wait_seconds : Option ℤ → ℕ
parse_wait_seconds none = 25
parse_wait_seconds (some (ℤ.pos n)) = if leb n 60 then n else 60
parse_wait_seconds (some (ℤ.negsuc n)) = 25
