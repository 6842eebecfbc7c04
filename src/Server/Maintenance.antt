-- ===== src/Server/Maintenance.antt =====
-- internal/server/maintenance.go: the periodic jobs, one run of each. The clock is an argument, in
-- seconds or, as `now_micro`, in microseconds; differences of times stay within 64 bits.
use live_transcript_server.Prelude.{
  ℕ, ◌*◌, ◌^◌, String, Bool, true, false, not, ◌&&◌, ◌||◌, Option, none, some, List, [], ◌∷◌, ℤ,
  pos, lt_ℤ, le_ℤ, sub_ℤ, ◌==◌, if◌then◌else◌,
}
use live_transcript_server.Model.{Stream, WorkerStatus}
use live_transcript_server.Store.Sql.{Result, ok, err}
use live_transcript_server.Store.Streams.{get_all_streams, delete_stream_cascade}
use live_transcript_server.Store.Transcripts.{cleanup_orphaned_transcripts}
use live_transcript_server.Store.Incoming.{cleanup_expired_incoming_streams}
use live_transcript_server.Store.Worker.{get_all_worker_status}
use live_transcript_server.Storage.Keys.{raw_prefix}
use live_transcript_server.Server.App.{Config, Act, give, ◌>>=◌, store}
use live_transcript_server.Server.Lifecycle.{broadcast_past_streams}

-- cleanupIncomingStreams; `ttl` is IncomingStreamTTL.
unfoldable pub cleanup_incoming_streams : ℤ → ℤ → Act (Unit {0})
cleanup_incoming_streams now ttl = do
  removed ← store (cleanup_expired_incoming_streams (sub_ℤ now ttl))
  give tt

-- workerActiveWindow, in seconds.
abbrev pub worker_active_window : ℤ
worker_active_window = pos 300

-- The workers that checkWorkerStatus reports to Discord.
abbrev pub is_offline : ℤ → WorkerStatus → Bool
is_offline now w =
    not (w.channel_key == "test")
    && not (w.channel_key == "dev")
    && le_ℤ worker_active_window (sub_ℤ now w.last_seen)

unfoldable pub offline_workers : ℤ → List WorkerStatus → List String
offline_workers now [] = []
offline_workers now (w ∷ rest) =
    let others = offline_workers now rest in
    if is_offline now w then w.channel_key ∷ others else others

abbrev pub offline_of : ℤ → Result (List WorkerStatus) → List String
offline_of now (err e) = []
offline_of now (ok workers) = offline_workers now workers

-- checkWorkerStatus
unfoldable pub check_worker_status : ℤ → Act (List String)
unfolding offline_workers
check_worker_status now = do workers ← store get_all_worker_status; give (offline_of now workers)

-- databaseCleanup
unfoldable pub database_cleanup : Act (Unit {0})
database_cleanup = do cleaned ← store cleanup_orphaned_transcripts; give tt

-- An hour, in microseconds.
abbrev pub hour : ℕ
hour = 3600 * 10 ^ 6

-- Whether pruneExpiredStreams skips a stream for its age.
abbrev pub is_young : ℤ → Stream → Bool
is_young now_micro s =
    s.media_type == "none" && lt_ℤ (sub_ℤ now_micro s.activated_time) (pos (168 * hour))
    || lt_ℤ (sub_ℤ now_micro s.activated_time) (pos (24 * hour))

module _ (cfg : Config) where
  abbrev pub was_deleted : Bool → Result (Unit {0}) → Bool
  was_deleted updates (ok u) = true
  was_deleted updates (err e) = updates

  -- What the storage has answered for a stream.
  abbrev pub prune_if_missing : String → Bool → Option Bool → Act Bool
  prune_if_missing stream updates none = give updates
  prune_if_missing stream updates (some true) = give updates
  prune_if_missing stream updates (some false) = do
    deleted ← store (delete_stream_cascade cfg.key stream)
    give (was_deleted updates deleted)

  -- The loop over a channel's streams, with updatesMade.
  unfoldable pub prune_streams : ℤ → Bool → List Stream → Act Bool
  unfolding raw_prefix
  prune_streams now_micro updates [] = give updates
  prune_streams now_micro updates (s ∷ rest) =
      if is_young now_micro s then prune_streams now_micro updates rest else do
        made ← prune_if_missing s.stream_id updates (cfg.probe (raw_prefix cfg.key s.stream_id))
        prune_streams now_micro made rest

  abbrev pub tell_if : Bool → Act (Unit {0})
  tell_if updates = if updates then broadcast_past_streams cfg else give tt

  abbrev pub prune_listed : ℤ → Result (List Stream) → Act (Unit {0})
  prune_listed now_micro (err e) = give tt
  prune_listed now_micro (ok streams) = do
    updates ← prune_streams now_micro false streams
    tell_if updates

  -- pruneExpiredStreams, for one channel.
  unfoldable pub prune_expired_streams : ℤ → Act (Unit {0})
  unfolding prune_streams broadcast_past_streams
  prune_expired_streams now_micro = do
    streams ← store (get_all_streams cfg.key)
    prune_listed now_micro streams
