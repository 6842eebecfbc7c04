-- ===== src/Server/Tests.antt =====
-- internal/server: the theorems on lifecycles, signals and jobs, for a channel with a few streams.
use live_transcript_server.Prelude.{
  ◌^◌, ◌≡◌, refl, true, false, ◌&&◌, none, some, [], ◌∷◌, ◌++◌, map, pos, pos_part, ◌≤ℤ◌, lt_ℤ, any,
  filter, All, sort_by, ◌==◌, if◌then◌else◌, arith,
}
use live_transcript_server.Model.{Stream}
use live_transcript_server.Store.Sql.{statement}
use live_transcript_server.Store.Streams.{
  find_stream, newest_first, streams_of, get_recent_stream, set_stream_live, upsert_stream,
}
use live_transcript_server.Store.Transcripts.{transcript_of}
use live_transcript_server.Store.Incoming.{latest_incoming, queued_for, get_latest_incoming_time}
use live_transcript_server.Store.Worker.{restart_request, get_restart_request}
use live_transcript_server.Store.Outcome.{clean}
use live_transcript_server.Storage.Keys.{stream_prefix}
use live_transcript_server.Server.App.{bump_admin_change}
use live_transcript_server.Server.Builds.{claims, phases, run_all}
use live_transcript_server.Server.Vods.{new_vod_registry, claim, install, find_job}
use live_transcript_server.Server.Lifecycle.{
  apply_retention, activate_stream, start_stream, announce_stream, resume_stream,
}
use live_transcript_server.Server.Events.{
  incoming, restart, collect_worker_events, collect_from, note_channel, flags_of, set_events,
}
use live_transcript_server.Server.Kept.{beyond}
use live_transcript_server.Server.EventMap.{events_for}
use live_transcript_server.Server.Signals.{has_flag}
use live_transcript_server.Server.Silence.{IsSilent}
use live_transcript_server.Server.Maintenance.{prune_expired_streams}
use live_transcript_server.Server.Kept.{apply_retention-local}
use live_transcript_server.Server.Activation.{activate_stream-live}
use live_transcript_server.Server.Silence.{activate_stream-IsSilent}
use live_transcript_server.Server.Signals.{
  collect_worker_events-report, collect_worker_events-quiet,
}
use live_transcript_server.Server.Builds.{claim-once}
use live_transcript_server.Server.Pruning.{prune_expired_streams-keeps_held}
use live_transcript_server.Server.Fixtures.{tables, config, app_with, found, restarting}

apply_retention-local_example :
    (find_stream config.key "a" (apply_retention config "c" (app_with [])).1.conn.db ≡ (
      if any
        (λ s. s.stream_id == "a")
        (beyond
          (pos_part config.num_past_streams)
          "c"
          (newest_first config.key (app_with []).conn.db))
      then none
      else find_stream config.key "a" (app_with []).conn.db))
    × ((apply_retention config "c" (app_with [])).1.deletions
        ≡ (app_with []).deletions
          ++ map
              (λ s. stream_prefix config.key s.stream_id)
              (beyond
                (pos_part config.num_past_streams)
                "c"
                (newest_first config.key (app_with []).conn.db)))
apply_retention-local_example =
    apply_retention-local config "c" (app_with []) "a" refl (omega arith) refl

activate_stream-live_example :
    (s : Stream) × (find_stream config.key "d"
        (activate_stream config
          (pos 9)
          "d"
          "t"
          "7"
          "video"
          (app_with (false ∷ true ∷ []))).1.conn.db
      ≡ some s)
    × (s.is_live ≡ true)
unfolding activate_stream get_recent_stream set_stream_live upsert_stream statement start_stream
    announce_stream resume_stream newest_first streams_of filter sort_by bump_admin_change
activate_stream-live_example =
    activate_stream-live config (pos 9) "d" "t" "7" "video" (app_with (false ∷ true ∷ [])) refl

activate_stream-IsSilent_example :
    IsSilent
      (app_with (true ∷ []))
      (activate_stream config (pos 9) "d" "t" "7" "video" (app_with (true ∷ []))).1
unfolding activate_stream get_recent_stream statement
activate_stream-IsSilent_example =
    activate_stream-IsSilent config (pos 9) "d" "t" "7" "video" (app_with (true ∷ [])) refl

collect_worker_events-report_example :
    (has_flag incoming (events_for "chan" found.events) ≡ (
      any (λ k. k == "chan") ("chan" ∷ [])
      && lt_ℤ (pos 45) (latest_incoming "chan" (clean tables).db)))
    × (has_flag restart (events_for "chan" found.events) ≡ (
        any (λ k. k == "chan") ("chan" ∷ [])
        && lt_ℤ (pos 0) (restart_request "chan" (clean tables).db)))
    × ((pos 45) ≤ℤ found.cursor)
    × All (λ k. latest_incoming k (clean tables).db ≤ℤ found.cursor) ("chan" ∷ [])
    × ((collect_worker_events ("chan" ∷ []) (pos 45) (clean tables)).1.db ≡ (clean tables).db)
unfolding collect_worker_events collect_from note_channel flags_of set_events
    get_latest_incoming_time get_restart_request latest_incoming restart_request queued_for
    statement filter
collect_worker_events-report_example =
    collect_worker_events-report ("chan" ∷ []) (pos 45) (clean tables) found "chan" refl

collect_worker_events-quiet_example :
    events_for "chan" restarting.events
    ≡ (if lt_ℤ (pos 0) (restart_request "chan" (clean tables).db) then restart ∷ [] else [])
unfolding collect_worker_events collect_from note_channel flags_of set_events
    get_latest_incoming_time get_restart_request latest_incoming restart_request queued_for
    statement filter
collect_worker_events-quiet_example =
    collect_worker_events-quiet ("chan" ∷ []) (pos 45) (clean tables) found restarting refl refl
      "chan" refl

claim-once_example :
    claim "chan/a" (pos 2) (
      run_all
        (claims "chan/a" (pos 1) ∷ claims "chan/b" (pos 1) ∷ phases 0 "encoding" ∷ [])
        (claim "chan/a" (pos 1) new_vod_registry).1)
    ≡ (
      (0, false),
      run_all
          (claims "chan/a" (pos 1) ∷ claims "chan/b" (pos 1) ∷ phases 0 "encoding" ∷ [])
          (claim "chan/a" (pos 1) new_vod_registry).1,
    )
unfolding claim install find_job new_vod_registry
claim-once_example =
    claim-once "chan/a" 0 (pos 1) (pos 2) new_vod_registry
      (claims "chan/a" (pos 1) ∷ claims "chan/b" (pos 1) ∷ phases 0 "encoding" ∷ []) refl
      (refl, (refl, (refl, tt)))

prune_expired_streams-keeps_held_example :
    (find_stream config.key "a"
        (prune_expired_streams config (pos (10 ^ 15)) (app_with [])).1.conn.db
      ≡ find_stream config.key "a" (app_with []).conn.db)
    × (transcript_of config.key "a"
          (prune_expired_streams config (pos (10 ^ 15)) (app_with [])).1.conn.db
        ≡ transcript_of config.key "a" (app_with []).conn.db)
prune_expired_streams-keeps_held_example =
    prune_expired_streams-keeps_held config "a" (λ e. cc) (pos (10 ^ 15)) (app_with [])
