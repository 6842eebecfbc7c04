-- ===== src/Server/Init.antt =====
-- internal/server/app.go: Init, which runs before the server serves.
use live_transcript_server.Prelude.{String, List, [], ◌∷◌, ℤ}
use live_transcript_server.Store.Sql.{Sql, pure, ◌>>◌}
use live_transcript_server.Store.Worker.{reset_worker_status, upsert_worker_status}

-- The loop over the channels, whose order is that of a Go map.
abbrev pub seed_workers : List String → String → ℤ → Sql (Unit {0})
seed_workers [] build_time now = pure tt
seed_workers (key ∷ keys) build_time now = do
  upsert_worker_status key "N/A" build_time now
  seed_workers keys build_time now

-- Init, from the folders on.
unfoldable pub init : List String → String → ℤ → Sql (Unit {0})
init keys build_time now = do reset_worker_status; seed_workers keys build_time now
