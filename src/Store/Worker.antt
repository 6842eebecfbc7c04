-- ===== src/Store/Worker.antt =====
-- internal/store/worker.go: worker heartbeats and restart requests.
use live_transcript_server.Prelude.{
  ℕ, String, Bool, false, not, Option, none, some, List, [], ◌∷◌, ◌++◌, ℤ, pos, length, head?,
  filter, any, update_where, sort_desc, ◌==◌, if◌then◌else◌,
}
use live_transcript_server.Model.{WorkerStatus}
use live_transcript_server.Store.Sql.{RestartRow, Db, ok, Sql, statement, query, exec}

-- PRIMARY KEY (channel_key), of both tables.
abbrev pub is_worker : String → WorkerStatus → Bool
is_worker key w = w.channel_key == key

abbrev pub is_restart : String → RestartRow → Bool
is_restart key r = r.channel_key == key

unfoldable pub put_worker : String → String → String → ℤ → Db → Db
unfolding update_where
put_worker key version build seen db = record db {
  worker_status =
      if any (is_worker key) db.worker_status
      then update_where (is_worker key)
          (λ w. record w { worker_version = version; worker_build_time = build; last_seen = seen })
          db.worker_status
      else db.worker_status
        ++ record {
          channel_key = key;
          worker_version = version;
          worker_build_time = build;
          last_seen = seen;
          is_active = false;
        }
          ∷ [];
}

-- UpsertWorkerStatus
unfoldable pub upsert_worker_status : String → String → String → ℤ → Sql (Unit {0})
upsert_worker_status key version build seen = exec (put_worker key version build seen)

-- GetWorkerStatusByKey
unfoldable pub get_worker_status_by_key : String → Sql (Option WorkerStatus)
unfolding filter
get_worker_status_by_key key = query (λ db. head? (filter (is_worker key) db.worker_status))

-- GetAllWorkerStatus
unfoldable pub get_all_worker_status : Sql (List WorkerStatus)
get_all_worker_status = query (λ db. sort_desc (λ w. w.last_seen) db.worker_status)

-- ResetWorkerStatus
unfoldable pub reset_worker_status : Sql (Unit {0})
reset_worker_status = exec (λ db. record db { worker_status = [] })

unfoldable pub put_restart : String → ℤ → Db → Db
unfolding update_where
put_restart key at db = record db {
  worker_restart_requests =
      if any (is_restart key) db.worker_restart_requests
      then update_where (is_restart key) (λ r. record r { requested_at = at })
          db.worker_restart_requests
      else db.worker_restart_requests ++ record { channel_key = key; requested_at = at } ∷ [];
}

-- UpsertRestartRequest
unfoldable pub upsert_restart_request : String → ℤ → Sql (Unit {0})
upsert_restart_request key at = exec (put_restart key at)

abbrev pub requested : Option RestartRow → ℤ
requested none = pos 0
requested (some r) = r.requested_at

unfoldable pub restart_request : String → Db → ℤ
unfolding filter
restart_request key db = requested (head? (filter (is_restart key) db.worker_restart_requests))

-- GetRestartRequest
unfoldable pub get_restart_request : String → Sql ℤ
get_restart_request key = query (restart_request key)

unfoldable pub drop_restart : String → Db → ℕ × Db
unfolding filter
drop_restart key db = (
  length (filter (is_restart key) db.worker_restart_requests),
  record db {
    worker_restart_requests = filter (λ r. not (is_restart key r)) db.worker_restart_requests;
  },
)

-- DeleteRestartRequest
unfoldable pub delete_restart_request : String → Sql ℕ
unfolding drop_restart
delete_restart_request key = statement (λ db. (ok (drop_restart key db).0, (drop_restart key db).1))
