-- ===== src/Server/Admin.antt =====
-- internal/server/handlers_admin.go: the requests of a channel's admin page, but for the edit of a
-- stream. The page's HTML is left out.
use live_transcript_server.Prelude.{
  String, Bool, true, false, not, ◌&&◌, Option, none, some, List, ℤ, pos, lt_ℤ, sub_ℤ, ltb, eqb,
  trim_space, ◌==◌, if◌then◌else◌,
}
use text.Mathlib.Text.{starts_with}
use live_transcript_server.Model.{Stream, WorkerStatus}
use live_transcript_server.Store.Sql.{Result, ok, err}
use live_transcript_server.Store.Streams.{get_stream_by_id, get_all_streams}
use live_transcript_server.Store.Incoming.{
  upsert_incoming_stream, get_incoming_streams, delete_incoming_stream, clear_incoming_streams,
}
use live_transcript_server.Store.Worker.{
  get_worker_status_by_key, upsert_restart_request, get_restart_request, delete_restart_request,
}
use live_transcript_server.Ws.Hub.{connections}
use live_transcript_server.Server.Ids.{is_valid_id}
use live_transcript_server.Server.App.{
  Config, Act, Reply, answered, json, give, ◌>>=◌, ◌>>◌, store, bump_admin_change,
  notify_admin_action, membership_enabled,
}
use live_transcript_server.Server.Lifecycle.{remove_stream}
use live_transcript_server.Server.Maintenance.{worker_active_window}

-- AdminInfoResponse, without the build of the server and the health of the Discord bot.
pub record AdminInfo : Type 0 where
  pub channel : String
  pub worker : Option WorkerStatus
  pub streams : List Stream
  pub incoming_urls : List String
  pub restart_pending : Bool
  pub restart_at : ℤ
  pub connected_clients : ℤ
  pub membership_enabled : Bool

-- worker.IsActive
abbrev pub with_activity : ℤ → Option WorkerStatus → Option WorkerStatus
with_activity now none = none
with_activity now (some w) =
    some (record w { is_active = lt_ℤ (sub_ℤ now w.last_seen) worker_active_window })

-- A query of a handler, after whose failure the answer is 500.
abbrev pub or_500 : {A B : Type 0} → (A → Act (Reply B)) → Result A → Act (Reply B)
or_500 next (ok a) = next a
or_500 next (err e) = give (answered 500)

-- A change that succeeded, in the order of the handlers.
abbrev pub done : String → Act (Reply (Unit {0}))
done action = do bump_admin_change; notify_admin_action action; give (answered 204)

abbrev pub bump_if : Bool → Act (Unit {0})
bump_if true = bump_admin_change
bump_if false = give tt

-- What the archive server answers; `none` for an error.
abbrev pub or_502 : {A B : Type 0} → (A → Act (Reply B)) → Option A → Act (Reply B)
or_502 next (some a) = next a
or_502 next none = give (answered 502)

abbrev pub tell : {A : Type 0} → String → A → Act (Reply A)
tell action a = do notify_admin_action action; give (json a)

module _ (cfg : Config) where
  abbrev pub info_of :
      ℤ → Option WorkerStatus → List Stream → List String → ℤ → Act (Reply AdminInfo)
  info_of now worker streams queue at app = (
    json (record {
      channel = cfg.key;
      worker = with_activity now worker;
      streams = streams;
      incoming_urls = queue;
      restart_pending = lt_ℤ (pos 0) at;
      restart_at = at;
      connected_clients = connections app.hub;
      membership_enabled = membership_enabled cfg;
    }),
    app,
  )

  -- getAdminInfoHandler
  unfoldable pub get_admin_info_handler : ℤ → Act (Reply AdminInfo)
  unfolding connections membership_enabled
  get_admin_info_handler now = do
    worker ← store (get_worker_status_by_key cfg.key)
    or_500
        (λ worker. do
          streams ← store (get_all_streams cfg.key)
          or_500
              (λ streams. do
                queue ← store (get_incoming_streams cfg.key)
                or_500
                    (λ queue. do
                      at ← store (get_restart_request cfg.key)
                      or_500 (info_of now worker streams queue) at)
                    queue)
              streams)
        worker

  abbrev pub queue_url_at : ℤ → String → Act (Reply (Unit {0}))
  queue_url_at now url = do
    stored ← store (upsert_incoming_stream cfg.key url now)
    or_500 (λ u. done "Queued incoming stream") stored

  -- postAdminIncomingHandler; `none` for a body that does not decode.
  unfoldable pub post_admin_incoming_handler : ℤ → Option String → Act (Reply (Unit {0}))
  unfolding bump_admin_change trim_space
  post_admin_incoming_handler now none = give (answered 400)
  post_admin_incoming_handler now (some text) =
      let url = trim_space text in
      if url == ""
      then give (answered 400)
      else if not (starts_with url "http://") && not (starts_with url "https://")
      then give (answered 400)
      else queue_url_at now url

  -- deleteAdminIncomingHandler
  unfoldable pub delete_admin_incoming_handler : String → Act (Reply (Unit {0}))
  unfolding bump_admin_change
  delete_admin_incoming_handler url = if url == "" then give (answered 400) else do
    deleted ← store (delete_incoming_stream cfg.key url)
    or_500 (λ n. if eqb n 0 then give (answered 404) else done "Removed queued stream") deleted

  abbrev pub restart_at : ℤ → String → Act (Reply (Unit {0}))
  restart_at now action = do
    stored ← store (upsert_restart_request cfg.key now)
    or_500 (λ u. done action) stored

  -- postAdminRestartHandler
  unfoldable pub post_admin_restart_handler : ℤ → Act (Reply (Unit {0}))
  unfolding bump_admin_change
  post_admin_restart_handler now = restart_at now "Requested worker restart"

  -- deleteAdminRestartHandler
  unfoldable pub delete_admin_restart_handler : Act (Reply (Unit {0}))
  unfolding bump_admin_change
  delete_admin_restart_handler = do
    deleted ← store (delete_restart_request cfg.key)
    or_500
        (λ n. do
          bump_if (ltb 0 n)
          notify_admin_action "Cleared restart request"
          give (answered 204))
        deleted

  -- deleteAdminStreamHandler, from the row on.
  abbrev pub delete_ended : Bool → Stream → Act (Reply (Unit {0}))
  delete_ended media st = do
    removed ← remove_stream cfg st media
    or_500 (λ u. done "Deleted stream") removed

  abbrev pub delete_found : Bool → Option Stream → Act (Reply (Unit {0}))
  delete_found media none = give (answered 404)
  delete_found media (some st) = if st.is_live then give (answered 409) else delete_ended media st

  -- deleteAdminStreamHandler; `media` for ?media=true.
  unfoldable pub delete_admin_stream_handler : String → Bool → Act (Reply (Unit {0}))
  unfolding bump_admin_change remove_stream is_valid_id
  delete_admin_stream_handler stream media =
      if not (is_valid_id stream)
      then give (answered 400)
      else do found ← store (get_stream_by_id cfg.key stream); or_500 (delete_found media) found

  -- postAdminStopHandler
  unfoldable pub post_admin_stop_handler : ℤ → Act (Reply (Unit {0}))
  unfolding bump_admin_change
  post_admin_stop_handler now = do
    cleared ← store (clear_incoming_streams cfg.key)
    or_500 (λ n. restart_at now "Stopped current stream") cleared

  -- getAdminMembershipHandler, postAdminMembershipHandler, deleteAdminMembershipHandler, with the
  -- answer of the archive server for the channel's members name.
  unfoldable pub get_admin_membership_handler : {A : Type 0} → (String → Option A) → Act (Reply A)
  unfolding membership_enabled
  get_admin_membership_handler listed =
      if not (membership_enabled cfg)
      then give (answered 404)
      else or_502 (λ keys. give (json keys)) (listed cfg.members_name)

  unfoldable pub post_admin_membership_handler : {A : Type 0} → (String → Option A) → Act (Reply A)
  unfolding membership_enabled
  post_admin_membership_handler created =
      if not (membership_enabled cfg)
      then give (answered 404)
      else or_502 (tell "Created membership key") (created cfg.members_name)

  unfoldable pub delete_admin_membership_handler :
      (String → Option (Unit {0})) → Act (Reply (Unit {0}))
  unfolding membership_enabled
  delete_admin_membership_handler deleted =
      if not (membership_enabled cfg)
      then give (answered 404)
      else or_502 (λ u. do notify_admin_action "Deleted all membership keys"; give (answered 204))
          (deleted cfg.members_name)
