-- ===== src/Server/App.antt =====
-- internal/server/app.go: what the handlers of a channel share, and the calls of them that change it.
-- What goes to the outside is kept as a list: the folders whose deletion is started, and the stream
-- starts and the admin actions that Discord is told.
use live_transcript_server.Prelude.{
  ℕ, ◌&&◌, not, ◌==◌, String, Bool, Option, List, [], ◌∷◌, ◌++◌, ℤ, succ64,
}
use live_transcript_server.Store.Sql.{Conn, Result, Sql}
use live_transcript_server.Ws.Hub.{Hub, broadcast}
use live_transcript_server.Ws.Events.{Message}
use live_transcript_server.Notify.{Notifier, notify}
use live_transcript_server.Storage.Keys.{stream_prefix}
use live_transcript_server.Server.Vods.{VodRegistry, forget_job, vod_job_key}

-- What a channel's calls read and do not change: type ChannelState, the storage's IsLocal and
-- GetURL(""), the answer of its StreamExists, `none` for an error, and whether the archive client is
-- configured.
pub record Config : Type 0 where
  pub key : String
  pub num_past_streams : ℤ
  pub is_local : Bool
  pub base_url : String
  pub probe : String → Option Bool
  pub admin_key : String
  pub members_name : String
  pub archive_configured : Bool

-- NotifyStreamStart's arguments.
pub record StreamStart : Type 0 where
  pub stream_id : String
  pub stream_title : String
  pub start_time : String

-- type App and type ChannelState. `vods` is app.Vods.
pub record App : Type 0 where
  pub conn : Conn
  pub hub : Hub
  pub admin_change_counter : ℤ
  pub notifier : Notifier
  pub vods : VodRegistry
  pub deletions : List String
  pub starts : List StreamStart
  pub audits : List String

-- An answer with a status, or with 200 and a JSON body.
pub data Reply {ℓ} (A : Type ℓ) : Type ℓ where
  answered : ℕ → Reply A
  json : A → Reply A

abbrev pub Act : Type 0 → Type 0
Act A = App → A × App

abbrev pub give : {A : Type 0} → A → Act A
give a app = (a, app)

infixl 5 ◌>>=◌ ◌>>◌
abbrev pub ◌>>=◌ : {A B : Type 0} → Act A → (A → Act B) → Act B
◌>>=◌ m f app = f (m app).0 (m app).1

abbrev pub ◌>>◌ : {B : Type 0} → Act (Unit {0}) → Act B → Act B
m >> k = m >>= λ _. k

-- A call of app.Store.
abbrev pub store : {A : Type 0} → Sql A → Act (Result A)
store m app = ((m app.conn).0, record app { conn = (m app.conn).1 })

-- cs.Hub.Broadcast
abbrev pub send : Message → Act (Unit {0})
send msg app = (tt, record app { hub = broadcast msg app.hub })

-- bumpAdminChange
unfoldable pub bump_admin_change : Act (Unit {0})
unfolding succ64 notify
bump_admin_change app = (
  tt,
  record app {
    admin_change_counter = succ64 app.admin_change_counter;
    notifier = notify app.notifier;
  },
)

-- deleteStreamStorageAsync
unfoldable pub delete_stream_storage_async : String → String → Act (Unit {0})
unfolding stream_prefix
delete_stream_storage_async channel stream app =
    (tt, record app { deletions = app.deletions ++ stream_prefix channel stream ∷ [] })

-- app.Vods.forget
unfoldable pub forget : String → String → Act (Unit {0})
unfolding forget_job vod_job_key
forget channel stream app =
    (tt, record app { vods = forget_job (vod_job_key channel stream) app.vods })

-- app.Discord.NotifyStreamStart
abbrev pub notify_stream_start : StreamStart → Act (Unit {0})
notify_stream_start start app = (tt, record app { starts = app.starts ++ start ∷ [] })

-- notifyAdminAction, by its action; the fields of the message are left out.
abbrev pub notify_admin_action : String → Act (Unit {0})
notify_admin_action action app = (tt, record app { audits = app.audits ++ action ∷ [] })

-- membershipEnabled
unfoldable pub membership_enabled : Config → Bool
membership_enabled cfg = cfg.archive_configured && not (cfg.members_name == "")
