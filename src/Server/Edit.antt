-- ===== src/Server/Edit.antt =====
-- internal/server/handlers_admin.go: postAdminStreamHandler, the edit of a stream's details. The
-- text of the audit record is left out.
use Prim.Native.String.{len}
use live_transcript_server.Prelude.{
  String, Bool, not, ◌||◌, Option, none, some, ℤ, pos, negsuc, lt_ℤ, sub_ℤ, leb, trim_space,
  format_int, ◌==◌, if◌then◌else◌,
}
use live_transcript_server.Model.{Stream}
use live_transcript_server.Store.Sql.{Result, ok, err, not_found}
use live_transcript_server.Store.Streams.{StreamUpdate, is_empty, get_stream_by_id, update_stream}
use live_transcript_server.Ws.Events.{Message, updated_stream}
use live_transcript_server.Server.Ids.{is_valid_id}
use live_transcript_server.Server.App.{
  Config, Act, Reply, answered, give, ◌>>=◌, ◌>>◌, store, send, bump_admin_change,
  notify_admin_action,
}
use live_transcript_server.Server.Lifecycle.{broadcast_past_streams}
use live_transcript_server.Server.Admin.{or_500}

-- The body of the request; a field that is absent is `none`.
pub record EditBody : Type 0 where
  pub stream_title : Option String
  pub start_time : Option ℤ
  pub media_type : Option String

-- startTimeFloor
abbrev pub start_time_floor : ℤ
start_time_floor = pos 946684800

-- now + startTimeFutureGrace, in seconds.
abbrev pub latest_start : ℤ → ℤ
latest_start now = sub_ℤ now (negsuc 86399)

-- maxStreamTitleLength, on the title's bytes.
abbrev pub title_fits : String → Bool
title_fits title = leb (len title) 300

-- editableMediaTypes
abbrev pub is_editable : String → Bool
is_editable media = media == "audio" || media == "video" || media == "none"

-- The checks of the fields: `none` for a 400, `some none` for an absent field.
unfoldable pub check_title : Option String → Option (Option String)
unfolding trim_space
check_title none = some none
check_title (some text) =
    let title = trim_space text in if title_fits title then some (some title) else none

unfoldable pub check_start : ℤ → Option ℤ → Option (Option String)
unfolding format_int
check_start now none = some none
check_start now (some start) =
    if lt_ℤ start start_time_floor || lt_ℤ (latest_start now) start
    then none
    else some (some (format_int start))

unfoldable pub check_media : Option String → Option (Option String)
check_media none = some none
check_media (some media) = if is_editable media then some (some media) else none

abbrev pub update_of :
    Option (Option String) → Option (Option String) → Option (Option String) → Option StreamUpdate
update_of (some title) (some start) (some media) =
    let u : StreamUpdate = record {
      stream_title = title;
      start_time = start;
      media_type = media;
    } in
    if is_empty u then none else some u
update_of (some title) (some start) none = none
update_of (some title) none media = none
update_of none start media = none

-- The update that a request asks for; `none` for a 400.
unfoldable pub requested_update : ℤ → EditBody → Option StreamUpdate
unfolding check_title check_start check_media is_empty
requested_update now body =
    update_of (check_title body.stream_title) (check_start now body.start_time)
      (check_media body.media_type)

abbrev pub edited_message : Stream → Message
edited_message st = updated_stream (record {
  stream_id = st.stream_id;
  stream_title = st.stream_title;
  start_time = st.start_time;
  media_type = st.media_type;
  is_live = st.is_live;
})

-- The row that is read again, or the one from before if that fails.
abbrev pub reread : Stream → Result (Option Stream) → Stream
reread before (ok (some after)) = after
reread before (ok none) = before
reread before (err e) = before

module _ (cfg : Config) where
  -- announceStreamEdit
  unfoldable pub announce_stream_edit : Stream → Act (Unit {0})
  unfolding broadcast_past_streams
  announce_stream_edit after = do send (edited_message after); broadcast_past_streams cfg

  -- postAdminStreamHandler after its UpdateStream.
  abbrev pub after_update : String → Stream → Result (Unit {0}) → Act (Reply (Unit {0}))
  after_update stream before (err not_found) = give (answered 404)
  after_update stream before (err e) = give (answered 500)
  after_update stream before (ok u) = do
    found ← store (get_stream_by_id cfg.key stream)
    announce_stream_edit (reread before found)
    bump_admin_change
    notify_admin_action "Edited stream details"
    give (answered 204)

  abbrev pub edit_found : String → StreamUpdate → Option Stream → Act (Reply (Unit {0}))
  edit_found stream u none = give (answered 404)
  edit_found stream u (some before) = do
    updated ← store (update_stream cfg.key stream u)
    after_update stream before updated

  abbrev pub edit_with : String → Option StreamUpdate → Act (Reply (Unit {0}))
  edit_with stream none = give (answered 400)
  edit_with stream (some u) = do
    found ← store (get_stream_by_id cfg.key stream)
    or_500 (edit_found stream u) found

  -- postAdminStreamHandler; `none` for a body that does not decode.
  unfoldable pub post_admin_stream_handler : ℤ → String → Option EditBody → Act (Reply (Unit {0}))
  unfolding is_valid_id requested_update announce_stream_edit bump_admin_change
  post_admin_stream_handler now stream none = give (answered 400)
  post_admin_stream_handler now stream (some body) =
      if not (is_valid_id stream)
      then give (answered 400)
      else edit_with stream (requested_update now body)
