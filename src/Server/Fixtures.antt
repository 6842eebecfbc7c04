-- ===== src/Server/Fixtures.antt =====
-- internal/server: a channel with a few streams, for the tests.
use live_transcript_server.Prelude.{String, Bool, true, false, some, List, [], ◌∷◌, ℤ, pos}
use live_transcript_server.Model.{Stream}
use live_transcript_server.Store.Sql.{Db}
use live_transcript_server.Store.Outcome.{clean}
use live_transcript_server.Ws.Hub.{new_hub}
use live_transcript_server.Notify.{new}
use live_transcript_server.Server.App.{Config, App}
use live_transcript_server.Server.Vods.{new_vod_registry}
use live_transcript_server.Server.Events.{WorkerEventsResponse, incoming, restart}
use live_transcript_server.Model.{Line, WorkerData}
use live_transcript_server.Store.Transcripts.{row_of}
use live_transcript_server.Server.Upload.{Upload}

abbrev pub stream_at : String → ℤ → Bool → Stream
stream_at id at live = record {
  channel_id = "chan";
  stream_id = id;
  stream_title = "title";
  start_time = "100";
  is_live = live;
  media_type = "audio";
  activated_time = at;
}

abbrev pub tables : Db
tables = record {
  streams =
      stream_at "a" (pos 1) false ∷ stream_at "b" (pos 2) false ∷ stream_at "c" (pos 3) true ∷ [];
  transcripts = [];
  worker_status = [];
  incoming_streams = record { channel_key = "chan"; url = "url"; received_at = pos 50 } ∷ [];
  worker_restart_requests = record { channel_key = "chan"; requested_at = pos 40 } ∷ [];
}

abbrev pub config : Config
config = record {
  key = "chan";
  num_past_streams = pos 1;
  is_local = true;
  base_url = "/media/";
  probe = λ prefix. some true;
  admin_key = "secret";
  members_name = "members";
  archive_configured = true;
}

abbrev pub app_with : List Bool → App
app_with faults = record {
  conn = record { db = tables; faults = faults };
  hub = new_hub "chan" (pos 2);
  admin_change_counter = pos 1;
  notifier = new;
  vods = new_vod_registry;
  deletions = [];
  starts = [];
  audits = [];
}

abbrev pub chan : String
chan = "chan"

abbrev pub stream_a : String
stream_a = "a"

abbrev pub first_line : Line
first_line = record {
  id = pos 0;
  file_id = "";
  timestamp = pos 10;
  segments = "[]";
  media_available = false;
  vod_accurate = false;
}

-- The channel with line 0 in stream "a".
abbrev pub with_line : App
with_line = record (app_with []) {
  conn = clean (record tables { transcripts = row_of "chan" "a" first_line ∷ [] });
}

abbrev pub next_line : Line
next_line = record first_line { id = pos 1 }

abbrev pub sync_data : WorkerData
sync_data = record {
  stream_id = "a";
  stream_title = "title";
  start_time = "100";
  is_live = true;
  media_type = "audio";
  transcript = next_line ∷ first_line ∷ [];
}

abbrev pub upload : Upload
upload = record {
  id = some (pos 0);
  form = true;
  file = true;
  created = true;
  copied = true;
  converted = true;
  raw_saved = true;
  audio_saved = true;
  file_id = "f0";
}

-- What the queue and the restart request give.
abbrev pub found : WorkerEventsResponse
found = record { cursor = pos 50; events = ("chan", incoming ∷ restart ∷ []) ∷ [] }

abbrev pub restarting : WorkerEventsResponse
restarting = record { cursor = pos 50; events = ("chan", restart ∷ []) ∷ [] }
