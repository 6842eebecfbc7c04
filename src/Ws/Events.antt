-- ===== src/Ws/Events.antt =====
-- internal/ws/events.go: the messages, one constructor for each EventType that the server sends,
-- with the fields of its data in their order.
use live_transcript_server.Prelude.{String, Bool, List, ℤ}
use live_transcript_server.Model.{Line, Stream}

-- EventSyncData
pub record SyncData : Type 0 where
  pub stream_id : String
  pub stream_title : String
  pub start_time : String
  pub is_live : Bool
  pub media_type : String
  pub media_base_url : String
  pub transcript : List Line

-- EventNewLineData
pub record NewLineData : Type 0 where
  pub line_id : ℤ
  pub timestamp : ℤ
  pub upload_time : ℤ
  pub media_available : Bool
  pub segments : String
  pub vod_accurate : Bool

-- EventNewStreamData
pub record NewStreamData : Type 0 where
  pub stream_id : String
  pub stream_title : String
  pub start_time : String
  pub media_type : String
  pub media_base_url : String
  pub is_live : Bool

-- EventStatusData
pub record StatusData : Type 0 where
  pub stream_id : String
  pub stream_title : String
  pub is_live : Bool

-- EventNewMediaData; `files` is the map from line to file.
pub record NewMediaData : Type 0 where
  pub stream_id : String
  pub files : List (ℤ × String)

-- EventUpdatedStreamData
pub record UpdatedStreamData : Type 0 where
  pub stream_id : String
  pub stream_title : String
  pub start_time : String
  pub media_type : String
  pub is_live : Bool

-- EventDeletedStreamData
pub record DeletedStreamData : Type 0 where
  pub stream_id : String
  pub stream_title : String
  pub was_live : Bool

-- type Message, with its EventType.
pub data Message : Type 0 where
  new_line : NewLineData → Message
  new_stream : NewStreamData → Message
  status : StatusData → Message
  sync partial_sync : SyncData → Message
  new_media : NewMediaData → Message
  -- EventPingPongData
  pong : ℤ → Message
  -- EventPastStreamsData
  past_streams : List Stream → Message
  deleted_stream : DeletedStreamData → Message
  updated_stream : UpdatedStreamData → Message
