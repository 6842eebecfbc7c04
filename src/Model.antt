-- ===== src/Model.antt =====
-- internal/model/model.go: the data that the worker, the database and the clients exchange.
-- A Go `int` or `int64` is a `ℤ`; `json.RawMessage` is opaque text and is a `String`.
use live_transcript_server.Prelude.{String, Bool, List, ℤ}

-- type Line
pub record Line : Type 0 where
  pub id : ℤ
  pub file_id : String
  pub timestamp : ℤ
  pub segments : String
  pub media_available : Bool
  pub vod_accurate : Bool

-- type Stream
pub record Stream : Type 0 where
  pub channel_id : String
  pub stream_id : String
  pub stream_title : String
  pub start_time : String
  pub is_live : Bool
  pub media_type : String
  pub activated_time : ℤ

-- type WorkerData
pub record WorkerData : Type 0 where
  pub stream_id : String
  pub stream_title : String
  pub start_time : String
  pub is_live : Bool
  pub media_type : String
  pub transcript : List Line

-- type WorkerStatus; `IsActive` is computed by the handlers and is no column.
pub record WorkerStatus : Type 0 where
  pub channel_key : String
  pub worker_version : String
  pub worker_build_time : String
  pub last_seen : ℤ
  pub is_active : Bool
