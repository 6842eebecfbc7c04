-- ===== src/Storage/Keys.antt =====
-- internal/storage/keys.go: the keys {channel}/{streamID}/{kind}/{file} and their prefixes.
use Prim.Native.String.{String, ◌++◌}

-- StreamPrefix
unfoldable pub stream_prefix : String → String → String
stream_prefix channel stream = channel ++ ("/" ++ (stream ++ "/"))

-- RawPrefix
unfoldable pub raw_prefix : String → String → String
raw_prefix channel stream = channel ++ ("/" ++ (stream ++ "/raw/"))

-- VodPrefix
unfoldable pub vod_prefix : String → String → String
vod_prefix channel stream = channel ++ ("/" ++ (stream ++ "/vod/"))

-- RawKey
unfoldable pub raw_key : String → String → String → String
raw_key channel stream file = channel ++ ("/" ++ (stream ++ ("/raw/" ++ (file ++ ".raw"))))

-- AudioKey
unfoldable pub audio_key : String → String → String → String
audio_key channel stream file = channel ++ ("/" ++ (stream ++ ("/audio/" ++ (file ++ ".m4a"))))

-- FrameKey
unfoldable pub frame_key : String → String → String → String
frame_key channel stream file = channel ++ ("/" ++ (stream ++ ("/frame/" ++ (file ++ ".jpg"))))

-- ClipKey
unfoldable pub clip_key : String → String → String → String → String
clip_key channel stream id ext = channel ++ ("/" ++ (stream ++ ("/clips/" ++ (id ++ ext))))

-- VodKey
unfoldable pub vod_key : String → String → String → String → String
vod_key channel stream id ext = channel ++ ("/" ++ (stream ++ ("/vod/" ++ (id ++ ext))))
