-- ===== src/Server/ClipRanges.antt =====
-- internal/server/handlers_public.go: what a clip is made of.
use Prim.Native.String.{String}
use live_transcript_server.Prelude.{◌≡◌, List, ◌∷◌, map, ℤ, pos, ◌≤ℤ◌, length}
use live_transcript_server.Store.Sql.{Db, Sql}
use live_transcript_server.Store.Transcripts.{scan_file_ids}
use live_transcript_server.Store.Keys.{IsKeyed}
use live_transcript_server.Store.Range.{range_rows, IsWhole}
use live_transcript_server.Storage.Keys.{clip_key}
use live_transcript_server.Server.App.{Config, App, ◌>>=◌}
use live_transcript_server.Server.Clips.{ClipRequest, ClipSteps, Clip}

module _ (cfg : Config) (max : ℤ) (steps : ClipSteps) (id : String) (req : ClipRequest)
    (db : Db) where
  -- The clip has the files of all the lines that were asked for, in their order, and is saved under
  -- the ID that is answered.
  pub record IsClip (answer : String) (clip : Clip) : Type 0 where
    pub whole :
        IsWhole req.start req.end
          (range_rows cfg.key req.stream_id req.start req.end db)
          clip.sources
    pub bounded : pos (length clip.sources) ≤ℤ max
    pub answers : answer ≡ id
    pub kept :
        (ext : String) × (rest : List String) × (clip.saved
          ≡ clip_key cfg.key req.stream_id id ext ∷ rest)

  module _ (keyed : IsKeyed db) (answer : String) where
    abbrev files : List String
    files =
        scan_file_ids (map (λ r. r.file_id) (range_rows cfg.key req.stream_id req.start req.end db))
