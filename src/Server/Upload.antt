-- ===== src/Server/Upload.antt =====
-- internal/server/handlers_worker.go: mediaHandler.
use live_transcript_server.Prelude.{
  String, Bool, true, false, not, ◌&&◌, Option, none, some, List, [], ◌∷◌, ℤ, pos, if◌then◌else◌,
}
use live_transcript_server.Store.Sql.{Result, ok, err, not_found}
use live_transcript_server.Store.Streams.{stream_exists, get_stream_by_id}
use live_transcript_server.Store.Transcripts.{get_last_available_media_files, set_media_available}
use live_transcript_server.Server.Ids.{is_valid_id}
use live_transcript_server.Server.App.{Config, Act, give, ◌>>=◌, ◌>>◌, store}
use live_transcript_server.Server.Lifecycle.{broadcast_new_media}
use live_transcript_server.Server.Worker.{Response, status}

-- What the request and the outside answer: the ID in the path, the form and its file, the temporary
-- file, app.Media.Convert, the two uploads, and the file ID that shortuuid gives.
pub record Upload : Type 0 where
  pub id : Option ℤ
  pub form : Bool
  pub file : Bool
  pub created : Bool
  pub copied : Bool
  pub converted : Bool
  pub raw_saved : Bool
  pub audio_saved : Bool
  pub file_id : String

module _ (cfg : Config) (stream : String) (up : Upload) (id : ℤ) where
  abbrev pub tell_files : Result (List (ℤ × String)) → Act (Unit {0})
  tell_files (ok files) = broadcast_new_media cfg stream files
  tell_files (err e) = broadcast_new_media cfg stream ((id, up.file_id) ∷ [])

  -- The answer of the last SetMediaAvailable, and what follows the response.
  abbrev pub committed : Result (Unit {0}) → Act Response
  committed (err e) = give (status 500)
  committed (ok u) = do
    files ← store (get_last_available_media_files cfg.key stream (pos 100))
    tell_files files
    give (status 200)

  abbrev pub retried : Result (Unit {0}) → Act Response
  retried (err not_found) = do
    again ← store (set_media_available cfg.key stream id up.file_id true)
    committed again
  retried (err e) = committed (err e)
  retried (ok u) = committed (ok u)

  -- From the read of the stream's media type on, whose frame goes to the storage alone.
  unfoldable pub commit_media : Act Response
  unfolding broadcast_new_media
  commit_media = do
    found ← store (get_stream_by_id cfg.key stream)
    marked ← store (set_media_available cfg.key stream id up.file_id true)
    retried marked

  abbrev pub with_stream : Result Bool → Act Response
  with_stream (err e) = give (status 500)
  with_stream (ok false) = give (status 404)
  with_stream (ok true) =
      if not (up.created && up.copied)
      then give (status 500)
      else if not up.converted
      then give (status 500)
      else if not (up.raw_saved && up.audio_saved)
      then give (status 500)
      else commit_media

  unfoldable pub accept_media : Act Response
  unfolding commit_media is_valid_id
  accept_media =
      if not (up.form && up.file)
      then give (status 400)
      else if not (is_valid_id stream)
      then give (status 400)
      else do exists ← store (stream_exists cfg.key stream); with_stream exists

-- mediaHandler
abbrev pub media_for : Config → String → Upload → Option ℤ → Act Response
media_for cfg stream up none = give (status 400)
media_for cfg stream up (some id) = accept_media cfg stream up id

unfoldable pub media_handler : Config → String → Upload → Act Response
unfolding accept_media
media_handler cfg stream up = media_for cfg stream up up.id
