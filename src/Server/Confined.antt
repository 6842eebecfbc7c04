-- ===== src/Server/Confined.antt =====
-- internal/server/handlers_public.go: which files can be read from the outside.
use Prim.Native.String.{String, ◌++◌}
use live_transcript_server.Prelude.{
  ◌≡◌, ◌≢◌, refl, Bool, true, false, not, ◌||◌, Option, none, some, List, [], ◌∷◌, ext, trim_suffix,
  ◌==◌, eq_iff, sym, subst, if◌then◌else◌, arith,
}
use live_transcript_server.Server.Ids.{is_valid_id}
use live_transcript_server.Server.App.{Config, Reply, answered, json}
use live_transcript_server.Server.Files.{
  Stat, present, missing, unknown, Served, content_type, is_one_of, serve_if, serve, stream_as,
  download_as, is_present, stream_handler, get_frame_handler, download_handler,
}

-- A file of a stream's folder: one of the given kinds of folder, a name that is a valid ID, and an
-- extension that has a content type.
pub record IsConfined (kinds : List String) (path : List String) : Type 0 where
  pub stream : String
  pub kind : String
  pub id : String
  pub extension : String
  pub below : path ≡ stream ∷ kind ∷ (id ++ extension) ∷ []
  pub of_kind : is_one_of kind kinds ≡ true
  pub valid_stream : is_valid_id stream ≡ true
  pub valid_id : is_valid_id id ≡ true
  pub known : content_type extension ≢ none

-- A request for a file: the stream, the kind of folder and the name in its path.
pub data Request : Type 0 where
  to_stream to_download : String → String → String → Request
  to_frame : String → String → Request

abbrev pub kinds_of : Request → List String
kinds_of (to_stream stream kind file) = "audio" ∷ "clips" ∷ []
kinds_of (to_frame stream file) = "frame" ∷ []
kinds_of (to_download stream kind file) = "audio" ∷ "clips" ∷ "frame" ∷ "vod" ∷ []

module _ (cfg : Config) (stat : List String → Stat) where
  served_path :
      (path : List String) (content : String) (s : Stat) (f : Served)
      → serve_if cfg stat path content s ≡ json f
      → f.path ≡ path
  served_path path content present f h = ground arith
  served_path path content missing f h = cc
  served_path path content unknown f h = cc

  stream_as-IsConfined :
      (stream kind id extension : String) (content : Option String) (f : Served)
      → content_type extension ≡ content
      → is_one_of kind ("audio" ∷ "clips" ∷ []) ≡ true
      → stream_as cfg stat stream kind id extension content ≡ json f
      → IsConfined ("audio" ∷ "clips" ∷ []) f.path
  stream_as-IsConfined stream kind id extension none f c k h = cc
  stream_as-IsConfined stream kind id extension (some content) f c k h =
      go (extension == ".jpg") (is_valid_id stream) (is_valid_id id) refl refl h
    where
      go :
          (j v w : Bool)
          → is_valid_id stream ≡ v
          → is_valid_id id ≡ w
          → (if j
              then answered 400
              else if not v || not w
              then answered 400
              else serve cfg stat (stream ∷ kind ∷ (id ++ extension) ∷ []) content)
            ≡ json f
          → IsConfined ("audio" ∷ "clips" ∷ []) f.path
      go true v w e d h = cc
      go false false w e d h = cc
      go false true false e d h = cc
      go false true true e d h = record {
        stream = stream;
        kind = kind;
        id = id;
        extension = extension;
        below = served_path _ content _ f h;
        of_kind = k;
        valid_stream = e;
        valid_id = d;
        known = λ n. cc;
      }

  -- A file that streamHandler serves.
  stream_handler-IsConfined :
      (stream kind filename : String) (f : Served)
      → stream_handler cfg stat stream kind filename ≡ json f
      → IsConfined ("audio" ∷ "clips" ∷ []) f.path
  unfolding stream_handler
  stream_handler-IsConfined stream kind filename f h =
      go cfg.is_local (is_one_of kind ("audio" ∷ "clips" ∷ [])) refl h
    where
      go :
          (l k : Bool)
          → is_one_of kind ("audio" ∷ "clips" ∷ []) ≡ k
          → (if not l
              then answered 400
              else if not k
              then answered 400
              else stream_as cfg stat stream kind
                  (trim_suffix filename (ext filename))
                  (ext filename)
                  (content_type (ext filename)))
            ≡ json f
          → IsConfined ("audio" ∷ "clips" ∷ []) f.path
      go false k e h = cc
      go true false e h = cc
      go true true e h =
          stream_as-IsConfined stream kind (trim_suffix filename (ext filename)) (ext filename)
            (content_type (ext filename)) f refl e h

  -- A frame that getFrameHandler serves.
  get_frame_handler-IsConfined :
      (stream filename : String) (f : Served)
      → get_frame_handler cfg stat stream filename ≡ json f
      → IsConfined ("frame" ∷ []) f.path
  unfolding get_frame_handler content_type
  get_frame_handler-IsConfined stream filename f h =
      go cfg.is_local (ext filename == ".jpg") (is_valid_id stream)
        (is_valid_id (trim_suffix filename (ext filename))) refl refl refl h
    where
      path : List String
      path = stream ∷ "frame" ∷ (trim_suffix filename (ext filename) ++ ext filename) ∷ []

      go :
          (l j v w : Bool)
          → (ext filename == ".jpg") ≡ j
          → is_valid_id stream ≡ v
          → is_valid_id (trim_suffix filename (ext filename)) ≡ w
          → (if not l
              then answered 400
              else if not j
              then answered 400
              else if not v || not w
              then answered 400
              else serve cfg stat path "image/jpeg")
            ≡ json f
          → IsConfined ("frame" ∷ []) f.path
      go false j v w a e d h = cc
      go true false v w a e d h = cc
      go true true false w a e d h = cc
      go true true true false a e d h = cc
      go true true true true a e d h =
          let jpg : ext filename ≡ ".jpg" = (eq_iff (ext filename) ".jpg").0 a in
          record {
            stream = stream;
            kind = "frame";
            id = trim_suffix filename (ext filename);
            extension = ext filename;
            below = served_path path "image/jpeg" _ f h;
            of_kind = refl;
            valid_stream = e;
            valid_id = d;
            known = subst (λ x. content_type x ≢ none) (sym jpg) (λ n. cc);
          }

  download_as-IsConfined :
      (stream kind id extension : String) (content : Option String) (f : Served)
      → content_type extension ≡ content
      → is_one_of kind ("audio" ∷ "clips" ∷ "frame" ∷ "vod" ∷ []) ≡ true
      → is_valid_id stream ≡ true
      → is_valid_id id ≡ true
      → download_as cfg stat stream kind id extension content ≡ json f
      → IsConfined ("audio" ∷ "clips" ∷ "frame" ∷ "vod" ∷ []) f.path
  download_as-IsConfined stream kind id extension none f c k e d h = cc
  download_as-IsConfined stream kind id extension (some content) f c k e d h = record {
    stream = stream;
    kind = kind;
    id = id;
    extension = extension;
    below = served_path _ content _ f h;
    of_kind = k;
    valid_stream = e;
    valid_id = d;
    known = λ n. cc;
  }

  -- A file that downloadHandler serves.
  download_handler-IsConfined :
      (stream kind filename : String) (f : Served)
      → download_handler cfg stat stream kind filename ≡ json f
      → IsConfined ("audio" ∷ "clips" ∷ "frame" ∷ "vod" ∷ []) f.path
  unfolding download_handler
  download_handler-IsConfined stream kind filename f h =
      go cfg.is_local (is_one_of kind ("audio" ∷ "clips" ∷ "frame" ∷ "vod" ∷ []))
        (is_valid_id stream) (is_present cfg stat (stat (stream ∷ [])))
        (is_valid_id (trim_suffix filename (ext filename))) refl refl refl h
    where
      go :
          (l k v p w : Bool)
          → is_one_of kind ("audio" ∷ "clips" ∷ "frame" ∷ "vod" ∷ []) ≡ k
          → is_valid_id stream ≡ v
          → is_valid_id (trim_suffix filename (ext filename)) ≡ w
          → (if not l
              then answered 400
              else if not k
              then answered 400
              else if not v
              then answered 400
              else if not p
              then answered 404
              else if not w
              then answered 400
              else download_as cfg stat stream kind
                  (trim_suffix filename (ext filename))
                  (ext filename)
                  (content_type (ext filename)))
            ≡ json f
          → IsConfined ("audio" ∷ "clips" ∷ "frame" ∷ "vod" ∷ []) f.path
      go false k v p w a e d h = cc
      go true false v p w a e d h = cc
      go true true false p w a e d h = cc
      go true true true false w a e d h = cc
      go true true true true false a e d h = cc
      go true true true true true a e d h =
          download_as-IsConfined stream kind (trim_suffix filename (ext filename)) (ext filename)
            (content_type (ext filename)) f refl a e d h

  abbrev pub answer : Request → Reply Served
  answer (to_stream stream kind file) = stream_handler cfg stat stream kind file
  answer (to_frame stream file) = get_frame_handler cfg stat stream file
  answer (to_download stream kind file) = download_handler cfg stat stream kind file

  -- Whatever the path of the request and whatever is on the disk: a file that streamHandler,
  -- getFrameHandler or downloadHandler serves is in a folder of audio or clips, of frames, or of
  -- any of these or VODs, directly below the folder of a stream, where the stream and the name
  -- before the extension are valid IDs, and the extension is one that has a content type.
  pub files-IsConfined :
      (req : Request) (f : Served) → answer req ≡ json f → IsConfined (kinds_of req) f.path
  files-IsConfined (to_stream stream kind file) f h = stream_handler-IsConfined stream kind file f h
  files-IsConfined (to_frame stream file) f h = get_frame_handler-IsConfined stream file f h
  files-IsConfined (to_download stream kind file) f h =
      download_handler-IsConfined stream kind file f h
