-- ===== src/Server/Prefixes.antt =====
-- internal/storage/keys.go with the identifiers of internal/server/routes.go: which keys a listing
-- prefix covers.
use Prim.Native.Char.{Char}
use Prim.Native.String.{String, ◌++◌}
use text.Mathlib.TextLemmas.{append_assoc, cons-append, nil-append}
use live_transcript_server.Prelude.{
  ◌≡◌, ◌≢◌, refl, ap, sym, ◌∙◌, true, false, ◌&&◌, [], ◌∷◌, All, arith,
}
use live_transcript_server.Storage.Keys.{
  stream_prefix, raw_key, audio_key, frame_key, clip_key, vod_key,
}
use live_transcript_server.Server.Ids.{is_id_char, has_id_chars, is_valid_id}

-- A key that a listing by the prefix finds.
abbrev pub IsUnder : String → String → Type 0
IsUnder prefix key = (rest : String) × (key ≡ prefix ++ rest)

cons_inj : (c d : Char) (s t : String) → String.◌∷◌ c s ≡ String.◌∷◌ d t → (c ≡ d) × (s ≡ t)
cons_inj c d s t h = (cc, cc)

abbrev slash : Char
slash = "/"

slash_cons : (r : String) → "/" ++ r ≡ String.◌∷◌ slash r
slash_cons r = cons-append slash String.[] r ∙ ap (String.◌∷◌ slash) (nil-append r)

-- A text of ID characters does not begin with a slash.
head_id : (c : Char) (s : String) → has_id_chars (String.◌∷◌ c s) ≡ true → c ≢ slash
unfolding has_id_chars
head_id c s h e = absurd (true_ne (sym h ∙ ap (λ d. is_id_char d && has_id_chars s) e))
  where
    true_ne : true ≢ false
    true_ne k = cc

tail_id : (c : Char) (s : String) → has_id_chars (String.◌∷◌ c s) ≡ true → has_id_chars s ≡ true
unfolding has_id_chars
tail_id c s h = ground arith

-- Where the first slash is.
split_at_slash :
    (s t r q : String)
    → has_id_chars s ≡ true
    → has_id_chars t ≡ true
    → s ++ String.◌∷◌ slash r ≡ t ++ String.◌∷◌ slash q
    → (s ≡ t) × (r ≡ q)
split_at_slash String.[] String.[] r q hs ht h =
    (refl, (cons_inj _ _ r q (sym (nil-append _) ∙ h ∙ nil-append _)).1)
split_at_slash String.[] (String.◌∷◌ d t) r q hs ht h =
    absurd (head_id d t ht (sym (cons_inj _ _ _ _ (sym (nil-append _) ∙ h ∙ cons-append d t _)).0))
split_at_slash (String.◌∷◌ c s) String.[] r q hs ht h =
    absurd (head_id c s hs (cons_inj _ _ _ _ (sym (cons-append c s _) ∙ h ∙ nil-append _)).0)
split_at_slash (String.◌∷◌ c s) (String.◌∷◌ d t) r q hs ht h =
    let (e, rest) =
      cons_inj c d (s ++ String.◌∷◌ slash r) (t ++ String.◌∷◌ slash q)
        (sym (cons-append c s _) ∙ h ∙ cons-append d t _) in
    let (same, tail) = split_at_slash s t r q (tail_id c s hs) (tail_id d t ht) rest in
    (rw (e, same) refl, tail)

-- What a prefix or a key is, after its stream's first slash.
prefix_tail :
    (channel stream rest : String)
    → stream_prefix channel stream ++ rest
      ≡ channel ++ String.◌∷◌ slash (stream ++ String.◌∷◌ slash rest)
unfolding stream_prefix
prefix_tail channel stream rest =
    append_assoc channel ("/" ++ (stream ++ "/")) rest
    ∙ ap (λ t. channel ++ t)
        (append_assoc "/" (stream ++ "/") rest
          ∙ slash_cons _
          ∙ ap (String.◌∷◌ slash)
              (append_assoc stream "/" rest ∙ ap (λ t. stream ++ t) (slash_cons rest)))

valid_chars : (s : String) → is_valid_id s ≡ true → has_id_chars s ≡ true
unfolding is_valid_id
valid_chars s h = ground arith

-- With channel keys and stream IDs that isValidID accepts: a key that is under the prefixes of two
-- streams is under that of one, the channel and the stream being the same.
pub stream_prefix_inj :
    (channel stream channel' stream' key : String)
    → is_valid_id channel ≡ true
    → is_valid_id stream ≡ true
    → is_valid_id channel' ≡ true
    → is_valid_id stream' ≡ true
    → IsUnder (stream_prefix channel stream) key
    → IsUnder (stream_prefix channel' stream') key
    → (channel ≡ channel') × (stream ≡ stream')
stream_prefix_inj channel stream channel' stream' key hc hs hc' hs' (r, e) (r', e') =
    let (same, rest) =
      split_at_slash channel channel' _ _ (valid_chars channel hc) (valid_chars channel' hc')
        (sym (prefix_tail channel stream r) ∙ sym e ∙ e' ∙ prefix_tail channel' stream' r') in
    (
      same,
      (split_at_slash stream stream' r r' (valid_chars stream hs) (valid_chars stream' hs') rest).0,
    )

under :
    (channel stream rest : String)
    → channel ++ ("/" ++ (stream ++ ("/" ++ rest))) ≡ stream_prefix channel stream ++ rest
unfolding stream_prefix
under channel stream rest = sym (
    append_assoc channel ("/" ++ (stream ++ "/")) rest
    ∙ ap (λ t. channel ++ t)
        (append_assoc "/" (stream ++ "/") rest ∙ ap (λ t. "/" ++ t) (append_assoc stream "/" rest)))

-- The key of every kind of file is under its stream's prefix.
pub keys-IsUnder :
    (channel stream id ext : String)
    → All (IsUnder (stream_prefix channel stream)) (
        raw_key channel stream id
        ∷ audio_key channel stream id
        ∷ frame_key channel stream id
        ∷ clip_key channel stream id ext
        ∷ vod_key channel stream id ext
        ∷ [])
unfolding raw_key audio_key frame_key clip_key vod_key
keys-IsUnder channel stream id ext = (
  (_, here "raw/" (id ++ ".raw")),
  (
    (_, here "audio/" (id ++ ".m4a")),
    (
      (_, here "frame/" (id ++ ".jpg")),
      ((_, here "clips/" (id ++ ext)), ((_, here "vod/" (id ++ ext)), tt)),
    ),
  ),
)
  where
    here :
        (kind file : String)
        → channel ++ ("/" ++ (stream ++ (("/" ++ kind) ++ file)))
          ≡ stream_prefix channel stream ++ (kind ++ file)
    here kind file =
        ap (λ t. channel ++ ("/" ++ (stream ++ t))) (append_assoc "/" kind file)
        ∙ under channel stream (kind ++ file)
