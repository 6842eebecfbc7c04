-- ===== src/Server/Ids.antt =====
-- internal/server/routes.go: the identifiers that may stand in keys and paths.
use Prim.Native.Char.{Char, code}
use Prim.Native.String.{String, len}
use live_transcript_server.Prelude.{Bool, true, ◌&&◌, ◌||◌, leb, ltb, eqb}

-- [A-Za-z0-9_-]
abbrev pub is_id_char : Char → Bool
is_id_char c =
    leb 65 (code c) && leb (code c) 90
    || leb 97 (code c) && leb (code c) 122
    || leb 48 (code c) && leb (code c) 57
    || eqb (code c) 95
    || eqb (code c) 45

unfoldable pub has_id_chars : String → Bool
has_id_chars String.[] = true
has_id_chars (String.◌∷◌ c s) = is_id_char c && has_id_chars s

-- isValidID; validIDPattern matches a text that has a character and only such.
unfoldable pub is_valid_id : String → Bool
unfolding has_id_chars
is_valid_id s = ltb 0 (len s) && leb (len s) 128 && has_id_chars s
