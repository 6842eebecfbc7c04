-- ===== src/Prelude/Text.antt =====
-- The functions of Go's strings, strconv and path/filepath that the handlers call.
use Prim.Native.Nat.{ℕ, zero, suc, ◌/◌, ◌%◌}
use Prim.Native.Char.{Char, code}
use Prim.Native.String.{String, ◌++◌}
use mathlib.Core.Path.{◌≡◌, refl}
use mathlib.Core.Bool.{Bool, false, not, ◌&&◌, ◌||◌}
use mathlib.Core.List.{List, [], ◌∷◌}
use text.Mathlib.Text.{◌==◌}
use live_transcript_server.Prelude.Tests.{ltb, leb, eqb, if◌then◌else◌}
use live_transcript_server.Prelude.Int.{ℤ, pos, negsuc}

-- unicode.IsSpace
abbrev is_space : Char → Bool
is_space c =
    leb 9 (code c) && leb (code c) 13
    || eqb (code c) 32
    || eqb (code c) 0x85
    || eqb (code c) 0xa0
    || eqb (code c) 0x1680
    || leb 0x2000 (code c) && leb (code c) 0x200a
    || eqb (code c) 0x2028
    || eqb (code c) 0x2029
    || eqb (code c) 0x202f
    || eqb (code c) 0x205f
    || eqb (code c) 0x3000

pub trim_left : String → String
trim_left String.[] = ""
trim_left (String.◌∷◌ c s) = let rest = trim_left s in if is_space c then rest else String.◌∷◌ c s

pub trim_right : String → String
trim_right String.[] = ""
trim_right (String.◌∷◌ c s) =
    let rest = trim_right s in if is_space c && rest == "" then "" else String.◌∷◌ c rest

-- strings.TrimSpace
unfoldable pub trim_space : String → String
unfolding trim_left trim_right
trim_space s = trim_right (trim_left s)

-- strings.HasSuffix
unfoldable pub has_suffix : String → String → Bool
has_suffix String.[] t = t == ""
has_suffix (String.◌∷◌ c s) t = String.◌∷◌ c s == t || has_suffix s t

-- strings.TrimSuffix
unfoldable pub trim_suffix : String → String → String
trim_suffix String.[] t = ""
trim_suffix (String.◌∷◌ c s) t =
    let rest = trim_suffix s t in if String.◌∷◌ c s == t then "" else String.◌∷◌ c rest

unfoldable pub has_char : ℕ → String → Bool
has_char n String.[] = false
has_char n (String.◌∷◌ c s) = eqb (code c) n || has_char n s

-- filepath.Ext
unfoldable pub ext : String → String
unfolding has_char
ext String.[] = ""
ext (String.◌∷◌ c s) =
    let rest = ext s in
    if not (rest == "")
    then rest
    else if eqb (code c) b'.' && not (has_char b'/' s)
    then String.◌∷◌ c s
    else ""

-- The part before the first comma goes to the head.
abbrev pub onto_head : Char → List String → List String
onto_head c [] = String.◌∷◌ c "" ∷ []
onto_head c (s ∷ rest) = String.◌∷◌ c s ∷ rest

-- strings.Split(s, ",")
unfoldable pub split_commas : String → List String
split_commas String.[] = "" ∷ []
split_commas (String.◌∷◌ c s) =
    let rest = split_commas s in if eqb (code c) b',' then "" ∷ rest else onto_head c rest

abbrev digit : ℕ → String
digit n =
    if eqb n 0
    then "0"
    else if eqb n 1
    then "1"
    else if eqb n 2
    then "2"
    else if eqb n 3
    then "3"
    else if eqb n 4
    then "4"
    else if eqb n 5
    then "5"
    else if eqb n 6
    then "6"
    else if eqb n 7
    then "7"
    else if eqb n 8
    then "8"
    else "9"

-- The decimal digits, at most as many as the first argument says.
unfoldable pub digits : ℕ → ℕ → String
digits zero n = ""
digits (suc f) n =
    let rest = digits f (n / 10) in if ltb n 10 then digit n else rest ++ digit (n % 10)

-- strconv.FormatInt(x, 10): an int64 has at most 19 digits.
unfoldable pub format_int : ℤ → String
unfolding digits
format_int (pos n) = digits 20 n
format_int (negsuc n) = "-" ++ digits 20 (suc n)

ext_test : ext "a.b/clip.m4a" ≡ ".m4a"
unfolding ext
ext_test = refl

format_int_test : format_int (pos 946684800) ≡ "946684800"
unfolding format_int
format_int_test = refl

split_commas_test : split_commas "a,b,,c" ≡ "a" ∷ "b" ∷ "" ∷ "c" ∷ []
unfolding split_commas
split_commas_test = refl

trim_space_test : trim_space "  a b " ≡ "a b"
unfolding trim_space
trim_space_test = refl
