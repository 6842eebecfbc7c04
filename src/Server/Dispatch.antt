-- ===== src/Server/Dispatch.antt =====
-- internal/server/routes.go: that no request matches two routes, so that their order does not matter.
use live_transcript_server.Prelude.{
  ℕ, zero, suc, String, ◌≡◌, refl, inl, inr, Bool, true, false, not, ◌&&◌, ◌||◌, some, List, [],
  ◌∷◌, any, get_elem?, Bool-cases, ◌==◌, eq_iff, arith,
}
use live_transcript_server.Server.Routes.{
  Segment, channel_key, wildcard, text, Route, Request, Keys, guarded, takes, match_path,
  match_method, matches, channel_in, routes, serve_from, serve,
}

-- Whether a segment can be taken by both.
abbrev overlap_segment : Segment → Segment → Bool
overlap_segment (text t) (text u) = t == u
overlap_segment (text t) channel_key = true
overlap_segment (text t) wildcard = true
overlap_segment channel_key q = true
overlap_segment wildcard q = true

overlap_segment_sound :
    (p q : Segment) (s : String) → takes p s ≡ true → takes q s ≡ true → overlap_segment p q ≡ true
overlap_segment_sound (text t) (text u) s h k =
    ground (arith, h, k, eq_iff s t, eq_iff s u, eq_iff t u)
overlap_segment_sound (text t) channel_key s h k = refl
overlap_segment_sound (text t) wildcard s h k = refl
overlap_segment_sound channel_key q s h k = refl
overlap_segment_sound wildcard q s h k = refl

-- Whether a path can match both patterns.
abbrev overlap_path : List Segment → List Segment → Bool
overlap_path [] [] = true
overlap_path [] (q ∷ qs) = false
overlap_path (p ∷ ps) [] = false
overlap_path (p ∷ ps) (q ∷ qs) = overlap_segment p q && overlap_path ps qs

overlap_path_sound :
    (ps qs : List Segment) (path : List String)
    → match_path ps path ≡ true
    → match_path qs path ≡ true
    → overlap_path ps qs ≡ true
overlap_path_sound [] [] path h k = refl
overlap_path_sound [] (q ∷ qs) [] h k = cc
overlap_path_sound [] (q ∷ qs) (s ∷ path) h k = cc
overlap_path_sound (p ∷ ps) [] [] h k = cc
overlap_path_sound (p ∷ ps) [] (s ∷ path) h k = cc
overlap_path_sound (p ∷ ps) (q ∷ qs) [] h k = cc
overlap_path_sound (p ∷ ps) (q ∷ qs) (s ∷ path) h k =
    ground (arith, h, k, overlap_segment_sound p q s, overlap_path_sound ps qs path)

-- Whether a method can match both of two methods of patterns, of which HEAD is none.
abbrev overlap_method : String → String → Bool
overlap_method a b = a == b || a == "HEAD" || b == "HEAD"

overlap_method_sound :
    (a b method : String)
    → match_method a method ≡ true
    → match_method b method ≡ true
    → overlap_method a b ≡ true
overlap_method_sound a b method h k = ground (
  arith,
  h,
  k,
  eq_iff a method,
  eq_iff b method,
  eq_iff a "GET",
  eq_iff b "GET",
  eq_iff method "HEAD",
  eq_iff a b,
  eq_iff a "HEAD",
  eq_iff b "HEAD",
)

abbrev overlap : Route → Route → Bool
overlap r s = overlap_method r.method s.method && overlap_path r.pattern s.pattern

overlap_sound :
    (req : Request) (r s : Route) → matches req r ≡ true → matches req s ≡ true → overlap r s ≡ true
overlap_sound req r s h k = ground (
  arith,
  h,
  k,
  overlap_method_sound r.method s.method req.method,
  overlap_path_sound r.pattern s.pattern req.path,
)

abbrev apart : List Route → Bool
apart [] = true
apart (r ∷ rs) = not (any (overlap r) rs) && apart rs

at_any :
    (p : Route → Bool) (rs : List Route) (i : ℕ) (r : Route)
    → get_elem? rs i ≡ some r
    → p r ≡ true
    → any p rs ≡ true
at_any p [] i r h k = cc
at_any p (s ∷ rs) zero r h k = let same : s ≡ r = cc in ground (arith, same, k)
at_any p (s ∷ rs) (suc i) r h k = ground (arith, at_any p rs i r h k)

serve_from-route :
    (keys : Keys) (req : Request) (rs : List Route) (i : ℕ) (r : Route)
    → apart rs ≡ true
    → get_elem? rs i ≡ some r
    → matches req r ≡ true
    → serve_from rs keys req ≡ guarded keys req r.guard (channel_in r.pattern req.path) r.endpoint
serve_from-route keys req [] i r d h k = cc
serve_from-route keys req (s ∷ rs) zero r d h k = let same : s ≡ r = cc in rw (same, k) refl
serve_from-route keys req (s ∷ rs) (suc i) r d h k = elim (Bool-cases (matches req s)) [
  | inl e ↦
      let both = at_any (overlap s) rs i r h (overlap_sound req s r e k) in absurd (ground arith)
  | inr e ↦ rw e (serve_from-route keys req rs i r (ground arith) h k)
]

-- A request that a route of the table matches, wherever the route stands in it, is answered by that
-- route: by its guard with the channel of the path, and its handler. So no route hides another.
pub serve-route :
    (keys : Keys) (req : Request) (i : ℕ) (r : Route)
    → get_elem? routes i ≡ some r
    → matches req r ≡ true
    → (req.method == "OPTIONS") ≡ false
    → serve keys req ≡ guarded keys req r.guard (channel_in r.pattern req.path) r.endpoint
unfolding serve
serve-route keys req i r h k other = rw other (serve_from-route keys req routes i r refl h k)
