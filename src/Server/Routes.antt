-- ===== src/Server/Routes.antt =====
-- internal/server/routes.go: the table of routes, the middlewares, and http.ServeMux's choice of a
-- route. A handler is its name.
use live_transcript_server.Prelude.{
  ℕ, String, Bool, true, false, not, ◌&&◌, ◌||◌, Option, none, some, List, [], ◌∷◌, ◌++◌, any, ◌==◌,
  if◌then◌else◌,
}

-- The methods of App that the table names.
pub data Endpoint : Type 0 where
  activate deactivate sync line media statuscheck worker_status get_events get_incoming
        delete_incoming post_restart get_restart delete_restart :
      Endpoint
  admin_ui get_admin_info admin_poll post_admin_incoming delete_admin_incoming post_admin_restart
        delete_admin_restart delete_admin_stream post_admin_stream post_admin_stop get_admin_vod
        post_admin_vod get_admin_membership post_admin_membership delete_admin_membership :
      Endpoint
  get_status websocket stream download get_frame get_transcript post_clip post_trim : Endpoint

-- What a handler is wrapped in: apiKeyMiddleware with and without withChannel, withAdminChannel,
-- withChannel alone, nothing.
pub data Guard : Type 0 where
  worker_channel worker admin_channel channel unguarded : Guard

-- A segment of a pattern: {channel}, another wildcard, or a text.
pub data Segment : Type 0 where
  channel_key wildcard : Segment
  text : String → Segment

pub record Route : Type 0 where
  pub method : String
  pub pattern : List Segment
  pub guard : Guard
  pub endpoint : Endpoint

abbrev pub route : String → List Segment → Guard → Endpoint → Route
route method pattern guard endpoint = record {
  method = method;
  pattern = pattern;
  guard = guard;
  endpoint = endpoint;
}

-- /{channel}/…
abbrev pub under : String → List Segment
under name = channel_key ∷ text name ∷ []

abbrev pub admin : String → List Segment
admin name = channel_key ∷ text "admin" ∷ text name ∷ []

abbrev pub worker_routes : List Route
worker_routes =
    route "POST" (under "activate") worker_channel activate
    ∷ route "POST" (under "deactivate") worker_channel deactivate
    ∷ route "POST" (under "sync") worker_channel sync
    ∷ route "POST" (channel_key ∷ text "line" ∷ wildcard ∷ []) worker_channel line
    ∷ route "POST" (channel_key ∷ text "media" ∷ wildcard ∷ wildcard ∷ []) worker_channel media
    ∷ route "GET" (under "statuscheck") worker_channel statuscheck
    ∷ route "POST" (text "status" ∷ []) worker worker_status
    ∷ route "GET" (text "events" ∷ []) worker get_events
    ∷ route "GET" (under "incoming") worker_channel get_incoming
    ∷ route "DELETE" (under "incoming") worker_channel delete_incoming
    ∷ route "POST" (under "restart") worker_channel post_restart
    ∷ route "GET" (under "restart") worker_channel get_restart
    ∷ route "DELETE" (under "restart") worker_channel delete_restart
    ∷ []

abbrev pub admin_routes : List Route
admin_routes =
    route "GET" (under "ui") channel admin_ui
    ∷ route "GET" (admin "info") admin_channel get_admin_info
    ∷ route "GET" (admin "poll") admin_channel admin_poll
    ∷ route "POST" (admin "incoming") admin_channel post_admin_incoming
    ∷ route "DELETE" (admin "incoming") admin_channel delete_admin_incoming
    ∷ route "POST" (admin "restart") admin_channel post_admin_restart
    ∷ route "DELETE" (admin "restart") admin_channel delete_admin_restart
    ∷ route "DELETE" (channel_key ∷ text "admin" ∷ text "stream" ∷ wildcard ∷ []) admin_channel
        delete_admin_stream
    ∷ route "POST" (channel_key ∷ text "admin" ∷ text "stream" ∷ wildcard ∷ []) admin_channel
        post_admin_stream
    ∷ route "POST" (admin "stop") admin_channel post_admin_stop
    ∷ route "GET" (channel_key ∷ text "admin" ∷ text "vod" ∷ wildcard ∷ []) admin_channel
        get_admin_vod
    ∷ route "POST" (channel_key ∷ text "admin" ∷ text "vod" ∷ wildcard ∷ []) admin_channel
        post_admin_vod
    ∷ route "GET" (admin "membership") admin_channel get_admin_membership
    ∷ route "POST" (admin "membership") admin_channel post_admin_membership
    ∷ route "DELETE" (admin "membership") admin_channel delete_admin_membership
    ∷ []

abbrev pub public_routes : List Route
public_routes =
    route "GET" (text "status" ∷ []) unguarded get_status
    ∷ route "GET" (under "websocket") channel websocket
    ∷ route "GET" (channel_key ∷ text "stream" ∷ wildcard ∷ wildcard ∷ wildcard ∷ []) channel stream
    ∷ route "GET" (channel_key ∷ text "download" ∷ wildcard ∷ wildcard ∷ wildcard ∷ []) channel
        download
    ∷ route "GET" (channel_key ∷ text "frame" ∷ wildcard ∷ wildcard ∷ []) channel get_frame
    ∷ route "GET" (channel_key ∷ text "transcript" ∷ wildcard ∷ []) channel get_transcript
    ∷ route "POST" (under "clip") channel post_clip
    ∷ route "POST" (under "trim") channel post_trim
    ∷ []

-- A request: the segments of its path, and the headers X-API-Key and X-Admin-Key, "" for one that is
-- not there.
pub record Request : Type 0 where
  pub method : String
  pub path : List String
  pub api_key : String
  pub admin_key : String

-- app.ApiKey, and app.Channels with the admin key of each.
pub record Keys : Type 0 where
  pub api_key : String
  pub channels : List (String × String)

-- An answer with a status, or the handler that runs, with the channel that it is given.
pub data Answer : Type 0 where
  status : ℕ → Answer
  runs : Endpoint → Option String → Answer

-- app.Channels[key]
abbrev pub admin_key_of : String → List (String × String) → Option String
admin_key_of key [] = none
admin_key_of key (c ∷ cs) = if c.0 == key then some c.1 else admin_key_of key cs

module _ (keys : Keys) (req : Request) where
  -- apiKeyMiddleware
  abbrev pub api_key_middleware : Answer → Answer
  api_key_middleware next =
      if keys.api_key == ""
      then status 503
      else if not (req.api_key == keys.api_key)
      then status 403
      else next

  abbrev pub if_channel : Option String → (String → Answer) → Answer
  if_channel none h = status 404
  if_channel (some secret) h = h secret

  -- withChannel; the handler is given the channel's admin key.
  abbrev pub with_channel : String → (String → Answer) → Answer
  with_channel key h = if_channel (admin_key_of key keys.channels) h

  -- withAdminChannel
  abbrev pub with_admin_channel : String → Answer → Answer
  with_admin_channel key next = with_channel key (λ secret.
      if secret == ""
      then status 403
      else if req.admin_key == "" || not (req.admin_key == secret)
      then status 403
      else next)

  abbrev pub guarded : Guard → String → Endpoint → Answer
  guarded worker_channel key e = api_key_middleware (with_channel key (λ secret. runs e (some key)))
  guarded worker key e = api_key_middleware (runs e none)
  guarded admin_channel key e = with_admin_channel key (runs e (some key))
  guarded channel key e = with_channel key (λ secret. runs e (some key))
  guarded unguarded key e = runs e none

-- No wildcard takes an empty segment.
abbrev pub takes : Segment → String → Bool
takes channel_key s = not (s == "")
takes wildcard s = not (s == "")
takes (text t) s = s == t

-- Whether a pattern matches a path.
abbrev pub match_path : List Segment → List String → Bool
match_path [] [] = true
match_path [] (s ∷ path) = false
match_path (p ∷ pattern) [] = false
match_path (p ∷ pattern) (s ∷ path) = takes p s && match_path pattern path

-- A pattern for GET takes HEAD too.
abbrev pub match_method : String → String → Bool
match_method pattern method = pattern == method || pattern == "GET" && method == "HEAD"

abbrev pub matches : Request → Route → Bool
matches req r = match_method r.method req.method && match_path r.pattern req.path

-- r.PathValue("channel")
abbrev pub channel_in : List Segment → List String → String
channel_in [] path = ""
channel_in (p ∷ pattern) [] = ""
channel_in (channel_key ∷ pattern) (s ∷ path) = s
channel_in (wildcard ∷ pattern) (s ∷ path) = channel_in pattern path
channel_in (text t ∷ pattern) (s ∷ path) = channel_in pattern path

-- RegisterRoutes
abbrev pub routes : List Route
routes = worker_routes ++ (admin_routes ++ public_routes)

-- The answer of the mux: 405 where only the method of a route does not match.
abbrev pub serve_from : List Route → Keys → Request → Answer
serve_from [] keys req =
    if any (λ r. match_path r.pattern req.path) routes then status 405 else status 404
serve_from (r ∷ rs) keys req =
    if matches req r
    then guarded keys req r.guard (channel_in r.pattern req.path) r.endpoint
    else serve_from rs keys req

-- CorsMiddleware, without the headers that it adds, over the mux.
abbrev pub cors_middleware : Request → Answer → Answer
cors_middleware req next = if req.method == "OPTIONS" then status 200 else next

unfoldable pub serve : Keys → Request → Answer
serve keys req = cors_middleware req (serve_from routes keys req)
