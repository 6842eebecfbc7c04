-- ===== src/Server/RouteTests.antt =====
-- internal/server/routes.go: the theorems on a request of an admin.
use live_transcript_server.Prelude.{◌≡◌, refl, some, [], ◌∷◌}
use live_transcript_server.Server.Routes.{
  Request, Keys, status, runs, delete_admin_stream, admin_channel, channel_key, text, wildcard,
  route, guarded, serve,
}
use live_transcript_server.Server.Guards.{IsAllowed, serve-IsAllowed}
use live_transcript_server.Server.Dispatch.{serve-route}

abbrev keys : Keys
keys = record { api_key = "api"; channels = ("chan", "secret") ∷ ("other", "") ∷ [] }

abbrev deletes : Request
deletes = record {
  method = "DELETE";
  path = "chan" ∷ "admin" ∷ "stream" ∷ "a" ∷ [];
  api_key = "";
  admin_key = "secret";
}

runs_test : serve keys deletes ≡ runs delete_admin_stream (some "chan")
unfolding serve
runs_test = refl

refused_test :
    serve keys (record deletes { path = "other" ∷ "admin" ∷ "stream" ∷ "a" ∷ [] }) ≡ status 403
unfolding serve
refused_test = refl

method_test : serve keys (record deletes { method = "PUT" }) ≡ status 405
unfolding serve
method_test = refl

serve-IsAllowed_example : IsAllowed keys deletes (serve keys deletes)
serve-IsAllowed_example = serve-IsAllowed keys deletes

serve-route_example :
    serve keys deletes ≡ guarded keys deletes admin_channel "chan" delete_admin_stream
serve-route_example =
    serve-route keys deletes 20
      (route "DELETE" (channel_key ∷ text "admin" ∷ text "stream" ∷ wildcard ∷ []) admin_channel
        delete_admin_stream)
      refl refl refl
