-- ===== src/Server/Sink.antt =====
-- internal/server/app.go: QueueIncomingStream, by which the Discord bot hands over a URL.
use live_transcript_server.Prelude.{String, Bool, true, false, List, any, ℤ, ◌==◌, if◌then◌else◌}
use live_transcript_server.Store.Sql.{Result, ok, err}
use live_transcript_server.Store.Incoming.{upsert_incoming_stream}
use live_transcript_server.Server.App.{Act, give, ◌>>=◌, ◌>>◌, store, bump_admin_change}

abbrev pub queued_if : Result (Unit {0}) → Act Bool
queued_if (err e) = give false
queued_if (ok u) = do bump_admin_change; give true

-- QueueIncomingStream: whether it returns no error. `known` are the keys of app.Channels, and the
-- App is that of `channel`.
unfoldable pub queue_incoming_stream : List String → String → String → ℤ → Act Bool
queue_incoming_stream known channel url now =
    if any (λ c. c == channel) known
    then (do done ← store (upsert_incoming_stream channel url now); queued_if done)
    else give false
