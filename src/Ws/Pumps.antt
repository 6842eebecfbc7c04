-- ===== src/Ws/Pumps.antt =====
-- internal/ws/hub.go: the read loop and the write pump of a client, as what they do at each frame.
use live_transcript_server.Prelude.{
  ℕ, Bool, true, false, List, [], ◌∷◌, ℤ, pos, Option, none, some, if◌then◌else◌,
}
use live_transcript_server.Ws.Events.{Message, pong}
use live_transcript_server.Ws.Hub.{Hub, set_client, try_send, remove}

-- The data of a ping: no map, a map with a number under "timestamp", or a map without one.
pub data PingData : Type 0 where
  not_map no_timestamp : PingData
  timestamp : ℤ → PingData

-- What conn.ReadJSON gives: a ping, another message, a disconnect (IsClientDisconnectError), or
-- another error.
pub data Read : Type 0 where
  ping : PingData → Read
  other disconnected broken : Read

-- One turn of ReadLoop on a ping.
unfoldable pub answer_ping : ℕ → PingData → Hub → Hub
unfolding try_send
answer_ping c not_map h = h
answer_ping c no_timestamp h = (try_send c (pong (pos 0)) h).1
answer_ping c (timestamp t) h = (try_send c (pong t) h).1

-- ReadLoop over the frames that arrive, and whether it returns an error. If the frames end, the
-- loop waits: `none`.
unfoldable pub read_loop : ℕ → List Read → Hub → Option Bool × Hub
unfolding answer_ping
read_loop c [] h = (none, h)
read_loop c (ping frame ∷ rest) h = read_loop c rest (answer_ping c frame h)
read_loop c (other ∷ rest) h = read_loop c rest h
read_loop c (disconnected ∷ rest) h = (some false, h)
read_loop c (broken ∷ rest) h = (some true, h)

-- What wakes writePump: a message with the outcome of its write, the closed `done`, or the end of
-- the server's context.
pub data Wake : Type 0 where
  message : Bool → Wake
  done cancelled : Wake

abbrev pub write_one : ℕ → Bool → Hub → List Message → Option Message × Hub
write_one c written h [] = (none, h)
write_one c written h (msg ∷ rest) =
    let h' = set_client c (record (h.heap c) { send = rest }) h in
    if written then (some msg, h') else (none, (remove c h').1)

-- One turn of writePump: the message that reached the client, and the hub, from which the deferred
-- Remove has taken the client where the turn is the last.
unfoldable pub write_turn : ℕ → Wake → Hub → Option Message × Hub
unfolding remove
write_turn c (message written) h = write_one c written h (h.heap c).send
write_turn c done h = (none, if (h.heap c).done then (remove c h).1 else h)
write_turn c cancelled h = (none, (remove c h).1)
