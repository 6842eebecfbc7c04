-- ===== src/Ws/Tests.antt =====
-- internal/ws: the theorems on a hub with room for two connections and one client.
use live_transcript_server.Prelude.{ℕ, ◌≡◌, refl, not, pos, filter, arith}
use live_transcript_server.Ws.Events.{pong}
use live_transcript_server.Ws.Hub.{Hub, new_hub, reserve, add, broadcast}
use live_transcript_server.Ws.Wf.{IsWf}
use live_transcript_server.Ws.Accounting.{Reach, created, next, reserved, added}
use live_transcript_server.Ws.Fanout.{is_stale, delivered}
use live_transcript_server.Ws.Accounting.{Reach-IsWf}
use live_transcript_server.Ws.Fanout.{broadcast-effect}

abbrev one_client : Hub
one_client = (add (reserve (new_hub "chan" (pos 2))).1).1

one_client-Reach : Reach "chan" 2 0 one_client
unfolding reserve new_hub
one_client-Reach = next (next created (reserved (new_hub "chan" (pos 2)) refl)) (added _)

Reach-IsWf_example : IsWf 2 0 one_client
Reach-IsWf_example = Reach-IsWf {limit = 2} {p = 0} {h = one_client} (omega arith) one_client-Reach

broadcast-effect_example :
    ((broadcast (pong (pos 7)) one_client).clients
      ≡ filter (λ c. not (is_stale (one_client.heap c))) one_client.clients)
    × ((c : ℕ)
        → (broadcast (pong (pos 7)) one_client).heap c ≡ delivered (pong (pos 7)) one_client c)
broadcast-effect_example =
    broadcast-effect {limit = 2} {pending = 0} (pong (pos 7)) one_client
      (Reach-IsWf (omega arith) one_client-Reach)
