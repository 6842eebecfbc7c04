-- ===== src/Ws/Hub.antt =====
-- internal/ws/hub.go: Client and Hub. A `*Client` is a number: the clients are allocated by Add,
-- and their state is in the hub's heap, also after Remove. Each operation is one step, as
-- it runs under the hub's mutex, or, for a channel, is one select; so are the steps by which Remove
-- closes a client's channel and connection, which follow the release of the mutex.
use live_transcript_server.Prelude.{
  ℕ, suc, String, Bool, true, false, ◌||◌, List, [], ◌∷◌, ◌++◌, ℤ, pos, le_ℤ, succ64, pred64,
  length, any, eqb, leb, if◌then◌else◌,
}
use live_transcript_server.Ws.Events.{Message}

-- make(chan Message, 256)
abbrev pub send_buffer : ℕ
send_buffer = 256

-- type Client: what waits in `send`, whether `done` is closed, and whether `conn` is.
pub record Client : Type 0 where
  pub send : List Message
  pub done : Bool
  pub closed : Bool

-- type Hub
pub record Hub : Type 0 where
  pub key : String
  pub clients : List ℕ
  pub connections : ℤ
  pub max_conn : ℤ
  pub heap : ℕ → Client
  pub allocated : ℕ

abbrev pub new_client : Client
new_client = record { send = []; done = false; closed = false }

-- NewHub
unfoldable pub new_hub : String → ℤ → Hub
new_hub key max_conn = record {
  key = key;
  clients = [];
  connections = pos 0;
  max_conn = max_conn;
  heap = λ c. new_client;
  allocated = 0;
}

abbrev pub set_client : ℕ → Client → Hub → Hub
set_client c client h = record h { heap = λ d. if eqb c d then client else h.heap d }

-- Whether TrySend is refused: the client is removed, or its buffer is full.
abbrev pub is_refused : Client → Bool
is_refused client = client.done || leb send_buffer (length client.send)

abbrev pub queued : Message → Client → Client
queued msg client = record client { send = client.send ++ msg ∷ [] }

-- TrySend
unfoldable pub try_send : ℕ → Message → Hub → Bool × Hub
try_send c msg h =
    if is_refused (h.heap c) then (false, h) else (true, set_client c (queued msg (h.heap c)) h)

-- Reserve
unfoldable pub reserve : Hub → Bool × Hub
unfolding succ64
reserve h =
    if le_ℤ h.max_conn h.connections
    then (false, h)
    else (true, record h { connections = succ64 h.connections })

-- Unreserve
unfoldable pub unreserve : Hub → Hub
unfolding pred64
unreserve h = record h { connections = pred64 h.connections }

-- Add
unfoldable pub add : Hub → ℕ × Hub
add h = (
  h.allocated,
  set_client h.allocated new_client
      (record h { clients = h.clients ++ h.allocated ∷ []; allocated = suc h.allocated }),
)

-- slices.Delete at the first place that holds the client.
unfoldable pub delete : ℕ → List ℕ → List ℕ
delete c [] = []
delete c (d ∷ ds) = let rest = delete c ds in if eqb c d then ds else d ∷ rest

abbrev pub shut : Client → Client
shut client = record client { done = true; closed = true }

-- Remove
unfoldable pub remove : ℕ → Hub → Bool × Hub
unfolding pred64 delete
remove c h =
    if any (eqb c) h.clients
    then (
      true,
      set_client c (shut (h.heap c))
          (record h { clients = delete c h.clients; connections = pred64 h.connections }),
    )
    else (false, h)

abbrev pub note_stale : ℕ → Bool × Hub → List ℕ × Hub → List ℕ × Hub
note_stale c sent rest = (if sent.0 then rest.0 else c ∷ rest.0, rest.1)

-- The loop of Broadcast under the mutex: the clients that could not accept the message.
unfoldable pub offer : Message → List ℕ → Hub → List ℕ × Hub
unfolding try_send
offer msg [] h = ([], h)
offer msg (c ∷ cs) h = let sent = try_send c msg h in note_stale c sent (offer msg cs sent.1)

-- The second loop of Broadcast, after the mutex is released.
unfoldable pub remove_all : List ℕ → Hub → Hub
unfolding remove
remove_all [] h = h
remove_all (c ∷ cs) h = remove_all cs (remove c h).1

-- Broadcast
unfoldable pub broadcast : Message → Hub → Hub
unfolding offer remove_all
broadcast msg h = let offered = offer msg h.clients h in remove_all offered.0 offered.1

-- Connections
unfoldable pub connections : Hub → ℤ
connections h = h.connections

-- ClientCount
unfoldable pub client_count : Hub → ℕ
client_count h = length h.clients
