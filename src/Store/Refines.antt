-- ===== src/Store/Refines.antt =====
-- internal/store/incoming.go: the calls on the queue implement a map from channel and URL to a time.
use live_transcript_server.Prelude.{
  String, ◌≡◌, refl, ◌∙◌, ap, inl, inr, Bool, true, false, ◌||◌, Option, none, some, List, [], ◌∷◌,
  map, ℤ, lt_ℤ, any, any-sort_by, filter, sort_asc, Bool-cases, ◌==◌, if◌then◌else◌, arith,
}
use live_transcript_server.Store.Sql.{statement, Db, Conn, Result, ok, err, IncomingRow}
use live_transcript_server.Store.Incoming.{
  is_queued, is_for, queue_url, queued_for, queued_urls, delete_rows_where, upsert_incoming_stream,
  delete_incoming_stream, cleanup_expired_incoming_streams, clear_incoming_streams,
}
use live_transcript_server.Store.Outcome.{statement-cases}
use live_transcript_server.Store.Keys.{IsKeyed}
use live_transcript_server.Store.Calls.{
  queues, dequeues, expires, clears, run_call, run_call-IsKeyed,
}
use live_transcript_server.Store.Queue.{
  Queue, received_in, same, unexpired, received-update, received-append, received-dequeue,
  received-clear, received-expire,
}

-- The four calls that write the queue.
pub data QueueCall : Type 0 where
  announces : String → String → ℤ → QueueCall
  withdraws : String → String → QueueCall
  ages : ℤ → QueueCall
  empties : String → QueueCall

abbrev pub is_ok : {A : Type 0} → Result A → Bool
is_ok (ok a) = true
is_ok (err e) = false

-- A call: whether it succeeds, and the connection after it.
abbrev pub queue_call : QueueCall → Conn → Bool × Conn
queue_call (announces ch url at) c =
    (is_ok (upsert_incoming_stream ch url at c).0, (upsert_incoming_stream ch url at c).1)
queue_call (withdraws ch url) c =
    (is_ok (delete_incoming_stream ch url c).0, (delete_incoming_stream ch url c).1)
queue_call (ages cutoff) c = (
  is_ok (cleanup_expired_incoming_streams cutoff c).0,
  (cleanup_expired_incoming_streams cutoff c).1,
)
queue_call (empties ch) c = (is_ok (clear_incoming_streams ch c).0, (clear_incoming_streams ch c).1)

-- What a call does to the map.
abbrev pub apply : QueueCall → Queue → Queue
apply (announces ch u at) q channel url = if same channel url ch u then some at else q channel url
apply (withdraws ch u) q channel url = if same channel url ch u then none else q channel url
apply (ages cutoff) q channel url = unexpired cutoff (q channel url)
apply (empties ch) q channel url = if ch == channel then none else q channel url

-- The map that a database holds.
abbrev pub queue_of : Db → Queue
queue_of db channel url = received_in channel url db.incoming_streams

-- A call that fails does nothing.
abbrev pub apply_if : Bool → QueueCall → Queue → Queue
apply_if true call q = apply call q
apply_if false call q = q

abbrev pub run_queue : List QueueCall → Conn → Conn
run_queue [] c = c
run_queue (call ∷ calls) c = run_queue calls (queue_call call c).1

-- The same calls on the map, with the same failures.
abbrev pub run_map : List QueueCall → Conn → Queue → Queue
run_map [] c q = q
run_map (call ∷ calls) c q =
    run_map calls (queue_call call c).1 (apply_if (queue_call call c).0 call q)

keyed : (call : QueueCall) (c : Conn) → IsKeyed c.db → IsKeyed (queue_call call c).1.db
unfolding run_call
keyed (announces ch url at) c h = run_call-IsKeyed (queues ch url at) c h
keyed (withdraws ch url) c h = run_call-IsKeyed (dequeues ch url) c h
keyed (ages cutoff) c h = run_call-IsKeyed (expires cutoff) c h
keyed (empties ch) c h = run_call-IsKeyed (clears ch) c h

pub queue_url-received :
    (channel url ch u : String) (at : ℤ) (db : Db)
    → queue_of (queue_url ch u at db) channel url
      ≡ apply (announces ch u at) (queue_of db) channel url
unfolding queue_url
queue_url-received channel url ch u at db =
    elim (Bool-cases (any (is_queued ch u) db.incoming_streams)) [
      | inl e ↦ rw e (received-update channel url ch u at db.incoming_streams e)
      | inr e ↦ rw e (received-append channel url ch u at db.incoming_streams e)
    ]

-- A statement that does its work as the map does, or fails.
implements :
    {A : Type 0} (f : Db → Result A × Db) (call : QueueCall) (c : Conn)
    → is_ok (f c.db).0 ≡ true
    → ((channel url : String)
        → queue_of (f c.db).1 channel url ≡ apply call (queue_of c.db) channel url)
    → (channel url : String)
    → queue_of (statement f c).1.db channel url
      ≡ apply_if (is_ok (statement f c).0) call (queue_of c.db) channel url
implements f call c fine work channel url = elim (statement-cases f c) [
  | inl (a, b) ↦ rw (a, b, fine) (work channel url)
  | inr (a, b) ↦ rw (a, b) refl
]

simulates :
    (call : QueueCall) (c : Conn)
    → IsKeyed c.db
    → (channel url : String)
    → queue_of (queue_call call c).1.db channel url
      ≡ apply_if (queue_call call c).0 call (queue_of c.db) channel url
unfolding upsert_incoming_stream delete_incoming_stream cleanup_expired_incoming_streams
    clear_incoming_streams
simulates (announces ch u at) c h =
    implements (λ db. (ok tt, queue_url ch u at db)) (announces ch u at) c refl
      (λ channel url. queue_url-received channel url ch u at c.db)
simulates (withdraws ch u) c h =
    implements (delete_rows_where (is_queued ch u)) (withdraws ch u) c refl
      (λ channel url. received-dequeue channel url ch u c.db.incoming_streams)
simulates (ages cutoff) c h =
    implements (delete_rows_where (λ r. lt_ℤ r.received_at cutoff)) (ages cutoff) c refl
      (λ channel url. received-expire channel url cutoff c.db.incoming_streams h.incoming_streams)
simulates (empties ch) c h =
    implements (delete_rows_where (is_for ch)) (empties ch) c refl
      (λ channel url. received-clear channel url ch c.db.incoming_streams)

abbrev pub is_some : Option ℤ → Bool
is_some none = false
is_some (some at) = true

listed :
    (channel url : String) (rows : List IncomingRow)
    → any (λ r. r.url == url) (filter (is_for channel) rows)
      ≡ is_some (received_in channel url rows)
unfolding filter
listed channel url [] = refl
listed channel url (r ∷ rows) = ground (arith, listed channel url rows)

any-map :
    (url : String) (rows : List IncomingRow)
    → any (λ u. u == url) (map (λ r. r.url) rows) ≡ any (λ r. r.url == url) rows
any-map url [] = refl
any-map url (r ∷ rows) = ap (λ b. r.url == url || b) (any-map url rows)

queued_urls-listed :
    (channel url : String) (db : Db)
    → any (λ u. u == url) (queued_urls channel db) ≡ is_some (queue_of db channel url)
unfolding queued_urls queued_for
queued_urls-listed channel url db =
    any-map url (sort_asc (λ r. r.received_at) (filter (is_for channel) db.incoming_streams))
    ∙ any-sort_by _ (λ r. r.url == url) (filter (is_for channel) db.incoming_streams)
    ∙ listed channel url db.incoming_streams

run_queue-queue_of :
    (calls : List QueueCall) (c : Conn) (q : Queue)
    → IsKeyed c.db
    → ((channel url : String) → queue_of c.db channel url ≡ q channel url)
    → (channel url : String)
    → queue_of (run_queue calls c).db channel url ≡ run_map calls c q channel url
run_queue-queue_of [] c q h agree channel url = agree channel url
run_queue-queue_of (call ∷ calls) c q h agree channel url =
    let as_map : queue_of c.db ≡ q = λ i channel url. agree channel url i in
    run_queue-queue_of calls (queue_call call c).1 (apply_if (queue_call call c).0 call q)
      (keyed call c h)
      (λ channel url.
        simulates call c h channel url
        ∙ ap (λ q. apply_if (queue_call call c).0 call q channel url) as_map)
      channel url

-- From tables whose keys are distinct, any sequence of UpsertIncomingStream, DeleteIncomingStream,
-- CleanupExpiredIncomingStreams and ClearIncomingStreams, of which any may fail, does to the map
-- from channel and URL to a time what the same sequence of updates of a map does, of which a failed
-- one does nothing: the queue of the tables afterwards is that map, and GetIncomingStreams lists for
-- a channel exactly the URLs that the map has a time for.
pub run_queue-Refines :
    (calls : List QueueCall) (c : Conn)
    → IsKeyed c.db
    → (channel url : String)
    → (queue_of (run_queue calls c).db channel url ≡ run_map calls c (queue_of c.db) channel url)
      × (any (λ u. u == url) (queued_urls channel (run_queue calls c).db)
          ≡ is_some (run_map calls c (queue_of c.db) channel url))
run_queue-Refines calls c h channel url =
    let e = run_queue-queue_of calls c (queue_of c.db) h (λ channel url. refl) channel url in
    (e, queued_urls-listed channel url (run_queue calls c).db ∙ ap is_some e)
