-- ===== src/Server/Delivery.antt =====
-- internal/server/app.go and handlers_events.go: from QueueIncomingStream to the answer of a parked
-- poll.
use live_transcript_server.Prelude.{
  ℕ, ◌≡◌, refl, ◌∙◌, inl, inr, String, Bool, true, false, Option, some, List, [], ◌∷◌, ℤ, ◌≤ℤ◌,
  lt_ℤ, any, filter, Bool-cases, ◌==◌, eq_refl, if◌then◌else◌, arith,
}
use live_transcript_server.Store.Sql.{Db, Result, ok, IncomingRow}
use live_transcript_server.Store.Incoming.{
  is_for, is_queued, queued_for, queue_url, latest_of, latest_incoming, max_received,
  upsert_incoming_stream,
}
use live_transcript_server.Store.Outcome.{statement-ok, Result-cases}
use live_transcript_server.Store.Queue.{received_in}
use live_transcript_server.Store.Refines.{queue_url-received}
use live_transcript_server.Notify.{notify, parked, on_signal, View}
use live_transcript_server.Notify.Wakeup.{changes, notifies}
use live_transcript_server.Server.App.{App, bump_admin_change}
use live_transcript_server.Server.Events.{WorkerEventsResponse}
use live_transcript_server.Server.Polls.{Poll, EventsPoll, events_step}
use live_transcript_server.Server.Wakes.{others}
use live_transcript_server.Server.Answers.{EventsRun, IsAnswered, get_events_handler-IsAnswered}
use live_transcript_server.Server.Sink.{queue_incoming_stream}

max_received-above : (m : ℤ) (rows : List IncomingRow) → m ≤ℤ max_received m rows
max_received-above m [] = omega arith
max_received-above m (r ∷ rows) = elim (Bool-cases (lt_ℤ m r.received_at)) [
  | inl e ↦ rw e (let h = max_received-above r.received_at rows in ground arith)
  | inr e ↦ rw e (max_received-above m rows)
]

max_received-first :
    (m : ℤ) (r : IncomingRow) (rows : List IncomingRow) → r.received_at ≤ℤ max_received m (r ∷ rows)
max_received-first m r rows = elim (Bool-cases (lt_ℤ m r.received_at)) [
  | inl e ↦ rw e (max_received-above r.received_at rows)
  | inr e ↦ rw e (let h = max_received-above m rows in ground arith)
]

module _ (channel url : String) (at : ℤ) where
  -- The row that is found first.
  time_of :
      (r : IncomingRow) (rest : Option ℤ)
      → is_queued channel url r ≡ true
      → (if is_queued channel url r then some r.received_at else rest) ≡ some at
      → r.received_at ≡ at
  time_of r rest e h = let g : some r.received_at ≡ some at = rw e at h in cc

  received-max :
      (m : ℤ) (rows : List IncomingRow)
      → received_in channel url rows ≡ some at
      → at ≤ℤ max_received m (filter (is_for channel) rows)
  unfolding filter
  received-max m [] h = cc
  received-max m (r ∷ rows) h = elim (Bool-cases (is_for channel r)) [
    | inl e ↦ elim (Bool-cases (r.url == url)) [
      | inl k ↦
          let same = time_of r (received_in channel url rows) (rw (e, k) refl) h in
          rw e (rw (← same) (max_received-first m r (filter (is_for channel) rows)))
      | inr k ↦
          rw e
            (received-max (if lt_ℤ m r.received_at then r.received_at else m) rows (rw (e, k) at h))
    ]
    | inr e ↦ rw e (received-max m rows (rw e at h))
  ]

  received-latest :
      (rows : List IncomingRow)
      → received_in channel url rows ≡ some at
      → at ≤ℤ latest_of (filter (is_for channel) rows)
  unfolding filter
  received-latest [] h = cc
  received-latest (r ∷ rows) h = elim (Bool-cases (is_for channel r)) [
    | inl e ↦ elim (Bool-cases (r.url == url)) [
      | inl k ↦
          let same = time_of r (received_in channel url rows) (rw (e, k) refl) h in
          rw e (rw (← same) (max_received-above r.received_at (filter (is_for channel) rows)))
      | inr k ↦ rw e (received-max r.received_at rows (rw (e, k) at h))
    ]
    | inr e ↦ rw e (received-latest rows (rw e at h))
  ]

  queue_url-latest : (db : Db) → at ≤ℤ latest_incoming channel (queue_url channel url at db)
  unfolding latest_incoming queued_for
  queue_url-latest db =
      received-latest (queue_url channel url at db).incoming_streams
        (queue_url-received channel url channel url at db ∙ rw (eq_refl channel, eq_refl url) refl)

newer_than : (a b c : ℤ) → lt_ℤ a b ≡ true → b ≤ℤ c → lt_ℤ a c ≡ true
newer_than a b c h k = ground arith

-- The next three steps of a poll, by the select's case for the signal.
abbrev pub woken_by :
    EventsPoll
    → List Bool
    → View Db
    → Poll (Result WorkerEventsResponse)
    → Poll (Result WorkerEventsResponse)
woken_by q faults v p =
    events_step q faults on_signal v
      (events_step q faults on_signal v (events_step q faults on_signal v p))

-- What a poll sees of the server.
abbrev pub seen : App → ℤ → Bool → View Db
seen app now cancelled = record {
  notifier = app.notifier;
  state = app.conn.db;
  now = now;
  cancelled = cancelled;
}

module _ (known : List String) (channel url : String) (at : ℤ) where
  abbrev delivered : App → Bool × App
  delivered = queue_incoming_stream known channel url at

  delivered-App :
      (app : App)
      → (delivered app).0 ≡ true
      → ((delivered app).1.conn.db ≡ queue_url channel url at app.conn.db)
        × ((delivered app).1.notifier ≡ notify app.notifier)
  unfolding queue_incoming_stream bump_admin_change upsert_incoming_stream
  delivered-App app h = elim (Bool-cases (any (λ c. c == channel) known)) [
    | inl e ↦ elim (Result-cases (upsert_incoming_stream channel url at app.conn).0) [
      | inl (u, done) ↦
          let (same, after) =
            statement-ok (λ db. (ok tt, queue_url channel url at db)) app.conn u done in
          rw (e, done) (after, refl)
      | inr (x, refused) ↦ let wrong : false ≡ true = rw (e, refused) at h in cc
    ]
    | inr e ↦ let wrong : false ≡ true = rw e at h in cc
  ]

-- Whatever a poll of getEventsHandler and the rest of the server have done: if the poll is parked and
-- every change of the tables has been followed by its Notify, and then QueueIncomingStream succeeds
-- for a channel that the poll lists, at a time above the poll's `since`, then the next three steps
-- of the poll, by the select's case for the signal, return, with a 500 if a query of the check
-- fails and else with a body in which the channel has the flag "incoming".
pub queue_incoming_stream-IsAnswered :
    (known : List String) (channel url : String) (at : ℤ) (app : App) (now : ℤ) (cancelled : Bool)
    (q : EventsPoll) {start : View Db} {p : Poll (Result WorkerEventsResponse)} (s : ℕ)
    → EventsRun q channel start 0 (seen app now cancelled) p
    → p.waiter ≡ parked s
    → any (λ k. k == channel) q.keys ≡ true
    → lt_ℤ q.since at ≡ true
    → (queue_incoming_stream known channel url at app).0 ≡ true
    → (faults : List Bool)
    → IsAnswered q channel (queue_incoming_stream known channel url at app).1.conn.db faults (
        woken_by q faults (seen (queue_incoming_stream known channel url at app).1 now cancelled) p)
      × (lt_ℤ q.since
            (latest_incoming channel (queue_incoming_stream known channel url at app).1.conn.db)
          ≡ true)
queue_incoming_stream-IsAnswered known channel url at app now cancelled q {start} {p} s run e asked
      late done faults =
    let (tables, woken) = delivered-App known channel url at app done in
    let newer : lt_ℤ q.since (latest_incoming channel (queue_url channel url at app.conn.db))
        ≡ true =
      newer_than q.since at _ late (queue_url-latest channel url at app.conn.db) in
    let after : View Db = record {
      notifier = notify app.notifier;
      state = queue_url channel url at app.conn.db;
      now = now;
      cancelled = cancelled;
    } in
    let queueing : EventsRun q channel start 1
        (record (seen app now cancelled) { state = queue_url channel url at app.conn.db }) p =
      others run
        (changes (seen app now cancelled) p.waiter (queue_url channel url at app.conn.db)) in
    let told : EventsRun q channel start 0 after p = others queueing (
      notifies (record (seen app now cancelled) { state = queue_url channel url at app.conn.db })
        p.waiter) in
    rw (tables, woken)
      (
        get_events_handler-IsAnswered q channel {start = start} {v = after} {p = p} s faults told e
            asked (inl newer),
        newer,
      )
