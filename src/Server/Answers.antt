-- ===== src/Server/Answers.antt =====
-- internal/server/handlers_events.go: what a poll that has been woken answers.
use live_transcript_server.Prelude.{
  ℕ, ◌≡◌, refl, ◌⊎◌, inl, inr, String, Bool, true, false, not, some, List, [], ◌∷◌, ◌++◌, ◌&&◌, ℤ,
  any, lt_ℤ, pos, Bool-cases, ◌==◌, if◌then◌else◌,
}
use live_transcript_server.Store.Sql.{Db, Result, err, Error}
use live_transcript_server.Store.Incoming.{latest_incoming}
use live_transcript_server.Store.Worker.{restart_request}
use live_transcript_server.Store.Outcome.{Result-cases}
use live_transcript_server.Notify.{on_signal, parked, returned, View, ready}
use live_transcript_server.Server.App.{answered, json}
use live_transcript_server.Server.Events.{
  Flag, incoming, restart, WorkerEventsResponse, is_empty, flags_of,
}
use live_transcript_server.Server.EventMap.{events_for}
use live_transcript_server.Server.Signals.{
  flags_in, has_flag, collect_worker_events-answers, flags_of-has_flag,
}
use live_transcript_server.Server.Polls.{
  Poll, EventsPoll, collect, has_entry, is_found, events_step, events_answer,
}
use live_transcript_server.Server.Wakes.{Run, Sees, parked-woken}

nothing_for :
    (key : String) (es : List (String × List Flag)) → has_entry es ≡ false → events_for key es ≡ []
unfolding events_for
nothing_for key [] h = refl
nothing_for key (e ∷ es) h = cc

no_flags : (m : Bool) (f : List Flag) → [] ≡ (if m then f else []) → (m && not (is_empty f)) ≡ false
no_flags true [] h = refl
no_flags true (f ∷ fs) h = cc
no_flags false f h = refl

due :
    (since latest at : ℤ)
    → (lt_ℤ since latest ≡ true) ⊎ (lt_ℤ (pos 0) at ≡ true)
    → is_empty (flags_of since latest at) ≡ false
unfolding flags_of
due since latest at h = go (lt_ℤ since latest) (lt_ℤ (pos 0) at) h
  where
    go :
        (a b : Bool)
        → (a ≡ true) ⊎ (b ≡ true)
        → is_empty ((if a then incoming ∷ [] else []) ++ (if b then restart ∷ [] else [])) ≡ false
    go true b h = refl
    go false true h = refl
    go false false (inl h) = cc
    go false false (inr h) = cc

module _ (q : EventsPoll) (key : String) where
  -- A channel of the poll has a signal.
  abbrev pub is_pending : Db → Bool
  is_pending db = any (λ k. k == key) q.keys && not (is_empty (flags_in key q.since db))

  -- The runs of a getEventsHandler that is past its refusals.
  abbrev pub EventsRun : View Db → ℕ → View Db → Poll (Result WorkerEventsResponse) → Type 0
  EventsRun = Run (collect q.keys q.since) is_found q.deadline is_pending

  collect-Sees : Sees (collect q.keys q.since) is_found q.deadline is_pending
  collect-Sees faults db h = elim (Result-cases (collect q.keys q.since faults db)) [
    | inl (resp, e) ↦
        let quiet : has_entry resp.events ≡ false = rw e at h in
        let (f, cursor, each, same) =
          collect_worker_events-answers q.keys q.since (record { db = db; faults = faults }) resp
            key e in
        no_flags _ _ (rw (nothing_for key resp.events quiet) at f)
    | inr (x, e) ↦ let wrong : true ≡ false = rw e at h in cc
  ]

  -- The answer holds both signals of the channel as the tables have them.
  abbrev pub Tells : Db → WorkerEventsResponse → Type 0
  Tells db resp =
      (has_flag incoming (events_for key resp.events) ≡ lt_ℤ q.since (latest_incoming key db))
      × (has_flag restart (events_for key resp.events) ≡ lt_ℤ (pos 0) (restart_request key db))

  -- The poll has returned: with a 500 if a query of its check failed, and else with an answer.
  abbrev pub IsAnswered : Db → List Bool → Poll (Result WorkerEventsResponse) → Type 0
  IsAnswered db faults p =
      (p.waiter ≡ returned ready)
      × (((e : Error) × (collect q.keys q.since faults db ≡ err e)
            × (events_answer p.captured ready ≡ some (answered 500)))
          ⊎ ((resp : WorkerEventsResponse) × (events_answer p.captured ready ≡ some (json resp))
              × Tells db resp))

  pending_of :
      (db : Db)
      → any (λ k. k == key) q.keys ≡ true
      → (lt_ℤ q.since (latest_incoming key db) ≡ true)
        ⊎ (lt_ℤ (pos 0) (restart_request key db) ≡ true)
      → is_pending db ≡ true
  pending_of db asked h =
      rw (asked, due q.since (latest_incoming key db) (restart_request key db) h) refl

  found :
      (faults : List Bool) (db : Db)
      → is_pending db ≡ true
      → is_found (collect q.keys q.since faults db) ≡ true
  found faults db h = elim (Bool-cases (is_found (collect q.keys q.since faults db))) [
    | inl e ↦ e
    | inr e ↦ let quiet = collect-Sees faults db e in cc
  ]

  collect-IsAnswered :
      (faults : List Bool) (db : Db) (p : Poll (Result WorkerEventsResponse))
      → p.waiter ≡ returned ready
      → p.captured ≡ collect q.keys q.since faults db
      → any (λ k. k == key) q.keys ≡ true
      → IsAnswered db faults p
  collect-IsAnswered faults db p done e asked = (
    done,
    elim (Result-cases (collect q.keys q.since faults db)) [
      | inl (resp, k) ↦
          let (f, cursor, each, same) =
            collect_worker_events-answers q.keys q.since (record { db = db; faults = faults }) resp
              key k in
          let (a, b) =
            flags_of-has_flag q.since (latest_incoming key db) (restart_request key db) in
          let g : events_for key resp.events ≡ flags_in key q.since db = rw asked at f in
          inr (resp, rw (e, k) refl, (rw g a, rw g b))
      | inr (x, k) ↦ inl (x, k, rw (e, k) refl)
    ],
  )

  -- Whatever a poll of getEventsHandler and the rest of the server have done, in whatever order and
  -- with whatever failed queries: if the poll is parked, every change of the tables has been
  -- followed by its Notify, and a channel that the poll lists has a queued URL above `since` or a
  -- restart request, then the next three steps of the poll, by the select's case for the signal,
  -- return. The answer is a 500 if a query of the check fails then, and else a JSON body, in which
  -- the channel has the flag "incoming" exactly if its latest URL is above `since`, and "restart"
  -- exactly if it has a restart request.
  pub get_events_handler-IsAnswered :
      {start v : View Db} {p : Poll (Result WorkerEventsResponse)} (s : ℕ) (faults : List Bool)
      → EventsRun start 0 v p
      → p.waiter ≡ parked s
      → any (λ k. k == key) q.keys ≡ true
      → (lt_ℤ q.since (latest_incoming key v.state) ≡ true)
        ⊎ (lt_ℤ (pos 0) (restart_request key v.state) ≡ true)
      → IsAnswered v.state faults (
          events_step q faults on_signal v
            (events_step q faults on_signal v (events_step q faults on_signal v p)))
  unfolding events_step
  get_events_handler-IsAnswered {v} {p} s faults r e asked h =
      let pending = pending_of v.state asked h in
      let (done, captured) =
        parked-woken (collect q.keys q.since) is_found q.deadline is_pending s faults collect-Sees r
          e pending (found faults v.state pending) in
      collect-IsAnswered faults v.state _ done captured asked
