-- ===== src/Server/PollTests.antt =====
-- internal/server/handlers_events.go: the theorems on the polls, for one channel.
use live_transcript_server.Prelude.{
  ◌≡◌, refl, inl, lt_ℤ, true, false, some, none, [], ◌∷◌, ℤ, pos, filter, trim_space, split_commas,
}
use live_transcript_server.Store.Sql.{Db, Result, ok, statement}
use live_transcript_server.Store.Incoming.{
  latest_incoming, queued_for, upsert_incoming_stream, get_latest_incoming_time,
}
use live_transcript_server.Store.Worker.{restart_request, get_restart_request}
use live_transcript_server.Notify.{
  new, notify, current_signal, subscribed, parked, on_signal, on_timer, View, wait, select, ready,
  timeout,
}
use live_transcript_server.Notify.Wakeup.{changes, notifies, passes}
use live_transcript_server.Server.Events.{
  WorkerEventsResponse, collect_worker_events, collect_from, note_channel, flags_of, set_events,
  parse_wait_seconds,
}
use live_transcript_server.Server.Polls.{
  Poll, poll_step, EventsPoll, started, get_events_handler, events_step, events_answer,
  load_counter, is_other, admin_poll_step, admin_poll_handler,
}
use live_transcript_server.Server.Wakes.{Run, called, polls, others}
use live_transcript_server.Server.Fixtures.{tables, app_with}
use live_transcript_server.Server.App.{App, bump_admin_change}
use live_transcript_server.Server.Sink.{queue_incoming_stream}
use live_transcript_server.Server.Delivery.{seen, woken_by, queue_incoming_stream-IsAnswered}
use live_transcript_server.Server.Answers.{
  is_pending, EventsRun, IsAnswered, get_events_handler-IsAnswered,
}
use live_transcript_server.Server.Outcomes.{
  MeantEvents, get_events_handler-IsMeant, MeantPoll, admin_poll_handler-IsMeant,
}

abbrev query : EventsPoll
query = record { keys = "chan" ∷ []; since = pos 45; deadline = pos 125 }

get_events_handler_test :
    get_events_handler ("chan" ∷ "other" ∷ []) " chan" (some (pos 45)) none (pos 100)
    ≡ started query
unfolding get_events_handler parse_wait_seconds trim_space split_commas
get_events_handler_test = refl

abbrev nothing : Result WorkerEventsResponse
nothing = ok (record { cursor = pos 0; events = [] })

abbrev none_queued : Db
none_queued = record tables { incoming_streams = []; worker_restart_requests = [] }

abbrev quiet : View Db
quiet = record { notifier = new; state = none_queued; now = pos 100; cancelled = false }

-- The URL has been queued and told while the poll was parked.
abbrev told : View Db
told = record quiet { notifier = notify new; state = tables }

abbrev waiting : Poll (Result WorkerEventsResponse)
waiting = record { waiter = parked 0; captured = ok (record { cursor = pos 45; events = [] }) }

waiting-Run : EventsRun query "chan" quiet 0 quiet waiting
unfolding poll_step wait select current_signal new collect_worker_events collect_from note_channel
    flags_of set_events get_latest_incoming_time get_restart_request latest_incoming restart_request
    queued_for statement filter
waiting-Run = polls (polls (polls (called 0 nothing) [] on_signal) [] on_signal) [] on_signal

told-Run : EventsRun query "chan" quiet 0 told waiting
told-Run =
    others (others waiting-Run (changes quiet (parked 0) tables))
      (notifies (record quiet { state = tables }) (parked 0))

get_events_handler-IsAnswered_example : IsAnswered query "chan" tables [] (
    events_step query [] on_signal told
      (events_step query [] on_signal told (events_step query [] on_signal told waiting)))
unfolding latest_incoming queued_for filter
get_events_handler-IsAnswered_example =
    get_events_handler-IsAnswered query "chan" {start = quiet} {v = told} {p = waiting} 0 []
      told-Run refl refl (inl refl)

abbrev late : View Db
late = record quiet { now = pos 125 }

late-Run : EventsRun query "chan" quiet 0 late waiting
late-Run = others waiting-Run (passes quiet (parked 0) (pos 125))

get_events_handler-IsMeant_example :
    MeantEvents query timeout [] late
      (events_answer (events_step query [] on_timer late waiting).captured timeout)
unfolding events_step poll_step wait select
get_events_handler-IsMeant_example =
    get_events_handler-IsMeant query (is_pending query "chan") {start = quiet} {n = 0} {v = late}
      {p = waiting} late-Run (λ o e. cc) [] on_timer timeout refl

abbrev counting : View ℤ
counting = record { notifier = new; state = pos 8; now = pos 100; cancelled = false }

abbrev subscribing : Poll ℤ
subscribing = record { waiter = subscribed 0; captured = pos 0 }

subscribing-Run :
    Run load_counter (is_other (pos 7)) (pos 125) (is_other (pos 7)) counting 0 counting subscribing
unfolding poll_step wait current_signal new
subscribing-Run = polls (called 0 (pos 0)) [] on_signal

admin_poll_handler-IsMeant_example : MeantPoll (pos 7) (pos 125) ready counting (
    admin_poll_handler
      (admin_poll_step (pos 7) (pos 125) on_signal counting subscribing).captured
      ready)
unfolding admin_poll_step poll_step wait
admin_poll_handler-IsMeant_example =
    admin_poll_handler-IsMeant (pos 7) (pos 125) (is_other (pos 7)) {start = counting} {n = 0}
      {v = counting} {p = subscribing} subscribing-Run (λ o e. cc) on_signal ready refl

abbrev quiet_app : App
quiet_app = record (app_with []) { conn = record { db = none_queued; faults = [] } }

abbrev waiting_told : View Db
waiting_told =
    seen (queue_incoming_stream ("chan" ∷ []) "chan" "url" (pos 50) quiet_app).1 (pos 100) false

queue_incoming_stream-IsAnswered_example :
    IsAnswered query "chan"
      (queue_incoming_stream ("chan" ∷ []) "chan" "url" (pos 50) quiet_app).1.conn.db
      []
      (woken_by query [] waiting_told waiting)
    × (lt_ℤ query.since (
          latest_incoming "chan"
            (queue_incoming_stream ("chan" ∷ []) "chan" "url" (pos 50) quiet_app).1.conn.db)
        ≡ true)
unfolding queue_incoming_stream bump_admin_change upsert_incoming_stream statement
queue_incoming_stream-IsAnswered_example =
    queue_incoming_stream-IsAnswered ("chan" ∷ []) "chan" "url" (pos 50) quiet_app (pos 100) false
      query {start = quiet} {p = waiting} 0 waiting-Run refl refl refl refl []
