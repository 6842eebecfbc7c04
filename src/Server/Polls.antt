-- ===== src/Server/Polls.antt =====
-- internal/server/handlers_events.go: adminPollHandler and getEventsHandler, over the Wait of
-- internal/notify. The parameters of a request are arguments, those that are numbers as what strconv
-- makes of them.
use live_transcript_server.Prelude.{
  ℕ, ◌+◌, String, Bool, true, not, Option, none, some, List, [], ◌∷◌, map, any, ℤ, pos, negsuc,
  pos_part, neg_part, diff, eq_ℤ, ◌==◌, if◌then◌else◌, trim_space, split_commas,
}
use live_transcript_server.Store.Sql.{Db, Result, ok, err}
use live_transcript_server.Notify.{
  Waiter, top, subscribed, checked, parked, returned, Case, View, wait, Outcome, ready, timeout,
  canceled, released,
}
use live_transcript_server.Server.App.{Reply, answered, json}
use live_transcript_server.Server.Events.{
  Flag, WorkerEventsResponse, collect_worker_events, parse_wait_seconds,
}

-- A poll: where its Wait is, and what its last check has left in the variables that the check
-- captures.
pub record Poll (A : Type 0) : Type 0 where
  pub waiter : Waiter
  pub captured : A

-- A check runs after the subscription, and only there.
abbrev pub capture : {A : Type 0} → Waiter → A → A → A
capture top new old = old
capture (subscribed s) new old = new
capture (checked s) new old = old
capture (parked s) new old = old
capture (returned o) new old = old

-- One step of a poll. `look` is what a check reads, from the faults of its queries and the state,
-- and `is_news` whether that ends the poll.
module _ {S A : Type 0} (look : List Bool → S → A) (is_news : A → Bool) (deadline : ℤ) where
  unfoldable pub poll_step : List Bool → Case → View S → Poll A → Poll A
  unfolding wait
  poll_step faults case v p = record {
    waiter = wait (λ s. is_news (look faults s)) deadline case v p.waiter;
    captured = capture p.waiter (look faults v.state) p.captured;
  }

-- time.Now().Add(parseWaitSeconds(r)), in seconds
abbrev pub deadline_of : ℤ → Option ℤ → ℤ
deadline_of now given = diff (pos_part now + parse_wait_seconds given) (neg_part now)

-- What a handler answers for an outcome when its check has captured `a`; `none` writes nothing.
abbrev pub answer_for : {A : Type 0} → A → Outcome → Option (Reply A)
answer_for a ready = some (json a)
answer_for a timeout = some (answered 204)
answer_for a canceled = none
answer_for a released = some (answered 204)

-- A request that is refused with a status, or the poll that it starts.
pub data Started (A : Type 0) : Type 0 where
  refused : ℕ → Started A
  started : A → Started A

-- The `since` of an admin page, -1 if it is no number.
abbrev pub counter_since : Option ℤ → ℤ
counter_since none = negsuc 0
counter_since (some n) = n

-- cs.AdminChangeCounter.Load()
abbrev pub load_counter : List Bool → ℤ → ℤ
load_counter faults counter = counter

abbrev pub is_other : ℤ → ℤ → Bool
is_other since current = not (eq_ℤ current since)

-- The Wait of adminPollHandler; the state is the channel's counter.
unfoldable pub admin_poll_step : ℤ → ℤ → Case → View ℤ → Poll ℤ → Poll ℤ
unfolding poll_step
admin_poll_step since deadline = poll_step load_counter (is_other since) deadline []

-- adminPollHandler, from the outcome on.
abbrev pub admin_poll_handler : ℤ → Outcome → Option (Reply ℤ)
admin_poll_handler = answer_for

-- What getEventsHandler waits for.
pub record EventsPoll : Type 0 where
  pub keys : List String
  pub since : ℤ
  pub deadline : ℤ

abbrev pub is_channel : List String → String → Bool
is_channel channels key = any (λ c. c == key) channels

-- The cursor of a worker, 0 if it is no number or negative.
abbrev pub cursor_since : Option ℤ → ℤ
cursor_since none = pos 0
cursor_since (some (ℤ.pos n)) = pos n
cursor_since (some (ℤ.negsuc n)) = pos 0

-- getEventsHandler up to its Wait; `known` are the keys of app.Channels.
unfoldable pub get_events_handler :
    List String → String → Option ℤ → Option ℤ → ℤ → Started EventsPoll
unfolding parse_wait_seconds trim_space split_commas
get_events_handler known channels since given now =
    let keys = map trim_space (split_commas channels) in
    if channels == ""
    then refused 400
    else if any (λ key. not (is_channel known key)) keys
    then refused 404
    else started
        (record { keys = keys; since = cursor_since since; deadline = deadline_of now given })

abbrev pub collect : List String → ℤ → List Bool → Db → Result WorkerEventsResponse
collect keys since faults db =
    (collect_worker_events keys since (record { db = db; faults = faults })).0

abbrev pub has_entry : List (String × List Flag) → Bool
has_entry [] = Bool.false
has_entry (e ∷ es) = true

-- collectErr != nil || len(resp.Events) > 0
abbrev pub is_found : Result WorkerEventsResponse → Bool
is_found (ok resp) = has_entry resp.events
is_found (err e) = true

-- The Wait of getEventsHandler; the state is the database.
unfoldable pub events_step :
    EventsPoll
    → List Bool
    → Case
    → View Db
    → Poll (Result WorkerEventsResponse)
    → Poll (Result WorkerEventsResponse)
unfolding poll_step
events_step q = poll_step (collect q.keys q.since) is_found q.deadline

-- getEventsHandler, from the outcome on.
abbrev pub events_answer :
    Result WorkerEventsResponse → Outcome → Option (Reply WorkerEventsResponse)
events_answer (err e) o = some (answered 500)
events_answer (ok resp) o = answer_for resp o
