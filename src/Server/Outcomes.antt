-- ===== src/Server/Outcomes.antt =====
-- internal/server/handlers_events.go: what the outcomes and the answers of a poll mean.
use live_transcript_server.Prelude.{
  ℕ, ◌≡◌, ◌≢◌, refl, subst, ◌⊎◌, inl, inr, Bool, true, false, Option, none, some, List, [], ℤ, eq_ℤ,
  le_ℤ, Bool-cases, arith,
}
use live_transcript_server.Store.Sql.{Db, Result, ok, err, Error}
use live_transcript_server.Notify.{
  Waiter, top, subscribed, checked, parked, returned, Case, View, wait, select, Outcome, ready,
  timeout, canceled, released,
}
use live_transcript_server.Notify.Wakeup.{wait-Justified, Justified, checked-leads, parked-leads}
use live_transcript_server.Server.App.{Reply, answered, json}
use live_transcript_server.Server.Events.{WorkerEventsResponse}
use live_transcript_server.Server.Polls.{
  Poll, poll_step, capture, load_counter, is_other, admin_poll_step, admin_poll_handler, EventsPoll,
  collect, has_entry, is_found, events_step, events_answer,
}
use live_transcript_server.Server.Wakes.{Run, called, polls, others}

module _ {S A : Type 0} (look : List Bool → S → A) (is_news : A → Bool) (deadline : ℤ) where
  -- Past its check, and with an outcome other than Ready, the last check has found no news.
  abbrev pub Told : Waiter → A → Type 0
  Told top a = Unit
  Told (subscribed s) a = Unit
  Told (checked s) a = is_news a ≡ false
  Told (parked s) a = is_news a ≡ false
  Told (returned ready) a = is_news a ≡ true
  Told (returned timeout) a = is_news a ≡ false
  Told (returned canceled) a = is_news a ≡ false
  Told (returned released) a = is_news a ≡ false

  wait-Told :
      (faults : List Bool) (case : Case) (v : View S) (w : Waiter) (a : A)
      → Told w a
      → Told
          (wait (λ s. is_news (look faults s)) deadline case v w)
          (capture w (look faults v.state) a)
  unfolding wait select
  wait-Told faults case v top a h = tt
  wait-Told faults case v (subscribed s) a h = elim (Bool-cases (is_news (look faults v.state))) [
    | inl e ↦ rw e e
    | inr e ↦ rw e e
  ]
  wait-Told faults case v (checked s) a h =
      checked-leads (λ s. is_news (look faults s)) deadline (λ w. Told w a) s case v h h
  wait-Told faults case v (parked s) a h =
      parked-leads (λ s. is_news (look faults s)) deadline (λ w. Told w a) s case v h tt h h h
  wait-Told faults case v (returned o) a h = h

  pub Run-Told :
      (pending : S → Bool) {start : View S} {n : ℕ} {v : View S} {p : Poll A}
      → Run look is_news deadline pending start n v p
      → Told p.waiter p.captured
  unfolding poll_step
  Run-Told pending (called n nothing) = tt
  Run-Told pending (polls {v} {p} r faults case) =
      wait-Told faults case v p.waiter p.captured (Run-Told pending r)
  Run-Told pending (others r step) = Run-Told pending r

  -- A step that returns Ready has just made the check.
  abbrev Fresh : A → Waiter → A → Type 0
  Fresh new (returned ready) a = a ≡ new
  Fresh new w a = Unit

  pub fresh :
      (faults : List Bool) (case : Case) (v : View S) (w : Waiter) (a : A)
      → ((o : Outcome) → w ≢ returned o)
      → Fresh
          (look faults v.state)
          (wait (λ s. is_news (look faults s)) deadline case v w)
          (capture w (look faults v.state) a)
  unfolding wait select
  fresh faults case v top a h = tt
  fresh faults case v (subscribed s) a h = elim (Bool-cases (is_news (look faults v.state))) [
    | inl e ↦ rw e refl
    | inr e ↦ rw e tt
  ]
  fresh faults case v (checked s) a h =
      checked-leads (λ s. is_news (look faults s)) deadline (λ w. Fresh (look faults v.state) w a) s
        case v tt tt
  fresh faults case v (parked s) a h =
      parked-leads (λ s. is_news (look faults s)) deadline (λ w. Fresh (look faults v.state) w a) s
        case v tt tt tt tt tt
  fresh faults case v (returned o) a h = absurd (h o refl)

  -- A step that returns, of a poll that has not: Ready gives what the check has just read, which
  -- is news; after any other outcome the last check had found none, and the outcome holds.
  abbrev pub Ends : Outcome → List Bool → View S → A → Type 0
  Ends ready faults v a = (a ≡ look faults v.state) × (is_news a ≡ true)
  Ends timeout faults v a = (le_ℤ deadline v.now ≡ true) × (is_news a ≡ false)
  Ends canceled faults v a = (v.cancelled ≡ true) × (is_news a ≡ false)
  Ends released faults v a = (v.notifier.shutdown ≡ true) × (is_news a ≡ false)

  pub Run-Ends :
      (pending : S → Bool) {start : View S} {n : ℕ} {v : View S} {p : Poll A}
      → Run look is_news deadline pending start n v p
      → ((o : Outcome) → p.waiter ≢ returned o)
      → (faults : List Bool) (case : Case) (o : Outcome)
      → (poll_step look is_news deadline faults case v p).waiter ≡ returned o
      → Ends o faults v (poll_step look is_news deadline faults case v p).captured
  unfolding poll_step
  Run-Ends pending {v} {p} r before faults case o e =
      let a : A = capture p.waiter (look faults v.state) p.captured in
      let told = wait-Told faults case v p.waiter p.captured (Run-Told pending r) in
      let new = fresh faults case v p.waiter p.captured before in
      go o a (subst (λ w. Told w a) e told) (subst (λ w. Fresh (look faults v.state) w a) e new)
        (wait-Justified (λ s. is_news (look faults s)) deadline case v p.waiter o before e)
    where
      go :
          (o : Outcome) (a : A)
          → Told (returned o) a
          → Fresh (look faults v.state) (returned o) a
          → Justified (λ s. is_news (look faults s)) deadline o v
          → Ends o faults v a
      go ready a told new just = (new, told)
      go timeout a told new just = (just, told)
      go canceled a told new just = (just, told)
      go released a told new just = (just, told)

-- The answer of a getEventsHandler, by its outcome.
module _ (q : EventsPoll) where
  abbrev pub MeantEvents :
      Outcome → List Bool → View Db → Option (Reply WorkerEventsResponse) → Type 0
  MeantEvents ready faults v a =
      ((e : Error) × (collect q.keys q.since faults v.state ≡ err e) × (a ≡ some (answered 500)))
      ⊎ ((resp : WorkerEventsResponse) × (collect q.keys q.since faults v.state ≡ ok resp)
          × (has_entry resp.events ≡ true)
          × (a ≡ some (json resp)))
  MeantEvents timeout faults v a = (le_ℤ q.deadline v.now ≡ true) × (a ≡ some (answered 204))
  MeantEvents canceled faults v a = (v.cancelled ≡ true) × (a ≡ none)
  MeantEvents released faults v a = (v.notifier.shutdown ≡ true) × (a ≡ some (answered 204))

  meant :
      (o : Outcome) (faults : List Bool) (v : View Db) (a : Result WorkerEventsResponse)
      → Ends (collect q.keys q.since) is_found q.deadline o faults v a
      → MeantEvents o faults v (events_answer a o)
  meant ready faults v (ok resp) (read, news) = inr (resp, cc, news, refl)
  meant ready faults v (err e) (read, news) = inl (e, cc, refl)
  meant timeout faults v (ok resp) (just, quiet) = (just, refl)
  meant timeout faults v (err e) (just, quiet) = cc
  meant canceled faults v (ok resp) (just, quiet) = (just, refl)
  meant canceled faults v (err e) (just, quiet) = cc
  meant released faults v (ok resp) (just, quiet) = (just, refl)
  meant released faults v (err e) (just, quiet) = cc

  -- A poll of getEventsHandler, after any steps of it and of the rest of the server, and the step of
  -- it that returns. With Ready the check has just run, and the answer is a 500 if a query of it
  -- failed, and else what it collected, which has an event. With any other outcome the answer is
  -- never a 500 nor a body: it is a 204 when the deadline has come or the server is shutting down,
  -- and nothing when the client has gone.
  pub get_events_handler-IsMeant :
      (pending : Db → Bool) {start : View Db} {n : ℕ} {v : View Db}
      {p : Poll (Result WorkerEventsResponse)}
      → Run (collect q.keys q.since) is_found q.deadline pending start n v p
      → ((o : Outcome) → p.waiter ≢ returned o)
      → (faults : List Bool) (case : Case) (o : Outcome)
      → (events_step q faults case v p).waiter ≡ returned o
      → MeantEvents o faults v (events_answer (events_step q faults case v p).captured o)
  unfolding events_step
  get_events_handler-IsMeant pending r before faults case o e =
      meant o faults _ _
        (Run-Ends (collect q.keys q.since) is_found q.deadline pending r before faults case o e)

-- The answer of an adminPollHandler, by its outcome.
abbrev pub MeantPoll : ℤ → ℤ → Outcome → View ℤ → Option (Reply ℤ) → Type 0
MeantPoll since deadline ready v a = (eq_ℤ v.state since ≡ false) × (a ≡ some (json v.state))
MeantPoll since deadline timeout v a = (le_ℤ deadline v.now ≡ true) × (a ≡ some (answered 204))
MeantPoll since deadline canceled v a = (v.cancelled ≡ true) × (a ≡ none)
MeantPoll since deadline released v a = (v.notifier.shutdown ≡ true) × (a ≡ some (answered 204))

module _ (since deadline : ℤ) (pending : ℤ → Bool) where
  meant_poll :
      (o : Outcome) (v : View ℤ) (a : ℤ)
      → Ends load_counter (is_other since) deadline o [] v a
      → MeantPoll since deadline o v (admin_poll_handler a o)
  meant_poll ready v a (read, news) = (ground (arith, read, news), rw read refl)
  meant_poll timeout v a (just, quiet) = (just, refl)
  meant_poll canceled v a (just, quiet) = (just, refl)
  meant_poll released v a (just, quiet) = (just, refl)

  -- A poll of adminPollHandler, after any steps of it and of the rest of the server, and the step of
  -- it that returns. With Ready the answer is the channel's counter at that moment, and it differs
  -- from `since`. With any other outcome no counter is answered: a 204 when the deadline has come or
  -- the server is shutting down, and nothing when the client has gone.
  pub admin_poll_handler-IsMeant :
      {start : View ℤ} {n : ℕ} {v : View ℤ} {p : Poll ℤ}
      → Run load_counter (is_other since) deadline pending start n v p
      → ((o : Outcome) → p.waiter ≢ returned o)
      → (case : Case) (o : Outcome) → (admin_poll_step since deadline case v p).waiter ≡ returned o
      → MeantPoll since deadline o v
          (admin_poll_handler (admin_poll_step since deadline case v p).captured o)
  unfolding admin_poll_step
  admin_poll_handler-IsMeant r before case o e =
      meant_poll o _ _
        (Run-Ends load_counter (is_other since) deadline pending r before [] case o e)
