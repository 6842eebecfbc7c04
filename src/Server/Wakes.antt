-- ===== src/Server/Wakes.antt =====
-- internal/server/handlers_events.go: that a parked poll is woken by what it waits for.
use live_transcript_server.Prelude.{ℕ, ◌≡◌, refl, inl, inr, Bool, true, false, List, ℤ, Bool-cases}
use live_transcript_server.Notify.{
  Waiter, top, subscribed, checked, parked, returned, Case, on_signal, View, wait, select, ready,
  current_signal,
}
use live_transcript_server.Notify.Wakeup.{Step, Step-IsSafe, Watched, IsSafe, wait-IsSafe, wakes}
use live_transcript_server.Server.Polls.{Poll, poll_step}

module _ {S A : Type 0} (look : List Bool → S → A) (is_news : A → Bool) (deadline : ℤ)
    (pending : S → Bool) where
  -- What a poll and the rest of the server do, in any order; the faults of a check's queries are
  -- any. The first index counts the changes whose Notify is still to come.
  pub data Run (start : View S) : ℕ → View S → Poll A → Type 0 where
    called : (n : ℕ) (nothing : A) → Run start n start (record { waiter = top; captured = nothing })
    polls :
        {n : ℕ} {v : View S} {p : Poll A}
        → Run start n v p
        → (faults : List Bool) (case : Case)
        → Run start n v (poll_step look is_news deadline faults case v p)
    others :
        {n m : ℕ} {v u : View S} {p : Poll A}
        → Run start n v p
        → Step pending deadline n v p.waiter m u p.waiter
        → Run start m u p

  -- A check that finds no news sees nothing pending.
  abbrev pub Sees : Type 0
  Sees = (faults : List Bool) (s : S) → is_news (look faults s) ≡ false → pending s ≡ false

  polls-IsSafe :
      (n : ℕ) (v : View S) (w : Waiter) (faults : List Bool) (case : Case)
      → Sees
      → IsSafe pending deadline n v w
      → IsSafe pending deadline n v (wait (λ s. is_news (look faults s)) deadline case v w)
  unfolding wait select
  polls-IsSafe n v top faults case sees h = wait-IsSafe pending deadline n v top case h
  polls-IsSafe n v (subscribed s) faults case sees h =
      elim (Bool-cases (is_news (look faults v.state))) [
        | inl e ↦ rw e tt
        | inr e ↦ rw e (h, inr (inr (sees faults v.state e)))
      ]
  polls-IsSafe n v (checked s) faults case sees h =
      wait-IsSafe pending deadline n v (checked s) case h
  polls-IsSafe n v (parked s) faults case sees h =
      wait-IsSafe pending deadline n v (parked s) case h
  polls-IsSafe n v (returned o) faults case sees h = tt

  Run-IsSafe :
      {start : View S} {n : ℕ} {v : View S} {p : Poll A}
      → Sees
      → Run start n v p
      → IsSafe pending deadline n v p.waiter
  unfolding poll_step
  Run-IsSafe sees (called n nothing) = tt
  Run-IsSafe sees (polls {p} r faults case) =
      polls-IsSafe _ _ p.waiter faults case sees (Run-IsSafe sees r)
  Run-IsSafe sees (others r step) = Step-IsSafe pending deadline step (Run-IsSafe sees r)

  -- The next three steps, by the select's case for the signal.
  abbrev pub woken : List Bool → View S → Poll A → Poll A
  woken faults v p = poll_step look is_news deadline faults on_signal v (
      poll_step look is_news deadline faults on_signal v
        (poll_step look is_news deadline faults on_signal v p))

  pub parked-woken :
      {start v : View S} {p : Poll A} (s : ℕ) (faults : List Bool)
      → Sees
      → Run start 0 v p
      → p.waiter ≡ parked s
      → pending v.state ≡ true
      → is_news (look faults v.state) ≡ true
      → ((woken faults v p).waiter ≡ returned ready)
        × ((woken faults v p).captured ≡ look faults v.state)
  unfolding poll_step wait select current_signal
  parked-woken {v} {p} s faults sees r e due news =
      let safe : Watched pending deadline 0 v.notifier.signal v.state s =
        rw e at (Run-IsSafe sees r) in
      let closed = wakes pending deadline v s safe due in rw (e, closed, news) (refl, refl)
