-- ===== src/Notify.antt =====
-- internal/notify/notify.go: the wakeup of the long polls. A signal channel is its number: Notify
-- closes the current one and makes the next, so that the channels before the current are closed.
use live_transcript_server.Prelude.{ℕ, suc, Bool, true, false, ℤ, le_ℤ, ltb, if◌then◌else◌}
pub mod Wakeup
mod Tests

-- type Notifier
pub record Notifier : Type 0 where
  pub signal : ℕ
  pub shutdown : Bool

-- New
unfoldable pub new : Notifier
new = record { signal = 0; shutdown = false }

-- Notify
unfoldable pub notify : Notifier → Notifier
notify n = record n { signal = suc n.signal }

-- Signal
unfoldable pub current_signal : Notifier → ℕ
current_signal n = n.signal

-- A receive from the channel `s` goes through.
abbrev pub is_closed : ℕ → Notifier → Bool
is_closed s n = ltb s n.signal

-- Release
unfoldable pub release : Notifier → Notifier
release n = record n { shutdown = true }

-- type Outcome
pub data Outcome : Type 0 where
  ready timeout canceled released : Outcome

-- Where a call of Wait is: at the top of the loop, before `check`, before the test of the time that
-- remains, in the select, or returned.
pub data Waiter : Type 0 where
  top : Waiter
  subscribed checked parked : ℕ → Waiter
  returned : Outcome → Waiter

-- The case of the select that is tried.
pub data Case : Type 0 where
  on_signal on_timer on_done on_shutdown : Case

-- What a call of Wait sees, with the state that `check` reads.
pub record View (S : Type 0) : Type 0 where
  pub notifier : Notifier
  pub state : S
  pub now : ℤ
  pub cancelled : Bool

module _ {S : Type 0} (check : S → Bool) (deadline : ℤ) where
  -- A case of the select is taken when its channel is ready.
  unfoldable pub select : Case → ℕ → View S → Waiter
  select on_signal s v = if is_closed s v.notifier then top else parked s
  select on_timer s v = if le_ℤ deadline v.now then returned timeout else parked s
  select on_done s v = if v.cancelled then returned canceled else parked s
  select on_shutdown s v = if v.notifier.shutdown then returned released else parked s

  -- Wait, one step of it.
  unfoldable pub wait : Case → View S → Waiter → Waiter
  unfolding select current_signal
  wait case v top = subscribed (current_signal v.notifier)
  wait case v (subscribed s) = if check v.state then returned ready else checked s
  wait case v (checked s) = if le_ℤ deadline v.now then returned timeout else parked s
  wait case v (parked s) = select case s v
  wait case v (returned o) = returned o
