-- ===== src/Notify/Tests.antt =====
-- internal/notify: the theorems on a Wait for a flag.
use live_transcript_server.Prelude.{◌≡◌, refl, Bool, true, false, pos}
use live_transcript_server.Notify.{
  new, notify, is_closed, current_signal, ready, top, subscribed, checked, parked, returned,
  on_signal, View, wait, select,
}
use live_transcript_server.Notify.Wakeup.{Reach, called, next, waits, changes, notifies}
use live_transcript_server.Notify.Wakeup.{parked-ready}

abbrev is_set : Bool → Bool
is_set b = b

abbrev view : Bool → View Bool
view b = record { notifier = new; state = b; now = pos 0; cancelled = false }

-- The flag has been set and told while the Wait was parked.
abbrev told : View Bool
told = record (view true) { notifier = notify new }

parked-Reach : Reach is_set (pos 10) (view false) 0 told (parked 0)
unfolding wait select current_signal new
parked-Reach =
    next
      (next
        (next
          (next (next (called 0) (waits (view false) top on_signal))
            (waits (view false) (subscribed 0) on_signal))
          (waits (view false) (checked 0) on_signal))
        (changes (view false) (parked 0) true))
      (notifies (view true) (parked 0))

abbrev late : View Bool
late = record (view false) { now = pos 10 }

parked-ready_example :
    (is_closed 0 told.notifier ≡ true)
    × (wait is_set
          (pos 10)
          on_signal
          told
          (wait is_set (pos 10) on_signal told (wait is_set (pos 10) on_signal told (parked 0)))
        ≡ returned ready)
parked-ready_example =
    parked-ready is_set (pos 10) {start = view false} {v = told} {s = 0} parked-Reach refl
