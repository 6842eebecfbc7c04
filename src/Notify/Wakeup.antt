-- ===== src/Notify/Wakeup.antt =====
-- internal/notify/notify.go: the wakeups and the outcomes of a Wait.
use live_transcript_server.Prelude.{
  ℕ, suc, ◌<◌, ◌≤◌, ◌≡◌, ◌≢◌, subst, refl, ◌⊎◌, inl, inr, Bool, true, false, ℤ, le_ℤ, lt→ltb,
  Bool-cases, if◌then◌else◌, arith,
}
use live_transcript_server.Notify.{
  notify, current_signal, is_closed, release, Outcome, ready, timeout, canceled, released, Waiter,
  top, subscribed, checked, parked, returned, Case, on_signal, on_timer, on_done, on_shutdown, View,
  select, wait,
}

either : (P : Waiter → Type 0) (b : Bool) (w x : Waiter) → P w → P x → P (if b then w else x)
either P true w x p q = p
either P false w x p q = q

module _ {S : Type 0} (check : S → Bool) (deadline : ℤ) where
  -- What a Wait and the rest of the server do, in any order. The first index counts the changes
  -- whose Notify is still to come.
  pub data Step : ℕ → View S → Waiter → ℕ → View S → Waiter → Type 0 where
    waits :
        {n : ℕ} (v : View S) (w : Waiter) (case : Case)
        → Step n v w n v (wait check deadline case v w)
    changes :
        {n : ℕ} (v : View S) (w : Waiter) (state : S)
        → Step n v w (suc n) (record v { state = state }) w
    notifies :
        {n : ℕ} (v : View S) (w : Waiter)
        → Step (suc n) v w n (record v { notifier = notify v.notifier }) w
    passes : {n : ℕ} (v : View S) (w : Waiter) (now : ℤ) → Step n v w n (record v { now = now }) w
    cancels : {n : ℕ} (v : View S) (w : Waiter) → Step n v w n (record v { cancelled = true }) w
    releases :
        {n : ℕ} (v : View S) (w : Waiter)
        → Step n v w n (record v { notifier = release v.notifier }) w

  -- From a call of Wait on.
  pub data Reach (start : View S) : ℕ → View S → Waiter → Type 0 where
    called : (n : ℕ) → Reach start n start top
    next :
        {n m : ℕ} {v u : View S} {w x : Waiter}
        → Reach start n v w
        → Step n v w m u x
        → Reach start m u x

  -- Where the steps of a Wait past its check lead.
  pub checked-leads :
      (P : Waiter → Type 0) (s : ℕ) (case : Case) (v : View S)
      → P (parked s)
      → P (returned timeout)
      → P (wait check deadline case v (checked s))
  unfolding wait
  checked-leads P s case v stay late =
      either P (le_ℤ deadline v.now) (returned timeout) (parked s) late stay

  pub parked-leads :
      (P : Waiter → Type 0) (s : ℕ) (case : Case) (v : View S)
      → P (parked s)
      → P top
      → P (returned timeout)
      → P (returned canceled)
      → P (returned released)
      → P (wait check deadline case v (parked s))
  unfolding wait select
  parked-leads P s on_signal v stay again late gone down =
      either P (is_closed s v.notifier) top (parked s) again stay
  parked-leads P s on_timer v stay again late gone down =
      either P (le_ℤ deadline v.now) (returned timeout) (parked s) late stay
  parked-leads P s on_done v stay again late gone down =
      either P v.cancelled (returned canceled) (parked s) gone stay
  parked-leads P s on_shutdown v stay again late gone down =
      either P v.notifier.shutdown (returned released) (parked s) down stay

  -- The check has failed since the subscription, or a wakeup is on its way.
  abbrev pub Watched : ℕ → ℕ → S → ℕ → Type 0
  Watched n signal state s = (s ≤ signal) × ((s < signal) ⊎ (0 < n) ⊎ (check state ≡ false))

  abbrev pub Safe : ℕ → ℕ → S → Waiter → Type 0
  Safe n signal state top = Unit
  Safe n signal state (subscribed s) = s ≤ signal
  Safe n signal state (checked s) = Watched n signal state s
  Safe n signal state (parked s) = Watched n signal state s
  Safe n signal state (returned o) = Unit

  abbrev pub IsSafe : ℕ → View S → Waiter → Type 0
  IsSafe n v w = Safe n v.notifier.signal v.state w

  pub wait-IsSafe :
      (n : ℕ) (v : View S) (w : Waiter) (case : Case)
      → IsSafe n v w
      → IsSafe n v (wait check deadline case v w)
  unfolding wait select current_signal
  wait-IsSafe n v top case h = omega arith
  wait-IsSafe n v (subscribed s) case h = elim (Bool-cases (check v.state)) [
    | inl e ↦ rw e tt
    | inr e ↦ rw e (h, inr (inr e))
  ]
  wait-IsSafe n v (checked s) case h = checked-leads (IsSafe n v) s case v h tt
  wait-IsSafe n v (parked s) case h = parked-leads (IsSafe n v) s case v h tt tt tt tt
  wait-IsSafe n v (returned o) case h = tt

  changes-Safe :
      (n signal : ℕ) (state state' : S) (w : Waiter)
      → Safe n signal state w
      → Safe (suc n) signal state' w
  changes-Safe n signal state state' top h = tt
  changes-Safe n signal state state' (subscribed s) h = h
  changes-Safe n signal state state' (checked s) h = (h.0, inr (inl (omega arith)))
  changes-Safe n signal state state' (parked s) h = (h.0, inr (inl (omega arith)))
  changes-Safe n signal state state' (returned o) h = tt

  notifies-Safe :
      (n signal : ℕ) (state : S) (w : Waiter)
      → Safe (suc n) signal state w
      → Safe n (suc signal) state w
  notifies-Safe n signal state top h = tt
  notifies-Safe n signal state (subscribed s) h = omega (arith, h)
  notifies-Safe n signal state (checked s) h = (omega (arith, h.0), inl (omega (arith, h.0)))
  notifies-Safe n signal state (parked s) h = (omega (arith, h.0), inl (omega (arith, h.0)))
  notifies-Safe n signal state (returned o) h = tt

  pub Step-IsSafe :
      {n m : ℕ} {v u : View S} {w x : Waiter} → Step n v w m u x → IsSafe n v w → IsSafe m u x
  unfolding notify release
  Step-IsSafe (waits v w case) h = wait-IsSafe _ v w case h
  Step-IsSafe (changes v w state) h = changes-Safe _ _ v.state state w h
  Step-IsSafe (notifies v w) h = notifies-Safe _ _ v.state w h
  Step-IsSafe (passes v w now) h = h
  Step-IsSafe (cancels v w) h = h
  Step-IsSafe (releases v w) h = h

  Reach-IsSafe :
      {start : View S} {n : ℕ} {v : View S} {w : Waiter} → Reach start n v w → IsSafe n v w
  Reach-IsSafe (called n) = tt
  Reach-IsSafe (next r step) = Step-IsSafe step (Reach-IsSafe r)

  wait-ready :
      (v : View S) (s : ℕ)
      → is_closed s v.notifier ≡ true
      → check v.state ≡ true
      → wait check deadline on_signal v
          (wait check deadline on_signal v (wait check deadline on_signal v (parked s)))
        ≡ returned ready
  unfolding wait select current_signal
  wait-ready v s closed e = rw closed (rw e refl)

  pub wakes :
      (v : View S) (s : ℕ)
      → Watched 0 v.notifier.signal v.state s
      → check v.state ≡ true
      → is_closed s v.notifier ≡ true
  wakes v s (le, inl l) e = lt→ltb s v.notifier.signal l
  wakes v s (le, inr (inl l)) e = absurd (omega arith)
  wakes v s (le, inr (inr k)) e = cc

  -- Whatever a Wait and the rest of the server have done, in whatever order: if the Wait is parked
  -- at a signal, `check` holds, and every change has been followed by its Notify, then that signal is
  -- closed, and the next three steps of the Wait, by the select's case for it, return Ready.
  pub parked-ready :
      {start v : View S} {s : ℕ}
      → Reach start 0 v (parked s)
      → check v.state ≡ true
      → (is_closed s v.notifier ≡ true)
        × (wait check deadline on_signal v
              (wait check deadline on_signal v (wait check deadline on_signal v (parked s)))
            ≡ returned ready)
  parked-ready {v} {s} r e =
      let closed = wakes v s (Reach-IsSafe r) e in (closed, wait-ready v s closed e)

  -- What an outcome says of the moment at which it is given.
  abbrev pub Justified : Outcome → View S → Type 0
  Justified ready v = check v.state ≡ true
  Justified timeout v = le_ℤ deadline v.now ≡ true
  Justified canceled v = v.cancelled ≡ true
  Justified released v = v.notifier.shutdown ≡ true

  abbrev Told : View S → Waiter → Type 0
  Told v (returned o) = Justified o v
  Told v w = Unit

  -- One step of a Wait that has not returned: if it returns, then with Ready the check holds at that
  -- moment, with Timeout the deadline has come, with Canceled the context is cancelled, and with
  -- Released the server is shutting down.
  pub wait-Justified :
      (case : Case) (v : View S) (w : Waiter) (o : Outcome)
      → ((o' : Outcome) → w ≢ returned o')
      → wait check deadline case v w ≡ returned o
      → Justified o v
  unfolding wait select current_signal
  wait-Justified case v w o before e = subst (Told v) e (told case w before)
    where
      told :
          (case : Case) (w : Waiter)
          → ((o' : Outcome) → w ≢ returned o')
          → Told v (wait check deadline case v w)
      told case top b = tt
      told case (subscribed s) b = elim (Bool-cases (check v.state)) [
        | inl e ↦ rw e e
        | inr e ↦ rw e tt
      ]
      told case (checked s) b = elim (Bool-cases (le_ℤ deadline v.now)) [
        | inl e ↦ rw e e
        | inr e ↦ rw e tt
      ]
      told on_signal (parked s) b = elim (Bool-cases (is_closed s v.notifier)) [
        | inl e ↦ rw e tt
        | inr e ↦ rw e tt
      ]
      told on_timer (parked s) b = elim (Bool-cases (le_ℤ deadline v.now)) [
        | inl e ↦ rw e e
        | inr e ↦ rw e tt
      ]
      told on_done (parked s) b = elim (Bool-cases v.cancelled) [
        | inl e ↦ rw e refl
        | inr e ↦ rw e tt
      ]
      told on_shutdown (parked s) b = elim (Bool-cases v.notifier.shutdown) [
        | inl e ↦ rw e refl
        | inr e ↦ rw e tt
      ]
      told case (returned o') b = absurd (b o' refl)
