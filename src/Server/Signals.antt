-- ===== src/Server/Signals.antt =====
-- internal/server/handlers_events.go: which signals collectWorkerEvents reports, and the cursor.
use live_transcript_server.Prelude.{
  String, ◌≡◌, subst, refl, ap, ◌∙◌, inl, inr, Bool, true, false, not, ◌&&◌, List, [], ◌∷◌, ◌++◌, ℤ,
  pos, lt_ℤ, ◌≤ℤ◌, any, All, Bool-cases, ◌==◌, eq_iff, eq_refl, if◌then◌else◌, arith,
}
use live_transcript_server.Store.Sql.{Db, Conn, ok}
use live_transcript_server.Store.Incoming.{get_latest_incoming_time, latest_incoming}
use live_transcript_server.Store.Worker.{get_restart_request, restart_request}
use live_transcript_server.Store.Outcome.{Ensures, Ensures-pure, Ensures-query}
use live_transcript_server.Server.EventMap.{events_for, events_for-note}
use live_transcript_server.Server.Events.{
  Flag, incoming, restart, WorkerEventsResponse, is_empty, flags_of, note_channel, collect_from,
  collect_worker_events,
}

abbrev pub flags_in : String → ℤ → Db → List Flag
flags_in key since db = flags_of since (latest_incoming key db) (restart_request key db)

-- The answer that the loop computes from the tables.
abbrev answer : List String → ℤ → Db → WorkerEventsResponse → WorkerEventsResponse
answer [] since db resp = resp
answer (key ∷ keys) since db resp =
    answer keys since db
      (note_channel key since (latest_incoming key db) (restart_request key db) resp)

collect_from-Ensures :
    (keys : List String) (since : ℤ) (db : Db) (resp : WorkerEventsResponse)
    → Ensures
        (collect_from keys since resp)
        db
        (λ r after. (r ≡ answer keys since db resp) × (after ≡ db))
unfolding collect_from get_latest_incoming_time get_restart_request
collect_from-Ensures [] since db resp = Ensures-pure resp (refl, refl)
collect_from-Ensures (key ∷ keys) since db resp =
    Ensures-query _ _ (Ensures-query _ _ (collect_from-Ensures keys since db _))

none_kept :
    (m : Bool) (f : List Flag) → (if m && not (is_empty f) then f else []) ≡ (if m then f else [])
none_kept true [] = refl
none_kept true (x ∷ xs) = refl
none_kept false f = refl

All-asked :
    (P : String → Type 0) (key : String) (keys : List String)
    → All P keys
    → any (λ k. k == key) keys ≡ true
    → P key
All-asked P key [] h a = cc
All-asked P key (k ∷ ks) h a = elim (Bool-cases (k == key)) [
  | inl e ↦ subst P ((eq_iff k key).0 e) h.0
  | inr e ↦ All-asked P key ks h.1 (ground arith)
]

not_later : (a b : ℤ) → b ≤ℤ a → lt_ℤ a b ≡ false
not_later a b h = ground arith

later_bounds : (a b : ℤ) → (a ≤ℤ (if lt_ℤ a b then b else a)) × (b ≤ℤ (if lt_ℤ a b then b else a))
later_bounds a b = elim (Bool-cases (lt_ℤ a b)) [
  | inl e ↦ rw e (ground arith, omega arith)
  | inr e ↦ rw e (omega arith, ground arith)
]

merge :
    (m e : Bool) (f x : List Flag)
    → (if m && not e then f else if not e then f else x) ≡ (if not e then f else x)
merge m true f x = elim (Bool-cases m) [ inl k ↦ rw k refl | inr k ↦ rw k refl ]
merge true false f x = refl
merge false false f x = refl

module _ (since : ℤ) (db : Db) where
  abbrev noted : String → WorkerEventsResponse → WorkerEventsResponse
  noted key r = note_channel key since (latest_incoming key db) (restart_request key db) r

  answer-events :
      (key' : String) (keys : List String) (resp : WorkerEventsResponse)
      → events_for key' (answer keys since db resp).events ≡ (
          if any (λ key. key == key') keys && not (is_empty (flags_in key' since db))
          then flags_in key' since db
          else events_for key' resp.events)
  answer-events key' [] resp = refl
  answer-events key' (key ∷ keys) resp =
      answer-events key' keys (noted key resp)
      ∙ rw (events_for-note key key' since (latest_incoming key db) (restart_request key db) resp)
          (elim (Bool-cases (key == key')) [
            | inl k ↦
                rw ((eq_iff key key').0 k, eq_refl key')
                  (merge (any (λ x. x == key') keys) (is_empty (flags_in key' since db))
                    (flags_in key' since db) (events_for key' resp.events))
            | inr k ↦ rw k refl
          ])

  answer-cursor :
      (keys : List String) (resp : WorkerEventsResponse)
      → (resp.cursor ≤ℤ (answer keys since db resp).cursor)
        × All (λ key. latest_incoming key db ≤ℤ (answer keys since db resp).cursor) keys
  unfolding note_channel
  answer-cursor [] resp = (omega arith, tt)
  answer-cursor (key ∷ keys) resp =
      let (l, r) = answer-cursor keys (noted key resp) in
      let (own, new) = later_bounds resp.cursor (latest_incoming key db) in
      (omega (arith, own, l), (omega (arith, new, l), r))

pub collect_worker_events-answers :
    (keys : List String) (since : ℤ) (c : Conn) (resp : WorkerEventsResponse) (key : String)
    → (collect_worker_events keys since c).0 ≡ ok resp
    → (events_for key resp.events
        ≡ (if any (λ k. k == key) keys then flags_in key since c.db else []))
      × (since ≤ℤ resp.cursor)
      × All (λ k. latest_incoming k c.db ≤ℤ resp.cursor) keys
      × ((collect_worker_events keys since c).1.db ≡ c.db)
unfolding collect_worker_events events_for
collect_worker_events-answers keys since c resp key done =
    let start : WorkerEventsResponse = record { cursor = since; events = [] } in
    let (e, same) = (collect_from-Ensures keys since c.db start).at c refl resp done in
    let (above, each) = answer-cursor since c.db keys start in
    (
      ap (λ r. events_for key r.events) e
          ∙ answer-events since c.db key keys start
          ∙ none_kept (any (λ k. k == key) keys) (flags_in key since c.db),
      rw e above,
      rw e each,
      same,
    )

abbrev pub is_incoming : Flag → Bool
is_incoming incoming = true
is_incoming restart = false

abbrev pub is_restart : Flag → Bool
is_restart incoming = false
is_restart restart = true

-- Whether a flag is among those of a channel.
abbrev pub has_flag : Flag → List Flag → Bool
has_flag incoming flags = any is_incoming flags
has_flag restart flags = any is_restart flags

pub flags_of-has_flag :
    (since latest at : ℤ)
    → (has_flag incoming (flags_of since latest at) ≡ lt_ℤ since latest)
      × (has_flag restart (flags_of since latest at) ≡ lt_ℤ (pos 0) at)
unfolding flags_of
flags_of-has_flag since latest at = go (lt_ℤ since latest) (lt_ℤ (pos 0) at)
  where
    go :
        (a b : Bool)
        → (has_flag incoming ((if a then incoming ∷ [] else []) ++ (if b then restart ∷ [] else []))
            ≡ a)
          × (has_flag restart
                ((if a then incoming ∷ [] else []) ++ (if b then restart ∷ [] else []))
              ≡ b)
    go true true = (refl, refl)
    go true false = (refl, refl)
    go false true = (refl, refl)
    go false false = (refl, refl)

flags_if-has_flag :
    (asked : Bool) (since latest at : ℤ)
    → (has_flag incoming (if asked then flags_of since latest at else [])
        ≡ (asked && lt_ℤ since latest))
      × (has_flag restart (if asked then flags_of since latest at else [])
          ≡ (asked && lt_ℤ (pos 0) at))
flags_if-has_flag true since latest at = flags_of-has_flag since latest at
flags_if-has_flag false since latest at = (refl, refl)

-- collectWorkerEvents, when its queries succeed, changes no table and answers for the tables as they
-- are: a channel has the flag "incoming" exactly if it was asked for and its latest received_at is
-- above `since`, and "restart" exactly if it was asked for and its restart request is above 0. The
-- cursor is not below `since` nor below the latest received_at of any of the channels asked for.
pub collect_worker_events-report :
    (keys : List String) (since : ℤ) (c : Conn) (resp : WorkerEventsResponse) (key : String)
    → (collect_worker_events keys since c).0 ≡ ok resp
    → (has_flag incoming (events_for key resp.events)
        ≡ (any (λ k. k == key) keys && lt_ℤ since (latest_incoming key c.db)))
      × (has_flag restart (events_for key resp.events)
          ≡ (any (λ k. k == key) keys && lt_ℤ (pos 0) (restart_request key c.db)))
      × (since ≤ℤ resp.cursor)
      × All (λ k. latest_incoming k c.db ≤ℤ resp.cursor) keys
      × ((collect_worker_events keys since c).1.db ≡ c.db)
collect_worker_events-report keys since c resp key done =
    let (flags, above, each, same) = collect_worker_events-answers keys since c resp key done in
    let (queued, waiting) =
      flags_if-has_flag (any (λ k. k == key) keys) since (latest_incoming key c.db)
        (restart_request key c.db) in
    (
      ap (has_flag incoming) flags ∙ queued,
      ap (has_flag restart) flags ∙ waiting,
      above,
      each,
      same,
    )

-- Polling again with the cursor that was answered, nothing having been queued: no channel of the poll
-- has the flag "incoming".
pub collect_worker_events-quiet :
    (keys : List String) (since : ℤ) (c : Conn) (resp again : WorkerEventsResponse)
    → (collect_worker_events keys since c).0 ≡ ok resp
    → (collect_worker_events keys resp.cursor (collect_worker_events keys since c).1).0 ≡ ok again
    → (key : String) → any (λ k. k == key) keys ≡ true
    → events_for key again.events
      ≡ (if lt_ℤ (pos 0) (restart_request key c.db) then restart ∷ [] else [])
unfolding flags_of
collect_worker_events-quiet keys since c resp again done redone key asked =
    let (flags, l, each, same) = collect_worker_events-answers keys since c resp key done in
    let (now, l', each', same') =
      collect_worker_events-answers keys resp.cursor (collect_worker_events keys since c).1 again
        key redone in
    let quiet =
      not_later resp.cursor (latest_incoming key c.db)
        (All-asked (λ k. latest_incoming k c.db ≤ℤ resp.cursor) key keys each asked) in
    now ∙ rw (asked, same, quiet) refl
