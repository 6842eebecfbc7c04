-- ===== src/Server/EventMap.antt =====
-- internal/server/handlers_events.go: resp.Events of collectWorkerEvents, as a map.
use live_transcript_server.Prelude.{
  String, ◌≡◌, refl, inl, inr, true, false, not, ◌&&◌, List, [], ◌∷◌, ◌++◌, ℤ, any, update_where,
  Bool-cases, ◌==◌, eq_iff, if◌then◌else◌, arith,
}
use live_transcript_server.Server.Events.{
  Flag, WorkerEventsResponse, is_entry, set_events, is_empty, flags_of, note_channel,
}

-- resp.Events[key], nil for a key that is not there.
unfoldable pub events_for : String → List (String × List Flag) → List Flag
events_for key [] = []
events_for key (entry ∷ entries) =
    let rest = events_for key entries in if is_entry key entry then entry.1 else rest

module _ (key key' : String) (flags : List Flag) where
  abbrev updated : List (String × List Flag) → List (String × List Flag)
  updated es = update_where (is_entry key) (λ e. (key, flags)) es

  events_for-other :
      (es : List (String × List Flag))
      → (key == key') ≡ false
      → events_for key' (updated es) ≡ events_for key' es
  unfolding events_for update_where
  events_for-other [] h = refl
  events_for-other (e ∷ es) h = elim (Bool-cases (e.0 == key)) [
    | inl k ↦
        rw (k, h, events_for-other es h)
          (ground (arith, h, k, eq_iff e.0 key, eq_iff e.0 key', eq_iff key key'))
    | inr k ↦ rw (k, events_for-other es h) refl
  ]

  events_for_self :
      (es : List (String × List Flag))
      → (key == key') ≡ true
      → any (is_entry key) es ≡ true
      → events_for key' (updated es) ≡ flags
  unfolding events_for update_where
  events_for_self [] h a = cc
  events_for_self (e ∷ es) h a = elim (Bool-cases (e.0 == key)) [
    | inl k ↦ rw (k, h) refl
    | inr k ↦
        let apart : (e.0 == key') ≡ false =
          ground (arith, eq_iff e.0 key, eq_iff e.0 key', eq_iff key key') in
        rw (k, apart) (events_for_self es h (ground arith))
  ]

  events_for-update :
      (es : List (String × List Flag))
      → any (is_entry key) es ≡ true
      → events_for key' (updated es) ≡ (if key == key' then flags else events_for key' es)
  events_for-update es a = elim (Bool-cases (key == key')) [
    | inl k ↦ rw k (events_for_self es k a)
    | inr k ↦ rw k (events_for-other es k)
  ]

  events_for-append :
      (es : List (String × List Flag))
      → any (is_entry key) es ≡ false
      → events_for key' (es ++ (key, flags) ∷ [])
        ≡ (if key == key' then flags else events_for key' es)
  unfolding events_for
  events_for-append [] h = refl
  events_for-append (e ∷ es) h =
      ground (arith, events_for-append es, eq_iff e.0 key, eq_iff e.0 key', eq_iff key key')

  events_for-set_events :
      (es : List (String × List Flag))
      → events_for key' (set_events key flags es)
        ≡ (if key == key' then flags else events_for key' es)
  unfolding set_events
  events_for-set_events es = elim (Bool-cases (any (is_entry key) es)) [
    | inl e ↦ rw e (events_for-update es e)
    | inr e ↦ rw e (events_for-append es e)
  ]

-- Recording a channel's flags, none of which means no entry.
pub events_for-note :
    (key key' : String) (since latest requested : ℤ) (resp : WorkerEventsResponse)
    → events_for key' (note_channel key since latest requested resp).events ≡ (
        if key == key' && not (is_empty (flags_of since latest requested))
        then flags_of since latest requested
        else events_for key' resp.events)
unfolding note_channel
events_for-note key key' since latest requested resp =
    elim (Bool-cases (is_empty (flags_of since latest requested))) [
      | inl e ↦ rw e (elim (Bool-cases (key == key')) [ inl k ↦ rw k refl | inr k ↦ rw k refl ])
      | inr e ↦
          rw (e, events_for-set_events key key' (flags_of since latest requested) resp.events)
            (elim (Bool-cases (key == key')) [ inl k ↦ rw k refl | inr k ↦ rw k refl ])
    ]
