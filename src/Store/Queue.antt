-- ===== src/Store/Queue.antt =====
-- internal/store/incoming.go: the queue of URLs as a map from channel and URL to a time.
use live_transcript_server.Prelude.{
  String, ◌≡◌, refl, inl, inr, Bool, true, false, not, ◌&&◌, Option, none, some, List, [], ◌∷◌,
  ◌++◌, ℤ, lt_ℤ, any, filter, update_where, All, Distinct, Bool-cases, ◌==◌, eq_iff, if◌then◌else◌,
  arith,
}
use live_transcript_server.Store.Sql.{IncomingRow}
use live_transcript_server.Store.Incoming.{is_queued, is_for}
use live_transcript_server.Store.Keys.{same_url}

-- The time of a URL of a channel, if it is queued.
abbrev pub Queue : Type 0
Queue = String → String → Option ℤ

abbrev pub received_in : String → String → List IncomingRow → Option ℤ
received_in channel url [] = none
received_in channel url (r ∷ rows) =
    if is_queued channel url r then some r.received_at else received_in channel url rows

-- A time before the cutoff is none.
abbrev pub unexpired : ℤ → Option ℤ → Option ℤ
unexpired cutoff none = none
unexpired cutoff (some at) = if lt_ℤ at cutoff then none else some at

module _ (channel url : String) where
  abbrev pub same : String → String → Bool
  same ch u = ch == channel && u == url

  module _ (ch u : String) where
    abbrev refreshed : ℤ → List IncomingRow → List IncomingRow
    refreshed at rows = update_where (is_queued ch u) (λ r. record r { received_at = at }) rows

    -- A row's key against the key that is written.
    keys_of : (r : IncomingRow) → is_queued ch u r ≡ true → is_queued channel url r ≡ same ch u
    keys_of r h = ground (arith, eq_iff r.channel_key ch, eq_iff r.url u, h)

    received-other :
        (at : ℤ) (rows : List IncomingRow)
        → same ch u ≡ false
        → received_in channel url (refreshed at rows) ≡ received_in channel url rows
    unfolding update_where
    received-other at [] h = refl
    received-other at (r ∷ rows) h = elim (Bool-cases (is_queued ch u r)) [
      | inl e ↦ rw (e, keys_of r e, h) (received-other at rows h)
      | inr e ↦ rw (e, received-other at rows h) refl
    ]

    pub received-update :
        (at : ℤ) (rows : List IncomingRow)
        → any (is_queued ch u) rows ≡ true
        → received_in channel url (refreshed at rows)
          ≡ (if same ch u then some at else received_in channel url rows)
    unfolding update_where
    received-update at [] h = cc
    received-update at (r ∷ rows) h = elim (Bool-cases (is_queued ch u r)) [
      | inl e ↦
          rw (e, keys_of r e)
            (elim (Bool-cases (same ch u)) [
              | inl k ↦ rw k refl
              | inr k ↦ rw k (received-other at rows k)
            ])
      | inr e ↦
          let rest = received-update at rows (ground arith) in
          rw (e, rest)
            (elim (Bool-cases (is_queued channel url r)) [
              | inl k ↦ rw (k, apart r e k) refl
              | inr k ↦ rw k refl
            ])
    ]
      where
        apart :
            (r : IncomingRow)
            → is_queued ch u r ≡ false
            → is_queued channel url r ≡ true
            → same ch u ≡ false
        apart r e k = ground (
          arith,
          e,
          k,
          eq_iff r.channel_key ch,
          eq_iff r.url u,
          eq_iff r.channel_key channel,
          eq_iff r.url url,
          eq_iff ch channel,
          eq_iff u url,
        )

    pub received-append :
        (at : ℤ) (rows : List IncomingRow)
        → any (is_queued ch u) rows ≡ false
        → received_in channel url
            (rows ++ record { channel_key = ch; url = u; received_at = at } ∷ [])
          ≡ (if same ch u then some at else received_in channel url rows)
    received-append at [] h = refl
    received-append at (r ∷ rows) h = ground (
      arith,
      received-append at rows,
      eq_iff r.channel_key ch,
      eq_iff r.url u,
      eq_iff r.channel_key channel,
      eq_iff r.url url,
      eq_iff ch channel,
      eq_iff u url,
    )

    pub received-dequeue :
        (rows : List IncomingRow)
        → received_in channel url (filter (λ r. not (is_queued ch u r)) rows)
          ≡ (if same ch u then none else received_in channel url rows)
    unfolding filter
    received-dequeue [] = ground arith
    received-dequeue (r ∷ rows) = ground (
      arith,
      received-dequeue rows,
      eq_iff r.channel_key ch,
      eq_iff r.url u,
      eq_iff r.channel_key channel,
      eq_iff r.url url,
      eq_iff ch channel,
      eq_iff u url,
    )

  pub received-clear :
      (ch : String) (rows : List IncomingRow)
      → received_in channel url (filter (λ r. not (is_for ch r)) rows)
        ≡ (if ch == channel then none else received_in channel url rows)
  unfolding filter
  received-clear ch [] = ground arith
  received-clear ch (r ∷ rows) = ground (
    arith,
    received-clear ch rows,
    eq_iff r.channel_key ch,
    eq_iff r.channel_key channel,
    eq_iff ch channel,
  )

  -- No row has the key of `r`.
  received-apart :
      (r : IncomingRow) (p : IncomingRow → Bool) (rows : List IncomingRow)
      → is_queued channel url r ≡ true
      → All (λ s. same_url r s ≡ false) rows
      → received_in channel url (filter p rows) ≡ none
  unfolding filter
  received-apart r p [] h d = refl
  received-apart r p (s ∷ rows) h d = ground (
    arith,
    received-apart r p rows h d.1,
    d.0,
    eq_iff r.channel_key channel,
    eq_iff r.url url,
    eq_iff s.channel_key r.channel_key,
    eq_iff s.url r.url,
    eq_iff s.channel_key channel,
    eq_iff s.url url,
  )

  pub received-expire :
      (cutoff : ℤ) (rows : List IncomingRow)
      → Distinct same_url rows
      → received_in channel url (filter (λ r. not (lt_ℤ r.received_at cutoff)) rows)
        ≡ unexpired cutoff (received_in channel url rows)
  unfolding filter
  received-expire cutoff [] d = refl
  received-expire cutoff (r ∷ rows) d = elim (Bool-cases (is_queued channel url r)) [
    | inl k ↦
        let gone = received-apart r (λ s. not (lt_ℤ s.received_at cutoff)) rows k d.0 in
        elim (Bool-cases (lt_ℤ r.received_at cutoff)) [
          | inl e ↦ rw (k, e, gone) refl
          | inr e ↦ rw (k, e) (rw k refl)
        ]
    | inr k ↦ elim (Bool-cases (lt_ℤ r.received_at cutoff)) [
      | inl e ↦ rw (k, e) (received-expire cutoff rows d.1)
      | inr e ↦ rw (k, e) (rw k (received-expire cutoff rows d.1))
    ]
  ]
