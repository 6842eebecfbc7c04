-- ===== src/Ws/Fanout.antt =====
-- internal/ws/hub.go: what Broadcast and Remove do to each client.
use live_transcript_server.Prelude.{
  ℕ, ◌+◌, ◌≡◌, refl, ap, ◌∙◌, Bool, true, false, not, ◌&&◌, ◌||◌, [], ◌∷◌, ◌++◌, leb, succ_ℤ, pos,
  pred64-pos, length, any, filter, filter-cong, All, All-map, Distinct, eqb_refl, eqb,
  if◌then◌else◌, arith,
}
use live_transcript_server.Ws.Events.{Message}
use live_transcript_server.Ws.Hub.{
  Hub, Client, is_refused, queued, delete, shut, remove, offer, broadcast,
}
use live_transcript_server.Ws.Delete.{length-delete, any-delete}
use live_transcript_server.Ws.Wf.{IsWf}
use live_transcript_server.Ws.Offers.{
  All-self, any-filter_self, offer-clients, offer-stale, offer-heap, remove_all-clients,
  remove_all-heap,
}

-- A client that cannot accept a message: it is done, or has 256 messages in its buffer.
abbrev pub is_stale : Client → Bool
is_stale client = client.done || leb 256 (length client.send)

-- What Broadcast leaves of a client.
abbrev pub delivered : Message → Hub → ℕ → Client
delivered msg h c =
    let old = h.heap c in
    if any (eqb c) h.clients
    then if is_stale old
      then record { send = old.send; done = true; closed = true }
      else record { send = old.send ++ msg ∷ []; done = old.done; closed = old.closed }
    else old

module _ (msg : Message) (h : Hub) (u : Distinct eqb h.clients) where
  stale-any :
      (c : ℕ)
      → any (eqb c) (offer msg h.clients h).0 ≡ (any (eqb c) h.clients && is_refused (h.heap c))
  stale-any c =
      rw (offer-stale msg h.clients h u) (any-filter_self (λ d. is_refused (h.heap d)) c h.clients)

  broadcast-clients :
      (broadcast msg h).clients ≡ filter (λ c. not (is_refused (h.heap c))) h.clients
  unfolding broadcast
  broadcast-clients =
      remove_all-clients (offer msg h.clients h).0 (offer msg h.clients h).1
        (rw (offer-clients msg h.clients h) u)
      ∙ rw (offer-clients msg h.clients h) (filter-cong _ _ h.clients same)
    where
      one :
          (c : ℕ)
          → any (eqb c) h.clients ≡ true
          → not (any (eqb c) (offer msg h.clients h).0) ≡ not (is_refused (h.heap c))
      one c k = rw (stale-any c, k) refl

      same :
          All
            (λ c. not (any (eqb c) (offer msg h.clients h).0) ≡ not (is_refused (h.heap c)))
            h.clients
      same = All-map one h.clients (All-self h.clients)

  broadcast-heap : (c : ℕ) → (broadcast msg h).heap c ≡ delivered msg h c
  unfolding broadcast
  broadcast-heap c =
      remove_all-heap (offer msg h.clients h).0 (offer msg h.clients h).1
        (rw (offer-clients msg h.clients h) u) c
      ∙ rw (offer-clients msg h.clients h, stale-any c, offer-heap msg h.clients h u c)
          (sort_out (any (eqb c) h.clients) (is_refused (h.heap c)) (h.heap c)
            (queued msg (h.heap c)))
    where
      sort_out :
          (a r : Bool) (x y : Client)
          → (if a && (a && r)
              then shut (if a && not r then y else x)
              else if a && not r
              then y
              else x)
            ≡ (if a then if r then shut x else y else x)
      sort_out true true x y = refl
      sort_out true false x y = refl
      sort_out false r x y = refl

-- In a well-formed hub, a Broadcast leaves registered exactly the clients that were not done and had
-- fewer than 256 messages in their buffers, in their order; each of these has the message at the end
-- of its buffer and is otherwise as it was, each of the others is done and its connection closed, with
-- its buffer as it was, and the clients that were not registered are as they were.
pub broadcast-effect :
    {limit pending : ℕ} (msg : Message) (h : Hub)
    → IsWf limit pending h
    → ((broadcast msg h).clients ≡ filter (λ c. not (is_stale (h.heap c))) h.clients)
      × ((c : ℕ) → (broadcast msg h).heap c ≡ delivered msg h c)
broadcast-effect msg h wf = (broadcast-clients msg h wf.distinct, broadcast-heap msg h wf.distinct)

module _ (c : ℕ) (h : Hub) (e : any (eqb c) h.clients ≡ true) where
  remove-found : (remove c h).0 ≡ true
  unfolding remove
  remove-found = rw e refl

  remove-takes :
      (n : ℕ)
      → h.connections ≡ pos (n + length h.clients)
      → h.connections ≡ succ_ℤ (remove c h).1.connections
  unfolding remove
  remove-takes n k =
      rw
        (
          e,
          pred64-pos _ (n + length (delete c h.clients)) _ k
              (omega (arith, length-delete c h.clients e)),
        )
        (k ∙ ap pos (omega (arith, length-delete c h.clients e)))

  remove-again : Distinct eqb h.clients → remove c (remove c h).1 ≡ (false, (remove c h).1)
  unfolding remove
  remove-again u = rw (e, any-delete c c h.clients u, e, eqb_refl c) refl

-- In a well-formed hub, Remove of a client that is registered reports so and takes its one slot,
-- and a second Remove of the same client reports that there was nothing to do and changes nothing.
pub remove-once :
    {limit pending : ℕ} (c : ℕ) (h : Hub)
    → IsWf limit pending h
    → any (eqb c) h.clients ≡ true
    → ((remove c h).0 ≡ true)
      × (h.connections ≡ succ_ℤ (remove c h).1.connections)
      × (remove c (remove c h).1 ≡ (false, (remove c h).1))
remove-once {pending} c h wf e =
    (remove-found c h e, remove-takes c h e pending wf.counted, remove-again c h e wf.distinct)
