-- ===== src/Ws/Accounting.antt =====
-- internal/ws/hub.go: the slots of a hub under the calls of its handlers, pumps and broadcasts, in
-- any order. Every call that holds the mutex is one step, so that the two loops of Broadcast can
-- have other calls between them, and before each Remove of the second.
use live_transcript_server.Prelude.{
  ℕ, String, suc, ◌<◌, ◌≤◌, ◌^◌, ◌≡◌, refl, ap, ◌∙◌, inl, inr, Bool, true, false, not, List, [],
  ◌∷◌, pos, pred64-pos, length, any, Bool-cases, eqb, eqb→eq, if◌then◌else◌, arith,
}
use live_transcript_server.Ws.Events.{Message}
use live_transcript_server.Ws.Hub.{
  Hub, new_hub, set_client, try_send, reserve, unreserve, add, delete, shut, remove, offer,
  remove_all, send_buffer,
}
use live_transcript_server.Ws.Pumps.{write_turn, write_one, Wake, message, done, cancelled}
use live_transcript_server.Ws.Delete.{length-delete, All-delete, Distinct-delete, any-delete}
use live_transcript_server.Ws.Wf.{
  IsWf, new_hub-IsWf, reserve-IsWf, unreserve-IsWf, add-IsWf, try_send-IsWf,
}

module _ {limit : ℕ} where
  pub remove-IsWf :
      (pending : ℕ) (c : ℕ) (h : Hub) → IsWf limit pending h → IsWf limit pending (remove c h).1
  unfolding remove
  remove-IsWf pending c h wf = elim (Bool-cases (any (eqb c) h.clients)) [
    | inl e ↦ rw e (record {
      limited = wf.limited;
      counted = pred64-pos _ _ _ wf.counted (omega (arith, length-delete c h.clients e));
      within = omega (arith, wf.within, length-delete c h.clients e);
      allocated = All-delete _ c h.clients wf.allocated;
      distinct = Distinct-delete c h.clients wf.distinct;
      is_done = λ d l. shut_one d l;
      bounded = λ d. room d (eqb c d);
    })
    | inr e ↦ rw e wf
  ]
    where
      shut_one :
          (d : ℕ)
          → d < h.allocated
          → (if eqb c d then shut (h.heap c) else h.heap d).done
            ≡ not (any (eqb d) (delete c h.clients))
      shut_one d l = rw (any-delete c d h.clients wf.distinct) (elim (Bool-cases (eqb c d)) [
        | inl e ↦ rw e (ground arith)
        | inr e ↦ rw (e, wf.is_done d l) (ground arith)
      ])

      room :
          (d : ℕ) (b : Bool) → length (if b then shut (h.heap c) else h.heap d).send ≤ send_buffer
      room d true = wf.bounded c
      room d false = wf.bounded d

  pub offer-IsWf :
      (pending : ℕ) (msg : Message) (cs : List ℕ) (h : Hub)
      → IsWf limit pending h
      → IsWf limit pending (offer msg cs h).1
  unfolding offer
  offer-IsWf pending msg [] h wf = wf
  offer-IsWf pending msg (c ∷ cs) h wf =
      offer-IsWf pending msg cs (try_send c msg h).1 (try_send-IsWf pending c msg h wf)

  pub remove_all-IsWf :
      (pending : ℕ) (cs : List ℕ) (h : Hub)
      → IsWf limit pending h
      → IsWf limit pending (remove_all cs h)
  unfolding remove_all
  remove_all-IsWf pending [] h wf = wf
  remove_all-IsWf pending (c ∷ cs) h wf =
      remove_all-IsWf pending cs (remove c h).1 (remove-IsWf pending c h wf)

  -- A write pump takes a message from the buffer.
  take-IsWf :
      (pending : ℕ) (c : ℕ) (msg : Message) (rest : List Message) (h : Hub)
      → (h.heap c).send ≡ msg ∷ rest
      → IsWf limit pending h
      → IsWf limit pending (set_client c (record (h.heap c) { send = rest }) h)
  take-IsWf pending c msg rest h e wf = record {
    limited = wf.limited;
    counted = wf.counted;
    within = wf.within;
    allocated = wf.allocated;
    distinct = wf.distinct;
    is_done = λ d l. same_done d ∙ wf.is_done d l;
    bounded = λ d. room d (eqb c d);
  }
    where
      same_done :
          (d : ℕ)
          → (if eqb c d then record (h.heap c) { send = rest } else h.heap d).done ≡ (h.heap d).done
      same_done d = elim (Bool-cases (eqb c d)) [
        | inl k ↦ rw k (ap (λ x. (h.heap x).done) (eqb→eq c d k))
        | inr k ↦ rw k refl
      ]

      room :
          (d : ℕ) (b : Bool)
          → length (if b then record (h.heap c) { send = rest } else h.heap d).send ≤ send_buffer
      room d true = omega (arith, wf.bounded c, ap length e)
      room d false = wf.bounded d

  pub write_turn-IsWf :
      (pending : ℕ) (c : ℕ) (wake : Wake) (h : Hub)
      → IsWf limit pending h
      → IsWf limit pending (write_turn c wake h).1
  unfolding write_turn
  write_turn-IsWf pending c (message written) h wf = go (h.heap c).send refl
    where
      go :
          (waiting : List Message)
          → (h.heap c).send ≡ waiting
          → IsWf limit pending (write_one c written h waiting).1
      go [] e = wf
      go (msg ∷ rest) e = elim (Bool-cases written) [
        | inl w ↦ rw w (take-IsWf pending c msg rest h e wf)
        | inr w ↦ rw w (remove-IsWf pending c _ (take-IsWf pending c msg rest h e wf))
      ]
  write_turn-IsWf pending c done h wf = elim (Bool-cases (h.heap c).done) [
    | inl e ↦ rw e (remove-IsWf pending c h wf)
    | inr e ↦ rw e wf
  ]
  write_turn-IsWf pending c cancelled h wf = remove-IsWf pending c h wf

-- The calls on a hub, with the number of handlers that hold a slot and have no client yet.
pub data Step : ℕ → Hub → ℕ → Hub → Type 0 where
  reserved : {p : ℕ} (h : Hub) → (reserve h).0 ≡ true → Step p h (suc p) (reserve h).1
  unreserved : {p : ℕ} (h : Hub) → Step (suc p) h p (unreserve h)
  added : {p : ℕ} (h : Hub) → Step (suc p) h p (add h).1
  removed : {p : ℕ} (h : Hub) (c : ℕ) → Step p h p (remove c h).1
  sent : {p : ℕ} (h : Hub) (c : ℕ) (msg : Message) → Step p h p (try_send c msg h).1
  offered : {p : ℕ} (h : Hub) (msg : Message) → Step p h p (offer msg h.clients h).1
  pumped : {p : ℕ} (h : Hub) (c : ℕ) (wake : Wake) → Step p h p (write_turn c wake h).1

-- The hubs that a new one can come to.
pub data Reach (key : String) (limit : ℕ) : ℕ → Hub → Type 0 where
  created : Reach key limit 0 (new_hub key (pos limit))
  next : {p q : ℕ} {h k : Hub} → Reach key limit p h → Step p h q k → Reach key limit q k

Step-IsWf :
    {limit p q : ℕ} {h k : Hub} → limit < 2 ^ 63 → Step p h q k → IsWf limit p h → IsWf limit q k
Step-IsWf small (reserved h free) wf = reserve-IsWf _ h small wf free
Step-IsWf small (unreserved h) wf = unreserve-IsWf _ h wf
Step-IsWf small (added h) wf = add-IsWf _ h wf
Step-IsWf small (removed h c) wf = remove-IsWf _ c h wf
Step-IsWf small (sent h c msg) wf = try_send-IsWf _ c msg h wf
Step-IsWf small (offered h msg) wf = offer-IsWf _ msg h.clients h wf
Step-IsWf small (pumped h c wake) wf = write_turn-IsWf _ c wake h wf

-- Whatever calls are made on a hub with room for `limit` (in 64 bits) connections, in whatever
-- order, where each Reserve that succeeds is followed by at most one Unreserve or Add: the hub is
-- well-formed, that is, its connection count is that of the handlers with a slot and no client plus
-- that of the registered clients, this is at most `limit`, and a client is done exactly if it is no
-- longer registered.
pub Reach-IsWf :
    {key : String} {limit p : ℕ} {h : Hub} → limit < 2 ^ 63 → Reach key limit p h → IsWf limit p h
Reach-IsWf {key} small created = new_hub-IsWf key
Reach-IsWf small (next r step) = Step-IsWf small step (Reach-IsWf small r)
