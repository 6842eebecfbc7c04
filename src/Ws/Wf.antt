-- ===== src/Ws/Wf.antt =====
-- internal/ws/hub.go: the well-formed hubs, and that each operation keeps them.
use live_transcript_server.Prelude.{
  ℕ, String, suc, ◌+◌, ◌<◌, ◌≤◌, ◌^◌, ◌≡◌, refl, ap, ◌∙◌, ◌⊎◌, inl, inr, Bool, true, false, not,
  List, [], ◌∷◌, ◌++◌, ℤ, pos, succ64-pos, pred64-pos, le_ℤ, length, length-append, any, any-append,
  All, All-map, All-append, Distinct, Distinct-append, Bool-cases, eqb, eqb→eq, if◌then◌else◌,
  arith,
}
use live_transcript_server.Ws.Events.{Message}
use live_transcript_server.Ws.Hub.{
  Hub, new_hub, new_client, is_refused, queued, try_send, reserve, unreserve, add, send_buffer,
}

-- With `pending` slots that Reserve has given and that await Add or Unreserve: each slot is pending
-- or a client's, there are no more than `limit`, each client is registered once, a client is done
-- if and only if it is no longer registered, and no buffer is over its capacity.
pub record IsWf (limit pending : ℕ) (h : Hub) : Type 0 where
  pub limited : h.max_conn ≡ pos limit
  pub counted : h.connections ≡ pos (pending + length h.clients)
  pub within : pending + length h.clients ≤ limit
  pub allocated : All (λ c. c < h.allocated) h.clients
  pub distinct : Distinct eqb h.clients
  pub is_done : (c : ℕ) → c < h.allocated → (h.heap c).done ≡ not (any (eqb c) h.clients)
  pub bounded : (c : ℕ) → length (h.heap c).send ≤ send_buffer

has_room : (a b : ℤ) (m n : ℕ) → a ≡ pos m → b ≡ pos n → le_ℤ a b ≡ false → suc n ≤ m
has_room a b m n l r h = ground arith

module _ {limit : ℕ} where
  pub new_hub-IsWf : (key : String) → IsWf limit 0 (new_hub key (pos limit))
  unfolding new_hub
  new_hub-IsWf key = record {
    limited = refl;
    counted = refl;
    within = omega arith;
    allocated = tt;
    distinct = tt;
    is_done = λ c h. absurd (omega arith);
    bounded = λ c. omega arith;
  }

  -- With the hub's limit in 64 bits.
  pub reserve-IsWf :
      (pending : ℕ) (h : Hub)
      → limit < 2 ^ 63
      → IsWf limit pending h
      → (reserve h).0 ≡ true
      → IsWf limit (suc pending) (reserve h).1
  unfolding reserve
  reserve-IsWf pending h small wf = elim (Bool-cases (le_ℤ h.max_conn h.connections)) [
    | inl e ↦ rw e λ k. cc
    | inr e ↦ rw e λ k. record {
      limited = wf.limited;
      counted = succ64-pos _ _ _ wf.counted (omega arith) (omega (arith, small, room e));
      within = room e;
      allocated = wf.allocated;
      distinct = wf.distinct;
      is_done = wf.is_done;
      bounded = wf.bounded;
    }
  ]
    where
      room : le_ℤ h.max_conn h.connections ≡ false → suc pending + length h.clients ≤ limit
      room e = omega (arith, has_room _ _ _ _ wf.limited wf.counted e)

  pub unreserve-IsWf :
      (pending : ℕ) (h : Hub) → IsWf limit (suc pending) h → IsWf limit pending (unreserve h)
  unfolding unreserve
  unreserve-IsWf pending h wf = record {
    limited = wf.limited;
    counted = pred64-pos _ _ _ wf.counted (omega arith);
    within = omega (arith, wf.within);
    allocated = wf.allocated;
    distinct = wf.distinct;
    is_done = wf.is_done;
    bounded = wf.bounded;
  }

pub any-fresh : (n : ℕ) (cs : List ℕ) → All (λ c. c < n) cs → any (eqb n) cs ≡ false
any-fresh n [] h = refl
any-fresh n (c ∷ cs) h = ground (arith, any-fresh n cs h.1, h.0)

eqb_symm : (a b : ℕ) → eqb a b ≡ false → eqb b a ≡ false
eqb_symm a b h = ground arith

module _ {limit : ℕ} where
  pub add-IsWf : (pending : ℕ) (h : Hub) → IsWf limit (suc pending) h → IsWf limit pending (add h).1
  unfolding add
  add-IsWf pending h wf = record {
    limited = wf.limited;
    counted = rw wf.counted (ap pos (omega (arith, length-append h.clients (h.allocated ∷ []))));
    within = omega (arith, wf.within, length-append h.clients (h.allocated ∷ []));
    allocated =
        All-append _ h.clients _ (All-map (λ c l. omega arith) h.clients wf.allocated)
          (omega arith, tt);
    distinct =
        Distinct-append eqb h.allocated h.clients (eqb_symm h.allocated)
          (any-fresh h.allocated h.clients wf.allocated) wf.distinct;
    is_done = λ c l. added c l (Bool-cases (eqb h.allocated c));
    bounded = λ c. room c (eqb h.allocated c);
  }
    where
      room : (c : ℕ) (b : Bool) → length (if b then new_client else h.heap c).send ≤ send_buffer
      room c true = omega arith
      room c false = wf.bounded c

      added :
          (c : ℕ)
          → c < suc h.allocated
          → (eqb h.allocated c ≡ true) ⊎ (eqb h.allocated c ≡ false)
          → (if eqb h.allocated c then new_client else h.heap c).done
            ≡ not (any (eqb c) (h.clients ++ h.allocated ∷ []))
      added c l (inl e) = rw (e, any-append (eqb c) h.clients (h.allocated ∷ [])) (ground arith)
      added c l (inr e) =
          rw (e, any-append (eqb c) h.clients (h.allocated ∷ []), wf.is_done c (ground arith))
            (ground arith)

  pub try_send-IsWf :
      (pending : ℕ) (c : ℕ) (msg : Message) (h : Hub)
      → IsWf limit pending h
      → IsWf limit pending (try_send c msg h).1
  unfolding try_send
  try_send-IsWf pending c msg h wf = elim (Bool-cases (is_refused (h.heap c))) [
    | inl e ↦ rw e wf
    | inr e ↦ rw e (record {
      limited = wf.limited;
      counted = wf.counted;
      within = wf.within;
      allocated = wf.allocated;
      distinct = wf.distinct;
      is_done = λ d l. same_done d ∙ wf.is_done d l;
      bounded = λ d. room e d (eqb c d);
    })
  ]
    where
      same_done :
          (d : ℕ) → (if eqb c d then queued msg (h.heap c) else h.heap d).done ≡ (h.heap d).done
      same_done d = elim (Bool-cases (eqb c d)) [
        | inl e ↦ rw e (ap (λ x. (h.heap x).done) (eqb→eq c d e))
        | inr e ↦ rw e refl
      ]

      room :
          is_refused (h.heap c) ≡ false
          → (d : ℕ) (b : Bool)
          → length (if b then queued msg (h.heap c) else h.heap d).send ≤ send_buffer
      room e d true = ground (arith, length-append (h.heap c).send (msg ∷ []))
      room e d false = wf.bounded d
