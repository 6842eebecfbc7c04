-- ===== src/Ws/Offers.antt =====
-- internal/ws/hub.go: the two loops of Broadcast.
use live_transcript_server.Prelude.{
  ℕ, ◌≡◌, refl, ap, sym, ◌∙◌, inl, inr, Bool, true, false, not, ◌&&◌, ◌||◌, List, [], ◌∷◌, any,
  filter, filter-cong, filter-filter, filter-All, All, All-map, Distinct, Distinct-filter, any-All,
  eqb_refl, Bool-cases, eqb, eqb→eq, if◌then◌else◌, arith,
}
use live_transcript_server.Ws.Events.{Message}
use live_transcript_server.Ws.Hub.{
  Hub, Client, is_refused, queued, try_send, delete, shut, remove, offer, remove_all,
}

pub All-self : (cs : List ℕ) → All (λ c. any (eqb c) cs ≡ true) cs
All-self [] = tt
All-self (c ∷ cs) = (rw (eqb_refl c) refl, All-map (λ d k. rw k (ground arith)) cs (All-self cs))

All-true : {P : ℕ → Type 0} (cs : List ℕ) → ((c : ℕ) → P c) → All P cs
All-true [] f = tt
All-true (c ∷ cs) f = (f c, All-true cs f)

eqb_symm : (a b : ℕ) → eqb a b ≡ false → eqb b a ≡ false
eqb_symm a b h = ground arith

other : (c : ℕ) (cs : List ℕ) → All (λ d. eqb c d ≡ false) cs → any (eqb c) cs ≡ false
other c [] h = refl
other c (d ∷ ds) h = ground (arith, other c ds h.1, h.0)

pub any-filter_self :
    (p : ℕ → Bool) (d : ℕ) (cs : List ℕ) → any (eqb d) (filter p cs) ≡ (any (eqb d) cs && p d)
unfolding filter
any-filter_self p d [] = refl
any-filter_self p d (c ∷ cs) = elim (Bool-cases (eqb d c)) [
  | inl e ↦ rw (eqb→eq d c e) (ground (arith, any-filter_self p c cs))
  | inr e ↦ ground (arith, any-filter_self p d cs)
]

delete-filter :
    (c : ℕ) (cs : List ℕ) → Distinct eqb cs → delete c cs ≡ filter (λ d. not (eqb c d)) cs
unfolding delete filter
delete-filter c [] h = refl
delete-filter c (d ∷ ds) h = elim (Bool-cases (eqb c d)) [
  | inl e ↦
      rw e (
        sym
          (filter-All (λ x. not (eqb c x)) ds (All-map (λ x k. rw (eqb→eq c d e, k) refl) ds h.0)))
  | inr e ↦ rw (e, delete-filter c ds h.1) refl
]

-- The state of a client after the first loop of Broadcast.
abbrev pub offered : Message → List ℕ → (ℕ → Client) → ℕ → Client
offered msg cs heap d =
    if any (eqb d) cs && not (is_refused (heap d)) then queued msg (heap d) else heap d

module _ (c : ℕ) (msg : Message) (h : Hub) where
  try_send-sent : (try_send c msg h).0 ≡ not (is_refused (h.heap c))
  unfolding try_send
  try_send-sent = elim (Bool-cases (is_refused (h.heap c))) [
    | inl e ↦ rw e refl
    | inr e ↦ rw e refl
  ]

  try_send-clients : (try_send c msg h).1.clients ≡ h.clients
  unfolding try_send
  try_send-clients = elim (Bool-cases (is_refused (h.heap c))) [
    | inl e ↦ rw e refl
    | inr e ↦ rw e refl
  ]

  try_send-other : (d : ℕ) → eqb c d ≡ false → (try_send c msg h).1.heap d ≡ h.heap d
  unfolding try_send
  try_send-other d k = elim (Bool-cases (is_refused (h.heap c))) [
    | inl e ↦ rw e refl
    | inr e ↦ rw (e, k) refl
  ]

  try_send_self :
      (try_send c msg h).1.heap c
      ≡ (if is_refused (h.heap c) then h.heap c else queued msg (h.heap c))
  unfolding try_send
  try_send_self = elim (Bool-cases (is_refused (h.heap c))) [
    | inl e ↦ rw e refl
    | inr e ↦ rw (e, eqb_refl c) refl
  ]

pub offer-clients : (msg : Message) (cs : List ℕ) (h : Hub) → (offer msg cs h).1.clients ≡ h.clients
unfolding offer
offer-clients msg [] h = refl
offer-clients msg (c ∷ cs) h = offer-clients msg cs (try_send c msg h).1 ∙ try_send-clients c msg h

pub offer-stale :
    (msg : Message) (cs : List ℕ) (h : Hub)
    → Distinct eqb cs
    → (offer msg cs h).0 ≡ filter (λ c. is_refused (h.heap c)) cs
unfolding offer filter
offer-stale msg [] h u = refl
offer-stale msg (c ∷ cs) h u =
    rw
      (
        try_send-sent c msg h,
        offer-stale msg cs (try_send c msg h).1 u.1,
        filter-cong _ (λ x. is_refused (h.heap x)) cs
            (All-map (λ x k. ap is_refused (try_send-other c msg h x k)) cs u.0),
      )
      (elim (Bool-cases (is_refused (h.heap c))) [ inl e ↦ rw e refl | inr e ↦ rw e refl ])

pub offer-heap :
    (msg : Message) (cs : List ℕ) (h : Hub)
    → Distinct eqb cs
    → (d : ℕ) → (offer msg cs h).1.heap d ≡ offered msg cs h.heap d
unfolding offer
offer-heap msg [] h u d = refl
offer-heap msg (c ∷ cs) h u d =
    offer-heap msg cs (try_send c msg h).1 u.1 d ∙ elim (Bool-cases (eqb c d)) [
      | inl e ↦ rw⁻¹ (eqb→eq c d e) (
          rw (other c cs u.0, eqb_refl c, try_send_self c msg h)
            (elim (Bool-cases (is_refused (h.heap c))) [ inl k ↦ rw k refl | inr k ↦ rw k refl ]))
      | inr e ↦ rw (eqb_symm c d e, try_send-other c msg h d e) refl
    ]

remove-clients :
    (c : ℕ) (h : Hub)
    → Distinct eqb h.clients
    → (remove c h).1.clients ≡ filter (λ d. not (eqb c d)) h.clients
unfolding remove
remove-clients c h u = elim (Bool-cases (any (eqb c) h.clients)) [
  | inl e ↦ rw e (delete-filter c h.clients u)
  | inr e ↦
      rw e (
        sym (filter-All _ h.clients (All-map (λ x k. rw k refl) h.clients (any-All _ h.clients e))))
]

remove-heap :
    (c : ℕ) (h : Hub) (d : ℕ)
    → (remove c h).1.heap d
      ≡ (if any (eqb d) h.clients && eqb c d then shut (h.heap d) else h.heap d)
unfolding remove
remove-heap c h d = elim (Bool-cases (eqb c d)) [
  | inl e ↦ rw⁻¹ (eqb→eq c d e) (elim (Bool-cases (any (eqb c) h.clients)) [
    | inl k ↦ rw (k, eqb_refl c) refl
    | inr k ↦ rw k refl
  ])
  | inr e ↦ elim (Bool-cases (any (eqb c) h.clients)) [
    | inl k ↦
        rw (k, e)
          (elim (Bool-cases (any (eqb d) h.clients)) [ inl l ↦ rw l refl | inr l ↦ rw l refl ])
    | inr k ↦
        rw (k, e)
          (elim (Bool-cases (any (eqb d) h.clients)) [ inl l ↦ rw l refl | inr l ↦ rw l refl ])
  ]
]

pub remove_all-clients :
    (cs : List ℕ) (h : Hub)
    → Distinct eqb h.clients
    → (remove_all cs h).clients ≡ filter (λ d. not (any (eqb d) cs)) h.clients
unfolding remove_all
remove_all-clients [] h u = sym (filter-All _ h.clients (All-true h.clients λ d. refl))
remove_all-clients (c ∷ cs) h u =
    remove_all-clients cs (remove c h).1
      (rw (remove-clients c h u) (Distinct-filter eqb _ h.clients u))
    ∙ rw
        (
          remove-clients c h u,
          filter-filter (λ d. not (eqb c d)) (λ d. not (any (eqb d) cs)) h.clients,
        )
        (filter-cong _ _ h.clients
          (All-true h.clients λ d. ground (arith, eqb_symm c d, eqb_symm d c)))

shut_twice :
    (a b m : Bool) (x : Client)
    → (if (a && not b) && m
        then shut (if a && b then shut x else x)
        else if a && b
        then shut x
        else x)
      ≡ (if a && (b || m) then shut x else x)
shut_twice true true m x = refl
shut_twice true false true x = refl
shut_twice true false false x = refl
shut_twice false b m x = refl

eqb_comm : (a b : ℕ) → eqb a b ≡ eqb b a
eqb_comm a b = ground arith

pub remove_all-heap :
    (cs : List ℕ) (h : Hub)
    → Distinct eqb h.clients
    → (d : ℕ)
    → (remove_all cs h).heap d
      ≡ (if any (eqb d) h.clients && any (eqb d) cs then shut (h.heap d) else h.heap d)
unfolding remove_all
remove_all-heap [] h u d = elim (Bool-cases (any (eqb d) h.clients)) [
  | inl l ↦ rw l refl
  | inr l ↦ rw l refl
]
remove_all-heap (c ∷ cs) h u d =
    remove_all-heap cs (remove c h).1
      (rw (remove-clients c h u) (Distinct-filter eqb _ h.clients u)) d
    ∙ rw (remove-heap c h d, remove-clients c h u, any-filter_self (λ x. not (eqb c x)) d h.clients)
        (rw (eqb_comm d c)
          (shut_twice (any (eqb d) h.clients) (eqb c d) (any (eqb d) cs) (h.heap d)))
