-- ===== src/Ws/Delete.antt =====
-- internal/ws/hub.go: what slices.Delete does to the registered clients in Remove.
use live_transcript_server.Prelude.{
  ℕ, suc, ◌≡◌, refl, Bool, true, false, not, ◌&&◌, List, [], ◌∷◌, length, any, All, Distinct, eqb,
  eqb→eq, if◌then◌else◌, arith,
}
use live_transcript_server.Ws.Hub.{delete}

pub length-delete :
    (c : ℕ) (cs : List ℕ) → any (eqb c) cs ≡ true → length cs ≡ suc (length (delete c cs))
unfolding delete
length-delete c [] h = cc
length-delete c (d ∷ ds) h = ground (arith, length-delete c ds)

pub All-delete {ℓ} : (P : ℕ → Type ℓ) (c : ℕ) (cs : List ℕ) → All P cs → All P (delete c cs)
unfolding delete
All-delete P c [] h = tt
All-delete P c (d ∷ ds) h = go (eqb c d) (All-delete P c ds h.1)
  where
    go : (b : Bool) → All P (delete c ds) → All P (if b then ds else d ∷ delete c ds)
    go true ih = h.1
    go false ih = (h.0, ih)

pub Distinct-delete : (c : ℕ) (cs : List ℕ) → Distinct eqb cs → Distinct eqb (delete c cs)
unfolding delete
Distinct-delete c [] h = tt
Distinct-delete c (d ∷ ds) h = go (eqb c d) (Distinct-delete c ds h.1)
  where
    go : (b : Bool) → Distinct eqb (delete c ds) → Distinct eqb (if b then ds else d ∷ delete c ds)
    go true ih = h.1
    go false ih = (All-delete _ c ds h.0, ih)

absent : (c : ℕ) (cs : List ℕ) → All (λ d. eqb c d ≡ false) cs → any (eqb c) cs ≡ false
absent c [] h = refl
absent c (d ∷ ds) h = ground (arith, absent c ds h.1, h.0)

-- Of clients registered once each, it takes the one and leaves the others.
pub any-delete :
    (c d : ℕ) (cs : List ℕ)
    → Distinct eqb cs
    → any (eqb d) (delete c cs) ≡ (any (eqb d) cs && not (eqb c d))
unfolding delete
any-delete c d [] h = refl
any-delete c d (x ∷ xs) h =
    ground (arith, any-delete c d xs h.1, absent x xs h.0, eqb→eq c d, eqb→eq c x)
