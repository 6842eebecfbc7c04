-- ===== src/Server/Builds.antt =====
-- internal/server/vod.go: the claims of one key.
use live_transcript_server.Prelude.{
  ℕ, ◌<◌, String, ◌≡◌, subst, refl, ap, sym, ◌∙◌, inl, inr, Bool, true, false, not, Option, none,
  some, List, [], ◌∷◌, ℤ, filter, All, Bool-cases, ◌==◌, eq_iff, eq_refl, eqb, eqb→eq, eqb_refl,
  if◌then◌else◌, arith,
}
use live_transcript_server.Server.Vods.{
  running, VodRegistry, find_job, without_key, is_running, set_phase, outcome, finish, install,
  claim, claim_found, forget_job,
}

-- What the other goroutines call on the registry and its jobs.
pub data Call : Type 0 where
  claims : String → ℤ → Call
  phases : ℕ → String → Call
  finishes : ℕ → ℤ → Option String → Call
  forgets : String → Call

unfoldable pub run : Call → VodRegistry → VodRegistry
run (claims key now) r = (claim key now r).1
run (phases j phase) r = set_phase j phase r
run (finishes j now error) r = finish j now error r
run (forgets key) r = forget_job key r

unfoldable pub run_all : List Call → VodRegistry → VodRegistry
run_all [] r = r
run_all (call ∷ calls) r = run_all calls (run call r)

-- Neither finishes the job nor forgets its key.
abbrev pub spares : String → ℕ → Call → Bool
spares key job (claims k now) = true
spares key job (phases j phase) = true
spares key job (finishes j now error) = not (eqb j job)
spares key job (forgets k) = not (k == key)

-- The job is the key's, and runs.
pub record IsBuilding (key : String) (job : ℕ) (r : VodRegistry) : Type 0 where
  pub found : find_job key r.jobs ≡ some job
  pub runs : (r.heap job).state ≡ running
  pub made : job < r.allocated

find_job-without :
    (key key' : String) (jobs : List (String × ℕ))
    → (key == key') ≡ false
    → find_job key' (without_key key jobs) ≡ find_job key' jobs
unfolding find_job filter
find_job-without key key' [] h = refl
find_job-without key key' (e ∷ es) h =
    ground (arith, find_job-without key key' es h, eq_iff e.0 key, eq_iff e.0 key', eq_iff key key')

installs : (key : String) (now : ℤ) (r : VodRegistry) → r.allocated ≡ (install key now r).0.0
unfolding install
installs key now r = refl

fresh : (a j : ℕ) → j < a → eqb a j ≡ false
fresh a j h = ground arith

install-IsBuilding :
    (key : String) (now : ℤ) (r : VodRegistry) → IsBuilding key r.allocated (install key now r).1
unfolding install find_job
install-IsBuilding key now r = record {
  found = rw (eq_refl key) refl;
  runs = rw (eqb_refl r.allocated) refl;
  made = omega arith;
}

module _ (key : String) (job : ℕ) where
  -- A job is started by the claim that reports so.
  pub claim-IsBuilding :
      (now : ℤ) (r : VodRegistry)
      → (claim key now r).0 ≡ (job, true)
      → IsBuilding key job (claim key now r).1
  unfolding claim
  claim-IsBuilding now r = go (find_job key r.jobs)
    where
      start : (install key now r).0 ≡ (job, true) → IsBuilding key job (install key now r).1
      start h =
          subst (λ i. IsBuilding key i (install key now r).1) (installs key now r ∙ ap (λ p. p.0) h)
            (install-IsBuilding key now r)

      go :
          (o : Option ℕ)
          → (claim_found key now r o).0 ≡ (job, true)
          → IsBuilding key job (claim_found key now r o).1
      go none h = start h
      go (some j) h = found (is_running (r.heap j).state) h
        where
          found :
              (b : Bool)
              → (if b then ((j, false), r) else install key now r).0 ≡ (job, true)
              → IsBuilding key job (if b then ((j, false), r) else install key now r).1
          found true k = cc
          found false k = start k

  -- The jobs of other keys, and their states, are kept.
  install-other :
      (k : String) (now : ℤ) (r : VodRegistry)
      → (k == key) ≡ false
      → IsBuilding key job r
      → IsBuilding key job (install k now r).1
  unfolding install find_job
  install-other k now r other b = record {
    found = rw other (find_job-without k key r.jobs other ∙ b.found);
    runs = rw (fresh r.allocated job b.made) b.runs;
    made = omega (arith, b.made);
  }

  joins : (now : ℤ) (r : VodRegistry) → IsBuilding key job r → claim key now r ≡ ((job, false), r)
  unfolding claim
  joins now r b = rw (b.found, b.runs) refl

  run-IsBuilding :
      (call : Call) (r : VodRegistry)
      → spares key job call ≡ true
      → IsBuilding key job r
      → IsBuilding key job (run call r)
  unfolding run claim set_phase finish forget_job
  run-IsBuilding (claims k now) r s b = elim (Bool-cases (k == key)) [
    | inl e ↦
        subst (IsBuilding key job)
          (sym (ap (λ x. (claim x now r).1) ((eq_iff k key).0 e) ∙ ap (λ p. p.1) (joins now r b))) b
    | inr e ↦ other e (find_job k r.jobs)
  ]
    where
      other : (k == key) ≡ false → (o : Option ℕ) → IsBuilding key job (claim_found k now r o).1
      other e none = install-other k now r e b
      other e (some j) = elim (Bool-cases (is_running (r.heap j).state)) [
        | inl l ↦ rw l b
        | inr l ↦ rw l (install-other k now r e b)
      ]
  run-IsBuilding (phases j phase) r s b = record {
    found = b.found;
    runs = same_state (eqb j job) (eqb→eq j job);
    made = b.made;
  }
    where
      same_state :
          (i : Bool)
          → (i ≡ true → j ≡ job)
          → (if i then record (r.heap j) { phase = phase } else r.heap job).state ≡ running
      same_state true e = ap (λ x. (r.heap x).state) (e refl) ∙ b.runs
      same_state false e = b.runs
  run-IsBuilding (finishes j now error) r s b = record {
    found = b.found;
    runs = other (eqb j job) s;
    made = b.made;
  }
    where
      other :
          (i : Bool)
          → not i ≡ true
          → (if i then outcome now error (r.heap j) else r.heap job).state ≡ running
      other true h = cc
      other false h = b.runs
  run-IsBuilding (forgets k) r s b = record {
    found = find_job-without k key r.jobs (not_true (k == key) s) ∙ b.found;
    runs = b.runs;
    made = b.made;
  }
    where
      not_true : (i : Bool) → not i ≡ true → i ≡ false
      not_true true h = cc
      not_true false h = refl

  run_all-IsBuilding :
      (calls : List Call) (r : VodRegistry)
      → All (λ call. spares key job call ≡ true) calls
      → IsBuilding key job r
      → IsBuilding key job (run_all calls r)
  unfolding run_all
  run_all-IsBuilding [] r s b = b
  run_all-IsBuilding (call ∷ calls) r s b =
      run_all-IsBuilding calls (run call r) s.1 (run-IsBuilding call r s.0 b)

-- After a claim that reports that it has started a job, whatever is then called on the registry and
-- the jobs, in whatever order, as long as that job is not finished and its key not forgotten: another
-- claim of the key gets the same job, reports that it has not started it, and changes nothing.
pub claim-once :
    (key : String) (job : ℕ) (now later : ℤ) (r : VodRegistry) (calls : List Call)
    → (claim key now r).0 ≡ (job, true)
    → All (λ call. spares key job call ≡ true) calls
    → claim key later (run_all calls (claim key now r).1)
      ≡ ((job, false), run_all calls (claim key now r).1)
claim-once key job now later r calls started spared =
    joins key job later _
      (run_all-IsBuilding key job calls _ spared (claim-IsBuilding key job now r started))
