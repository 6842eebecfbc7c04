-- ===== src/Store/Outcome.antt =====
-- How a statement, a sequence of statements and a transaction of the package can end.
use live_transcript_server.Prelude.{
  ◌≡◌, refl, true, false, ap, ◌∙◌, ◌⊎◌, inl, inr, [], ◌∷◌, Bool, List, arith, if◌then◌else◌,
}
use live_transcript_server.Store.Sql.{
  Db, Conn, Result, ok, err, Sql, failed, continue, rollback, pure, ◌>>=◌, ◌>>◌, statement, nothing,
  transaction, at_fault, begin_commit, Error, raise, query, exec,
}

-- A connection on which no statement fails.
abbrev pub clean : Db → Conn
clean db = record { db = db; faults = [] }

pub Result-cases :
    {A : Type 0} (r : Result A) → ((a : A) × (r ≡ ok a)) ⊎ ((e : Error) × (r ≡ err e))
Result-cases (ok a) = inl (a, refl)
Result-cases (err e) = inr (e, refl)

-- A statement does its work, or fails and changes nothing.
pub statement-cases :
    {A : Type 0} (f : Db → Result A × Db) (c : Conn)
    → (((statement f c).0 ≡ (f c.db).0) × ((statement f c).1.db ≡ (f c.db).1))
      ⊎ (((statement f c).0 ≡ err failed) × ((statement f c).1.db ≡ c.db))
unfolding statement
statement-cases f c = go c.faults
  where
    go :
        (fs : List Bool)
        → (((at_fault fs f c.db).0 ≡ (f c.db).0) × ((at_fault fs f c.db).1.db ≡ (f c.db).1))
          ⊎ (((at_fault fs f c.db).0 ≡ err failed) × ((at_fault fs f c.db).1.db ≡ c.db))
    go [] = inl (refl, refl)
    go (true ∷ fs) = inr (refl, refl)
    go (false ∷ fs) = inl (refl, refl)

pub statement-ok :
    {A : Type 0} (f : Db → Result A × Db) (c : Conn) (a : A)
    → (statement f c).0 ≡ ok a
    → ((f c.db).0 ≡ ok a) × ((statement f c).1.db ≡ (f c.db).1)
statement-ok f c a h = ground (arith, statement-cases f c)

pub query-same : {A : Type 0} (f : Db → A) (c : Conn) → (query f c).1.db ≡ c.db
query-same f c = elim (statement-cases (λ db. (ok (f db), db)) c) [
  | inl (r, same) ↦ same
  | inr (r, same) ↦ same
]

-- A sequence succeeds only if both of its parts do.
pub >>=-ok :
    {A B : Type 0} (m : Sql A) (f : A → Sql B) (c : Conn) (b : B)
    → ((m >>= f) c).0 ≡ ok b
    → (a : A) × ((m c).0 ≡ ok a) × ((f a (m c).1).0 ≡ ok b) × (((m >>= f) c).1 ≡ (f a (m c).1).1)
>>=-ok {A} {B} m f c b = go (m c).0
  where
    go :
        (r : Result A)
        → (continue r f (m c).1).0 ≡ ok b
        → (a : A) × (r ≡ ok a)
          × ((f a (m c).1).0 ≡ ok b)
          × ((continue r f (m c).1).1 ≡ (f a (m c).1).1)
    go (ok a) h = (a, refl, h, refl)
    go (err e) h = cc

nothing-ok : (c : Conn) → ((nothing c).0 ≡ ok tt) → (nothing c).1.db ≡ c.db
nothing-ok c h = (statement-ok (λ db. (ok tt, db)) c tt h).1

rollback-ok :
    {A : Type 0} (db : Db) (r : Result A × Conn) (a : A)
    → (rollback db r).0 ≡ ok a
    → (r.0 ≡ ok a) × (rollback db r ≡ r)
rollback-ok db (ok b, c) a h = (h, refl)
rollback-ok db (err e, c) a h = cc

rollback-err :
    {A : Type 0} (db : Db) (r : Result A × Conn) (e : Error)
    → (rollback db r).0 ≡ err e
    → (rollback db r).1.db ≡ db
rollback-err db (ok b, c) e h = cc
rollback-err db (err x, c) e h = refl

begin_commit-ok :
    {A : Type 0} (body : Sql A) (c : Conn) (a : A)
    → (begin_commit body c).0 ≡ ok a
    → (c' : Conn) × (c'.db ≡ c.db)
      × ((body c').0 ≡ ok a)
      × ((begin_commit body c).1.db ≡ (body c').1.db)
unfolding begin_commit
begin_commit-ok body c a h =
    let (u, p, h1, q) = >>=-ok nothing (λ _. do b ← body; nothing; pure b) c a h in
    let c1 : Conn = (nothing c).1 in
    let (b, p1, h2, q1) = >>=-ok body (λ b. nothing >> pure b) c1 a h1 in
    let c2 : Conn = (body c1).1 in
    let (v, p2, h3, q2) = >>=-ok nothing (λ _. pure b) c2 a h2 in
    (c1, nothing-ok c p, p1 ∙ h3, ap (λ x. x.db) (q ∙ q1 ∙ q2) ∙ nothing-ok c2 p2)

-- A transaction that succeeds has run its body on the tables as they were.
pub transaction-ok :
    {A : Type 0} (body : Sql A) (c : Conn) (a : A)
    → (transaction body c).0 ≡ ok a
    → (c' : Conn) × (c'.db ≡ c.db)
      × ((body c').0 ≡ ok a)
      × ((transaction body c).1.db ≡ (body c').1.db)
unfolding transaction
transaction-ok body c a h =
    let (p, q) = rollback-ok c.db (begin_commit body c) a h in
    let (c', e, r, s) = begin_commit-ok body c a p in (c', e, r, ap (λ x. x.1.db) q ∙ s)

-- A transaction that fails changes no table.
pub transaction-err :
    {A : Type 0} (body : Sql A) (c : Conn) (e : Error)
    → (transaction body c).0 ≡ err e
    → (transaction body c).1.db ≡ c.db
unfolding transaction
transaction-err body c e h = rollback-err c.db (begin_commit body c) e h

-- Whenever `m` succeeds from the tables `db`, its value and the tables after it satisfy `Q`.
pub record Ensures {A : Type 0} (m : Sql A) (db : Db) (Q : A → Db → Type 0) : Type 0 where
  pub at : (c : Conn) → c.db ≡ db → (a : A) → (m c).0 ≡ ok a → Q a (m c).1.db

module _ {A : Type 0} {db : Db} {Q : A → Db → Type 0} where
  pub Ensures-pure : (a : A) → Q a db → Ensures (pure a) db Q
  Ensures-pure a q = record { at = λ c e b h. let k : a ≡ b = cc in rw (← k, e) q }

  pub Ensures-raise : (x : Error) → Ensures (raise x) db Q
  Ensures-raise x = record { at = λ c e b h. cc }

  pub Ensures-statement :
      (f : Db → Result A × Db)
      → ((a : A) → (f db).0 ≡ ok a → Q a (f db).1)
      → Ensures (statement f) db Q
  Ensures-statement f q = record {
    at = λ c e a h. let (p, r) = statement-ok f c a h in rw (r, e) (q a (rw e at p));
  }

  pub Ensures-transaction : (body : Sql A) → Ensures body db Q → Ensures (transaction body) db Q
  Ensures-transaction body q = record {
    at = λ c e a h.
        let (c', same, p, r) = transaction-ok body c a h in rw r (q.at c' (same ∙ e) a p);
  }

  pub Ensures-if :
      (b : Bool) (m n : Sql A)
      → (b ≡ true → Ensures m db Q)
      → (b ≡ false → Ensures n db Q)
      → Ensures (if b then m else n) db Q
  Ensures-if true m n p q = p refl
  Ensures-if false m n p q = q refl

module _ {A B : Type 0} {db : Db} {Q : B → Db → Type 0} where
  pub Ensures-bind :
      (m : Sql A) (f : A → Sql B) (R : A → Db → Type 0)
      → Ensures m db R
      → ((a : A) (db' : Db) → R a db' → Ensures (f a) db' Q)
      → Ensures (m >>= f) db Q
  Ensures-bind m f R p q = record {
    at = λ c e b h.
        let (a, r, s, t) = >>=-ok m f c b h in
        rw t ((q a (m c).1.db (p.at c e a r)).at (m c).1 refl b s);
  }

  -- A read gives what the tables hold; a write goes on from the changed tables.
  pub Ensures-query :
      (g : Db → A) (f : A → Sql B) → Ensures (f (g db)) db Q → Ensures (query g >>= f) db Q
  Ensures-query g f q =
      Ensures-bind (query g) f (λ a db'. (a ≡ g db) × (db' ≡ db))
        (Ensures-statement _ (λ a h. (cc, refl))) λ a db' r. rw (r.0, r.1) q

pub Ensures-exec :
    {B : Type 0} {db : Db} {Q : B → Db → Type 0} (g : Db → Db) (f : Unit {0} → Sql B)
    → Ensures (f tt) (g db) Q
    → Ensures (exec g >>= f) db Q
Ensures-exec {db} g f q =
    Ensures-bind (exec g) f (λ a db'. db' ≡ g db) (Ensures-statement _ (λ a h. refl))
      λ a db' r. rw r q

-- A call that answers with an error has left the tables as they were.
pub record Atomic {A : Type 0} (m : Sql A) : Type 0 where
  pub at : (c : Conn) (e : Error) → (m c).0 ≡ err e → (m c).1.db ≡ c.db

pub Atomic-transaction : {A : Type 0} (body : Sql A) → Atomic (transaction body)
Atomic-transaction body = record { at = transaction-err body }

pub Atomic-statement :
    {A : Type 0} (f : Db → Result A × Db)
    → ((db : Db) (e : Error) → (f db).0 ≡ err e → (f db).1 ≡ db)
    → Atomic (statement f)
Atomic-statement f same = record { at = λ c e h. ground (arith, statement-cases f c, same c.db e) }

-- With no failing statement a transaction is its body, and what an error leaves is undone.
pub transaction-clean :
    {A : Type 0} (body : Sql A) (db db' : Db) (r : Result A)
    → body (clean db) ≡ (r, clean db')
    → transaction body (clean db) ≡ rollback db (r, clean db')
unfolding transaction
transaction-clean body db db' (ok a) h = rw h refl
transaction-clean body db db' (err e) h = rw h refl

-- `P` holds after a call if it held before, whatever the call answers.
pub record Keeps {A : Type 0} (P : Db → Type 0) (m : Sql A) : Type 0 where
  pub at : (c : Conn) → P c.db → P (m c).1.db

module _ {A : Type 0} {P : Db → Type 0} where
  pub Keeps-pure : (a : A) → Keeps P (pure a)
  Keeps-pure a = record { at = λ c h. h }

  pub Keeps-raise : (e : Error) → Keeps P (raise {A = A} e)
  Keeps-raise e = record { at = λ c h. h }

  pub Keeps-statement :
      (f : Db → Result A × Db) → ((db : Db) → P db → P (f db).1) → Keeps P (statement f)
  Keeps-statement f k = record {
    at = λ c h. elim (statement-cases f c) [ inl e ↦ rw e.1 (k c.db h) | inr e ↦ rw e.1 h ];
  }

  pub Keeps-if : (b : Bool) (m n : Sql A) → Keeps P m → Keeps P n → Keeps P (if b then m else n)
  Keeps-if true m n k l = k
  Keeps-if false m n k l = l

pub Keeps-bind :
    {A B : Type 0} {P : Db → Type 0} (m : Sql A) (f : A → Sql B)
    → Keeps P m
    → ((a : A) → Keeps P (f a))
    → Keeps P (m >>= f)
Keeps-bind {A} {B} {P} m f km kf = record { at = λ c h. go (m c).0 (m c).1 (km.at c h) }
  where
    go : (r : Result A) (c : Conn) → P c.db → P (continue r f c).1.db
    go (ok a) c h = (kf a).at c h
    go (err e) c h = h

pub Keeps-query :
    {A B : Type 0} {P : Db → Type 0} (g : Db → A) (f : A → Sql B)
    → ((a : A) → Keeps P (f a))
    → Keeps P (query g >>= f)
Keeps-query g f kf = Keeps-bind (query g) f (Keeps-statement _ (λ db h. h)) kf

-- A transaction keeps what its body keeps, and what a rollback restores.
pub Keeps-transaction :
    {A : Type 0} {P : Db → Type 0} (body : Sql A) → Keeps P body → Keeps P (transaction body)
Keeps-transaction {A} {P} body k = record {
  at = λ c h. elim (Result-cases (transaction body c).0) [
    | inl (a, done) ↦
        let (c', same, p, r) = transaction-ok body c a done in rw r (k.at c' (rw same h))
    | inr (e, refused) ↦ rw (transaction-err body c e refused) h
  ];
}
