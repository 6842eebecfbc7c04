-- ===== src/Store/Sql.antt =====
-- internal/store/store.go: the tables of the schema, and how the package talks to SQLite.
-- A statement may fail for reasons that are SQLite's or the request's (I/O, lock, cancelled
-- context). Which statements fail is the `faults` of the connection, an input: the head says
-- whether the next statement fails, and after the last entry none does.
use live_transcript_server.Prelude.{String, Bool, true, false, Option, List, [], ◌∷◌, ℤ}
use live_transcript_server.Model.{Stream, WorkerStatus}

-- A row of `transcripts`. `file_id` may be NULL.
pub record TranscriptRow : Type 0 where
  pub channel_id : String
  pub stream_id : String
  pub line_id : ℤ
  pub file_id : Option String
  pub timestamp : ℤ
  pub segments : String
  pub media_available : Bool
  pub vod_accurate : Bool

-- A row of `incoming_streams`.
pub record IncomingRow : Type 0 where
  pub channel_key : String
  pub url : String
  pub received_at : ℤ

-- A row of `worker_restart_requests`.
pub record RestartRow : Type 0 where
  pub channel_key : String
  pub requested_at : ℤ

-- The five tables of `createSchema`, each in the order of insertion.
pub record Db : Type 0 where
  pub streams : List Stream
  pub transcripts : List TranscriptRow
  pub worker_status : List WorkerStatus
  pub incoming_streams : List IncomingRow
  pub worker_restart_requests : List RestartRow

-- ErrNotFound, ErrOutOfSync, ErrNoUpdate, and what the driver reports: a failed statement, and a
-- violated primary key.
pub data Error : Type 0 where
  not_found out_of_sync no_update failed constraint : Error

pub data Result {ℓ} (A : Type ℓ) : Type ℓ where
  ok : A → Result A
  err : Error → Result A

pub record Conn : Type 0 where
  pub db : Db
  pub faults : List Bool

-- A call of the package: the result, and the database and faults that are left.
abbrev pub Sql : Type 0 → Type 0
Sql A = Conn → Result A × Conn

abbrev pub pure : {A : Type 0} → A → Sql A
pure a c = (ok a, c)

abbrev pub raise : {A : Type 0} → Error → Sql A
raise e c = (err e, c)

abbrev pub continue : {A B : Type 0} → Result A → (A → Sql B) → Sql B
continue (ok a) f c = f a c
continue (err e) f c = (err e, c)

infixl 5 ◌>>=◌ ◌>>◌
abbrev pub ◌>>=◌ : {A B : Type 0} → Sql A → (A → Sql B) → Sql B
◌>>=◌ m f c = continue (m c).0 f (m c).1

abbrev pub ◌>>◌ : {B : Type 0} → Sql (Unit {0}) → Sql B → Sql B
m >> k = m >>= λ _. k

-- What a statement does when it does not fail.
abbrev pub run_statement : {A : Type 0} → (Db → Result A × Db) → Db → List Bool → Result A × Conn
run_statement f db rest = ((f db).0, record { db = (f db).1; faults = rest })

abbrev pub at_fault : {A : Type 0} → List Bool → (Db → Result A × Db) → Db → Result A × Conn
at_fault [] f db = run_statement f db []
at_fault (true ∷ rest) f db = (err failed, record { db = db; faults = rest })
at_fault (false ∷ rest) f db = run_statement f db rest

-- db.ExecContext, db.QueryContext with its scan, tx.ExecContext, …: one statement.
unfoldable pub statement : {A : Type 0} → (Db → Result A × Db) → Sql A
statement f c = at_fault c.faults f c.db

abbrev pub query : {A : Type 0} → (Db → A) → Sql A
query f = statement (λ db. (ok (f db), db))

abbrev pub exec : (Db → Db) → Sql (Unit {0})
exec f = statement (λ db. (ok tt, f db))

-- db.BeginTx, tx.PrepareContext and tx.Commit can fail, and change no row of their own.
abbrev pub nothing : Sql (Unit {0})
nothing = exec (λ db. db)

-- After an error the deferred tx.Rollback restores the tables.
abbrev pub rollback : {A : Type 0} → Db → Result A × Conn → Result A × Conn
rollback db (ok a, c) = (ok a, c)
rollback db (err e, c) = (err e, record c { db = db })

-- db.BeginTx, the body, tx.Commit.
unfoldable pub begin_commit : {A : Type 0} → Sql A → Sql A
begin_commit body = do nothing; a ← body; nothing; pure a

unfoldable pub transaction : {A : Type 0} → Sql A → Sql A
unfolding begin_commit statement
transaction body c = rollback c.db (begin_commit body c)
