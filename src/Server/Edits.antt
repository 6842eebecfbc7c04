-- ===== src/Server/Edits.antt =====
-- internal/server/handlers_admin.go: what an edit of a stream does.
use live_transcript_server.Prelude.{
  ℕ, ◌≡◌, refl, ap, ◌∙◌, ◌⊎◌, inl, inr, String, Bool, true, false, ◌&&◌, Option, none, some, List,
  [], ◌∷◌, ◌++◌, ℤ, head?, length, filter, update_where, eqb, Bool-cases, ◌==◌, eq_iff, arith,
}
use live_transcript_server.Model.{Stream}
use live_transcript_server.Store.Sql.{Db, Conn, Result, ok, err, Error, failed}
use live_transcript_server.Store.Streams.{
  StreamUpdate, is_empty, or_else, apply_update, edit_stream, update_stream, find_stream, is_stream,
  get_stream_by_id,
}
use live_transcript_server.Store.Outcome.{statement-cases, query-same}
use live_transcript_server.Ws.Events.{Message, updated_stream}
use live_transcript_server.Server.Ids.{is_valid_id}
use live_transcript_server.Server.App.{Config, App, Reply, answered, store, bump_admin_change}
use live_transcript_server.Server.Announced.{
  IsTold, IsUnseen, announce-db, announce-audits, announce-IsTold,
}
use live_transcript_server.Server.Edit.{
  EditBody, requested_update, after_update, edit_found, edit_with, post_admin_stream_handler,
}

module _ (p : Stream → Bool) (f : Stream → Stream) (kept : (s : Stream) → p (f s) ≡ p s) where
  head-update :
      (xs : List Stream) (old : Stream)
      → head? (filter p xs) ≡ some old
      → (head? (filter p (update_where p f xs)) ≡ some (f old))
        × (eqb (length (filter p xs)) 0 ≡ false)
  unfolding filter update_where
  head-update [] old h = cc
  head-update (x ∷ xs) old h = ground (arith, head-update xs old, kept x)

  head-update_other :
      (q : Stream → Bool) (xs : List Stream)
      → ((s : Stream) → p s ≡ true → q s ≡ false)
      → ((s : Stream) → q (f s) ≡ q s)
      → head? (filter q (update_where p f xs)) ≡ head? (filter q xs)
  unfolding filter update_where
  head-update_other q [] apart same = refl
  head-update_other q (x ∷ xs) apart same =
      ground (arith, head-update_other q xs apart same, apart x, same x)

apart :
    (channel stream channel' stream' : String)
    → (channel == channel' && stream == stream') ≡ false
    → (s : Stream) → is_stream channel stream s ≡ true
    → is_stream channel' stream' s ≡ false
apart channel stream channel' stream' h s k = ground (
  arith,
  eq_iff s.channel_id channel,
  eq_iff s.stream_id stream,
  eq_iff s.channel_id channel',
  eq_iff s.stream_id stream',
  eq_iff channel channel',
  eq_iff stream stream',
)

-- A row with the fields that an update gives.
abbrev pub given : Option String → String → String
given none old = old
given (some new) old = new

abbrev pub edited : StreamUpdate → Stream → Stream
edited u old = record old {
  stream_title = given u.stream_title old.stream_title;
  start_time = given u.start_time old.start_time;
  media_type = given u.media_type old.media_type;
}

-- The message with the details of a row.
abbrev pub details_of : Stream → Message
details_of st = updated_stream (record {
  stream_id = st.stream_id;
  stream_title = st.stream_title;
  start_time = st.start_time;
  media_type = st.media_type;
  is_live = st.is_live;
})

given-or_else : (o : Option String) (old : String) → or_else o old ≡ given o old
given-or_else none old = refl
given-or_else (some new) old = refl

apply_update-edited : (u : StreamUpdate) (old : Stream) → apply_update u old ≡ edited u old
apply_update-edited u old =
    rw
      (
        given-or_else u.stream_title old.stream_title,
        given-or_else u.start_time old.start_time,
        given-or_else u.media_type old.media_type,
      )
      refl

module _ (cfg : Config) where
  module _ (now : ℤ) (stream : String) (body : EditBody) where
    -- The row of the stream has the fields that the request gives, and no other row is changed.
    -- `again` is the connection after the update, on which the row is read again.
    pub record IsEdited (old : Stream) (u : StreamUpdate) (again : Conn) (app app' : App)
        : Type 0 where
      pub asked : requested_update now body ≡ some u
      pub before : find_stream cfg.key stream app.conn.db ≡ some old
      pub row : find_stream cfg.key stream app'.conn.db ≡ some (edited u old)
      pub others :
          (channel' stream' : String)
          → (cfg.key == channel' && stream == stream') ≡ false
          → find_stream channel' stream' app'.conn.db ≡ find_stream channel' stream' app.conn.db
      pub lines : app'.conn.db.transcripts ≡ app.conn.db.transcripts
      pub told :
          (((get_stream_by_id cfg.key stream again).0 ≡ ok (some (edited u old)))
            × IsTold (details_of (edited u old)) app.hub app'.hub)
          ⊎ ((e : Error) × ((get_stream_by_id cfg.key stream again).0 ≡ err e)
              × IsTold (details_of old) app.hub app'.hub)
      pub noted : app'.audits ≡ app.audits ++ "Edited stream details" ∷ []

    abbrev pub Edited : (StreamUpdate → Conn) → App → App → Type 0
    Edited again app app' = (old : Stream) × (u : StreamUpdate) × IsEdited old u (again u) app app'

    abbrev pub Outcome : (StreamUpdate → Conn) → App → Reply (Unit {0}) × App → Type 0
    Outcome again app r =
        ((r.0 ≡ answered 204) × Edited again app r.1)
        ⊎ ((code : ℕ) × (r.0 ≡ answered code) × (eqb code 204 ≡ false) × IsUnseen app r.1)

    refused :
        (again : StreamUpdate → Conn) (code : ℕ) (app app' : App)
        → eqb code 204 ≡ false
        → app'.conn.db ≡ app.conn.db
        → app' ≡ record app { conn = app'.conn }
        → Outcome again app (answered code, app')
    refused again code app app' c t h = inr (code, refl, c, record { tables = t; rest = h })

    -- After the UPDATE: what the rest of the handler leaves of the state that it begins in.
    module _ (old new : Stream) (app : App)
        (found : find_stream cfg.key stream app.conn.db ≡ some new) where
      abbrev end : Reply (Unit {0}) × App
      end = after_update cfg stream old (ok tt) app

      end-db : end.1.conn.db ≡ app.conn.db
      unfolding bump_admin_change get_stream_by_id
      end-db = announce-db cfg _ _ ∙ query-same (find_stream cfg.key stream) app.conn

      end-audits : end.1.audits ≡ app.audits ++ "Edited stream details" ∷ []
      unfolding bump_admin_change
      end-audits = ap (λ a. a ++ "Edited stream details" ∷ []) (announce-audits cfg _ _)

      end-told :
          (((get_stream_by_id cfg.key stream app.conn).0 ≡ ok (some new))
            × IsTold (details_of new) app.hub end.1.hub)
          ⊎ ((e : Error) × ((get_stream_by_id cfg.key stream app.conn).0 ≡ err e)
              × IsTold (details_of old) app.hub end.1.hub)
      unfolding bump_admin_change get_stream_by_id
      end-told = elim (statement-cases (λ db. (ok (find_stream cfg.key stream db), db)) app.conn) [
        | inl (r, same) ↦ inl (
          r ∙ ap (λ o. ok o) found,
          rw (r, found) (announce-IsTold cfg new (store (get_stream_by_id cfg.key stream) app).1),
        )
        | inr (r, same) ↦ inr (
          failed,
          r,
          rw r (announce-IsTold cfg old (store (get_stream_by_id cfg.key stream) app).1),
        )
      ]

    -- The row that the UPDATE writes.
    edited_row :
        (u : StreamUpdate) (old : Stream) (db : Db)
        → find_stream cfg.key stream db ≡ some old
        → ((edit_stream cfg.key stream u db).0 ≡ ok tt)
          × (find_stream cfg.key stream (edit_stream cfg.key stream u db).1 ≡ some (edited u old))
    unfolding edit_stream find_stream
    edited_row u old db f =
        let (row, some_row) =
          head-update (is_stream cfg.key stream) (apply_update u) (λ s. refl) db.streams old f in
        (rw some_row refl, row ∙ ap (λ s. some s) (apply_update-edited u old))

    edited_others :
        (u : StreamUpdate) (db : Db) (channel' stream' : String)
        → (cfg.key == channel' && stream == stream') ≡ false
        → find_stream channel' stream' (edit_stream cfg.key stream u db).1
          ≡ find_stream channel' stream' db
    unfolding edit_stream find_stream
    edited_others u db channel' stream' other =
        head-update_other (is_stream cfg.key stream) (apply_update u) (λ s. refl)
          (is_stream channel' stream') db.streams (apart cfg.key stream channel' stream' other)
          (λ s. refl)

    edited_lines :
        (u : StreamUpdate) (db : Db)
        → (edit_stream cfg.key stream u db).1.transcripts ≡ db.transcripts
    unfolding edit_stream
    edited_lines u db = refl

    finish-Outcome :
        (old : Stream) (u : StreamUpdate) (app : App) (c : Conn) (r : Result (Unit {0}))
        → requested_update now body ≡ some u
        → find_stream cfg.key stream app.conn.db ≡ some old
        → r ≡ ok tt
        → c.db ≡ (edit_stream cfg.key stream u app.conn.db).1
        → (again : StreamUpdate → Conn) → again u ≡ c
        → Outcome again app (after_update cfg stream old r (record app { conn = c }))
    finish-Outcome old u app c r q f h after again here =
        let app' : App = record app { conn = c } in
        let new : Stream = edited u old in
        let row : find_stream cfg.key stream c.db ≡ some new =
          rw after (edited_row u old app.conn.db f).1 in
        let same = end-db old new app' row in
        rw h (
          inl (
            refl,
            (
              old,
              u,
              record {
                asked = q;
                before = f;
                row = rw same row;
                others = λ channel' stream' other.
                    rw (same, after) (edited_others u app.conn.db channel' stream' other);
                lines = rw (same, after) (edited_lines u app.conn.db);
                told = rw here (end-told old new app' row);
                noted = end-audits old new app' row;
              },
            ),
          ))

    updated-Outcome :
        (old : Stream) (u : StreamUpdate) (app : App)
        → requested_update now body ≡ some u
        → find_stream cfg.key stream app.conn.db ≡ some old
        → is_empty u ≡ false
        → (again : StreamUpdate → Conn) → again u ≡ (update_stream cfg.key stream u app.conn).1
        → Outcome again app (edit_found cfg stream u (some old) app)
    unfolding update_stream
    updated-Outcome old u app q f full again here =
        elim (statement-cases (edit_stream cfg.key stream u) app.conn) [
          | inl (r, after) ↦ rw full (
              finish-Outcome old u app _ _ q f (r ∙ (edited_row u old app.conn.db f).0) after again
                (rw full at here))
          | inr (r, same) ↦ rw full (rw r (refused again 500 app _ refl same refl))
        ]

    found-Outcome :
        (u : StreamUpdate) (o : Option Stream) (app : App)
        → requested_update now body ≡ some u
        → find_stream cfg.key stream app.conn.db ≡ o
        → (again : StreamUpdate → Conn) → again u ≡ (update_stream cfg.key stream u app.conn).1
        → Outcome again app (edit_found cfg stream u o app)
    unfolding update_stream
    found-Outcome u none app q f again here = refused again 404 app app refl refl refl
    found-Outcome u (some old) app q f again here = elim (Bool-cases (is_empty u)) [
      | inl empty ↦ rw empty (refused again 500 app app refl refl refl)
      | inr full ↦ updated-Outcome old u app q f full again here
    ]

    -- A read before the rest changes no table.
    moved :
        (again : StreamUpdate → Conn) (app : App) (c : Conn) (r : Reply (Unit {0}) × App)
        → c.db ≡ app.conn.db
        → Outcome again (record app { conn = c }) r
        → Outcome again app r
    moved again app c r same (inl (a, (old, u, e))) = inl (
      a,
      (
        old,
        u,
        record {
          asked = e.asked;
          before = rw same at e.before;
          row = e.row;
          others = λ channel' stream' other. rw same at (e.others channel' stream' other);
          lines = rw same at e.lines;
          told = e.told;
          noted = e.noted;
        },
      ),
    )
    moved again app c r same (inr (code, a, n, v)) =
        inr (code, a, n, record { tables = v.tables ∙ same; rest = v.rest })

    -- The connection after the read of the row and the update.
    abbrev pub updated : App → StreamUpdate → Conn
    updated app u = (update_stream cfg.key stream u (get_stream_by_id cfg.key stream app.conn).1).1

    asked-Outcome :
        (o : Option StreamUpdate) (app : App)
        → requested_update now body ≡ o
        → Outcome (updated app) app (edit_with cfg stream o app)
    unfolding get_stream_by_id
    asked-Outcome none app q = refused (updated app) 400 app app refl refl refl
    asked-Outcome (some u) app q =
        elim (statement-cases (λ db. (ok (find_stream cfg.key stream db), db)) app.conn) [
          | inl (r, same) ↦
              let c : Conn = (get_stream_by_id cfg.key stream app.conn).1 in
              moved (updated app) app c _ same (
                rw r (
                  found-Outcome u (find_stream cfg.key stream app.conn.db) (record app { conn = c })
                    q (ap (find_stream cfg.key stream) same) (updated app) refl))
          | inr (r, same) ↦ rw r (refused (updated app) 500 app _ refl same refl)
        ]

    -- Whatever statements fail, a request to edit a stream either is answered with 204: it asks for a
    -- valid update, the stream has a row, each field that the update gives is in the row as given
    -- and the others are as they were, no other row and no line has changed, the clients are told
    -- the row's new details if the read of the row after the update succeeds, and the old ones if it
    -- fails, and the action is noted;
    -- or it is answered with another status, and no table, client or counter has changed and no
    -- action is noted.
    pub post_admin_stream_handler-effect :
        (app : App)
        → Outcome (updated app) app (post_admin_stream_handler cfg now stream (some body) app)
    unfolding post_admin_stream_handler
    post_admin_stream_handler-effect app = elim (Bool-cases (is_valid_id stream)) [
      | inl valid ↦ rw valid (asked-Outcome (requested_update now body) app refl)
      | inr invalid ↦ rw invalid (refused (updated app) 400 app app refl refl refl)
    ]
