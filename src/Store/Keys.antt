-- ===== src/Store/Keys.antt =====
-- internal/store: the primary keys of the tables, under every call of the package.
use live_transcript_server.Prelude.{
  String, ◌≡◌, refl, Bool, false, List, [], ◌∷◌, ◌++◌, ℤ, any, update_where, Distinct,
  Distinct-filter, Distinct-update_where, Distinct-append, Bool-cases, inl, inr, ◌==◌, eq_iff,
  if◌then◌else◌, arith,
}
use live_transcript_server.Model.{Line, Stream, WorkerStatus}
use live_transcript_server.Store.Sql.{
  Db, TranscriptRow, IncomingRow, RestartRow, out_of_sync, no_update,
}
use live_transcript_server.Store.Transcripts.{
  same_line, row_of, insert_row, delete_rows, insert_lines, replace_transcript, insert_next_line,
  set_media, set_media_available,
}
use live_transcript_server.Store.Streams.{
  same_stream, overwrite, put_stream, drop_stream, delete_stream_cascade, StreamUpdate, edit_stream,
  update_stream, set_live,
}
use live_transcript_server.Store.Incoming.{is_queued, queue_url}
use live_transcript_server.Store.Worker.{is_worker, is_restart, put_worker, put_restart}
use live_transcript_server.Store.Outcome.{
  Keeps, Keeps-pure, Keeps-raise, Keeps-statement, Keeps-if, Keeps-bind, Keeps-query,
  Keeps-transaction,
}

abbrev pub same_url : IncomingRow → IncomingRow → Bool
same_url r s = is_queued r.channel_key r.url s

abbrev pub same_worker : WorkerStatus → WorkerStatus → Bool
same_worker r s = is_worker r.channel_key s

abbrev pub same_restart : RestartRow → RestartRow → Bool
same_restart r s = is_restart r.channel_key s

-- In each table no two rows have the same primary key.
pub record IsKeyed (db : Db) : Type 0 where
  pub streams : Distinct same_stream db.streams
  pub transcripts : Distinct same_line db.transcripts
  pub worker_status : Distinct same_worker db.worker_status
  pub incoming_streams : Distinct same_url db.incoming_streams
  pub worker_restart_requests : Distinct same_restart db.worker_restart_requests

-- A table with distinct keys may take the place of another.
module _ {db : Db} (h : IsKeyed db) where
  pub set_streams :
      (rows : List Stream) → Distinct same_stream rows → IsKeyed (record db { streams = rows })
  set_streams rows d = record {
    streams = d;
    transcripts = h.transcripts;
    worker_status = h.worker_status;
    incoming_streams = h.incoming_streams;
    worker_restart_requests = h.worker_restart_requests;
  }

  pub set_transcripts :
      (rows : List TranscriptRow)
      → Distinct same_line rows
      → IsKeyed (record db { transcripts = rows })
  set_transcripts rows d = record {
    streams = h.streams;
    transcripts = d;
    worker_status = h.worker_status;
    incoming_streams = h.incoming_streams;
    worker_restart_requests = h.worker_restart_requests;
  }

  pub set_worker_status :
      (rows : List WorkerStatus)
      → Distinct same_worker rows
      → IsKeyed (record db { worker_status = rows })
  set_worker_status rows d = record {
    streams = h.streams;
    transcripts = h.transcripts;
    worker_status = d;
    incoming_streams = h.incoming_streams;
    worker_restart_requests = h.worker_restart_requests;
  }

  pub set_incoming_streams :
      (rows : List IncomingRow)
      → Distinct same_url rows
      → IsKeyed (record db { incoming_streams = rows })
  set_incoming_streams rows d = record {
    streams = h.streams;
    transcripts = h.transcripts;
    worker_status = h.worker_status;
    incoming_streams = d;
    worker_restart_requests = h.worker_restart_requests;
  }

  pub set_worker_restart_requests :
      (rows : List RestartRow)
      → Distinct same_restart rows
      → IsKeyed (record db { worker_restart_requests = rows })
  set_worker_restart_requests rows d = record {
    streams = h.streams;
    transcripts = h.transcripts;
    worker_status = h.worker_status;
    incoming_streams = h.incoming_streams;
    worker_restart_requests = d;
  }

same_line_symm : (r s : TranscriptRow) → same_line r s ≡ false → same_line s r ≡ false
same_line_symm r s h = ground (
  arith,
  eq_iff r.channel_id s.channel_id,
  eq_iff s.channel_id r.channel_id,
  eq_iff r.stream_id s.stream_id,
  eq_iff s.stream_id r.stream_id,
)

same_stream_symm : (r s : Stream) → same_stream r s ≡ false → same_stream s r ≡ false
same_stream_symm r s h = ground (
  arith,
  eq_iff r.channel_id s.channel_id,
  eq_iff s.channel_id r.channel_id,
  eq_iff r.stream_id s.stream_id,
  eq_iff s.stream_id r.stream_id,
)

same_url_symm : (r s : IncomingRow) → same_url r s ≡ false → same_url s r ≡ false
same_url_symm r s h = ground (
  arith,
  eq_iff r.channel_key s.channel_key,
  eq_iff s.channel_key r.channel_key,
  eq_iff r.url s.url,
  eq_iff s.url r.url,
)

==_symm : (a b : String) → (a == b) ≡ false → (b == a) ≡ false
==_symm a b h = ground (arith, eq_iff a b, eq_iff b a)

-- INSERT … ON CONFLICT DO UPDATE keeps a key distinct.
Distinct-upsert :
    {A : Type 0} (same : A → A → Bool) (f : A → A) (x : A) (xs : List A)
    → ((a b : A) → same a b ≡ false → same b a ≡ false)
    → ((a b : A) → same (f a) b ≡ same a b)
    → ((a b : A) → same a (f b) ≡ same a b)
    → Distinct same xs
    → Distinct same (if any (same x) xs then update_where (same x) f xs else xs ++ x ∷ [])
Distinct-upsert same f x xs symm l r h = elim (Bool-cases (any (same x) xs)) [
  | inl e ↦ rw e (Distinct-update_where same (same x) f xs l r h)
  | inr e ↦ rw e (Distinct-append same x xs (λ y. symm x y) e h)
]

insert_row-IsKeyed : (row : TranscriptRow) (db : Db) → IsKeyed db → IsKeyed (insert_row row db).1
unfolding insert_row
insert_row-IsKeyed row db h = elim (Bool-cases (any (same_line row) db.transcripts)) [
  | inl e ↦ rw e h
  | inr e ↦ rw e (
      set_transcripts h _
        (Distinct-append same_line row db.transcripts (λ y. same_line_symm row y) e h.transcripts))
]

pub delete_rows-IsKeyed :
    (channel stream : String) (db : Db) → IsKeyed db → IsKeyed (delete_rows channel stream db)
unfolding delete_rows
delete_rows-IsKeyed channel stream db h =
    set_transcripts h _ (Distinct-filter same_line _ db.transcripts h.transcripts)

insert_lines-IsKeyed :
    (channel stream : String) (lines : List Line)
    → Keeps IsKeyed (insert_lines channel stream lines)
unfolding insert_lines
insert_lines-IsKeyed channel stream [] = Keeps-pure tt
insert_lines-IsKeyed channel stream (line ∷ lines) =
    Keeps-bind _ _ (Keeps-statement _ (insert_row-IsKeyed (row_of channel stream line)))
      λ _. insert_lines-IsKeyed channel stream lines

pub replace_transcript-IsKeyed :
    (channel stream : String) (lines : List Line)
    → Keeps IsKeyed (replace_transcript channel stream lines)
unfolding replace_transcript
replace_transcript-IsKeyed channel stream lines = Keeps-transaction _ (
    Keeps-bind _ _ (Keeps-statement _ (delete_rows-IsKeyed channel stream)) λ _.
      Keeps-bind _ _ (Keeps-statement _ (λ db h. h)) λ _. insert_lines-IsKeyed channel stream lines)

pub insert_next_line-IsKeyed :
    (channel stream : String) (line : Line) → Keeps IsKeyed (insert_next_line channel stream line)
unfolding insert_next_line
insert_next_line-IsKeyed channel stream line = Keeps-transaction _ (
    Keeps-query _ _ λ last.
      Keeps-if _ _ _ (Keeps-statement _ (insert_row-IsKeyed (row_of channel stream line)))
        (Keeps-raise out_of_sync))

pub set_media_available-IsKeyed :
    (channel stream : String) (id : ℤ) (file : String) (available : Bool)
    → Keeps IsKeyed (set_media_available channel stream id file available)
unfolding set_media_available set_media
set_media_available-IsKeyed channel stream id file available = Keeps-statement _ λ db h.
    set_transcripts h _
      (Distinct-update_where same_line _ _ db.transcripts (λ a b. refl) (λ a b. refl) h.transcripts)

pub put_stream-IsKeyed : (st : Stream) (db : Db) → IsKeyed db → IsKeyed (put_stream st db)
unfolding put_stream
put_stream-IsKeyed st db h = set_streams h _ (
    Distinct-upsert same_stream (overwrite st) st db.streams same_stream_symm (λ a b. refl)
      (λ a b. refl) h.streams)

pub drop_stream-IsKeyed :
    (channel stream : String) (db : Db) → IsKeyed db → IsKeyed (drop_stream channel stream db)
unfolding drop_stream
drop_stream-IsKeyed channel stream db h =
    set_streams h _ (Distinct-filter same_stream _ db.streams h.streams)

pub delete_stream_cascade-IsKeyed :
    (channel stream : String) → Keeps IsKeyed (delete_stream_cascade channel stream)
unfolding delete_stream_cascade
delete_stream_cascade-IsKeyed channel stream = Keeps-transaction _ (
    Keeps-bind _ _ (Keeps-statement _ (drop_stream-IsKeyed channel stream))
      λ _. Keeps-statement _ (delete_rows-IsKeyed channel stream))

pub update_stream-IsKeyed :
    (channel stream : String) (u : StreamUpdate) → Keeps IsKeyed (update_stream channel stream u)
unfolding update_stream edit_stream
update_stream-IsKeyed channel stream u = Keeps-if _ _ _ (Keeps-raise no_update) (
    Keeps-statement _ λ db h.
      set_streams h _
        (Distinct-update_where same_stream _ _ db.streams (λ a b. refl) (λ a b. refl) h.streams))

pub set_live-IsKeyed :
    (channel stream : String) (live : Bool) (db : Db)
    → IsKeyed db
    → IsKeyed (set_live channel stream live db)
unfolding set_live
set_live-IsKeyed channel stream live db h =
    set_streams h _
      (Distinct-update_where same_stream _ _ db.streams (λ a b. refl) (λ a b. refl) h.streams)

pub queue_url-IsKeyed :
    (channel url : String) (at : ℤ) (db : Db) → IsKeyed db → IsKeyed (queue_url channel url at db)
unfolding queue_url
queue_url-IsKeyed channel url at db h = set_incoming_streams h _ (
    Distinct-upsert same_url (λ r. record r { received_at = at })
      (record { channel_key = channel; url = url; received_at = at }) db.incoming_streams
      same_url_symm (λ a b. refl) (λ a b. refl) h.incoming_streams)

pub put_worker-IsKeyed :
    (key version build : String) (seen : ℤ) (db : Db)
    → IsKeyed db
    → IsKeyed (put_worker key version build seen db)
unfolding put_worker
put_worker-IsKeyed key version build seen db h = set_worker_status h _ (
    Distinct-upsert same_worker
      (λ w. record w { worker_version = version; worker_build_time = build; last_seen = seen })
      (record {
        channel_key = key;
        worker_version = version;
        worker_build_time = build;
        last_seen = seen;
        is_active = false;
      })
      db.worker_status (λ a b. ==_symm b.channel_key a.channel_key) (λ a b. refl) (λ a b. refl)
      h.worker_status)

pub put_restart-IsKeyed :
    (key : String) (at : ℤ) (db : Db) → IsKeyed db → IsKeyed (put_restart key at db)
unfolding put_restart
put_restart-IsKeyed key at db h = set_worker_restart_requests h _ (
    Distinct-upsert same_restart (λ r. record r { requested_at = at })
      (record { channel_key = key; requested_at = at }) db.worker_restart_requests
      (λ a b. ==_symm b.channel_key a.channel_key) (λ a b. refl) (λ a b. refl)
      h.worker_restart_requests)
