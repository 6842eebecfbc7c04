-- ===== src/Server/Kept.antt =====
-- internal/server/lifecycle.go: how many streams applyRetention keeps in local storage.
use live_transcript_server.Prelude.{
  ℕ, zero, suc, ◌-◌, ◌^◌, ◌<◌, String, ◌≡◌, refl, ap, ◌∙◌, inl, inr, Bool, true, false, not, none,
  List, [], ◌∷◌, ◌++◌, map, append_assoc, append-nil, ℤ, pos, pos_part, ◌≤ℤ◌, lt_ℤ, max64,
  succ64-pos, drop, any, filter, Bool-cases, ◌==◌, eq_iff, eq_refl, if◌then◌else◌, arith,
}
use live_transcript_server.Model.{Stream}
use live_transcript_server.Store.Sql.{Db, statement}
use live_transcript_server.Store.Streams.{find_stream, newest_first, get_all_streams}
use live_transcript_server.Store.Outcome.{clean}
use live_transcript_server.Store.Cascade.{
  cascaded, cascaded_gone, cascaded_others, delete_stream_cascade-clean,
}
use live_transcript_server.Storage.Keys.{stream_prefix}
use live_transcript_server.Server.App.{Config, App, delete_stream_storage_async}
use live_transcript_server.Server.Lifecycle.{keep_local, apply_retention}

-- The streams after the first `limit` other than the active one.
abbrev pub beyond : ℕ → String → List Stream → List Stream
beyond limit active streams = drop limit (filter (λ s. not (s.stream_id == active)) streams)

module _ (key : String) where
  abbrev delete_all : List Stream → Db → Db
  delete_all [] db = db
  delete_all (s ∷ rest) db = delete_all rest (cascaded key s.stream_id db)

  find-delete_all :
      (streams : List Stream) (db : Db) (stream : String)
      → find_stream key stream (delete_all streams db)
        ≡ (if any (λ s. s.stream_id == stream) streams then none else find_stream key stream db)
  find-delete_all [] db stream = refl
  find-delete_all (s ∷ rest) db stream =
      find-delete_all rest (cascaded key s.stream_id db) stream
      ∙ elim (Bool-cases (s.stream_id == stream)) [
        | inl e ↦
            rw (e, (eq_iff s.stream_id stream).0 e, (cascaded_gone key stream db).0)
              (elim (Bool-cases (any (λ x. x.stream_id == stream) rest)) [
                | inl k ↦ rw k refl
                | inr k ↦ rw k refl
              ])
        | inr e ↦
            rw (e, (cascaded_others key s.stream_id db key stream (rw (eq_refl key) e)).0) refl
      ]

drop-nil {ℓ} : {A : Type ℓ} (n : ℕ) → drop {A = A} n [] ≡ []
drop-nil zero = refl
drop-nil (suc n) = refl

more_room :
    (kept : ℕ) (num : ℤ)
    → lt_ℤ (pos kept) num ≡ true
    → pos_part num - kept ≡ suc (pos_part num - suc kept)
more_room kept num h = ground arith

no_room : (kept : ℕ) (num : ℤ) → lt_ℤ (pos kept) num ≡ false → pos_part num - kept ≡ 0
no_room kept num h = ground arith

below_max : (kept : ℕ) (num : ℤ) → lt_ℤ (pos kept) num ≡ true → num ≤ℤ max64 → suc kept < 2 ^ 63
below_max kept num h k = ground arith

module _ (cfg : Config) (active : String) (small : cfg.num_past_streams ≤ℤ max64) where
  -- What is left after the given streams are deleted.
  abbrev without : List Stream → App → Db → App
  without streams app db = record app {
    conn = clean (delete_all cfg.key streams db);
    deletions = app.deletions ++ map (λ s. stream_prefix cfg.key s.stream_id) streams;
  }

  keep_local-exact :
      (kept : ℕ) (streams : List Stream) (app : App) (db : Db)
      → keep_local cfg active (pos kept) streams (record app { conn = clean db })
        ≡ (tt, without (beyond (pos_part cfg.num_past_streams - kept) active streams) app db)
  unfolding keep_local filter delete_stream_storage_async
  keep_local-exact kept [] app db =
      rw (drop-nil {A = Stream} (pos_part cfg.num_past_streams - kept), append-nil app.deletions)
        refl
  keep_local-exact kept (s ∷ rest) app db = elim (Bool-cases (s.stream_id == active)) [
    | inl e ↦ rw e (keep_local-exact kept rest app db)
    | inr e ↦ elim (Bool-cases (lt_ℤ (pos kept) cfg.num_past_streams)) [
      | inl k ↦
          rw
            (
              e,
              k,
              succ64-pos (pos kept) kept (suc kept) refl refl
                  (below_max kept cfg.num_past_streams k small),
              more_room kept cfg.num_past_streams k,
            )
            (keep_local-exact (suc kept) rest app db)
      | inr k ↦
          rw
            (
              e,
              k,
              no_room kept cfg.num_past_streams k,
              delete_stream_cascade-clean cfg.key s.stream_id db,
            )
            (keep_local-exact kept rest
                (record app { deletions = app.deletions ++ stream_prefix cfg.key s.stream_id ∷ [] })
                (cascaded cfg.key s.stream_id db)
              ∙ rw
                  (
                    no_room kept cfg.num_past_streams k,
                    append_assoc app.deletions (stream_prefix cfg.key s.stream_id ∷ []) (
                        map (λ x. stream_prefix cfg.key x.stream_id)
                          (filter (λ x. not (x.stream_id == active)) rest)),
                  )
                  refl)
    ]
  ]

minus_zero : (n : ℕ) → n - 0 ≡ n
minus_zero n = omega arith

if_true {ℓ} : {A : Type ℓ} (b : Bool) (x y : A) → b ≡ true → (if b then x else y) ≡ x
if_true true x y h = refl
if_true false x y h = cc

retain-exact :
    (cfg : Config) (active : String) (app : App) (db : Db)
    → cfg.is_local ≡ true
    → cfg.num_past_streams ≤ℤ max64
    → apply_retention cfg active (record app { conn = clean db }) ≡ (
      tt,
      record app {
        conn = clean (
            delete_all cfg.key
              (beyond (pos_part cfg.num_past_streams) active (newest_first cfg.key db))
              db);
        deletions =
            app.deletions
            ++ map
                (λ s. stream_prefix cfg.key s.stream_id)
                (beyond (pos_part cfg.num_past_streams) active (newest_first cfg.key db));
      },
    )
unfolding apply_retention get_all_streams statement
retain-exact cfg active app db local small =
    ap (λ m. m (record app { conn = clean db }))
      (if_true cfg.is_local (keep_local cfg active (pos 0) (newest_first cfg.key db)) _ local)
    ∙ keep_local-exact cfg active small 0 (newest_first cfg.key db) app db
    ∙ rw (minus_zero (pos_part cfg.num_past_streams)) refl

-- Local storage, no statement failing, and the limit an int: applyRetention deletes exactly the
-- channel's streams after the first NumPastStreams (none, if that is negative) of those other than
-- the active one, newest first. Every other stream has its row, and the deletion of the media
-- folder is started for the deleted ones, in that order, and for no other.
pub apply_retention-local :
    (cfg : Config) (active : String) (app : App) (stream : String)
    → cfg.is_local ≡ true
    → cfg.num_past_streams ≤ℤ max64
    → app.conn.faults ≡ []
    → (find_stream cfg.key stream (apply_retention cfg active app).1.conn.db ≡ (
        if any
          (λ s. s.stream_id == stream)
          (beyond (pos_part cfg.num_past_streams) active (newest_first cfg.key app.conn.db))
        then none
        else find_stream cfg.key stream app.conn.db))
      × ((apply_retention cfg active app).1.deletions
          ≡ app.deletions
            ++ map
                (λ s. stream_prefix cfg.key s.stream_id)
                (beyond (pos_part cfg.num_past_streams) active (newest_first cfg.key app.conn.db)))
apply_retention-local cfg active app stream local small sound =
    let run =
      ap
        (λ faults.
          apply_retention cfg active
            (record app { conn = record { db = app.conn.db; faults = faults } }))
        sound
      ∙ retain-exact cfg active app app.conn.db local small in
    (
      ap (λ r. find_stream cfg.key stream r.1.conn.db) run
          ∙ find-delete_all cfg.key
              (beyond (pos_part cfg.num_past_streams) active (newest_first cfg.key app.conn.db))
              app.conn.db stream,
      ap (λ r. r.1.deletions) run,
    )
