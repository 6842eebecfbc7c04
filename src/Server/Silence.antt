-- ===== src/Server/Silence.antt =====
-- internal/server/lifecycle.go: what a false answer of activateStream and deactivateStream means.
use live_transcript_server.Prelude.{
  String, ◌≡◌, refl, ◌∙◌, Bool, true, false, not, Option, none, some, ℤ, ◌==◌, if◌then◌else◌,
}
use live_transcript_server.Model.{Stream}
use live_transcript_server.Store.Sql.{Result, ok, err}
use live_transcript_server.Store.Streams.{get_recent_stream, upsert_stream, set_stream_live}
use live_transcript_server.Server.App.{Config, App, Act, give, ◌>>=◌, store, bump_admin_change}
use live_transcript_server.Server.Lifecycle.{
  announce_stream, new_row, announce_if, end_previous, start_stream, resumed, resume_stream,
  activate_after, activate_stream, ended, deactivate_after, deactivate_stream,
}

-- No client is sent anything and no poll is woken.
abbrev pub IsSilent : App → App → Type 0
IsSilent app app' =
    (app'.hub ≡ app.hub)
    × (app'.admin_change_counter ≡ app.admin_change_counter)
    × (app'.notifier ≡ app.notifier)

-- What a call with a Boolean answer does when the answer is false.
record Quiet (m : Act Bool) : Type 0 where
  at : (app : App) → (m app).0 ≡ false → IsSilent app (m app).1

Quiet-false : Quiet (give false)
Quiet-false = record { at = λ app h. (refl, refl, refl) }

Quiet-if : (b : Bool) (m n : Act Bool) → Quiet m → Quiet n → Quiet (if b then m else n)
Quiet-if true m n p q = p
Quiet-if false m n p q = q

module _ (cfg : Config) where
  announce_if-Quiet : (st : Stream) (r : Result (Unit {0})) → Quiet (announce_if cfg st r)
  unfolding announce_stream
  announce_if-Quiet st (ok u) = record { at = λ app h. cc }
  announce_if-Quiet st (err e) = Quiet-false

  end_previous-IsSilent :
      (previous : Option Stream) (app : App) → IsSilent app (end_previous cfg previous app).1
  end_previous-IsSilent none app = (refl, refl, refl)
  end_previous-IsSilent (some old) app = go old.is_live
    where
      go :
          (b : Bool)
          → IsSilent app
              ((if b
                  then (do ended ← store (set_stream_live cfg.key old.stream_id false); give tt)
                  else give tt)
                app).1
      go true = (refl, refl, refl)
      go false = (refl, refl, refl)

  start_stream-Quiet :
      (previous : Option Stream) (st : Stream) → Quiet (start_stream cfg previous st)
  unfolding start_stream
  start_stream-Quiet previous st = record {
    at = λ app h.
        let (a, b, c) = end_previous-IsSilent previous app in
        let app1 : App = (end_previous cfg previous app).1 in
        let (d, e, f) =
          (announce_if-Quiet st (upsert_stream st app1.conn).0).at (store (upsert_stream st) app1).1
            h in
        (d ∙ a, e ∙ b, f ∙ c);
  }

  resume_stream-Quiet : (st : Stream) → Quiet (resume_stream cfg st)
  unfolding resume_stream
  resume_stream-Quiet st = Quiet-if st.is_live (give false) _ Quiet-false (record {
    at = λ app h.
        go (set_stream_live cfg.key st.stream_id true app.conn).0
          (store (set_stream_live cfg.key st.stream_id true) app).1 h;
  })
    where
      go :
          (r : Result (Unit {0})) (app : App)
          → (resumed cfg st r app).0 ≡ false
          → IsSilent app (resumed cfg st r app).1
      go (err e) app h = (refl, refl, refl)
      go (ok u) app h = cc

  activate_after-Quiet :
      (st : Stream) (r : Result (Option Stream)) → Quiet (activate_after cfg st r)
  activate_after-Quiet st (err e) = Quiet-false
  activate_after-Quiet st (ok none) = start_stream-Quiet none st
  activate_after-Quiet st (ok (some current)) =
      Quiet-if (current.stream_id == st.stream_id) _ _ (resume_stream-Quiet current)
        (start_stream-Quiet (some current) st)

  -- Whatever statements fail: if activateStream answers false, then no message has been sent, and
  -- neither the admin change counter nor the notifier has moved.
  pub activate_stream-IsSilent :
      (now : ℤ) (stream title start media : String) (app : App)
      → (activate_stream cfg now stream title start media app).0 ≡ false
      → IsSilent app (activate_stream cfg now stream title start media app).1
  unfolding activate_stream
  activate_stream-IsSilent now stream title start media app h =
      (activate_after-Quiet (new_row cfg now stream title start media)
          (get_recent_stream cfg.key app.conn).0).at
        (store (get_recent_stream cfg.key) app).1 h

  ended-Quiet : (st : Stream) (r : Result (Unit {0})) → Quiet (ended cfg st r)
  unfolding bump_admin_change
  ended-Quiet st (err e) = Quiet-false
  ended-Quiet st (ok u) = record { at = λ app h. cc }

  deactivate_after-Quiet :
      (stream : String) (r : Result (Option Stream)) → Quiet (deactivate_after cfg stream r)
  deactivate_after-Quiet stream (err e) = Quiet-false
  deactivate_after-Quiet stream (ok none) = Quiet-false
  deactivate_after-Quiet stream (ok (some current)) =
      Quiet-if (not (current.stream_id == stream)) _ _ Quiet-false (
        Quiet-if (not current.is_live) _ _ Quiet-false (record {
          at = λ app h.
              (ended-Quiet current (set_stream_live cfg.key stream false app.conn).0).at
                (store (set_stream_live cfg.key stream false) app).1 h;
        }))

  -- Whatever statements fail: if deactivateStream answers false, then no message has been sent, and
  -- neither the admin change counter nor the notifier has moved.
  pub deactivate_stream-IsSilent :
      (stream : String) (app : App)
      → (deactivate_stream cfg stream app).0 ≡ false
      → IsSilent app (deactivate_stream cfg stream app).1
  unfolding deactivate_stream
  deactivate_stream-IsSilent stream app h =
      (deactivate_after-Quiet stream (get_recent_stream cfg.key app.conn).0).at
        (store (get_recent_stream cfg.key) app).1 h
