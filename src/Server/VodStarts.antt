-- ===== src/Server/VodStarts.antt =====
-- internal/server/vod.go: when a VOD build is started.
use live_transcript_server.Prelude.{
  ℕ, ◌≡◌, ◌≢◌, refl, ap, sym, ◌∙◌, subst, ◌⊎◌, inl, inr, String, Bool, true, false, Option, none,
  some, List, [], ◌∷◌, ℤ, eqb, if◌then◌else◌, arith,
}
use live_transcript_server.Store.Sql.{Result, ok, err, failed}
use live_transcript_server.Store.Streams.{find_stream}
use live_transcript_server.Store.Transcripts.{all_media_file_ids, get_all_media_file_ids}
use live_transcript_server.Store.Outcome.{statement-cases}
use live_transcript_server.Server.App.{Config, App, give, ◌>>=◌}
use live_transcript_server.Server.Vods.{VodRegistry, VodStatus, get_job, vod_job_key, claim}
use live_transcript_server.Server.Builds.{IsBuilding, claim-IsBuilding}
use live_transcript_server.Server.Vod.{
  Names, Shown, absent, in_flight, built, broken, VodResponse, VodTarget, Resolved, refused, target,
  vod_format, ext_of, resolve_vod_target, Listing, find_vod_artifact, vod_response, runs, status_of,
  with_artifact, unless_running, with_times, base_response,
}
use live_transcript_server.Server.VodTargets.{IsTarget, resolve_vod_target-IsTarget}
use live_transcript_server.Server.VodBuild.{
  only, ask, Build, start_build, with_chunks, read_chunks, unless_shown, unless_unknown,
  request_build, post_admin_vod_handler,
}

-- What a reported state says about the job and the storage.
module _ (cfg : Config) (names : Names) (list : Listing) (t : VodTarget) where
  abbrev pub is_open : Shown → Bool
  is_open absent = true
  is_open broken = true
  is_open _ = false

  artifact-open :
      (resp : VodResponse) (s : Option VodStatus) (a : Option (Option String)) (shown : VodResponse)
      → with_artifact cfg names t resp s a ≡ some shown
      → is_open shown.state ≡ true
      → a ≡ some none
  artifact-open resp s none shown h o = cc
  artifact-open resp s (some none) shown h o = refl
  artifact-open resp s (some (some key)) shown h o = ground arith

  running-open :
      (resp : VodResponse) (s : Option VodStatus) (phase : Option String) (shown : VodResponse)
      → unless_running cfg names list t resp s phase ≡ some shown
      → is_open shown.state ≡ true
      → (phase ≡ none) × (find_vod_artifact cfg list t.stream.stream_id (ext_of t) ≡ some none)
  running-open resp s none shown h o = (refl, artifact-open resp s _ shown h o)
  running-open resp s (some phase) shown h o = ground arith

  -- The job of the target's stream, as the registry has it.
  abbrev pub job_key : String
  job_key = vod_job_key cfg.key t.stream.stream_id

  abbrev pub phase_in : VodRegistry → Option String
  phase_in r = runs (status_of r (get_job job_key r))

  vod_response-open :
      (r : VodRegistry) (shown : VodResponse)
      → vod_response cfg names list t r ≡ some shown
      → is_open shown.state ≡ true
      → (phase_in r ≡ none) × (find_vod_artifact cfg list t.stream.stream_id (ext_of t) ≡ some none)
  unfolding vod_response
  vod_response-open r shown h o =
      let s = status_of r (get_job job_key r) in
      running-open (with_times (base_response t) s) s (runs s) shown h o

module _ (cfg : Config) (names : Names) (now : ℤ) (list list' : Listing)
    (between after : VodRegistry → VodRegistry) (app0 : App) (b : Build) where
  abbrev key : String
  key = job_key cfg names list b.target

  -- What holds when a build has been started.
  pub record IsStarted : Type 0 where
    pub ended : b.target.stream.is_live ≡ false
    pub media : vod_format b.target.stream ≡ some b.target.format
    pub unbuilt : find_vod_artifact cfg list b.target.stream.stream_id (ext_of b.target) ≡ some none
    pub idle : phase_in cfg names list b.target app0.vods ≡ none
    pub chunks : b.file_ids ≡ all_media_file_ids cfg.key b.target.stream.stream_id app0.conn.db
    pub some_chunks : b.file_ids ≢ []
    pub claimed : (claim key now (between app0.vods)).0 ≡ (b.job, true)
    pub building : IsBuilding key b.job (claim key now (between app0.vods)).1

  claimed-build :
      (t : VodTarget) (ids : List String) (c : ℕ × Bool)
      → (if c.1 then some (record { job = c.0; target = t; file_ids = ids }) else none) ≡ some b
      → (t ≡ b.target) × (b.file_ids ≡ ids) × (c ≡ (b.job, true))
  claimed-build t ids (j, true) h = ground arith
  claimed-build t ids (j, false) h = cc

  record IsClaimed (t : VodTarget) (ids : List String) : Type 0 where
    target_same : t ≡ b.target
    ids_same : b.file_ids ≡ ids
    some_ids : ids ≢ []
    taken :
        (claim (vod_job_key cfg.key t.stream.stream_id) now (between app0.vods)).0 ≡ (b.job, true)

  start_build-IsClaimed :
      (t : VodTarget) (resp : VodResponse) (ids : List String) (app : App)
      → app.vods ≡ app0.vods
      → (start_build cfg names now list list' between after t resp ids app).0.build ≡ some b
      → IsClaimed t ids
  start_build-IsClaimed t resp [] app v h = cc
  start_build-IsClaimed t resp (id ∷ ids) app v h =
      let c : ℕ × Bool =
        (claim (vod_job_key cfg.key t.stream.stream_id) now (between app.vods)).0 in
      let (p, q, r) = claimed-build t (id ∷ ids) c h in
      record { target_same = p; ids_same = q; some_ids = λ e. cc; taken = rw (← v) r }

  chunks-IsClaimed :
      (t : VodTarget) (resp : VodResponse) (r : Result (List String)) (ids : List String)
      (app : App)
      → (r ≡ ok ids) ⊎ (r ≡ err failed)
      → app.vods ≡ app0.vods
      → (with_chunks cfg names now list list' between after t resp r app).0.build ≡ some b
      → IsClaimed t ids
  chunks-IsClaimed t resp (err e) ids app c v h = cc
  chunks-IsClaimed t resp (ok got) ids app c v h =
      let same : got ≡ ids = ground arith in rw (← same) (start_build-IsClaimed t resp got app v h)

  read_chunks-IsClaimed :
      (t : VodTarget) (resp : VodResponse) (app : App)
      → app.conn.db ≡ app0.conn.db
      → app.vods ≡ app0.vods
      → (read_chunks cfg names now list list' between after t resp app).0.build ≡ some b
      → IsClaimed t (all_media_file_ids cfg.key t.stream.stream_id app0.conn.db)
  unfolding get_all_media_file_ids
  read_chunks-IsClaimed t resp app same v h =
      subst (λ d. IsClaimed t (all_media_file_ids cfg.key t.stream.stream_id d)) same
        (chunks-IsClaimed t resp (get_all_media_file_ids cfg.key t.stream.stream_id app.conn).0
          (all_media_file_ids cfg.key t.stream.stream_id app.conn.db) _ cases v h)
    where
      cases :
          ((get_all_media_file_ids cfg.key t.stream.stream_id app.conn).0
            ≡ ok (all_media_file_ids cfg.key t.stream.stream_id app.conn.db))
          ⊎ ((get_all_media_file_ids cfg.key t.stream.stream_id app.conn).0 ≡ err failed)
      cases =
          elim (statement-cases (λ db. (ok (all_media_file_ids cfg.key t.stream.stream_id db), db))
            app.conn) [ inl (r, s) ↦ inl r | inr (r, s) ↦ inr r ]

  shown-IsClaimed :
      (t : VodTarget) (resp : VodResponse) (state : Shown) (app : App)
      → app.conn.db ≡ app0.conn.db
      → app.vods ≡ app0.vods
      → (unless_shown cfg names now list list' between after t resp state app).0.build ≡ some b
      → (is_open cfg names list t state ≡ true)
        × IsClaimed t (all_media_file_ids cfg.key t.stream.stream_id app0.conn.db)
  shown-IsClaimed t resp absent app same v h = (refl, read_chunks-IsClaimed t resp app same v h)
  shown-IsClaimed t resp broken app same v h = (refl, read_chunks-IsClaimed t resp app same v h)
  shown-IsClaimed t resp built app same v h = cc
  shown-IsClaimed t resp in_flight app same v h = cc

  known-IsStarted :
      (stream : String) (t : VodTarget) (o : Option VodResponse) (app : App)
      → IsTarget cfg stream t app0 app
      → vod_response cfg names list t app.vods ≡ o
      → (unless_unknown cfg names now list list' between after t o app).0.build ≡ some b
      → (find_stream cfg.key stream app0.conn.db ≡ some b.target.stream) × IsStarted
  known-IsStarted stream t none app v e h = cc
  known-IsStarted stream t (some resp) app v e h =
      let (free, c) = shown-IsClaimed t resp resp.state app v.tables v.registry h in
      let (idle, unbuilt) = vod_response-open cfg names list t app.vods resp e free in
      let same : t ≡ b.target = c.target_same in
      (
        subst (λ t. find_stream cfg.key stream app0.conn.db ≡ some t.stream) same v.row,
        record {
          ended = subst (λ t. t.stream.is_live ≡ false) same v.ended;
          media = subst (λ t. vod_format t.stream ≡ some t.format) same v.media;
          unbuilt =
              subst (λ t. find_vod_artifact cfg list t.stream.stream_id (ext_of t) ≡ some none) same
                unbuilt;
          idle =
              subst (λ r. phase_in cfg names list b.target r ≡ none) v.registry
                (subst (λ t. phase_in cfg names list t app.vods ≡ none) same idle);
          chunks =
              c.ids_same
              ∙ ap (λ t. all_media_file_ids cfg.key t.stream.stream_id app0.conn.db) same;
          some_chunks = λ e. c.some_ids (sym c.ids_same ∙ e);
          claimed = claimed_key t c;
          building = claim-IsBuilding key b.job now (between app0.vods) (claimed_key t c);
        },
      )
    where
      claimed_key :
          (t : VodTarget)
          → IsClaimed t (all_media_file_ids cfg.key t.stream.stream_id app0.conn.db)
          → (claim key now (between app0.vods)).0 ≡ (b.job, true)
      claimed_key t c =
          subst
            (λ t.
              (claim (vod_job_key cfg.key t.stream.stream_id) now (between app0.vods)).0
              ≡ (b.job, true))
            c.target_same c.taken

  resolved-IsStarted :
      (stream : String) (r : Resolved) (app : App)
      → ((t : VodTarget) → r ≡ target t → IsTarget cfg stream t app0 app)
      → (request_build cfg names now list list' between after r app).0.build ≡ some b
      → (find_stream cfg.key stream app0.conn.db ≡ some b.target.stream) × IsStarted
  resolved-IsStarted stream (refused code) app v h = cc
  resolved-IsStarted stream (target t) app v h = go (eqb t.media_lines 0) h
    where
      go :
          (e : Bool)
          → ((if e then give (only 409) else (do
            resp ← ask (λ app. vod_response cfg names list t app.vods)
            unless_unknown cfg names now list list' between after t resp))
              app).0.build
            ≡ some b
          → (find_stream cfg.key stream app0.conn.db ≡ some b.target.stream) × IsStarted
      go true h = cc
      go false h =
          known-IsStarted stream t (vod_response cfg names list t app.vods) app (v t refl) refl h

-- Whatever statements fail, whatever the storage lists and whatever other requests and builds do to
-- the registry meanwhile: a request starts a build only if the stream has a row that is not live and
-- a media type with a VOD format, the storage's list had no render in that format and no build of
-- the stream was running when it looked, and its claim of the job was the one that started it. The
-- build is of that row, of all the media that the stream has, in their order, and not of none, and
-- after the claim it is the one that the registry has running.
pub post_admin_vod_handler-IsStarted :
    (cfg : Config) (names : Names) (now : ℤ) (list list' : Listing)
    (between after : VodRegistry → VodRegistry) (stream : String) (app : App) (b : Build)
    → (post_admin_vod_handler cfg names now list list' between after stream app).0.build ≡ some b
    → (find_stream cfg.key stream app.conn.db ≡ some b.target.stream)
      × IsStarted cfg names now list list' between after app b
unfolding post_admin_vod_handler
post_admin_vod_handler-IsStarted cfg names now list list' between after stream app b h =
    resolved-IsStarted cfg names now list list' between after app b stream
      (resolve_vod_target cfg stream app).0 (resolve_vod_target cfg stream app).1
      (λ t e. resolve_vod_target-IsTarget cfg stream t app e) h
