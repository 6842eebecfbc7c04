-- ===== src/Server/Guards.antt =====
-- internal/server/routes.go: which handlers a request reaches.
use live_transcript_server.Prelude.{
  String, ◌≡◌, refl, inl, inr, Bool, true, false, not, ◌&&◌, ◌||◌, Option, none, some, List, [],
  ◌∷◌, any, Bool-cases, ◌==◌, arith,
}
use live_transcript_server.Server.Routes.{
  Endpoint, activate, deactivate, sync, line, media, statuscheck, worker_status, get_events,
  get_incoming, delete_incoming, post_restart, get_restart, delete_restart, get_admin_info,
  admin_poll, post_admin_incoming, delete_admin_incoming, post_admin_restart, delete_admin_restart,
  delete_admin_stream, post_admin_stream, post_admin_stop, get_admin_vod, post_admin_vod,
  get_admin_membership, post_admin_membership, delete_admin_membership, admin_ui, get_status,
  websocket, stream, download, get_frame, get_transcript, post_clip, post_trim, Guard,
  worker_channel, worker, admin_channel, channel, unguarded, Route, Request, Keys, Answer, status,
  runs, admin_key_of, api_key_middleware, if_channel, with_admin_channel, guarded, match_path,
  matches, channel_in, routes, serve_from, serve,
}

-- For whom a handler is: the worker, the admins of the channel, or anyone.
pub data Audience : Type 0 where
  workers admins anyone : Audience

-- The handlers of handlers_worker.go and getEventsHandler are for workers, those of handlers_admin.go
-- and vod.go and adminPollHandler for admins, and the admin page and handlers_public.go for anyone.
abbrev pub audience_of : Endpoint → Audience
audience_of activate = workers
audience_of deactivate = workers
audience_of sync = workers
audience_of line = workers
audience_of media = workers
audience_of statuscheck = workers
audience_of worker_status = workers
audience_of get_events = workers
audience_of get_incoming = workers
audience_of delete_incoming = workers
audience_of post_restart = workers
audience_of get_restart = workers
audience_of delete_restart = workers
audience_of get_admin_info = admins
audience_of admin_poll = admins
audience_of post_admin_incoming = admins
audience_of delete_admin_incoming = admins
audience_of post_admin_restart = admins
audience_of delete_admin_restart = admins
audience_of delete_admin_stream = admins
audience_of post_admin_stream = admins
audience_of post_admin_stop = admins
audience_of get_admin_vod = admins
audience_of post_admin_vod = admins
audience_of get_admin_membership = admins
audience_of post_admin_membership = admins
audience_of delete_admin_membership = admins
audience_of admin_ui = anyone
audience_of get_status = anyone
audience_of websocket = anyone
audience_of stream = anyone
audience_of download = anyone
audience_of get_frame = anyone
audience_of get_transcript = anyone
audience_of post_clip = anyone
audience_of post_trim = anyone

-- The guard of a route keeps out all others.
abbrev fits : Guard → Audience → Bool
fits worker_channel workers = true
fits worker workers = true
fits admin_channel admins = true
fits channel anyone = true
fits unguarded anyone = true
fits worker_channel admins = false
fits worker_channel anyone = false
fits worker admins = false
fits worker anyone = false
fits admin_channel workers = false
fits admin_channel anyone = false
fits channel workers = false
fits channel admins = false
fits unguarded workers = false
fits unguarded admins = false

abbrev all_fit : List Route → Bool
all_fit [] = true
all_fit (r ∷ rs) = fits r.guard (audience_of r.endpoint) && all_fit rs

module _ (keys : Keys) (req : Request) where
  -- The request holds the key that its audience needs.
  abbrev pub HoldsKey : Audience → Option String → Type 0
  HoldsKey workers ch = ((keys.api_key == "") ≡ false) × ((req.api_key == keys.api_key) ≡ true)
  HoldsKey admins none = false ≡ true
  HoldsKey admins (some key) =
      (secret : String) × (admin_key_of key keys.channels ≡ some secret)
      × ((secret == "") ≡ false)
      × ((req.admin_key == secret) ≡ true)
  HoldsKey anyone ch = Unit

  -- The channel that a handler is given is one of app.Channels.
  abbrev pub IsChannel : Option String → Type 0
  IsChannel none = Unit
  IsChannel (some key) = (secret : String) × (admin_key_of key keys.channels ≡ some secret)

  abbrev pub IsAllowed : Answer → Type 0
  IsAllowed (status n) = Unit
  IsAllowed (runs e ch) = HoldsKey (audience_of e) ch × IsChannel ch

  api_key_middleware-IsAllowed :
      (next : Answer)
      → ((keys.api_key == "") ≡ false → (req.api_key == keys.api_key) ≡ true → IsAllowed next)
      → IsAllowed (api_key_middleware keys req next)
  api_key_middleware-IsAllowed next h = elim (Bool-cases (keys.api_key == "")) [
    | inl e ↦ rw e tt
    | inr e ↦ elim (Bool-cases (req.api_key == keys.api_key)) [
      | inl k ↦ rw (e, k) (h e k)
      | inr k ↦ rw (e, k) tt
    ]
  ]

  if_channel-IsAllowed :
      (found : Option String) (next : String → Answer)
      → ((secret : String) → found ≡ some secret → IsAllowed (next secret))
      → IsAllowed (if_channel keys req found next)
  if_channel-IsAllowed none next h = tt
  if_channel-IsAllowed (some secret) next h = h secret refl

  with_admin_channel-IsAllowed :
      (key : String) (next : Answer)
      → ((secret : String)
          → admin_key_of key keys.channels ≡ some secret
          → (secret == "") ≡ false
          → (req.admin_key == secret) ≡ true
          → IsAllowed next)
      → IsAllowed (with_admin_channel keys req key next)
  with_admin_channel-IsAllowed key next h =
      if_channel-IsAllowed (admin_key_of key keys.channels) _ λ secret found.
        elim (Bool-cases (secret == "")) [
          | inl e ↦ rw e tt
          | inr e ↦ elim (Bool-cases (req.admin_key == "" || not (req.admin_key == secret))) [
            | inl k ↦ rw (e, k) tt
            | inr k ↦ rw (e, k) (h secret found e (ground arith))
          ]
        ]

  guarded-IsAllowed :
      (g : Guard) (key : String) (e : Endpoint)
      → fits g (audience_of e) ≡ true
      → IsAllowed (guarded keys req g key e)
  guarded-IsAllowed g key e h = go g (audience_of e) h refl
    where
      go :
          (g : Guard) (a : Audience)
          → fits g a ≡ true
          → audience_of e ≡ a
          → IsAllowed (guarded keys req g key e)
      go worker_channel workers h same = api_key_middleware-IsAllowed _ λ some_key right.
          if_channel-IsAllowed (admin_key_of key keys.channels) _
            λ secret found. rw same ((some_key, right), (secret, found))
      go worker workers h same =
          api_key_middleware-IsAllowed _ λ some_key right. rw same ((some_key, right), tt)
      go admin_channel admins h same =
          with_admin_channel-IsAllowed key _ λ secret found some_key right.
            rw same ((secret, found, some_key, right), (secret, found))
      go channel anyone h same =
          if_channel-IsAllowed (admin_key_of key keys.channels) _
            λ secret found. rw same (tt, (secret, found))
      go unguarded anyone h same = rw same (tt, tt)
      go worker_channel admins h same = cc
      go worker_channel anyone h same = cc
      go worker admins h same = cc
      go worker anyone h same = cc
      go admin_channel workers h same = cc
      go admin_channel anyone h same = cc
      go channel workers h same = cc
      go channel admins h same = cc
      go unguarded workers h same = cc
      go unguarded admins h same = cc

  serve_from-IsAllowed : (rs : List Route) → all_fit rs ≡ true → IsAllowed (serve_from rs keys req)
  serve_from-IsAllowed [] h = elim (Bool-cases (any (λ r. match_path r.pattern req.path) routes)) [
    | inl e ↦ rw e tt
    | inr e ↦ rw e tt
  ]
  serve_from-IsAllowed (r ∷ rs) h = elim (Bool-cases (matches req r)) [
    | inl e ↦
        rw e (guarded-IsAllowed r.guard (channel_in r.pattern req.path) r.endpoint (ground arith))
    | inr e ↦ rw e (serve_from-IsAllowed rs (ground arith))
  ]

-- Whatever a request is: if it reaches a handler of the workers, then an API key is configured and
-- the request has it; if it reaches a handler of the admins, then the handler's channel has an admin
-- key and the request has that channel's; and a channel that a handler is given is one of the
-- configured channels.
pub serve-IsAllowed : (keys : Keys) (req : Request) → IsAllowed keys req (serve keys req)
unfolding serve
serve-IsAllowed keys req = elim (Bool-cases (req.method == "OPTIONS")) [
  | inl e ↦ rw e tt
  | inr e ↦ rw e (serve_from-IsAllowed keys req routes refl)
]
