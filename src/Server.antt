-- ===== src/Server.antt =====
-- internal/server: what the server does with the store, the hubs and the notifier.
pub mod Events
pub mod EventMap
pub mod Signals
pub mod Polls
pub mod Wakes
pub mod Answers
pub mod Outcomes
pub mod Routes
pub mod Guards
pub mod Dispatch
pub mod Sink
pub mod Init
pub mod Delivery
pub mod Ids
pub mod Vods
pub mod Vod
pub mod VodBuild
pub mod VodTargets
pub mod VodStarts
pub mod Builds
pub mod BuildEnds
pub mod App
pub mod Worker
pub mod Admin
pub mod Edit
pub mod Edits
pub mod Files
pub mod Confined
pub mod Clips
pub mod ClipRanges
pub mod Deletions
pub mod Announced
pub mod Upload
pub mod Lines
pub mod Commits
pub mod Syncs
pub mod Websocket
pub mod Slots
pub mod Maintenance
pub mod Pruning
pub mod Prefixes
pub mod Lifecycle
pub mod Retention
pub mod Kept
pub mod Activation
pub mod Removal
pub mod Silence
mod Fixtures
mod Tests
mod WorkerTests
mod AdminTests
mod PollTests
mod RouteTests
