-- ===== src/Store.antt =====
-- internal/store: the SQLite persistence layer.
pub mod Sql
pub mod Transcripts
pub mod Streams
pub mod Incoming
pub mod Worker
pub mod Outcome
pub mod Append
mod Gapless
pub mod Newest
mod Accept
pub mod Replace
pub mod Media
pub mod Range
pub mod Held
pub mod Keys
mod Calls
pub mod Queue
pub mod Refines
pub mod Cascade
pub mod Upsert
pub mod Live
mod Tests
