-- ===== src/Media.antt =====
-- internal/media: the merge of a stream's raw chunks.
pub mod Merge
mod Family
mod Moves
mod Invariant
mod Ordered
mod Returns
mod Tests
