-- ===== src/Storage.antt =====
-- internal/storage: where the media files are.
pub mod Keys
