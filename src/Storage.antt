-- ===== src/Storage.antt =====
-- The storage layer, internal/storage.
pub mod Models
pub mod Db
pub mod Index
pub mod Library
pub mod Albums
pub mod Favorites
pub mod Tags
pub mod Removal
pub mod Accounts
pub mod Duplicates
pub mod Search
pub mod Timeline
