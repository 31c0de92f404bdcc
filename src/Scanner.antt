-- ===== src/Scanner.antt =====
-- The scan of internal/scanner: the metadata and the hashes of a file, its record, the walk over the
-- media directories, and Start and Stop.
pub mod Metadata
pub mod Records
pub mod Files
pub mod Walks
pub mod Keys
pub mod Rescans
pub mod Counts
pub mod Stops
pub mod Watcher
pub mod Detection
