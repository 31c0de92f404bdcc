-- ===== src/Tests.antt =====
-- Concrete runs: an environment in memory, and each theorem at a concrete input.
mod Disk
mod Storage
mod Albums
mod Removal
mod Tags
mod Duplicates
mod Cache
mod Auth
mod Worker
mod Web
mod Scanner
mod Timeline
mod Thumbnails
mod Cached
mod Watcher
mod Images
mod Upload
mod Sorts
mod Serving
mod Queries
mod Pages
mod Calls
