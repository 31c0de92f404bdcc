-- ===== src/Lib.antt =====
-- PhotoCore, a photo library server in Go: its storage layer, its authentication, its handlers,
-- its caches, its scanner, its thumbnails and its worker pool.
--
-- internal/web serves HTTP over internal/storage, which keeps everything in one bbolt database;
-- internal/auth stands in front of the handlers and reads users, sessions and tokens from the
-- same database; internal/cache is an in-memory map with expiry, of which the handlers keep
-- three; internal/scanner fills the database from the media directories; internal/worker runs
-- tasks on a pool of goroutines, and makes thumbnails on it.
--
-- Base: lists of texts, Go's `(value, error)` as `Result`, and maps as association lists that
-- hold a key once. Disk: what the storage layer takes from go.etcd.io/bbolt and encoding/json,
-- two records of operations with their documented laws, and in Disk.Table the Marshal-and-Put and
-- Get-and-Unmarshal that internal/storage/bbolt.go repeats for each type.
--
-- Storage follows internal/storage/bbolt.go and models.go. The state is `Storage.Db.Db`, one
-- bucket per field in the order of NewStore; `Env` holds the disk, the codecs, and the functions
-- of the standard library on times and texts that the code calls, a time in UTC and one in the
-- server's zone having each its format. A method is a function from its arguments and the
-- database to its results and the database; `update` is db.Update, which rolls back when its
-- function fails, and a method of several transactions keeps those that committed before an
-- error.
--   Models: the records of models.go; a time is its nanoseconds since Go's zero time, a float64 its
--     bits.
--   Index: addToIndex, removeFromIndex, getIndex. Index.Laws: what they leave under each key.
--   Library: SaveMedia, GetMedia, the lists, SoftDeleteMedia, RestoreMedia, the statistics.
--   Albums, Favorites, Tags: the operations of these names. Favorites.Laws has the global list,
--     Favorites.Users the lists of the users.
--   Removal: DeleteMedia, BulkDelete, CleanupTrash. Removal.Conditions says what the database must
--     accept, since DeleteMedia drops the errors of its first steps; Removal.Albums and
--     Removal.Users follow its sweeps, Removal.Delete the whole.
--   Accounts: users, sessions and API tokens.
--   Duplicates: FindDuplicates, CheckDuplicate and hammingDistance, whose loop runs on a fuel of 65
--     rounds, enough because each round clears one of at most 64 bits. Where Go ranges over a map,
--     the order is an argument. Duplicates.Hamming, Checks and Groups follow the three operations.
--   Search: matchesQuery and the window of Search, whose slice expression panics at a negative
--     offset.
--   Timeline: GetTimeline with its sort by exchange, GetTimelineMedia, the map points and
--     ListDirectories. Timeline.Counts compares the two views of the timeline.
--
-- Auth follows internal/auth/auth.go: roles, EnsureAdminUser, Login, Logout, ValidateSession,
-- Middleware, RequireRole and the API tokens. bcrypt is the record `Bcrypt`; the clock and the
-- random ids are arguments, one clock reading for the several of one call.
--
-- Cache follows internal/cache/cache.go, each method as one step under its lock; an iteration
-- order is an argument, and `evicted` records the calls of onEvicted. Cache.Laws has reads after
-- writes, Cache.Limit the evictions. Cache.Media follows internal/cache/media_cache.go.
--
-- Web follows the handlers of internal/web/handlers/handlers.go that change the database or read
-- it through the cache, one function each; Web.Requests the table of their routes in
-- internal/web/server.go and the dispatch behind the middleware. A JSON body is decoded before
-- the call, a reply is its content without its texts for the reader, and the clock readings of
-- one call are one. Web.Viewers has what a user of the lowest role can change, by Web.Shared and
-- Web.Own; Web.Coherence and Web.Cached relate the media cache to the database, by what Web.Steps
-- says of the storage layer and Web.Replies of the ends of the handlers. Web.Calls adds the
-- routes that work on the files. The record `Server` adds the thumbnail service and the files:
-- Web.Upload is UploadMedia, one function for each stage of its loop, with Upload.Loops on the
-- counts, Upload.Kept on what later files leave alone and Upload.Replies on the whole;
-- Web.Serving is ServeMedia and the thumbnails, Serving.Answers what a client is told after the
-- task of a thumbnail. Web.Timeline is TimelineAllMedia, whose sort.Slice is a parameter with its
-- documented law (`Sorter`): Timeline.Groups has its groups as they stand, Timeline.Rounds one
-- round of the loop, Timeline.Views the comparison with GetTimelineMedia. Web.Queries is Search,
-- a panic being a value, with Queries.Answers on the page that it shows. Web.Pages has the
-- handlers that only read, as the content of their JSON or their template with the data of
-- baseData; Pages.Items has the rows of these pages, Pages.Live and Pages.Grouped what the lists
-- of media hold, Pages.Shown what is shown to whom.
--
-- Scanner follows internal/scanner/scanner.go, hashing.go and metadata.go. Scanner.Files is the
-- scan of one file, where `none` stands for a panic; Scanner.Walks the steps of a run, those of
-- the scan and those of the callers of Start and Stop, which closes the stop channel and replaces
-- it in two steps. The file system, the EXIF library, the hashes and float64 are the records
-- `Files` and `Formats`, of Scanner.Records and Scanner.Metadata. Scanner.Keys and
-- Scanner.Rescans follow the record of a file to its next scan, Scanner.Counts the counters,
-- Scanner.Stops the calls of Stop. Scanner.Watcher follows internal/scanner/watcher.go, each
-- method as one step, and Scanner.Watcher.Deliveries the events that come before its timer fires.
--
-- Images follows internal/media/thumbnail.go: the thumbnails are an association list from paths
-- to their bytes, and the image libraries, dcraw, ffmpeg and the errors of the file system are
-- the record `Imaging`. Scanner.Detection follows internal/scanner/format.go, on which it stands.
--
-- Worker follows internal/worker/pool.go: the state counts the goroutines between two atomic
-- operations, and `Step` relates it to the next one, in any interleaving. Worker.Laws has the
-- invariant, Worker.Drains the way to an empty queue. The channel of results, which only feeds a
-- log, and the time limit of a handler are left out. Worker.Thumbnails follows
-- internal/worker/thumbnail_worker.go, its handler around whatever others do while the generator
-- runs. Worker.Thumbnails.Refusals follows a file of an unsupported format from the detection to
-- the record of failures.
--
-- Tests holds an environment in memory, in which a bucket is an association list, and concrete
-- runs.
--
-- Not modelled: pages without data, templates and static files; the handlers that pass a call on
-- to the scanner, the pool or the thumbnail service; GetImageDimensions of internal/media, which
-- no function calls; the configuration file with its defaults, and logging. Outside the pool, the
-- scanner's Start and Stop and the thumbnail handler, concurrency is the order of the calls.
pub mod Base
pub mod Disk
pub mod Storage
pub mod Cache
pub mod Auth
pub mod Web
pub mod Scanner
pub mod Images
pub mod Worker
mod Tests
