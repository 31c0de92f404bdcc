-- ===== src/Cache/Media.antt =====
-- internal/cache/media_cache.go: three caches behind prefixed keys. What a cache holds has the one
-- type that its setter stores, so the type assertions of the getters succeed. A `Moment` is what
-- time.Now returns while a method runs, and the order in which its cache ranges over its map.
use photo_core.Base.{ℕ, ◌*◌, String, false, List, [], Option, concat}
use photo_core.Storage.Models.{Media, Stats}
use photo_core.Cache.{Cache, CacheStats, Item, minute}
use photo_core.Cache

pub record Moment (V : Type 0) : Type 0 where
  pub now : ℕ
  pub order : List (String × Item V)

pub record MediaCache : Type 0 where
  pub media_cache : Cache Media
  pub dir_cache : Cache (List Media)
  pub stats_cache : Cache Stats

unfoldable pub new_media_cache : MediaCache
unfolding Cache.new
new_media_cache = record {
  media_cache = Cache.new (record {
    default_expiration = 10 * minute;
    cleanup_interval = 5 * minute;
    max_items = 5000;
    on_evicted = false;
  });
  dir_cache = Cache.new (record {
    default_expiration = 2 * minute;
    cleanup_interval = minute;
    max_items = 500;
    on_evicted = false;
  });
  stats_cache = Cache.new (record {
    default_expiration = 30 * 1_000_000_000;
    cleanup_interval = minute;
    max_items = 10;
    on_evicted = false;
  });
}

unfoldable pub media_key : String → String
media_key id = concat "media:" id

unfoldable pub dir_key : String → String
dir_key dir = concat "dir:" dir

-- GetMedia of the cache
unfoldable pub cached_media : ℕ → String → MediaCache → Option Media × MediaCache
unfolding media_key
cached_media now id c =
    let (found, media_cache) = Cache.get now (media_key id) c.media_cache in
    (found, record c { media_cache = media_cache })

-- SetMedia
unfoldable pub cache_media : Moment Media → Media → MediaCache → MediaCache
unfolding media_key
cache_media t m c = record c {
  media_cache = Cache.set t.now t.order (media_key m.id) m c.media_cache;
}

-- DeleteMedia
unfoldable pub uncache_media : String → MediaCache → MediaCache
unfolding media_key
uncache_media id c = record c { media_cache = Cache.delete (media_key id) c.media_cache }

-- GetMediaByDir
unfoldable pub cached_dir : ℕ → String → MediaCache → Option (List Media) × MediaCache
unfolding dir_key
cached_dir now dir c =
    let (found, dir_cache) = Cache.get now (dir_key dir) c.dir_cache in
    (found, record c { dir_cache = dir_cache })

-- SetMediaByDir
unfoldable pub cache_dir : Moment (List Media) → String → List Media → MediaCache → MediaCache
unfolding dir_key
cache_dir t dir ms c = record c { dir_cache = Cache.set t.now t.order (dir_key dir) ms c.dir_cache }

-- InvalidateDir
unfoldable pub invalidate_dir : String → MediaCache → MediaCache
unfolding dir_key
invalidate_dir dir c = record c { dir_cache = Cache.delete (dir_key dir) c.dir_cache }

-- GetStats of the cache
unfoldable pub cached_stats : ℕ → MediaCache → Option Stats × MediaCache
cached_stats now c =
    let (found, stats_cache) = Cache.get now "stats" c.stats_cache in
    (found, record c { stats_cache = stats_cache })

-- SetStats
unfoldable pub cache_stats : Moment Stats → Stats → MediaCache → MediaCache
cache_stats t st c = record c { stats_cache = Cache.set t.now t.order "stats" st c.stats_cache }

-- InvalidateStats
unfoldable pub invalidate_stats : MediaCache → MediaCache
invalidate_stats c = record c { stats_cache = Cache.delete "stats" c.stats_cache }

-- Clear; no callback is set, so the order of iteration is of no account.
unfoldable pub clear_all : MediaCache → MediaCache
clear_all c = record {
  media_cache = Cache.clear [] c.media_cache;
  dir_cache = Cache.clear [] c.dir_cache;
  stats_cache = Cache.clear [] c.stats_cache;
}

-- Stats of the media cache, by the names of the caches.
unfoldable pub media_cache_stats : ℕ → MediaCache → CacheStats × CacheStats × CacheStats
media_cache_stats now c =
    (Cache.stats now c.media_cache, Cache.stats now c.dir_cache, Cache.stats now c.stats_cache)
