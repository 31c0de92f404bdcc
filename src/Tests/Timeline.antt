-- ===== src/Tests/Timeline.antt =====
-- The timeline of a library with one media.
use photo_core.Base.{◌≡◌, refl, length}
use photo_core.Storage.Library.{list_all_media}
use photo_core.Storage.Timeline.{get_timeline, get_timeline_media}
use photo_core.Storage.Timeline.Counts.{Every, sum_counts, get_timeline-get_timeline_media}
use photo_core.Tests.Disk.{env}
use photo_core.Tests.Storage.{saved}

get_timeline_example :
    Every
      (λ g. length (get_timeline_media env saved g.date) ≡ g.media_count)
      (get_timeline env (λ m. m) saved)
    × (sum_counts (get_timeline env (λ m. m) saved) ≡ length (list_all_media env saved))
get_timeline_example = get_timeline-get_timeline_media env (λ m. m) saved (λ m h. (h, λ k. refl))
