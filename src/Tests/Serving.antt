-- ===== src/Tests/Serving.antt =====
-- A thumbnail that is asked for after its task.
use photo_core.Base.{true, [], some, ◌≡◌, refl, starts_with}
use photo_core.Storage.Models.{Media}
use photo_core.Storage.Library.{save_media}
use photo_core.Cache
use photo_core.Cache.Media.{new_media_cache, cached_media, Moment}
use photo_core.Images.{generate_thumbnail}
use photo_core.Worker.Thumbnails.{new_thumbnail_service}
use photo_core.Web.{Server}
use photo_core.Web.Library.{view_media, view_found, read_media}
use photo_core.Web.Serving.{serve_thumbnail_with_size, media_of}
use photo_core.Web.Serving.Answers.{after_task, page_after, serve_thumbnail-after_task}
use photo_core.Tests.Disk.{env, empty_db}
use photo_core.Tests.Storage.{program}
use photo_core.Tests.Images.{imaging, cfg, picture, image_program}
use photo_core.Tests.Web.{outside}

abbrev kept : Media
kept = record picture { dir = "pets" }

abbrev with_picture : Server env
with_picture = record {
  web = record {
    store = (save_media env kept empty_db).1;
    cache = new_media_cache;
    removed = [];
    thumbs_removed = [];
  };
  thumbs = new_thumbnail_service;
  files = [];
}

abbrev moment : Moment Media
moment = outside.media_moment

picture_found : media_of (view_media env moment "0123456789abcdef" with_picture.web).0 ≡ some kept
unfolding program view_media view_found read_media cached_media Cache.get new_media_cache Cache.new
    media_of
picture_found = refl

serve_thumbnail_example :
    (serve_thumbnail_with_size env imaging moment true "0123456789abcdef" "small"
      (after_task env imaging starts_with cfg kept "small" with_picture)).0
    ≡ page_after starts_with (generate_thumbnail imaging cfg kept "small" []).0
unfolding image_program new_thumbnail_service
serve_thumbnail_example =
    serve_thumbnail-after_task env imaging starts_with cfg kept "small" with_picture moment true
      picture_found refl refl (λ text h. cc)
