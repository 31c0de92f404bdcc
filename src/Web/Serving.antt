-- ===== src/Web/Serving.antt =====
-- ServeMedia and serveThumbnailWithSize of internal/web/handlers/handlers.go. That a file is not there
-- is what os.Stat says; `accepted` is what Submit returns. A log line takes the first 16 bytes of the
-- id, and panics where it is shorter, which is answered with 500.
pub mod Answers
use photo_core.Base.{
  String, Bool, ◌&&◌, not, Option, some, none, ◌==◌, ltb, len, if◌then◌else◌, lookup,
}
use photo_core.Storage.Models.{Media}
use photo_core.Storage.Db.{Env}
use photo_core.Cache.Media.{Moment}
use photo_core.Images.{Imaging, get_thumbnail_path}
use photo_core.Worker.Thumbnails.{
  ThumbnailService, thumb_key, has_failed, is_processing, queue_thumbnail,
}
use photo_core.Web.{Server, Reply, media}
use photo_core.Web.Library.{view_media}

-- A file with its content type, or an error page: 404, 422 with the text of the failure, 503 with
-- whether the thumbnail was being made already, 500.
pub data Served : Type 0 where
  file : String → String → Served
  not_found : Served
  failed : String → Served
  generating : Bool → Served
  panic : Served

-- The media that was found, in the cache or in the database.
unfoldable pub media_of : Reply → Option Media
media_of (media m) = some m
media_of _ = none

-- `if size != "small" && size != "medium" && size != "large" { size = "small" }`
unfoldable pub size_of : String → String
size_of size =
    if not (size == "small") && (not (size == "medium") && not (size == "large"))
    then "small"
    else size

-- A page whose log line takes the beginning of the id.
unfoldable pub logged : String → Served → Served
logged id page = if ltb (len id) 16 then panic else page

-- The answer where the thumbnail is not there.
unfoldable pub missing_thumbnail :
    Bool → String → String → ThumbnailService → Served × ThumbnailService
unfolding logged thumb_key has_failed is_processing queue_thumbnail
missing_thumbnail accepted id size svc =
    let (permanent, text) = has_failed (thumb_key id size) svc in
    let processing = is_processing (thumb_key id size) svc in
    if permanent
    then (logged id (failed text), svc)
    else if processing
    then (logged id (generating processing), svc)
    else (logged id (generating processing), (queue_thumbnail accepted id size svc).1)

module _ (E : Env) (I : Imaging) where
  unfoldable pub file_of : Server E → Option Media → Served
  file_of st none = not_found
  file_of st (some m) = elim (lookup m.path st.files) [
    | none ↦ not_found
    | some bytes ↦ file m.mime_type m.path
  ]

  -- ServeMedia
  unfoldable pub serve_media : Moment Media → String → Server E → Served × Server E
  unfolding file_of media_of
  serve_media t id st =
      let (reply, w) = view_media E t id st.web in
      (file_of st (media_of reply), record st { web = w })

  unfoldable pub thumbnail_at :
      Bool → String → String → ThumbnailService → Option String → Served × ThumbnailService
  unfolding missing_thumbnail
  thumbnail_at accepted id size svc (some bytes) =
      (file "image/jpeg" (get_thumbnail_path I id size), svc)
  thumbnail_at accepted id size svc none = missing_thumbnail accepted id size svc

  unfoldable pub thumbnail_of :
      Bool → String → String → Server E → Option Media → Served × ThumbnailService
  unfolding thumbnail_at
  thumbnail_of accepted id size st none = (not_found, st.thumbs)
  thumbnail_of accepted id size st (some m) =
      thumbnail_at accepted id size st.thumbs (lookup (get_thumbnail_path I id size) st.files)

  -- serveThumbnailWithSize
  unfoldable pub serve_thumbnail_with_size :
      Moment Media → Bool → String → String → Server E → Served × Server E
  unfolding thumbnail_of media_of
  serve_thumbnail_with_size t accepted id size st =
      let (reply, w) = view_media E t id st.web in
      let (page, svc) = thumbnail_of accepted id size st (media_of reply) in
      (page, record st { web = w; thumbs = svc })

  -- ServeThumbnail
  unfoldable pub serve_thumbnail : Moment Media → Bool → String → Server E → Served × Server E
  unfolding serve_thumbnail_with_size
  serve_thumbnail t accepted id = serve_thumbnail_with_size t accepted id "small"

  -- ServeThumbnailSize
  unfoldable pub serve_thumbnail_size :
      Moment Media → Bool → String → String → Server E → Served × Server E
  unfolding serve_thumbnail_with_size size_of
  serve_thumbnail_size t accepted id size = serve_thumbnail_with_size t accepted id (size_of size)
