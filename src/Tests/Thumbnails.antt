-- ===== src/Tests/Thumbnails.antt =====
-- A thumbnail that is asked for twice, and one that is made while its media is deleted.
use photo_core.Base.{String, Bool, true, false, [], ◌∷◌, some, ◌≡◌, refl, ok, inl, inr, ◌==◌}
use photo_core.Storage.Models.{Media}
use photo_core.Storage.Db.{Store}
use photo_core.Storage.Library.{get_media, save_media}
use photo_core.Worker.Thumbnails.{ThumbTask, new_thumbnail_service, handle_thumbnail, set_thumb}
use photo_core.Worker.Thumbnails.Once.{
  queues, ends, thumb_run, IsTracked, thumb_run-new_thumbnail_service,
}
use photo_core.Worker.Thumbnails.Writes.{handle_thumbnail_overwrites}
use photo_core.Tests.Disk.{env, empty_db, no_media}
use photo_core.Tests.Storage.{program}

abbrev same_text : String → String → Bool
same_text s t = s == t

thumb_run_example : IsTracked (
    thumb_run same_text
      (queues true "c1" "small"
        ∷ queues true "c1" "small"
        ∷ ends (inr "corrupt") (record { media_id = "c1"; size = "small" })
        ∷ [])
      new_thumbnail_service)
thumb_run_example = thumb_run-new_thumbnail_service same_text (
    queues true "c1" "small"
    ∷ queues true "c1" "small"
    ∷ ends (inr "corrupt") (record { media_id = "c1"; size = "small" })
    ∷ [])

abbrev photo : Media
photo = record no_media { id = "0123456789abcdef"; dir = "pets" }

abbrev with_photo : Store env
with_photo = (save_media env photo empty_db).1

abbrev task : ThumbTask
task = record { media_id = "0123456789abcdef"; size = "small" }

handle_thumbnail_overwrites_example :
    get_media env
      (handle_thumbnail same_text env false
        (λ state. (state.0, empty_db))
        (inl "t.jpg")
        task
        (new_thumbnail_service, with_photo)).2
      "0123456789abcdef"
    ≡ ok (some (set_thumb "small" "t.jpg" photo))
unfolding program set_thumb
handle_thumbnail_overwrites_example =
    handle_thumbnail_overwrites same_text env (λ state. (state.0, empty_db)) "t.jpg" task
      new_thumbnail_service with_photo photo refl refl refl refl
