-- ===== src/Worker/Thumbnails/Writes.antt =====
-- What the handler writes into the database.
use photo_core.Base.{String, Bool, false, some, ◌≡◌, eq_iff, ltb, len, ok, arith, inl}
use photo_core.Storage.Models.{Media}
use photo_core.Storage.Db.{Env, Store}
use photo_core.Storage.Library.{get_media, save_media}
use photo_core.Storage.Library.Laws.{get_media-save_media}
use photo_core.Worker.Thumbnails.{
  ThumbTask, ThumbnailService, handle_thumbnail, finish_thumbnail, set_thumb,
}

id-set_thumb : (size path : String) (m : Media) → (set_thumb size path m).id ≡ m.id
unfolding set_thumb
id-set_thumb size path m = ground arith

module _ (has_text : String → String → Bool) (E : Env) where
  -- When the handler makes a thumbnail and can save, the record of the media is afterwards the one
  -- that it read before the generator ran, with the path: whatever others wrote into the record
  -- in between is lost, and a media that was deleted in between is there again.
  pub handle_thumbnail_overwrites :
      (between : ThumbnailService × Store E → ThumbnailService × Store E) (path : String)
      (task : ThumbTask) (svc : ThumbnailService) (s : Store E) (m : Media)
      → get_media E s task.media_id ≡ ok (some m)
      → m.id ≡ task.media_id
      → ltb (len task.media_id) 16 ≡ false
      → (save_media E (set_thumb task.size path m) (between (svc, s)).1).0 ≡ ok tt
      → get_media E
          (handle_thumbnail has_text E false between (inl path) task (svc, s)).2
          task.media_id
        ≡ ok (some (set_thumb task.size path m))
  unfolding handle_thumbnail finish_thumbnail
  handle_thumbnail_overwrites between path task svc s m found keyed long saved =
      rw (found, handle_thumbnail, long)
        (ground (
          arith,
          (get_media-save_media E (set_thumb task.size path m) (between (svc, s)).1 task.media_id
              saved).0,
          id-set_thumb task.size path m,
          eq_iff m.id task.media_id,
        ))
