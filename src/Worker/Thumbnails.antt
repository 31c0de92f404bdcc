-- ===== src/Worker/Thumbnails.antt =====
-- internal/worker/thumbnail_worker.go: the tasks that are pending or failed for good, and the handler
-- that writes the path of a thumbnail into the record of its media. `tasks` lists the tasks that
-- the pool has accepted and not finished.
pub mod Once
pub mod Writes
pub mod Refusals
use photo_core.Base.{
  ℕ, ◌+◌, String, Bool, true, false, List, [], ◌∷◌, some, none, ◌==◌, ltb, if◌then◌else◌, ok, err,
  lookup, insert, remove, concat, len, length, any, ◌⊎◌, inl, inr,
}
use photo_core.Storage.Models.{Media}
use photo_core.Storage.Db.{Env, Store}
use photo_core.Storage.Library.{get_media, save_media, list_all_media}

pub record ThumbTask : Type 0 where
  pub media_id : String
  pub size : String

pub record ThumbnailService : Type 0 where
  pub processing : List (String × Bool)
  pub failed : List (String × String)
  pub tasks : List ThumbTask

abbrev pub permanent_errors : List String
permanent_errors =
    "unknown format" ∷ "unsupported media type" ∷ "image: unknown format" ∷ "invalid JPEG"
    ∷ "invalid PNG" ∷ "corrupt" ∷ "format detection failed" ∷ "unsupported format:" ∷ []

-- `mediaID + ":" + size`
unfoldable pub thumb_key : String → String → String
thumb_key media_id size = concat media_id (concat ":" size)

unfoldable pub new_thumbnail_service : ThumbnailService
new_thumbnail_service = record { processing = []; failed = []; tasks = [] }

-- IsProcessing
unfoldable pub is_processing : String → ThumbnailService → Bool
is_processing k svc = elim (lookup k svc.processing) [ none ↦ false | some b ↦ b ]

-- HasFailed, with the message.
unfoldable pub has_failed : String → ThumbnailService → Bool × String
has_failed k svc = elim (lookup k svc.failed) [ none ↦ (false, "") | some text ↦ (true, text) ]

-- ProcessingCount
unfoldable pub processing_count : ThumbnailService → ℕ
processing_count svc = length svc.processing

unfoldable pub clear_processing : String → ThumbnailService → ThumbnailService
clear_processing k svc = record svc { processing = remove k svc.processing }

-- markAsFailed
unfoldable pub mark_as_failed : String → String → ThumbnailService → ThumbnailService
mark_as_failed k text svc = record svc {
  failed = insert k text svc.failed;
  processing = remove k svc.processing;
}

-- isPermanentError of an error's text; strings.Contains is a parameter.
unfoldable pub is_permanent_error : (String → String → Bool) → String → Bool
is_permanent_error has_text text = any (has_text text) permanent_errors

-- QueueThumbnail; `accepted` is what Submit returns.
unfoldable pub queue_thumbnail : Bool → String → String → ThumbnailService → Bool × ThumbnailService
unfolding has_failed is_processing clear_processing
queue_thumbnail accepted media_id size svc =
    let k = thumb_key media_id size in
    let marked = record svc { processing = insert k true svc.processing } in
    if (has_failed k svc).0
    then (false, svc)
    else if is_processing k svc
    then (false, svc)
    else if accepted
    then (true, record marked { tasks = record { media_id = media_id; size = size } ∷ svc.tasks })
    else (false, clear_processing k marked)

-- QueueBatch, with what Submit returns for each id.
unfoldable pub queue_batch :
    List (String × Bool) → String → ℕ → ThumbnailService → ℕ × ThumbnailService
unfolding queue_thumbnail
queue_batch [] size queued svc = (queued, svc)
queue_batch ((id, accepted) ∷ ids) size queued svc =
    let (done, svc') = queue_thumbnail accepted id size svc in
    queue_batch ids size (if done then queued + 1 else queued) svc'

-- QueueAllThumbnails
unfoldable pub queue_all_thumbnails :
    Bool × Bool × Bool → String → ThumbnailService → ThumbnailService
unfolding queue_thumbnail
queue_all_thumbnails (a, b, c) media_id svc =
    (queue_thumbnail c media_id "large"
      (queue_thumbnail b media_id "medium" (queue_thumbnail a media_id "small" svc).1).1).1

-- The loop of PregenerateThumbnails over all live media; `exists` is ThumbnailExists for the small
-- size and `accepts` what Submit returns.
unfoldable pub pregenerate_from :
    (String → Bool) → (String → Bool) → List Media → ThumbnailService → ThumbnailService
unfolding queue_thumbnail
pregenerate_from exists accepts [] svc = svc
pregenerate_from exists accepts (m ∷ ms) svc =
    let queued = (queue_thumbnail (accepts m.id) m.id "small" svc).1 in
    pregenerate_from exists accepts ms (if exists m.id then svc else queued)

unfoldable pub pregenerate_thumbnails :
    (E : Env) → (String → Bool) → (String → Bool) → Store E → ThumbnailService → ThumbnailService
unfolding pregenerate_from
pregenerate_thumbnails E exists accepts s = pregenerate_from exists accepts (list_all_media E s)

-- The deferred function of the handler: a failure for good has cleared the entry itself.
unfoldable pub end_processing : String → ThumbnailService → ThumbnailService
unfolding has_failed clear_processing
end_processing k svc = if (has_failed k svc).0 then svc else clear_processing k svc

-- `switch task.Size`
unfoldable pub set_thumb : String → String → Media → Media
set_thumb size path m =
    if size == "small"
    then record m { thumb_small = path }
    else if size == "large"
    then record m { thumb_large = path }
    else m

-- How the handler ends: with a path, with an error, or with the panic of `MediaID[:16]`.
pub data Handled : Type 0 where
  success : String → Handled
  failure : Handled
  panic : Handled

-- What the generator's answer, a path or the text of an error, does to the service, up to the end of
-- the handler.
unfoldable pub settle_task :
    (String → String → Bool) → String ⊎ String → String → ThumbnailService → ThumbnailService
unfolding end_processing mark_as_failed is_permanent_error
settle_task has_text (inl path) k svc = end_processing k svc
settle_task has_text (inr text) k svc =
    end_processing k (if is_permanent_error has_text text then mark_as_failed k text svc else svc)

module _ (has_text : String → String → Bool) (E : Env) where
  -- The end of handleThumbnail, after the generator, with the database of that time.
  unfoldable pub finish_thumbnail :
      ThumbTask
      → Media
      → String ⊎ String
      → ThumbnailService × Store E
      → Handled × ThumbnailService × Store E
  unfolding thumb_key settle_task set_thumb
  finish_thumbnail task m (inl path) (svc, s) = (
    success path,
    settle_task has_text (inl path) (thumb_key task.media_id task.size) svc,
    (save_media E (set_thumb task.size path m) s).1,
  )
  finish_thumbnail task m (inr text) (svc, s) =
      (failure, settle_task has_text (inr text) (thumb_key task.media_id task.size) svc, s)

  -- handleThumbnail; `between` is what others do to the service and the database while the
  -- generator runs.
  unfoldable pub handle_thumbnail :
      Bool
      → (ThumbnailService × Store E → ThumbnailService × Store E)
      → String ⊎ String
      → ThumbTask
      → ThumbnailService × Store E
      → Handled × ThumbnailService × Store E
  unfolding thumb_key end_processing finish_thumbnail
  handle_thumbnail cancelled between made task (svc, s) =
      let ended = end_processing (thumb_key task.media_id task.size) svc in
      elim (get_media E s task.media_id) [
        | err e ↦ (failure, ended, s)
        | ok none ↦ (failure, ended, s)
        | ok (some m) ↦
            if cancelled
            then (failure, ended, s)
            else if ltb (len task.media_id) 16
            then (panic, ended, s)
            else finish_thumbnail task m made (between (svc, s))
      ]
