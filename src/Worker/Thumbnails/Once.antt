-- ===== src/Worker/Thumbnails/Once.antt =====
-- The tasks of the thumbnail service, over any sequence of its steps.
use photo_core.Base.{
  String, Bool, true, false, not, List, [], ◌∷◌, ◌≡◌, refl, arith, ◌==◌, eq_iff, eq_refl,
  if◌then◌else◌, lookup-insert, lookup-remove, insert, any, select, ◌⊎◌, inl, inr,
}
use photo_core.Worker.Thumbnails.{
  ThumbTask, ThumbnailService, thumb_key, new_thumbnail_service, is_processing, has_failed,
  clear_processing, mark_as_failed, queue_thumbnail, end_processing, settle_task,
}

-- A call of QueueThumbnail with what Submit returns, or the end of the handler of a task.
pub data ThumbEvent : Type 0 where
  queues : Bool → String → String → ThumbEvent
  ends : String ⊎ String → ThumbTask → ThumbEvent

abbrev pub key_of : ThumbTask → String
key_of t = thumb_key t.media_id t.size

-- Whether the pool has a task for the key.
unfoldable pub is_pending : String → ThumbnailService → Bool
is_pending k svc = any (λ t. key_of t == k) svc.tasks

-- No two tasks have the same key.
unfoldable pub IsDistinct : List ThumbTask → Type 0
IsDistinct [] = Unit
IsDistinct (t ∷ tasks) = (any (λ u. key_of u == key_of t) tasks ≡ false) × IsDistinct tasks

unfoldable pub drop_task : String → ThumbnailService → ThumbnailService
drop_task k svc = record svc { tasks = select (λ t. not (key_of t == k)) svc.tasks }

unfoldable pub thumb_step :
    (String → String → Bool) → ThumbEvent → ThumbnailService → ThumbnailService
thumb_step has_text (queues accepted id size) svc = (queue_thumbnail accepted id size svc).1
thumb_step has_text (ends made task) svc =
    settle_task has_text made (key_of task) (drop_task (key_of task) svc)

unfoldable pub thumb_run :
    (String → String → Bool) → List ThumbEvent → ThumbnailService → ThumbnailService
unfolding thumb_step
thumb_run has_text [] svc = svc
thumb_run has_text (e ∷ events) svc = thumb_run has_text events (thumb_step has_text e svc)

pub record IsTracked (svc : ThumbnailService) : Type 0 where
  pub distinct : IsDistinct svc.tasks
  pub processed : (k : String) → is_processing k svc ≡ is_pending k svc
  pub live : (k : String) → (has_failed k svc).0 ≡ true → is_pending k svc ≡ false

queue_thumbnail-IsTracked :
    (accepted : Bool) (id size : String) (svc : ThumbnailService)
    → IsTracked svc
    → IsTracked (queue_thumbnail accepted id size svc).1
unfolding queue_thumbnail is_processing has_failed is_pending IsDistinct clear_processing
queue_thumbnail-IsTracked accepted id size svc h =
    let k = thumb_key id size in
    record {
      distinct = ground (arith, h.distinct, h.processed k);
      processed = λ j. ground (
        arith,
        h.processed j,
        h.processed k,
        eq_iff k j,
        lookup-insert k j true svc.processing,
        lookup-remove k j (insert k true svc.processing),
      );
      live = λ j e. ground (arith, h.live j, h.live k, eq_iff k j);
    }

any-select_key :
    (k j : String) (tasks : List ThumbTask)
    → any (λ t. key_of t == j) (select (λ t. not (key_of t == k)) tasks)
      ≡ (if k == j then false else any (λ t. key_of t == j) tasks)
any-select_key k j [] = ground arith
any-select_key k j (t ∷ tasks) =
    ground (arith, any-select_key k j tasks, eq_iff (key_of t) k, eq_iff (key_of t) j, eq_iff k j)

drop_task-IsDistinct :
    (k : String) (tasks : List ThumbTask)
    → IsDistinct tasks
    → IsDistinct (select (λ t. not (key_of t == k)) tasks)
unfolding IsDistinct
drop_task-IsDistinct k [] h = tt
drop_task-IsDistinct k (t ∷ tasks) h = ground (
  arith,
  drop_task-IsDistinct k tasks h.1,
  any-select_key k (key_of t) tasks,
  eq_iff (key_of t) k,
  eq_iff k (key_of t),
)

settle_task-IsTracked :
    (has_text : String → String → Bool) (made : String ⊎ String) (task : ThumbTask)
    (svc : ThumbnailService)
    → IsTracked svc
    → IsTracked (settle_task has_text made (key_of task) (drop_task (key_of task) svc))
unfolding settle_task end_processing mark_as_failed drop_task is_processing has_failed is_pending
    clear_processing
settle_task-IsTracked has_text (inl path) task svc h =
    let k = key_of task in
    record {
      distinct = ground (arith, drop_task-IsDistinct k svc.tasks h.distinct);
      processed = λ j. ground (
        arith,
        h.processed j,
        h.processed k,
        h.live k,
        eq_iff k j,
        lookup-remove k j svc.processing,
        any-select_key k j svc.tasks,
      );
      live = λ j e. ground (arith, h.live j, any-select_key k j svc.tasks);
    }
settle_task-IsTracked has_text (inr text) task svc h =
    let k = key_of task in
    record {
      distinct = ground (arith, drop_task-IsDistinct k svc.tasks h.distinct);
      processed = λ j. ground (
        arith,
        h.processed j,
        h.processed k,
        h.live k,
        eq_iff k j,
        eq_refl k,
        lookup-remove k j svc.processing,
        lookup-insert k k text svc.failed,
        any-select_key k j svc.tasks,
      );
      live = λ j e. ground (
        arith,
        h.live j,
        eq_iff k j,
        lookup-insert k j text svc.failed,
        any-select_key k j svc.tasks,
      );
    }

new_thumbnail_service-IsTracked : IsTracked new_thumbnail_service
unfolding new_thumbnail_service is_processing has_failed is_pending IsDistinct
new_thumbnail_service-IsTracked = record {
  distinct = tt;
  processed = λ k. refl;
  live = λ k e. refl;
}

thumb_run-IsTracked :
    (has_text : String → String → Bool) (events : List ThumbEvent) (svc : ThumbnailService)
    → IsTracked svc
    → IsTracked (thumb_run has_text events svc)
unfolding thumb_run thumb_step
thumb_run-IsTracked has_text [] svc h = h
thumb_run-IsTracked has_text (queues accepted id size ∷ events) svc h =
    thumb_run-IsTracked has_text events _ (queue_thumbnail-IsTracked accepted id size svc h)
thumb_run-IsTracked has_text (ends made task ∷ events) svc h =
    thumb_run-IsTracked has_text events _ (settle_task-IsTracked has_text made task svc h)

-- After any calls of QueueThumbnail and any ends of handlers on a new service, no thumbnail has
-- two tasks, the thumbnails that are marked as being processed are those that have a task, and one
-- that failed for good has none.
pub thumb_run-new_thumbnail_service :
    (has_text : String → String → Bool) (events : List ThumbEvent)
    → IsTracked (thumb_run has_text events new_thumbnail_service)
thumb_run-new_thumbnail_service has_text events =
    thumb_run-IsTracked has_text events new_thumbnail_service new_thumbnail_service-IsTracked
