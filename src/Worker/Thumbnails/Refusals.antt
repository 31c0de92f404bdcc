-- ===== src/Worker/Thumbnails/Refusals.antt =====
-- A file whose format internal/scanner does not support, through the generator of internal/media to
-- the record of failures of internal/worker/thumbnail_worker.go.
use photo_core.Base.{
  String, Bool, true, false, List, [], ◌∷◌, ◌++◌, some, none, ◌≡◌, ◌∙◌, ap, lookup, lookup-insert,
  lookup-remove, eq_refl, concat, any, inl, inr, arith,
}
use photo_core.Storage.Models.{Media}
use photo_core.Scanner.Detection.{FormatInfo, detect_file_format}
use photo_core.Images.{
  ImageConfig, Imaging, get_thumbnail_path, make_thumb, generate_in, generate_thumbnail,
}
use photo_core.Worker.Thumbnails.{
  ThumbnailService, thumb_key, has_failed, is_processing, clear_processing, mark_as_failed,
  end_processing, settle_task, is_permanent_error, queue_thumbnail,
}

any-last :
    (test : String → Bool) (before : List String) (last : String)
    → test last ≡ true
    → any test (before ++ last ∷ []) ≡ true
any-last test [] last h = ground (arith, h)
any-last test (x ∷ before) last h = ground (arith, any-last test before last h)

is_permanent_error-unsupported :
    (has_text : String → String → Bool) (text : String)
    → has_text text "unsupported format:" ≡ true
    → is_permanent_error has_text text ≡ true
unfolding is_permanent_error
is_permanent_error-unsupported has_text text h =
    any-last (has_text text)
      ("unknown format" ∷ "unsupported media type" ∷ "image: unknown format" ∷ "invalid JPEG"
        ∷ "invalid PNG" ∷ "corrupt" ∷ "format detection failed" ∷ [])
      "unsupported format:" h

settle_task-refused :
    (has_text : String → String → Bool) (text k : String) (svc : ThumbnailService)
    → is_permanent_error has_text text ≡ true
    → lookup k (settle_task has_text (inr text) k svc).failed ≡ some text
unfolding settle_task mark_as_failed end_processing
settle_task-refused has_text text k svc h =
    ground (arith, h, lookup-insert k k text svc.failed, eq_refl k)

make_thumb-unsupported :
    (I : Imaging) (cfg : ImageConfig) (m : Media) (size : String) (files : List (String × String))
    (info : FormatInfo)
    → info.is_supported ≡ false
    → make_thumb I cfg m size (inl info) files
      ≡ (inr (concat "unsupported format:" (concat " " info.error)), files)
unfolding make_thumb
make_thumb-unsupported I cfg m size files info h = ground (arith, h)

generate_thumbnail-unsupported :
    (I : Imaging) (cfg : ImageConfig) (m : Media) (size : String) (files : List (String × String))
    (info : FormatInfo)
    → I.make_dir ≡ none
    → lookup (get_thumbnail_path I m.id size) files ≡ none
    → detect_file_format I.heads m.path ≡ inl info
    → info.is_supported ≡ false
    → generate_thumbnail I cfg m size files
      ≡ (inr (concat "unsupported format:" (concat " " info.error)), files)
unfolding generate_thumbnail generate_in
generate_thumbnail-unsupported I cfg m size files info dir absent detected unsupported =
    ap (λ d. generate_in I cfg m size d (lookup (get_thumbnail_path I m.id size) files) files) dir
    ∙ ap (λ o. generate_in I cfg m size none o files) absent
    ∙ ap (λ i. make_thumb I cfg m size i files) detected
    ∙ make_thumb-unsupported I cfg m size files info unsupported

queue_thumbnail-failed :
    (accepted : Bool) (id size text : String) (svc : ThumbnailService)
    → lookup (thumb_key id size) svc.failed ≡ some text
    → queue_thumbnail accepted id size svc ≡ (false, svc)
unfolding queue_thumbnail has_failed
queue_thumbnail-failed accepted id size text svc h = ground (arith, h)

has_failed-some :
    (k text : String) (svc : ThumbnailService)
    → lookup k svc.failed ≡ some text
    → has_failed k svc ≡ (true, text)
unfolding has_failed
has_failed-some k text svc h = ground (arith, h)

is_processing-settle_task :
    (has_text : String → String → Bool) (text k : String) (svc : ThumbnailService)
    → is_permanent_error has_text text ≡ true
    → is_processing k (settle_task has_text (inr text) k svc) ≡ false
unfolding is_processing settle_task mark_as_failed end_processing clear_processing
is_processing-settle_task has_text text k svc h =
    ground
      (arith, h, lookup-insert k k text svc.failed, lookup-remove k k svc.processing, eq_refl k)

-- A thumbnail that is not there yet, of a media whose format is not supported, fails for good: when
-- its task ends it is recorded as failed under the text of the error, is no more marked as being
-- processed, and QueueThumbnail refuses it and changes nothing, given that a text contains what it
-- begins with.
pub queue_thumbnail-generate_thumbnail :
    (I : Imaging) (has_text : String → String → Bool) (cfg : ImageConfig) (m : Media)
    (size : String) (files : List (String × String)) (svc : ThumbnailService) (info : FormatInfo)
    (accepted : Bool)
    → ((beginning rest : String) → has_text (concat beginning rest) beginning ≡ true)
    → I.make_dir ≡ none
    → lookup (get_thumbnail_path I m.id size) files ≡ none
    → detect_file_format I.heads m.path ≡ inl info
    → info.is_supported ≡ false
    → let k = thumb_key m.id size in
      let svc' = settle_task has_text (generate_thumbnail I cfg m size files).0 k svc in
      (has_failed k svc' ≡ (true, concat "unsupported format:" (concat " " info.error)))
      × (is_processing k svc' ≡ false)
      × (queue_thumbnail accepted m.id size svc' ≡ (false, svc'))
queue_thumbnail-generate_thumbnail I has_text cfg m size files svc info accepted contains dir absent
      detected unsupported =
    let text = concat "unsupported format:" (concat " " info.error) in
    let made =
      generate_thumbnail-unsupported I cfg m size files info dir absent detected unsupported in
    let k = thumb_key m.id size in
    let svc' = settle_task has_text (generate_thumbnail I cfg m size files).0 k svc in
    let permanent =
      is_permanent_error-unsupported has_text text
        (contains "unsupported format:" (concat " " info.error)) in
    let recorded : lookup k svc'.failed ≡ some text =
      ap (λ r. lookup k (settle_task has_text r.0 k svc).failed) made
      ∙ settle_task-refused has_text text k svc permanent in
    (
      has_failed-some k text svc' recorded,
      ap (λ r. is_processing k (settle_task has_text r.0 k svc)) made
          ∙ is_processing-settle_task has_text text k svc permanent,
      queue_thumbnail-failed accepted m.id size text svc' recorded,
    )
