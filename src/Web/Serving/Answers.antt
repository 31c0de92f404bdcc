-- ===== src/Web/Serving/Answers.antt =====
-- How a request for a thumbnail is answered after its task, from internal/web/handlers/handlers.go
-- through internal/media/thumbnail.go to internal/worker/thumbnail_worker.go.
use photo_core.Base.{
  String, Bool, false, List, some, none, ◌≡◌, refl, sym, ap, ◌∙◌, ltb, len, if◌then◌else◌, lookup,
  lookup-insert, lookup-remove, eq_refl, ◌⊎◌, inl, inr, arith, Bool-cases,
}
use photo_core.Storage.Models.{Media}
use photo_core.Storage.Db.{Env}
use photo_core.Cache.Media.{Moment}
use photo_core.Images.{Imaging, ImageConfig, get_thumbnail_path, generate_thumbnail}
use photo_core.Images.Thumbs.{generate_thumbnail_found}
use photo_core.Worker.Thumbnails.{
  ThumbnailService, thumb_key, has_failed, is_processing, settle_task, is_permanent_error,
  end_processing, clear_processing, mark_as_failed,
}
use photo_core.Web.{Server}
use photo_core.Web.Library.{view_media}
use photo_core.Web.Serving.{
  thumbnail_at, Served, file, failed, generating, logged, missing_thumbnail, thumbnail_of,
  serve_thumbnail_with_size, media_of,
}

-- What a request finds after a task that ended so.
unfoldable pub page_after : (String → String → Bool) → String ⊎ String → Served
page_after has_text (inl path) = file "image/jpeg" path
page_after has_text (inr text) =
    if is_permanent_error has_text text then failed text else generating false

missing_after :
    (has_text : String → String → Bool) (accepted : Bool) (id size text : String)
    (svc : ThumbnailService)
    → ltb (len id) 16 ≡ false
    → lookup (thumb_key id size) svc.failed ≡ none
    → (missing_thumbnail accepted id size
        (settle_task has_text (inr text) (thumb_key id size) svc)).0
      ≡ page_after has_text (inr text)
unfolding missing_thumbnail page_after settle_task end_processing clear_processing mark_as_failed
    has_failed is_processing logged
missing_after has_text accepted id size text svc long fresh =
    let k = thumb_key id size in
    elim (Bool-cases (is_permanent_error has_text text)) [
      | inl e ↦ rw e (ground (arith, long, lookup-insert k k text svc.failed, eq_refl k))
      | inr e ↦ rw e (ground (arith, long, fresh, lookup-remove k k svc.processing, eq_refl k))
    ]

module _ (E : Env) (I : Imaging) (has_text : String → String → Bool) where
  -- The server after the end of the task of a thumbnail, but for the record of the media, in which
  -- the handler saves the path and which the answers do not read.
  unfoldable pub after_task : ImageConfig → Media → String → Server E → Server E
  after_task cfg m size st =
      let (made, files) = generate_thumbnail I cfg m size st.files in
      record st {
        thumbs = settle_task has_text made (thumb_key m.id size) st.thumbs;
        files = files;
      }

  answered :
      (m : Media) (accepted : Bool) (size : String) (st : Server E) (made : String ⊎ String)
      (files : List (String × String))
      → ltb (len m.id) 16 ≡ false
      → lookup (thumb_key m.id size) st.thumbs.failed ≡ none
      → ((path : String)
          → made ≡ inl path
          → (path ≡ get_thumbnail_path I m.id size)
            × (bytes : String) × (lookup (get_thumbnail_path I m.id size) files ≡ some bytes))
      → ((text : String) → made ≡ inr text → lookup (get_thumbnail_path I m.id size) files ≡ none)
      → (thumbnail_of E I accepted m.id size
          (record st {
            thumbs = settle_task has_text made (thumb_key m.id size) st.thumbs;
            files = files;
          })
          (some m)).0
        ≡ page_after has_text made
  unfolding thumbnail_of thumbnail_at page_after
  answered m accepted size st (inl path) files long fresh there absent =
      let (at, bytes, found) = there path refl in
      ap
        (λ o.
          (thumbnail_at E I accepted m.id size
            (settle_task has_text (inl path) (thumb_key m.id size) st.thumbs) o).0)
        found
      ∙ ap (file "image/jpeg") (sym at)
  answered m accepted size st (inr text) files long fresh there absent =
      ap
        (λ o.
          (thumbnail_at E I accepted m.id size
            (settle_task has_text (inr text) (thumb_key m.id size) st.thumbs) o).0)
        (absent text refl)
      ∙ missing_after has_text accepted m.id size text st.thumbs long fresh

  -- After the task of a thumbnail that had not failed for good before, a request for it is answered
  -- with the file if the generator made it, with 422 and the text if it failed for good, and with
  -- 503 if it failed otherwise, where a failure left no file and the media is still found under an
  -- id of 16 bytes or more.
  pub serve_thumbnail-after_task :
      (cfg : ImageConfig) (m : Media) (size : String) (st : Server E) (t : Moment Media)
      (accepted : Bool)
      → media_of (view_media E t m.id st.web).0 ≡ some m
      → ltb (len m.id) 16 ≡ false
      → lookup (thumb_key m.id size) st.thumbs.failed ≡ none
      → ((text : String)
          → (generate_thumbnail I cfg m size st.files).0 ≡ inr text
          → lookup (get_thumbnail_path I m.id size) (generate_thumbnail I cfg m size st.files).1
            ≡ none)
      → (serve_thumbnail_with_size E I t accepted m.id size (after_task cfg m size st)).0
        ≡ page_after has_text (generate_thumbnail I cfg m size st.files).0
  unfolding serve_thumbnail_with_size after_task
  serve_thumbnail-after_task cfg m size st t accepted found long fresh absent =
      let (made, files) = generate_thumbnail I cfg m size st.files in
      let st' = after_task cfg m size st in
      ap (λ o. (thumbnail_of E I accepted m.id size st' o).0) found
      ∙ answered m accepted size st made files long fresh
          (λ path h. generate_thumbnail_found I cfg m size path st.files h) absent
