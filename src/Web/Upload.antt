-- ===== src/Web/Upload.antt =====
-- UploadMedia of internal/web/handlers/handlers.go. The texts of its messages are left out; a panic
-- is answered with 500 by the recovering middleware, and what was done before it stays.
pub mod Loops
pub mod Kept
pub mod Replies
use photo_core.Base.{
  ℕ, ◌+◌, String, Bool, false, ltb, List, [], ◌∷◌, ◌++◌, Option, some, none, if◌then◌else◌, Result,
  ok, err, concat, lookup, insert, remove,
}
use photo_core.Storage.Models.{Media, Session, Time}
use photo_core.Storage.Db.{Env, Store}
use photo_core.Storage.Library.{save_media, is_live}
use photo_core.Storage.Duplicates.{DuplicateCheckResult, check_duplicate}
use photo_core.Cache.Media.{clear_all}
use photo_core.Scanner.Metadata.{Exif}
use photo_core.Scanner.Records.{
  Files, FileInfo, ExtensionsConfig, extensions_of, get_mime_type, is_image_type,
}
use photo_core.Scanner.Files.{new_media, with_metadata, with_hashes}
use photo_core.Worker.Thumbnails.{queue_all_thumbnails}
use photo_core.Web.{Server, Reply, error, uploads}

-- The configuration, filepath.Join, and Time.Format with "2006", "01" and "20060102_150405".
pub record UploadConfig : Type 0 where
  pub media_paths : List String
  pub extensions : ExtensionsConfig
  pub join : List String → String
  pub year_of : Time → String
  pub month_of : Time → String
  pub stamp : Time → String

-- A file of the form: whether it can be opened, created and copied, what is then written, what
-- os.Stat says of it, what its content gives, and what Submit returns for its three thumbnails.
pub record UploadedFile : Type 0 where
  pub filename : String
  pub opens : Bool
  pub creates : Bool
  pub copies : Bool
  pub written : String
  pub stat : Option (ℕ × Time)
  pub exif : Option Exif
  pub checksum : Option String
  pub image_hash : Option ℕ
  pub accepted : Bool × Bool × Bool

pub data Outcome : Type 0 where
  saved : String → Outcome
  refused : Outcome
  panicked : Outcome

pub record Tally : Type 0 where
  pub uploaded : ℕ
  pub errors : ℕ
  pub media_ids : List String

-- The texts of the path of an upload.
unfoldable pub unique_filename : UploadConfig → Time → String → String
unique_filename p now filename = concat (p.stamp now) (concat "_" filename)

unfoldable pub target_path : UploadConfig → String → Time → String → String
unfolding unique_filename
target_path p base now filename = p.join (
    p.join (base ∷ "upload" ∷ p.year_of now ∷ p.month_of now ∷ [])
    ∷ unique_filename p now filename
    ∷ [])

unfoldable pub rel_path : UploadConfig → Time → String → String
unfolding unique_filename
rel_path p now filename =
    p.join ("upload" ∷ p.year_of now ∷ p.month_of now ∷ unique_filename p now filename ∷ [])

-- What the scanner's functions read of the file.
unfoldable pub files_at : Files → UploadedFile → Files
files_at F u = record F {
  exif = λ path. u.exif;
  content_sha256 = λ path. u.checksum;
  difference_hash = λ path. u.image_hash;
}

-- A duplicate goes to the trash with the id of what it doubles.
unfoldable pub mark_duplicate : Time → DuplicateCheckResult → Media → Media
mark_duplicate now found m =
    if found.is_duplicate
    then record m { duplicate_of = found.existing_id; deleted_at = some now }
    else m

unfoldable pub count_upload : Outcome → Tally → Option Tally
count_upload (saved id) t =
    some (record t { uploaded = t.uploaded + 1; media_ids = t.media_ids ++ id ∷ [] })
count_upload refused t = some (record t { errors = t.errors + 1 })
count_upload panicked t = none

module _ (E : Env) where
  -- SaveMedia and what follows it.
  unfoldable pub saved_upload :
      String → UploadedFile → Media → Result (Unit {0}) × Store E → Server E → Outcome × Server E
  saved_upload path u m (err e, s) st = (
    refused,
    record st {
      web = record st.web { store = s; removed = path ∷ st.web.removed };
      files = remove path st.files;
    },
  )
  saved_upload path u m (ok _, s) st = (
    saved m.id,
    record st {
      web = record st.web { store = s };
      thumbs = if is_live m then queue_all_thumbnails u.accepted m.id st.thumbs else st.thumbs;
    },
  )

  -- os.Remove of what was written.
  unfoldable pub drop_upload : String → Server E → Outcome × Server E
  drop_upload path st = (
    refused,
    record st {
      web = record st.web { removed = path ∷ st.web.removed };
      files = remove path st.files;
    },
  )

  -- The caches are cleared if something was uploaded.
  unfoldable pub upload_reply : Option Tally × Server E → Reply × Server E
  upload_reply (none, st) = (error 500, st)
  upload_reply (some t, st) =
      let cleared = record st { web = record st.web { cache = clear_all st.web.cache } } in
      (uploads t.uploaded t.errors t.media_ids, if ltb 0 t.uploaded then cleared else st)

module _ (E : Env) (F : Files) (p : UploadConfig) where
  -- The record before the metadata and the hashes.
  unfoldable pub upload_record : String → Time → UploadedFile → String → ℕ × Time → Media
  unfolding new_media target_path rel_path unique_filename get_mime_type
  upload_record base now u type (size, mod_time) =
      let path = target_path p base now u.filename in
      let ext = E.to_lower (F.ext_of u.filename) in
      let info : FileInfo = record {
        name = unique_filename p now u.filename;
        is_dir = false;
        size = size;
        mod_time = mod_time;
      } in
      record (new_media E F base path info type now) {
        rel_path = rel_path p now u.filename;
        dir = F.dir_of (rel_path p now u.filename);
        ext = ext;
        mime_type = get_mime_type ext;
      }

  unfoldable pub with_duplicate : Time → Store E → Media → Media
  unfolding mark_duplicate is_image_type
  with_duplicate now s m =
      mark_duplicate now
        (check_duplicate F.min_size F.max_size E s m.size m.checksum m.image_hash
          (is_image_type m.type) 10)
        m

  -- The record of a file that stands under its path.
  unfoldable pub store_upload :
      String → Time → UploadedFile → Option Media → Server E → Outcome × Server E
  unfolding with_hashes files_at with_duplicate saved_upload
  store_upload path now u none st = (panicked, st)
  store_upload path now u (some m) st =
      let m' = with_duplicate now st.web.store (with_hashes E (files_at F u) m) in
      saved_upload E path u m' (save_media E m' st.web.store) st

  unfoldable pub stat_upload :
      String → Time → UploadedFile → String → Option (ℕ × Time) → Server E → Outcome × Server E
  unfolding upload_record with_metadata files_at store_upload target_path drop_upload
  stat_upload base now u type none st = drop_upload E (target_path p base now u.filename) st
  stat_upload base now u type (some stat) st =
      store_upload (target_path p base now u.filename) now u
        (with_metadata E (files_at F u) none (upload_record base now u type stat)) st

  -- The file is written under its path.
  unfoldable pub write_upload :
      String → Time → UploadedFile → String → Server E → Outcome × Server E
  unfolding stat_upload target_path drop_upload
  write_upload base now u type st =
      let path = target_path p base now u.filename in
      let st' = record st { files = insert path u.written st.files } in
      if u.copies then stat_upload base now u type u.stat st' else drop_upload E path st'

  unfoldable pub typed_upload :
      String → Time → UploadedFile → Option String → Server E → Outcome × Server E
  unfolding write_upload
  typed_upload base now u none st = (refused, st)
  typed_upload base now u (some type) st =
      if u.opens
      then if u.creates then write_upload base now u type st else (refused, st)
      else (refused, st)

  -- The body of the loop over the files.
  unfoldable pub upload_file :
      List (String × String) → String → Time → UploadedFile → Server E → Outcome × Server E
  unfolding typed_upload
  upload_file extensions base now u =
      typed_upload base now u (lookup (E.to_lower (F.ext_of u.filename)) extensions)

  unfoldable pub upload_all :
      List (String × String)
      → String
      → Time
      → List UploadedFile
      → Tally
      → Server E
      → Option Tally × Server E
  unfolding upload_file count_upload
  upload_all extensions base now [] t st = (some t, st)
  upload_all extensions base now (u ∷ us) t st =
      let (outcome, st') = upload_file extensions base now u st in
      elim (count_upload outcome t) [
        | none ↦ (none, st')
        | some t' ↦ upload_all extensions base now us t' st'
      ]

  unfoldable pub upload_into :
      Time → Bool → List UploadedFile → List String → Server E → Reply × Server E
  unfolding upload_reply upload_all
  upload_into now made us [] st = (error 500, st)
  upload_into now made us (base ∷ bases) st =
      if made
      then upload_reply E (
          upload_all (extensions_of E.to_lower p.extensions) base now us
            (record { uploaded = 0; errors = 0; media_ids = [] }) st)
      else (error 500, st)

  -- UploadMedia: `form` is `none` where the form cannot be parsed, `made` says whether os.MkdirAll
  -- succeeds; without a media path the handler panics.
  unfoldable pub handle_upload :
      Time → Bool → Option Session → Option (List UploadedFile) → Server E → Reply × Server E
  unfolding upload_into
  handle_upload now made none form st = (error 401, st)
  handle_upload now made (some x) none st = (error 400, st)
  handle_upload now made (some x) (some []) st = (error 400, st)
  handle_upload now made (some x) (some (u ∷ us)) st =
      upload_into now made (u ∷ us) p.media_paths st
