-- ===== src/Tests/Upload.antt =====
-- An upload of two files, of which the second one cannot be copied.
use photo_core.Base.{String, true, false, List, [], ◌∷◌, some, none, ◌≡◌, refl, concat}
use photo_core.Worker.Thumbnails.{new_thumbnail_service}
use photo_core.Web.{uploads}
use photo_core.Web.Coherence.{IsCoherent}
use photo_core.Web.{Server}
use photo_core.Web.Upload.{
  UploadConfig, UploadedFile, handle_upload, upload_into, upload_reply, upload_all, upload_file,
  typed_upload, write_upload, stat_upload, drop_upload, store_upload, saved_upload, with_duplicate,
  upload_record, count_upload, mark_duplicate, files_at, rel_path, target_path, unique_filename,
}
use photo_core.Web.Upload.Replies.{handle_upload-IsCoherent}
use photo_core.Tests.Disk.{env}
use photo_core.Tests.Storage.{program}
use photo_core.Tests.Scanner.{files, scan_program}
use photo_core.Tests.Web.{web}
use photo_core.Tests.Cached.{editor, web-IsCoherent}

abbrev pub joined : List String → String
joined [] = ""
joined (name ∷ names) = concat name (concat "/" (joined names))

abbrev pub config : UploadConfig
config = record {
  media_paths = "/m" ∷ [];
  extensions = record { images = ".jpg" ∷ []; videos = []; raw = [] };
  join = joined;
  year_of = λ now. "2024";
  month_of = λ now. "05";
  stamp = λ now. "20240501_120000";
}

abbrev sent : UploadedFile
sent = record {
  filename = "a.jpg";
  opens = true;
  creates = true;
  copies = true;
  written = "bytes";
  stat = some (5, 20);
  exif = none;
  checksum = some "c0ffee";
  image_hash = none;
  accepted = (true, true, true);
}

abbrev torn : UploadedFile
torn = record sent { filename = "b.jpg"; copies = false; written = "by" }

abbrev before : Server env
before = record { web = web; thumbs = new_thumbnail_service; files = [] }

abbrev new_id : String
new_id = "sha:/m/upload/2024/05//20240501_120000_a.jpg/"

unfoldable upload_program : Unit {0}
unfolding handle_upload upload_into upload_reply upload_all upload_file typed_upload write_upload
    stat_upload drop_upload store_upload saved_upload with_duplicate upload_record count_upload
    mark_duplicate files_at rel_path target_path unique_filename program scan_program
upload_program = tt

replied :
    (handle_upload env files config 20 true (some editor) (some (sent ∷ torn ∷ [])) before).0
    ≡ uploads 1 1 (new_id ∷ [])
unfolding upload_program
replied = refl

handle_upload-IsCoherent_example :
    IsCoherent env
      (handle_upload env files config 20 true (some editor) (some (sent ∷ torn ∷ [])) before).1.web
handle_upload-IsCoherent_example =
    handle_upload-IsCoherent env files config "/m" [] 20 true editor (sent ∷ torn ∷ []) before 1 1
      (new_id ∷ []) refl web-IsCoherent replied
