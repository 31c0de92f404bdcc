-- ===== src/Tests/Scanner.antt =====
-- One new file, scanned twice, with a Stop in between.
use photo_core.Base.{
  ◌+◌, ◌≤◌, String, true, false, List, [], ◌∷◌, some, none, ◌≡◌, refl, arith, concat,
}
use photo_core.Storage.Models.{Media}
use photo_core.Storage.Library.{save_media}
use photo_core.Scanner.Metadata.{Formats}
use photo_core.Disk.Table.{rows, decode_all}
use photo_core.Storage.Library.{list_all_media}
use photo_core.Storage.Duplicates.{
  check_duplicate, check_similar, first_with_checksum, first_near, find_media_by_size_range,
}
use photo_core.Scanner.Metadata.{extract_metadata}
use photo_core.Scanner.Walks.{
  is_stopped, after_file, visit_file, start, close_channel, renew_channel, look, locked, finish,
  step,
}
use photo_core.Scanner.Records.{extensions_of, get_mime_type, is_image_type, keep_old, is_unchanged}
use photo_core.Scanner.Files.{
  generate_id, get_media_by_path, calculate_hashes, new_media, with_metadata, with_hashes,
  count_saved, save_scanned, save_duplicate, store_file, update_record, scan_found,
}
use photo_core.Scanner.Records.{Files, FileInfo, Clock, ScanProgress, Visit, entry}
use photo_core.Scanner.Files.{scan_file}
use photo_core.Scanner.Walks.{
  Scanner, Event, starts, closes, renews, looks, visits, ends, new_scanner, run, started_progress,
}
use photo_core.Scanner.Stops.{run-after_file}
use photo_core.Scanner.Counts.{run-new_scanner_counts}
use photo_core.Scanner.Rescans.{scan_file-scan_file}
use photo_core.Tests.Disk.{env, empty_db}
use photo_core.Tests.Storage.{program}

unfoldable pub scan_program : Unit {0}
unfolding extensions_of get_mime_type is_image_type keep_old is_unchanged generate_id
    get_media_by_path calculate_hashes new_media with_metadata with_hashes count_saved save_scanned
    save_duplicate store_file update_record scan_found scan_file check_duplicate check_similar
    first_with_checksum first_near find_media_by_size_range list_all_media rows decode_all
    extract_metadata is_stopped after_file visit_file start close_channel renew_channel look locked
    finish step run started_progress new_scanner
scan_program = tt

abbrev formats : Formats
formats = record {
  of_nat = λ n. n;
  add = λ a b. a + b;
  quotient = λ a b. a;
  neg = λ a. a;
  fixed_0 = λ a. "";
  fixed_1 = λ a. "";
  decimal = λ n. "";
  parse_time = λ s. none;
}

abbrev pub files : Files
files = record {
  sha256_hex = λ path. concat "sha:" path;
  ext_of = λ path. ".jpg";
  dir_of = λ path. ".";
  rel = λ root path. path;
  exif = λ path. none;
  content_sha256 = λ path. some "c0ffee";
  difference_hash = λ path. some 5;
  formats = formats;
  min_size = λ n. n;
  max_size = λ n. n;
}

abbrev extensions : List (String × String)
extensions = (".jpg", "image") ∷ []

abbrev info : FileInfo
info = record { name = "a.jpg"; is_dir = false; size = 7; mod_time = 3 }

abbrev clock : Clock
clock = record { created = 8; trashed = 9 }

abbrev visit : Visit
visit = entry "a.jpg" info clock

abbrev events : List Event
events =
    starts 1 ∷ looks ∷ visits "/m" visit ∷ closes ∷ renews ∷ looks ∷ visits "/m" visit ∷ ends ∷ []

abbrev photo : Media
photo = record {
  id = "sha:a.jpg";
  path = "a.jpg";
  rel_path = "a.jpg";
  dir = ".";
  filename = "a.jpg";
  ext = ".jpg";
  type = "image";
  mime_type = "image/jpeg";
  size = 7;
  width = 0;
  height = 0;
  duration = 0;
  taken_at = 0;
  created_at = 8;
  modified_at = 3;
  deleted_at = none;
  checksum = "c0ffee";
  image_hash = 5;
  duplicate_of = "";
  thumb_small = "";
  thumb_large = "";
  metadata = record {
    camera = "";
    lens = "";
    focal_length = "";
    aperture = "";
    shutter_speed = "";
    iso = 0;
    gps_lat = 0;
    gps_lon = 0;
    orientation = 0;
  };
  is_favorite = false;
  tags = [];
}

abbrev begun : ScanProgress
begun = record {
  running = true;
  started_at = 1;
  total_files = 0;
  scanned = 0;
  new_files = 0;
  updated_files = 0;
  skipped_duplicates = 0;
  errors = 0;
  current_path = "";
}

abbrev counted : ScanProgress
counted = record begun { total_files = 1; scanned = 1; new_files = 1; current_path = "a.jpg" }

first_scan :
    scan_file env files extensions "/m" visit (begun, empty_db)
    ≡ some (counted, (save_media env photo empty_db).1)
unfolding program scan_program
first_scan = refl

abbrev second : Clock
second = record { created = 18; trashed = 19 }

scan_file-scan_file_example :
    scan_file env files extensions "/m"
      (entry "a.jpg" info second)
      (counted, (save_media env photo empty_db).1)
    ≡ some (
      record counted { total_files = 2; scanned = 2; current_path = "a.jpg" },
      (save_media env photo empty_db).1,
    )
scan_file-scan_file_example =
    scan_file-scan_file env files extensions "/m" "a.jpg" info clock second begun counted counted
      empty_db (save_media env photo empty_db).1 first_scan (omega arith)

abbrev scanned_twice : Scanner env
scanned_twice = record {
  scanning = false;
  progress = record counted { running = false; total_files = 2; scanned = 2 };
  stop_chan = 1;
  closed = 0 ∷ [];
  stopping = false;
  looked = 1;
  store = (save_media env photo empty_db).1;
}

whole_run :
    run env files extensions events (new_scanner env files extensions empty_db) ≡ some scanned_twice
unfolding program scan_program
whole_run = refl

run-new_scanner_counts_example :
    (scanned_twice.progress.total_files ≡ scanned_twice.progress.scanned)
    × (scanned_twice.progress.new_files + scanned_twice.progress.updated_files
          + scanned_twice.progress.skipped_duplicates
        ≤ scanned_twice.progress.scanned)
run-new_scanner_counts_example =
    run-new_scanner_counts env files extensions events empty_db scanned_twice whole_run

abbrev stopped : List Event
stopped = starts 1 ∷ looks ∷ visits "/m" visit ∷ closes ∷ renews ∷ []

abbrev after_stop : Scanner env
after_stop = record scanned_twice { scanning = true; progress = counted; looked = 0 }

stopped_run :
    run env files extensions stopped (new_scanner env files extensions empty_db) ≡ some after_stop
unfolding program scan_program
stopped_run = refl

run-after_file_example :
    run env files extensions (looks ∷ visits "/m" visit ∷ []) after_stop
    ≡ after_file env files extensions
        (record after_stop { looked = 1 })
        (scan_file env files extensions "/m" visit (counted, (save_media env photo empty_db).1))
run-after_file_example =
    run-after_file env files extensions stopped empty_db after_stop "/m" visit stopped_run refl
