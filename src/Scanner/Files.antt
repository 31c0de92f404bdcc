-- ===== src/Scanner/Files.antt =====
-- internal/scanner/scanner.go: the scan of one file, with the hashes of hashing.go.
use photo_core.Base.{
  ◌+◌, String, Bool, false, not, List, [], Option, some, none, ◌==◌, if◌then◌else◌, Result, ok, err,
  lookup,
}
use photo_core.Storage.Models.{Media, Time}
use photo_core.Storage.Db.{Env, Store}
use photo_core.Storage.Library.{get_media, save_media, soft_delete_media, is_live}
use photo_core.Storage.Duplicates.{check_duplicate}
use photo_core.Scanner.Metadata.{extract_metadata}
use photo_core.Scanner.Records.{
  FileInfo, Files, HashResult, ScanProgress, Clock, Visit, failed, entry, get_mime_type,
  is_image_type, keep_old, is_unchanged,
}

module _ (E : Env) (F : Files) where
  unfoldable pub generate_id : String → String
  generate_id path = F.sha256_hex path

  unfoldable pub get_media_by_path : Store E → String → Result (Option Media)
  unfolding generate_id
  get_media_by_path s path = get_media E s (generate_id path)

  -- CalculateHashes: an image hash that cannot be had is 0.
  unfoldable pub calculate_hashes : String → Bool → Option HashResult
  calculate_hashes path is_image = elim (F.content_sha256 path) [
    | none ↦ none
    | some checksum ↦ some (record {
      checksum = checksum;
      image_hash = if is_image then elim (F.difference_hash path) [ none ↦ 0 | some h ↦ h ] else 0;
    })
  ]

  unfoldable pub new_media : String → String → FileInfo → String → Time → Media
  unfolding get_mime_type generate_id
  new_media abs_path path info type now = record {
    id = generate_id path;
    path = path;
    rel_path = F.rel abs_path path;
    dir = F.dir_of (F.rel abs_path path);
    filename = info.name;
    ext = E.to_lower (F.ext_of path);
    type = type;
    mime_type = get_mime_type (E.to_lower (F.ext_of path));
    size = info.size;
    width = 0;
    height = 0;
    duration = 0;
    taken_at = 0;
    created_at = now;
    modified_at = info.mod_time;
    deleted_at = none;
    checksum = "";
    image_hash = 0;
    duplicate_of = "";
    thumb_small = "";
    thumb_large = "";
    metadata = record {
      camera = "";
      lens = "";
      focal_length = "";
      aperture = "";
      shutter_speed = "";
      iso = 0;
      gps_lat = 0;
      gps_lon = 0;
      orientation = 0;
    };
    is_favorite = false;
    tags = [];
  }

  -- Metadata are read for new images; `none` is the panic of ExtractMetadata.
  unfoldable pub with_metadata : Option Media → Media → Option Media
  with_metadata (some old) m = some m
  with_metadata none m =
      if is_image_type m.type then extract_metadata E F.formats (F.exif m.path) m else some m

  unfoldable pub with_hashes : Media → Media
  unfolding calculate_hashes is_image_type
  with_hashes m =
      if m.checksum == ""
      then elim (calculate_hashes m.path (is_image_type m.type)) [
        | none ↦ m
        | some h ↦ record m { checksum = h.checksum; image_hash = h.image_hash }
      ]
      else m

  unfoldable pub count_saved : Option Media → Result (Unit {0}) → ScanProgress → ScanProgress
  count_saved old (err e) p = record p { errors = p.errors + 1 }
  count_saved none (ok _) p = record p { new_files = p.new_files + 1 }
  count_saved (some old) (ok _) p = record p { updated_files = p.updated_files + 1 }

  unfoldable pub save_scanned :
      Option Media → Media → ScanProgress × Store E → ScanProgress × Store E
  unfolding count_saved
  save_scanned old m (p, s) = let (saved, s') = save_media E m s in (count_saved old saved p, s')

  -- A duplicate is saved with the id of what it doubles, and moved to the trash.
  unfoldable pub save_duplicate :
      Time → String → Media → ScanProgress × Store E → ScanProgress × Store E
  save_duplicate now original m (p, s) =
      let (saved, s') = save_media E (record m { duplicate_of = original }) s in
      elim saved [
        | err e ↦ (p, s')
        | ok _ ↦ (
          record p { skipped_duplicates = p.skipped_duplicates + 1 },
          (soft_delete_media E now m.id s').1,
        )
      ]

  unfoldable pub store_file :
      Clock → Option Media → Media → ScanProgress × Store E → ScanProgress × Store E
  unfolding save_duplicate save_scanned
  store_file now (some old) m (p, s) = save_scanned (some old) m (p, s)
  store_file now none m (p, s) =
      let found =
        check_duplicate F.min_size F.max_size E s m.size m.checksum m.image_hash
          (is_image_type m.type) 10 in
      if found.is_duplicate
      then save_duplicate now.trashed found.existing_id m (p, s)
      else save_scanned none m (p, s)

  -- The record of a file that is new or changed. `none` is a panic.
  unfoldable pub update_record :
      String
      → String
      → FileInfo
      → String
      → Clock
      → Option Media
      → ScanProgress × Store E
      → Option (ScanProgress × Store E)
  unfolding keep_old new_media with_metadata with_hashes store_file
  update_record abs_path path info type now old state =
      elim (with_metadata old
        (keep_old E.year old (new_media abs_path path info type now.created))) [
          | none ↦ none
          | some m ↦ some (store_file now old (with_hashes m) state)
        ]

  unfoldable pub scan_found :
      String
      → String
      → FileInfo
      → String
      → Clock
      → Result (Option Media)
      → ScanProgress × Store E
      → Option (ScanProgress × Store E)
  unfolding update_record is_unchanged
  scan_found abs_path path info type now (err e) (p, s) =
      some (record p { errors = p.errors + 1 }, s)
  scan_found abs_path path info type now (ok none) state =
      update_record abs_path path info type now none state
  scan_found abs_path path info type now (ok (some old)) state =
      if not (is_live old)
      then some state
      else if is_unchanged info old
      then some state
      else update_record abs_path path info type now (some old) state

  -- The function that scan gives to filepath.Walk, behind its test of the stop channel.
  unfoldable pub scan_file :
      List (String × String)
      → String
      → Visit
      → ScanProgress × Store E
      → Option (ScanProgress × Store E)
  unfolding scan_found get_media_by_path
  scan_file extensions abs_path (failed path) (p, s) = some (record p { errors = p.errors + 1 }, s)
  scan_file extensions abs_path (entry path info now) (p, s) =
      if info.is_dir then some (p, s) else elim (lookup (E.to_lower (F.ext_of path)) extensions) [
        | none ↦ some (p, s)
        | some type ↦ scan_found abs_path path info type now (get_media_by_path s path) (
          record p {
            total_files = p.total_files + 1;
            scanned = p.scanned + 1;
            current_path = path;
          },
          s,
        )
      ]
