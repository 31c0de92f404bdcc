-- ===== src/Scanner/Records.antt =====
-- internal/scanner/scanner.go and hashing.go: what the scan of a file takes from outside, its
-- counters, the types of files, and what it keeps of an old record.
use photo_core.Base.{
  ℕ, String, Bool, ◌&&◌, ◌||◌, List, [], ◌∷◌, Option, some, none, ◌==◌, eqb, ltb, if◌then◌else◌,
  lookup, insert,
}
use photo_core.Storage.Models.{Media, Time, media_type_image, media_type_video, media_type_raw}
use photo_core.Scanner.Metadata.{Exif, Formats}

-- os.FileInfo, as far as the scan reads it.
pub record FileInfo : Type 0 where
  pub name : String
  pub is_dir : Bool
  pub size : ℕ
  pub mod_time : Time

pub record Files : Type 0 where
  -- hex.EncodeToString of sha256.Sum256
  pub sha256_hex : String → String
  -- filepath.Ext, Dir, and Rel of a root and a path
  pub ext_of : String → String
  pub dir_of : String → String
  pub rel : String → String → String
  -- The EXIF data of a file, the checksum of its content and the difference hash of its image.
  pub exif : String → Option Exif
  pub content_sha256 : String → Option String
  pub difference_hash : String → Option ℕ
  pub formats : Formats
  -- The float bounds of the sizes of duplicates.
  pub min_size : ℕ → ℕ
  pub max_size : ℕ → ℕ

pub record HashResult : Type 0 where
  pub checksum : String
  pub image_hash : ℕ

pub record ScanProgress : Type 0 where
  pub running : Bool
  pub started_at : Time
  pub total_files : ℕ
  pub scanned : ℕ
  pub new_files : ℕ
  pub updated_files : ℕ
  pub skipped_duplicates : ℕ
  pub errors : ℕ
  pub current_path : String

-- What time.Now gives where the record of a file is made, and where a duplicate goes to the trash.
pub record Clock : Type 0 where
  pub created : Time
  pub trashed : Time

-- What filepath.Walk passes on: a path that it cannot read, or a path with its information.
pub data Visit : Type 0 where
  failed : String → Visit
  entry : String → FileInfo → Clock → Visit

pub record ExtensionsConfig : Type 0 where
  pub images : List String
  pub videos : List String
  pub raw : List String

-- `for _, ext := range exts { extensions[strings.ToLower(ext)] = type }`
unfoldable pub add_extensions :
    (String → String) → String → List String → List (String × String) → List (String × String)
add_extensions lower type [] m = m
add_extensions lower type (ext ∷ exts) m =
    add_extensions lower type exts (insert (lower ext) type m)

unfoldable pub extensions_of : (String → String) → ExtensionsConfig → List (String × String)
unfolding add_extensions
extensions_of lower c = add_extensions lower media_type_raw c.raw (
    add_extensions lower media_type_video c.videos
      (add_extensions lower media_type_image c.images []))

abbrev pub mime_types : List (String × String)
mime_types =
    (".jpg", "image/jpeg")
    ∷ (".jpeg", "image/jpeg")
    ∷ (".png", "image/png")
    ∷ (".gif", "image/gif")
    ∷ (".webp", "image/webp")
    ∷ (".heic", "image/heic")
    ∷ (".mp4", "video/mp4")
    ∷ (".mov", "video/quicktime")
    ∷ (".avi", "video/x-msvideo")
    ∷ (".mkv", "video/x-matroska")
    ∷ (".webm", "video/webm")
    ∷ (".raw", "image/x-raw")
    ∷ (".cr2", "image/x-canon-cr2")
    ∷ (".cr3", "image/x-canon-cr3")
    ∷ (".nef", "image/x-nikon-nef")
    ∷ (".arw", "image/x-sony-arw")
    ∷ (".dng", "image/x-adobe-dng")
    ∷ (".orf", "image/x-olympus-orf")
    ∷ (".raf", "image/x-fuji-raf")
    ∷ (".rw2", "image/x-panasonic-rw2")
    ∷ []

unfoldable pub get_mime_type : String → String
get_mime_type ext = elim (lookup ext mime_types) [
  | some mime ↦ mime
  | none ↦ "application/octet-stream"
]

-- `mediaType == storage.MediaTypeImage || mediaType == storage.MediaTypeRaw`
unfoldable pub is_image_type : String → Bool
is_image_type type = type == media_type_image || type == media_type_raw

-- Fields of the record of before; its date and metadata if it has a date.
unfoldable pub keep_old : (Time → ℕ) → Option Media → Media → Media
keep_old year none m = m
keep_old year (some old) m =
    let m' = record m {
      created_at = old.created_at;
      is_favorite = old.is_favorite;
      tags = old.tags;
      thumb_small = old.thumb_small;
      thumb_large = old.thumb_large;
      checksum = old.checksum;
      image_hash = old.image_hash;
    } in
    if ltb 1900 (year old.taken_at)
    then record m' { taken_at = old.taken_at; metadata = old.metadata }
    else m'

-- The test of a file that did not change.
unfoldable pub is_unchanged : FileInfo → Media → Bool
is_unchanged info old = eqb old.modified_at info.mod_time && eqb old.size info.size
