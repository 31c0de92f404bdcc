-- ===== src/Scanner/Keys.antt =====
-- The metadata and hashes that a scan adds leave what tells a file and its version.
use photo_core.Base.{
  ℕ, String, Option, some, none, ◌≡◌, refl, ap, ◌∙◌, arith, Option-cases, inl, inr,
}
use photo_core.Storage.Models.{Media, Time}
use photo_core.Storage.Db.{Env}
use photo_core.Scanner.Metadata.{
  Exif, Formats, Value, Ifd, set_date, set_missing_date, set_width, set_height, set_missing_width,
  set_missing_height, trimmed, camera_name, set_orientation, extract_exif_tags, extract_ifd0_tags,
  extract_gps_tags, extract_exif_ifd, extract_gps_ifd, extract_from_index, extract_metadata,
  parse_exif_date_time, as_text,
}
use photo_core.Scanner.Records.{Files, FileInfo, keep_old, is_image_type}
use photo_core.Scanner.Files.{with_metadata, new_media, with_hashes, generate_id, calculate_hashes}

-- What tells a file and its version: its id, its size, its time, and whether it is in the trash.
abbrev pub key : Media → String × ℕ × Time × Option Time
key m = (m.id, m.size, m.modified_at, m.deleted_at)

abbrev pub place : Media → (String × ℕ × Time × Option Time) × String
place m = (key m, m.path)

module _ (E : Env) (F : Formats) where
  place-set_date : (s : Option String) (m : Media) → place (set_date E F s m) ≡ place m
  unfolding set_date
  place-set_date none m = refl
  place-set_date (some s) m = ground (arith, Option-cases (parse_exif_date_time E F s))

  place-set_missing_date :
      (s : Option String) (m : Media) → place (set_missing_date E F s m) ≡ place m
  unfolding set_missing_date
  place-set_missing_date s m = ground (arith, place-set_date s m)

  place-set_width : (v : Option Value) (m : Media) → place (set_width E F v m) ≡ place m
  unfolding set_width
  place-set_width none m = refl
  place-set_width (some v) m = refl

  place-set_height : (v : Option Value) (m : Media) → place (set_height E F v m) ≡ place m
  unfolding set_height
  place-set_height none m = refl
  place-set_height (some v) m = refl

  place-set_missing_width :
      (v : Option Value) (m : Media) → place (set_missing_width E F v m) ≡ place m
  unfolding set_missing_width
  place-set_missing_width v m = ground (arith, place-set_width v m)

  place-set_missing_height :
      (v : Option Value) (m : Media) → place (set_missing_height E F v m) ≡ place m
  unfolding set_missing_height
  place-set_missing_height v m = ground (arith, place-set_height v m)

  place-extract_exif_tags :
      (ifd : Ifd) (m m' : Media) → extract_exif_tags E F ifd m ≡ some m' → place m' ≡ place m
  unfolding extract_exif_tags
  place-extract_exif_tags ifd m m' h =
      let first = set_date E F (as_text (ifd "DateTimeOriginal")) m in
      let dated = set_missing_date E F (as_text (ifd "DateTimeDigitized")) first in
      let wide = set_width E F (ifd "PixelXDimension") dated in
      let sized = set_height E F (ifd "PixelYDimension") wide in
      let same : place m' ≡ place sized = ground arith in
      same
      ∙ place-set_height (ifd "PixelYDimension") wide
      ∙ place-set_width (ifd "PixelXDimension") dated
      ∙ place-set_missing_date (as_text (ifd "DateTimeDigitized")) first
      ∙ place-set_date (as_text (ifd "DateTimeOriginal")) m

  place-extract_ifd0_tags : (ifd : Ifd) (m : Media) → place (extract_ifd0_tags E F ifd m) ≡ place m
  unfolding extract_ifd0_tags
  place-extract_ifd0_tags ifd m =
      let x = record m.metadata {
        camera =
            camera_name E F (trimmed E F (as_text (ifd "Make")))
              (trimmed E F (as_text (ifd "Model"))) m.metadata.camera;
      } in
      let m' = record m { metadata = set_orientation E F (ifd "Orientation") x } in
      let dated = set_missing_date E F (as_text (ifd "DateTime")) m' in
      let wide = set_missing_width E F (ifd "ImageWidth") dated in
      place-set_missing_height (ifd "ImageLength") wide
      ∙ place-set_missing_width (ifd "ImageWidth") dated
      ∙ place-set_missing_date (as_text (ifd "DateTime")) m'

  place-extract_gps_ifd :
      (gps : Option Ifd) (m : Media) → place (extract_gps_ifd E F gps m) ≡ place m
  unfolding extract_gps_ifd extract_gps_tags
  place-extract_gps_ifd none m = refl
  place-extract_gps_ifd (some ifd) m = ground arith

  place-extract_exif_ifd :
      (exif : Option Ifd) (m m' : Media)
      → extract_exif_ifd E F exif m ≡ some m'
      → place m' ≡ place m
  unfolding extract_exif_ifd
  place-extract_exif_ifd none m m' h = ground arith
  place-extract_exif_ifd (some ifd) m m' h = place-extract_exif_tags ifd m m' h

  pub place-extract_metadata :
      (x : Option Exif) (m m' : Media) → extract_metadata E F x m ≡ some m' → place m' ≡ place m
  unfolding extract_metadata extract_from_index
  place-extract_metadata none m m' h = ground arith
  place-extract_metadata (some x) m m' h = elim (Option-cases (extract_exif_ifd E F x.exif m)) [
    | inl e ↦ absurd (ground arith)
    | inr (n, e) ↦
        let last : m' ≡ extract_gps_ifd E F x.gps (extract_ifd0_tags E F x.root n) = ground arith in
        ap place last
        ∙ place-extract_gps_ifd x.gps (extract_ifd0_tags E F x.root n)
        ∙ place-extract_ifd0_tags x.root n
        ∙ place-extract_exif_ifd x.exif m n e
  ]

module _ (E : Env) (F : Files) where
  pub place-with_hashes : (m : Media) → place (with_hashes E F m) ≡ place m
  unfolding with_hashes
  place-with_hashes m =
      ground (arith, Option-cases (calculate_hashes E F m.path (is_image_type m.type)))

  pub place-with_metadata :
      (old : Option Media) (m m' : Media) → with_metadata E F old m ≡ some m' → place m' ≡ place m
  unfolding with_metadata
  place-with_metadata none m m' h =
      ground (arith, place-extract_metadata E F.formats (F.exif m.path) m m')
  place-with_metadata (some old) m m' h = ground arith

  place-keep_old : (old : Option Media) (m : Media) → place (keep_old E.year old m) ≡ place m
  unfolding keep_old
  place-keep_old none m = refl
  place-keep_old (some old) m = ground arith

  place-new_media :
      (abs_path path : String) (info : FileInfo) (type : String) (now : Time)
      → place (new_media E F abs_path path info type now)
        ≡ ((generate_id E F path, info.size, info.mod_time, none), path)
  unfolding new_media
  place-new_media abs_path path info type now = refl

  -- The record of a file has the id of the path, the path, and the file's size and time.
  pub place-record :
      (abs_path path : String) (info : FileInfo) (type : String) (now : Time) (old : Option Media)
      (m : Media)
      → with_metadata E F old (keep_old E.year old (new_media E F abs_path path info type now))
        ≡ some m
      → place (with_hashes E F m) ≡ ((generate_id E F path, info.size, info.mod_time, none), path)
  place-record abs_path path info type now old m h =
      let made = new_media E F abs_path path info type now in
      place-with_hashes m
      ∙ place-with_metadata old (keep_old E.year old made) m h
      ∙ place-keep_old old made
      ∙ place-new_media abs_path path info type now

  pub key-record :
      (abs_path path : String) (info : FileInfo) (type : String) (now : Time) (old : Option Media)
      (m : Media)
      → with_metadata E F old (keep_old E.year old (new_media E F abs_path path info type now))
        ≡ some m
      → key (with_hashes E F m) ≡ (generate_id E F path, info.size, info.mod_time, none)
  key-record abs_path path info type now old m h =
      ap (λ x. x.0) (place-record abs_path path info type now old m h)
