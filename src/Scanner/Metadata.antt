-- ===== src/Scanner/Metadata.antt =====
-- internal/scanner/metadata.go over the tags that the EXIF library finds. An Ifd gives the value of
-- the first entry of a tag, `none` where the tag or its value is missing; a value is a text, a
-- number or numbers without sign, or fractions of uint32. Floats and texts of numbers are Formats'.
use photo_core.Base.{
  ℕ, ◌/◌, String, Bool, ◌&&◌, ◌||◌, not, List, [], ◌∷◌, Option, some, none, ◌==◌, eqb, ltb,
  if◌then◌else◌, concat, leb, length, starts_with,
}
use photo_core.Storage.Models.{Media, Metadata, Time, Float64}
use photo_core.Storage.Db.{Env}

-- float64 arithmetic, Sprintf with "%.0f", "%.1f" and "%d", and time.Parse with
-- "2006:01:02 15:04:05".
pub record Formats : Type 0 where
  pub of_nat : ℕ → Float64
  pub add : Float64 → Float64 → Float64
  pub quotient : Float64 → Float64 → Float64
  pub neg : Float64 → Float64
  pub fixed_0 : Float64 → String
  pub fixed_1 : Float64 → String
  pub decimal : ℕ → String
  pub parse_time : String → Option Time

pub data Value : Type 0 where
  text : String → Value
  number : ℕ → Value
  numbers : List ℕ → Value
  ratios : List (ℕ × ℕ) → Value
  other : Value

abbrev pub Ifd : Type 0
Ifd = String → Option Value

-- The directories of exif.Collect, where the file has EXIF data that can be parsed.
pub record Exif : Type 0 where
  pub root : Ifd
  pub exif : Option Ifd
  pub gps : Option Ifd

unfoldable pub to_int : Value → ℕ
to_int (number n) = n
to_int (numbers (n ∷ ns)) = n
to_int _ = 0

-- `val.(string)`
unfoldable pub as_text : Option Value → Option String
as_text (some (text s)) = some s
as_text _ = none

-- `val.([]exifcommon.Rational)`
unfoldable pub as_ratios : Option Value → List (ℕ × ℕ)
as_ratios (some (ratios l)) = l
as_ratios _ = []

unfoldable pub or_empty : Option String → String
or_empty none = ""
or_empty (some s) = s

module _ (E : Env) (F : Formats) where
  unfoldable pub parse_exif_date_time : String → Option Time
  parse_exif_date_time s =
      let s' = E.trim_space s in
      if s' == "" || s' == "0000:00:00 00:00:00" then none else F.parse_time s'

  unfoldable pub set_date : Option String → Media → Media
  unfolding parse_exif_date_time
  set_date none m = m
  set_date (some s) m = elim (parse_exif_date_time s) [
    | none ↦ m
    | some t ↦ record m { taken_at = t }
  ]

  -- A date that is taken only where there is none.
  unfoldable pub set_missing_date : Option String → Media → Media
  unfolding set_date
  set_missing_date s m = if eqb m.taken_at 0 then set_date s m else m

  unfoldable pub set_width : Option Value → Media → Media
  set_width none m = m
  set_width (some v) m = record m { width = to_int v }

  unfoldable pub set_height : Option Value → Media → Media
  set_height none m = m
  set_height (some v) m = record m { height = to_int v }

  unfoldable pub set_missing_width : Option Value → Media → Media
  unfolding set_width
  set_missing_width v m = if eqb m.width 0 then set_width v m else m

  unfoldable pub set_missing_height : Option Value → Media → Media
  unfolding set_height
  set_missing_height v m = if eqb m.height 0 then set_height v m else m

  unfoldable pub ratio : ℕ × ℕ → Float64
  ratio (n, d) = F.quotient (F.of_nat n) (F.of_nat d)

  unfoldable pub set_focal_length : List (ℕ × ℕ) → Metadata → Metadata
  set_focal_length [] x = x
  set_focal_length (r ∷ rs) x = record x { focal_length = concat (F.fixed_0 (ratio r)) "mm" }

  unfoldable pub set_aperture : List (ℕ × ℕ) → Metadata → Metadata
  set_aperture [] x = x
  set_aperture (r ∷ rs) x = record x { aperture = concat "f/" (F.fixed_1 (ratio r)) }

  -- `none` is the panic of the integer division `denom/num` at a numerator of 0.
  unfoldable pub set_shutter_speed : List (ℕ × ℕ) → Metadata → Option Metadata
  set_shutter_speed [] x = some x
  set_shutter_speed ((num, denom) ∷ rs) x =
      if ltb num denom
      then (if eqb num 0
          then none
          else some (record x { shutter_speed = concat "1/" (F.decimal (denom / num)) }))
      else some (record x { shutter_speed = concat (F.fixed_1 (ratio (num, denom))) "s" })

  unfoldable pub set_iso : Option Value → Metadata → Metadata
  set_iso none x = x
  set_iso (some v) x = record x { iso = to_int v }

  unfoldable pub set_lens : Option String → Metadata → Metadata
  set_lens none x = x
  set_lens (some s) x = record x { lens = E.trim_space s }

  unfoldable pub extract_exif_tags : Ifd → Media → Option Media
  unfolding set_date set_missing_date set_width set_height set_focal_length set_aperture
      set_shutter_speed set_iso set_lens as_text as_ratios
  extract_exif_tags ifd m =
      let dated =
        set_missing_date (as_text (ifd "DateTimeDigitized"))
          (set_date (as_text (ifd "DateTimeOriginal")) m) in
      let sized = set_height (ifd "PixelYDimension") (set_width (ifd "PixelXDimension") dated) in
      let x =
        set_aperture (as_ratios (ifd "FNumber"))
          (set_focal_length (as_ratios (ifd "FocalLength")) sized.metadata) in
      elim (set_shutter_speed (as_ratios (ifd "ExposureTime")) x) [
        | none ↦ none
        | some x' ↦ some (record sized {
          metadata = set_lens (as_text (ifd "LensModel")) (set_iso (ifd "ISOSpeedRatings") x');
        })
      ]

  -- The camera: the model, behind the maker's name unless the model begins with it.
  unfoldable pub camera_name : String → String → String → String
  camera_name make model old =
      if not (make == "") && not (model == "")
      then (if starts_with (E.to_lower model) (E.to_lower make)
          then model
          else concat make (concat " " model))
      else if not (model == "")
      then model
      else if not (make == "")
      then make
      else old

  unfoldable pub set_orientation : Option Value → Metadata → Metadata
  set_orientation none x = x
  set_orientation (some v) x = record x { orientation = to_int v }

  unfoldable pub trimmed : Option String → String
  trimmed none = ""
  trimmed (some s) = E.trim_space s

  unfoldable pub extract_ifd0_tags : Ifd → Media → Media
  unfolding as_text trimmed camera_name set_orientation set_missing_date set_missing_width
      set_missing_height
  extract_ifd0_tags ifd m =
      let x = record m.metadata {
        camera =
            camera_name (trimmed (as_text (ifd "Make"))) (trimmed (as_text (ifd "Model")))
              m.metadata.camera;
      } in
      let m' = record m { metadata = set_orientation (ifd "Orientation") x } in
      let dated = set_missing_date (as_text (ifd "DateTime")) m' in
      set_missing_height (ifd "ImageLength") (set_missing_width (ifd "ImageWidth") dated)

  unfoldable pub dms_to_decimal : List (ℕ × ℕ) → String → Float64
  unfolding ratio
  dms_to_decimal (degrees ∷ minutes ∷ seconds ∷ rest) ref =
      let decimal =
        F.add (F.add (ratio degrees) (F.quotient (ratio minutes) (F.of_nat 60)))
          (F.quotient (ratio seconds) (F.of_nat 3600)) in
      if ref == "S" || ref == "W" then F.neg decimal else decimal
  dms_to_decimal _ ref = 0

  unfoldable pub has_three : List (ℕ × ℕ) → Bool
  has_three l = leb 3 (length l)

  unfoldable pub extract_gps_tags : Ifd → Media → Media
  unfolding as_text as_ratios or_empty dms_to_decimal has_three
  extract_gps_tags ifd m =
      let lat = as_ratios (ifd "GPSLatitude") in
      let lon = as_ratios (ifd "GPSLongitude") in
      if has_three lat && has_three lon
      then record m {
        metadata = record m.metadata {
          gps_lat = dms_to_decimal lat (or_empty (as_text (ifd "GPSLatitudeRef")));
          gps_lon = dms_to_decimal lon (or_empty (as_text (ifd "GPSLongitudeRef")));
        };
      }
      else m

  unfoldable pub extract_exif_ifd : Option Ifd → Media → Option Media
  unfolding extract_exif_tags
  extract_exif_ifd none m = some m
  extract_exif_ifd (some ifd) m = extract_exif_tags ifd m

  unfoldable pub extract_gps_ifd : Option Ifd → Media → Media
  unfolding extract_gps_tags
  extract_gps_ifd none m = m
  extract_gps_ifd (some ifd) m = extract_gps_tags ifd m

  unfoldable pub extract_from_index : Exif → Media → Option Media
  unfolding extract_exif_ifd extract_ifd0_tags extract_gps_ifd
  extract_from_index index m = elim (extract_exif_ifd index.exif m) [
    | none ↦ none
    | some m' ↦ some (extract_gps_ifd index.gps (extract_ifd0_tags index.root m'))
  ]

  -- ExtractMetadata; `none` where there is no EXIF data to read. The one error that it can return,
  -- of a standard table, is only logged.
  unfoldable pub extract_metadata : Option Exif → Media → Option Media
  unfolding extract_from_index
  extract_metadata none m = some m
  extract_metadata (some index) m = extract_from_index index m
