-- ===== src/Scanner/Detection.antt =====
-- internal/scanner/format.go: the format that the first bytes of a file show, against its name.
use photo_core.Base.{
  String, Bool, false, ◌||◌, not, List, [], ◌∷◌, Option, some, none, ◌==◌, any, concat,
  if◌then◌else◌, ◌⊎◌, inl, inr,
}

-- types.Type of the filetype library: the MIME type and the extension without its dot.
pub record Kind : Type 0 where
  pub mime : String
  pub extension : String

-- What the detection takes from outside.
pub record Heads : Type 0 where
  -- The first 512 bytes of a file, or the text of the error of os.Open or of Read.
  pub read_head : String → String ⊎ String
  -- filetype.Match: `none` is an error, `some none` is Unknown.
  pub match_kind : String → Option (Option Kind)
  pub lower : String → String
  pub ext_of : String → String
  -- strings.EqualFold
  pub equal_fold : String → String → Bool

pub record FormatInfo : Type 0 where
  pub detected_mime : String
  pub detected_extension : String
  pub claimed_extension : String
  pub is_valid : Bool
  pub is_supported : Bool
  pub error : String

abbrev supported_images : List String
supported_images =
    "image/jpeg" ∷ "image/jpg" ∷ "image/png" ∷ "image/gif" ∷ "image/webp" ∷ "image/heic"
    ∷ "image/heif" ∷ "image/bmp" ∷ "image/tiff" ∷ "image/x-icon" ∷ []

abbrev supported_videos : List String
supported_videos =
    "video/mp4" ∷ "video/quicktime" ∷ "video/x-msvideo" ∷ "video/x-matroska" ∷ "video/webm"
    ∷ "video/mpeg" ∷ []

abbrev raw_extensions : List String
raw_extensions =
    ".cr2" ∷ ".cr3" ∷ ".nef" ∷ ".nrw" ∷ ".arw" ∷ ".dng" ∷ ".orf" ∷ ".raf" ∷ ".rw2" ∷ ".raw" ∷ ".srf"
    ∷ []

unfoldable pub is_supported_format : (String → String) → String → String → Bool
is_supported_format lower mime ext =
    any (λ m. m == mime) supported_images
    || any (λ m. m == mime) supported_videos
    || any (λ e. e == lower ext) raw_extensions

-- The text for a type that was found.
unfoldable pub format_error : Bool → Bool → String → String → String → String
format_error is_valid is_supported claimed detected mime =
    let mismatch =
      if is_valid
      then ""
      else concat "extension mismatch: file claims " (
          concat claimed
            (concat " but contains " (concat detected (concat " (" (concat mime ")"))))) in
    let between = if mismatch == "" then "" else concat mismatch "; " in
    if is_supported then mismatch else concat between (concat "unsupported format: " mime)

-- The information on a file whose head was read.
unfoldable pub format_of : Heads → String → Option (Option Kind) → FormatInfo
unfolding is_supported_format format_error
format_of h claimed none = record {
  detected_mime = "";
  detected_extension = "";
  claimed_extension = claimed;
  is_valid = false;
  is_supported = false;
  error = "failed to detect file type";
}
format_of h claimed (some none) = record {
  detected_mime = "";
  detected_extension = "";
  claimed_extension = claimed;
  is_valid = false;
  is_supported = false;
  error = "unknown file format";
}
format_of h claimed (some (some kind)) =
    let detected = concat "." kind.extension in
    let valid = h.equal_fold claimed detected in
    let supported = is_supported_format h.lower kind.mime detected in
    record {
      detected_mime = kind.mime;
      detected_extension = detected;
      claimed_extension = claimed;
      is_valid = valid;
      is_supported = supported;
      error = format_error valid supported claimed detected kind.mime;
    }

-- DetectFileFormat; on the right is the text of an error.
unfoldable pub detect_file_format : Heads → String → FormatInfo ⊎ String
unfolding format_of
detect_file_format h path = elim (h.read_head path) [
  | inl head ↦ inl (format_of h (h.lower (h.ext_of path)) (h.match_kind head))
  | inr text ↦ inr text
]

-- ValidateMediaFile, with the text of its error.
unfoldable pub validate_media_file : Heads → String → Option String
unfolding detect_file_format
validate_media_file h path = elim (detect_file_format h path) [
  | inr text ↦ some text
  | inl info ↦
      if not info.is_valid
      then some (concat "invalid file: " info.error)
      else if not info.is_supported
      then some (concat "unsupported format: " info.error)
      else none
]
