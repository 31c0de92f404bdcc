-- ===== src/Tests/Images.antt =====
-- A thumbnail of a picture that is asked for twice, and one of a text file.
use text.Mathlib.TextPositions.{starts_with-append}
use photo_core.Base.{
  starts_with, String, lookup, true, false, [], some, none, ◌≡◌, refl, inl, inr, ◌==◌,
  if◌then◌else◌, concat,
}
use photo_core.Storage.Models.{Media, media_type_image}
use photo_core.Scanner.Detection.{
  Heads, detect_file_format, format_of, is_supported_format, format_error,
}
use photo_core.Images.{
  ImageConfig, Imaging, get_thumbnail_path, thumbnail_exists, generate_thumbnail, generate_in,
  make_thumb, load, render, encode_thumb, write_encoded, apply_orientation, max_size,
}
use photo_core.Images.Thumbs.{generate_thumbnail_twice}
use photo_core.Worker.Thumbnails.{
  ThumbnailService, has_failed, is_processing, new_thumbnail_service, thumb_key, settle_task,
  queue_thumbnail,
}
use photo_core.Worker.Thumbnails.Refusals.{queue_thumbnail-generate_thumbnail}
use photo_core.Tests.Disk.{no_media}

abbrev pub heads : Heads
heads = record {
  read_head = λ path. inl path;
  match_kind = λ head. some (
      if head == "/m/a.jpg"
      then some (record { mime = "image/jpeg"; extension = "jpg" })
      else none);
  lower = λ s. s;
  ext_of = λ path. ".jpg";
  equal_fold = λ s t. s == t;
}

abbrev pub imaging : Imaging
imaging = record {
  heads = heads;
  Image = String;
  in_cache = λ name. concat "cache/thumbs/" name;
  make_dir = none;
  create = λ path. none;
  open_image = λ path. inl path;
  decode = λ bytes. inl bytes;
  output = λ command. inr "no such program";
  flip_h = λ img. concat "flip_h " img;
  flip_v = λ img. concat "flip_v " img;
  rotate90 = λ img. concat "rotate90 " img;
  rotate180 = λ img. concat "rotate180 " img;
  rotate270 = λ img. concat "rotate270 " img;
  transpose = λ img. concat "transpose " img;
  transverse = λ img. concat "transverse " img;
  fit = λ img size. concat "small " img;
  encode = λ img quality. (img, none);
}

abbrev pub cfg : ImageConfig
cfg = record {
  small = 200;
  medium = 400;
  large = 800;
  quality = 85;
  dcraw = "dcraw";
  ffmpeg = "ffmpeg";
}

abbrev pub picture : Media
picture = record no_media { id = "0123456789abcdef"; path = "/m/a.jpg"; type = media_type_image }

abbrev text_file : Media
text_file = record picture { path = "/m/notes.jpg" }

unfoldable pub image_program : Unit {0}
unfolding generate_thumbnail generate_in make_thumb load render encode_thumb write_encoded
    apply_orientation max_size get_thumbnail_path detect_file_format format_of is_supported_format
    format_error
image_program = tt

generate_thumbnail_example :
    (thumbnail_exists imaging "0123456789abcdef" "small"
        (generate_thumbnail imaging cfg picture "small" []).1
      ≡ true)
    × ((k : String)
        → ("cache/thumbs/0123456789abcdef_small.jpg" == k) ≡ false
        → lookup k (generate_thumbnail imaging cfg picture "small" []).1 ≡ none)
    × (generate_thumbnail imaging cfg text_file "small"
          (generate_thumbnail imaging cfg picture "small" []).1
        ≡ (
          inl "cache/thumbs/0123456789abcdef_small.jpg",
          (generate_thumbnail imaging cfg picture "small" []).1,
        ))
unfolding image_program
generate_thumbnail_example =
    generate_thumbnail_twice imaging cfg cfg picture text_file "small"
      "cache/thumbs/0123456789abcdef_small.jpg" [] refl refl

abbrev failed_service : ThumbnailService
failed_service =
    settle_task starts_with (generate_thumbnail imaging cfg text_file "small" []).0
      (thumb_key "0123456789abcdef" "small") new_thumbnail_service

queue_thumbnail_example :
    (has_failed (thumb_key "0123456789abcdef" "small") failed_service ≡ (
      true,
      concat "unsupported format:" (concat " " (format_of heads ".jpg" (some none)).error),
    ))
    × (is_processing (thumb_key "0123456789abcdef" "small") failed_service ≡ false)
    × (queue_thumbnail true "0123456789abcdef" "small" failed_service ≡ (false, failed_service))
unfolding image_program
queue_thumbnail_example =
    queue_thumbnail-generate_thumbnail imaging starts_with cfg text_file "small" []
      new_thumbnail_service (format_of heads ".jpg" (some none)) true starts_with-append refl refl
      refl refl
