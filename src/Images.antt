-- ===== src/Images.antt =====
-- internal/media/thumbnail.go: the thumbnails of images, RAW files and videos, as files under their
-- paths. The image libraries, the programs dcraw and ffmpeg and the file system are parameters; a
-- result on the right is the text of an error.
pub mod Thumbs
use photo_core.Base.{
  ℕ, String, Bool, true, false, List, [], ◌∷◌, Option, some, none, ◌==◌, ltb, eqb, concat, len,
  lookup, insert, remove, if◌then◌else◌, ◌⊎◌, inl, inr,
}
use photo_core.Storage.Models.{Media, media_type_image, media_type_video, media_type_raw}
use photo_core.Scanner.Detection.{Heads, FormatInfo, detect_file_format}

pub record ImageConfig : Type 0 where
  pub small : ℕ
  pub medium : ℕ
  pub large : ℕ
  pub quality : ℕ
  pub dcraw : String
  pub ffmpeg : String

pub record Imaging : Type 1 where
  pub heads : Heads
  pub Image : Type 0
  -- filepath.Join of the cache path, "thumbs" and a name
  pub in_cache : String → String
  -- The errors of os.MkdirAll and os.Create
  pub make_dir : Option String
  pub create : String → Option String
  -- imaging.Open, image.Decode, and the output of a command
  pub open_image : String → Image ⊎ String
  pub decode : String → Image ⊎ String
  pub output : List String → String ⊎ String
  pub flip_h : Image → Image
  pub flip_v : Image → Image
  pub rotate90 : Image → Image
  pub rotate180 : Image → Image
  pub rotate270 : Image → Image
  pub transpose : Image → Image
  pub transverse : Image → Image
  -- imaging.Fit into a square
  pub fit : Image → ℕ → Image
  -- jpeg.Encode: what it writes, and its error
  pub encode : Image → ℕ → String × Option String

module _ (I : Imaging) where
  -- GetThumbnailPath
  unfoldable pub get_thumbnail_path : String → String → String
  get_thumbnail_path media_id size = I.in_cache (concat media_id (concat "_" (concat size ".jpg")))

  -- ThumbnailExists
  unfoldable pub thumbnail_exists : String → String → List (String × String) → Bool
  unfolding get_thumbnail_path
  thumbnail_exists media_id size files = elim (lookup (get_thumbnail_path media_id size) files) [
    | none ↦ false
    | some bytes ↦ true
  ]

  -- DeleteThumbnails
  unfoldable pub delete_thumbnails : String → List (String × String) → List (String × String)
  unfolding get_thumbnail_path
  delete_thumbnails media_id files = remove (get_thumbnail_path media_id "large") (
      remove (get_thumbnail_path media_id "medium")
        (remove (get_thumbnail_path media_id "small") files))

  abbrev pub decoded : String → String ⊎ String → I.Image ⊎ String
  decoded what (inr text) = inr (concat what (concat " failed: " text))
  decoded what (inl bytes) = elim (I.decode bytes) [
    | inl img ↦ inl img
    | inr text ↦ inr (concat "failed to decode " (concat what (concat " output: " text)))
  ]

  -- The preview in the RAW file, if there is one that can be decoded.
  unfoldable pub embedded : ImageConfig → String → Option I.Image
  embedded cfg path = elim (I.output (cfg.dcraw ∷ "-e" ∷ "-c" ∷ path ∷ [])) [
    | inr text ↦ none
    | inl bytes ↦
        if ltb 0 (len bytes)
        then elim (I.decode bytes) [ inl img ↦ some img | inr text ↦ none ]
        else none
  ]

  -- loadRawImage
  unfoldable pub load_raw_image : ImageConfig → String → I.Image ⊎ String
  unfolding embedded
  load_raw_image cfg path = elim (embedded cfg path) [
    | some img ↦ inl img
    | none ↦ decoded "dcraw" (I.output (cfg.dcraw ∷ "-c" ∷ "-w" ∷ "-W" ∷ "-h" ∷ path ∷ []))
  ]

  -- extractVideoFrame
  unfoldable pub extract_video_frame : ImageConfig → String → I.Image ⊎ String
  extract_video_frame cfg path =
      elim (I.output (
        cfg.ffmpeg ∷ "-i" ∷ path ∷ "-ss" ∷ "00:00:01" ∷ "-vframes" ∷ "1" ∷ "-f" ∷ "image2pipe"
        ∷ "-vcodec" ∷ "mjpeg" ∷ "-" ∷ [])) [
          | inl bytes ↦ decoded "ffmpeg" (inl bytes)
          | inr text ↦ decoded "ffmpeg" (
              I.output (
                cfg.ffmpeg ∷ "-i" ∷ path ∷ "-vframes" ∷ "1" ∷ "-f" ∷ "image2pipe" ∷ "-vcodec"
                ∷ "mjpeg" ∷ "-" ∷ []))
        ]

  -- applyOrientation
  unfoldable pub apply_orientation : I.Image → ℕ → I.Image
  apply_orientation img orientation =
      if eqb orientation 2
      then I.flip_h img
      else if eqb orientation 3
      then I.rotate180 img
      else if eqb orientation 4
      then I.flip_v img
      else if eqb orientation 5
      then I.transpose img
      else if eqb orientation 6
      then I.rotate270 img
      else if eqb orientation 7
      then I.transverse img
      else if eqb orientation 8
      then I.rotate90 img
      else img

  -- The error of a loader, under the text that GenerateThumbnail gives it.
  abbrev pub loaded : I.Image ⊎ String → I.Image ⊎ String
  loaded (inl img) = inl img
  loaded (inr text) = inr (concat "failed to load image: " text)

  -- The image of a media; its type is one of three.
  unfoldable pub load : ImageConfig → Media → I.Image ⊎ String
  unfolding load_raw_image extract_video_frame
  load cfg m =
      if m.type == media_type_image
      then loaded (I.open_image m.path)
      else if m.type == media_type_raw
      then loaded (load_raw_image cfg m.path)
      else if m.type == media_type_video
      then loaded (extract_video_frame cfg m.path)
      else inr (concat "unsupported media type: " m.type)

  unfoldable pub max_size : ImageConfig → String → ℕ
  max_size cfg size =
      if size == "medium" then cfg.medium else if size == "large" then cfg.large else cfg.small

  -- The end of GenerateThumbnail, with the error of os.Create, and what jpeg.Encode writes with its
  -- error: what was written before it stays.
  unfoldable pub write_encoded :
      String
      → Option String
      → String × Option String
      → List (String × String)
      → (String ⊎ String) × List (String × String)
  write_encoded path (some text) encoded files =
      (inr (concat "failed to create thumbnail file: " text), files)
  write_encoded path none (bytes, some text) files =
      (inr (concat "failed to encode thumbnail: " text), insert path bytes files)
  write_encoded path none (bytes, none) files = (inl path, insert path bytes files)

  -- The image in its orientation and size, as the bytes of a JPEG.
  unfoldable pub encode_thumb : ImageConfig → Media → String → I.Image → String × Option String
  unfolding apply_orientation max_size
  encode_thumb cfg m size img =
      let turned =
        if ltb 1 m.metadata.orientation
        then apply_orientation img m.metadata.orientation
        else img in
      I.encode (I.fit turned (max_size cfg size)) cfg.quality

  -- What follows the loading of the image.
  unfoldable pub render :
      ImageConfig
      → Media
      → String
      → I.Image ⊎ String
      → List (String × String)
      → (String ⊎ String) × List (String × String)
  unfolding encode_thumb write_encoded get_thumbnail_path
  render cfg m size (inr text) files = (inr text, files)
  render cfg m size (inl img) files =
      let path = get_thumbnail_path m.id size in
      write_encoded path (I.create path) (encode_thumb cfg m size img) files

  -- What follows the detection of the format.
  unfoldable pub make_thumb :
      ImageConfig
      → Media
      → String
      → FormatInfo ⊎ String
      → List (String × String)
      → (String ⊎ String) × List (String × String)
  unfolding load render
  make_thumb cfg m size (inr text) files = (inr (concat "format detection failed: " text), files)
  make_thumb cfg m size (inl info) files =
      if info.is_supported
      then render cfg m size (load cfg m) files
      else (inr (concat "unsupported format:" (concat " " info.error)), files)

  -- What follows os.MkdirAll, with its error, and os.Stat, with the thumbnail if there is one.
  unfoldable pub generate_in :
      ImageConfig
      → Media
      → String
      → Option String
      → Option String
      → List (String × String)
      → (String ⊎ String) × List (String × String)
  unfolding get_thumbnail_path make_thumb
  generate_in cfg m size (some text) stored files = (inr text, files)
  generate_in cfg m size none (some bytes) files = (inl (get_thumbnail_path m.id size), files)
  generate_in cfg m size none none files =
      make_thumb cfg m size (detect_file_format I.heads m.path) files

  -- GenerateThumbnail
  unfoldable pub generate_thumbnail :
      ImageConfig
      → Media
      → String
      → List (String × String)
      → (String ⊎ String) × List (String × String)
  unfolding get_thumbnail_path generate_in
  generate_thumbnail cfg m size files =
      generate_in cfg m size I.make_dir (lookup (get_thumbnail_path m.id size) files) files
