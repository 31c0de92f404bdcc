-- ===== src/Storage/Models.antt =====
-- The data types of internal/storage/models.go. An instant is the number of nanoseconds since
-- Go's zero time, so that IsZero is `0`; its zone is that of its field, UTC in `taken_at` and the
-- server's in `modified_at`, see Storage.Db; a float64 is its 64 bits, and an int64 size and a count
-- are natural numbers.
use photo_core.Base.{ℕ, ℤ, String, Bool, Option, List, ◌%◌, ◌^◌, eqb, not}

abbrev pub media_type_image : String
media_type_image = "image"

abbrev pub media_type_video : String
media_type_video = "video"

abbrev pub media_type_raw : String
media_type_raw = "raw"

abbrev pub role_admin : String
role_admin = "admin"

abbrev pub role_editor : String
role_editor = "editor"

abbrev pub role_viewer : String
role_viewer = "viewer"

abbrev pub Time : Type 0
Time = ℕ

abbrev pub Float64 : Type 0
Float64 = ℕ

-- `x != 0` of a float64: any bit but the sign's is set (a NaN differs from 0 too).
abbrev pub is_nonzero : Float64 → Bool
is_nonzero bits = not (eqb (bits % 2 ^ 63) 0)

pub record Metadata : Type 0 where
  pub camera : String
  pub lens : String
  pub focal_length : String
  pub aperture : String
  pub shutter_speed : String
  pub iso : ℕ
  pub gps_lat : Float64
  pub gps_lon : Float64
  pub orientation : ℕ

pub record Media : Type 0 where
  pub id : String
  pub path : String
  pub rel_path : String
  pub dir : String
  pub filename : String
  pub ext : String
  pub type : String
  pub mime_type : String
  pub size : ℕ
  pub width : ℕ
  pub height : ℕ
  pub duration : Float64
  pub taken_at : Time
  pub created_at : Time
  pub modified_at : Time
  pub deleted_at : Option Time
  pub checksum : String
  pub image_hash : ℕ
  pub duplicate_of : String
  pub thumb_small : String
  pub thumb_large : String
  pub metadata : Metadata
  pub is_favorite : Bool
  pub tags : List String

pub record User : Type 0 where
  pub id : String
  pub username : String
  pub display_name : String
  pub password_hash : String
  pub role : String
  pub created_at : Time
  pub last_login : Time

pub record Session : Type 0 where
  pub id : String
  pub user_id : String
  pub username : String
  pub role : String
  pub created_at : Time
  pub expires_at : Time

pub record ApiToken : Type 0 where
  pub token : String
  pub user_id : String
  pub username : String
  pub role : String
  pub created_at : Time
  pub expires_at : Time
  pub device_name : String

pub record Stats : Type 0 where
  pub total_media : ℕ
  pub total_images : ℕ
  pub total_videos : ℕ
  pub total_raw : ℕ
  pub total_size : ℕ
  pub total_dirs : ℕ

pub record Album : Type 0 where
  pub id : String
  pub name : String
  pub description : String
  pub cover_id : String
  pub media_ids : List String
  pub created_at : Time
  pub updated_at : Time
  pub media_count : ℕ

pub record Tag : Type 0 where
  pub name : String
  pub media_count : ℕ

pub record SearchQuery : Type 0 where
  pub text : String
  pub type : String
  pub date_from : Option Time
  pub date_to : Option Time
  pub tags : List String
  pub camera : String
  pub is_favorite : Option Bool
  pub has_gps : Option Bool
  pub album_id : String
  pub limit : ℤ
  pub offset : ℤ

pub record SearchResult : Type 0 where
  pub media : List Media
  pub total_count : ℕ
  pub has_more : Bool

pub record DuplicateGroup : Type 0 where
  pub type : String
  pub media : List Media
  pub distance : ℕ
