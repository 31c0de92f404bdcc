-- ===== src/Web/Pages/Items.antt =====
-- What the handlers that only read make of the records: the rows of the trash, users without their
-- password hashes, the cameras of the search page and the entries of an archive.
use photo_core.Base.{
  ℕ, ℤ, pos, negsuc, suc, ◌+◌, ◌-◌, String, Bool, List, [], ◌∷◌, none, some, ◌==◌, if◌then◌else◌,
  lookup, keep_new,
}
use photo_core.Storage.Models.{Media, User, Time}
use photo_core.Storage.Timeline.{TimelineGroup}
use photo_core.Web.Queries.{Readers}
use photo_core.Web.Timeline.{Sorter}

-- What the handlers take from outside: strings.Contains, the date format, the days between a time
-- and the clock, sort.Slice and sort.Strings, what
-- Search reads its parameters with, whether an archive takes a name, and the order of a
-- map.
pub record Reading : Type 0 where
  pub has_text : String → String → Bool
  pub minute : Time → String
  pub days_since : Time → ℤ
  pub sorter : Sorter
  pub sort_texts : List String → List String
  pub zip_create : String → Bool
  pub order : List (String × TimelineGroup) → List (String × TimelineGroup)
  pub readers : Readers

pub record TrashItem : Type 0 where
  pub media : Media
  pub days_remaining : ℕ
  pub deleted_days_ago : ℤ

pub record SafeUser : Type 0 where
  pub id : String
  pub username : String
  pub display_name : String
  pub role : String
  pub created_at : String
  pub last_login : String

pub record ZipEntry : Type 0 where
  pub filename : String
  pub content : String

abbrev pub taken_time : Media → Time
taken_time m = m.taken_at

-- All media of the trash have a time of deletion.
abbrev pub deletion_time : Media → Time
deletion_time m = elim m.deleted_at [ none ↦ 0 | some t ↦ t ]

-- `remaining = 30 - daysAgo`, and 0 below zero.
unfoldable pub remaining_days : ℤ → ℕ
remaining_days (pos n) = 30 - n
remaining_days (negsuc n) = 30 + suc n

-- A name comes once in the list, as a key of the map.
unfoldable pub add_camera : List String → List Media → List String
unfolding keep_new
add_camera names [] = names
add_camera names (m ∷ ms) =
    if m.metadata.camera == ""
    then add_camera names ms
    else add_camera (keep_new names m.metadata.camera) ms

unfoldable pub cameras : List Media → List String
unfolding add_camera
cameras = add_camera []

module _ (R : Reading) where
  unfoldable pub trash_item : Media → TrashItem
  unfolding remaining_days
  trash_item m = elim m.deleted_at [
    | none ↦ record { media = m; days_remaining = 30; deleted_days_ago = pos 0 }
    | some t ↦
        let days = R.days_since t in
        record { media = m; days_remaining = remaining_days days; deleted_days_ago = days }
  ]

  unfoldable pub safe_user : User → SafeUser
  safe_user u = record {
    id = u.id;
    username = u.username;
    display_name = u.display_name;
    role = u.role;
    created_at = R.minute u.created_at;
    last_login = R.minute u.last_login;
  }

  unfoldable pub zip_entries : List (String × String) → List Media → List ZipEntry
  zip_entries files [] = []
  zip_entries files (m ∷ ms) = elim (lookup m.path files) [
    | none ↦ zip_entries files ms
    | some bytes ↦
        if R.zip_create m.filename
        then record { filename = m.filename; content = bytes } ∷ zip_entries files ms
        else zip_entries files ms
  ]
