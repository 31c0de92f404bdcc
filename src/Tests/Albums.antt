-- ===== src/Tests/Albums.antt =====
-- The theorems on albums and on the favorites of users, at an album of one media.
use photo_core.Base.{
  true, false, not, ◌&&◌, ◌||◌, [], ◌∷◌, some, ◌≡◌, refl, ok, ◌==◌, contains, if◌then◌else◌,
}
use photo_core.Storage.Models.{Album}
use photo_core.Storage.Db.{Store}
use photo_core.Storage.Albums.{get_album, save_album, add_media_to_album, remove_media_from_album}
use photo_core.Storage.Albums.Laws.{
  in_album, in_album-add_media_to_album, in_album-remove_media_from_album,
}
use photo_core.Storage.Favorites.{is_user_favorite, set_user_favorite, toggle_user_favorite}
use photo_core.Storage.Favorites.Users.{is_user_favorite-set_user_favorite}
use photo_core.Tests.Disk.{env}
use photo_core.Tests.Storage.{program, saved, saved-IsReadable}

abbrev pub trip : Album
trip = record {
  id = "a1";
  name = "Trip";
  description = "";
  cover_id = "";
  media_ids = "c1" ∷ [];
  created_at = 1;
  updated_at = 1;
  media_count = 1;
}

abbrev pub with_trip : Store env
with_trip = (save_album env trip saved).1

runs :
    (get_album env with_trip "a1" ≡ ok (some trip))
    × ((add_media_to_album env "a1" ("c2" ∷ "c1" ∷ []) with_trip).0 ≡ ok tt)
    × ((remove_media_from_album env "a1" ("c1" ∷ []) with_trip).0 ≡ ok tt)
    × ((add_media_to_album env "a1" ("c2" ∷ "c2" ∷ []) with_trip).0 ≡ ok tt)
    × (get_album env (add_media_to_album env "a1" ("c2" ∷ "c2" ∷ []) with_trip).1 "a1"
        ≡ ok (some (record trip { media_ids = "c1" ∷ "c2" ∷ "c2" ∷ []; media_count = 3 })))
unfolding program
runs = (refl, refl, refl, refl, refl)

in_album-add_media_to_album_example :
    in_album env (add_media_to_album env "a1" ("c2" ∷ "c1" ∷ []) with_trip).1 "a1" "c2" ≡ (
      if "a1" == "a1"
      then in_album env with_trip "a1" "c2" || contains ("c2" ∷ "c1" ∷ []) "c2"
      else in_album env with_trip "a1" "c2")
in_album-add_media_to_album_example =
    in_album-add_media_to_album env "a1" ("c2" ∷ "c1" ∷ []) with_trip trip "a1" "c2" runs.0 refl
      runs.1

in_album-remove_media_from_album_example :
    in_album env (remove_media_from_album env "a1" ("c1" ∷ []) with_trip).1 "a1" "c1" ≡ (
      if "a1" == "a1"
      then in_album env with_trip "a1" "c1" && not (contains ("c1" ∷ []) "c1")
      else in_album env with_trip "a1" "c1")
in_album-remove_media_from_album_example =
    in_album-remove_media_from_album env "a1" ("c1" ∷ []) with_trip trip "a1" "c1" runs.0 refl
      runs.2

trip_lacks_c2 : contains trip.media_ids "c2" ≡ false
unfolding contains
trip_lacks_c2 = refl

favorite_runs :
    ((set_user_favorite env "u1" "c1" true saved).0 ≡ ok tt)
    × ((toggle_user_favorite env "u1" "c1" saved).0 ≡ ok true)
    × ((toggle_user_favorite env "u1" "c1" (toggle_user_favorite env "u1" "c1" saved).1).0
        ≡ ok false)
unfolding program
favorite_runs = (refl, refl, refl)

is_user_favorite-set_user_favorite_example :
    is_user_favorite env (set_user_favorite env "u1" "c1" true saved).1 "u1" "c1"
    ≡ (if "u1" == "u1" && "c1" == "c1" then ok true else is_user_favorite env saved "u1" "c1")
is_user_favorite-set_user_favorite_example =
    is_user_favorite-set_user_favorite env "u1" "c1" true saved "u1" "c1" saved-IsReadable
      favorite_runs.0
