-- ===== src/Tests/Duplicates.antt =====
-- The theorems on duplicates and on the window of a search.
use photo_core.Base.{
  IsDistinct, ℕ, ◌+◌, ◌-◌, true, not, ◌&&◌, ◌||◌, List, [], ◌∷◌, ◌≡◌, ◌==◌, arith, eqb, any,
}
use photo_core.Storage.Db.{Store}
use photo_core.Storage.Models.{Media, media_type_image}
use photo_core.Storage.Library.{save_media, list_all_media}
use photo_core.Storage.Duplicates.{
  hamming_distance, check_duplicate, find_duplicates, similar_groups,
}
use photo_core.Storage.Duplicates.Hamming.{differing, hamming_distance-differing}
use photo_core.Storage.Duplicates.Checks.{is_near, in_range, is_duplicate-check_duplicate}
use photo_core.Storage.Duplicates.Groups.{
  all_proper, ids_in, all_proper-find_duplicates, similar_groups-IsDistinct,
}
use photo_core.Tests.Disk.{env, empty_db, no_media}
use photo_core.Tests.Storage.{cat}

hamming_distance-differing_example : hamming_distance 240 15 ≡ differing 64 240 15
hamming_distance-differing_example = hamming_distance-differing 240 15 (omega arith) (omega arith)

abbrev photo : Media
photo = record no_media {
  id = "p1";
  dir = "x";
  type = media_type_image;
  size = 100;
  checksum = "s1";
  image_hash = 240;
}

abbrev library : Store env
library = (save_media env photo empty_db).1

-- A tenth of the size to either side, in whole numbers.
abbrev low : ℕ → ℕ
low n = n - 10

abbrev high : ℕ → ℕ
high n = n + 10

is_duplicate-check_duplicate_example :
    (check_duplicate low high env library 100 "s2" 241 true 5).is_duplicate ≡ (
      (not ("s2" == "")
        && any
            (λ m. in_range low high env 100 m && m.checksum == "s2")
            (list_all_media env library))
      || (true && not (eqb 241 0) && any (is_near 5 241) (list_all_media env library)))
is_duplicate-check_duplicate_example =
    is_duplicate-check_duplicate low high env library 100 "s2" 241 true 5

abbrev found : List Media
found = photo ∷ cat ∷ no_media ∷ []

all_proper-find_duplicates_example : all_proper 5 (find_duplicates env ("s1" ∷ []) 5 library) ≡ true
all_proper-find_duplicates_example = all_proper-find_duplicates env ("s1" ∷ []) 5 library

similar_groups-IsDistinct_example :
    IsDistinct (ids_in (similar_groups 5 [] (photo ∷ photo ∷ cat ∷ [])))
similar_groups-IsDistinct_example = similar_groups-IsDistinct 5 [] (photo ∷ photo ∷ cat ∷ [])
