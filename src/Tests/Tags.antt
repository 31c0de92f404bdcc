-- ===== src/Tests/Tags.antt =====
-- The theorems on tags, at a media with the tag "cat".
use photo_core.Base.{
  ◌&&◌, not, true, false, ◌||◌, [], ◌∷◌, String, List, ◌≡◌, ◌≢◌, refl, ok, some, ◌==◌, contains,
  eq_iff, arith, if◌then◌else◌, IsDistinct, map, or_keep,
}
use photo_core.Storage.Models.{Media}
use photo_core.Storage.Db.{Store}
use photo_core.Storage.Index.{stored_ids}
use photo_core.Storage.Library.{get_media, save_media}
use photo_core.Storage.Tags.{
  normalize, increment_tag_count, add_tags_to_media, remove_tags_from_media,
}
use photo_core.Storage.Tags.Laws.{get_media-add_tags_to_media}
use photo_core.Tests.Disk.{env, Bucket, empty_db}
use photo_core.Tests.Storage.{program, cat, saved, saved_lem}

runs :
    ((add_tags_to_media env "c1" ("pet" ∷ []) saved).0 ≡ ok tt)
    × ((remove_tags_from_media env "c1" ("cat" ∷ []) saved).0 ≡ ok tt)
unfolding program
runs = (refl, refl)

get_media-add_tags_to_media_example :
    (tags : List String) × (get_media env (add_tags_to_media env "c1" ("pet" ∷ []) saved).1 "c1"
      ≡ (if "c1" == "c1" then ok (some (record cat { tags = tags })) else get_media env saved "c1"))
    × ((t : String)
        → contains tags t
          ≡ (contains cat.tags t || not (t == "") && contains (map (normalize env) ("pet" ∷ [])) t))
    × (IsDistinct cat.tags → IsDistinct tags)
get_media-add_tags_to_media_example =
    get_media-add_tags_to_media env "c1" ("pet" ∷ []) saved cat "c1" saved_lem.1 refl runs.0

-- The media is indexed under its tag once that was added through the tag operations.
abbrev plain : Media
plain = record cat { tags = [] }

abbrev tagged : Store env
tagged = (add_tags_to_media env "c1" ("cat" ∷ []) (save_media env plain empty_db).1).1

abbrev counted : Bucket
counted = or_keep (increment_tag_count env tagged.tags "cat") tagged.tags

drift_runs :
    (get_media env tagged "c1" ≡ ok (some cat))
    × (contains cat.tags (normalize env "cat") ≡ true)
    × (contains (stored_ids env.disk env.names_json tagged.idx_tag (normalize env "cat")) "c1"
        ≡ true)
    × (increment_tag_count env tagged.tags (normalize env "cat") ≡ ok counted)
    × ((add_tags_to_media env "c1" ("cat" ∷ []) tagged).0 ≡ ok tt)
    × ((normalize env "cat" == "") ≡ false)
unfolding program
drift_runs = (refl, refl, refl, refl, refl, refl)

named : normalize env "cat" ≢ ""
named e = ground (arith, eq_iff (normalize env "cat") "", drift_runs.5)
