-- ===== src/Tests/Removal.antt =====
-- The theorems on deletion, at a media that stands in an album and in both kinds of favorites.
use photo_core.Base.{
  ◌-◌, ◌≤◌, true, false, String, some, ◌≡◌, ◌≢◌, refl, ok, ==-ne, eq_iff, arith, length, select,
  insert, insert-HasKeysOnce,
}
use photo_core.Disk.Table.{decode_all, write, write_lenient}
use photo_core.Storage.Db.{Store}
use photo_core.Storage.Library.{get_media, list_trash_media, soft_delete_media}
use photo_core.Storage.Favorites.{
  set_user_favorite, toggle_favorite, remove_media_from_all_user_favorites, drop_user_favorites,
  drop_user_favorite,
}
use photo_core.Storage.Albums.{list_albums, remove_media_from_all_albums, remove_from_albums}
use photo_core.Storage.Tags.{decrement_tags}
use photo_core.Storage.Removal.{
  delete_media, drop_references, drop_record, drop_global_favorite, unindex_date, cleanup_trash,
  cleanup, is_older,
}
use photo_core.Storage.Removal.Conditions.{AcceptsWrites, IsSound}
use photo_core.Storage.Removal.Delete.{IsGone, delete_media-IsGone, is_doomed, cleanup_trash-keeps}
use photo_core.Tests.Disk.{env, Bytes, Bucket, bucket_put, names, album}
use photo_core.Tests.Storage.{program, cat}
use photo_core.Tests.Albums.{with_trip}

abbrev marked : Store env
marked = (set_user_favorite env "u1" "c1" true (toggle_favorite env "c1" with_trip).1).1

put-named :
    (b : Bucket) (k : String) (d : Bytes) → k ≢ "" → (b' : Bucket) × (bucket_put b k d ≡ some b')
put-named b k d h = ((insert k d b.0, insert-HasKeysOnce k d b.0 b.1), rw (==-ne k "" h))

env-AcceptsWrites : AcceptsWrites env
unfolding write write_lenient
env-AcceptsWrites = record {
  names = λ b k ids h. (let (b', e) = put-named b k (names ids) h in (b', rw e));
  names_lenient = λ b k ids h. (let (b', e) = put-named b k (names ids) h in (b', rw e));
  albums = λ b k a h. (let (b', e) = put-named b k (album a) h in (b', rw e));
}

marked-IsSound : IsSound env marked
unfolding program
marked-IsSound = record {
  dirs = record { valid = λ k ids v h. ground (arith, eq_iff "pets" k) };
  favorites = record { valid = λ k ids v h. ground (arith, eq_iff "global" k) };
  users = record { valid = λ k ids v h. ground (arith, eq_iff "u1" k) };
  no_empty_user = refl;
  albums = λ k a h. ground (arith, eq_iff "a1" k);
}

deletion : Unit {0}
unfolding program delete_media drop_references drop_record drop_global_favorite unindex_date
    cleanup_trash cleanup is_older remove_media_from_all_albums remove_from_albums list_albums
    remove_media_from_all_user_favorites drop_user_favorites drop_user_favorite decrement_tags
    list_trash_media is_doomed decode_all
deletion = tt

get_marked : get_media env marked "c1" ≡ ok (some (record cat { is_favorite = true }))
unfolding program
get_marked = refl

deletion_succeeds : (delete_media env "c1" marked).0 ≡ ok tt
unfolding deletion
deletion_succeeds = refl

delete_media-IsGone_example :
    IsGone env (record cat { is_favorite = true }) "c1" marked (delete_media env "c1" marked).1
delete_media-IsGone_example =
    delete_media-IsGone env "c1" marked (record cat { is_favorite = true }) env-AcceptsWrites
      marked-IsSound get_marked deletion_succeeds

-- The media went to the trash at 5; at 100 whatever is older than 50 goes.
abbrev trashed : Store env
trashed = (soft_delete_media env 5 "c1" marked).1

cleanup_runs :
    ((cleanup_trash env 100 50 trashed).0 ≡ 1)
    × (is_doomed env (100 - 50) "c2" (list_trash_media env trashed) ≡ false)
unfolding deletion
cleanup_runs = (refl, refl)

cleanup_trash-keeps_example :
    (get_media env (cleanup_trash env 100 50 trashed).1 "c2" ≡ get_media env trashed "c2")
    × ((cleanup_trash env 100 50 trashed).0
        ≤ length (select (is_older env (100 - 50)) (list_trash_media env trashed)))
cleanup_trash-keeps_example = cleanup_trash-keeps env 100 50 trashed "c2" cleanup_runs.1
