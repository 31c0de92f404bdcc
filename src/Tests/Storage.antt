-- ===== src/Tests/Storage.antt =====
-- The theorems of the storage layer at a library with one media and one album.
use photo_core.Base.{
  none, [], ◌∷◌, some, ◌≡◌, refl, ok, arith, ◌==◌, contains, ◌&&◌, without, keep_new, if◌then◌else◌,
  eq_iff,
}
use photo_core.Disk.Table.{find, write, write_lenient, rows}
use photo_core.Storage.Models.{Media}
use photo_core.Storage.Db.{Store, update, load, has_taken_at, and_then}
use photo_core.Storage.Index.{
  stored_ids, add_to_index, remove_from_index, put_ids, get_index, IsReadable,
}
use photo_core.Storage.Library.{
  save_media, get_media, soft_delete_media, restore_media, index_date, put_media, get_media_by_ids,
}
use photo_core.Storage.Library.Laws.{get_media-save_media, restore_media-soft_delete_media}
use photo_core.Storage.Albums.{get_album, save_album, add_media_to_album, remove_media_from_album}
use photo_core.Storage.Albums.Laws.{in_album}
use photo_core.Storage.Favorites.{
  toggle_favorite, put_favorite, index_favorite, set_favorite, bulk_set_favorite, is_user_favorite,
  set_user_favorite, toggle_user_favorite, get_user_favorites, put_user_favorite,
}
use photo_core.Storage.Favorites.Laws.{FavoritesAgree, is_marked, toggle_favorite-FavoritesAgree}
use photo_core.Storage.Tags.{
  normalize, increment_tag_count, decrement_tag_count, add_tag, add_tags, add_tags_to_media,
  remove_tags, remove_tags_from_media,
}
use photo_core.Storage.Tags.Laws.{tag_count, added}
use photo_core.Tests.Disk.{env, empty, empty_db, no_media}

unfoldable pub program : Unit {0}
unfolding save_media update load has_taken_at and_then stored_ids add_to_index remove_from_index
    put_ids get_index get_media soft_delete_media restore_media index_date put_media
    get_media_by_ids get_album save_album add_media_to_album remove_media_from_album toggle_favorite
    put_favorite index_favorite set_favorite bulk_set_favorite is_user_favorite set_user_favorite
    toggle_user_favorite get_user_favorites put_user_favorite normalize increment_tag_count
    decrement_tag_count add_tag add_tags add_tags_to_media remove_tags remove_tags_from_media find
    write write_lenient rows contains without keep_new in_album is_marked tag_count added
program = tt

abbrev pub cat : Media
cat = record no_media {
  id = "c1";
  dir = "pets";
  taken_at = 70_000_000_000_000_000_000;
  tags = "cat" ∷ [];
}

abbrev pub saved : Store env
saved = (save_media env cat empty_db).1

-- A saved media is read back, and stands in the indices of its directory and its month.
pub saved_lem :
    ((save_media env cat empty_db).0 ≡ ok tt)
    × (get_media env saved "c1" ≡ ok (some cat))
    × (get_index env.disk env.names_json saved.idx_dir "pets" ≡ ok ("c1" ∷ []))
    × (get_index env.disk env.names_json saved.idx_date "2024-05" ≡ ok ("c1" ∷ []))
unfolding program
saved_lem = (refl, refl, refl, refl)

get_media-save_media_example :
    (get_media env saved "c1"
      ≡ (if "c1" == "c1" then ok (some cat) else get_media env empty_db "c1"))
    × (stored_ids env.disk env.names_json saved.idx_dir "c1" ≡ (
        if "pets" == "c1"
        then keep_new (stored_ids env.disk env.names_json empty_db.idx_dir "c1") "c1"
        else stored_ids env.disk env.names_json empty_db.idx_dir "c1"))
    × (stored_ids env.disk env.names_json saved.idx_date "c1" ≡ (
        if has_taken_at env cat && env.month_key cat.taken_at == "c1"
        then keep_new (stored_ids env.disk env.names_json empty_db.idx_date "c1") "c1"
        else stored_ids env.disk env.names_json empty_db.idx_date "c1"))
get_media-save_media_example = get_media-save_media env cat empty_db "c1" saved_lem.0

trash_steps :
    ((soft_delete_media env 5 "c1" saved).0 ≡ ok tt)
    × ((restore_media env "c1" (soft_delete_media env 5 "c1" saved).1).0 ≡ ok tt)
unfolding program
trash_steps = (refl, refl)

restore_media-soft_delete_media_example :
    get_media env (restore_media env "c1" (soft_delete_media env 5 "c1" saved).1).1 "c1" ≡ (
      if "c1" == "c1"
      then ok (some (record cat { deleted_at = none }))
      else get_media env saved "c1")
restore_media-soft_delete_media_example =
    restore_media-soft_delete_media env 5 "c1" saved cat "c1" saved_lem.1 refl trash_steps.0
      trash_steps.1

pub empty-IsReadable : IsReadable env.disk env.names_json empty
unfolding program
empty-IsReadable = record { valid = λ k ids v h. cc }

saved-FavoritesAgree : FavoritesAgree env saved
unfolding program
saved-FavoritesAgree = record {
  agree = λ id. ground arith;
  keyed = λ id m h. ground (arith, eq_iff "c1" id);
  readable = empty-IsReadable;
}

toggle_favorite-FavoritesAgree_example : FavoritesAgree env (toggle_favorite env "c1" saved).1
toggle_favorite-FavoritesAgree_example =
    toggle_favorite-FavoritesAgree env "c1" saved saved-FavoritesAgree

pub saved-IsReadable : IsReadable env.disk env.names_json saved.userfav
unfolding program
saved-IsReadable = empty-IsReadable
