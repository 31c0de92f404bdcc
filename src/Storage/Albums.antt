-- ===== src/Storage/Albums.antt =====
-- Albums of internal/storage/bbolt.go.
pub mod Laws
use photo_core.Base.{
  String, not, List, [], ◌∷◌, ◌++◌, Option, some, none, if◌then◌else◌, Result, ok, err,
  album_not_found, ◌>>=◌, contains, select, length,
}
use photo_core.Disk.Table.{write, rows}
use photo_core.Storage.Models.{Media, Album}
use photo_core.Storage.Db.{Env, Store, update, load}
use photo_core.Storage.Library.{get_media_by_ids}

module _ (E : Env) where
  unfoldable pub get_album : Store E → String → Result (Option Album)
  get_album s id = load E.disk E.albums_json (λ a. a.id) s.albums id

  unfoldable pub save_album : Album → Store E → Result (Unit {0}) × Store E
  unfolding update
  save_album a = update λ s. do
    albums ←
        write E.disk E.albums_json s.albums a.id (record a { media_count = length a.media_ids })
    ok (record s { albums = albums })

  unfoldable pub delete_album : String → Store E → Result (Unit {0}) × Store E
  unfolding update
  delete_album id = update λ s. ok (record s { albums = E.disk.delete s.albums id })

  unfoldable pub list_albums : Store E → List Album
  list_albums s = rows E.disk E.albums_json s.albums

  -- `existing` holds the ids from before the call, and the loop does not add to it.
  unfoldable pub add_media_to_album : String → List String → Store E → Result (Unit {0}) × Store E
  add_media_to_album album_id media_ids s = elim (get_album s album_id) [
    | err e ↦ (err e, s)
    | ok none ↦ (err album_not_found, s)
    | ok (some a) ↦
        save_album
          (record a {
            media_ids = a.media_ids ++ select (λ id. not (contains a.media_ids id)) media_ids;
          })
          s
  ]

  unfoldable pub remove_media_from_album :
      String → List String → Store E → Result (Unit {0}) × Store E
  remove_media_from_album album_id media_ids s = elim (get_album s album_id) [
    | err e ↦ (err e, s)
    | ok none ↦ (err album_not_found, s)
    | ok (some a) ↦
        save_album (record a { media_ids = select (λ id. not (contains media_ids id)) a.media_ids })
          s
  ]

  unfoldable pub get_album_media : Store E → String → Result (List Media)
  get_album_media s album_id = elim (get_album s album_id) [
    | err e ↦ err e
    | ok none ↦ ok []
    | ok (some a) ↦ ok (get_media_by_ids E s a.media_ids)
  ]

  -- The loop of removeMediaFromAllAlbums; the error of a round is dropped.
  unfoldable pub remove_from_albums : String → List Album → Store E → Store E
  remove_from_albums id [] s = s
  remove_from_albums id (a ∷ albums) s =
      remove_from_albums id albums
        (if contains a.media_ids id then (remove_media_from_album a.id (id ∷ []) s).1 else s)

  unfoldable pub remove_media_from_all_albums : String → Store E → Store E
  unfolding remove_from_albums
  remove_media_from_all_albums id s = remove_from_albums id (list_albums s) s
