-- ===== src/Storage/Favorites.antt =====
-- Favorites of internal/storage/bbolt.go: the global flag with its index, and the list of each
-- user.
pub mod Laws
pub mod Users
use photo_core.Base.{
  String, Bool, not, List, [], ◌∷◌, ◌++◌, some, none, if◌then◌else◌, Result, ok, err,
  media_not_found, ◌>>=◌, or_keep, contains, without, eq_bool, select, length, eqb, ◌&&◌,
}
use photo_core.Disk.Table.{write, write_lenient}
use photo_core.Storage.Models.{Media}
use photo_core.Storage.Db.{Env, Store, update, and_then}
use photo_core.Storage.Index.{add_to_index, remove_from_index, get_index, stored_ids}
use photo_core.Storage.Library.{get_media, get_media_by_ids}

abbrev pub global : String
global = "global"

module _ (E : Env) where
  -- The index entry follows the flag.
  unfoldable pub index_favorite : Bool → E.disk.Bucket → String → Result E.disk.Bucket
  index_favorite is_favorite b media_id =
      if is_favorite
      then add_to_index E.disk E.names_json b global media_id
      else remove_from_index E.disk E.names_json b global media_id

  -- The transaction of ToggleFavorite and SetFavorite: the record and its index entry.
  unfoldable pub put_favorite : String → Media → Store E → Result (Unit {0}) × Store E
  unfolding update
  put_favorite media_id m = update λ s. do
    media ← write E.disk E.media_json s.media m.id m
    favorites ← index_favorite m.is_favorite s.favorites media_id
    ok (record s { media = media; favorites = favorites })

  unfoldable pub toggle_favorite : String → Store E → Result Bool × Store E
  unfolding and_then
  toggle_favorite media_id s = elim (get_media E s media_id) [
    | err e ↦ (err e, s)
    | ok none ↦ (err media_not_found, s)
    | ok (some m) ↦
        let flag = not m.is_favorite in
        and_then (put_favorite media_id (record m { is_favorite = flag }) s) (λ _ s'. (ok flag, s'))
  ]

  unfoldable pub set_favorite : String → Bool → Store E → Result (Unit {0}) × Store E
  set_favorite media_id is_favorite s = elim (get_media E s media_id) [
    | err e ↦ (err e, s)
    | ok none ↦ (err media_not_found, s)
    | ok (some m) ↦
        if eq_bool m.is_favorite is_favorite
        then (ok tt, s)
        else put_favorite media_id (record m { is_favorite = is_favorite }) s
  ]

  unfoldable pub bulk_set_favorite : List String → Bool → Store E → Result (Unit {0}) × Store E
  unfolding and_then
  bulk_set_favorite [] flag s = (ok tt, s)
  bulk_set_favorite (id ∷ ids) flag s =
      and_then (set_favorite id flag s) (λ _. bulk_set_favorite ids flag)

  unfoldable pub list_favorites : Store E → Result (List Media)
  list_favorites s = do
    ids ← get_index E.disk E.names_json s.favorites global
    ok (select (λ m. m.is_favorite) (get_media_by_ids E s ids))

  unfoldable pub get_user_favorites : Store E → String → Result (List String)
  get_user_favorites s user_id = get_index E.disk E.names_json s.userfav user_id

  unfoldable pub is_user_favorite : Store E → String → String → Result Bool
  unfolding get_user_favorites
  is_user_favorite s user_id media_id = do
    ids ← get_user_favorites s user_id
    ok (contains ids media_id)

  -- The transaction of SetUserFavorite on the bucket.
  unfoldable pub put_user_favorite : String → String → Bool → E.disk.Bucket → Result E.disk.Bucket
  put_user_favorite user_id media_id is_favorite b =
      let ids = stored_ids E.disk E.names_json b user_id in
      if is_favorite
      then (if contains ids media_id
          then ok b
          else write_lenient E.disk E.names_json b user_id (ids ++ media_id ∷ []))
      else write_lenient E.disk E.names_json b user_id (without media_id ids)

  unfoldable pub set_user_favorite : String → String → Bool → Store E → Result (Unit {0}) × Store E
  unfolding update put_user_favorite
  set_user_favorite user_id media_id is_favorite s = elim (get_media E s media_id) [
    | err e ↦ (err e, s)
    | ok none ↦ (err media_not_found, s)
    | ok (some m) ↦
        update
          (λ s. do
            userfav ← put_user_favorite user_id media_id is_favorite s.userfav
            ok (record s { userfav = userfav }))
          s
  ]

  -- ToggleUserFavorite; SetUserFavorite reads the media once more.
  unfoldable pub toggle_user_favorite : String → String → Store E → Result Bool × Store E
  unfolding and_then
  toggle_user_favorite user_id media_id s = elim (get_media E s media_id) [
    | err e ↦ (err e, s)
    | ok none ↦ (err media_not_found, s)
    | ok (some m) ↦ elim (is_user_favorite s user_id media_id) [
      | err e ↦ (err e, s)
      | ok flag ↦
          and_then (set_user_favorite user_id media_id (not flag) s) (λ _ s'. (ok (not flag), s'))
    ]
  ]

  unfoldable pub list_user_favorites : Store E → String → Result (List Media)
  list_user_favorites s user_id = do
    ids ← get_user_favorites s user_id
    ok (get_media_by_ids E s ids)

  -- One round of removeMediaFromAllUserFavorites: `v` is what the cursor read; the error of Put
  -- is dropped.
  unfoldable pub drop_user_favorite :
      String → String → List String → Bool → E.disk.Bucket → E.disk.Bucket
  drop_user_favorite media_id k ids valid b =
      if valid && not (eqb (length (without media_id ids)) (length ids))
      then or_keep (write_lenient E.disk E.names_json b k (without media_id ids)) b
      else b

  unfoldable pub drop_user_favorites :
      String → List (String × E.disk.Bytes) → E.disk.Bucket → E.disk.Bucket
  unfolding drop_user_favorite
  drop_user_favorites media_id [] b = b
  drop_user_favorites media_id ((k, v) ∷ l) b =
      let (ids, valid) = E.names_json.unmarshal v in
      drop_user_favorites media_id l (drop_user_favorite media_id k ids valid b)

  unfoldable pub remove_media_from_all_user_favorites : String → Store E → Store E
  unfolding drop_user_favorites
  remove_media_from_all_user_favorites media_id s = record s {
    userfav = drop_user_favorites media_id (E.disk.entries s.userfav) s.userfav;
  }
