-- ===== src/Storage/Removal.antt =====
-- DeleteMedia of internal/storage/bbolt.go, which removes a media and what refers to it, and its
-- callers BulkDelete and CleanupTrash.
pub mod Conditions
pub mod Albums
pub mod Users
pub mod Laws
pub mod Delete
use photo_core.Base.{
  ℕ, ◌+◌, ◌-◌, Bool, false, String, List, [], ◌∷◌, some, none, if◌then◌else◌, ltb, Result, ok, err,
  ◌>>=◌,
}
use photo_core.Storage.Models.{Media, Time}
use photo_core.Storage.Db.{Env, Store, update, and_then, has_taken_at}
use photo_core.Storage.Index.{remove_from_index}
use photo_core.Storage.Library.{get_media, list_trash_media}
use photo_core.Storage.Albums.{remove_media_from_all_albums}
use photo_core.Storage.Favorites.{global, remove_media_from_all_user_favorites}
use photo_core.Storage.Tags.{decrement_tags}

module _ (E : Env) where
  unfoldable pub unindex_date : E.disk.Bucket → Media → String → Result E.disk.Bucket
  unindex_date b m id =
      if has_taken_at E m
      then remove_from_index E.disk E.names_json b (E.month_key m.taken_at) id
      else ok b

  -- The last transaction: the indices and the record.
  unfoldable pub drop_record : Media → String → Store E → Result (Unit {0}) × Store E
  unfolding update
  drop_record m id = update λ s. do
    idx_dir ← remove_from_index E.disk E.names_json s.idx_dir m.dir id
    idx_date ← unindex_date s.idx_date m id
    ok (record s { idx_dir = idx_dir; idx_date = idx_date; media = E.disk.delete s.media id })

  unfoldable pub drop_global_favorite : String → Store E → Result (Unit {0}) × Store E
  unfolding update
  drop_global_favorite id = update λ s. do
    favorites ← remove_from_index E.disk E.names_json s.favorites global id
    ok (record s { favorites = favorites })

  -- What DeleteMedia does to the other buckets before it drops the record; the errors of these
  -- steps are dropped.
  unfoldable pub drop_references : Media → String → Store E → Store E
  drop_references m id s =
      let s₁ = remove_media_from_all_albums E id s in
      let s₂ = (drop_global_favorite id s₁).1 in
      let s₃ = remove_media_from_all_user_favorites E id s₂ in
      record s₃ { tags = decrement_tags E m.tags s₃.tags }

  unfoldable pub delete_media : String → Store E → Result (Unit {0}) × Store E
  delete_media id s = elim (get_media E s id) [
    | err e ↦ (err e, s)
    | ok none ↦ (ok tt, s)
    | ok (some m) ↦ drop_record m id (drop_references m id s)
  ]

  unfoldable pub bulk_delete : List String → Store E → Result (Unit {0}) × Store E
  unfolding and_then
  bulk_delete [] s = (ok tt, s)
  bulk_delete (id ∷ ids) s = and_then (delete_media id s) (λ _. bulk_delete ids)

  -- `m.DeletedAt != nil && m.DeletedAt.Before(cutoff)`
  unfoldable pub is_older : Time → Media → Bool
  is_older cutoff m = elim m.deleted_at [ none ↦ false | some t ↦ ltb t cutoff ]

  -- The loop of CleanupTrash: a media that cannot be deleted is not counted, and the loop goes on.
  unfoldable pub cleanup : Time → List Media → ℕ → Store E → ℕ × Store E
  cleanup cutoff [] deleted s = (deleted, s)
  cleanup cutoff (m ∷ ms) deleted s =
      let (r, s') = delete_media m.id s in
      let next = cleanup cutoff ms (elim r [ ok _ ↦ deleted + 1 | err _ ↦ deleted ]) s' in
      let skip = cleanup cutoff ms deleted s in if is_older cutoff m then next else skip

  -- A cutoff before Go's zero time is older than everything.
  unfoldable pub cleanup_trash : Time → ℕ → Store E → ℕ × Store E
  unfolding cleanup is_older
  cleanup_trash now older_than s = cleanup (now - older_than) (list_trash_media E s) 0 s
