-- ===== src/Web/Steps.antt =====
-- The requests that keep the media cache coherent with the database.
use photo_core.Base.{
  String, false, List, none, ◌≡◌, ◌==◌, ok, err, Error, arith, loaded-cases, ◌⊎◌, ◌≢◌, inl, inr,
}
use photo_core.Storage.Models.{Album, User, Time}
use photo_core.Storage.Db.{Env, Store, update}
use photo_core.Storage.Library.{get_media, soft_delete_media, restore_media, put_media}
use photo_core.Storage.Tags.{add_tags_to_media, remove_tags_from_media}
use photo_core.Storage.Tags.Laws.{get_media-add_tags_to_media, get_media-remove_tags_from_media}
use photo_core.Storage.Albums.{
  save_album, delete_album, add_media_to_album, remove_media_from_album,
}
use photo_core.Storage.Accounts.{save_user, delete_user}
use photo_core.Storage.Removal.{delete_media, drop_record}
use photo_core.Storage.Removal.Laws.{drop_references-media}
use photo_core.Web.Coherence.{IsKeyed}

module _ (E : Env) where
  -- The albums, the users: other buckets.
  pub save_album_media : (a : Album) (s : Store E) → (save_album E a s).1.media ≡ s.media
  unfolding save_album update
  save_album_media a s = ground arith

  pub delete_album_media : (id : String) (s : Store E) → (delete_album E id s).1.media ≡ s.media
  unfolding delete_album update
  delete_album_media id s = ground arith

  pub add_media_to_album_media :
      (id : String) (ids : List String) (s : Store E)
      → (add_media_to_album E id ids s).1.media ≡ s.media
  unfolding add_media_to_album save_album update
  add_media_to_album_media id ids s = ground arith

  pub remove_media_from_album_media :
      (id : String) (ids : List String) (s : Store E)
      → (remove_media_from_album E id ids s).1.media ≡ s.media
  unfolding remove_media_from_album save_album update
  remove_media_from_album_media id ids s = ground arith

  pub save_user_media : (u : User) (s : Store E) → (save_user E u s).1.media ≡ s.media
  unfolding save_user update
  save_user_media u s = ground arith

  pub delete_user_media : (name : String) (s : Store E) → (delete_user E name s).1.media ≡ s.media
  unfolding delete_user update
  delete_user_media name s = ground arith

  -- A transaction that fails changes nothing.
  pub add_tags_rollback :
      (id : String) (tags : List String) (s : Store E) (e : Error)
      → (add_tags_to_media E id tags s).0 ≡ err e
      → (add_tags_to_media E id tags s).1.media ≡ s.media
  unfolding add_tags_to_media update
  add_tags_rollback id tags s e h = ground arith

  pub remove_tags_rollback :
      (id : String) (tags : List String) (s : Store E) (e : Error)
      → (remove_tags_from_media E id tags s).0 ≡ err e
      → (remove_tags_from_media E id tags s).1.media ≡ s.media
  unfolding remove_tags_from_media update
  remove_tags_rollback id tags s e h = ground arith

  pub soft_delete_rollback :
      (now : Time) (id : String) (s : Store E) (e : Error)
      → (soft_delete_media E now id s).0 ≡ err e
      → (soft_delete_media E now id s).1.media ≡ s.media
  unfolding soft_delete_media put_media update
  soft_delete_rollback now id s e h = ground arith

  pub restore_rollback :
      (id : String) (s : Store E) (e : Error)
      → (restore_media E id s).0 ≡ err e
      → (restore_media E id s).1.media ≡ s.media
  unfolding restore_media put_media update
  restore_rollback id s e h = ground arith

  add_tags_missing :
      (id : String) (tags : List String) (s : Store E)
      → (get_media E s id ≡ ok none) ⊎ ((e : Error) × (get_media E s id ≡ err e))
      → (add_tags_to_media E id tags s).0 ≢ ok tt
  unfolding add_tags_to_media
  add_tags_missing id tags s h = ground arith

  remove_tags_missing :
      (id : String) (tags : List String) (s : Store E)
      → (get_media E s id ≡ ok none) ⊎ ((e : Error) × (get_media E s id ≡ err e))
      → (remove_tags_from_media E id tags s).0 ≢ ok tt
  unfolding remove_tags_from_media
  remove_tags_missing id tags s h = ground arith

  -- The other media, after a change of the tags of one.
  pub add_tags_others :
      (id : String) (tags : List String) (s : Store E)
      → IsKeyed E s
      → (add_tags_to_media E id tags s).0 ≡ ok tt
      → (j : String) → (id == j) ≡ false
      → get_media E (add_tags_to_media E id tags s).1 j ≡ get_media E s j
  unfolding IsKeyed
  add_tags_others id tags s k h j e = elim (loaded-cases (get_media E s id)) [
    | inl missing ↦ absurd (add_tags_missing id tags s missing h)
    | inr (m, found) ↦
        ground (arith, (get_media-add_tags_to_media E id tags s m j found (k id m found) h).1)
  ]

  pub remove_tags_others :
      (id : String) (tags : List String) (s : Store E)
      → IsKeyed E s
      → (remove_tags_from_media E id tags s).0 ≡ ok tt
      → (j : String) → (id == j) ≡ false
      → get_media E (remove_tags_from_media E id tags s).1 j ≡ get_media E s j
  unfolding IsKeyed
  remove_tags_others id tags s k h j e = elim (loaded-cases (get_media E s id)) [
    | inl missing ↦ absurd (remove_tags_missing id tags s missing h)
    | inr (m, found) ↦
        ground (arith, (get_media-remove_tags_from_media E id tags s m j found (k id m found) h).1)
  ]

  pub delete_rollback :
      (id : String) (s : Store E) (e : Error)
      → (delete_media E id s).0 ≡ err e
      → (delete_media E id s).1.media ≡ s.media
  unfolding delete_media drop_record update
  delete_rollback id s e h = elim (loaded-cases (get_media E s id)) [
    | inl missing ↦ ground arith
    | inr (m, found) ↦ ground (arith, drop_references-media E m id s)
  ]
