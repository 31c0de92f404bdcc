-- ===== src/Storage/Removal/Laws.antt =====
-- What DeleteMedia leaves: neither the record nor a reference to it.
use photo_core.Base.{
  String, false, not, List, ◌≡◌, eq_iff, eq_refl, ok, arith, Bool-cases, bool_absurd, inl, inr,
  contains, without, contains-without, loaded-cases, select, ◌≢◌, Option-cases, refl, sym, ◌∙◌, [],
  ◌∷◌,
}
use mathlib.Core.Path.{subst}
use photo_core.Disk.Table.{find}
use photo_core.Storage.Models.{Media, Album}
use photo_core.Storage.Db.{Env, Store}
use photo_core.Storage.Index.{stored_ids, remove_from_index, IsReadable, put_ids}
use photo_core.Storage.Index.Laws.{stored_ids-remove_from_index}
use photo_core.Storage.Albums.{
  get_album, list_albums, save_album, remove_media_from_album, remove_from_albums,
  remove_media_from_all_albums,
}
use photo_core.Storage.Albums.Laws.{in_album}
use photo_core.Storage.Favorites.{global, remove_media_from_all_user_favorites}
use photo_core.Storage.Removal.{drop_global_favorite, drop_references}
use photo_core.Storage.Removal.Conditions.{AcceptsWrites, IsSound}
use photo_core.Storage.Removal.Users.{contains-remove_media_from_all_user_favorites}
use photo_core.Storage.Removal.Albums.{in_album-remove_media_from_all_albums}

-- The step on the albums writes to no other bucket.
record AlbumsOnly (E : Env) (s t : Store E) : Type 0 where
  media : t.media ≡ s.media
  idx_dir : t.idx_dir ≡ s.idx_dir
  favorites : t.favorites ≡ s.favorites
  userfav : t.userfav ≡ s.userfav

global_named : global ≢ ""
global_named e = bool_absurd ((eq_iff global "").1 e) refl

module _ (E : Env) where
  save_album-AlbumsOnly : (a : Album) (s : Store E) → AlbumsOnly E s (save_album E a s).1
  unfolding save_album
  save_album-AlbumsOnly a s = ground arith

  remove_media_from_album-AlbumsOnly :
      (k : String) (ids : List String) (s : Store E)
      → AlbumsOnly E s (remove_media_from_album E k ids s).1
  unfolding remove_media_from_album
  remove_media_from_album-AlbumsOnly k ids s = elim (loaded-cases (get_album E s k)) [
    | inl missing ↦ ground arith
    | inr (a, found) ↦
        rw (found, remove_media_from_album)
          (save_album-AlbumsOnly
            (record a { media_ids = select (λ x. not (contains ids x)) a.media_ids }) s)
  ]

  AlbumsOnly-trans : {s t u : Store E} → AlbumsOnly E s t → AlbumsOnly E t u → AlbumsOnly E s u
  AlbumsOnly-trans p q = ground arith

  remove_from_albums-AlbumsOnly :
      (id : String) (l : List Album) (s : Store E) → AlbumsOnly E s (remove_from_albums E id l s)
  unfolding remove_from_albums
  remove_from_albums-AlbumsOnly id [] s = ground arith
  remove_from_albums-AlbumsOnly id (a ∷ l) s = elim (Bool-cases (contains a.media_ids id)) [
    | inl has ↦ rw has (
        AlbumsOnly-trans (remove_media_from_album-AlbumsOnly a.id (id ∷ []) s)
          (remove_from_albums-AlbumsOnly id l _))
    | inr lacks ↦ rw lacks (remove_from_albums-AlbumsOnly id l s)
  ]

  -- The albums step of DeleteMedia writes to no other bucket.
  remove_media_from_all_albums-AlbumsOnly :
      (id : String) (s : Store E) → AlbumsOnly E s (remove_media_from_all_albums E id s)
  unfolding remove_media_from_all_albums
  remove_media_from_all_albums-AlbumsOnly id s =
      remove_from_albums-AlbumsOnly id (list_albums E s) s

  -- The other way round: these steps leave the albums.
  drop_global_favorite-rest :
      (id : String) (s : Store E)
      → let t = (drop_global_favorite E id s).1 in
        (t.media ≡ s.media)
        × (t.idx_dir ≡ s.idx_dir)
        × (t.userfav ≡ s.userfav)
        × (t.albums ≡ s.albums)
  unfolding drop_global_favorite
  drop_global_favorite-rest id s = ground arith

  put_ids-ok :
      (accepts : AcceptsWrites E) (b : E.disk.Bucket) (key : String) (ids : List String)
      → key ≢ ""
      → (b' : E.disk.Bucket) × (put_ids E.disk E.names_json b key ids ≡ ok b')
  unfolding put_ids
  put_ids-ok accepts b key [] named = (E.disk.delete b key, refl)
  put_ids-ok accepts b key (id ∷ ids) named = accepts.names b key (id ∷ ids) named

  remove_from_index-ok :
      (accepts : AcceptsWrites E) (b : E.disk.Bucket) (key id : String)
      → key ≢ ""
      → (b' : E.disk.Bucket) × (remove_from_index E.disk E.names_json b key id ≡ ok b')
  unfolding remove_from_index
  remove_from_index-ok accepts b key id named =
      elim (Option-cases (find E.disk E.names_json b key)) [
        | inl e ↦ (b, ground arith)
        | inr (p, e) ↦ elim (Bool-cases p.1) [
          | inl valid ↦
              let (b', done) = put_ids-ok accepts b key (without id p.0) named in (b', ground arith)
          | inr invalid ↦ (b, ground arith)
        ]
      ]

  drop_global_favorite-gone :
      (accepts : AcceptsWrites E) (id : String) (s : Store E)
      → IsReadable E.disk E.names_json s.favorites
      → contains
          (stored_ids E.disk E.names_json (drop_global_favorite E id s).1.favorites global)
          id
        ≡ false
  unfolding drop_global_favorite
  drop_global_favorite-gone accepts id s r =
      let (b, done) = remove_from_index-ok accepts s.favorites global id global_named in
      ground (
        arith,
        eq_refl global,
        eq_refl id,
        stored_ids-remove_from_index E.disk E.names_json s.favorites b global id global r done,
        contains-without id (stored_ids E.disk E.names_json s.favorites global) id,
      )

  -- The four references that the steps before the last transaction take out.
  pub record Unreferenced (id : String) (s t : Store E) : Type 0 where
    pub media : t.media ≡ s.media
    pub idx_dir : t.idx_dir ≡ s.idx_dir
    pub albums : (k : String) → in_album E t k id ≡ false
    pub favorites : contains (stored_ids E.disk E.names_json t.favorites global) id ≡ false
    pub users : (u : String) → contains (stored_ids E.disk E.names_json t.userfav u) id ≡ false

  remove_user_favorites-rest :
      (id : String) (s : Store E)
      → let t = remove_media_from_all_user_favorites E id s in
        (t.media ≡ s.media)
        × (t.idx_dir ≡ s.idx_dir)
        × (t.favorites ≡ s.favorites)
        × (t.albums ≡ s.albums)
  unfolding remove_media_from_all_user_favorites
  remove_user_favorites-rest id s = ground arith

  -- An album's media depend on the albums alone.
  pub in_album-albums :
      (s t : Store E) (k id : String) → t.albums ≡ s.albums → in_album E t k id ≡ in_album E s k id
  unfolding in_album get_album
  in_album-albums s t k id e = ground arith

  pub drop_references-Unreferenced :
      (accepts : AcceptsWrites E) (m : Media) (id : String) (s : Store E)
      → IsSound E s
      → Unreferenced id s (drop_references E m id s)
  unfolding drop_references
  drop_references-Unreferenced accepts m id s sound =
      let s₁ = remove_media_from_all_albums E id s in
      let s₂ = (drop_global_favorite E id s₁).1 in
      let s₃ = remove_media_from_all_user_favorites E id s₂ in
      let first = remove_media_from_all_albums-AlbumsOnly id s in
      let second = drop_global_favorite-rest id s₁ in
      let third = remove_user_favorites-rest id s₂ in
      record {
        media = third.0 ∙ second.0 ∙ first.media;
        idx_dir = third.1 ∙ second.1 ∙ first.idx_dir;
        albums = λ k.
            in_album-albums s₂ _ k id third.3
            ∙ in_album-albums s₁ s₂ k id second.3
            ∙ in_album-remove_media_from_all_albums E accepts id s k sound.albums;
        favorites = rw third.2 (
            drop_global_favorite-gone accepts id s₁
              (subst (IsReadable E.disk E.names_json) (sym first.favorites) sound.favorites));
        users = λ u.
            contains-remove_media_from_all_user_favorites E accepts id s₂ u
              (subst (IsReadable E.disk E.names_json) (sym (second.2 ∙ first.userfav)) sound.users)
              (rw (second.2, first.userfav) sound.no_empty_user);
      }

  -- The record stays where it is, whatever fails.
  pub drop_references-media :
      (m : Media) (id : String) (s : Store E) → (drop_references E m id s).media ≡ s.media
  unfolding drop_references
  drop_references-media m id s =
      let s₁ = remove_media_from_all_albums E id s in
      let s₂ = (drop_global_favorite E id s₁).1 in
      (remove_user_favorites-rest id s₂).0
      ∙ (drop_global_favorite-rest id s₁).0
      ∙ (remove_media_from_all_albums-AlbumsOnly id s).media
