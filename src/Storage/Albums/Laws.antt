-- ===== src/Storage/Albums/Laws.antt =====
-- What AddMediaToAlbum and RemoveMediaFromAlbum store, and the album's media count.
use photo_core.Base.{
  String, Bool, false, not, ◌&&◌, ◌||◌, List, [], ◌∷◌, ◌++◌, some, none, ◌≡◌, refl, ◌==◌, eq_iff,
  eq_refl, if◌then◌else◌, ok, err, arith, contains, select, length, contains-append, IsDistinct,
}
use mathlib.Core.Path.{subst}
use photo_core.Disk.Table.{write}
use photo_core.Storage.Models.{Album}
use photo_core.Storage.Db.{Env, Store}
use photo_core.Storage.Db.Laws.{load-write}
use photo_core.Storage.Albums.{get_album, save_album, add_media_to_album, remove_media_from_album}

abbrev pub with_ids : Album → List String → Album
with_ids a ids = record a { media_ids = ids; media_count = length ids }

contains-select :
    (p : String → Bool) (xs : List String) (a : String)
    → contains (select p xs) a ≡ (contains xs a && p a)
unfolding contains
contains-select p [] a = refl
contains-select p (x ∷ xs) a = ground (arith, eq_iff x a, contains-select p xs a)

module _ (E : Env) where
  save_album-write :
      (a : Album) (s : Store E)
      → (save_album E a s).0 ≡ ok tt
      → write E.disk E.albums_json s.albums a.id (with_ids a a.media_ids)
        ≡ ok (save_album E a s).1.albums
  unfolding save_album
  save_album-write a s h = ground arith

  -- A SaveAlbum that succeeds stores the album with the count of its media, under its id, and
  -- leaves every other album as it was.
  pub get_album-save_album :
      (a : Album) (s : Store E) (j : String)
      → (save_album E a s).0 ≡ ok tt
      → get_album E (save_album E a s).1 j
        ≡ (if a.id == j then ok (some (with_ids a a.media_ids)) else get_album E s j)
  unfolding get_album
  get_album-save_album a s j h =
      load-write E.disk E.albums_json (λ a. a.id) s.albums _ j (with_ids a a.media_ids)
        (save_album-write a s h)

  -- What an AddMediaToAlbum that succeeds stores: the ids that the album lacked stand behind its
  -- own, in the order given; every other album is as it was.
  pub get_album-add_media_to_album :
      (id : String) (ids : List String) (s : Store E) (a : Album) (j : String)
      → get_album E s id ≡ ok (some a)
      → a.id ≡ id
      → (add_media_to_album E id ids s).0 ≡ ok tt
      → get_album E (add_media_to_album E id ids s).1 j ≡ (
          if id == j
          then ok
              (some (with_ids a (a.media_ids ++ select (λ x. not (contains a.media_ids x)) ids)))
          else get_album E s j)
  unfolding add_media_to_album
  get_album-add_media_to_album id ids s a j found keyed h = ground (
    arith,
    get_album-save_album
        (record a { media_ids = a.media_ids ++ select (λ x. not (contains a.media_ids x)) ids }) s
        j,
  )

  pub get_album-remove_media_from_album :
      (id : String) (ids : List String) (s : Store E) (a : Album) (j : String)
      → get_album E s id ≡ ok (some a)
      → a.id ≡ id
      → (remove_media_from_album E id ids s).0 ≡ ok tt
      → get_album E (remove_media_from_album E id ids s).1 j ≡ (
          if id == j
          then ok (some (with_ids a (select (λ x. not (contains ids x)) a.media_ids)))
          else get_album E s j)
  unfolding remove_media_from_album
  get_album-remove_media_from_album id ids s a j found keyed h = ground (
    arith,
    get_album-save_album (record a { media_ids = select (λ x. not (contains ids x)) a.media_ids }) s
        j,
  )

  -- A media is in an album, as GetAlbum reads it.
  unfoldable pub in_album : Store E → String → String → Bool
  in_album s id media_id = elim (get_album E s id) [
    | err e ↦ false
    | ok none ↦ false
    | ok (some a) ↦ contains a.media_ids media_id
  ]

  -- After an AddMediaToAlbum that succeeds the album has its old media and the given ones, and
  -- every other album has the media that it had; the album must be stored under its own id.
  pub in_album-add_media_to_album :
      (id : String) (ids : List String) (s : Store E) (a : Album) (k j : String)
      → get_album E s id ≡ ok (some a)
      → a.id ≡ id
      → (add_media_to_album E id ids s).0 ≡ ok tt
      → in_album (add_media_to_album E id ids s).1 k j
        ≡ (if id == k then in_album s k j || contains ids j else in_album s k j)
  unfolding in_album
  in_album-add_media_to_album id ids s a k j found keyed h = ground (
    arith,
    eq_iff id k,
    get_album-add_media_to_album id ids s a k found keyed h,
    contains-append a.media_ids (select (λ x. not (contains a.media_ids x)) ids) j,
    contains-select (λ x. not (contains a.media_ids x)) ids j,
  )

  -- After a RemoveMediaFromAlbum that succeeds the album has its old media but the given ones, and
  -- every other album has the media that it had; the album must be stored under its own id.
  pub in_album-remove_media_from_album :
      (id : String) (ids : List String) (s : Store E) (a : Album) (k j : String)
      → get_album E s id ≡ ok (some a)
      → a.id ≡ id
      → (remove_media_from_album E id ids s).0 ≡ ok tt
      → in_album (remove_media_from_album E id ids s).1 k j
        ≡ (if id == k then in_album s k j && not (contains ids j) else in_album s k j)
  unfolding in_album
  in_album-remove_media_from_album id ids s a k j found keyed h = ground (
    arith,
    eq_iff id k,
    get_album-remove_media_from_album id ids s a k found keyed h,
    contains-select (λ x. not (contains ids x)) a.media_ids j,
  )

doubled-not-IsDistinct : (xs : List String) (x : String) → ¬ IsDistinct (xs ++ x ∷ x ∷ [])
unfolding contains
doubled-not-IsDistinct [] x d = ground (arith, eq_refl x)
doubled-not-IsDistinct (y ∷ ys) x d = doubled-not-IsDistinct ys x d.1

module _ (E : Env) where
  -- An id given twice to AddMediaToAlbum that the album lacks is stored twice: the loop does not
  -- record what it appends, so the album that it stores has a repeated id.
  add_media_to_album_doubles :
      (id x : String) (s : Store E) (a b : Album)
      → get_album E s id ≡ ok (some a)
      → a.id ≡ id
      → contains a.media_ids x ≡ false
      → (add_media_to_album E id (x ∷ x ∷ []) s).0 ≡ ok tt
      → get_album E (add_media_to_album E id (x ∷ x ∷ []) s).1 id ≡ ok (some b)
      → ¬ IsDistinct b.media_ids
  add_media_to_album_doubles id x s a b found keyed new h e d =
      let stored : b.media_ids ≡ a.media_ids ++ x ∷ x ∷ [] =
        ground (
          arith,
          eq_refl id,
          get_album-add_media_to_album E id (x ∷ x ∷ []) s a id found keyed h,
        ) in
      doubled-not-IsDistinct a.media_ids x (subst IsDistinct stored d)
