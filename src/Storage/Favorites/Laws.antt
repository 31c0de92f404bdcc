-- ===== src/Storage/Favorites/Laws.antt =====
-- The global favorites: the flags of the records and the index agree.
use photo_core.Base.{
  String, Bool, true, false, not, some, none, ◌≡◌, ◌==◌, eq_iff, if◌then◌else◌, Error, ok, err,
  arith, Result-cases, loaded-cases, ◌⊎◌, inl, inr, contains, contains-keep_new, contains-without,
}
use mathlib.Core.Path.{subst, sym}
use photo_core.Disk.Table.{write}
use photo_core.Storage.Models.{Media}
use photo_core.Storage.Db.{Env, Store}
use photo_core.Storage.Db.Laws.{load-write}
use photo_core.Storage.Index.{stored_ids, IsReadable}
use photo_core.Storage.Index.Laws.{
  stored_ids-add_to_index, stored_ids-remove_from_index, add_to_index-IsReadable,
  remove_from_index-IsReadable,
}
use photo_core.Storage.Library.{get_media}
use photo_core.Storage.Favorites.{global, index_favorite, put_favorite, toggle_favorite}

module _ (E : Env) where
  -- The flag of the record under an id; an id with no record is no favorite.
  unfoldable pub is_marked : Store E → String → Bool
  is_marked s id = elim (get_media E s id) [
    | err e ↦ false
    | ok none ↦ false
    | ok (some m) ↦ m.is_favorite
  ]

  pub record FavoritesAgree (s : Store E) : Type 0 where
    pub agree :
        (id : String)
        → is_marked s id ≡ contains (stored_ids E.disk E.names_json s.favorites global) id
    pub keyed : (id : String) (m : Media) → get_media E s id ≡ ok (some m) → m.id ≡ id
    pub readable : IsReadable E.disk E.names_json s.favorites

  -- The two writes of a put_favorite that succeeds.
  record Put (id : String) (m : Media) (s t : Store E) : Type 0 where
    media : write E.disk E.media_json s.media m.id m ≡ ok t.media
    favorites : index_favorite E m.is_favorite s.favorites id ≡ ok t.favorites

  put_favorite-Put :
      (id : String) (m : Media) (s : Store E)
      → (put_favorite E id m s).0 ≡ ok tt
      → Put id m s (put_favorite E id m s).1
  unfolding put_favorite
  put_favorite-Put id m s h = record { media = ground arith; favorites = ground arith }

  put_favorite_rollback :
      (id : String) (m : Media) (s : Store E) (e : Error)
      → (put_favorite E id m s).0 ≡ err e
      → (put_favorite E id m s).1 ≡ s
  unfolding put_favorite
  put_favorite_rollback id m s e h = ground arith

  pub get_media-put_favorite :
      (id : String) (m : Media) (s : Store E) (j : String)
      → (put_favorite E id m s).0 ≡ ok tt
      → get_media E (put_favorite E id m s).1 j
        ≡ (if m.id == j then ok (some m) else get_media E s j)
  unfolding get_media
  get_media-put_favorite id m s j h =
      load-write E.disk E.media_json (λ m. m.id) s.media _ j m (put_favorite-Put id m s h).media

  contains-index_favorite :
      (flag : Bool) (b b' : E.disk.Bucket) (id j : String)
      → IsReadable E.disk E.names_json b
      → index_favorite E flag b id ≡ ok b'
      → contains (stored_ids E.disk E.names_json b' global) j
        ≡ (if id == j then flag else contains (stored_ids E.disk E.names_json b global) j)
  unfolding index_favorite
  contains-index_favorite true b b' id j r h =
      rw (stored_ids-add_to_index E.disk E.names_json b b' global id global h)
        (rw contains-keep_new (ground arith))
  contains-index_favorite false b b' id j r h =
      rw (stored_ids-remove_from_index E.disk E.names_json b b' global id global r h)
        (rw contains-without (ground arith))

  index_favorite-IsReadable :
      (flag : Bool) (b b' : E.disk.Bucket) (id : String)
      → IsReadable E.disk E.names_json b
      → index_favorite E flag b id ≡ ok b'
      → IsReadable E.disk E.names_json b'
  unfolding index_favorite
  index_favorite-IsReadable true b b' id r h =
      add_to_index-IsReadable E.disk E.names_json b b' global id r h
  index_favorite-IsReadable false b b' id r h =
      remove_from_index-IsReadable E.disk E.names_json b b' global id r h

  put_favorite-FavoritesAgree :
      (id : String) (m : Media) (s : Store E)
      → m.id ≡ id
      → FavoritesAgree s
      → FavoritesAgree (put_favorite E id m s).1
  put_favorite-FavoritesAgree id m s keyed a = elim (Result-cases (put_favorite E id m s).0) [
    | inr (e, failed) ↦ rw (put_favorite_rollback id m s e failed) a
    | inl (tt, done) ↦ record {
      agree = λ j.
          unfold is_marked in
          ground (
            arith,
            get_media-put_favorite id m s j done,
            contains-index_favorite m.is_favorite s.favorites _ id j a.readable
                (put_favorite-Put id m s done).favorites,
            a.agree j,
          );
      keyed =
          λ j n e. ground (arith, eq_iff m.id j, get_media-put_favorite id m s j done, a.keyed j n);
      readable =
          index_favorite-IsReadable m.is_favorite s.favorites _ id a.readable
            (put_favorite-Put id m s done).favorites;
    }
  ]

  -- ToggleFavorite leaves the database as it was, or is one put_favorite on the record it found.
  toggle_favorite-eq :
      (id : String) (s : Store E)
      → ((toggle_favorite E id s).1 ≡ s)
        ⊎ ((m : Media) × (get_media E s id ≡ ok (some m))
            × ((toggle_favorite E id s).1
                ≡ (put_favorite E id (record m { is_favorite = not m.is_favorite }) s).1))
  unfolding toggle_favorite
  toggle_favorite-eq id s = elim (loaded-cases (get_media E s id)) [
    | inl missing ↦ inl (ground arith)
    | inr (m, found) ↦ inr (m, found, ground arith)
  ]

  -- ToggleFavorite keeps the flags of the records and the favorites index in agreement, whether
  -- it succeeds or fails.
  pub toggle_favorite-FavoritesAgree :
      (id : String) (s : Store E) → FavoritesAgree s → FavoritesAgree (toggle_favorite E id s).1
  toggle_favorite-FavoritesAgree id s a = elim (toggle_favorite-eq id s) [
    | inl same ↦ subst FavoritesAgree (sym same) a
    | inr (m, found, e) ↦
        subst FavoritesAgree (sym e) (put_favorite-FavoritesAgree id _ s (a.keyed id m found) a)
  ]
