-- ===== src/Storage/Favorites/Users.antt =====
-- The favorites of each user: SetUserFavorite and IsUserFavorite.
use photo_core.Base.{
  String, Bool, true, false, ◌&&◌, List, [], ◌∷◌, ◌++◌, some, ◌≡◌, ◌==◌, eq_iff, if◌then◌else◌, ok,
  arith, Bool-cases, inl, inr, contains, without, contains-without, loaded-cases, contains-append,
}
use mathlib.Core.Path.{subst}
use photo_core.Disk.Table.{find, find-write_lenient, write_lenient}
use photo_core.Storage.Db.{Env, Store}
use photo_core.Storage.Index.{stored_ids, IsReadable}
use photo_core.Storage.Index.Laws.{get_index-stored_ids}
use photo_core.Storage.Library.{get_media}
use photo_core.Storage.Favorites.{put_user_favorite, set_user_favorite, is_user_favorite}

module _ (E : Env) where
  find-write_names :
      (b b' : E.disk.Bucket) (k j : String) (ids : List String)
      → write_lenient E.disk E.names_json b k ids ≡ ok b'
      → find E.disk E.names_json b' j
        ≡ (if k == j then some (ids, true) else find E.disk E.names_json b j)
  find-write_names b b' k j ids h =
      let (d, e) = E.names_total ids in find-write_lenient E.disk E.names_json b b' k j ids d e h

  stored_ids-write_names :
      (b b' : E.disk.Bucket) (k j : String) (ids : List String)
      → write_lenient E.disk E.names_json b k ids ≡ ok b'
      → stored_ids E.disk E.names_json b' j
        ≡ (if k == j then ids else stored_ids E.disk E.names_json b j)
  unfolding stored_ids
  stored_ids-write_names b b' k j ids h = ground (arith, find-write_names b b' k j ids h)

  write_names-IsReadable :
      (b b' : E.disk.Bucket) (k : String) (ids : List String)
      → IsReadable E.disk E.names_json b
      → write_lenient E.disk E.names_json b k ids ≡ ok b'
      → IsReadable E.disk E.names_json b'
  write_names-IsReadable b b' k ids r h = record {
    valid = λ j js v e. ground (arith, find-write_names b b' k j ids h, r.valid j js v);
  }

  contains-put_user_favorite :
      (user_id media_id : String) (flag : Bool) (b b' : E.disk.Bucket) (u j : String)
      → put_user_favorite E user_id media_id flag b ≡ ok b'
      → contains (stored_ids E.disk E.names_json b' u) j ≡ (
          if user_id == u && media_id == j
          then flag
          else contains (stored_ids E.disk E.names_json b u) j)
  unfolding put_user_favorite contains
  contains-put_user_favorite user_id media_id true b b' u j h =
      let ids = stored_ids E.disk E.names_json b user_id in
      ground (
        arith,
        eq_iff user_id u,
        eq_iff media_id j,
        stored_ids-write_names b b' user_id u (ids ++ media_id ∷ []),
        contains-append ids (media_id ∷ []) j,
      )
  contains-put_user_favorite user_id media_id false b b' u j h =
      let ids = stored_ids E.disk E.names_json b user_id in
      ground (
        arith,
        eq_iff user_id u,
        eq_iff media_id j,
        stored_ids-write_names b b' user_id u (without media_id ids),
        contains-without media_id ids j,
      )

  put_user_favorite-IsReadable :
      (user_id media_id : String) (flag : Bool) (b b' : E.disk.Bucket)
      → IsReadable E.disk E.names_json b
      → put_user_favorite E user_id media_id flag b ≡ ok b'
      → IsReadable E.disk E.names_json b'
  unfolding put_user_favorite
  put_user_favorite-IsReadable user_id media_id true b b' r h =
      elim (Bool-cases (contains (stored_ids E.disk E.names_json b user_id) media_id)) [
        | inl old ↦
            let same : b ≡ b' = ground arith in subst (IsReadable E.disk E.names_json) same r
        | inr new ↦ write_names-IsReadable b b' user_id _ r (rw new at h)
      ]
  put_user_favorite-IsReadable user_id media_id false b b' r h =
      write_names-IsReadable b b' user_id _ r h

  set_user_favorite-put :
      (user_id media_id : String) (flag : Bool) (s : Store E)
      → (set_user_favorite E user_id media_id flag s).0 ≡ ok tt
      → put_user_favorite E user_id media_id flag s.userfav
        ≡ ok (set_user_favorite E user_id media_id flag s).1.userfav
  unfolding set_user_favorite
  set_user_favorite-put user_id media_id flag s h = elim (loaded-cases (get_media E s media_id)) [
    | inl missing ↦ ground arith
    | inr (m, found) ↦ ground arith
  ]

  is_user_favorite-eq :
      (s : Store E) (u j : String)
      → IsReadable E.disk E.names_json s.userfav
      → is_user_favorite E s u j ≡ ok (contains (stored_ids E.disk E.names_json s.userfav u) j)
  unfolding is_user_favorite
  is_user_favorite-eq s u j r = rw (get_index-stored_ids E.disk E.names_json s.userfav u r)

  -- After a SetUserFavorite that succeeds, IsUserFavorite answers the given flag for that user and
  -- media, and what it answered before for every other user or media.
  pub is_user_favorite-set_user_favorite :
      (user_id media_id : String) (flag : Bool) (s : Store E) (u j : String)
      → IsReadable E.disk E.names_json s.userfav
      → (set_user_favorite E user_id media_id flag s).0 ≡ ok tt
      → is_user_favorite E (set_user_favorite E user_id media_id flag s).1 u j
        ≡ (if user_id == u && media_id == j then ok flag else is_user_favorite E s u j)
  is_user_favorite-set_user_favorite user_id media_id flag s u j r h =
      let t = (set_user_favorite E user_id media_id flag s).1 in
      let p = set_user_favorite-put user_id media_id flag s h in
      let r' = put_user_favorite-IsReadable user_id media_id flag s.userfav t.userfav r p in
      ground (
        arith,
        is_user_favorite-eq s u j r,
        is_user_favorite-eq t u j r',
        contains-put_user_favorite user_id media_id flag s.userfav t.userfav u j p,
      )
