-- ===== src/Storage/Removal/Users.antt =====
-- removeMediaFromAllUserFavorites takes the media out of the favorites of every user.
use photo_core.Base.{
  ◌≤◌, String, Bool, true, false, List, [], ◌∷◌, some, none, ◌≡◌, ◌≢◌, refl, ◌==◌, eq_iff, eq_refl,
  if◌then◌else◌, ok, arith, contains, without, contains-without, without_absent, length, lookup,
  HasKeysOnce,
}
use photo_core.Disk.Table.{find, write_lenient, find-write_lenient}
use photo_core.Storage.Db.{Env, Store}
use photo_core.Storage.Index.{stored_ids, IsReadable}
use photo_core.Storage.Favorites.{
  drop_user_favorite, drop_user_favorites, remove_media_from_all_user_favorites,
}
use photo_core.Storage.Removal.Conditions.{AcceptsWrites}

length-without-le : (a : String) (xs : List String) → length (without a xs) ≤ length xs
unfolding without
length-without-le a [] = omega arith
length-without-le a (x ∷ xs) = ground (arith, length-without-le a xs)

-- The code compares lengths to see whether the id was there.
contains_of_length-without :
    (a : String) (xs : List String) → length (without a xs) ≡ length xs → contains xs a ≡ false
unfolding contains without
contains_of_length-without a [] h = refl
contains_of_length-without a (x ∷ xs) h =
    ground (arith, length-without-le a xs, contains_of_length-without a xs)

module _ (E : Env) (accepts : AcceptsWrites E) (id : String) where
  -- The entries of `l` are still to be visited, and the others hold the media no more.
  record Swept (l : List (String × E.disk.Bytes)) (b : E.disk.Bucket) : Type 0 where
    clean :
        (u : String) → lookup u l ≡ none → contains (stored_ids E.disk E.names_json b u) id ≡ false
    same :
        (u : String) (v : E.disk.Bytes)
        → lookup u l ≡ some v
        → find E.disk E.names_json b u ≡ some (E.names_json.unmarshal v)
    readable : IsReadable E.disk E.names_json b
    no_empty : find E.disk E.names_json b "" ≡ none

  find-write_ids :
      (b b' : E.disk.Bucket) (k j : String) (ids : List String)
      → write_lenient E.disk E.names_json b k ids ≡ ok b'
      → find E.disk E.names_json b' j
        ≡ (if k == j then some (ids, true) else find E.disk E.names_json b j)
  find-write_ids b b' k j ids h =
      let (d, e) = E.names_total ids in find-write_lenient E.disk E.names_json b b' k j ids d e h

  find-drop_user_favorite :
      (b : E.disk.Bucket) (k j : String) (ids : List String)
      → k ≢ ""
      → find E.disk E.names_json b k ≡ some (ids, true)
      → find E.disk E.names_json (drop_user_favorite E id k ids true b) j
        ≡ (if k == j then some (without id ids, true) else find E.disk E.names_json b j)
  unfolding drop_user_favorite
  find-drop_user_favorite b k j ids named found =
      let (b', wrote) = accepts.names_lenient b k (without id ids) named in
      ground (
        arith,
        eq_iff k j,
        find-write_ids b b' k j (without id ids) wrote,
        without_absent id ids,
        contains_of_length-without id ids,
      )

  all-Swept :
      (b : E.disk.Bucket)
      → IsReadable E.disk E.names_json b
      → E.disk.get b "" ≡ none
      → Swept (E.disk.entries b) b
  unfolding stored_ids find contains
  all-Swept b r no_empty = record {
    clean = λ u e. ground (arith, E.disk.lookup-entries b u);
    same = λ u v e. ground (arith, E.disk.lookup-entries b u);
    readable = r;
    no_empty = ground arith;
  }

  module _ (b : E.disk.Bucket) (k : String) (ids : List String)
      (l : List (String × E.disk.Bytes)) where
    step-Swept :
        lookup k l ≡ none
        → k ≢ ""
        → find E.disk E.names_json b k ≡ some (ids, true)
        → ((u : String)
            → (k == u) ≡ false
            → lookup u l ≡ none
            → contains (stored_ids E.disk E.names_json b u) id ≡ false)
        → ((u : String) (v : E.disk.Bytes)
            → lookup u l ≡ some v
            → find E.disk E.names_json b u ≡ some (E.names_json.unmarshal v))
        → IsReadable E.disk E.names_json b
        → find E.disk E.names_json b "" ≡ none
        → Swept l (drop_user_favorite E id k ids true b)
    unfolding stored_ids
    step-Swept fresh named found clean same readable no_empty = record {
      clean = λ u e. ground (
        arith,
        eq_refl id,
        find-drop_user_favorite b k u ids named found,
        contains-without id ids id,
        clean u,
      );
      same = λ u v e.
          ground (arith, eq_iff k u, find-drop_user_favorite b k u ids named found, same u v e);
      readable = record {
        valid = λ u js w e.
            ground (arith, find-drop_user_favorite b k u ids named found, readable.valid u js w);
      };
      no_empty = ground (arith, eq_iff k "", find-drop_user_favorite b k "" ids named found);
    }

  entry-Swept :
      (b : E.disk.Bucket) (k : String) (v : E.disk.Bytes) (p : List String × Bool)
      (l : List (String × E.disk.Bytes))
      → E.names_json.unmarshal v ≡ p
      → lookup k l ≡ none
      → Swept ((k, v) ∷ l) b
      → Swept l (drop_user_favorite E id k p.0 p.1 b)
  entry-Swept b k v p l e fresh h =
      let found : find E.disk E.names_json b k ≡ some p = ground (arith, eq_refl k, h.same k v) in
      let valid : p.1 ≡ true = h.readable.valid k p.0 p.1 found in
      rw valid (
        step-Swept b k p.0 l fresh (λ none_named. ground (arith, h.no_empty)) (ground arith)
          (λ u other unseen. h.clean u (ground arith))
          (λ u w seen. h.same u w (ground (arith, eq_iff k u))) h.readable h.no_empty)

  drop_user_favorites-Swept :
      (l : List (String × E.disk.Bytes)) (b : E.disk.Bucket)
      → HasKeysOnce l
      → Swept l b
      → Swept [] (drop_user_favorites E id l b)
  unfolding drop_user_favorites
  drop_user_favorites-Swept [] b once h = h
  drop_user_favorites-Swept ((k, v) ∷ l) b once h =
      drop_user_favorites-Swept l _ once.1
        (entry-Swept b k v (E.names_json.unmarshal v) l refl once.0 h)

  -- removeMediaFromAllUserFavorites leaves the media in no user's favorites.
  pub contains-remove_media_from_all_user_favorites :
      (s : Store E) (u : String)
      → IsReadable E.disk E.names_json s.userfav
      → E.disk.get s.userfav "" ≡ none
      → contains
          (stored_ids E.disk E.names_json (remove_media_from_all_user_favorites E id s).userfav u)
          id
        ≡ false
  unfolding remove_media_from_all_user_favorites
  contains-remove_media_from_all_user_favorites s u r no_empty =
      (drop_user_favorites-Swept (E.disk.entries s.userfav) s.userfav
          (E.disk.entries-HasKeysOnce s.userfav) (all-Swept s.userfav r no_empty)).clean
        u refl
