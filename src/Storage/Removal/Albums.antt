-- ===== src/Storage/Removal/Albums.antt =====
-- removeMediaFromAllAlbums takes the media out of every album.
use photo_core.Base.{
  String, true, false, not, List, [], ◌∷◌, some, none, ◌≡◌, ◌≢◌, eq_iff, eq_refl, if◌then◌else◌, ok,
  err, arith, Bool-cases, bool_absurd, inl, inr, contains, lookup, loaded-cases, select, length,
  Error, ◌⊎◌,
}
use photo_core.Disk.Table.{rows, decode_all}
use photo_core.Storage.Models.{Album}
use photo_core.Storage.Db.{Env, Store}
use photo_core.Storage.Db.Laws.{load-named, load-found}
use photo_core.Storage.Albums.{
  get_album, save_album, remove_media_from_album, remove_from_albums, remove_media_from_all_albums,
  list_albums,
}
use photo_core.Storage.Albums.Laws.{
  get_album-remove_media_from_album, in_album, in_album-remove_media_from_album,
}
use photo_core.Storage.Removal.Conditions.{AcceptsWrites}

-- The albums of a list that hold the media, by id.
pending : String → List Album → List String
pending id [] = []
pending id (a ∷ l) =
    let rest = pending id l in if contains a.media_ids id then a.id ∷ rest else rest

module _ (E : Env) (accepts : AcceptsWrites E) (id : String) where
  record Pending (l : List Album) (s : Store E) : Type 0 where
    covered : (k : String) → in_album E s k id ≡ true → contains (pending id l) k ≡ true
    keyed : (k : String) (a : Album) → get_album E s k ≡ ok (some a) → a.id ≡ k

  save_album-ok : (a : Album) (s : Store E) → a.id ≢ "" → (save_album E a s).0 ≡ ok tt
  unfolding save_album
  save_album-ok a s named =
      let (b, wrote) =
        accepts.albums s.albums a.id (record a { media_count = length a.media_ids }) named in
      ground arith

  remove_media_from_album-ok :
      (k : String) (s : Store E) (a : Album)
      → get_album E s k ≡ ok (some a)
      → (remove_media_from_album E k (id ∷ []) s).0 ≡ ok tt
  unfolding remove_media_from_album get_album
  remove_media_from_album-ok k s a found = ground (
    arith,
    load-named E.disk E.albums_json (λ a. a.id) s.albums k a found,
    save_album-ok (record a { media_ids = select (λ x. not (contains (id ∷ []) x)) a.media_ids }) s,
  )

  remove_media_from_album-missing :
      (k : String) (s : Store E)
      → (get_album E s k ≡ ok none) ⊎ ((e : Error) × (get_album E s k ≡ err e))
      → (remove_media_from_album E k (id ∷ []) s).1 ≡ s
  unfolding remove_media_from_album
  remove_media_from_album-missing k s h = ground arith

  in_album-missing :
      (k : String) (s : Store E)
      → (get_album E s k ≡ ok none) ⊎ ((e : Error) × (get_album E s k ≡ err e))
      → in_album E s k id ≡ false
  unfolding in_album
  in_album-missing k s h = ground arith

  remove-Pending :
      (a : Album) (l : List Album) (s : Store E)
      → contains a.media_ids id ≡ true
      → Pending (a ∷ l) s
      → Pending l (remove_media_from_album E a.id (id ∷ []) s).1
  unfolding pending contains
  remove-Pending a l s has p = elim (loaded-cases (get_album E s a.id)) [
    | inl missing ↦ rw (remove_media_from_album-missing a.id s missing) (record {
      covered = λ k e. ground (arith, eq_iff a.id k, p.covered k, in_album-missing a.id s missing);
      keyed = p.keyed;
    })
    | inr (b, found) ↦
        let done = remove_media_from_album-ok a.id s b found in
        record {
          covered = λ k e. ground (
            arith,
            eq_refl id,
            p.covered k,
            in_album-remove_media_from_album E a.id (id ∷ []) s b k id found (p.keyed a.id b found)
                done,
          );
          keyed = λ k c e. ground (
            arith,
            eq_iff a.id k,
            p.keyed k c,
            p.keyed a.id b found,
            get_album-remove_media_from_album E a.id (id ∷ []) s b k found (p.keyed a.id b found)
                done,
          );
        }
  ]

  skip-Pending :
      (a : Album) (l : List Album) (s : Store E)
      → contains a.media_ids id ≡ false
      → Pending (a ∷ l) s
      → Pending l s
  unfolding pending
  skip-Pending a l s lacks p = record {
    covered = λ k e. ground (arith, p.covered k);
    keyed = p.keyed;
  }

  remove_from_albums-Pending :
      (l : List Album) (s : Store E) → Pending l s → Pending [] (remove_from_albums E id l s)
  unfolding remove_from_albums
  remove_from_albums-Pending [] s p = p
  remove_from_albums-Pending (a ∷ l) s p = elim (Bool-cases (contains a.media_ids id)) [
    | inl has ↦ rw has (remove_from_albums-Pending l _ (remove-Pending a l s has p))
    | inr lacks ↦ rw lacks (remove_from_albums-Pending l s (skip-Pending a l s lacks p))
  ]

  pending-decode_all :
      (l : List (String × E.disk.Bytes)) (k : String) (d : E.disk.Bytes) (a : Album)
      → lookup k l ≡ some d
      → E.albums_json.unmarshal d ≡ (a, true)
      → contains a.media_ids id ≡ true
      → contains (pending id (decode_all E.disk E.albums_json l)) a.id ≡ true
  unfolding decode_all pending contains
  pending-decode_all [] k d a e valid has = cc
  pending-decode_all ((j, w) ∷ l) k d a e valid has =
      ground (arith, eq_iff j k, eq_refl a.id, pending-decode_all l k d a)

  in_album-found :
      (k : String) (s : Store E)
      → in_album E s k id ≡ true
      → (a : Album) × (get_album E s k ≡ ok (some a)) × (contains a.media_ids id ≡ true)
  unfolding in_album
  in_album-found k s h = elim (loaded-cases (get_album E s k)) [
    | inl missing ↦ bool_absurd h (in_album-missing k s missing)
    | inr (a, found) ↦ (a, found, ground arith)
  ]

  list_albums-Pending :
      (s : Store E)
      → ((k : String) (a : Album) → get_album E s k ≡ ok (some a) → a.id ≡ k)
      → Pending (list_albums E s) s
  unfolding list_albums rows get_album
  list_albums-Pending s keyed = record {
    covered = λ k e.
        let (a, found, has) = in_album-found k s e in
        let (d, at, valid) = load-found E.disk E.albums_json (λ a. a.id) s.albums k a found in
        ground (
          arith,
          keyed k a found,
          E.disk.lookup-entries s.albums k,
          pending-decode_all (E.disk.entries s.albums) k d a,
        );
    keyed = keyed;
  }

  -- removeMediaFromAllAlbums leaves the media in no album.
  pub in_album-remove_media_from_all_albums :
      (s : Store E) (k : String)
      → ((k : String) (a : Album) → get_album E s k ≡ ok (some a) → a.id ≡ k)
      → in_album E (remove_media_from_all_albums E id s) k id ≡ false
  unfolding remove_media_from_all_albums pending contains
  in_album-remove_media_from_all_albums s k keyed =
      let p = remove_from_albums-Pending (list_albums E s) s (list_albums-Pending s keyed) in
      let empty = p.covered k in ground (arith, empty)
