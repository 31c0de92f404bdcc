-- ===== src/Storage/Index/Laws.antt =====
-- What addToIndex and removeFromIndex do to the ids under every key.
use photo_core.Base.{
  String, List, [], ◌∷◌, ◌++◌, ◌≡◌, ◌==◌, if◌then◌else◌, ok, without, eq_iff, Option-cases, inl,
  inr, keep_new, arith,
}
use mathlib.Core.Path.{subst}
use photo_core.Disk.{Disk, Json}
use photo_core.Disk.Table.{find, write, find-write, find-delete}
use photo_core.Storage.Index.{
  stored_ids, add_to_index, remove_from_index, put_ids, IsReadable, get_index,
}

module _ (D : Disk) (J : Json D.Bytes (List String)) where
  stored_ids-write :
      (b b' : D.Bucket) (key j : String) (ids : List String)
      → write D J b key ids ≡ ok b'
      → stored_ids D J b' j ≡ (if key == j then ids else stored_ids D J b j)
  unfolding stored_ids
  stored_ids-write b b' key j ids h = ground (arith, find-write D J b b' key j ids h)

  -- After a successful addToIndex the entry of the key holds the id behind what it held, once,
  -- and every other entry is as it was.
  pub stored_ids-add_to_index :
      (b b' : D.Bucket) (key id j : String)
      → add_to_index D J b key id ≡ ok b'
      → stored_ids D J b' j
        ≡ (if key == j then keep_new (stored_ids D J b j) id else stored_ids D J b j)
  unfolding add_to_index keep_new
  stored_ids-add_to_index b b' key id j h =
      ground (arith, eq_iff key j, stored_ids-write b b' key j (stored_ids D J b key ++ id ∷ []))

  stored_ids-put_ids :
      (b b' : D.Bucket) (key j : String) (ids : List String)
      → put_ids D J b key ids ≡ ok b'
      → stored_ids D J b' j ≡ (if key == j then ids else stored_ids D J b j)
  unfolding put_ids stored_ids
  stored_ids-put_ids b b' key j [] h = ground (arith, find-delete D J b key j)
  stored_ids-put_ids b b' key j (id ∷ ids) h = stored_ids-write b b' key j (id ∷ ids) h

  pub stored_ids-remove_from_index :
      (b b' : D.Bucket) (key id j : String)
      → IsReadable D J b
      → remove_from_index D J b key id ≡ ok b'
      → stored_ids D J b' j
        ≡ (if key == j then without id (stored_ids D J b j) else stored_ids D J b j)
  unfolding remove_from_index stored_ids without
  stored_ids-remove_from_index b b' key id j r h = elim (Option-cases (find D J b key)) [
    | inl e ↦ ground (arith, eq_iff key j)
    | inr (p, e) ↦
        ground
          (arith, eq_iff key j, r.valid key p.0 p.1, stored_ids-put_ids b b' key j (without id p.0))
  ]

  pub add_to_index-IsReadable :
      (b b' : D.Bucket) (key id : String)
      → IsReadable D J b
      → add_to_index D J b key id ≡ ok b'
      → IsReadable D J b'
  unfolding add_to_index
  add_to_index-IsReadable b b' key id r h = record {
    valid = λ k ids v e.
        ground
          (arith, find-write D J b b' key k (stored_ids D J b key ++ id ∷ []), r.valid k ids v);
  }

  put_ids-IsReadable :
      (b b' : D.Bucket) (key : String) (ids : List String)
      → IsReadable D J b
      → put_ids D J b key ids ≡ ok b'
      → IsReadable D J b'
  unfolding put_ids
  put_ids-IsReadable b b' key [] r h = record {
    valid = λ k ids v e. ground (arith, find-delete D J b key k, r.valid k ids v);
  }
  put_ids-IsReadable b b' key (id ∷ ids) r h = record {
    valid = λ k js v e. ground (arith, find-write D J b b' key k (id ∷ ids) h, r.valid k js v);
  }

  pub remove_from_index-IsReadable :
      (b b' : D.Bucket) (key id : String)
      → IsReadable D J b
      → remove_from_index D J b key id ≡ ok b'
      → IsReadable D J b'
  unfolding remove_from_index
  remove_from_index-IsReadable b b' key id r h = elim (Option-cases (find D J b key)) [
    | inl e ↦ let same : b ≡ b' = ground arith in subst (IsReadable D J) same r
    | inr (p, e) ↦
        put_ids-IsReadable b b' key (without id p.0) r (ground (arith, r.valid key p.0 p.1))
  ]

  -- On a readable bucket getIndex does not fail, and returns the stored ids.
  pub get_index-stored_ids :
      (b : D.Bucket) (key : String)
      → IsReadable D J b
      → get_index D J b key ≡ ok (stored_ids D J b key)
  unfolding get_index stored_ids
  get_index-stored_ids b key r = elim (Option-cases (find D J b key)) [
    | inl e ↦ ground arith
    | inr (p, e) ↦ ground (arith, r.valid key p.0 p.1)
  ]
