-- ===== src/Storage/Index.antt =====
-- The index buckets of internal/storage/bbolt.go: each value is the JSON list of the ids under a
-- key. addToIndex, removeFromIndex and getIndex.
pub mod Laws
use photo_core.Base.{
  String, Bool, true, List, [], ◌∷◌, ◌++◌, some, none, ◌≡◌, if◌then◌else◌, Result, ok, err,
  json_error, contains, without,
}
use photo_core.Disk.{Disk, Json}
use photo_core.Disk.Table.{find, write}

module _ (D : Disk) (J : Json D.Bytes (List String)) where
  -- `var ids []string; if data != nil { json.Unmarshal(data, &ids) }`
  unfoldable pub stored_ids : D.Bucket → String → List String
  stored_ids b k = elim (find D J b k) [ none ↦ [] | some (ids, _) ↦ ids ]

  unfoldable pub add_to_index : D.Bucket → String → String → Result D.Bucket
  add_to_index b key id =
      let ids = stored_ids b key in
      if contains ids id then ok b else write D J b key (ids ++ id ∷ [])

  -- What removeFromIndex writes back: an empty list goes with its key.
  unfoldable pub put_ids : D.Bucket → String → List String → Result D.Bucket
  put_ids b key [] = ok (D.delete b key)
  put_ids b key (id ∷ ids) = write D J b key (id ∷ ids)

  unfoldable pub remove_from_index : D.Bucket → String → String → Result D.Bucket
  remove_from_index b key id = elim (find D J b key) [
    | none ↦ ok b
    | some (ids, valid) ↦ if valid then put_ids b key (without id ids) else ok b
  ]

  unfoldable pub get_index : D.Bucket → String → Result (List String)
  get_index b key = elim (find D J b key) [
    | none ↦ ok []
    | some (ids, valid) ↦ if valid then ok ids else err json_error
  ]

  -- Every value of the bucket is the JSON of a list.
  pub record IsReadable (b : D.Bucket) : Type 0 where
    pub valid :
        (k : String) (ids : List String) (v : Bool) → find D J b k ≡ some (ids, v) → v ≡ true
