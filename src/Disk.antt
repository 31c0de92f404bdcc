-- ===== src/Disk.antt =====
-- What the storage layer relies on and does not implement: the buckets of go.etcd.io/bbolt and
-- encoding/json. Both are parameters: a `Disk` is a record of operations with their documented
-- behaviour, and every definition of the storage layer takes one.
pub mod Table
use photo_core.Base.{
  String, Bool, true, List, Option, some, none, ◌≡◌, ◌==◌, if◌then◌else◌, lookup, HasKeysOnce,
}

-- json.Marshal fails on what JSON cannot express (a NaN among the floats). json.Unmarshal leaves
-- a value in its target also when it fails, beside the flag that tells whether it succeeded.
pub record Json (Bytes A : Type 0) : Type 0 where
  pub marshal : A → Option Bytes
  pub unmarshal : Bytes → A × Bool
  pub unmarshal-marshal : (a : A) (d : Bytes) → marshal a ≡ some d → unmarshal d ≡ (a, true)

-- One bucket: `put` fails on a key or a value that bbolt refuses (an empty key), `delete` of a
-- missing key does nothing, and a cursor or ForEach meets each key once. `nil` is the nil slice,
-- which a failed Marshal returns beside its error.
pub record Disk : Type 1 where
  pub Bytes : Type 0
  pub Bucket : Type 0
  pub nil : Bytes
  pub get : Bucket → String → Option Bytes
  pub put : Bucket → String → Bytes → Option Bucket
  pub delete : Bucket → String → Bucket
  pub entries : Bucket → List (String × Bytes)
  pub get-put :
      (b b' : Bucket) (k j : String) (d : Bytes)
      → put b k d ≡ some b'
      → get b' j ≡ (if k == j then some d else get b j)
  pub put_empty_key : (b : Bucket) (d : Bytes) → put b "" d ≡ none
  pub get-delete :
      (b : Bucket) (k j : String) → get (delete b k) j ≡ (if k == j then none else get b j)
  pub lookup-entries : (b : Bucket) (k : String) → lookup k (entries b) ≡ get b k
  pub entries-HasKeysOnce : (b : Bucket) → HasKeysOnce (entries b)
