-- ===== src/Storage/Removal/Conditions.antt =====
-- What DeleteMedia needs to leave no reference behind: it drops the errors of its first steps.
use photo_core.Base.{String, List, some, none, ◌≡◌, ◌≢◌, ok}
use photo_core.Disk.Table.{write, write_lenient}
use photo_core.Storage.Models.{Album}
use photo_core.Storage.Db.{Env, Store}
use photo_core.Storage.Index.{IsReadable}
use photo_core.Storage.Albums.{get_album}

-- The database takes a list of ids, and an album, under every key but the empty one: no value or
-- key is beyond its limits.
pub record AcceptsWrites (E : Env) : Type 0 where
  pub names :
      (b : E.disk.Bucket) (k : String) (ids : List String)
      → k ≢ ""
      → (b' : E.disk.Bucket) × (write E.disk E.names_json b k ids ≡ ok b')
  pub names_lenient :
      (b : E.disk.Bucket) (k : String) (ids : List String)
      → k ≢ ""
      → (b' : E.disk.Bucket) × (write_lenient E.disk E.names_json b k ids ≡ ok b')
  pub albums :
      (b : E.disk.Bucket) (k : String) (a : Album)
      → k ≢ ""
      → (b' : E.disk.Bucket) × (write E.disk E.albums_json b k a ≡ ok b')

-- The index values are JSON lists, and an album is stored under its id.
pub record IsSound (E : Env) (s : Store E) : Type 0 where
  pub dirs : IsReadable E.disk E.names_json s.idx_dir
  pub favorites : IsReadable E.disk E.names_json s.favorites
  pub users : IsReadable E.disk E.names_json s.userfav
  pub no_empty_user : E.disk.get s.userfav "" ≡ none
  pub albums : (k : String) (a : Album) → get_album E s k ≡ ok (some a) → a.id ≡ k
