-- ===== src/Web/Shared.antt =====
-- The shared library, and the changes that leave it as it is.
use photo_core.Base.{String, Bool, true, false, ◌||◌, ◌≡◌, refl, ◌==◌, if◌then◌else◌, arith}
use photo_core.Storage.Models.{role_admin, role_editor}
use photo_core.Storage.Db.{Env, Store}
use photo_core.Cache.Media.{MediaCache}
use photo_core.Web.{Web, Reply, error}

-- The shared library: everything in the database but sessions, API tokens and the favorites of
-- each user.
pub record SameStore (E : Env) (s s' : Store E) : Type 0 where
  pub media : s'.media ≡ s.media
  pub users : s'.users ≡ s.users
  pub albums : s'.albums ≡ s.albums
  pub tags : s'.tags ≡ s.tags
  pub idx_dir : s'.idx_dir ≡ s.idx_dir
  pub idx_date : s'.idx_date ≡ s.idx_date
  pub idx_tag : s'.idx_tag ≡ s.idx_tag
  pub favorites : s'.favorites ≡ s.favorites

-- The shared library and the files.
pub record SameLibrary (E : Env) (w w' : Web E) : Type 0 where
  pub store : SameStore E w.store w'.store
  pub removed : w'.removed ≡ w.removed
  pub thumbs_removed : w'.thumbs_removed ≡ w.thumbs_removed

module _ (E : Env) where
  pub same : (s : Store E) → SameStore E s s
  same s = record {
    media = refl;
    users = refl;
    albums = refl;
    tags = refl;
    idx_dir = refl;
    idx_date = refl;
    idx_tag = refl;
    favorites = refl;
  }

  pub with_store :
      (w : Web E) (s : Store E) → SameStore E w.store s → SameLibrary E w (record w { store = s })
  with_store w s h = record { store = h; removed = refl; thumbs_removed = refl }

  pub unchanged : (w : Web E) → SameLibrary E w w
  unchanged w = record { store = same w.store; removed = refl; thumbs_removed = refl }

  pub recached : (w : Web E) (c : MediaCache) → SameLibrary E w (record w { cache = c })
  recached w c = record { store = same w.store; removed = refl; thumbs_removed = refl }

  -- A transaction on a bucket that is not shared.
  pub put_sessions : (s : Store E) (b : E.disk.Bucket) → SameStore E s (record s { sessions = b })
  put_sessions s b = record {
    media = refl;
    users = refl;
    albums = refl;
    tags = refl;
    idx_dir = refl;
    idx_date = refl;
    idx_tag = refl;
    favorites = refl;
  }

  pub put_tokens : (s : Store E) (b : E.disk.Bucket) → SameStore E s (record s { api_tokens = b })
  put_tokens s b = record {
    media = refl;
    users = refl;
    albums = refl;
    tags = refl;
    idx_dir = refl;
    idx_date = refl;
    idx_tag = refl;
    favorites = refl;
  }

  pub put_userfav : (s : Store E) (b : E.disk.Bucket) → SameStore E s (record s { userfav = b })
  put_userfav s b = record {
    media = refl;
    users = refl;
    albums = refl;
    tags = refl;
    idx_dir = refl;
    idx_date = refl;
    idx_tag = refl;
    favorites = refl;
  }

  pub denied :
      (w : Web E) (allowed : Bool) (answer : Reply × Web E)
      → allowed ≡ false
      → SameLibrary E w (if allowed then answer else (error 403, w)).1
  denied w true answer e = ground arith
  denied w false answer e = unchanged w

  pub either_way :
      (w : Web E) (test : Bool) (yes_answer no_answer : Reply × Web E)
      → SameLibrary E w yes_answer.1
      → SameLibrary E w no_answer.1
      → SameLibrary E w (if test then yes_answer else no_answer).1
  either_way w true a b h k = h
  either_way w false a b h k = k

  pub not_editor :
      (role : String)
      → (role == role_admin) ≡ false
      → (role == role_editor) ≡ false
      → (role == role_admin || role == role_editor) ≡ false
  not_editor role a e = ground arith
