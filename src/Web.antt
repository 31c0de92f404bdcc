-- ===== src/Web.antt =====
-- The handlers of internal/web/handlers/handlers.go that change state, those that read through the
-- cache, and, in Pages and Queries, those that only read. A handler that changes state takes the
-- session of the request's context, the decoded body (`none` where the JSON is invalid) and the
-- server's state, and gives the reply and the new state. The texts of error messages are left out.
pub mod Albums
pub mod Library
pub mod Trash
pub mod Users
pub mod Upload
pub mod Timeline
pub mod Queries
pub mod Pages
pub mod Serving
pub mod Requests
pub mod Shared
pub mod Own
pub mod Coherence
pub mod Steps
pub mod Replies
pub mod Cached
pub mod Viewers
pub mod Calls
use photo_core.Base.{ℕ, String, Bool, List, Option, some, none}
use photo_core.Storage.Models.{Media, Album, User, Session, ApiToken, Stats}
use photo_core.Storage.Db.{Env, Store}
use photo_core.Cache.Media.{MediaCache}
use photo_core.Worker.Thumbnails.{ThumbnailService}

-- What the handlers work on. `removed` lists the paths given to os.Remove and `thumbs_removed` the
-- ids given to DeleteThumbnails, the last one first.
pub record Web (E : Env) : Type 0 where
  pub store : Store E
  pub cache : MediaCache
  pub removed : List String
  pub thumbs_removed : List String

-- The server, with the thumbnails that are being made, and the files by their paths.
pub record Server (E : Env) : Type 0 where
  pub web : Web E
  pub thumbs : ThumbnailService
  pub files : List (String × String)

-- A JSON reply by its content, an error by its status code.
pub data Reply : Type 0 where
  status : String → Reply
  counted : String → ℕ → Reply
  favorite : String → Bool → Reply
  album : Album → Reply
  media : Media → Reply
  account : User → Reply
  token : ApiToken → Reply
  stats : Stats → Reply
  redirect : String → Reply
  uploads : ℕ → ℕ → List String → Reply
  login_page : Reply
  error : ℕ → Reply

-- auth.GetUserID
unfoldable pub user_id_of : Option Session → String
user_id_of none = ""
user_id_of (some x) = x.user_id

-- auth.GetUserRole
unfoldable pub role_of : Option Session → String
role_of none = ""
role_of (some x) = x.role
