-- ===== src/Web/Calls.antt =====
-- The requests of Web.Requests together with those that work on the files: UploadMedia, ServeMedia
-- and the thumbnails, as setupRoutes of internal/web/server.go leads to them. StartScan and
-- GenerateThumbnails, which any user may ask for, start work beside the requests and are not here.
use photo_core.Base.{String, Bool, true, false, List, Option, some, ◌≡◌, refl, ◌==◌, ◌⊎◌, inl, inr}
use photo_core.Storage.Models.{Session, role_admin, role_editor}
use photo_core.Storage.Db.{Env}
use photo_core.Cache.Media.{cached_media}
use photo_core.Images.{Imaging}
use photo_core.Scanner.Records.{Files}
use photo_core.Web.{Server, Reply}
use photo_core.Web.Library.{view_media}
use photo_core.Web.Requests.{Outside, Route, dispatch}
use photo_core.Web.Serving.{
  Served, serve_media, serve_thumbnail, serve_thumbnail_size, serve_thumbnail_with_size,
}
use photo_core.Web.Upload.{UploadedFile, UploadConfig, handle_upload}
use photo_core.Web.Shared.{SameLibrary}
use photo_core.Web.Own.{view_found_lem}
use photo_core.Web.Viewers.{is_bulk_favorite, dispatch-SameLibrary}

pub data Call : Type 0 where
  routed : Route → Call
  upload_files : Bool → Option (List UploadedFile) → Call
  original : String → Call
  thumbnail : Bool → String → Call
  sized_thumbnail : Bool → String → String → Call

-- The requests by which any user changes what all share.
unfoldable pub is_open_to_all : Call → Bool
unfolding is_bulk_favorite
is_open_to_all (routed route) = is_bulk_favorite route
is_open_to_all (upload_files made form) = true
is_open_to_all _ = false

module _ (E : Env) (I : Imaging) (F : Files) (p : UploadConfig) where
  abbrev page : Served × Server E → (Reply ⊎ Served) × Server E
  page (served, st) = (inr served, st)

  unfoldable pub dispatch_call :
      Outside → Option Session → Call → Server E → (Reply ⊎ Served) × Server E
  unfolding dispatch
  dispatch_call o session (routed route) st =
      let (reply, w) = dispatch E o session route st.web in (inl reply, record st { web = w })
  dispatch_call o session (upload_files made form) st =
      let (reply, st') = handle_upload E F p o.now made session form st in (inl reply, st')
  dispatch_call o session (original id) st = page (serve_media E I o.media_moment id st)
  dispatch_call o session (thumbnail accepted id) st =
      page (serve_thumbnail E I o.media_moment accepted id st)
  dispatch_call o session (sized_thumbnail accepted id size) st =
      page (serve_thumbnail_size E I o.media_moment accepted id size st)

  -- Whatever a user who is neither an admin nor an editor asks for by a `Call`, but BulkFavorite
  -- and the upload: the media, users, albums, tags, indices and global favorites stay as they are,
  -- and no file is written or removed by the handler. A scan and the work of the pool, which such
  -- a user may start too, are no `Call`.
  pub dispatch_call-SameLibrary :
      (o : Outside) (x : Session) (call : Call) (st : Server E)
      → (x.role == role_admin) ≡ false
      → (x.role == role_editor) ≡ false
      → is_open_to_all call ≡ false
      → SameLibrary E st.web (dispatch_call o (some x) call st).1.web
        × ((dispatch_call o (some x) call st).1.files ≡ st.files)
  unfolding dispatch_call is_open_to_all serve_media serve_thumbnail serve_thumbnail_size
      serve_thumbnail_with_size view_media
  dispatch_call-SameLibrary o x (routed route) st a e b =
      (dispatch-SameLibrary E o x route st.web a e b, refl)
  dispatch_call-SameLibrary o x (upload_files made form) st a e b = absurd cc
  dispatch_call-SameLibrary o x (original id) st a e b = (
    view_found_lem E o.media_moment id st.web (cached_media o.media_moment.now id st.web.cache),
    refl,
  )
  dispatch_call-SameLibrary o x (thumbnail accepted id) st a e b = (
    view_found_lem E o.media_moment id st.web (cached_media o.media_moment.now id st.web.cache),
    refl,
  )
  dispatch_call-SameLibrary o x (sized_thumbnail accepted id size) st a e b = (
    view_found_lem E o.media_moment id st.web (cached_media o.media_moment.now id st.web.cache),
    refl,
  )
