-- ===== src/Web/Pages.antt =====
-- The handlers of internal/web/handlers/handlers.go that only read: each takes its guards and gives
-- what its template or its JSON is made from. The build version, which every page has, is left out.
pub mod Items
pub mod Live
pub mod Grouped
pub mod Shown
use photo_core.Base.{
  ℕ, String, Bool, ◌||◌, List, Option, some, none, ◌==◌, if◌then◌else◌, Result, ok, err, map,
}
use photo_core.Storage.Models.{
  Media, Album, Tag, SearchResult, User, Session, ApiToken, role_admin, role_editor,
}
use photo_core.Storage.Db.{Env, Store}
use photo_core.Storage.Library.{list_all_media, list_trash_media, get_trash_stats, get_media_by_ids}
use photo_core.Storage.Albums.{list_albums, get_album, get_album_media}
use photo_core.Storage.Favorites.{get_user_favorites, list_user_favorites}
use photo_core.Storage.Tags.{list_all_tags, list_media_by_tag}
use photo_core.Storage.Timeline.{
  TimelineGroup, GeoPoint, get_timeline, get_timeline_media, get_geo_points,
}
use photo_core.Storage.Accounts.{list_users, list_user_api_tokens}
use photo_core.Auth.{can_edit, can_manage_users}
use photo_core.Web.{role_of, user_id_of}
use photo_core.Web.Queries
use photo_core.Web.Queries.{SearchForm, handle_search}
use photo_core.Web.Timeline.{MediaGroup, timeline_all_media}
use photo_core.Web.Pages.Items.{
  Reading, TrashItem, SafeUser, ZipEntry, trash_item, safe_user, deletion_time, taken_time, cameras,
  zip_entries,
}

-- The headers that the handlers read.
pub record Client : Type 0 where
  pub hx_request : String
  pub accept : String
  pub user_agent : String

pub record Viewer : Type 0 where
  pub username : String
  pub role : String
  pub is_admin : Bool
  pub can_edit : Bool
  pub fav_set : Option (List String)

pub data Content : Type 0 where
  albums : List Album → Content
  album_with : Album → List Media → Content
  tags : List Tag → Content
  media_list : List Media → Content
  timeline : List TimelineGroup → Content
  points : List GeoPoint → Content
  trash : List TrashItem → Content
  trash_totals : ℕ → ℕ → Content
  accounts : List User → Content
  users : List SafeUser → Content
  tokens : List ApiToken → Content
  filters : List Tag → List String → Content
  archive : List ZipEntry → Content
  capture : Bool → Content
  found : SearchResult → Content
  all_groups : List MediaGroup → Content

-- A template with the data of the viewer, a part of a page, JSON or a file, and an error.
pub data Page : Type 0 where
  html : Option Viewer → Content → Page
  partial : Content → Page
  json : Content → Page
  refused : ℕ → Page

-- A route to one of the handlers, with its parameters. A media by its id (ViewMedia, GetMediaInfo,
-- ServeMedia and its thumbnails) is none of them.
pub data View : Type 0 where
  albums_view : View
  album_view : String → View
  tags_view : View
  tag_view : String → View
  favorites_view : View
  timeline_view : View
  period_view : String → View
  points_view : View
  trash_view : View
  trash_stats_view : View
  admin_view : View
  users_view : View
  tokens_view : View
  search_view : View
  upload_view : View
  download_view : Option (List String) → View
  result_view : SearchForm → View
  all_view : View

-- A read that each handler answers with 500 if it fails.
unfoldable pub page_of {ℓ} : {A : Type ℓ} → Result A → (A → Page) → Page
page_of (ok a) page = page a
page_of (err e) page = refused 500

module _ (R : Reading) where
  unfoldable pub wants_html : Client → Bool
  wants_html c = c.hx_request == "true" || R.has_text c.accept "text/html"

  unfoldable pub part_or_json : Client → Content → Page
  unfolding wants_html
  part_or_json c content = if wants_html c then partial content else json content

  module _ (E : Env) where
    -- `if favIDs, err := h.store.GetUserFavorites(session.UserID); err == nil`
    unfoldable pub fav_set_of : Result (List String) → Option (List String)
    fav_set_of (ok ids) = some ids
    fav_set_of (err e) = none

    unfoldable pub base_data : Option Session → Store E → Option Viewer
    unfolding fav_set_of
    base_data none s = none
    base_data (some x) s = some (record {
      username = x.username;
      role = x.role;
      is_admin = x.role == role_admin;
      can_edit = x.role == role_admin || x.role == role_editor;
      fav_set = fav_set_of (get_user_favorites E s x.user_id);
    })

    unfoldable pub page_or_json : Client → Option Session → Store E → Content → Page
    unfolding wants_html base_data
    page_or_json c session s content =
        if wants_html c then html (base_data session s) content else json content

    unfoldable pub show_albums : Client → Option Session → Store E → Page
    unfolding page_or_json
    show_albums c session s = page_or_json c session s (albums (list_albums E s))

    -- GetAlbum
    unfoldable pub show_album : Client → Option Session → String → Store E → Page
    unfolding page_or_json page_of
    show_album c session id s = page_of (get_album E s id) λ found. elim found [
      | none ↦ refused 404
      | some a ↦ page_of (get_album_media E s id) λ ms. page_or_json c session s (album_with a ms)
    ]

    unfoldable pub show_tags : Store E → Page
    show_tags s = json (tags (list_all_tags E s))

    unfoldable pub show_tag : Client → String → Store E → Page
    unfolding part_or_json page_of
    show_tag c tag s = page_of (list_media_by_tag E s tag) λ ms. part_or_json c (media_list ms)

    -- ListFavorites
    unfoldable pub show_favorites : Client → Option Session → Store E → Page
    unfolding page_or_json page_of
    show_favorites c session s =
        if user_id_of session == ""
        then refused 401
        else page_of (list_user_favorites E s (user_id_of session))
            λ ms. page_or_json c session s (media_list (R.sorter.sort taken_time ms))

    unfoldable pub show_timeline : Client → Option Session → Store E → Page
    unfolding page_or_json
    show_timeline c session s = page_or_json c session s (timeline (get_timeline E R.order s))

    -- TimelineMedia
    unfoldable pub show_period : Client → String → Store E → Page
    unfolding part_or_json
    show_period c period s =
        part_or_json c (media_list (R.sorter.sort taken_time (get_timeline_media E s period)))

    unfoldable pub show_points : Store E → Page
    show_points s = json (points (get_geo_points E s))

    -- TrashPage
    unfoldable pub show_trash : Option Session → Store E → Page
    unfolding base_data trash_item
    show_trash session s =
        if can_edit (role_of session)
        then html (base_data session s)
            (trash (map (trash_item R) (R.sorter.sort deletion_time (list_trash_media E s))))
        else refused 403

    unfoldable pub show_trash_stats : Store E → Page
    show_trash_stats s = let (count, size) = get_trash_stats E s in json (trash_totals count size)

    unfoldable pub show_admin : Option Session → Store E → Page
    unfolding base_data
    show_admin session s =
        if can_manage_users (role_of session)
        then html (base_data session s) (accounts (list_users E s))
        else refused 403

    -- ListUsers
    unfoldable pub show_users : Option Session → Store E → Page
    unfolding safe_user
    show_users session s =
        if can_manage_users (role_of session)
        then json (users (map (safe_user R) (list_users E s)))
        else refused 403

    -- ListAPITokens
    unfoldable pub show_tokens : Option Session → Store E → Page
    show_tokens none s = refused 401
    show_tokens (some x) s = json (tokens (list_user_api_tokens E s x.user_id))

    -- SearchPage
    unfoldable pub show_search : Option Session → Store E → Page
    unfolding base_data cameras
    show_search session s =
        html (base_data session s)
          (filters (list_all_tags E s) (R.sort_texts (cameras (list_all_media E s))))

    -- UploadPage
    unfoldable pub show_upload : Client → Option Session → Store E → Page
    unfolding base_data
    show_upload c session s =
        let agent = E.to_lower c.user_agent in
        html (base_data session s) (
          capture
            (R.has_text agent "mobile" || R.has_text agent "android" || R.has_text agent "iphone"))

    -- BulkDownload
    unfoldable pub download : Option (List String) → List (String × String) → Store E → Page
    unfolding zip_entries
    download none files s = refused 400
    download (some ids) files s = json (archive (zip_entries R files (get_media_by_ids E s ids)))

    -- Search
    unfoldable pub page_found : Queries.Found → Page
    page_found (Queries.json result) = json (found result)
    page_found (Queries.partial result text) = partial (found result)
    page_found Queries.panic = refused 500

    unfoldable pub show_result : SearchForm → Store E → Page
    unfolding page_found
    show_result form s = page_found (handle_search R.readers E form s)

    -- TimelineAllMedia; a panic is answered with 500.
    unfoldable pub page_grouped : Client → Option (List MediaGroup) → Page
    unfolding part_or_json
    page_grouped c none = refused 500
    page_grouped c (some groups) = part_or_json c (all_groups groups)

    unfoldable pub show_all : Client → Store E → Page
    unfolding page_grouped
    show_all c s = page_grouped c (timeline_all_media E R.sorter s)

    -- The handler of a route, behind Middleware.
    unfoldable pub show : Client → Option Session → List (String × String) → View → Store E → Page
    show c session files albums_view s = show_albums c session s
    show c session files (album_view id) s = show_album c session id s
    show c session files tags_view s = show_tags s
    show c session files (tag_view tag) s = show_tag c tag s
    show c session files favorites_view s = show_favorites c session s
    show c session files timeline_view s = show_timeline c session s
    show c session files (period_view period) s = show_period c period s
    show c session files points_view s = show_points s
    show c session files trash_view s = show_trash session s
    show c session files trash_stats_view s = show_trash_stats s
    show c session files admin_view s = show_admin session s
    show c session files users_view s = show_users session s
    show c session files tokens_view s = show_tokens session s
    show c session files search_view s = show_search session s
    show c session files upload_view s = show_upload c session s
    show c session files (download_view ids) s = download ids files s
    show c session files (result_view form) s = show_result form s
    show c session files all_view s = show_all c s
