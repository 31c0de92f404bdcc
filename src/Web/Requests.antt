-- ===== src/Web/Requests.antt =====
-- The requests on the database that setupRoutes of internal/web/server.go leads to the handlers of this model, and
-- the dispatch. All of them but the login stand behind Middleware.
use photo_core.Base.{String, Bool, List, Option, some}
use photo_core.Storage.Models.{Media, Session, Stats, Time}
use photo_core.Storage.Db.{Env}
use photo_core.Cache.Media.{Moment}
use photo_core.Auth.{
  Bcrypt, AuthConfig, Request, Response, next, unauthorized, forbidden, redirect_login, middleware,
}
use photo_core.Web.{Web, Reply, error, redirect}
use photo_core.Web.Albums.{
  AlbumForm, handle_create_album, handle_update_album, handle_delete_album, handle_add_to_album,
  handle_remove_from_album,
}
use photo_core.Web.Library.{
  view_media, handle_stats, handle_media_info, handle_toggle_favorite, handle_add_tags,
  handle_remove_tags, handle_bulk_favorite, handle_bulk_add_tags, handle_bulk_add_to_album,
}
use photo_core.Web.Trash.{
  handle_move_to_trash, handle_restore, handle_permanent_delete, handle_empty_trash,
  handle_bulk_move_to_trash, handle_bulk_restore, handle_replace_duplicate, handle_unmark_duplicate,
}
use photo_core.Web.Users.{
  UserForm, handle_logout, handle_create_user, handle_update_user, handle_delete_user,
  handle_generate_token, handle_revoke_token,
}

-- What a handler takes from outside while it runs.
pub record Outside : Type 0 where
  pub crypt : Bcrypt
  pub cfg : AuthConfig
  pub now : Time
  pub expires : Time
  pub new_id : String
  pub random : Option String
  pub media_moment : Moment Media
  pub stats_moment : Moment Stats

-- A route with its parameters and its decoded body.
pub data Route : Type 0 where
  view : String → Route
  show_stats : Route
  media_info : String → Route
  logs_out : Option String → Route
  create_album : Option AlbumForm → Route
  update_album : String → Option AlbumForm → Route
  delete_album : String → Route
  add_to_album : String → Option (List String) → Route
  remove_from_album : String → Option (List String) → Route
  toggle_favorite : String → Route
  add_tags : String → Option (List String) → Route
  remove_tags : String → Option (List String) → Route
  bulk_favorite : Option (List String × Bool) → Route
  bulk_add_tags : Option (List String × List String) → Route
  bulk_add_to_album : Option (List String × String) → Route
  bulk_move_to_trash : Option (List String) → Route
  bulk_restore : Option (List String) → Route
  move_to_trash : String → Route
  restore : String → Route
  permanent_delete : String → Route
  empty_trash : Route
  replace_duplicate : Option (String × String) → Route
  unmark_duplicate : Option String → Route
  create_user : Option UserForm → Route
  update_user : String → Option UserForm → Route
  delete_user : String → Route
  generate_token : Option String → Route
  revoke_token : String → Route

module _ (E : Env) where
  unfoldable pub dispatch : Outside → Option Session → Route → Web E → Reply × Web E
  dispatch o session (view id) = view_media E o.media_moment id
  dispatch o session show_stats = handle_stats E o.stats_moment
  dispatch o session (media_info id) = handle_media_info E id
  dispatch o session (logs_out cookie) = handle_logout E cookie
  dispatch o session (create_album form) = handle_create_album E o.new_id o.now session form
  dispatch o session (update_album id form) = handle_update_album E o.now session id form
  dispatch o session (delete_album id) = handle_delete_album E session id
  dispatch o session (add_to_album id ids) = handle_add_to_album E session id ids
  dispatch o session (remove_from_album id ids) = handle_remove_from_album E session id ids
  dispatch o session (toggle_favorite id) = handle_toggle_favorite E session id
  dispatch o session (add_tags id tags) = handle_add_tags E session id tags
  dispatch o session (remove_tags id tags) = handle_remove_tags E session id tags
  dispatch o session (bulk_favorite form) = handle_bulk_favorite E form
  dispatch o session (bulk_add_tags form) = handle_bulk_add_tags E session form
  dispatch o session (bulk_add_to_album form) = handle_bulk_add_to_album E session form
  dispatch o session (bulk_move_to_trash ids) = handle_bulk_move_to_trash E o.now session ids
  dispatch o session (bulk_restore ids) = handle_bulk_restore E session ids
  dispatch o session (move_to_trash id) = handle_move_to_trash E o.now session id
  dispatch o session (restore id) = handle_restore E session id
  dispatch o session (permanent_delete id) = handle_permanent_delete E session id
  dispatch o session empty_trash = handle_empty_trash E session
  dispatch o session (replace_duplicate ids) = handle_replace_duplicate E o.now session ids
  dispatch o session (unmark_duplicate id) = handle_unmark_duplicate E session id
  dispatch o session (create_user form) = handle_create_user E o.crypt o.new_id o.now session form
  dispatch o session (update_user username form) =
      handle_update_user E o.crypt session username form
  dispatch o session (delete_user username) = handle_delete_user E session username
  dispatch o session (generate_token device) =
      handle_generate_token E o.random o.now o.expires session device
  dispatch o session (revoke_token token) = handle_revoke_token E session token

  unfoldable pub answer : Outside → Response → Route → Web E → Reply × Web E
  answer o (next x) route w = dispatch o (some x) route w
  answer o unauthorized route w = (error 401, w)
  answer o forbidden route w = (error 403, w)
  answer o redirect_login route w = (redirect "/login", w)

  -- A protected request: Middleware, then the handler of its route.
  unfoldable pub serve : Outside → Request → Route → Web E → Reply × Web E
  unfolding answer
  serve o r route w =
      let (response, s) = middleware E o.now r w.store in
      answer o response route (record w { store = s })
