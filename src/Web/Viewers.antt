-- ===== src/Web/Viewers.antt =====
-- What a user who is neither an admin nor an editor can change.
use photo_core.Base.{Bool, true, false, some, none, ◌≡◌, ◌==◌, arith}
use photo_core.Storage.Models.{Session, role_admin, role_editor}
use photo_core.Storage.Db.{Env}
use photo_core.Auth.{
  can_create_album, can_edit_album, can_delete_album, can_manage_tags, can_delete_tags, can_edit,
  can_delete_media, can_manage_users,
}
use photo_core.Cache.Media.{cached_media, cached_stats}
use photo_core.Web.{Web, role_of}
use photo_core.Web.Albums.{
  handle_create_album, handle_update_album, handle_delete_album, handle_add_to_album,
  handle_remove_from_album,
}
use photo_core.Web.Library.{
  view_media, handle_stats, handle_media_info, handle_add_tags, handle_remove_tags,
  handle_bulk_add_tags, handle_bulk_add_to_album,
}
use photo_core.Web.Trash.{
  handle_move_to_trash, handle_restore, handle_permanent_delete, handle_empty_trash,
  handle_bulk_move_to_trash, handle_bulk_restore, handle_replace_duplicate, handle_unmark_duplicate,
}
use photo_core.Web.Users.{handle_create_user, handle_update_user, handle_delete_user}
use photo_core.Web.Requests.{
  Outside, Route, dispatch, view, show_stats, media_info, logs_out, create_album, update_album,
  delete_album, add_to_album, remove_from_album, toggle_favorite, add_tags, remove_tags,
  bulk_favorite, bulk_add_tags, bulk_add_to_album, bulk_move_to_trash, bulk_restore, move_to_trash,
  restore, permanent_delete, empty_trash, replace_duplicate, unmark_duplicate, create_user,
  update_user, delete_user, generate_token, revoke_token,
}
use photo_core.Web.Shared.{SameLibrary, unchanged, denied, either_way, not_editor}
use photo_core.Web.Own.{
  handle_logout_lem, view_found_lem, stats_found_lem, handle_toggle_favorite_lem,
  handle_generate_token_lem, handle_revoke_token_lem,
}

unfoldable pub is_bulk_favorite : Route → Bool
is_bulk_favorite (bulk_favorite form) = true
is_bulk_favorite _ = false

module _ (E : Env) where
  -- Whatever a user who is neither an admin nor an editor asks for through a route of the model,
  -- but BulkFavorite, the media, users, albums, tags, indices and global favorites and the files
  -- stay as they are.
  pub dispatch-SameLibrary :
      (o : Outside) (x : Session) (route : Route) (w : Web E)
      → (x.role == role_admin) ≡ false
      → (x.role == role_editor) ≡ false
      → is_bulk_favorite route ≡ false
      → SameLibrary E w (dispatch E o (some x) route w).1
  unfolding dispatch is_bulk_favorite view_media handle_stats handle_media_info role_of
      can_create_album can_edit_album can_delete_album can_manage_tags can_delete_tags can_edit
      can_delete_media can_manage_users handle_create_album handle_update_album handle_delete_album
      handle_add_to_album handle_remove_from_album handle_add_tags handle_remove_tags
      handle_bulk_add_tags handle_bulk_add_to_album handle_bulk_move_to_trash handle_bulk_restore
      handle_move_to_trash handle_restore handle_permanent_delete handle_empty_trash
      handle_replace_duplicate handle_unmark_duplicate handle_create_user handle_update_user
      handle_delete_user
  dispatch-SameLibrary o x (view id) w a e b =
      view_found_lem E o.media_moment id w (cached_media o.media_moment.now id w.cache)
  dispatch-SameLibrary o x show_stats w a e b =
      stats_found_lem E o.stats_moment w (cached_stats o.stats_moment.now w.cache)
  dispatch-SameLibrary o x (media_info id) w a e b = unchanged E w
  dispatch-SameLibrary o x (logs_out cookie) w a e b = handle_logout_lem E w cookie
  dispatch-SameLibrary o x (create_album none) w a e b =
      either_way E w _ _ _ (unchanged E w) (unchanged E w)
  dispatch-SameLibrary o x (add_to_album id none) w a e b =
      either_way E w _ _ _ (unchanged E w) (unchanged E w)
  dispatch-SameLibrary o x (remove_from_album id none) w a e b =
      either_way E w _ _ _ (unchanged E w) (unchanged E w)
  dispatch-SameLibrary o x (add_tags id none) w a e b =
      either_way E w _ _ _ (unchanged E w) (unchanged E w)
  dispatch-SameLibrary o x (remove_tags id none) w a e b =
      either_way E w _ _ _ (unchanged E w) (unchanged E w)
  dispatch-SameLibrary o x (bulk_add_tags none) w a e b =
      either_way E w _ _ _ (unchanged E w) (unchanged E w)
  dispatch-SameLibrary o x (bulk_add_to_album none) w a e b =
      either_way E w _ _ _ (unchanged E w) (unchanged E w)
  dispatch-SameLibrary o x (bulk_move_to_trash none) w a e b =
      either_way E w _ _ _ (unchanged E w) (unchanged E w)
  dispatch-SameLibrary o x (bulk_restore none) w a e b =
      either_way E w _ _ _ (unchanged E w) (unchanged E w)
  dispatch-SameLibrary o x (replace_duplicate none) w a e b =
      either_way E w _ _ _ (unchanged E w) (unchanged E w)
  dispatch-SameLibrary o x (unmark_duplicate none) w a e b =
      either_way E w _ _ _ (unchanged E w) (unchanged E w)
  dispatch-SameLibrary o x (create_user none) w a e b =
      either_way E w _ _ _ (unchanged E w) (unchanged E w)
  dispatch-SameLibrary o x (create_album (some form)) w a e b =
      denied E w _ _ (not_editor E x.role a e)
  dispatch-SameLibrary o x (update_album id form) w a e b = denied E w _ _ (not_editor E x.role a e)
  dispatch-SameLibrary o x (add_to_album id (some ids)) w a e b =
      denied E w _ _ (not_editor E x.role a e)
  dispatch-SameLibrary o x (remove_from_album id (some ids)) w a e b =
      denied E w _ _ (not_editor E x.role a e)
  dispatch-SameLibrary o x (add_tags id (some tags)) w a e b =
      denied E w _ _ (not_editor E x.role a e)
  dispatch-SameLibrary o x (bulk_add_tags (some form)) w a e b =
      denied E w _ _ (not_editor E x.role a e)
  dispatch-SameLibrary o x (bulk_add_to_album (some form)) w a e b =
      denied E w _ _ (not_editor E x.role a e)
  dispatch-SameLibrary o x (bulk_restore (some ids)) w a e b =
      denied E w _ _ (not_editor E x.role a e)
  dispatch-SameLibrary o x (restore id) w a e b = denied E w _ _ (not_editor E x.role a e)
  dispatch-SameLibrary o x (delete_album id) w a e b = denied E w _ _ a
  dispatch-SameLibrary o x (remove_tags id (some tags)) w a e b = denied E w _ _ a
  dispatch-SameLibrary o x (bulk_move_to_trash (some ids)) w a e b = denied E w _ _ a
  dispatch-SameLibrary o x (move_to_trash id) w a e b = denied E w _ _ a
  dispatch-SameLibrary o x (permanent_delete id) w a e b = denied E w _ _ a
  dispatch-SameLibrary o x (replace_duplicate (some ids)) w a e b = denied E w _ _ a
  dispatch-SameLibrary o x (unmark_duplicate (some id)) w a e b = denied E w _ _ a
  dispatch-SameLibrary o x (create_user (some form)) w a e b = denied E w _ _ a
  dispatch-SameLibrary o x (update_user name form) w a e b = denied E w _ _ a
  dispatch-SameLibrary o x (delete_user name) w a e b = denied E w _ _ a
  dispatch-SameLibrary o x empty_trash w a e b = denied E w _ _ a
  dispatch-SameLibrary o x (toggle_favorite id) w a e b = handle_toggle_favorite_lem E (some x) id w
  dispatch-SameLibrary o x (bulk_favorite form) w a e b = ground arith
  dispatch-SameLibrary o x (generate_token device) w a e b =
      handle_generate_token_lem E o.random o.now o.expires (some x) device w
  dispatch-SameLibrary o x (revoke_token t) w a e b = handle_revoke_token_lem E (some x) t w
