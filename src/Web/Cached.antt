-- ===== src/Web/Cached.antt =====
-- The requests after which the media cache agrees with the database.
use photo_core.Base.{Bool, true, false, some, none, ◌≡◌, ◌==◌, arith}
use photo_core.Storage.Models.{Session}
use photo_core.Storage.Db.{Env}
use photo_core.Auth.{can_create_album, can_delete_media, can_manage_users}
use photo_core.Cache.Media.{cached_stats}
use photo_core.Web.{Web, role_of}
use photo_core.Web.Albums.{
  handle_create_album, handle_update_album, handle_delete_album, handle_add_to_album,
  handle_remove_from_album,
}
use photo_core.Web.Library.{
  handle_stats, handle_media_info, handle_add_tags, handle_remove_tags, handle_bulk_add_to_album,
}
use photo_core.Web.Trash.{
  handle_move_to_trash, handle_restore, handle_permanent_delete, handle_empty_trash,
  handle_bulk_move_to_trash, handle_bulk_restore, handle_unmark_duplicate,
}
use photo_core.Web.Users.{handle_update_user, handle_delete_user}
use photo_core.Web.Requests.{
  Outside, Route, dispatch, view, show_stats, media_info, logs_out, create_album, update_album,
  delete_album, add_to_album, remove_from_album, toggle_favorite, add_tags, remove_tags,
  bulk_favorite, bulk_add_tags, bulk_add_to_album, bulk_move_to_trash, bulk_restore, move_to_trash,
  restore, permanent_delete, empty_trash, replace_duplicate, unmark_duplicate, create_user,
  update_user, delete_user, generate_token, revoke_token,
}
use photo_core.Web.{error}
use photo_core.Base.{Option, ◌==◌, refl, arith, []}
use photo_core.Storage.Albums.{get_album, save_album}
use photo_core.Storage.Accounts.{delete_user as drop_user}
use photo_core.Web.{role_of}
use photo_core.Web.Trash.{empty_loop}
use photo_core.Storage.Library.{list_trash_media}
use photo_core.Web.Library.{handle_stats, handle_media_info, handle_toggle_favorite}
use photo_core.Storage.Models.{Album}
use photo_core.Cache.Media.{cached_stats, clear_all}
use photo_core.Storage.Library.{get_media, soft_delete_media, restore_media}
use photo_core.Storage.Accounts.{get_user}
use photo_core.Web.{status, user_id_of, album, counted}
use photo_core.Web.Albums.{reply_with}
use photo_core.Web.Users.{is_self}
use photo_core.Web.Own.{toggle_user_favorite_lem}
use photo_core.Web.Coherence.{
  IsCoherent, IsKeyed, cleared, cleared_reply_lem, reply_with_lem, uncached_reply_lem,
  view_media-IsCoherent,
}
use photo_core.Web.Steps.{
  save_album_media, delete_album_media, add_media_to_album_media, remove_media_from_album_media,
  delete_user_media, add_tags_rollback, remove_tags_rollback, soft_delete_rollback,
  restore_rollback, add_tags_others, remove_tags_others,
}
use photo_core.Web.Replies.{
  either, either_twice, stats_found-IsCoherent, handle_logout-IsCoherent, update_found-IsCoherent,
  toggled-IsCoherent, delete_found-IsCoherent, unmark_found-IsCoherent,
  handle_create_user-IsCoherent, update_user-IsCoherent, handle_generate_token-IsCoherent,
  handle_revoke_token-IsCoherent, handle_bulk-IsCoherent, no_uncached,
}

unfoldable pub stays_coherent : Route → Bool
stays_coherent (bulk_favorite form) = false
stays_coherent (bulk_add_tags form) = false
stays_coherent (replace_duplicate ids) = false
stays_coherent _ = true

module _ (E : Env) where
  -- Where every record stands under its own id, every request by a Route but the bulk changes of
  -- favorites and tags and the replacement of a duplicate keeps the media cache coherent with the
  -- database, whether it succeeds or fails.
  pub dispatch-IsCoherent :
      (o : Outside) (session : Option Session) (route : Route) (w : Web E)
      → stays_coherent route ≡ true
      → IsKeyed E w.store
      → IsCoherent E w
      → IsCoherent E (dispatch E o session route w).1
  unfolding dispatch stays_coherent handle_stats handle_media_info handle_create_album
      handle_update_album handle_delete_album handle_add_to_album handle_remove_from_album
      handle_add_tags handle_remove_tags handle_bulk_add_to_album handle_bulk_move_to_trash
      handle_bulk_restore handle_move_to_trash handle_restore handle_permanent_delete
      handle_empty_trash handle_unmark_duplicate handle_update_user handle_delete_user
      handle_toggle_favorite cached_stats
  dispatch-IsCoherent o session (view id) w q k h = view_media-IsCoherent E o.media_moment id w k h
  dispatch-IsCoherent o session show_stats w q k h =
      stats_found-IsCoherent E o.stats_moment w (cached_stats o.stats_moment.now w.cache) refl h
  dispatch-IsCoherent o session (media_info id) w q k h = h
  dispatch-IsCoherent o session (logs_out cookie) w q k h = handle_logout-IsCoherent E cookie w h
  dispatch-IsCoherent o session (create_album none) w q k h = either E w _ _ _ h h
  dispatch-IsCoherent o session (add_to_album id none) w q k h = either E w _ _ _ h h
  dispatch-IsCoherent o session (remove_from_album id none) w q k h = either E w _ _ _ h h
  dispatch-IsCoherent o session (add_tags id none) w q k h = either E w _ _ _ h h
  dispatch-IsCoherent o session (remove_tags id none) w q k h = either E w _ _ _ h h
  dispatch-IsCoherent o session (bulk_add_to_album none) w q k h = either E w _ _ _ h h
  dispatch-IsCoherent o session (bulk_move_to_trash none) w q k h = either E w _ _ _ h h
  dispatch-IsCoherent o session (bulk_restore none) w q k h = either E w _ _ _ h h
  dispatch-IsCoherent o session (unmark_duplicate none) w q k h = either E w _ _ _ h h
  dispatch-IsCoherent o session (create_album (some form)) w q k h =
      let a : Album = record {
        id = o.new_id;
        name = form.name;
        description = form.description;
        cover_id = "";
        media_ids = [];
        created_at = o.now;
        updated_at = o.now;
        media_count = 0;
      } in
      either_twice E w (can_create_album (role_of session)) (form.name == "") (error 400, w)
        (reply_with E (album a) w (save_album E a w.store)) (error 403, w) h
        (reply_with_lem E (album a) w _ (save_album_media E a w.store) h) h
  dispatch-IsCoherent o session (update_album id form) w q k h =
      either E w _ _ _ (update_found-IsCoherent E o.now form w (get_album E w.store id) h) h
  dispatch-IsCoherent o session (delete_album id) w q k h =
      either E w _ _ _ (reply_with_lem E _ w _ (delete_album_media E id w.store) h) h
  dispatch-IsCoherent o session (add_to_album id (some ids)) w q k h =
      either E w _ _ _ (reply_with_lem E _ w _ (add_media_to_album_media E id ids w.store) h) h
  dispatch-IsCoherent o session (remove_from_album id (some ids)) w q k h =
      either E w _ _ _ (reply_with_lem E _ w _ (remove_media_from_album_media E id ids w.store) h) h
  dispatch-IsCoherent o session (toggle_favorite id) w q k h = either E w _ _ _ h (
      toggled-IsCoherent E id w _ (toggle_user_favorite_lem E (user_id_of session) id w.store).media
        h)
  dispatch-IsCoherent o session (add_tags id (some tags)) w q k h =
      either E w _ _ _
        (uncached_reply_lem E _ id w _ (add_tags_rollback E id tags w.store)
          (add_tags_others E id tags w.store k) h)
        h
  dispatch-IsCoherent o session (remove_tags id (some tags)) w q k h =
      either E w _ _ _
        (uncached_reply_lem E _ id w _ (remove_tags_rollback E id tags w.store)
          (remove_tags_others E id tags w.store k) h)
        h
  dispatch-IsCoherent o session (bulk_favorite form) w q k h = ground arith
  dispatch-IsCoherent o session (bulk_add_tags form) w q k h = ground arith
  dispatch-IsCoherent o session (replace_duplicate ids) w q k h = ground arith
  dispatch-IsCoherent o session (bulk_add_to_album (some (ids, album_id))) w q k h =
      either E w _ _ _ (no_uncached E _ w _ (add_media_to_album_media E album_id ids w.store) h) h
  dispatch-IsCoherent o session (bulk_move_to_trash (some ids)) w q k h =
      either E w _ _ _ (handle_bulk-IsCoherent E "moved_to_trash" (soft_delete_media E o.now) ids w)
        h
  dispatch-IsCoherent o session (bulk_restore (some ids)) w q k h =
      either E w _ _ _ (handle_bulk-IsCoherent E "restored" (restore_media E) ids w) h
  dispatch-IsCoherent o session (move_to_trash id) w q k h =
      either E w _ _ _ (cleared_reply_lem E _ w _ (soft_delete_rollback E o.now id w.store) h) h
  dispatch-IsCoherent o session (restore id) w q k h =
      either E w _ _ _ (cleared_reply_lem E _ w _ (restore_rollback E id w.store) h) h
  dispatch-IsCoherent o session (permanent_delete id) w q k h =
      either E w _ _ _ (delete_found-IsCoherent E id w (get_media E w.store id) h) h
  dispatch-IsCoherent o session empty_trash w q k h =
      let emptied = empty_loop E (list_trash_media E w.store) 0 w in
      either E w (can_delete_media (role_of session))
        (counted "emptied" emptied.0, record (emptied.1) { cache = clear_all emptied.1.cache })
        (error 403, w) (cleared E emptied.1) h
  dispatch-IsCoherent o session (unmark_duplicate (some id)) w q k h =
      either E w _ _ _ (unmark_found-IsCoherent E w (get_media E w.store id) h) h
  dispatch-IsCoherent o session (create_user form) w q k h =
      handle_create_user-IsCoherent E o.crypt o.new_id o.now session form w h
  dispatch-IsCoherent o session (update_user name form) w q k h =
      either E w _ _ _ (update_user-IsCoherent E o.crypt form w (get_user E w.store name) h) h
  dispatch-IsCoherent o session (delete_user name) w q k h =
      either_twice E w (can_manage_users (role_of session)) (is_self E session name) (error 400, w)
        (reply_with E (status "deleted") w (drop_user E name w.store)) (error 403, w) h
        (reply_with_lem E (status "deleted") w _ (delete_user_media E name w.store) h) h
  dispatch-IsCoherent o session (generate_token device) w q k h =
      handle_generate_token-IsCoherent E o.random o.now o.expires session device w h
  dispatch-IsCoherent o session (revoke_token t) w q k h =
      handle_revoke_token-IsCoherent E session t w h
