-- ===== src/Web/Library.antt =====
-- The handlers of single media, favorites, tags, and the bulk operations on them.
use photo_core.Base.{
  String, Bool, List, [], ◌∷◌, Option, some, none, ◌==◌, if◌then◌else◌, Result, ok, err, length,
}
use photo_core.Storage.Models.{Media, Session, Stats}
use photo_core.Storage.Db.{Env, Store}
use photo_core.Storage.Library.{get_media, get_stats}
use photo_core.Storage.Favorites.{toggle_user_favorite, bulk_set_favorite}
use photo_core.Storage.Tags.{add_tags_to_media, remove_tags_from_media, bulk_add_tags}
use photo_core.Storage.Albums.{add_media_to_album}
use photo_core.Cache.Media.{
  MediaCache, Moment, cached_media, cache_media, uncache_media, cached_stats, cache_stats,
}
use photo_core.Auth.{can_manage_tags, can_delete_tags, can_edit_album}
use photo_core.Web.{Web, Reply, error, status, counted, favorite, media, stats, user_id_of, role_of}

-- `for _, id := range req.MediaIDs { h.cache.DeleteMedia(id) }`
unfoldable pub uncache_all : List String → MediaCache → MediaCache
uncache_all [] c = c
uncache_all (id ∷ ids) c = uncache_all ids (uncache_media id c)

module _ (E : Env) where
  unfoldable pub read_media : Moment Media → Web E → Result (Option Media) → Reply × Web E
  read_media t w (err e) = (error 404, w)
  read_media t w (ok none) = (error 404, w)
  read_media t w (ok (some m)) = (media m, record w { cache = cache_media t m w.cache })

  unfoldable pub view_found :
      Moment Media → String → Web E → Option Media × MediaCache → Reply × Web E
  unfolding read_media
  view_found t id w (some m, c) = (media m, record w { cache = c })
  view_found t id w (none, c) = read_media t (record w { cache = c }) (get_media E w.store id)

  -- The beginning of ViewMedia, ServeMedia and serveThumbnailWithSize: the media from the cache,
  -- else from the database, which fills the cache.
  unfoldable pub view_media : Moment Media → String → Web E → Reply × Web E
  unfolding view_found
  view_media t id w = view_found t id w (cached_media t.now id w.cache)

  unfoldable pub stats_found : Moment Stats → Web E → Option Stats × MediaCache → Reply × Web E
  stats_found t w (some old, c) = (stats old, record w { cache = c })
  stats_found t w (none, c) =
      let st = get_stats E w.store in (stats st, record w { cache = cache_stats t st c })

  -- Stats
  unfoldable pub handle_stats : Moment Stats → Web E → Reply × Web E
  unfolding stats_found
  handle_stats t w = stats_found t w (cached_stats t.now w.cache)

  -- GetMediaInfo
  unfoldable pub info_of : Result (Option Media) → Reply
  info_of (err e) = error 500
  info_of (ok none) = error 404
  info_of (ok (some m)) = media m

  unfoldable pub handle_media_info : String → Web E → Reply × Web E
  unfolding info_of
  handle_media_info id w = (info_of (get_media E w.store id), w)

  unfoldable pub toggled : String → Web E → Result Bool × Store E → Reply × Web E
  toggled id w (ok flag, s) = (favorite id flag, record w { store = s })
  toggled id w (err e, s) = (error 500, record w { store = s })

  -- ToggleFavorite: the favorites of the session's user.
  unfoldable pub handle_toggle_favorite : Option Session → String → Web E → Reply × Web E
  unfolding toggled user_id_of
  handle_toggle_favorite session id w =
      if user_id_of session == ""
      then (error 401, w)
      else toggled id w (toggle_user_favorite E (user_id_of session) id w.store)

  -- A change of the media whose records the cache may hold: they are taken out of the cache after
  -- it, unless it fails.
  unfoldable pub uncached_reply :
      Reply → List String → Web E → Result (Unit {0}) × Store E → Reply × Web E
  uncached_reply reply ids w (ok _, s) =
      (reply, record w { store = s; cache = uncache_all ids w.cache })
  uncached_reply reply ids w (err e, s) = (error 500, record w { store = s })

  -- AddTags
  unfoldable pub handle_add_tags :
      Option Session → String → Option (List String) → Web E → Reply × Web E
  unfolding uncached_reply role_of can_manage_tags
  handle_add_tags session id none w =
      if can_manage_tags (role_of session) then (error 400, w) else (error 403, w)
  handle_add_tags session id (some tags) w =
      if can_manage_tags (role_of session)
      then uncached_reply (status "added") (id ∷ []) w (add_tags_to_media E id tags w.store)
      else (error 403, w)

  -- RemoveTags
  unfoldable pub handle_remove_tags :
      Option Session → String → Option (List String) → Web E → Reply × Web E
  unfolding uncached_reply role_of can_delete_tags
  handle_remove_tags session id none w =
      if can_delete_tags (role_of session) then (error 400, w) else (error 403, w)
  handle_remove_tags session id (some tags) w =
      if can_delete_tags (role_of session)
      then uncached_reply (status "removed") (id ∷ []) w (remove_tags_from_media E id tags w.store)
      else (error 403, w)

  -- BulkFavorite: no role is asked for.
  unfoldable pub handle_bulk_favorite : Option (List String × Bool) → Web E → Reply × Web E
  unfolding uncached_reply
  handle_bulk_favorite none w = (error 400, w)
  handle_bulk_favorite (some (ids, flag)) w =
      uncached_reply (counted "updated" (length ids)) ids w (bulk_set_favorite E ids flag w.store)

  -- BulkAddTags
  unfoldable pub handle_bulk_add_tags :
      Option Session → Option (List String × List String) → Web E → Reply × Web E
  unfolding uncached_reply role_of can_manage_tags
  handle_bulk_add_tags session none w =
      if can_manage_tags (role_of session) then (error 400, w) else (error 403, w)
  handle_bulk_add_tags session (some (ids, tags)) w =
      if can_manage_tags (role_of session)
      then uncached_reply (counted "updated" (length ids)) ids w (bulk_add_tags E ids tags w.store)
      else (error 403, w)

  -- BulkAddToAlbum
  unfoldable pub handle_bulk_add_to_album :
      Option Session → Option (List String × String) → Web E → Reply × Web E
  unfolding uncached_reply role_of can_edit_album
  handle_bulk_add_to_album session none w =
      if can_edit_album (role_of session) then (error 400, w) else (error 403, w)
  handle_bulk_add_to_album session (some (ids, album_id)) w =
      if can_edit_album (role_of session)
      then uncached_reply (counted "added" (length ids)) [] w
          (add_media_to_album E album_id ids w.store)
      else (error 403, w)
