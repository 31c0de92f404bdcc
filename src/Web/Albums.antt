-- ===== src/Web/Albums.antt =====
-- The album handlers.
use photo_core.Base.{String, List, [], Option, some, none, ◌==◌, if◌then◌else◌, Result, ok, err}
use photo_core.Storage.Models.{Album, Session, Time}
use photo_core.Storage.Db.{Env, Store}
use photo_core.Storage.Albums.{
  get_album, save_album, delete_album, add_media_to_album, remove_media_from_album,
}
use photo_core.Auth.{can_create_album, can_edit_album, can_delete_album}
use photo_core.Web.{Web, Reply, error, status, album, role_of}

pub record AlbumForm : Type 0 where
  pub name : String
  pub description : String
  pub cover_id : String

-- `if text != "" { field = text }`
unfoldable pub or_old : String → String → String
or_old text old = if text == "" then old else text

module _ (E : Env) where
  -- The end of a handler whose call changes the store: an error is a 500.
  unfoldable pub reply_with : Reply → Web E → Result (Unit {0}) × Store E → Reply × Web E
  reply_with reply w (ok _, s) = (reply, record w { store = s })
  reply_with reply w (err e, s) = (error 500, record w { store = s })

  -- CreateAlbum; the form has no cover.
  unfoldable pub handle_create_album :
      String → Time → Option Session → Option AlbumForm → Web E → Reply × Web E
  unfolding reply_with role_of can_create_album
  handle_create_album id now session none w =
      if can_create_album (role_of session) then (error 400, w) else (error 403, w)
  handle_create_album id now session (some form) w =
      let a : Album = record {
        id = id;
        name = form.name;
        description = form.description;
        cover_id = "";
        media_ids = [];
        created_at = now;
        updated_at = now;
        media_count = 0;
      } in
      if can_create_album (role_of session)
      then (if form.name == ""
          then (error 400, w)
          else reply_with (album a) w (save_album E a w.store))
      else (error 403, w)

  unfoldable pub update_found :
      Time → Option AlbumForm → Web E → Result (Option Album) → Reply × Web E
  unfolding reply_with or_old
  update_found now form w (err e) = (error 500, w)
  update_found now form w (ok none) = (error 404, w)
  update_found now none w (ok (some a)) = (error 400, w)
  update_found now (some form) w (ok (some a)) =
      let a' = record a {
        name = or_old form.name a.name;
        description = or_old form.description a.description;
        cover_id = or_old form.cover_id a.cover_id;
        updated_at = now;
      } in
      reply_with (album a') w (save_album E a' w.store)

  -- UpdateAlbum
  unfoldable pub handle_update_album :
      Time → Option Session → String → Option AlbumForm → Web E → Reply × Web E
  unfolding update_found role_of can_edit_album
  handle_update_album now session id form w =
      if can_edit_album (role_of session)
      then update_found now form w (get_album E w.store id)
      else (error 403, w)

  -- DeleteAlbum
  unfoldable pub handle_delete_album : Option Session → String → Web E → Reply × Web E
  unfolding reply_with role_of can_delete_album
  handle_delete_album session id w =
      if can_delete_album (role_of session)
      then reply_with (status "deleted") w (delete_album E id w.store)
      else (error 403, w)

  -- AddToAlbum
  unfoldable pub handle_add_to_album :
      Option Session → String → Option (List String) → Web E → Reply × Web E
  unfolding reply_with role_of can_edit_album
  handle_add_to_album session id none w =
      if can_edit_album (role_of session) then (error 400, w) else (error 403, w)
  handle_add_to_album session id (some media_ids) w =
      if can_edit_album (role_of session)
      then reply_with (status "added") w (add_media_to_album E id media_ids w.store)
      else (error 403, w)

  -- RemoveFromAlbum
  unfoldable pub handle_remove_from_album :
      Option Session → String → Option (List String) → Web E → Reply × Web E
  unfolding reply_with role_of can_edit_album
  handle_remove_from_album session id none w =
      if can_edit_album (role_of session) then (error 400, w) else (error 403, w)
  handle_remove_from_album session id (some media_ids) w =
      if can_edit_album (role_of session)
      then reply_with (status "removed") w (remove_media_from_album E id media_ids w.store)
      else (error 403, w)
