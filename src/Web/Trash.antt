-- ===== src/Web/Trash.antt =====
-- The handlers of the trash, of permanent deletion and of duplicates.
use photo_core.Base.{
  ℕ, ◌+◌, String, List, [], ◌∷◌, Option, some, none, ◌==◌, if◌then◌else◌, Result, ok, err, length,
}
use photo_core.Storage.Models.{Media, Session, Time, role_admin}
use photo_core.Storage.Db.{Env, Store}
use photo_core.Storage.Library.{
  get_media, save_media, soft_delete_media, restore_media, list_trash_media,
}
use photo_core.Storage.Removal.{delete_media, bulk_delete}
use photo_core.Cache.Media.{clear_all}
use photo_core.Auth.{can_edit, can_delete_media}
use photo_core.Web.{Web, Reply, error, status, counted, role_of}
use photo_core.Web.Library.{uncache_all}

-- The ids, pushed one after the other.
unfoldable pub push_all : List String → List String → List String
push_all [] done = done
push_all (id ∷ ids) done = push_all ids (id ∷ done)

module _ (E : Env) where
  -- The end of the handlers that clear the whole cache, unless their call fails.
  unfoldable pub cleared_reply : Reply → Web E → Result (Unit {0}) × Store E → Reply × Web E
  cleared_reply reply w (ok _, s) = (reply, record w { store = s; cache = clear_all w.cache })
  cleared_reply reply w (err e, s) = (error 500, record w { store = s })

  -- MoveToTrash
  unfoldable pub handle_move_to_trash : Time → Option Session → String → Web E → Reply × Web E
  unfolding cleared_reply role_of can_delete_media
  handle_move_to_trash now session id w =
      if can_delete_media (role_of session)
      then cleared_reply (status "moved_to_trash") w (soft_delete_media E now id w.store)
      else (error 403, w)

  -- RestoreFromTrash
  unfoldable pub handle_restore : Option Session → String → Web E → Reply × Web E
  unfolding cleared_reply role_of can_edit
  handle_restore session id w =
      if can_edit (role_of session)
      then cleared_reply (status "restored") w (restore_media E id w.store)
      else (error 403, w)

  -- The file and the thumbnails go before the record does.
  unfoldable pub remove_files : Media → String → Web E → Web E
  remove_files m id w = record w {
    removed = m.path ∷ w.removed;
    thumbs_removed = id ∷ w.thumbs_removed;
  }

  unfoldable pub delete_found : String → Web E → Result (Option Media) → Reply × Web E
  unfolding cleared_reply remove_files
  delete_found id w (err e) = (error 500, w)
  delete_found id w (ok none) = (error 404, w)
  delete_found id w (ok (some m)) =
      cleared_reply (status "deleted") (remove_files m id w) (delete_media E id w.store)

  -- PermanentDelete
  unfoldable pub handle_permanent_delete : Option Session → String → Web E → Reply × Web E
  unfolding delete_found role_of can_delete_media
  handle_permanent_delete session id w =
      if can_delete_media (role_of session)
      then delete_found id w (get_media E w.store id)
      else (error 403, w)

  -- The loop of EmptyTrash, with the number deleted so far.
  unfoldable pub empty_loop : List Media → ℕ → Web E → ℕ × Web E
  unfolding remove_files
  empty_loop [] deleted w = (deleted, w)
  empty_loop (m ∷ ms) deleted w =
      let (r, s) = delete_media E m.id w.store in
      empty_loop ms (elim r [ ok _ ↦ deleted + 1 | err _ ↦ deleted ])
        (record (remove_files m m.id w) { store = s })

  -- EmptyTrash
  unfoldable pub handle_empty_trash : Option Session → Web E → Reply × Web E
  unfolding empty_loop role_of can_delete_media
  handle_empty_trash session w =
      let (deleted, w') = empty_loop (list_trash_media E w.store) 0 w in
      if can_delete_media (role_of session)
      then (counted "emptied" deleted, record w' { cache = clear_all w'.cache })
      else (error 403, w)

  -- BulkDelete, which no route leads to: the cache entries and the thumbnails go first.
  unfoldable pub handle_bulk_delete : Option Session → Option (List String) → Web E → Reply × Web E
  unfolding cleared_reply role_of can_delete_media
  handle_bulk_delete session none w =
      if can_delete_media (role_of session) then (error 400, w) else (error 403, w)
  handle_bulk_delete session (some ids) w =
      let w' = record w {
        cache = uncache_all ids w.cache;
        thumbs_removed = push_all ids w.thumbs_removed;
      } in
      if can_delete_media (role_of session)
      then cleared_reply (counted "deleted" (length ids)) w' (bulk_delete E ids w.store)
      else (error 403, w)

  -- The loops of BulkMoveToTrash and BulkRestore: what fails is not counted.
  unfoldable pub change_each :
      (String → Store E → Result (Unit {0}) × Store E) → List String → ℕ → Store E → ℕ × Store E
  change_each change [] n s = (n, s)
  change_each change (id ∷ ids) n s =
      let (r, s') = change id s in change_each change ids (elim r [ ok _ ↦ n + 1 | err _ ↦ n ]) s'

  -- The loops take an id that succeeded out of the cache, which is cleared afterwards anyway.
  unfoldable pub handle_bulk :
      String
      → (String → Store E → Result (Unit {0}) × Store E)
      → List String
      → Web E
      → Reply × Web E
  unfolding change_each
  handle_bulk done change ids w =
      let (n, s) = change_each change ids 0 w.store in
      (counted done n, record w { store = s; cache = clear_all w.cache })

  -- BulkMoveToTrash
  unfoldable pub handle_bulk_move_to_trash :
      Time → Option Session → Option (List String) → Web E → Reply × Web E
  unfolding handle_bulk role_of can_delete_media
  handle_bulk_move_to_trash now session none w =
      if can_delete_media (role_of session) then (error 400, w) else (error 403, w)
  handle_bulk_move_to_trash now session (some ids) w =
      if can_delete_media (role_of session)
      then handle_bulk "moved_to_trash" (soft_delete_media E now) ids w
      else (error 403, w)

  -- BulkRestore
  unfoldable pub handle_bulk_restore : Option Session → Option (List String) → Web E → Reply × Web E
  unfolding handle_bulk role_of can_edit
  handle_bulk_restore session none w =
      if can_edit (role_of session) then (error 400, w) else (error 403, w)
  handle_bulk_restore session (some ids) w =
      if can_edit (role_of session)
      then handle_bulk "restored" (restore_media E) ids w
      else (error 403, w)

  -- The two saves of ReplaceDuplicate: the first one stays when the second one fails.
  unfoldable pub swap_media : Time → Media → Media → String → Web E → Reply × Web E
  unfolding cleared_reply
  swap_media now duplicate original duplicate_id w =
      let (r, s) =
        save_media E (record original { duplicate_of = duplicate_id; deleted_at = some now })
          w.store in
      elim r [
        | err e ↦ (error 500, record w { store = s })
        | ok _ ↦
            cleared_reply (status "replaced") w
              (save_media E (record duplicate { duplicate_of = ""; deleted_at = none }) s)
      ]

  unfoldable pub replace_found :
      Time → String → Web E → Result (Option Media) → Result (Option Media) → Reply × Web E
  unfolding swap_media
  replace_found now id w (ok (some duplicate)) (ok (some original)) =
      swap_media now duplicate original id w
  replace_found now id w _ _ = (error 404, w)

  -- ReplaceDuplicate
  unfoldable pub handle_replace_duplicate :
      Time → Option Session → Option (String × String) → Web E → Reply × Web E
  unfolding replace_found role_of
  handle_replace_duplicate now session none w =
      if role_of session == role_admin then (error 400, w) else (error 403, w)
  handle_replace_duplicate now session (some (duplicate_id, original_id)) w =
      if role_of session == role_admin
      then replace_found now duplicate_id w (get_media E w.store duplicate_id)
          (get_media E w.store original_id)
      else (error 403, w)

  unfoldable pub unmark_found : Web E → Result (Option Media) → Reply × Web E
  unfolding cleared_reply
  unmark_found w (err e) = (error 404, w)
  unmark_found w (ok none) = (error 404, w)
  unmark_found w (ok (some m)) =
      cleared_reply (status "unmarked") w
        (save_media E (record m { duplicate_of = ""; deleted_at = none }) w.store)

  -- UnmarkDuplicate
  unfoldable pub handle_unmark_duplicate : Option Session → Option String → Web E → Reply × Web E
  unfolding unmark_found role_of
  handle_unmark_duplicate session none w =
      if role_of session == role_admin then (error 400, w) else (error 403, w)
  handle_unmark_duplicate session (some id) w =
      if role_of session == role_admin
      then unmark_found w (get_media E w.store id)
      else (error 403, w)
