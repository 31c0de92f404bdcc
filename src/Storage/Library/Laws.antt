-- ===== src/Storage/Library/Laws.antt =====
-- SaveMedia, the trash and the statistics.
use photo_core.Base.{
  ◌∙◌, ◌&&◌, String, some, none, ◌≡◌, ◌==◌, eq_iff, eq_refl, if◌then◌else◌, Error, ok, err, arith,
  keep_new,
}
use photo_core.Disk.Table.{write}
use photo_core.Storage.Models.{Media, Time}
use photo_core.Storage.Db.{Env, Store, has_taken_at}
use photo_core.Storage.Db.Laws.{load-write}
use photo_core.Storage.Index.{stored_ids, add_to_index}
use photo_core.Storage.Index.Laws.{stored_ids-add_to_index}
use photo_core.Storage.Library.{
  get_media, save_media, index_date, put_media, soft_delete_media, restore_media,
}

module _ (E : Env) where
  -- The three writes of a SaveMedia that succeeds.
  record Saved (m : Media) (s t : Store E) : Type 0 where
    media : write E.disk E.media_json s.media m.id m ≡ ok t.media
    idx_dir : add_to_index E.disk E.names_json s.idx_dir m.dir m.id ≡ ok t.idx_dir
    idx_date : index_date E s.idx_date m ≡ ok t.idx_date

  save_media-Saved :
      (m : Media) (s : Store E) → (save_media E m s).0 ≡ ok tt → Saved m s (save_media E m s).1
  unfolding save_media
  save_media-Saved m s h = record {
    media = ground arith;
    idx_dir = ground arith;
    idx_date = ground arith;
  }

  stored_ids-index_date :
      (b b' : E.disk.Bucket) (m : Media) (j : String)
      → index_date E b m ≡ ok b'
      → stored_ids E.disk E.names_json b' j ≡ (
          if has_taken_at E m && E.month_key m.taken_at == j
          then keep_new (stored_ids E.disk E.names_json b j) m.id
          else stored_ids E.disk E.names_json b j)
  unfolding index_date
  stored_ids-index_date b b' m j h =
      ground
        (arith, stored_ids-add_to_index E.disk E.names_json b b' (E.month_key m.taken_at) m.id j)

  pub save_media_rollback :
      (m : Media) (s : Store E) (e : Error)
      → (save_media E m s).0 ≡ err e
      → (save_media E m s).1 ≡ s
  unfolding save_media
  save_media_rollback m s e h = ground arith

  -- A SaveMedia that succeeds is what GetMedia returns for its id, it stands in the index of its
  -- directory, once, and in the index of its month if it has a date; every other media and every
  -- other index entry is as it was.
  pub get_media-save_media :
      (m : Media) (s : Store E) (j : String)
      → (save_media E m s).0 ≡ ok tt
      → (get_media E (save_media E m s).1 j ≡ (if m.id == j then ok (some m) else get_media E s j))
        × (stored_ids E.disk E.names_json (save_media E m s).1.idx_dir j ≡ (
            if m.dir == j
            then keep_new (stored_ids E.disk E.names_json s.idx_dir j) m.id
            else stored_ids E.disk E.names_json s.idx_dir j))
        × (stored_ids E.disk E.names_json (save_media E m s).1.idx_date j ≡ (
            if has_taken_at E m && E.month_key m.taken_at == j
            then keep_new (stored_ids E.disk E.names_json s.idx_date j) m.id
            else stored_ids E.disk E.names_json s.idx_date j))
  unfolding get_media
  get_media-save_media m s j h =
      let saved = save_media-Saved m s h in
      (
        load-write E.disk E.media_json (λ m. m.id) s.media _ j m saved.media,
        stored_ids-add_to_index E.disk E.names_json s.idx_dir _ m.dir m.id j saved.idx_dir,
        stored_ids-index_date s.idx_date _ m j saved.idx_date,
      )

  put_media-write :
      (m : Media) (s : Store E)
      → (put_media E m s).0 ≡ ok tt
      → write E.disk E.media_json s.media m.id m ≡ ok (put_media E m s).1.media
  unfolding put_media
  put_media-write m s h = ground arith

  get_media-put_media :
      (m : Media) (s : Store E) (j : String)
      → (put_media E m s).0 ≡ ok tt
      → get_media E (put_media E m s).1 j ≡ (if m.id == j then ok (some m) else get_media E s j)
  unfolding get_media
  get_media-put_media m s j h =
      load-write E.disk E.media_json (λ m. m.id) s.media _ j m (put_media-write m s h)

  -- Moving a media to the trash marks the record of its id and changes no other; the media must
  -- be stored under its own id.
  pub get_media-soft_delete_media :
      (now : Time) (id : String) (s : Store E) (m : Media) (j : String)
      → get_media E s id ≡ ok (some m)
      → m.id ≡ id
      → (soft_delete_media E now id s).0 ≡ ok tt
      → get_media E (soft_delete_media E now id s).1 j
        ≡ (if id == j then ok (some (record m { deleted_at = some now })) else get_media E s j)
  unfolding soft_delete_media
  get_media-soft_delete_media now id s m j found keyed h =
      ground (arith, get_media-put_media (record m { deleted_at = some now }) s j)

  pub get_media-restore_media :
      (id : String) (s : Store E) (m : Media) (j : String)
      → get_media E s id ≡ ok (some m)
      → m.id ≡ id
      → (restore_media E id s).0 ≡ ok tt
      → get_media E (restore_media E id s).1 j
        ≡ (if id == j then ok (some (record m { deleted_at = none })) else get_media E s j)
  unfolding restore_media
  get_media-restore_media id s m j found keyed h =
      ground (arith, eq_iff id j, get_media-put_media (record m { deleted_at = none }) s j)

  -- Restoring what was just moved to the trash gives the record of its id back without a time of
  -- deletion and with all else as it was, and leaves every other record as it was. The media must
  -- be stored under its own id.
  pub restore_media-soft_delete_media :
      (now : Time) (id : String) (s : Store E) (m : Media) (j : String)
      → get_media E s id ≡ ok (some m)
      → m.id ≡ id
      → (soft_delete_media E now id s).0 ≡ ok tt
      → (restore_media E id (soft_delete_media E now id s).1).0 ≡ ok tt
      → get_media E (restore_media E id (soft_delete_media E now id s).1).1 j
        ≡ (if id == j then ok (some (record m { deleted_at = none })) else get_media E s j)
  restore_media-soft_delete_media now id s m j found keyed h h' =
      let s' = (soft_delete_media E now id s).1 in
      let trashed = get_media-soft_delete_media now id s m id found keyed h in
      get_media-restore_media id s' (record m { deleted_at = some now }) j
        (rw trashed (ground (arith, eq_refl id))) keyed h'
      ∙ ground (arith, get_media-soft_delete_media now id s m j found keyed h)
