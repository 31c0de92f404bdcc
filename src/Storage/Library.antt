-- ===== src/Storage/Library.antt =====
-- Media records of internal/storage/bbolt.go: SaveMedia, GetMedia, the listings, GetStats, and
-- the trash (SoftDeleteMedia, RestoreMedia, ListTrashMedia, GetTrashStats).
pub mod Laws
use mathlib.Core.Option
use photo_core.Base.{
  ℕ, ◌+◌, ◌%◌, ◌^◌, String, Bool, true, false, not, List, [], ◌∷◌, Option, some, none, ◌==◌,
  if◌then◌else◌, Result, ok, err, media_not_found, ◌>>=◌, keep_new, select, length,
}
use photo_core.Disk.Table.{write, rows}
use photo_core.Storage.Models.{
  Media, Stats, Time, media_type_image, media_type_video, media_type_raw,
}
use photo_core.Storage.Db.{Env, Store, update, load, has_taken_at}
use photo_core.Storage.Index.{add_to_index, get_index}

-- `media.DeletedAt == nil`
abbrev pub is_live : Media → Bool
is_live m = elim m.deleted_at [ none ↦ true | some _ ↦ false ]

module _ (E : Env) where
  unfoldable pub get_media : Store E → String → Result (Option Media)
  get_media s id = load E.disk E.media_json (λ m. m.id) s.media id

  -- The part of SaveMedia that keeps the month index.
  unfoldable pub index_date : E.disk.Bucket → Media → Result E.disk.Bucket
  index_date b m =
      if has_taken_at E m
      then add_to_index E.disk E.names_json b (E.month_key m.taken_at) m.id
      else ok b

  unfoldable pub save_media : Media → Store E → Result (Unit {0}) × Store E
  unfolding update
  save_media m = update λ s. do
    media ← write E.disk E.media_json s.media m.id m
    idx_dir ← add_to_index E.disk E.names_json s.idx_dir m.dir m.id
    idx_date ← index_date s.idx_date m
    ok (record s { media = media; idx_dir = idx_dir; idx_date = idx_date })

  -- The loop over ids of ListMediaByDir, GetAlbumMedia, ListUserFavorites, ListMediaByTag and
  -- GetMediaByIDs: an id that is missing, unreadable or in the trash is left out.
  unfoldable pub get_media_by_ids : Store E → List String → List Media
  get_media_by_ids s [] = []
  get_media_by_ids s (id ∷ ids) = elim (get_media s id) [
    | err e ↦ get_media_by_ids s ids
    | ok none ↦ get_media_by_ids s ids
    | ok (some m) ↦ if is_live m then m ∷ get_media_by_ids s ids else get_media_by_ids s ids
  ]

  unfoldable pub list_media_by_dir : Store E → String → Result (List Media)
  list_media_by_dir s dir = do
    ids ← get_index E.disk E.names_json s.idx_dir dir
    ok (get_media_by_ids s ids)

  unfoldable pub list_all_media : Store E → List Media
  list_all_media s = select is_live (rows E.disk E.media_json s.media)

  unfoldable pub list_trash_media : Store E → List Media
  list_trash_media s = select (λ m. not (is_live m)) (rows E.disk E.media_json s.media)

  -- The write of SoftDeleteMedia and RestoreMedia: the record alone, without the indices.
  unfoldable pub put_media : Media → Store E → Result (Unit {0}) × Store E
  unfolding update
  put_media m =
      update
        λ s. do media ← write E.disk E.media_json s.media m.id m; ok (record s { media = media })

  unfoldable pub soft_delete_media : Time → String → Store E → Result (Unit {0}) × Store E
  soft_delete_media now id s = elim (get_media s id) [
    | err e ↦ (err e, s)
    | ok none ↦ (err media_not_found, s)
    | ok (some m) ↦ put_media (record m { deleted_at = some now }) s
  ]

  unfoldable pub restore_media : String → Store E → Result (Unit {0}) × Store E
  restore_media id s = elim (get_media s id) [
    | err e ↦ (err e, s)
    | ok none ↦ (err media_not_found, s)
    | ok (some m) ↦ if is_live m then (ok tt, s) else put_media (record m { deleted_at = none }) s
  ]

  -- One round of GetStats over a media that is not in the trash; int64 sums wrap around.
  unfoldable pub count_media : Stats → Media → Stats
  count_media st m =
      let st' = record st {
        total_media = st.total_media + 1;
        total_size = (st.total_size + m.size) % 2 ^ 64;
      } in
      if m.type == media_type_image
      then record st' { total_images = st'.total_images + 1 }
      else if m.type == media_type_video
      then record st' { total_videos = st'.total_videos + 1 }
      else if m.type == media_type_raw
      then record st' { total_raw = st'.total_raw + 1 }
      else st'

  unfoldable pub stats_from : Stats → List String → List Media → Stats
  unfolding count_media
  stats_from st dirs [] = record st { total_dirs = length dirs }
  stats_from st dirs (m ∷ ms) = stats_from (count_media st m) (keep_new dirs m.dir) ms

  unfoldable pub get_stats : Store E → Stats
  unfolding stats_from list_all_media
  get_stats s =
      stats_from
        (record {
          total_media = 0;
          total_images = 0;
          total_videos = 0;
          total_raw = 0;
          total_size = 0;
          total_dirs = 0;
        })
        [] (list_all_media s)

  -- GetTrashStats: the number of media in the trash and their size, an int64 sum.
  unfoldable pub trash_size : ℕ → List Media → ℕ
  trash_size total [] = total
  trash_size total (m ∷ ms) = trash_size ((total + m.size) % 2 ^ 64) ms

  unfoldable pub get_trash_stats : Store E → ℕ × ℕ
  unfolding trash_size list_trash_media
  get_trash_stats s = (length (list_trash_media s), trash_size 0 (list_trash_media s))
