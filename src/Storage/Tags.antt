-- ===== src/Storage/Tags.antt =====
-- Tags of internal/storage/bbolt.go: the tags of a media, the index of a tag and its counter.
pub mod Laws
use photo_core.Base.{
  ◌+◌, ◌-◌, String, List, [], ◌∷◌, some, none, ◌==◌, if◌then◌else◌, Result, ok, err,
  media_not_found, ◌>>=◌, or_keep, contains, eqb, map, keep_new,
}
use photo_core.Disk.Table.{find, write, write_lenient, rows}
use photo_core.Storage.Models.{Media, Tag}
use photo_core.Storage.Db.{Env, Store, update, and_then}
use photo_core.Storage.Index.{add_to_index, remove_from_index, get_index}
use photo_core.Storage.Library.{get_media, get_media_by_ids}

module _ (E : Env) where
  -- `strings.TrimSpace(strings.ToLower(tag))`
  unfoldable pub normalize : String → String
  normalize tag = E.trim_space (E.to_lower tag)

  unfoldable pub increment_tag_count : E.disk.Bucket → String → Result E.disk.Bucket
  increment_tag_count b name = elim (find E.disk E.tags_json b name) [
    | none ↦ write_lenient E.disk E.tags_json b name (record { name = name; media_count = 1 })
    | some (tag, _) ↦
        write_lenient E.disk E.tags_json b name (record tag { media_count = tag.media_count + 1 })
  ]

  -- A count that falls to 0 or below goes with its key.
  unfoldable pub decrement_tag_count : E.disk.Bucket → String → Result E.disk.Bucket
  decrement_tag_count b name = elim (find E.disk E.tags_json b name) [
    | none ↦ ok b
    | some (tag, _) ↦
        if eqb (tag.media_count - 1) 0
        then ok (E.disk.delete b name)
        else write_lenient E.disk E.tags_json b name
            (record tag { media_count = tag.media_count - 1 })
  ]

  -- One round of AddTagsToMedia: the index and the counter are updated also for a tag that the
  -- media has; their errors are dropped.
  unfoldable pub add_tag : String → String → List String × Store E → List String × Store E
  add_tag media_id raw (tags, s) =
      let tag = normalize raw in
      if tag == "" then (tags, s) else (
        keep_new tags tag,
        record s {
          idx_tag = or_keep (add_to_index E.disk E.names_json s.idx_tag tag media_id) s.idx_tag;
          tags = or_keep (increment_tag_count s.tags tag) s.tags;
        },
      )

  unfoldable pub add_tags : String → List String → List String × Store E → List String × Store E
  add_tags media_id [] p = p
  add_tags media_id (tag ∷ tags) p = add_tags media_id tags (add_tag media_id tag p)

  unfoldable pub add_tags_to_media : String → List String → Store E → Result (Unit {0}) × Store E
  unfolding update
  add_tags_to_media media_id tags s = elim (get_media E s media_id) [
    | err e ↦ (err e, s)
    | ok none ↦ (err media_not_found, s)
    | ok (some m) ↦
        update
          (λ s. do
            let p = add_tags media_id tags (m.tags, s)
            media ← write E.disk E.media_json s.media media_id (record m { tags = p.0 })
            ok (record (p.1) { media = media }))
          s
  ]

  -- One round of RemoveTagsFromMedia over the media's tags.
  unfoldable pub remove_tags : String → List String → List String → Store E → List String × Store E
  remove_tags media_id gone [] s = ([], s)
  remove_tags media_id gone (t ∷ tags) s =
      if contains gone t
      then remove_tags media_id gone tags (record s {
        idx_tag = or_keep (remove_from_index E.disk E.names_json s.idx_tag t media_id) s.idx_tag;
        tags = or_keep (decrement_tag_count s.tags t) s.tags;
      })
      else (let (kept, s') = remove_tags media_id gone tags s in (t ∷ kept, s'))

  unfoldable pub remove_tags_from_media :
      String → List String → Store E → Result (Unit {0}) × Store E
  unfolding update
  remove_tags_from_media media_id tags s = elim (get_media E s media_id) [
    | err e ↦ (err e, s)
    | ok none ↦ (err media_not_found, s)
    | ok (some m) ↦
        update
          (λ s. do
            let p = remove_tags media_id (map normalize tags) m.tags s
            media ← write E.disk E.media_json s.media media_id (record m { tags = p.0 })
            ok (record (p.1) { media = media }))
          s
  ]

  unfoldable pub list_all_tags : Store E → List Tag
  list_all_tags s = rows E.disk E.tags_json s.tags

  unfoldable pub list_media_by_tag : Store E → String → Result (List Media)
  list_media_by_tag s tag = do
    ids ← get_index E.disk E.names_json s.idx_tag (normalize tag)
    ok (get_media_by_ids E s ids)

  unfoldable pub bulk_add_tags : List String → List String → Store E → Result (Unit {0}) × Store E
  unfolding and_then
  bulk_add_tags [] tags s = (ok tt, s)
  bulk_add_tags (id ∷ ids) tags s =
      and_then (add_tags_to_media id tags s) (λ _. bulk_add_tags ids tags)

  -- removeMediaFromAllTags
  unfoldable pub decrement_tags : List String → E.disk.Bucket → E.disk.Bucket
  decrement_tags [] b = b
  decrement_tags (tag ∷ tags) b = decrement_tags tags (or_keep (decrement_tag_count b tag) b)
