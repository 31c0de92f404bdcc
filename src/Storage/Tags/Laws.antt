-- ===== src/Storage/Tags/Laws.antt =====
-- The tags of a media after AddTagsToMedia and RemoveTagsFromMedia.
use photo_core.Base.{
  ℕ, ◌≡◌, refl, ap, ◌∙◌, String, not, ◌&&◌, ◌||◌, List, [], ◌∷◌, some, none, ◌==◌, eq_iff,
  if◌then◌else◌, ok, arith, Bool-cases, inl, inr, contains, keep_new, contains-keep_new, map,
  or_keep, IsDistinct, keep_new-IsDistinct,
}
use photo_core.Disk.Table.{find, write}
use photo_core.Storage.Models.{Media}
use photo_core.Storage.Db.{Env, Store}
use photo_core.Storage.Db.Laws.{load-write_at}
use photo_core.Storage.Index.{remove_from_index}
use photo_core.Storage.Library.{get_media}
use photo_core.Storage.Tags.{
  normalize, decrement_tag_count, add_tag, add_tags, add_tags_to_media, remove_tags,
  remove_tags_from_media,
}

module _ (E : Env) where
  unfoldable pub tag_count : E.disk.Bucket → String → ℕ
  tag_count b name = elim (find E.disk E.tags_json b name) [
    | none ↦ 0
    | some (t, _) ↦ t.media_count
  ]

  -- What the loop of AddTagsToMedia makes of the media's tags.
  unfoldable pub added : List String → List String → List String
  added old [] = old
  added old (raw ∷ raws) =
      added (if normalize E raw == "" then old else keep_new old (normalize E raw)) raws

  add_tag-tags :
      (id raw : String) (p : List String × Store E)
      → (add_tag E id raw p).0
        ≡ (if normalize E raw == "" then p.0 else keep_new p.0 (normalize E raw))
  unfolding add_tag
  add_tag-tags id raw p = ground arith

  add_tags-added :
      (id : String) (raws : List String) (p : List String × Store E)
      → (add_tags E id raws p).0 ≡ added p.0 raws
  unfolding add_tags added
  add_tags-added id [] p = refl
  add_tags-added id (raw ∷ raws) p =
      add_tags-added id raws (add_tag E id raw p)
      ∙ ap (λ tags. added tags raws) (add_tag-tags id raw p)

  contains-added :
      (raws tags : List String) (t : String)
      → contains (added tags raws) t
        ≡ (contains tags t || not (t == "") && contains (map (normalize E) raws) t)
  unfolding added contains
  contains-added [] tags t = ground arith
  contains-added (raw ∷ raws) tags t = ground (
    arith,
    eq_iff (normalize E raw) "",
    eq_iff (normalize E raw) t,
    contains-keep_new tags (normalize E raw) t,
    eq_iff t "",
    contains-added raws tags t,
    contains-added raws (keep_new tags (normalize E raw)) t,
  )

  added-IsDistinct : (raws tags : List String) → IsDistinct tags → IsDistinct (added tags raws)
  unfolding added
  added-IsDistinct [] tags d = d
  added-IsDistinct (raw ∷ raws) tags d = elim (Bool-cases (normalize E raw == "")) [
    | inl e ↦ rw e (added-IsDistinct raws tags d)
    | inr e ↦ rw e (
        added-IsDistinct raws (keep_new tags (normalize E raw))
          (keep_new-IsDistinct tags (normalize E raw) d))
  ]

  add_tags_to_media-write :
      (id : String) (raws : List String) (s : Store E) (m : Media)
      → get_media E s id ≡ ok (some m)
      → (add_tags_to_media E id raws s).0 ≡ ok tt
      → write E.disk E.media_json s.media id (record m { tags = added m.tags raws })
        ≡ ok (add_tags_to_media E id raws s).1.media
  unfolding add_tags_to_media
  add_tags_to_media-write id raws s m found h = ground (arith, add_tags-added id raws (m.tags, s))

  -- After an AddTagsToMedia that succeeds the media has its old tags and the given ones, trimmed
  -- and in lower case, but not the empty one; no tag stands twice if none did, and every other
  -- media is as it was. The media must be stored under its own id.
  pub get_media-add_tags_to_media :
      (id : String) (raws : List String) (s : Store E) (m : Media) (j : String)
      → get_media E s id ≡ ok (some m)
      → m.id ≡ id
      → (add_tags_to_media E id raws s).0 ≡ ok tt
      → (tags : List String) × (get_media E (add_tags_to_media E id raws s).1 j
          ≡ (if id == j then ok (some (record m { tags = tags })) else get_media E s j))
        × ((t : String)
            → contains tags t
              ≡ (contains m.tags t || not (t == "") && contains (map (normalize E) raws) t))
        × (IsDistinct m.tags → IsDistinct tags)
  unfolding get_media
  get_media-add_tags_to_media id raws s m j found keyed h =
      let m' = record m { tags = added m.tags raws } in
      (
        added m.tags raws,
        load-write_at E.disk E.media_json (λ m. m.id) s.media _ id j m' keyed
            (add_tags_to_media-write id raws s m found h),
        contains-added raws m.tags,
        added-IsDistinct raws m.tags,
      )

  -- What RemoveTagsFromMedia leaves of the media's tags.
  contains-remove_tags :
      (id : String) (gone tags : List String) (s : Store E) (t : String)
      → contains (remove_tags E id gone tags s).0 t ≡ (contains tags t && not (contains gone t))
  unfolding remove_tags contains
  contains-remove_tags id gone [] s t = refl
  contains-remove_tags id gone (x ∷ tags) s t = ground (
    arith,
    eq_iff x t,
    contains-remove_tags id gone tags s t,
    contains-remove_tags id gone tags
        (record s {
          idx_tag = or_keep (remove_from_index E.disk E.names_json s.idx_tag x id) s.idx_tag;
          tags = or_keep (decrement_tag_count E s.tags x) s.tags;
        })
        t,
  )

  remove_tags_from_media-write :
      (id : String) (raws : List String) (s : Store E) (m : Media)
      → get_media E s id ≡ ok (some m)
      → (remove_tags_from_media E id raws s).0 ≡ ok tt
      → write E.disk E.media_json s.media id
          (record m { tags = (remove_tags E id (map (normalize E) raws) m.tags s).0 })
        ≡ ok (remove_tags_from_media E id raws s).1.media
  unfolding remove_tags_from_media
  remove_tags_from_media-write id raws s m found h = ground arith

  -- After a RemoveTagsFromMedia that succeeds the media has its old tags but the given ones,
  -- trimmed and in lower case, and every other media is as it was. The media must be stored under
  -- its own id.
  pub get_media-remove_tags_from_media :
      (id : String) (raws : List String) (s : Store E) (m : Media) (j : String)
      → get_media E s id ≡ ok (some m)
      → m.id ≡ id
      → (remove_tags_from_media E id raws s).0 ≡ ok tt
      → (tags : List String) × (get_media E (remove_tags_from_media E id raws s).1 j
          ≡ (if id == j then ok (some (record m { tags = tags })) else get_media E s j))
        × ((t : String)
            → contains tags t ≡ (contains m.tags t && not (contains (map (normalize E) raws) t)))
  unfolding get_media
  get_media-remove_tags_from_media id raws s m j found keyed h =
      let gone = map (normalize E) raws in
      let tags = (remove_tags E id gone m.tags s).0 in
      (
        tags,
        load-write_at E.disk E.media_json (λ m. m.id) s.media _ id j (record m { tags = tags })
            keyed (remove_tags_from_media-write id raws s m found h),
        contains-remove_tags id gone m.tags s,
      )
