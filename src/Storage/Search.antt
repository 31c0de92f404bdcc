-- ===== src/Storage/Search.antt =====
-- Search of internal/storage/bbolt.go: the filter and the window that it returns. The slice
-- expression panics, which is `none`, where the offset is negative or the end is too large for an
-- `int` and wraps around.
pub mod Windows
use photo_core.Base.{
  ℕ, ℤ, pos, negsuc, int_bound, ◌+◌, ◌-◌, String, Bool, true, not, ◌&&◌, ◌||◌, List, [], ◌∷◌,
  Option, some, none, ◌==◌, eqb, ltb, if◌then◌else◌, select, length, take, drop, contains, eq_bool,
}
use photo_core.Storage.Models.{Media, SearchQuery, SearchResult, is_nonzero}
use photo_core.Storage.Db.{Env, Store}
use photo_core.Storage.Library.{list_all_media}

-- The window of Search over the media that match.
unfoldable pub window : ℕ → ℕ → List Media → SearchResult
window limit offset filtered =
    let total = length filtered in
    let start = if ltb total offset then total else offset in
    let end = if ltb total (start + limit) then total else start + limit in
    record {
      media = take (end - start) (drop start filtered);
      total_count = total;
      has_more = ltb end total;
    }

-- `if query.Limit <= 0 { query.Limit = 50 }`
unfoldable pub limit_of : ℤ → ℕ
limit_of (pos n) = if eqb n 0 then 50 else n
limit_of (negsuc n) = 50

-- The slice expression with its bounds.
unfoldable pub slice_window : ℕ → ℤ → List Media → Option SearchResult
unfolding window
slice_window limit (negsuc n) filtered = none
slice_window limit (pos offset) filtered =
    let start = if ltb (length filtered) offset then length filtered else offset in
    if ltb (start + limit) int_bound then some (window limit offset filtered) else none

-- strings.Contains(s, substr) is a parameter.
module _ (has_text : String → String → Bool) (E : Env) where
  unfoldable pub matches_text : Media → SearchQuery → Bool
  matches_text m q =
      q.text == ""
      || has_text (E.to_lower m.filename) (E.to_lower q.text)
      || has_text (E.to_lower m.metadata.camera) (E.to_lower q.text)
      || has_text (E.to_lower m.metadata.lens) (E.to_lower q.text)

  unfoldable pub matches_dates : Media → SearchQuery → Bool
  matches_dates m q =
      elim q.date_from [ none ↦ true | some t ↦ not (ltb m.taken_at t) ]
      && elim q.date_to [ none ↦ true | some t ↦ not (ltb t m.taken_at) ]

  unfoldable pub has_all_tags : List String → List String → Bool
  has_all_tags tags [] = true
  has_all_tags tags (t ∷ ts) = contains tags (E.to_lower t) && has_all_tags tags ts

  unfoldable pub has_gps : Media → Bool
  has_gps m = is_nonzero m.metadata.gps_lat || is_nonzero m.metadata.gps_lon

  unfoldable pub matches_flags : Media → SearchQuery → Bool
  unfolding has_gps
  matches_flags m q =
      elim q.is_favorite [ none ↦ true | some b ↦ eq_bool m.is_favorite b ]
      && elim q.has_gps [ none ↦ true | some b ↦ eq_bool (has_gps m) b ]

  -- matchesQuery: each filter that is set must hold.
  unfoldable pub matches_query : Media → SearchQuery → Bool
  unfolding matches_text matches_dates has_all_tags matches_flags
  matches_query m q =
      matches_text m q
      && (q.type == "" || m.type == q.type)
      && matches_dates m q
      && has_all_tags m.tags q.tags
      && (q.camera == "" || has_text (E.to_lower m.metadata.camera) (E.to_lower q.camera))
      && matches_flags m q

  unfoldable pub search_media : SearchQuery → Store E → Option SearchResult
  unfolding limit_of slice_window
  search_media q s =
      slice_window (limit_of q.limit) q.offset
        (select (λ m. matches_query m q) (list_all_media E s))
