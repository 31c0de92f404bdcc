-- ===== src/Storage/Timeline.antt =====
-- The timeline and the map of internal/storage/bbolt.go: GetTimeline, GetTimelineMedia,
-- formatMonthLabel, GetGeoPoints; and ListDirectories.
pub mod Counts
use photo_core.Base.{
  ℕ, ◌+◌, String, ◌||◌, List, [], ◌∷◌, some, none, ◌==◌, leb, if◌then◌else◌, lookup, insert, select,
  map, concat, slice, len, less, zero, suc, length,
}
use photo_core.Storage.Models.{Media, Float64, is_nonzero}
use photo_core.Storage.Db.{Env, Store, has_taken_at}
use photo_core.Storage.Library.{list_all_media}

pub record TimelineGroup : Type 0 where
  pub date : String
  pub label : String
  pub media_count : ℕ

pub record GeoPoint : Type 0 where
  pub media_id : String
  pub lat : Float64
  pub lon : Float64
  pub thumb_url : String

abbrev pub months : List (String × String)
months =
    ("01", "Январь")
    ∷ ("02", "Февраль")
    ∷ ("03", "Март")
    ∷ ("04", "Апрель")
    ∷ ("05", "Май")
    ∷ ("06", "Июнь")
    ∷ ("07", "Июль")
    ∷ ("08", "Август")
    ∷ ("09", "Сентябрь")
    ∷ ("10", "Октябрь")
    ∷ ("11", "Ноябрь")
    ∷ ("12", "Декабрь")
    ∷ []

-- formatMonthLabel; lengths and positions count bytes.
unfoldable pub format_month_label : String → String
format_month_label date =
    if leb 7 (len date)
    then elim (lookup (slice date 5 7) months) [
      | some m ↦ concat m (concat " " (slice date 0 4))
      | none ↦ date
    ]
    else date

-- `groups[date].MediaCount++`, where the group may be new.
unfoldable pub count_group : String → List (String × TimelineGroup) → List (String × TimelineGroup)
unfolding format_month_label
count_group date groups = elim (lookup date groups) [
  | none ↦
      insert date (record { date = date; label = format_month_label date; media_count = 1 }) groups
  | some g ↦ insert date (record g { media_count = g.media_count + 1 }) groups
]

-- The inner loop of the sort for one place: what ends up at the place, and the places after it.
unfoldable pub settle : TimelineGroup → List TimelineGroup → TimelineGroup × List TimelineGroup
settle first [] = (first, [])
settle first (g ∷ rest) =
    let swapped = settle g rest in
    let kept = settle first rest in
    if less first.date g.date then (swapped.0, first ∷ swapped.1) else (kept.0, g ∷ kept.1)

-- The sort by exchange, on fuel: one round for each place.
unfoldable pub sort_groups : ℕ → List TimelineGroup → List TimelineGroup
unfolding settle
sort_groups zero groups = groups
sort_groups (suc n) [] = []
sort_groups (suc n) (g ∷ rest) = let (first, later) = settle g rest in first ∷ sort_groups n later

module _ (E : Env) where
  -- The date of a media in the timeline.
  unfoldable pub timeline_date : Media → String
  timeline_date m =
      if has_taken_at E m then E.month_key m.taken_at else E.local_month_key m.modified_at

  unfoldable pub groups_from :
      List (String × TimelineGroup) → List Media → List (String × TimelineGroup)
  unfolding count_group timeline_date
  groups_from groups [] = groups
  groups_from groups (m ∷ ms) = groups_from (count_group (timeline_date m) groups) ms

  -- GetTimeline; `order` is the order in which Go ranges over a map.
  unfoldable pub get_timeline :
      (List (String × TimelineGroup) → List (String × TimelineGroup)) → Store E → List TimelineGroup
  unfolding groups_from sort_groups
  get_timeline order s =
      let result = map (λ e. e.1) (order (groups_from [] (list_all_media E s))) in
      sort_groups (length result) result

  unfoldable pub get_timeline_media : Store E → String → List Media
  unfolding timeline_date
  get_timeline_media s period = select (λ m. timeline_date m == period) (list_all_media E s)

  -- GetGeoPoints
  unfoldable pub geo_point : Media → GeoPoint
  geo_point m = record {
    media_id = m.id;
    lat = m.metadata.gps_lat;
    lon = m.metadata.gps_lon;
    thumb_url = concat "/media/" (concat m.id "/thumb/small");
  }

  unfoldable pub get_geo_points : Store E → List GeoPoint
  unfolding geo_point
  get_geo_points s = map geo_point (
      select (λ m. is_nonzero m.metadata.gps_lat || is_nonzero m.metadata.gps_lon)
        (list_all_media E s))

  -- ListDirectories: the keys of the directory index.
  unfoldable pub list_directories : Store E → List String
  list_directories s = map (λ e. e.0) (E.disk.entries s.idx_dir)
