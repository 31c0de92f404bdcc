-- ===== src/Web/Timeline.antt =====
-- TimelineAllMedia of internal/web/handlers/handlers.go: all media, sorted by their dates and grouped
-- by their months.
pub mod Groups
pub mod Rounds
pub mod Views
use photo_core.Base.{
  String, Bool, false, ◌||◌, List, [], ◌∷◌, ◌++◌, Option, some, none, ◌≡◌, ◌==◌, eqb, ltb,
  if◌then◌else◌, any, select, length,
}
use photo_core.Storage.Models.{Media, Time}
use photo_core.Storage.Db.{Env, Store}
use photo_core.Storage.Library.{list_all_media}
use photo_core.Storage.Timeline.{format_month_label, timeline_date}

-- Later ones first, or as late.
abbrev pub IsDescending : (Media → Time) → List Media → Type 0
IsDescending key [] = Unit {0}
IsDescending key (m ∷ ms) = (any (λ n. ltb (key m) (key n)) ms ≡ false) × IsDescending key ms

-- sort.Slice with a less that says whether the key of the first is after that of the second: the
-- same media in a descending order.
pub record Sorter : Type 0 where
  pub sort : (Media → Time) → List Media → List Media
  pub counts :
      (key : Media → Time) (test : Media → Bool) (ms : List Media)
      → length (select test (sort key ms)) ≡ length (select test ms)
  pub descending : (key : Media → Time) (ms : List Media) → IsDescending key (sort key ms)

pub record MediaGroup : Type 0 where
  pub period : String
  pub label : String
  pub media : List Media

-- The variables of the loop.
pub record Grouping : Type 0 where
  pub groups : List MediaGroup
  pub current_period : String
  pub current_group : Option MediaGroup

abbrev pub add_group : List MediaGroup → Option MediaGroup → List MediaGroup
add_group groups none = groups
add_group groups (some g) = groups ++ g ∷ []

-- An append to the current group; `none` is the panic on a nil group.
abbrev pub add_media : Media → Grouping → Option MediaGroup → Option Grouping
add_media m st none = none
add_media m st (some g) =
    some (record st { current_group = some (record g { media = g.media ++ m ∷ [] }) })

module _ (E : Env) where
  -- The date by which the media are sorted.
  unfoldable pub sort_date : Media → Time
  sort_date m =
      if eqb m.taken_at 0 || ltb (E.year m.taken_at) 1900 then m.modified_at else m.taken_at

  unfoldable pub group_step : Media → Grouping → Option Grouping
  unfolding format_month_label timeline_date
  group_step m st =
      let date = timeline_date E m in
      if date == st.current_period
      then add_media m st st.current_group
      else some (record {
        groups = add_group st.groups st.current_group;
        current_period = date;
        current_group =
            some (record { period = date; label = format_month_label date; media = m ∷ [] });
      })

  unfoldable pub group_from : List Media → Grouping → Option Grouping
  unfolding group_step
  group_from [] st = some st
  group_from (m ∷ ms) st = elim (group_step m st) [ none ↦ none | some st' ↦ group_from ms st' ]

  -- The last group, which is appended if it is not empty.
  unfoldable pub last_group : Grouping → List MediaGroup
  last_group st = elim st.current_group [
    | none ↦ st.groups
    | some g ↦ if ltb 0 (length g.media) then st.groups ++ g ∷ [] else st.groups
  ]

  unfoldable pub group_media : List Media → Option (List MediaGroup)
  unfolding group_from last_group
  group_media ms =
      elim (group_from ms (record { groups = []; current_period = ""; current_group = none })) [
        | none ↦ none
        | some st ↦ some (last_group st)
      ]

  -- TimelineAllMedia, as far as its groups.
  unfoldable pub timeline_all_media : Sorter → Store E → Option (List MediaGroup)
  unfolding sort_date group_media
  timeline_all_media S s = group_media (S.sort sort_date (list_all_media E s))
