-- ===== src/Web/Pages/Grouped.antt =====
-- What Search and TimelineAllMedia hold: no media of the trash.
use photo_core.Base.{
  ℕ, ℤ, pos, negsuc, ◌+◌, ◌-◌, false, not, List, [], ◌∷◌, Option, none, some, ◌≡◌, refl, String,
  true, ◌==◌, any, length, drop, ltb, int_bound, if◌then◌else◌, inl, inr, arith, Bool-cases,
}
use photo_core.Storage.Models.{Media, SearchResult}
use photo_core.Storage.Db.{Env, Store}
use photo_core.Storage.Library.{is_live, list_all_media}
use photo_core.Storage.Search.{window, slice_window}
use photo_core.Storage.Timeline.{timeline_date}
use photo_core.Web.Timeline.{
  MediaGroup, Grouping, Sorter, add_group, add_media, sort_date, group_step, group_from, last_group,
  group_media, timeline_all_media,
}
use photo_core.Web.Pages.Live.{
  AllLive, any-take, any-drop, any-append, any-sort, list_all_media-AllLive,
}

abbrev pub AllFound : Option SearchResult → Type 0
AllFound none = Unit {0}
AllFound (some r) = AllLive r.media

pub slice_window-AllFound :
    (limit : ℕ) (offset : ℤ) (ms : List Media)
    → AllLive ms
    → AllFound (slice_window limit offset ms)
unfolding slice_window window
slice_window-AllFound limit (negsuc n) ms h = tt
slice_window-AllFound limit (pos n) ms h =
    let start = if ltb (length ms) n then length ms else n in
    let end = if ltb (length ms) (start + limit) then length ms else start + limit in
    elim (Bool-cases (ltb (start + limit) int_bound)) [
      | inl e ↦ rw e (
          any-take (λ m. not (is_live m)) (end - start) (drop start ms)
            (any-drop (λ m. not (is_live m)) start ms h))
      | inr e ↦ rw e tt
    ]

-- No group has a media of the trash.
abbrev pub GroupsLive : List MediaGroup → Type 0
GroupsLive gs = any (λ g. any (λ m. not (is_live m)) g.media) gs ≡ false

abbrev CurrentLive : Option MediaGroup → Type 0
CurrentLive none = Unit {0}
CurrentLive (some g) = AllLive g.media

abbrev GroupingLive : Option Grouping → Type 0
GroupingLive none = Unit {0}
GroupingLive (some st) = GroupsLive st.groups × CurrentLive st.current_group

add_group-GroupsLive :
    (gs : List MediaGroup) (o : Option MediaGroup)
    → GroupsLive gs
    → CurrentLive o
    → GroupsLive (add_group gs o)
add_group-GroupsLive gs none h k = h
add_group-GroupsLive gs (some g) h k =
    any-append (λ g. any (λ m. not (is_live m)) g.media) gs (g ∷ []) h (ground (arith, k))

add_media-GroupingLive :
    (m : Media) (st : Grouping) (o : Option MediaGroup)
    → is_live m ≡ true
    → GroupsLive st.groups
    → CurrentLive o
    → GroupingLive (add_media m st o)
add_media-GroupingLive m st none live h k = tt
add_media-GroupingLive m st (some g) live h k =
    (h, any-append (λ m. not (is_live m)) g.media (m ∷ []) k (ground (arith, live)))

module _ (E : Env) where
  group_step-GroupingLive :
      (m : Media) (st : Grouping)
      → is_live m ≡ true
      → GroupingLive (some st)
      → GroupingLive (group_step E m st)
  unfolding group_step
  group_step-GroupingLive m st live (h, k) =
      elim (Bool-cases (timeline_date E m == st.current_period)) [
        | inl e ↦ rw e (add_media-GroupingLive m st st.current_group live h k)
        | inr e ↦ rw e (add_group-GroupsLive st.groups st.current_group h k, ground (arith, live))
      ]

  group_from-GroupingLive :
      (ms : List Media) (o : Option Grouping)
      → AllLive ms
      → GroupingLive o
      → GroupingLive (elim o [ none ↦ none | some st ↦ group_from E ms st ])
  unfolding group_from
  group_from-GroupingLive ms none h k = tt
  group_from-GroupingLive [] (some st) h k = k
  group_from-GroupingLive (m ∷ ms) (some st) h k =
      group_from-GroupingLive ms (group_step E m st) (ground arith)
        (group_step-GroupingLive m st (ground arith) k)

  abbrev pub AllGrouped : Option (List MediaGroup) → Type 0
  AllGrouped none = Unit {0}
  AllGrouped (some gs) = GroupsLive gs

  last_group-GroupsLive :
      (groups : List MediaGroup) (period : String) (o : Option MediaGroup)
      → GroupsLive groups
      → CurrentLive o
      → GroupsLive
          (last_group E (record { groups = groups; current_period = period; current_group = o }))
  unfolding last_group
  last_group-GroupsLive groups period none h k = h
  last_group-GroupsLive groups period (some g) h k = elim (Bool-cases (ltb 0 (length g.media))) [
    | inl e ↦ rw e (add_group-GroupsLive groups (some g) h k)
    | inr e ↦ rw e h
  ]

  last-AllGrouped :
      (o : Option Grouping)
      → GroupingLive o
      → AllGrouped (elim o [ none ↦ none | some st ↦ some (last_group E st) ])
  last-AllGrouped none h = tt
  last-AllGrouped (some st) (h, k) =
      last_group-GroupsLive st.groups st.current_period st.current_group h k

  pub timeline_all_media-AllGrouped :
      (S : Sorter) (s : Store E) → AllGrouped (timeline_all_media E S s)
  unfolding timeline_all_media group_media
  timeline_all_media-AllGrouped S s =
      let ms = S.sort (sort_date E) (list_all_media E s) in
      let start : Grouping = record { groups = []; current_period = ""; current_group = none } in
      last-AllGrouped (group_from E ms start) (
        group_from-GroupingLive ms (some start)
          (any-sort S (sort_date E) (λ m. not (is_live m)) (list_all_media E s)
            (list_all_media-AllLive E s))
          (refl, tt))
