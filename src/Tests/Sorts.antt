-- ===== src/Tests/Sorts.antt =====
-- A sort for the theorems on handlers that sort, and the view of all media of a library with one.
use photo_core.Base.{
  ℕ, ◌≤◌, Bool, false, ◌||◌, List, [], ◌∷◌, some, ◌≡◌, refl, eqb, eq_iff, ◌∙◌, ltb, if◌then◌else◌,
  any, select, length, arith, ltb→lt, Bool-cases, inl, inr,
}
use photo_core.Storage.Models.{Media, Time}
use photo_core.Storage.Library.{list_all_media}
use photo_core.Web.Timeline.{IsDescending, MediaGroup, Sorter, sort_date, timeline_all_media}
use photo_core.Web.Timeline.Groups.{AllGroups, all_media}
use photo_core.Web.Timeline.Views.{IsView, timeline_all_media-get_timeline_media}
use photo_core.Tests.Disk.{env}
use photo_core.Tests.Storage.{saved, program}

insert_by : (Media → Time) → Media → List Media → List Media
insert_by key m [] = m ∷ []
insert_by key m (n ∷ ns) =
    let rest = insert_by key m ns in if ltb (key n) (key m) then m ∷ n ∷ ns else n ∷ rest

unfoldable pub sort_by : (Media → Time) → List Media → List Media
unfolding insert_by
sort_by key [] = []
sort_by key (m ∷ ms) = insert_by key m (sort_by key ms)

counts-insert_by :
    (key : Media → Time) (test : Media → Bool) (m : Media) (ns : List Media)
    → length (select test (insert_by key m ns)) ≡ length (select test (m ∷ ns))
unfolding insert_by
counts-insert_by key test m [] = refl
counts-insert_by key test m (n ∷ ns) = ground (arith, counts-insert_by key test m ns)

pub counts-sort_by :
    (key : Media → Time) (test : Media → Bool) (ms : List Media)
    → length (select test (sort_by key ms)) ≡ length (select test ms)
unfolding sort_by
counts-sort_by key test [] = refl
counts-sort_by key test (m ∷ ms) =
    counts-insert_by key test m (sort_by key ms) ∙ ground (arith, counts-sort_by key test ms)

any-insert_by :
    (key : Media → Time) (p : Media → Bool) (m : Media) (ns : List Media)
    → any p (insert_by key m ns) ≡ (p m || any p ns)
unfolding insert_by
any-insert_by key p m [] = refl
any-insert_by key p m (n ∷ ns) = ground (arith, any-insert_by key p m ns)

none_above :
    (key : Media → Time) (a b : ℕ) (ns : List Media)
    → a ≤ b
    → any (λ n. ltb a (key n)) ns ≡ false
    → any (λ n. ltb b (key n)) ns ≡ false
none_above key a b [] le h = refl
none_above key a b (n ∷ ns) le h = ground (arith, none_above key a b ns le)

insert_by-IsDescending :
    (key : Media → Time) (m : Media) (ns : List Media)
    → IsDescending key ns
    → IsDescending key (insert_by key m ns)
unfolding insert_by
insert_by-IsDescending key m [] d = (refl, tt)
insert_by-IsDescending key m (n ∷ ns) d = elim (Bool-cases (ltb (key n) (key m))) [
  | inl e ↦ rw e (
    ground (arith, none_above key (key n) (key m) ns (omega (arith, ltb→lt (key n) (key m) e)) d.0),
    d,
  )
  | inr e ↦ rw e (
    any-insert_by key (λ k. ltb (key n) (key k)) m ns ∙ ground (arith, d.0),
    insert_by-IsDescending key m ns d.1,
  )
]

pub sort_by-IsDescending :
    (key : Media → Time) (ms : List Media) → IsDescending key (sort_by key ms)
unfolding sort_by
sort_by-IsDescending key [] = tt
sort_by-IsDescending key (m ∷ ms) =
    insert_by-IsDescending key m (sort_by key ms) (sort_by-IsDescending key ms)

abbrev pub sorter : Sorter
sorter = record { sort = sort_by; counts = counts-sort_by; descending = sort_by-IsDescending }

timeline_all_media_example :
    (gs : List MediaGroup) × (timeline_all_media env sorter saved ≡ some gs)
    × (all_media env gs ≡ sort_by (sort_date env) (list_all_media env saved))
    × AllGroups (IsView env sorter saved) gs
unfolding program list_all_media
timeline_all_media_example =
    timeline_all_media-get_timeline_media env sorter saved (λ t. refl)
      (λ t u v a b h. ground (arith, eq_iff "0001-01" "2024-05"))
      (λ t. elim (Bool-cases (eqb t 0)) [ inl e ↦ rw e refl | inr e ↦ rw e refl ]) refl
