-- ===== src/Storage/Timeline/Counts.antt =====
-- The counts of the timeline.
use photo_core.Base.{
  ℕ, zero, suc, ◌+◌, String, List, [], ◌∷◌, Option, some, none, ◌≡◌, refl, sym, ap, ◌∙◌, arith,
  ◌==◌, eq_iff, eq_refl, if◌then◌else◌, lookup, remove, lookup-insert, lookup-remove, HasKeysOnce,
  IsRange, insert-HasKeysOnce, remove-HasKeysOnce, select, length, map, Option-cases, Bool-cases,
  inl, inr, less,
}
use photo_core.Storage.Models.{Media}
use photo_core.Storage.Db.{Env, Store}
use photo_core.Storage.Library.{list_all_media}
use photo_core.Storage.Timeline.{
  TimelineGroup, count_group, settle, sort_groups, timeline_date, groups_from, get_timeline,
  get_timeline_media, format_month_label,
}

abbrev Groups : Type 0
Groups = List (String × TimelineGroup)

unfoldable pub sum_counts : List TimelineGroup → ℕ
sum_counts [] = 0
sum_counts (g ∷ groups) = g.media_count + sum_counts groups

abbrev group_count : Option TimelineGroup → ℕ
group_count none = 0
group_count (some g) = g.media_count

abbrev sum_values : Groups → ℕ
sum_values [] = 0
sum_values (e ∷ m) = e.1.media_count + sum_values m

abbrev IsKeyed : Groups → Type 0
IsKeyed m = (k : String) (g : TimelineGroup) → lookup k m ≡ some g → g.date ≡ k

sum_counts-map : (m : Groups) → sum_counts (map (λ e. e.1) m) ≡ sum_values m
unfolding sum_counts
sum_counts-map [] = refl
sum_counts-map (e ∷ m) = ap (λ n. e.1.media_count + n) (sum_counts-map m)

lookup-count_group :
    (k j : String) (m : Groups)
    → group_count (lookup j (count_group k m))
      ≡ (if k == j then 1 else 0) + group_count (lookup j m)
unfolding count_group
lookup-count_group k j m = ground (
  arith,
  lookup-insert k j (record { date = k; label = format_month_label k; media_count = 1 }) m,
  eq_iff k j,
  Option-cases (lookup k m),
)

count_group-HasKeysOnce : (k : String) (m : Groups) → HasKeysOnce m → HasKeysOnce (count_group k m)
unfolding count_group
count_group-HasKeysOnce k m h = ground (
  arith,
  Option-cases (lookup k m),
  insert-HasKeysOnce k (record { date = k; label = format_month_label k; media_count = 1 }) m h,
  λ (g : TimelineGroup). insert-HasKeysOnce k (record g { media_count = g.media_count + 1 }) m h,
)

count_group-IsKeyed : (k : String) (m : Groups) → IsKeyed m → IsKeyed (count_group k m)
unfolding count_group
count_group-IsKeyed k m h j g e = elim (Option-cases (lookup k m)) [
  | inl f ↦ ground (
    arith,
    lookup-insert k j (record { date = k; label = format_month_label k; media_count = 1 }) m,
    eq_iff k j,
    h j g,
  )
  | inr (o, f) ↦ ground (
    arith,
    lookup-insert k j (record o { media_count = o.media_count + 1 }) m,
    eq_iff k j,
    h j g,
    h k o f,
  )
]

-- The sum counts each key of a map.
sum_values-remove :
    (k : String) (m : Groups)
    → HasKeysOnce m
    → sum_values m ≡ group_count (lookup k m) + sum_values (remove k m)
sum_values-remove k [] h = refl
sum_values-remove k ((j, g) ∷ m) h =
    ground (arith, eq_iff j k, sum_values-remove k m h.1, ap (λ i. group_count (lookup i m)))

sum_values-count_group :
    (k : String) (m : Groups) → HasKeysOnce m → sum_values (count_group k m) ≡ sum_values m + 1
unfolding count_group
sum_values-count_group k m h = ground (arith, Option-cases (lookup k m), sum_values-remove k m h)

-- Two maps with the same entries have the same sum.
sum_values-same :
    (a b : Groups)
    → HasKeysOnce a
    → HasKeysOnce b
    → ((k : String) → lookup k a ≡ lookup k b)
    → sum_values a ≡ sum_values b
sum_values-same [] [] h j e = refl
sum_values-same [] ((k, g) ∷ b) h j e = ground (arith, e k, eq_refl k)
sum_values-same ((k, g) ∷ a) b h j e =
    let rest : sum_values a ≡ sum_values (remove k b) =
      sum_values-same a (remove k b) h.1 (remove-HasKeysOnce k b j)
        (λ i. ground (arith, e i, lookup-remove k i b, eq_iff k i, h.0, ap (λ x. lookup x a))) in
    ground (arith, sum_values-remove k b j, e k, eq_refl k, rest)

-- What holds of every group of a list.
unfoldable pub Every : (TimelineGroup → Type 0) → List TimelineGroup → Type 0
Every P [] = Unit
Every P (g ∷ groups) = P g × Every P groups

values-Every :
    (P : TimelineGroup → Type 0) (m : Groups)
    → HasKeysOnce m
    → ((k : String) (g : TimelineGroup) → lookup k m ≡ some g → P g)
    → Every P (map (λ e. e.1) m)
unfolding Every
values-Every P [] h f = tt
values-Every P ((k, g) ∷ m) h f = (
  f k g (ground (arith, eq_refl k)),
  values-Every P m h.1 (λ j o e. f j o (ground (arith, eq_iff k j, h.0, e, ap (λ i. lookup i m)))),
)

settle-Every :
    (P : TimelineGroup → Type 0) (first : TimelineGroup) (rest : List TimelineGroup)
    → P first
    → Every P rest
    → P (settle first rest).0 × Every P (settle first rest).1
unfolding settle Every
settle-Every P first [] p h = (p, h)
settle-Every P first (g ∷ rest) p h = elim (Bool-cases (less first.date g.date)) [
  | inl e ↦ (let r = settle-Every P g rest h.0 h.1 in rw e (r.0, (p, r.1)))
  | inr e ↦ (let r = settle-Every P first rest p h.1 in rw e (r.0, (h.0, r.1)))
]

sort_groups-Every :
    (P : TimelineGroup → Type 0) (n : ℕ) (groups : List TimelineGroup)
    → Every P groups
    → Every P (sort_groups n groups)
unfolding sort_groups Every
sort_groups-Every P zero groups h = h
sort_groups-Every P (suc n) [] h = h
sort_groups-Every P (suc n) (g ∷ rest) h =
    let r = settle-Every P g rest h.0 h.1 in (r.0, sort_groups-Every P n (settle g rest).1 r.1)

settle_sum :
    (first : TimelineGroup) (rest : List TimelineGroup)
    → (settle first rest).0.media_count + sum_counts (settle first rest).1
      ≡ first.media_count + sum_counts rest
unfolding settle sum_counts
settle_sum first [] = refl
settle_sum first (g ∷ rest) = ground (arith, settle_sum g rest, settle_sum first rest)

sort_groups_sum :
    (n : ℕ) (groups : List TimelineGroup) → sum_counts (sort_groups n groups) ≡ sum_counts groups
unfolding sort_groups sum_counts
sort_groups_sum zero groups = refl
sort_groups_sum (suc n) [] = refl
sort_groups_sum (suc n) (g ∷ rest) =
    omega (arith, sort_groups_sum n (settle g rest).1, settle_sum g rest)

module _ (E : Env) where
  groups_from-HasKeysOnce :
      (ms : List Media) (m : Groups) → HasKeysOnce m → HasKeysOnce (groups_from E m ms)
  unfolding groups_from
  groups_from-HasKeysOnce [] m h = h
  groups_from-HasKeysOnce (x ∷ ms) m h =
      groups_from-HasKeysOnce ms (count_group (timeline_date E x) m)
        (count_group-HasKeysOnce (timeline_date E x) m h)

  groups_from-IsKeyed : (ms : List Media) (m : Groups) → IsKeyed m → IsKeyed (groups_from E m ms)
  unfolding groups_from
  groups_from-IsKeyed [] m h = h
  groups_from-IsKeyed (x ∷ ms) m h =
      groups_from-IsKeyed ms (count_group (timeline_date E x) m)
        (count_group-IsKeyed (timeline_date E x) m h)

  lookup-groups_from :
      (ms : List Media) (m : Groups) (j : String)
      → group_count (lookup j (groups_from E m ms))
        ≡ group_count (lookup j m) + length (select (λ x. timeline_date E x == j) ms)
  unfolding groups_from
  lookup-groups_from [] m j = omega arith
  lookup-groups_from (x ∷ ms) m j = ground (
    arith,
    lookup-groups_from ms (count_group (timeline_date E x) m) j,
    lookup-count_group (timeline_date E x) j m,
  )

  sum_values-groups_from :
      (ms : List Media) (m : Groups)
      → HasKeysOnce m
      → sum_values (groups_from E m ms) ≡ sum_values m + length ms
  unfolding groups_from
  sum_values-groups_from [] m h = omega arith
  sum_values-groups_from (x ∷ ms) m h =
      let date = timeline_date E x in
      omega (
        arith,
        sum_values-groups_from ms (count_group date m) (count_group-HasKeysOnce date m h),
        sum_values-count_group date m h,
      )

  -- Each group of GetTimeline counts the media that GetTimelineMedia lists for its date, and the
  -- counts add up to the number of all media that are not in the trash, in whatever order Go
  -- ranges over the map of the groups.
  pub get_timeline-get_timeline_media :
      (order : List (String × TimelineGroup) → List (String × TimelineGroup)) (s : Store E)
      → ((m : List (String × TimelineGroup)) → HasKeysOnce m → IsRange (order m) m)
      → Every (λ g. length (get_timeline_media E s g.date) ≡ g.media_count) (get_timeline E order s)
        × (sum_counts (get_timeline E order s) ≡ length (list_all_media E s))
  unfolding get_timeline get_timeline_media
  get_timeline-get_timeline_media order s range =
      let ms = list_all_media E s in
      let m = groups_from E [] ms in
      let once : HasKeysOnce m = groups_from-HasKeysOnce ms [] tt in
      let (once', same) = range m once in
      let result = map (λ (e : String × TimelineGroup). e.1) (order m) in
      (
        sort_groups-Every (λ g. length (get_timeline_media E s g.date) ≡ g.media_count)
            (length result) result
            (values-Every (λ g. length (get_timeline_media E s g.date) ≡ g.media_count) (order m)
              once'
              (λ k g e.
                let there : lookup k m ≡ some g = sym (same k) ∙ e in
                let dated : g.date ≡ k =
                  groups_from-IsKeyed ms [] (λ j o f. ground arith) k g there in
                rw dated (ground (arith, lookup-groups_from ms [] k, there)))),
        sort_groups_sum (length result) result
            ∙ sum_counts-map (order m)
            ∙ sum_values-same (order m) m once' once same
            ∙ (sum_values-groups_from ms [] tt ∙ omega arith),
      )
