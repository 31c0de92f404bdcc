-- ===== src/Web/Timeline/Views.antt =====
-- The groups of TimelineAllMedia of internal/web/handlers/handlers.go against GetTimelineMedia.
use photo_core.Base.{
  ◌≤◌, Bool, true, false, ◌&&◌, List, [], ◌∷◌, ◌++◌, Option, some, none, ◌≡◌, refl, sym, ap, ◌∙◌,
  ◌==◌, eqb, ltb, if◌then◌else◌, any, select, length, arith, eq_refl, append-nil, append_assoc,
}
use mathlib.Core.Path.{subst}
use photo_core.Storage.Models.{Media, Time}
use photo_core.Storage.Db.{Env, Store}
use photo_core.Storage.Library.{list_all_media}
use photo_core.Storage.Timeline.{timeline_date, get_timeline_media, format_month_label}
use photo_core.Web.Timeline.{
  IsDescending, Sorter, MediaGroup, Grouping, sort_date, group_step, group_from, last_group,
  group_media, timeline_all_media,
}
use photo_core.Web.Timeline.Groups.{
  AllGroups, AllGroups-add, AllGroups-map, of_period, IsClosed, InLoop, IsConvex, IsUtc, is_odd,
  all_media, all_media-add, or_false,
}
use photo_core.Web.Timeline.Rounds.{InLoop-step, date_nonempty}

module _ (E : Env) where
  first_step :
      (m : Media) (rest : List Media)
      → IsUtc E
      → ((t : Time) → (E.month_key t == "") ≡ false)
      → IsDescending (sort_date E) (m ∷ rest)
      → any (is_odd E) (m ∷ rest) ≡ false
      → (st : Grouping) × (group_step E m
            (record { groups = []; current_period = ""; current_group = none })
          ≡ some st)
        × InLoop E m (m ∷ []) rest st
  unfolding group_step
  first_step m rest utc dated falling plain = (
    record {
      groups = [];
      current_period = timeline_date E m;
      current_group = some (record {
        period = timeline_date E m;
        label = format_month_label (timeline_date E m);
        media = m ∷ [];
      });
    },
    rw (date_nonempty E m utc dated) refl,
    record {
      groups = tt;
      group = record {
        period = timeline_date E m;
        label = format_month_label (timeline_date E m);
        media = m ∷ [];
      };
      current = refl;
      named = refl;
      whole = rw (eq_refl (timeline_date E m)) refl;
      labelled = refl;
      filled = refl;
      covers = refl;
      last = refl;
      low = ground (arith, (or_false E (is_odd E m) (any (is_odd E) rest) plain).0);
      falling = falling;
      plain = plain;
    },
  )

  abbrev continue : List Media → Option Grouping → Option Grouping
  continue rest o = elim o [ none ↦ none | some st ↦ group_from E rest st ]

  looped :
      (x : Media) (done rest : List Media) (st : Grouping)
      → IsConvex E
      → InLoop E x done rest st
      → (st' : Grouping) × (last : Media) × (group_from E rest st ≡ some st')
        × InLoop E last (done ++ rest) [] st'
  unfolding group_from
  looped x done [] st convex h =
      (st, x, refl, subst (λ d. InLoop E x d [] st) (sym (append-nil done)) h)
  looped x done (m ∷ rest) st convex h =
      let (st₁, step, h₁) = InLoop-step E x m done rest st convex h in
      let (st', last, run, h') = looped m (done ++ m ∷ []) rest st₁ convex h₁ in
      (
        st',
        last,
        ap (continue rest) step ∙ run,
        subst (λ d. InLoop E last d [] st') (append_assoc done (m ∷ []) rest) h',
      )

  -- What the groups of a list say of it.
  pub record Groups (ms : List Media) (gs : List MediaGroup) : Type 0 where
    pub covers : all_media E gs ≡ ms
    pub each : AllGroups (IsClosed E ms []) gs

  last_group-some :
      (st : Grouping) (g : MediaGroup)
      → st.current_group ≡ some g
      → ltb 0 (length g.media) ≡ true
      → last_group E st ≡ st.groups ++ g ∷ []
  unfolding last_group
  last_group-some st g c filled =
      ap
        (λ o. elim o [
          | none ↦ st.groups
          | some g ↦ if ltb 0 (length g.media) then st.groups ++ g ∷ [] else st.groups
        ])
        c
      ∙ rw filled refl

  last_group-Groups :
      (x : Media) (ms : List Media) (st : Grouping)
      → InLoop E x ms [] st
      → Groups ms (last_group E st)
  unfolding last_group
  last_group-Groups x ms st h =
      subst (Groups ms) (sym (last_group-some st h.group h.current h.filled)) (record {
        covers = all_media-add E st.groups h.group ∙ h.covers;
        each = AllGroups-add (IsClosed E ms []) st.groups h.group h.groups (record {
          whole = h.whole ∙ ap (λ k. of_period E k ms) (sym h.named);
          labelled = h.labelled;
          over = refl;
        });
      })

  group_media-Groups :
      (ms : List Media)
      → IsConvex E
      → ((t : Time) → (E.month_key t == "") ≡ false)
      → IsDescending (sort_date E) ms
      → any (is_odd E) ms ≡ false
      → (gs : List MediaGroup) × (group_media E ms ≡ some gs) × Groups ms gs
  unfolding group_media group_from
  group_media-Groups [] convex dated falling plain = ([], refl, record { covers = refl; each = tt })
  group_media-Groups (m ∷ rest) convex dated falling plain =
      let (st₁, step, h₁) = first_step m rest convex.1 dated falling plain in
      let (st', last, run, h') = looped m (m ∷ []) rest st₁ convex h₁ in
      (
        last_group E st',
        ap (λ o. elim o [ none ↦ none | some st ↦ some (last_group E st) ])
            (ap (continue rest) step ∙ run),
        last_group-Groups last (m ∷ rest) st' h',
      )

  select-select :
      (p q : Media → Bool) (ms : List Media) → select q (select p ms) ≡ select (λ m. p m && q m) ms
  select-select p q [] = refl
  select-select p q (m ∷ ms) = ground (arith, select-select p q ms)

  -- A group of the view of all media, against the view of one period.
  pub record IsView (S : Sorter) (s : Store E) (g : MediaGroup) : Type 0 where
    pub labelled : g.label ≡ format_month_label g.period
    pub media : g.media ≡ of_period E g.period (S.sort (sort_date E) (list_all_media E s))
    pub counts :
        (test : Media → Bool)
        → length (select test g.media) ≡ length (select test (get_timeline_media E s g.period))

  counted_none : (p : Media → Bool) (ms : List Media) → length (select p ms) ≡ 0 → any p ms ≡ false
  counted_none p [] h = refl
  counted_none p (m ∷ ms) h = ground (arith, counted_none p ms)

  none_counted : (p : Media → Bool) (ms : List Media) → any p ms ≡ false → length (select p ms) ≡ 0
  none_counted p [] h = refl
  none_counted p (m ∷ ms) h = ground (arith, none_counted p ms)

  IsClosed-IsView :
      (S : Sorter) (s : Store E) (g : MediaGroup)
      → IsClosed E (S.sort (sort_date E) (list_all_media E s)) [] g
      → IsView S s g
  unfolding get_timeline_media
  IsClosed-IsView S s g h = record {
    labelled = h.labelled;
    media = h.whole;
    counts = λ test.
        ap (λ l. length (select test l)) h.whole
        ∙ ap length (
            select-select (λ m. timeline_date E m == g.period) test
              (S.sort (sort_date E) (list_all_media E s)))
        ∙ S.counts (sort_date E) (λ m. timeline_date E m == g.period && test m) (list_all_media E s)
        ∙ ap length
            (sym (select-select (λ m. timeline_date E m == g.period) test (list_all_media E s)));
  }

  -- Where the server's zone is UTC, in which the dates of EXIF are shown, and no live media was
  -- taken in the year 1900, TimelineAllMedia does not panic, and its groups
  -- are, one behind the other, the live media in the order of the sort; each group holds all media
  -- of its period, as often as GetTimelineMedia has them, under the label of the period. A month is
  -- a text that is not empty, and what lies between two times of one month is of that month.
  pub timeline_all_media-get_timeline_media :
      (S : Sorter) (s : Store E)
      → ((t : Time) → E.local_month_key t ≡ E.month_key t)
      → ((t u v : Time)
          → t ≤ u
          → u ≤ v
          → E.month_key t ≡ E.month_key v
          → E.month_key u ≡ E.month_key t)
      → ((t : Time) → (E.month_key t == "") ≡ false)
      → any (λ m. eqb (E.year m.taken_at) 1900) (list_all_media E s) ≡ false
      → (gs : List MediaGroup) × (timeline_all_media E S s ≡ some gs)
        × (all_media E gs ≡ S.sort (sort_date E) (list_all_media E s))
        × AllGroups (IsView S s) gs
  unfolding timeline_all_media
  timeline_all_media-get_timeline_media S s utc convex dated plain =
      let ms = S.sort (sort_date E) (list_all_media E s) in
      let sorted_plain = counted_none (is_odd E) ms (
        S.counts (sort_date E) (is_odd E) (list_all_media E s)
        ∙ none_counted (is_odd E) (list_all_media E s) plain) in
      let (gs, run, groups) =
        group_media-Groups ms (convex, utc) dated (S.descending (sort_date E) (list_all_media E s))
          sorted_plain in
      (gs, run, groups.covers, AllGroups-map _ _ gs (IsClosed-IsView S s) groups.each)
