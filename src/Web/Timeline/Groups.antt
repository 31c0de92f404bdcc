-- ===== src/Web/Timeline/Groups.antt =====
-- The groups of TimelineAllMedia of internal/web/handlers/handlers.go against GetTimelineMedia.
use photo_core.Base.{
  ◌≤◌, String, Bool, true, false, ◌||◌, List, [], ◌∷◌, ◌++◌, some, ◌≡◌, refl, sym, ap, ◌∙◌, ◌==◌,
  eqb, ltb, any, select, length, arith, eq_refl, append-nil, append_assoc, Bool-cases, inl, inr,
}
use photo_core.Storage.Models.{Media, Time}
use photo_core.Storage.Db.{Env, has_taken_at}
use photo_core.Storage.Timeline.{timeline_date, format_month_label}
use photo_core.Web.Timeline.{IsDescending, MediaGroup, Grouping, sort_date}

abbrev pub AllGroups : (MediaGroup → Type 0) → List MediaGroup → Type 0
AllGroups P [] = Unit {0}
AllGroups P (g ∷ gs) = P g × AllGroups P gs

pub AllGroups-add :
    (P : MediaGroup → Type 0) (gs : List MediaGroup) (g : MediaGroup)
    → AllGroups P gs
    → P g
    → AllGroups P (gs ++ g ∷ [])
AllGroups-add P [] g a h = (h, tt)
AllGroups-add P (x ∷ gs) g a h = (a.0, AllGroups-add P gs g a.1 h)

pub AllGroups-map :
    (P Q : MediaGroup → Type 0) (gs : List MediaGroup)
    → ((g : MediaGroup) → P g → Q g)
    → AllGroups P gs
    → AllGroups Q gs
AllGroups-map P Q [] f a = tt
AllGroups-map P Q (g ∷ gs) f a = (f g a.0, AllGroups-map P Q gs f a.1)

module _ (E : Env) where
  -- The media of a period, in the order of a list.
  abbrev pub of_period : String → List Media → List Media
  of_period period ms = select (λ m. timeline_date E m == period) ms

  -- A group that holds the media of its period among those seen, and will get no more.
  pub record IsClosed (done rest : List Media) (g : MediaGroup) : Type 0 where
    pub whole : g.media ≡ of_period g.period done
    pub labelled : g.label ≡ format_month_label g.period
    pub over : any (λ m. timeline_date E m == g.period) rest ≡ false

  select-append :
      (test : Media → Bool) (xs ys : List Media)
      → select test (xs ++ ys) ≡ select test xs ++ select test ys
  select-append test [] ys = refl
  select-append test (x ∷ xs) ys =
      let ih = select-append test xs ys in
      elim (Bool-cases (test x)) [ inl e ↦ rw (ih, e) refl | inr e ↦ rw (ih, e) refl ]

  pub of_period-same :
      (period : String) (done : List Media) (m : Media)
      → timeline_date E m ≡ period
      → of_period period (done ++ m ∷ []) ≡ of_period period done ++ m ∷ []
  of_period-same period done m h =
      select-append (λ m. timeline_date E m == period) done (m ∷ []) ∙ rw (h, eq_refl period) refl

  pub of_period-other :
      (period : String) (done : List Media) (m : Media)
      → (timeline_date E m == period) ≡ false
      → of_period period (done ++ m ∷ []) ≡ of_period period done
  of_period-other period done m h =
      select-append (λ m. timeline_date E m == period) done (m ∷ [])
      ∙ rw h (append-nil (of_period period done))

  pub or_false : (a b : Bool) → (a || b) ≡ false → (a ≡ false) × (b ≡ false)
  or_false a b h = ground arith

  -- A closed group after one more media.
  pub IsClosed-step :
      (done rest : List Media) (m : Media) (g : MediaGroup)
      → IsClosed done (m ∷ rest) g
      → IsClosed (done ++ m ∷ []) rest g
  IsClosed-step done rest m g h =
      let (other, over) = or_false (timeline_date E m == g.period) _ h.over in
      record {
        whole = h.whole ∙ sym (of_period-other g.period done m other);
        labelled = h.labelled;
        over = over;
      }

  -- The year on whose media the sort and the groups disagree.
  abbrev pub is_odd : Media → Bool
  is_odd m = eqb (E.year m.taken_at) 1900

  -- The server's zone is UTC.
  abbrev pub IsUtc : Type 0
  IsUtc = (t : Time) → E.local_month_key t ≡ E.month_key t

  pub date-sort_date :
      (m : Media) → IsUtc → is_odd m ≡ false → timeline_date E m ≡ E.month_key (sort_date E m)
  unfolding timeline_date sort_date has_taken_at
  date-sort_date m utc h = ground (arith, utc m.modified_at)

  abbrev pub all_media : List MediaGroup → List Media
  all_media [] = []
  all_media (g ∷ gs) = g.media ++ all_media gs

  pub all_media-add :
      (gs : List MediaGroup) (g : MediaGroup) → all_media (gs ++ g ∷ []) ≡ all_media gs ++ g.media
  all_media-add [] g = append-nil g.media
  all_media-add (x ∷ gs) g =
      ap (λ l. x.media ++ l) (all_media-add gs g)
      ∙ sym (append_assoc x.media (all_media gs) g.media)

  pub none_of :
      (p q : Media → Bool) (xs : List Media)
      → ((x : Media) → q x ≡ false → p x ≡ false)
      → any q xs ≡ false
      → any p xs ≡ false
  none_of p q [] f h = refl
  none_of p q (x ∷ xs) f h = ground (arith, f x, none_of p q xs f)

  pub select_none : (p : Media → Bool) (xs : List Media) → any p xs ≡ false → select p xs ≡ []
  select_none p [] h = refl
  select_none p (x ∷ xs) h = ground (arith, select_none p xs)

  -- Between two media of the loop: `x` is the last one that was seen.
  pub record InLoop (x : Media) (done rest : List Media) (st : Grouping) : Type 0 where
    pub groups : AllGroups (IsClosed done rest) st.groups
    pub group : MediaGroup
    pub current : st.current_group ≡ some group
    pub named : group.period ≡ st.current_period
    pub whole : group.media ≡ of_period st.current_period done
    pub labelled : group.label ≡ format_month_label group.period
    pub filled : ltb 0 (length group.media) ≡ true
    pub covers : all_media st.groups ++ group.media ≡ done
    pub last : timeline_date E x ≡ st.current_period
    pub low : any (λ y. ltb (sort_date E y) (sort_date E x) || is_odd y) done ≡ false
    pub falling : IsDescending (sort_date E) (x ∷ rest)
    pub plain : any is_odd (x ∷ rest) ≡ false

  -- The months of UTC are intervals, and all dates are shown in UTC.
  abbrev pub IsConvex : Type 0
  IsConvex =
      ((t u v : Time)
        → t ≤ u
        → u ≤ v
        → E.month_key t ≡ E.month_key v
        → E.month_key u ≡ E.month_key t)
      × IsUtc
