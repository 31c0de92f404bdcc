-- ===== src/Web/Timeline/Rounds.antt =====
-- The loop of TimelineAllMedia of internal/web/handlers/handlers.go keeps what holds between two rounds.
use photo_core.Base.{
  ℕ, ◌≤◌, String, Bool, true, false, ◌||◌, List, [], ◌∷◌, ◌++◌, some, ◌≡◌, refl, sym, ap, ◌∙◌, ◌==◌,
  ltb, any, length, arith, eq_iff, eq_refl, append_assoc, Bool-cases, inl, inr, bool_absurd,
  length-append,
}
use photo_core.Storage.Models.{Media, Time}
use photo_core.Storage.Db.{Env}
use photo_core.Storage.Timeline.{timeline_date, format_month_label}
use photo_core.Web.Timeline.{Grouping, add_group, add_media, sort_date, group_step}
use photo_core.Web.Timeline.Groups.{
  of_period, of_period-same, of_period-other, or_false, IsClosed-step, is_odd, date-sort_date,
  all_media, all_media-add, none_of, select_none, IsConvex, IsUtc, AllGroups-add, AllGroups-map,
  IsClosed, InLoop,
}

module _ (E : Env) where
  not_after : (a b : ℕ) → ltb a b ≡ false → b ≤ a
  not_after a b h = ground arith

  -- A media between two of one period is of that period.
  between :
      (y x m : Media)
      → IsConvex E
      → is_odd E y ≡ false
      → is_odd E x ≡ false
      → is_odd E m ≡ false
      → sort_date E m ≤ sort_date E x
      → sort_date E x ≤ sort_date E y
      → timeline_date E y ≡ timeline_date E m
      → timeline_date E x ≡ timeline_date E m
  between y x m convex oy ox om lower upper same =
      date-sort_date E x convex.1 ox
      ∙ convex.0 (sort_date E m) (sort_date E x) (sort_date E y) lower upper
          (sym (date-sort_date E m convex.1 om) ∙ sym same ∙ date-sort_date E y convex.1 oy)
      ∙ sym (date-sort_date E m convex.1 om)

  same_period :
      (x m : Media) (period : String)
      → timeline_date E x ≡ timeline_date E m
      → timeline_date E x ≡ period
      → (timeline_date E m == period) ≡ true
  same_period x m period same last = rw (sym same ∙ last) (eq_refl period)

  -- No media that was seen before the current period has the date of one that is not of it.
  fresh_period :
      (x m : Media) (done rest : List Media) (st : Grouping)
      → IsConvex E
      → InLoop E x done (m ∷ rest) st
      → (timeline_date E m == st.current_period) ≡ false
      → any (λ y. timeline_date E y == timeline_date E m) done ≡ false
  fresh_period x m done rest st convex h other =
      none_of E _ (λ y. ltb (sort_date E y) (sort_date E x) || (is_odd E) y) done
        (λ y seen. elim (Bool-cases (timeline_date E y == timeline_date E m)) [
          | inr e ↦ e
          | inl e ↦
              let (not_lower, oy) =
                or_false E (ltb (sort_date E y) (sort_date E x)) (is_odd E y) seen in
              let (ox, plain) = or_false E (is_odd E x) (any (is_odd E) (m ∷ rest)) h.plain in
              let (om, plain') = or_false E (is_odd E m) (any (is_odd E) rest) plain in
              let (falls, later) = or_false E (ltb (sort_date E x) (sort_date E m)) _ h.falling.0 in
              bool_absurd
                (same_period x m st.current_period
                  (between y x m convex oy ox om (not_after (sort_date E x) (sort_date E m) falls)
                    (not_after (sort_date E y) (sort_date E x) not_lower)
                    ((eq_iff (timeline_date E y) (timeline_date E m)).0 e))
                  h.last)
                other
        ])
        h.low

  lower_still :
      (a b c : ℕ) (odd : Bool)
      → ltb b c ≡ false
      → (ltb a b || odd) ≡ false
      → (ltb a c || odd) ≡ false
  lower_still a b c odd h k = ground arith

  any_or :
      (p q : Media → Bool) (xs : List Media)
      → any p xs ≡ false
      → any q xs ≡ false
      → any (λ x. p x || q x) xs ≡ false
  any_or p q [] h k = refl
  any_or p q (x ∷ xs) h k = ground (arith, any_or p q xs)

  -- No media after one of another period has the current period.
  no_more :
      (x m : Media) (done rest : List Media) (st : Grouping)
      → IsConvex E
      → InLoop E x done (m ∷ rest) st
      → (timeline_date E m == st.current_period) ≡ false
      → any (λ z. timeline_date E z == st.current_period) rest ≡ false
  no_more x m done rest st convex h other =
      let (ox, plain) = or_false E (is_odd E x) (any (is_odd E) (m ∷ rest)) h.plain in
      let (om, plain') = or_false E (is_odd E m) (any (is_odd E) rest) plain in
      let (falls, later) = or_false E (ltb (sort_date E x) (sort_date E m)) _ h.falling.0 in
      none_of E _ (λ z. ltb (sort_date E m) (sort_date E z) || (is_odd E) z) rest
        (λ z seen. elim (Bool-cases (timeline_date E z == st.current_period)) [
          | inr e ↦ e
          | inl e ↦
              let (not_higher, oz) =
                or_false E (ltb (sort_date E m) (sort_date E z)) (is_odd E z) seen in
              let same = h.last ∙ sym ((eq_iff (timeline_date E z) st.current_period).0 e) in
              bool_absurd
                (same_period z m st.current_period
                  (sym (
                    between x m z convex ox om oz
                      (not_after (sort_date E m) (sort_date E z) not_higher)
                      (not_after (sort_date E x) (sort_date E m) falls) same))
                  ((eq_iff (timeline_date E z) st.current_period).0 e))
                other
        ])
        (any_or (λ z. ltb (sort_date E m) (sort_date E z)) (is_odd E) rest h.falling.1.0 plain')

  filled_append : (ms : List Media) (m : Media) → ltb 0 (length (ms ++ m ∷ [])) ≡ true
  filled_append ms m = ground (arith, length-append ms (m ∷ []))

  any-append : (p : Media → Bool) (xs ys : List Media) → any p (xs ++ ys) ≡ (any p xs || any p ys)
  any-append p [] ys = refl
  any-append p (x ∷ xs) ys = ground (arith, any-append p xs ys)

  low_step :
      (x m : Media) (done rest : List Media) (st : Grouping)
      → InLoop E x done (m ∷ rest) st
      → any (λ y. ltb (sort_date E y) (sort_date E m) || (is_odd E) y) (done ++ m ∷ []) ≡ false
  low_step x m done rest st h =
      let (ox, plain) = or_false E (is_odd E x) (any (is_odd E) (m ∷ rest)) h.plain in
      let (om, plain') = or_false E (is_odd E m) (any (is_odd E) rest) plain in
      let (falls, later) = or_false E (ltb (sort_date E x) (sort_date E m)) _ h.falling.0 in
      let before =
        none_of E (λ y. ltb (sort_date E y) (sort_date E m) || (is_odd E) y)
          (λ y. ltb (sort_date E y) (sort_date E x) || (is_odd E) y) done
          (λ y low.
            lower_still (sort_date E y) (sort_date E x) (sort_date E m) (is_odd E y) falls low)
          h.low in
      any-append (λ y. ltb (sort_date E y) (sort_date E m) || (is_odd E) y) done (m ∷ [])
      ∙ ground (arith, before, om)

  -- The current group is closed by a media of another period.
  closes :
      (x m : Media) (done rest : List Media) (st : Grouping)
      → IsConvex E
      → (h : InLoop E x done (m ∷ rest) st) → (timeline_date E m == st.current_period) ≡ false
      → IsClosed E (done ++ m ∷ []) rest h.group
  closes x m done rest st convex h other = record {
    whole =
        h.whole
        ∙ sym (of_period-other E st.current_period done m other)
        ∙ ap (λ k. of_period E k (done ++ m ∷ [])) (sym h.named);
    labelled = h.labelled;
    over =
        ap (λ k. any (λ z. timeline_date E z == k) rest) h.named
        ∙ no_more x m done rest st convex h other;
  }

  -- One round of the loop.
  pub InLoop-step :
      (x m : Media) (done rest : List Media) (st : Grouping)
      → IsConvex E
      → InLoop E x done (m ∷ rest) st
      → (st' : Grouping) × (group_step E m st ≡ some st') × InLoop E m (done ++ m ∷ []) rest st'
  unfolding group_step
  InLoop-step x m done rest st convex h =
      elim (Bool-cases (timeline_date E m == st.current_period)) [
        | inl e ↦ (
          record st { current_group = some (record h.group { media = h.group.media ++ m ∷ [] }) },
          rw e (ap (add_media m st) h.current),
          record {
            groups = AllGroups-map _ _ st.groups (IsClosed-step E done rest m) h.groups;
            group = record h.group { media = h.group.media ++ m ∷ [] };
            current = refl;
            named = h.named;
            whole =
                ap (λ l. l ++ m ∷ []) h.whole
                ∙ sym (
                    of_period-same E st.current_period done m
                      ((eq_iff (timeline_date E m) st.current_period).0 e));
            labelled = h.labelled;
            filled = filled_append h.group.media m;
            covers =
                sym (append_assoc (all_media E st.groups) h.group.media (m ∷ []))
                ∙ ap (λ l. l ++ m ∷ []) h.covers;
            last = (eq_iff (timeline_date E m) st.current_period).0 e;
            low = low_step x m done rest st h;
            falling = h.falling.1;
            plain = (or_false E (is_odd E x) (any (is_odd E) (m ∷ rest)) h.plain).1;
          },
        )
        | inr e ↦ (
          record {
            groups = st.groups ++ h.group ∷ [];
            current_period = timeline_date E m;
            current_group = some (record {
              period = timeline_date E m;
              label = format_month_label (timeline_date E m);
              media = m ∷ [];
            });
          },
          rw e (
              ap
                (λ c. some (record {
                  groups = add_group st.groups c;
                  current_period = timeline_date E m;
                  current_group = some (record {
                    period = timeline_date E m;
                    label = format_month_label (timeline_date E m);
                    media = m ∷ [];
                  });
                }))
                h.current),
          record {
            groups =
                AllGroups-add _ st.groups h.group
                  (AllGroups-map _ _ st.groups (IsClosed-step E done rest m) h.groups)
                  (closes x m done rest st convex h e);
            group = record {
              period = timeline_date E m;
              label = format_month_label (timeline_date E m);
              media = m ∷ [];
            };
            current = refl;
            named = refl;
            whole = sym (
                of_period-same E (timeline_date E m) done m refl
                ∙ ap (λ l. l ++ m ∷ [])
                    (select_none E _ done (fresh_period x m done rest st convex h e)));
            labelled = refl;
            filled = refl;
            covers = ap (λ l. l ++ m ∷ []) (all_media-add E st.groups h.group ∙ h.covers);
            last = refl;
            low = low_step x m done rest st h;
            falling = h.falling.1;
            plain = (or_false E (is_odd E x) (any (is_odd E) (m ∷ rest)) h.plain).1;
          },
        )
      ]

  pub date_nonempty :
      (m : Media)
      → IsUtc E
      → ((t : Time) → (E.month_key t == "") ≡ false)
      → (timeline_date E m == "") ≡ false
  unfolding timeline_date
  date_nonempty m utc dated =
      ground (arith, dated m.taken_at, dated m.modified_at, utc m.modified_at)
