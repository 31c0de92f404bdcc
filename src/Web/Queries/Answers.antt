-- ===== src/Web/Queries/Answers.antt =====
-- What a search answers: the page that it shows, and when it panics.
use photo_core.Base.{
  ℕ, ℤ, pos, negsuc, int_bound, suc, ◌+◌, ◌-◌, ◌<◌, min, Bool, true, false, List, ◌++◌, Option,
  none, some, ◌≡◌, ◌↔◌, refl, ap, arith, length, drop, select, ltb, if◌then◌else◌, Bool-cases, inl,
  inr,
}
use photo_core.Storage.Models.{Media, SearchResult}
use photo_core.Storage.Db.{Env, Store}
use photo_core.Storage.Library.{list_all_media}
use photo_core.Storage.Search.{window, limit_of, slice_window, matches_query, search_media}
use photo_core.Storage.Search.Windows.{window_lem, drop-window}
use photo_core.Web.Queries.{
  SearchForm, Readers, Found, json, partial, panic, search_query, found_page, handle_search,
}

-- The result is the part of the media from `offset` on that `limit` allows: what stands behind it
-- is what stands behind the next offset.
unfoldable pub IsPage : List Media → ℕ → ℕ → SearchResult → Type 0
IsPage ms limit offset r =
    (drop offset ms ≡ r.media ++ drop (offset + limit) ms)
    × (length r.media ≡ min limit (length ms - offset))
    × (r.total_count ≡ length ms)
    × ((r.has_more ≡ true) ↔ (offset + limit < length ms))

unfoldable pub Shows : List Media → ℕ → ℕ → Found → Type 0
unfolding IsPage
Shows ms limit offset (json r) = IsPage ms limit offset r
Shows ms limit offset (partial r text) = IsPage ms limit offset r
Shows ms limit offset panic = true ≡ false

unfoldable pub is_negative : ℤ → Bool
is_negative (pos n) = false
is_negative (negsuc n) = true

unfoldable pub magnitude : ℤ → ℕ
magnitude (pos n) = n
magnitude (negsuc n) = suc n

slice_window-pos :
    (limit offset : ℕ) (ms : List Media)
    → offset + limit < int_bound
    → slice_window limit (pos offset) ms ≡ some (window limit offset ms)
unfolding slice_window
slice_window-pos limit offset ms h =
    let fits : ltb ((if ltb (length ms) offset then length ms else offset) + limit) int_bound
        ≡ true =
      ground arith in
    ap (λ b. if b then some (window limit offset ms) else none) fits

window-IsPage :
    (limit offset : ℕ) (ms : List Media) → IsPage ms limit offset (window limit offset ms)
unfolding IsPage
window-IsPage limit offset ms =
    let facts = window_lem limit offset ms in
    (drop-window limit offset ms, facts.0, facts.1, facts.2)

found_page-Shows :
    (f : SearchForm) (ms : List Media) (limit offset : ℕ)
    → Shows ms limit offset (found_page f (some (window limit offset ms)))
unfolding found_page Shows
found_page-Shows f ms limit offset = elim (Bool-cases f.is_htmx) [
  | inl e ↦ rw e (window-IsPage limit offset ms)
  | inr e ↦ rw e (window-IsPage limit offset ms)
]

found_page-panic :
    (f : SearchForm) (r : Option SearchResult) → (found_page f r ≡ panic) ↔ (r ≡ none)
unfolding found_page
found_page-panic f none = (λ h. refl, λ h. refl)
found_page-panic f (some r) = elim (Bool-cases f.is_htmx) [
  | inl e ↦ rw e ((λ h. absurd cc), (λ h. absurd cc))
  | inr e ↦ rw e ((λ h. absurd cc), (λ h. absurd cc))
]

slice_window-none :
    (limit : ℕ) (offset : ℤ) (ms : List Media)
    → magnitude offset + limit < int_bound
    → (slice_window limit offset ms ≡ none) ↔ (is_negative offset ≡ true)
unfolding slice_window is_negative magnitude
slice_window-none limit (pos n) ms h =
    let fits = slice_window-pos limit n ms h in (λ e. absurd cc, λ e. absurd cc)
slice_window-none limit (negsuc n) ms h = (λ e. refl, λ e. refl)

slice_window-Shows :
    (f : SearchForm) (ms : List Media) (limit offset : ℕ) (n : ℤ)
    → n ≡ pos offset
    → offset + limit < int_bound
    → Shows ms limit offset (found_page f (slice_window limit n ms))
slice_window-Shows f ms limit offset n e h =
    rw e (rw (slice_window-pos limit offset ms h) (found_page-Shows f ms limit offset))

module _ (R : Readers) (E : Env) (f : SearchForm) (s : Store E) where
  -- The media that match the query of the request.
  unfoldable pub matching : List Media
  unfolding matches_query list_all_media search_query
  matching = select (λ m. matches_query R.has_text E m (search_query R f)) (list_all_media E s)

  pub handle_search-Shows :
      (offset : ℕ)
      → (search_query R f).offset ≡ pos offset
      → offset + limit_of (search_query R f).limit < int_bound
      → Shows matching (limit_of (search_query R f).limit) offset (handle_search R E f s)
  unfolding matching handle_search search_media
  handle_search-Shows offset e h =
      slice_window-Shows f matching (limit_of (search_query R f).limit) offset
        (search_query R f).offset e h

  pub handle_search-panic :
      magnitude (search_query R f).offset + limit_of (search_query R f).limit < int_bound
      → (handle_search R E f s ≡ panic) ↔ (is_negative (search_query R f).offset ≡ true)
  unfolding matching handle_search search_media
  handle_search-panic h =
      let page = found_page-panic f _ in
      let cut = slice_window-none _ _ _ h in (λ e. cut.0 (page.0 e), λ e. page.1 (cut.1 e))
