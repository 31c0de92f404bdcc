-- ===== src/Web/Pages/Live.antt =====
-- What the lists of media hold: the trash its media, and all others none of them.
use photo_core.Base.{
  ℕ, zero, suc, take, drop, ◌++◌, Bool, false, not, String, List, [], ◌∷◌, ◌≡◌, ◌↔◌, refl, ◌∙◌,
  arith, any, select, length, map, ok, inl, inr, Result-cases, loaded-cases,
}
use photo_core.Disk.Table.{rows}
use photo_core.Storage.Models.{Media, Time}
use photo_core.Storage.Db.{Env, Store}
use photo_core.Storage.Index.{get_index}
use photo_core.Storage.Library.{is_live, list_all_media, get_media_by_ids}
use photo_core.Storage.Albums.{get_album, get_album_media}
use photo_core.Storage.Favorites.{list_user_favorites, get_user_favorites}
use photo_core.Storage.Tags.{normalize, list_media_by_tag}
use photo_core.Storage.Timeline.{get_timeline_media}
use photo_core.Web.Timeline.{Sorter}
use photo_core.Web.Pages.Items.{Reading, trash_item}

-- No media of the list is in the trash.
abbrev pub AllLive : List Media → Type 0
AllLive ms = any (λ m. not (is_live m)) ms ≡ false

module _ {ℓ} {A : Type ℓ} where
  pub any-not-select : (p : A → Bool) (xs : List A) → any (λ x. not (p x)) (select p xs) ≡ false
  any-not-select p [] = refl
  any-not-select p (x ∷ xs) = ground (arith, any-not-select p xs)

  pub any-select-not : (p : A → Bool) (xs : List A) → any p (select (λ x. not (p x)) xs) ≡ false
  any-select-not p [] = refl
  any-select-not p (x ∷ xs) = ground (arith, any-select-not p xs)

  pub any-select_mono :
      (p q : A → Bool) (xs : List A) → any p xs ≡ false → any p (select q xs) ≡ false
  any-select_mono p q [] h = refl
  any-select_mono p q (x ∷ xs) h = ground (arith, any-select_mono p q xs)

  pub any-take : (p : A → Bool) (n : ℕ) (xs : List A) → any p xs ≡ false → any p (take n xs) ≡ false
  any-take p zero xs h = refl
  any-take p (suc n) [] h = refl
  any-take p (suc n) (x ∷ xs) h = ground (arith, any-take p n xs)

  pub any-drop : (p : A → Bool) (n : ℕ) (xs : List A) → any p xs ≡ false → any p (drop n xs) ≡ false
  any-drop p zero xs h = h
  any-drop p (suc n) [] h = refl
  any-drop p (suc n) (x ∷ xs) h = any-drop p n xs (ground arith)

  pub any-append :
      (p : A → Bool) (xs ys : List A)
      → any p xs ≡ false
      → any p ys ≡ false
      → any p (xs ++ ys) ≡ false
  any-append p [] ys h k = k
  any-append p (x ∷ xs) ys h k = ground (arith, any-append p xs ys)

  length-any : (p : A → Bool) (xs : List A) → (length (select p xs) ≡ 0) ↔ (any p xs ≡ false)
  length-any p [] = (λ e. refl, λ e. omega arith)
  length-any p (x ∷ xs) =
      let (there, back) = length-any p xs in (λ e. ground (arith, there), λ e. ground (arith, back))

pub any-sort :
    (S : Sorter) (key : Media → Time) (p : Media → Bool) (ms : List Media)
    → any p ms ≡ false
    → any p (S.sort key ms) ≡ false
any-sort S key p ms h = (length-any p (S.sort key ms)).0 (S.counts key p ms ∙ (length-any p ms).1 h)

module _ (E : Env) where
  pub get_media_by_ids-AllLive :
      (s : Store E) (ids : List String) → AllLive (get_media_by_ids E s ids)
  unfolding get_media_by_ids
  get_media_by_ids-AllLive s [] = refl
  get_media_by_ids-AllLive s (id ∷ ids) = ground (arith, get_media_by_ids-AllLive s ids)

  pub list_all_media-AllLive : (s : Store E) → AllLive (list_all_media E s)
  unfolding list_all_media
  list_all_media-AllLive s = any-not-select is_live (rows E.disk E.media_json s.media)

  pub get_timeline_media-AllLive :
      (s : Store E) (period : String) → AllLive (get_timeline_media E s period)
  unfolding get_timeline_media list_all_media
  get_timeline_media-AllLive s period =
      any-select_mono _ _ (list_all_media E s) (list_all_media-AllLive s)

  pub get_album_media-AllLive :
      (s : Store E) (id : String) (ms : List Media) → get_album_media E s id ≡ ok ms → AllLive ms
  unfolding get_album_media
  get_album_media-AllLive s id ms h = elim (loaded-cases (get_album E s id)) [
    | inl (inl e) ↦ ground arith
    | inl (inr (error, e)) ↦ absurd (ground arith)
    | inr (a, e) ↦ ground (arith, get_media_by_ids-AllLive s a.media_ids)
  ]

  pub list_media_by_tag-AllLive :
      (s : Store E) (tag : String) (ms : List Media)
      → list_media_by_tag E s tag ≡ ok ms
      → AllLive ms
  unfolding list_media_by_tag
  list_media_by_tag-AllLive s tag ms h =
      elim (Result-cases (get_index E.disk E.names_json s.idx_tag (normalize E tag))) [
        | inl (ids, e) ↦ ground (arith, get_media_by_ids-AllLive s ids)
        | inr (error, e) ↦ absurd (ground arith)
      ]

  pub list_user_favorites-AllLive :
      (s : Store E) (user : String) (ms : List Media)
      → list_user_favorites E s user ≡ ok ms
      → AllLive ms
  unfolding list_user_favorites
  list_user_favorites-AllLive s user ms h = elim (Result-cases (get_user_favorites E s user)) [
    | inl (ids, e) ↦ ground (arith, get_media_by_ids-AllLive s ids)
    | inr (error, e) ↦ absurd (ground arith)
  ]

pub any-map_trash :
    (R : Reading) (ms : List Media)
    → any is_live ms ≡ false
    → any (λ i. is_live i.media) (map (trash_item R) ms) ≡ false
unfolding trash_item
any-map_trash R [] h = refl
any-map_trash R (m ∷ ms) h = ground (arith, any-map_trash R ms)
