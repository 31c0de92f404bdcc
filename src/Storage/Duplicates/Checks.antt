-- ===== src/Storage/Duplicates/Checks.antt =====
-- What CheckDuplicate answers, against the listing of the media.
use photo_core.Base.{
  ℕ, String, Bool, true, false, not, ◌&&◌, ◌||◌, List, [], ◌∷◌, some, none, ◌≡◌, refl, ◌==◌,
  eq_refl, eqb, leb, arith, Bool-cases, inl, inr, ◌⊎◌, any, any-select,
}
use photo_core.Storage.Models.{Media}
use photo_core.Storage.Db.{Env, Store}
use photo_core.Storage.Library.{list_all_media}
use photo_core.Storage.Duplicates.{
  hamming_distance, first_with_checksum, first_near, find_media_by_size_range, check_similar,
  check_duplicate,
}

-- The tests that the two loops make of a media.
abbrev pub is_near : ℕ → ℕ → Media → Bool
is_near threshold hash m =
    not (eqb m.image_hash 0) && leb (hamming_distance hash m.image_hash) threshold

abbrev has_id : String → List Media → Bool
has_id id = any (λ m. m.id == id)

-- The first media that passes a test, or none if none passes.
first_with_checksum-cases :
    (c : String) (l : List Media)
    → ((first_with_checksum c l ≡ none) × (any (λ m. m.checksum == c) l ≡ false))
      ⊎ ((m : Media) × (first_with_checksum c l ≡ some m)
          × (any (λ x. x.id == m.id && x.checksum == c) l ≡ true)
          × (any (λ m. m.checksum == c) l ≡ true))
unfolding first_with_checksum
first_with_checksum-cases c [] = inl (refl, refl)
first_with_checksum-cases c (m ∷ l) = elim (Bool-cases (m.checksum == c)) [
  | inl e ↦ inr (m, ground arith, ground (arith, eq_refl m.id), ground arith)
  | inr e ↦ elim (first_with_checksum-cases c l) [
    | inl (a, b) ↦ inl (ground arith, ground arith)
    | inr (m', a, b, d) ↦ inr (m', ground arith, ground arith, ground arith)
  ]
]

first_near-cases :
    (t h : ℕ) (l : List Media)
    → ((first_near t h l ≡ none) × (any (is_near t h) l ≡ false))
      ⊎ ((m : Media) × (first_near t h l ≡ some m)
          × (is_near t h m ≡ true)
          × (has_id m.id l ≡ true)
          × (any (is_near t h) l ≡ true))
unfolding first_near
first_near-cases t h [] = inl (refl, refl)
first_near-cases t h (m ∷ l) = elim (Bool-cases (is_near t h m)) [
  | inl e ↦ inr (m, rw e, e, ground (arith, eq_refl m.id), rw e)
  | inr e ↦ elim (first_near-cases t h l) [
    | inl (a, b) ↦ inl (rw e a, rw e b)
    | inr (m', a, b, d, f) ↦ inr (m', rw e a, b, ground arith, rw e f)
  ]
]

module _ (min_size max_size : ℕ → ℕ) (E : Env) where
  abbrev pub in_range : ℕ → Media → Bool
  in_range size m = leb (min_size size) m.size && leb m.size (max_size size)

  check_similar-is_duplicate :
      (s : Store E) (hash : ℕ) (is_image : Bool) (threshold : ℕ)
      → (check_similar min_size max_size E s hash is_image threshold).is_duplicate
        ≡ (is_image && not (eqb hash 0) && any (is_near threshold hash) (list_all_media E s))
  unfolding check_similar
  check_similar-is_duplicate s hash is_image threshold =
      elim (first_near-cases threshold hash (list_all_media E s)) [
        | inl (a, b) ↦ rw b (ground arith)
        | inr (m, a, b, d, f) ↦ rw f (ground arith)
      ]

  any_sized :
      (p : Media → Bool) (s : Store E) (size : ℕ)
      → any p (find_media_by_size_range min_size max_size E s size)
        ≡ any (λ m. in_range size m && p m) (list_all_media E s)
  unfolding find_media_by_size_range
  any_sized p s size = any-select p (in_range size) (list_all_media E s)

  -- CheckDuplicate reports a duplicate exactly if a live media has the checksum (which is not
  -- empty) and a size in the range, or the new file is an image with a hash and the hash of some
  -- live media is set and within the threshold.
  pub is_duplicate-check_duplicate :
      (s : Store E) (size : ℕ) (checksum : String) (hash : ℕ) (is_image : Bool) (threshold : ℕ)
      → (check_duplicate min_size max_size E s size checksum hash is_image threshold).is_duplicate
        ≡ ((not (checksum == "")
              && any (λ m. in_range size m && m.checksum == checksum) (list_all_media E s))
            || (is_image && not (eqb hash 0) && any (is_near threshold hash) (list_all_media E s)))
  unfolding check_duplicate
  is_duplicate-check_duplicate s size checksum hash is_image threshold =
      let similar = check_similar-is_duplicate s hash is_image threshold in
      rw (← any_sized (λ m. m.checksum == checksum) s size)
        (elim (first_with_checksum-cases checksum
          (find_media_by_size_range min_size max_size E s size)) [
            | inl (a, b) ↦ rw (b, ← similar) (ground arith)
            | inr (m, a, b, d) ↦ rw (d, ← similar) (ground arith)
          ])
