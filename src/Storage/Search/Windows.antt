-- ===== src/Storage/Search/Windows.antt =====
-- The window that Search returns.
use photo_core.Base.{
  ℕ, zero, suc, ◌+◌, ◌-◌, ◌≤◌, ◌<◌, min, List, [], ◌∷◌, ◌++◌, ◌≡◌, refl, sym, ap, ◌∙◌, ltb,
  if◌then◌else◌, arith, length, take, drop, true, length-take, length-drop, take-append-drop,
  Bool-cases, ltb→lt, inl, inr, ◌↔◌,
}
use photo_core.Storage.Models.{Media}
use photo_core.Storage.Search.{window}

module _ {ℓ} {A : Type ℓ} where
  drop_all : (n : ℕ) (xs : List A) → length xs ≤ n → drop n xs ≡ []
  drop_all zero [] h = refl
  drop_all zero (x ∷ xs) h = absurd (omega arith)
  drop_all (suc n) [] h = refl
  drop_all (suc n) (x ∷ xs) h = drop_all n xs (omega arith)

  drop_congr : {n m : ℕ} (xs : List A) → n ≡ m → drop n xs ≡ drop m xs
  drop_congr xs e = ap (λ k. drop k xs) e

  drop-drop : (n m : ℕ) (xs : List A) → drop n (drop m xs) ≡ drop (m + n) xs
  drop-drop n zero xs = let e : n ≡ 0 + n = omega arith in drop_congr xs e
  drop-drop n (suc m) [] = drop_all n [] (omega arith) ∙ sym (drop_all (suc m + n) [] (omega arith))
  drop-drop n (suc m) (x ∷ xs) =
      let e : suc (m + n) ≡ suc m + n = omega arith in drop-drop n m xs ∙ drop_congr (x ∷ xs) e

  -- To clip an index to the length changes nothing.
  drop-clip :
      (n : ℕ) (xs : List A) → drop (if ltb (length xs) n then length xs else n) xs ≡ drop n xs
  drop-clip n xs = elim (Bool-cases (ltb (length xs) n)) [
    | inl e ↦
        rw e (
          drop_all (length xs) xs (omega arith) ∙ sym (drop_all n xs (omega (arith, ltb→lt _ _ e))))
    | inr e ↦ rw e
  ]

module _ (limit offset : ℕ) (filtered : List Media) where
  -- The window of Search holds as many media as the limit says, or what is left behind the offset;
  -- the total is that of all matches, and more is announced exactly if a match stands behind the
  -- window.
  pub window_lem :
      (length (window limit offset filtered).media ≡ min limit (length filtered - offset))
      × ((window limit offset filtered).total_count ≡ length filtered)
      × (((window limit offset filtered).has_more ≡ true) ↔ (offset + limit < length filtered))
  unfolding window
  window_lem = (
    length-take _ _
        ∙ ground (
          arith,
          length-drop (if ltb (length filtered) offset then length filtered else offset) filtered,
        ),
    refl,
    (λ h. ground arith, λ h. ground arith),
  )

  -- Windows one behind the other lose and repeat nothing: what stands behind the offset is the
  -- window followed by what stands behind the next window's offset.
  pub drop-window :
      drop offset filtered ≡ (window limit offset filtered).media ++ drop (offset + limit) filtered
  unfolding window
  drop-window =
      let start = if ltb (length filtered) offset then length filtered else offset in
      let end = if ltb (length filtered) (start + limit) then length filtered else start + limit in
      sym (drop-clip offset filtered)
      ∙ sym (take-append-drop (end - start) (drop start filtered))
      ∙ ap (λ r. take (end - start) (drop start filtered) ++ r)
          (drop-drop (end - start) start filtered ∙ rest)
    where
      rest :
          drop
            ((if ltb (length filtered) offset then length filtered else offset)
              + ((if ltb
                      (length filtered)
                      ((if ltb (length filtered) offset then length filtered else offset) + limit)
                    then length filtered
                    else (if ltb (length filtered) offset then length filtered else offset) + limit)
                  - (if ltb (length filtered) offset then length filtered else offset)))
            filtered
          ≡ drop (offset + limit) filtered
      rest = elim (Bool-cases (ltb (length filtered) (offset + limit))) [
        | inl e ↦
            drop_all _ filtered (ground arith)
            ∙ sym (drop_all (offset + limit) filtered (omega (arith, ltb→lt _ _ e)))
        | inr e ↦ drop_congr filtered (ground arith)
      ]
