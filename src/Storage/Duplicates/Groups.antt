-- ===== src/Storage/Duplicates/Groups.antt =====
-- What stands in the groups of FindDuplicates.
use photo_core.Base.{
  ℕ, String, Bool, true, false, not, ◌&&◌, List, [], ◌∷◌, ◌++◌, ◌≡◌, refl, ◌==◌, eq_iff, eq_refl,
  ltb, leb, if◌then◌else◌, arith, length, contains, contains-append, IsDistinct, select, ◌∙◌,
}
use photo_core.Storage.Models.{Media, DuplicateGroup}
use photo_core.Storage.Db.{Env, Store}
use photo_core.Storage.Library.{list_all_media}
use photo_core.Storage.Duplicates.{
  hamming_distance, with_checksum, exact_groups, has_image_hash, is_exact, near_images, ids_of,
  similar_groups, find_duplicates,
}

unfoldable pub all {ℓ} : {A : Type ℓ} → (A → Bool) → List A → Bool
all p [] = true
all p (x ∷ xs) = p x && all p xs

unfoldable pub is_within : ℕ → ℕ → Media → Bool
is_within threshold hash m = leb (hamming_distance hash m.image_hash) threshold

-- A group holds at least two media. Those of an exact group have one checksum, those of another
-- are near to the first one.
unfoldable pub is_proper : ℕ → String → List Media → Bool
is_proper threshold type [] = false
is_proper threshold type (m ∷ ms) =
    ltb 0 (length ms)
    && (if type == "exact"
        then all (λ x. x.checksum == m.checksum) ms
        else all (is_within threshold m.image_hash) ms)

unfoldable pub all_proper : ℕ → List DuplicateGroup → Bool
all_proper threshold [] = true
all_proper threshold (g ∷ gs) = is_proper threshold g.type g.media && all_proper threshold gs

all_proper-append :
    (t : ℕ) (xs ys : List DuplicateGroup)
    → all_proper t (xs ++ ys) ≡ (all_proper t xs && all_proper t ys)
unfolding all_proper
all_proper-append t [] ys = refl
all_proper-append t (x ∷ xs) ys = ground (arith, all_proper-append t xs ys)

near_images-near :
    (t hash : ℕ) (processed : List String) (ms : List Media)
    → all (is_within t hash) (near_images t hash processed ms) ≡ true
unfolding all is_within near_images
near_images-near t hash processed [] = refl
near_images-near t hash processed (m ∷ ms) =
    ground
      (arith, near_images-near t hash processed ms, near_images-near t hash (m.id ∷ processed) ms)

all_proper-similar_groups :
    (t : ℕ) (processed : List String) (ms : List Media)
    → all_proper t (similar_groups t processed ms) ≡ true
unfolding all_proper is_proper similar_groups
all_proper-similar_groups t processed [] = refl
all_proper-similar_groups t processed (m ∷ ms) =
    let near = near_images t m.image_hash (m.id ∷ processed) ms in
    ground (
      arith,
      all_proper-similar_groups t processed ms,
      all_proper-similar_groups t (ids_of near ++ m.id ∷ processed) ms,
      near_images-near t m.image_hash (m.id ∷ processed) ms,
    )

all-with_checksum :
    (c : String) (ms : List Media) → all (λ x. x.checksum == c) (with_checksum c ms) ≡ true
unfolding all with_checksum
all-with_checksum c [] = refl
all-with_checksum c (m ∷ ms) = ground (arith, all-with_checksum c ms)

one_checksum :
    (c d : String) (ms : List Media)
    → (d == c) ≡ true
    → all (λ x. x.checksum == c) ms ≡ true
    → all (λ x. x.checksum == d) ms ≡ true
unfolding all
one_checksum c d [] e h = refl
one_checksum c d (m ∷ ms) e h =
    ground (arith, eq_iff d c, eq_iff m.checksum c, eq_iff m.checksum d, one_checksum c d ms e)

is_proper-exact :
    (t : ℕ) (c : String) (ms : List Media)
    → ltb 1 (length ms) ≡ true
    → all (λ x. x.checksum == c) ms ≡ true
    → is_proper t "exact" ms ≡ true
unfolding is_proper all
is_proper-exact t c [] h e = absurd (ground arith)
is_proper-exact t c (m ∷ ms) h e = ground (arith, one_checksum c m.checksum ms)

all_proper-exact_groups :
    (t : ℕ) (order : List String) (ms : List Media) → all_proper t (exact_groups order ms) ≡ true
unfolding all_proper exact_groups
all_proper-exact_groups t [] ms = refl
all_proper-exact_groups t (c ∷ order) ms = ground (
  arith,
  all_proper-exact_groups t order ms,
  all-with_checksum c ms,
  is_proper-exact t c (with_checksum c ms),
)

-- Every group of FindDuplicates holds at least two media; those of an exact group have the same
-- checksum, those of a similar group are within the threshold of its first media.
pub all_proper-find_duplicates :
    (E : Env) (order : List String) (threshold : ℕ) (s : Store E)
    → all_proper threshold (find_duplicates E order threshold s) ≡ true
unfolding find_duplicates
all_proper-find_duplicates E order threshold s =
    let ms = list_all_media E s in
    let exact = exact_groups order ms in
    let images = select (λ m. has_image_hash m && not (is_exact exact m)) ms in
    ground (
      arith,
      all_proper-append threshold exact (similar_groups threshold [] images),
      all_proper-exact_groups threshold order ms,
      all_proper-similar_groups threshold [] images,
    )

-- The ids that stand in the groups, one group behind the other.
unfoldable pub ids_in : List DuplicateGroup → List String
ids_in [] = []
ids_in (g ∷ gs) = ids_of g.media ++ ids_in gs

append-IsDistinct :
    (xs ys : List String)
    → IsDistinct xs
    → IsDistinct ys
    → ((j : String) → contains xs j ≡ true → contains ys j ≡ false)
    → IsDistinct (xs ++ ys)
unfolding contains
append-IsDistinct [] ys dx dy h = dy
append-IsDistinct (x ∷ xs) ys dx dy h = (
  contains-append xs ys x ∙ ground (arith, dx.0, h x, eq_refl x),
  append-IsDistinct xs ys dx.1 dy (λ j e. h j (ground arith)),
)

-- A processed media is not taken again.
near_images-fresh :
    (t hash : ℕ) (processed : List String) (ms : List Media) (j : String)
    → contains processed j ≡ true
    → contains (ids_of (near_images t hash processed ms)) j ≡ false
unfolding near_images ids_of contains
near_images-fresh t hash processed [] j h = refl
near_images-fresh t hash processed (m ∷ ms) j h = ground (
  arith,
  eq_iff m.id j,
  near_images-fresh t hash processed ms j,
  near_images-fresh t hash (m.id ∷ processed) ms j,
)

near_images-IsDistinct :
    (t hash : ℕ) (processed : List String) (ms : List Media)
    → IsDistinct (ids_of (near_images t hash processed ms))
unfolding near_images ids_of contains
near_images-IsDistinct t hash processed [] = tt
near_images-IsDistinct t hash processed (m ∷ ms) = ground (
  arith,
  eq_refl m.id,
  near_images-fresh t hash (m.id ∷ processed) ms m.id,
  near_images-IsDistinct t hash processed ms,
  near_images-IsDistinct t hash (m.id ∷ processed) ms,
)

similar_groups-fresh :
    (t : ℕ) (processed : List String) (ms : List Media) (j : String)
    → contains processed j ≡ true
    → contains (ids_in (similar_groups t processed ms)) j ≡ false
unfolding similar_groups ids_in contains
similar_groups-fresh t processed [] j h = refl
similar_groups-fresh t processed (m ∷ ms) j h =
    let near = near_images t m.image_hash (m.id ∷ processed) ms in
    let rest = similar_groups t (ids_of near ++ m.id ∷ processed) ms in
    ground (
      arith,
      eq_iff m.id j,
      contains-append (ids_of near) (m.id ∷ processed) j,
      contains-append (ids_of near) (ids_in rest) j,
      near_images-fresh t m.image_hash (m.id ∷ processed) ms j,
      similar_groups-fresh t processed ms j,
      similar_groups-fresh t (ids_of near ++ m.id ∷ processed) ms j,
    )

-- A media stands in one similar group at most, and there once.
pub similar_groups-IsDistinct :
    (threshold : ℕ) (processed : List String) (ms : List Media)
    → IsDistinct (ids_in (similar_groups threshold processed ms))
unfolding similar_groups ids_in ids_of contains
similar_groups-IsDistinct t processed [] = tt
similar_groups-IsDistinct t processed (m ∷ ms) =
    let near = near_images t m.image_hash (m.id ∷ processed) ms in
    let rest = similar_groups t (ids_of near ++ m.id ∷ processed) ms in
    ground (
      arith,
      eq_refl m.id,
      near_images-fresh t m.image_hash (m.id ∷ processed) ms m.id,
      similar_groups-fresh t (ids_of near ++ m.id ∷ processed) ms m.id,
      contains-append (ids_of near) (m.id ∷ processed) m.id,
      contains-append (ids_of near) (ids_in rest) m.id,
      similar_groups-IsDistinct t processed ms,
      similar_groups-IsDistinct t (ids_of near ++ m.id ∷ processed) ms,
      append-IsDistinct (ids_of near) (ids_in rest)
          (near_images-IsDistinct t m.image_hash (m.id ∷ processed) ms)
          (similar_groups-IsDistinct t (ids_of near ++ m.id ∷ processed) ms)
          (λ j h.
            similar_groups-fresh t (ids_of near ++ m.id ∷ processed) ms j
              (contains-append (ids_of near) (m.id ∷ processed) j ∙ rw h)),
    )
