-- ===== src/Storage/Duplicates.antt =====
-- Duplicates of internal/storage/bbolt.go: FindDuplicates, CheckDuplicate, ChecksumExists, the
-- size filter, and the Hamming distance, which internal/scanner/hashing.go has once more.
pub mod Hamming
pub mod Checks
pub mod Groups
use Prim.Native.Nat.{bit_and, bit_xor}
use photo_core.Base.{
  ℕ, zero, suc, ◌+◌, ◌-◌, ◌%◌, ◌^◌, drop, String, Bool, true, false, not, ◌&&◌, ◌||◌, List, [], ◌∷◌,
  ◌++◌, Option, some, none, ◌==◌, eqb, leb, ltb, if◌then◌else◌, select, length, contains,
}
use photo_core.Storage.Models.{Media, DuplicateGroup, media_type_image, media_type_raw}
use photo_core.Storage.Db.{Env, Store}
use photo_core.Storage.Library.{list_all_media}

-- `for xor != 0 { distance++; xor &= xor - 1 }`, on fuel: each round clears a bit.
unfoldable pub count_bits : ℕ → ℕ → ℕ → ℕ
count_bits zero x distance = distance
count_bits (suc fuel) x distance =
    let rest = count_bits fuel (bit_and x (x - 1)) (distance + 1) in
    if eqb x 0 then distance else rest

-- Two words of 64 bits differ in 64 places at most.
unfoldable pub hamming_distance : ℕ → ℕ → ℕ
unfolding count_bits
hamming_distance hash1 hash2 = count_bits 65 (bit_xor hash1 hash2) 0

-- The media with a checksum, in the order of the listing, and their groups by checksum: the
-- entries of `checksumGroups`, whose order of iteration the code leaves open.
unfoldable pub with_checksum : String → List Media → List Media
with_checksum checksum = select (λ m. not (m.checksum == "") && m.checksum == checksum)

unfoldable pub exact_groups : List String → List Media → List DuplicateGroup
unfolding with_checksum
exact_groups [] ms = []
exact_groups (checksum ∷ order) ms =
    let group = with_checksum checksum ms in
    let rest = exact_groups order ms in
    if ltb 1 (length group)
    then record { type = "exact"; media = group; distance = 0 } ∷ rest
    else rest

-- `m.ImageHash != 0 && (m.Type == MediaTypeImage || m.Type == MediaTypeRaw)`
unfoldable pub has_image_hash : Media → Bool
has_image_hash m =
    not (eqb m.image_hash 0) && (m.type == media_type_image || m.type == media_type_raw)

-- The media stands in a group of exact duplicates.
unfoldable pub is_exact : List DuplicateGroup → Media → Bool
is_exact [] m = false
is_exact (g ∷ groups) m =
    (g.type == "exact" && not (eqb (length (select (λ em. em.id == m.id) g.media)) 0))
    || is_exact groups m

-- The inner loop: the later images that are near to `m1` and not yet in a group.
unfoldable pub near_images : ℕ → ℕ → List String → List Media → List Media
near_images threshold hash processed [] = []
near_images threshold hash processed (m2 ∷ ms) =
    let near = m2 ∷ near_images threshold hash (m2.id ∷ processed) ms in
    let far = near_images threshold hash processed ms in
    if not (contains processed m2.id) && leb (hamming_distance hash m2.image_hash) threshold
    then near
    else far

unfoldable pub ids_of : List Media → List String
ids_of [] = []
ids_of (m ∷ ms) = m.id ∷ ids_of ms

-- The outer loop over the images that are not exact duplicates.
unfoldable pub similar_groups : ℕ → List String → List Media → List DuplicateGroup
unfolding near_images ids_of
similar_groups threshold processed [] = []
similar_groups threshold processed (m1 ∷ ms) =
    let near = near_images threshold m1.image_hash (m1.id ∷ processed) ms in
    let rest = similar_groups threshold (ids_of near ++ m1.id ∷ processed) ms in
    let skip = similar_groups threshold processed ms in
    if contains processed m1.id
    then skip
    else if ltb 0 (length near)
    then record { type = "similar"; media = m1 ∷ near; distance = threshold } ∷ rest
    else rest

-- `order` is the order in which Go ranges over the non-empty checksums.
unfoldable pub find_duplicates : (E : Env) → List String → ℕ → Store E → List DuplicateGroup
unfolding exact_groups is_exact has_image_hash similar_groups
find_duplicates E order threshold s =
    let ms = list_all_media E s in
    let exact = exact_groups order ms in
    exact
    ++ similar_groups threshold [] (select (λ m. has_image_hash m && not (is_exact exact m)) ms)

pub record DuplicateCheckResult : Type 0 where
  pub is_duplicate : Bool
  pub type : String
  pub existing_id : String
  pub distance : ℕ

abbrev pub no_duplicate : DuplicateCheckResult
no_duplicate = record { is_duplicate = false; type = ""; existing_id = ""; distance = 0 }

unfoldable pub first_with_checksum : String → List Media → Option Media
first_with_checksum checksum [] = none
first_with_checksum checksum (m ∷ ms) =
    if m.checksum == checksum then some m else first_with_checksum checksum ms

unfoldable pub first_near : ℕ → ℕ → List Media → Option Media
first_near threshold hash [] = none
first_near threshold hash (m ∷ ms) =
    if not (eqb m.image_hash 0) && leb (hamming_distance hash m.image_hash) threshold
    then some m
    else first_near threshold hash ms

-- FindMediaBySizeRange; the bounds are Go's `int64(float64(size) * 0.9)` and `* 1.1`.
module _ (min_size max_size : ℕ → ℕ) (E : Env) where
  unfoldable pub find_media_by_size_range : Store E → ℕ → List Media
  find_media_by_size_range s size =
      select (λ m. leb (min_size size) m.size && leb m.size (max_size size)) (list_all_media E s)

  -- The second step of CheckDuplicate, over all images.
  unfoldable pub check_similar : Store E → ℕ → Bool → ℕ → DuplicateCheckResult
  unfolding first_near
  check_similar s image_hash is_image threshold =
      if is_image && not (eqb image_hash 0)
      then elim (first_near threshold image_hash (list_all_media E s)) [
        | none ↦ no_duplicate
        | some m ↦ record {
          is_duplicate = true;
          type = "similar";
          existing_id = m.id;
          distance = hamming_distance image_hash m.image_hash;
        }
      ]
      else no_duplicate

  unfoldable pub check_duplicate : Store E → ℕ → String → ℕ → Bool → ℕ → DuplicateCheckResult
  unfolding check_similar first_with_checksum find_media_by_size_range
  check_duplicate s size checksum image_hash is_image threshold =
      if checksum == ""
      then check_similar s image_hash is_image threshold
      else elim (first_with_checksum checksum (find_media_by_size_range s size)) [
        | none ↦ check_similar s image_hash is_image threshold
        | some m ↦ record { is_duplicate = true; type = "exact"; existing_id = m.id; distance = 0 }
      ]

-- ChecksumExists: the id of the first live media with the checksum, or the empty text.
unfoldable pub checksum_exists : (E : Env) → Store E → String → String
unfolding first_with_checksum
checksum_exists E s checksum =
    if checksum == ""
    then ""
    else elim (first_with_checksum checksum (list_all_media E s)) [ none ↦ "" | some m ↦ m.id ]

-- The sizes of the copies that could go, in int64.
unfoldable pub saved_by : ℕ → List Media → ℕ
saved_by total [] = total
saved_by total (m ∷ ms) = saved_by ((total + m.size) % 2 ^ 64) ms

unfoldable pub duplicates_stats_from : ℕ → ℕ → ℕ → List DuplicateGroup → ℕ × ℕ × ℕ
duplicates_stats_from exact similar saved [] = (exact, similar, saved)
duplicates_stats_from exact similar saved (g ∷ groups) =
    let later = drop 1 g.media in
    if g.type == "exact"
    then duplicates_stats_from (exact + (length g.media - 1)) similar (saved_by saved later) groups
    else duplicates_stats_from exact (similar + (length g.media - 1)) saved groups

unfoldable pub get_duplicates_stats : (E : Env) → List String → Store E → ℕ × ℕ × ℕ
unfolding duplicates_stats_from saved_by
get_duplicates_stats E order s = duplicates_stats_from 0 0 0 (find_duplicates E order 10 s)
