-- ===== src/Base/Maps.antt =====
-- Go's maps with text keys, as association lists that hold a key once. Go iterates over a map in
-- an unspecified order; code that ranges over one takes the order as an argument.
use Prim.Native.Nat.{◌+◌, ◌≤◌}
use Prim.Native.String.{String}
use mathlib.Core.Path.{◌≡◌, refl}
use mathlib.Core.Option.{Option, none, some}
use mathlib.Core.List.{List, [], ◌∷◌}
use native.Mathlib.Omega.{arith}
use text.Mathlib.Text.{◌==◌}
use text.Mathlib.TextEquality.{eq_iff}
use photo_core.Base.Tests.{if◌then◌else◌}
use photo_core.Base.Lists.{length}

module _ {ℓ} {V : Type ℓ} where
  abbrev pub lookup : String → List (String × V) → Option V
  lookup key [] = none
  lookup key (entry ∷ rest) = if entry.0 == key then some entry.1 else lookup key rest

  -- delete(m, k)
  abbrev pub remove : String → List (String × V) → List (String × V)
  remove k [] = []
  remove k ((j, v) ∷ m) = let rest = remove k m in if j == k then rest else (j, v) ∷ rest

  -- m[k] = v
  abbrev pub insert : String → V → List (String × V) → List (String × V)
  insert k v m = (k, v) ∷ remove k m

  -- Each key stands once.
  abbrev pub HasKeysOnce : List (String × V) → Type ℓ
  HasKeysOnce [] = Unit
  HasKeysOnce ((k, v) ∷ m) = (lookup k m ≡ none) × HasKeysOnce m

  pub lookup-remove :
      (k j : String) (m : List (String × V))
      → lookup j (remove k m) ≡ (if k == j then none else lookup j m)
  lookup-remove k j [] = ground arith
  lookup-remove k j ((i, w) ∷ m) =
      ground (arith, eq_iff k j, eq_iff i k, eq_iff i j, lookup-remove k j m)

  pub lookup-insert :
      (key j : String) (value : V) (m : List (String × V))
      → lookup j (insert key value m) ≡ (if key == j then some value else lookup j m)
  lookup-insert k j v m = ground (arith, lookup-remove k j m)

  pub remove-HasKeysOnce :
      (k : String) (m : List (String × V)) → HasKeysOnce m → HasKeysOnce (remove k m)
  remove-HasKeysOnce k [] h = h
  remove-HasKeysOnce k ((j, v) ∷ m) h =
      ground (arith, lookup-remove k j m, remove-HasKeysOnce k m h.1)

  pub insert-HasKeysOnce :
      (k : String) (v : V) (m : List (String × V)) → HasKeysOnce m → HasKeysOnce (insert k v m)
  insert-HasKeysOnce k v m h =
      (rw (lookup-remove k k m) (ground (arith, eq_iff k k)), remove-HasKeysOnce k m h)

  pub remove_absent : (k : String) (m : List (String × V)) → lookup k m ≡ none → remove k m ≡ m
  remove_absent k [] h = refl
  remove_absent k ((j, v) ∷ m) h = ground (arith, remove_absent k m)

  pub length-remove-le : (k : String) (m : List (String × V)) → length (remove k m) ≤ length m
  length-remove-le k [] = omega arith
  length-remove-le k ((j, v) ∷ m) = ground (arith, length-remove-le k m)

  -- Deleting a key that is there makes the map smaller by one.
  pub length-remove :
      (k : String) (v : V) (m : List (String × V))
      → HasKeysOnce m
      → lookup k m ≡ some v
      → length (remove k m) + 1 ≡ length m
  length-remove k v [] h e = cc
  length-remove k v ((j, w) ∷ m) h e =
      ground (arith, eq_iff j k, remove_absent k m, length-remove k v m h.1)

  -- An order in which Go may range over a map: the same entries, each key once.
  abbrev pub IsRange : List (String × V) → List (String × V) → Type ℓ
  IsRange order m = HasKeysOnce order × ((k : String) → lookup k order ≡ lookup k m)
