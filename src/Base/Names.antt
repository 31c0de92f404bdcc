-- ===== src/Base/Names.antt =====
-- Lists of texts: the ids of an index entry, the tags of a media, the roles of a route.
use Prim.Native.String.{String}
use mathlib.Core.Path.{◌≡◌, refl}
use mathlib.Core.Bool.{Bool, false, not, ◌&&◌, ◌||◌}
use mathlib.Core.List.{List, [], ◌∷◌, ◌++◌}
use native.Mathlib.Omega.{arith}
use text.Mathlib.Text.{◌==◌}
use text.Mathlib.TextEquality.{eq_iff}
use photo_core.Base.Tests.{if◌then◌else◌, ==_comm}

unfoldable pub contains : List String → String → Bool
contains [] a = false
contains (x ∷ xs) a = x == a || contains xs a

-- `for x in xs { if x != a { out = append(out, x) } }`
unfoldable pub without : String → List String → List String
without a [] = []
without a (x ∷ xs) = let rest = without a xs in if x == a then rest else x ∷ rest

-- `if !contains(xs, a) { xs = append(xs, a) }`
unfoldable pub keep_new : List String → String → List String
keep_new xs a = if contains xs a then xs else xs ++ a ∷ []

pub contains-append :
    (xs ys : List String) (a : String) → contains (xs ++ ys) a ≡ (contains xs a || contains ys a)
unfolding contains
contains-append [] ys a = refl
contains-append (x ∷ xs) ys a = ground (arith, contains-append xs ys a)

pub contains-without :
    (a : String) (xs : List String) (b : String)
    → contains (without a xs) b ≡ (contains xs b && not (a == b))
unfolding contains without
contains-without a [] b = refl
contains-without a (x ∷ xs) b =
    ground (arith, eq_iff x a, eq_iff x b, eq_iff a b, contains-without a xs b)

pub contains-keep_new :
    (xs : List String) (a b : String) → contains (keep_new xs a) b ≡ (contains xs b || a == b)
unfolding keep_new contains
contains-keep_new xs a b = ground (arith, contains-append xs (a ∷ []) b, eq_iff a b)

-- Taking out a text that is not there changes nothing.
pub without_absent : (a : String) (xs : List String) → contains xs a ≡ false → without a xs ≡ xs
unfolding contains without
without_absent a [] h = refl
without_absent a (x ∷ xs) h = ground (arith, without_absent a xs)

-- No text stands twice.
abbrev pub IsDistinct : List String → Type 0
IsDistinct [] = Unit {0}
IsDistinct (x ∷ xs) = (contains xs x ≡ false) × IsDistinct xs

append_new-IsDistinct :
    (xs : List String) (a : String)
    → IsDistinct xs
    → contains xs a ≡ false
    → IsDistinct (xs ++ a ∷ [])
unfolding contains
append_new-IsDistinct [] a d h = (refl, tt)
append_new-IsDistinct (x ∷ xs) a d h =
    ground (arith, append_new-IsDistinct xs a d.1, contains-append xs (a ∷ []) x, ==_comm a x)

pub keep_new-IsDistinct :
    (xs : List String) (a : String) → IsDistinct xs → IsDistinct (keep_new xs a)
unfolding keep_new
keep_new-IsDistinct xs a d = ground (arith, append_new-IsDistinct xs a d)
