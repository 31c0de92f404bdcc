-- ===== src/Base/Texts.antt =====
-- Concatenation of texts, under a name of its own beside that of lists.
use Prim.Native.String.{String, ◌++◌, compare}
use mathlib.Core.Path.{◌≡◌, ap}
use native.Mathlib.Omega.{arith}
use text.Mathlib.Text.{◌==◌, is_lt}
use mathlib.Core.Bool.{Bool}
use text.Mathlib.TextEquality.{eq_iff}
use text.Mathlib.TextLemmas.{append_cancel_left}

abbrev pub concat : String → String → String
concat s t = s ++ t

-- Texts with a common beginning differ where their rests do.
pub ==-concat : (prefix s t : String) → (concat prefix s == concat prefix t) ≡ (s == t)
==-concat prefix s t = ground (
  arith,
  eq_iff (prefix ++ s) (prefix ++ t),
  eq_iff s t,
  append_cancel_left prefix s t,
  λ (e : s ≡ t). ap (λ r. prefix ++ r) e,
)

-- Go's `<` of texts, by their bytes.
abbrev pub less : String → String → Bool
less s t = is_lt (compare s t)
