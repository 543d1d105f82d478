-- ===== src/Base/Text.antt =====
-- Equality and order of texts, behind laws.
use Prim.Native.String.{String, ◌++◌}
use Prim.Native.String
use mathlib.Core.Path.{◌≡◌}
use mathlib.Core.Logic.{◌↔◌}
use mathlib.Core.Bool.{Bool, true}
use text.Mathlib.Text.{◌==◌, is_lt}
use text.Mathlib.TextEquality.{eq_iff}
use native.Mathlib.Omega.{arith}

unfoldable pub same_text : String → String → Bool
same_text s t = s == t

unfoldable pub text_lt : String → String → Bool
text_lt s t = is_lt (String.compare s t)

pub same_text_iff : (s t : String) → (same_text s t ≡ true) ↔ (s ≡ t)
unfolding same_text
same_text_iff s t = eq_iff s t

pub same_text→eq : (s t : String) → same_text s t ≡ true → s ≡ t
same_text→eq s t = (same_text_iff s t).0

pub eq→same_text : (s t : String) → s ≡ t → same_text s t ≡ true
eq→same_text s t = (same_text_iff s t).1

pub same_text_refl : (s : String) → same_text s s ≡ true
same_text_refl s = ground (arith, same_text_iff s s)

abbrev pub append : String → String → String
append s t = s ++ t
