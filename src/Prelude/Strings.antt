-- ===== src/Prelude/Strings.antt =====
-- Python's `str` as a list of code points, with the tests and slices that the program uses.
use Prim.Native.Nat.{ℕ}
use Prim.Native.Char.{code}
use Prim.Native.String.{String}
use mathlib.Core.Path.{◌≡◌, refl}
use mathlib.Core.Logic.{◌↔◌}
use mathlib.Core.Bool.{Bool, true, false, ◌&&◌}
use mathlib.Core.List.{List, [], ◌∷◌, ◌++◌}
use mathlib.Core.Option.{Option, none, some}
use native.Mathlib.Omega.{arith}
use mcp_persist.Prelude.Tests.{◌==◌, if◌then◌else◌}

abbrev pub Text : Type 0
Text = List ℕ

-- The code points of a literal.
abbrev pub codes : String → Text
codes String.[] = []
codes (String.◌∷◌ c s) = code c ∷ codes s

-- s == t
abbrev pub text_eq : Text → Text → Bool
text_eq [] [] = true
text_eq [] (d ∷ t) = false
text_eq (c ∷ s) [] = false
text_eq (c ∷ s) (d ∷ t) = (c == d) && text_eq s t

-- s.startswith(prefix): what stands behind the prefix, if it is there
abbrev pub after_prefix : Text → Text → Option Text
after_prefix [] s = some s
after_prefix (c ∷ p) [] = none
after_prefix (c ∷ p) (d ∷ s) = if c == d then after_prefix p s else none

pub text_eq_iff : (s t : Text) → (text_eq s t ≡ true) ↔ (s ≡ t)
text_eq_iff [] [] = ground arith
text_eq_iff [] (d ∷ t) = ground arith
text_eq_iff (c ∷ s) [] = ground arith
text_eq_iff (c ∷ s) (d ∷ t) = ground (arith, text_eq_iff s t)

pub text_eq_refl : (s : Text) → text_eq s s ≡ true
text_eq_refl s = (text_eq_iff s s).1 refl

-- A prefix is found exactly in the texts that it begins, and leaves the rest.
pub after_prefix_append : (p s : Text) → after_prefix p (p ++ s) ≡ some s
after_prefix_append [] s = refl
after_prefix_append (c ∷ p) s = ground (arith, after_prefix_append p s)

pub after_prefix-eq-some : (p s t : Text) → after_prefix p s ≡ some t → s ≡ p ++ t
after_prefix-eq-some [] s t h = ground arith
after_prefix-eq-some (c ∷ p) [] t h = ground arith
after_prefix-eq-some (c ∷ p) (d ∷ s) t h = ground (arith, after_prefix-eq-some p s t)
