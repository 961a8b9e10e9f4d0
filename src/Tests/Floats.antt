-- ===== src/Tests/Floats.antt =====
-- Floats that are whole numbers, infinities far out, or NaN.
use Prim.Native.Nat.{Ordering, eq}
use slateduck.Prelude.{◌≡◌, refl, ◌^◌, Option, none, some, some_injective}
use slateduck.Core.Text.{ℤ, pos, negsuc, parse_i128, Text}
use slateduck.Core.Types.Compare.{Floats, compare_ints}
use slateduck.Core.Types.Pruning.{FloatLaws, compare_ints-eq}

abbrev ordered : Option ℤ → Option ℤ → Option Ordering
ordered (some a) (some b) = some (compare_ints a b)
ordered _ _ = none

abbrev whole : Text → Option (Option ℤ)
whole s = elim (parse_i128 s) [ none ↦ none | some n ↦ some (some n) ]

abbrev pub floats : Floats (Option ℤ)
floats = record {
  parse_f64 = whole;
  partial_cmp = ordered;
  infinity = some (pos (2 ^ 1100));
  neg_infinity = some (negsuc (2 ^ 1100));
  nan = none;
}

pub ordered-eq : (a b c : Option ℤ) → ordered a b ≡ some eq → ordered a c ≡ ordered b c
ordered-eq (some a) (some b) c h = rw (compare_ints-eq a b (some_injective h)) refl
ordered-eq (some a) none c h = cc
ordered-eq none (some b) c h = cc
ordered-eq none none c h = refl

abbrev pub float_laws : FloatLaws floats
float_laws = record { alike = ordered-eq; unordered = λ a. refl }
