-- ===== src/Core/Types/Compare.antt =====
-- crates/rocklake-core/src/types.rs: comparing two statistics as values of a column type, and the
-- test by which a file is left out. The standard library's `f64` is a parameter.
use Prim.Native.Nat.{compare, Ordering, lt, eq, gt}
use Prim.Native.String.{String}
use slateduck.Prelude.{
  ℕ, zero, suc, ◌^◌, Bool, true, false, ◌&&◌, Option, none, some, [], ◌∷◌, ◌++◌, ◌==◌,
  if◌then◌else◌,
}
use slateduck.Prelude.Bytes.{bytes_eq, bytes_lt}
use slateduck.Core.Tags.{codes}
use slateduck.Core.Path.{trim_start}
use slateduck.Core.Result.{Result, ok, err, ok_or, ◌>>=◌}
use slateduck.Core.Text.{
  Text, trim, to_ascii_lowercase, find, ℤ, pos, negsuc, negative, parse_i128, parse_unsigned,
}
use slateduck.Core.Types.{
  DuckLakeType, integer, decimal, float, timestamp, date, time, interval, varchar, blob, boolean,
  uuid, json, variant, geometry, list, struct, map, unknown, TypeCompareError, unsupported_type,
  parse_error, nan_comparison, PruneResult, prune, keep,
}
use slateduck.Core.Types.Parse.{is_any}

-- What the code uses of `f64`: `parse`, `partial_cmp` and the named constants.
pub record Floats (F : Type 0) : Type 0 where
  pub parse_f64 : Text → Option F
  pub partial_cmp : F → F → Option Ordering
  pub infinity : F
  pub neg_infinity : F
  pub nan : F

abbrev pub Compared : Type 0 → Type 0
Compared = Result TypeCompareError

-- `Ord` of `i128`, of `str` and of `bool`.
unfoldable pub compare_ints : ℤ → ℤ → Ordering
compare_ints (pos m) (pos n) = compare m n
compare_ints (pos m) (negsuc n) = gt
compare_ints (negsuc m) (pos n) = lt
compare_ints (negsuc m) (negsuc n) = compare n m

unfoldable pub compare_texts : Text → Text → Ordering
unfolding bytes_lt bytes_eq
compare_texts a b = if bytes_lt a b then lt else if bytes_eq a b then eq else gt

unfoldable pub compare_bools : Bool → Bool → Ordering
compare_bools true true = eq
compare_bools true false = gt
compare_bools false true = lt
compare_bools false false = eq

-- The text padded with zeros behind, and cut, to a number of characters. Rust's cut is by bytes,
-- and panics inside a character; such a text is one that the number's parser refuses.
unfoldable pub padded : ℕ → Text → Text
padded zero s = []
padded (suc n) [] = b'0' ∷ padded n []
padded (suc n) (c ∷ s) = c ∷ padded n s

-- Negation on `i128`, which wraps at the least number.
unfoldable pub negated : ℤ → ℤ
unfolding negative
negated (pos n) = negative n
negated (negsuc n) = if suc n == 2 ^ 127 then negsuc n else pos (suc n)

starts_negative : Text → Bool
starts_negative [] = false
starts_negative (c ∷ s) = c == b'-'

-- The integer part and the decimal part.
halves : Text → Text × Text
halves s = elim (find b'.' s) [ none ↦ (s, []) | some p ↦ p ]

unfoldable pub parse_decimal : Text → Option ℤ
unfolding padded negated starts_negative halves
parse_decimal s =
    let t = trim s in
    let parts = halves (trim_start b'+' (trim_start b'-' t)) in
    elim (parse_i128 (parts.0 ++ padded 18 parts.1)) [
      | none ↦ none
      | some val ↦ some (if starts_negative t then negated val else val)
    ]

-- `to_lowercase` differs from the ASCII one on no text that is one of these words after it.
unfoldable pub parse_bool : Text → Option Bool
parse_bool s =
    let lower = to_ascii_lowercase s in
    if is_any ("true" ∷ "t" ∷ "1" ∷ "yes" ∷ []) lower
    then some true
    else if is_any ("false" ∷ "f" ∷ "0" ∷ "no" ∷ []) lower
    then some false
    else none

-- A comparison of two texts by what they are read as.
unfoldable pub compare_as :
    {K : Type 0}
    → (Text → Option K)
    → (K → K → Compared Ordering)
    → String
    → Text
    → Text
    → Compared Ordering
compare_as read cmp type_name left right =
    ok_or (read left) (parse_error left (codes type_name)) >>= λ l.
    ok_or (read right) (parse_error right (codes type_name)) >>= λ r. cmp l r

-- `Json` is compared, but its files are kept.
unfoldable pub never_pruned : DuckLakeType → Bool
never_pruned variant = true
never_pruned geometry = true
never_pruned json = true
never_pruned (list t) = true
never_pruned (struct fs) = true
never_pruned (map k v) = true
never_pruned _ = false

unfoldable pub is_unknown : DuckLakeType → Bool
is_unknown (unknown name) = true
is_unknown _ = false

unfoldable pub is_float : DuckLakeType → Bool
is_float (float width_bits) = true
is_float _ = false

-- What one bound decides: an end of the test, or `none` to go on.
unfoldable pub after_compare : Ordering → Compared Ordering → Compared (Option PruneResult)
after_compare beyond (err nan_comparison) = ok (some keep)
after_compare beyond (err e) = err e
after_compare lt (ok lt) = ok (some prune)
after_compare gt (ok gt) = ok (some prune)
after_compare beyond (ok cmp) = ok none

unfoldable pub or_else : Option PruneResult → Compared PruneResult → Compared PruneResult
or_else (some r) next = ok r
or_else none next = next

module _ {F : Type 0} (floats : Floats F) where
  unfoldable pub parse_float : Text → Option F
  parse_float s =
      let lower = to_ascii_lowercase s in
      if is_any ("inf" ∷ "infinity" ∷ "+inf" ∷ "+infinity" ∷ []) lower
      then some floats.infinity
      else if is_any ("-inf" ∷ "-infinity" ∷ []) lower
      then some floats.neg_infinity
      else if is_any ("nan" ∷ []) lower
      then some floats.nan
      else floats.parse_f64 s

  unfoldable pub compare_floats : F → F → Compared Ordering
  compare_floats a b = ok_or (floats.partial_cmp a b) nan_comparison

  unfoldable pub type_aware_compare : Text → Text → DuckLakeType → Compared Ordering
  unfolding parse_decimal parse_bool parse_float compare_floats compare_as compare_ints
      compare_texts compare_bools
  type_aware_compare left right (integer true width_bits) =
      compare_as parse_i128 (λ l r. ok (compare_ints l r)) "signed integer" left right
  type_aware_compare left right (integer false width_bits) =
      compare_as (parse_unsigned (2 ^ 128)) (λ l r. ok (compare l r)) "unsigned integer" left right
  type_aware_compare left right (decimal precision scale) =
      compare_as parse_decimal (λ l r. ok (compare_ints l r)) "decimal" left right
  type_aware_compare left right (float width_bits) =
      compare_as parse_float compare_floats "float" left right
  type_aware_compare left right (timestamp with_timezone precision) = ok (compare_texts left right)
  type_aware_compare left right date = ok (compare_texts left right)
  type_aware_compare left right (time with_timezone) = ok (compare_texts left right)
  type_aware_compare left right varchar = ok (compare_texts left right)
  type_aware_compare left right uuid = ok (compare_texts left right)
  type_aware_compare left right json = ok (compare_texts left right)
  type_aware_compare left right variant = ok eq
  type_aware_compare left right geometry = ok eq
  type_aware_compare left right (list t) = ok eq
  type_aware_compare left right (struct fs) = ok eq
  type_aware_compare left right (map k v) = ok eq
  type_aware_compare left right boolean =
      compare_as parse_bool (λ l r. ok (compare_bools l r)) "boolean" left right
  type_aware_compare left right blob = ok (compare_texts left right)
  type_aware_compare left right interval = ok (compare_texts left right)
  type_aware_compare left right (unknown name) = err (unsupported_type (unknown name))

  unfoldable pub check_bound :
      Ordering → Text → Option Text → DuckLakeType → Compared (Option PruneResult)
  unfolding after_compare type_aware_compare
  check_bound beyond predicate_value none t = ok none
  check_bound beyond predicate_value (some []) t = ok none
  check_bound beyond predicate_value (some (c ∷ bound)) t =
      after_compare beyond (type_aware_compare predicate_value (c ∷ bound) t)

  unfoldable pub prune_file :
      Text → Option Text → Option Text → Bool → DuckLakeType → Compared PruneResult
  unfolding check_bound or_else is_any
  prune_file predicate_value min_value max_value contains_nan t =
      if is_unknown t
      then err (unsupported_type t)
      else if never_pruned t
      then ok keep
      else if is_float t && is_any ("NaN" ∷ "nan" ∷ []) predicate_value
      then ok (if contains_nan then keep else prune)
      else (check_bound lt predicate_value min_value t >>= λ low.
          or_else low
            (check_bound gt predicate_value max_value t >>= λ high. or_else high (ok keep)))
