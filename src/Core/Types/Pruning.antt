-- ===== src/Core/Types/Pruning.antt =====
-- Which files the statistics test of types.rs may leave out.
use Prim.Native.Nat.{compare, Ordering, lt, eq, gt}
use Prim.Native.String.{String}
use slateduck.Prelude.{
  ℕ, ◌^◌, ◌≡◌, ◌≢◌, inl, inr, refl, ap, ◌∙◌, Bool, true, false, Option, none, some, [], ◌∷◌, arith,
  Option-cases, Bool-cases,
}
use slateduck.Prelude.Bytes.{bytes_eq, bytes_eq_iff}
use slateduck.Core.Result.{ok, ok_injective}
use slateduck.Core.Text.{
  Text, ℤ, pos, negsuc, parse_i128, parse_unsigned, to_ascii_lowercase, lower_char,
}
use slateduck.Core.Tags.{codes}
use slateduck.Core.Types.Parse.{is_any}
use slateduck.Core.Types.{
  DuckLakeType, integer, decimal, float, timestamp, date, time, interval, varchar, blob, boolean,
  uuid, json, variant, geometry, list, struct, map, unknown, keep,
}
use slateduck.Core.Types.Compare.{
  Floats, Compared, compare_as, compare_ints, compare_texts, compare_bools, compare_floats,
  type_aware_compare, check_bound, after_compare, or_else, prune_file, is_unknown, is_float,
  never_pruned, parse_decimal, parse_bool, parse_float,
}

-- Two keys that compare as equal compare alike with any third.
abbrev Congruent : {K : Type 0} → (K → K → Compared Ordering) → Type 0
Congruent {K} cmp = (a b c : K) → cmp a b ≡ ok eq → cmp a c ≡ cmp b c

pub compare_ints-eq : (a b : ℤ) → compare_ints a b ≡ eq → a ≡ b
unfolding compare_ints
compare_ints-eq (pos m) (pos n) h = ap pos (ground arith)
compare_ints-eq (pos m) (negsuc n) h = cc
compare_ints-eq (negsuc m) (pos n) h = cc
compare_ints-eq (negsuc m) (negsuc n) h = ap negsuc (ground arith)

compare_texts-eq : (a b : Text) → compare_texts a b ≡ eq → a ≡ b
unfolding compare_texts
compare_texts-eq a b h = ground (arith, bytes_eq_iff a b)

compare_bools-eq : (a b : Bool) → compare_bools a b ≡ eq → a ≡ b
unfolding compare_bools
compare_bools-eq true true h = refl
compare_bools-eq true false h = cc
compare_bools-eq false true h = cc
compare_bools-eq false false h = refl

compare-eq : (a b : ℕ) → compare a b ≡ eq → a ≡ b
compare-eq a b h = ground arith

-- An order that tells keys apart is congruent.
decided :
    {K : Type 0} (cmp : K → K → Ordering)
    → ((a b : K) → cmp a b ≡ eq → a ≡ b)
    → Congruent (λ (a b : K). ok (cmp a b))
decided cmp equal a b c h = rw (equal a b (ok_injective h)) refl

compare_as-eq :
    {K : Type 0} (read : Text → Option K) (cmp : K → K → Compared Ordering) (name : String)
    → Congruent cmp
    → (p v bound : Text) (o : Ordering) → compare_as read cmp name p v ≡ ok eq
    → compare_as read cmp name v bound ≡ ok o
    → compare_as read cmp name p bound ≡ ok o
unfolding compare_as
compare_as-eq read cmp name congruent p v bound o h k = elim (Option-cases (read p)) [
  | inl e ↦ cc (rw e at h)
  | inr (a, e) ↦ elim (Option-cases (read v)) [
    | inl d ↦ cc (rw (e, d) at h)
    | inr (b, d) ↦ elim (Option-cases (read bound)) [
      | inl f ↦ cc (rw (d, f) at k)
      | inr (c, f) ↦
          let h2 : cmp a b ≡ ok eq = rw (e, d) at h in
          let k2 : cmp b c ≡ ok o = rw (d, f) at k in rw (e, f, congruent a b c h2) k2
    ]
  ]
]

compare_texts_alike :
    (p v b : Text) (o : Ordering)
    → ◌≡◌ {A = Compared Ordering} (ok (compare_texts p v)) (ok eq)
    → ◌≡◌ {A = Compared Ordering} (ok (compare_texts v b)) (ok o)
    → ◌≡◌ {A = Compared Ordering} (ok (compare_texts p b)) (ok o)
compare_texts_alike p v b o h k = rw (compare_texts-eq p v (ok_injective h)) k

module _ {F : Type 0} (floats : Floats F) where
  -- A value's place against a bound of its file's statistics: none is recorded, or it is an empty
  -- text, or the comparison succeeds and does not find the value beyond the bound.
  abbrev pub Within : Ordering → Text → Option Text → DuckLakeType → Type 0
  Within beyond v none t = Unit {0}
  Within beyond v (some []) t = Unit {0}
  Within beyond v (some (c ∷ bound)) t =
      (o : Ordering) × (type_aware_compare floats v (c ∷ bound) t ≡ ok o) × (o ≢ beyond)

-- IEEE 754: floats that are equal compare alike with any third, and NaN is ordered with none.
pub record FloatLaws {F : Type 0} (floats : Floats F) : Type 0 where
  pub alike :
      (a b c : F)
      → floats.partial_cmp a b ≡ some eq
      → floats.partial_cmp a c ≡ floats.partial_cmp b c
  pub unordered : (a : F) → floats.partial_cmp floats.nan a ≡ none

module _ {F : Type 0} (floats : Floats F) (laws : FloatLaws floats) where
  compare_floats-Congruent : Congruent (compare_floats floats)
  unfolding compare_floats
  compare_floats-Congruent a b c h = elim (Option-cases (floats.partial_cmp a b)) [
    | inl e ↦ cc (rw e at h)
    | inr (o, e) ↦
        let same : o ≡ eq = ok_injective (rw e at h) in
        rw (laws.alike a b c (e ∙ ap some same)) refl
  ]

  -- A text that compares as equal to a value compares with any bound as the value does.
  type_aware_compare-eq :
      (t : DuckLakeType) (p v bound : Text) (o : Ordering)
      → type_aware_compare floats p v t ≡ ok eq
      → type_aware_compare floats v bound t ≡ ok o
      → type_aware_compare floats p bound t ≡ ok o
  unfolding type_aware_compare
  type_aware_compare-eq (integer true w) p v b o h k =
      compare_as-eq parse_i128 _ "signed integer" (decided compare_ints compare_ints-eq) p v b o h k
  type_aware_compare-eq (integer false w) p v b o h k =
      compare_as-eq (parse_unsigned (2 ^ 128)) _ "unsigned integer" (decided compare compare-eq) p v
        b o h k
  type_aware_compare-eq (decimal m n) p v b o h k =
      compare_as-eq parse_decimal _ "decimal" (decided compare_ints compare_ints-eq) p v b o h k
  type_aware_compare-eq (float w) p v b o h k =
      compare_as-eq (parse_float floats) _ "float" compare_floats-Congruent p v b o h k
  type_aware_compare-eq boolean p v b o h k =
      compare_as-eq parse_bool _ "boolean" (decided compare_bools compare_bools-eq) p v b o h k
  type_aware_compare-eq (timestamp z n) p v b o h k = compare_texts_alike p v b o h k
  type_aware_compare-eq date p v b o h k = compare_texts_alike p v b o h k
  type_aware_compare-eq (time z) p v b o h k = compare_texts_alike p v b o h k
  type_aware_compare-eq interval p v b o h k = compare_texts_alike p v b o h k
  type_aware_compare-eq varchar p v b o h k = compare_texts_alike p v b o h k
  type_aware_compare-eq blob p v b o h k = compare_texts_alike p v b o h k
  type_aware_compare-eq uuid p v b o h k = compare_texts_alike p v b o h k
  type_aware_compare-eq json p v b o h k = compare_texts_alike p v b o h k
  type_aware_compare-eq variant p v b o h k = k
  type_aware_compare-eq geometry p v b o h k = k
  type_aware_compare-eq (list t) p v b o h k = k
  type_aware_compare-eq (struct fs) p v b o h k = k
  type_aware_compare-eq (map s t) p v b o h k = k
  type_aware_compare-eq (unknown name) p v b o h k = cc

  after_compare-ok : (beyond o : Ordering) → o ≢ beyond → after_compare beyond (ok o) ≡ ok none
  unfolding after_compare
  after_compare-ok lt lt h = absurd (h refl)
  after_compare-ok lt eq h = refl
  after_compare-ok lt gt h = refl
  after_compare-ok eq lt h = refl
  after_compare-ok eq eq h = refl
  after_compare-ok eq gt h = refl
  after_compare-ok gt lt h = refl
  after_compare-ok gt eq h = refl
  after_compare-ok gt gt h = absurd (h refl)

  check_bound-none :
      (beyond : Ordering) (p v : Text) (bound : Option Text) (t : DuckLakeType)
      → type_aware_compare floats p v t ≡ ok eq
      → Within floats beyond v bound t
      → check_bound floats beyond p bound t ≡ ok none
  unfolding check_bound
  check_bound-none beyond p v none t h w = refl
  check_bound-none beyond p v (some []) t h w = refl
  check_bound-none beyond p v (some (c ∷ bound)) t h (o, k, n) =
      rw (type_aware_compare-eq t p v (c ∷ bound) o h k) (after_compare-ok beyond o n)

  parse_float_upper : parse_float floats (codes "NaN") ≡ some floats.nan
  unfolding parse_float to_ascii_lowercase lower_char bytes_eq is_any
  parse_float_upper = refl

  parse_float_lower : parse_float floats (codes "nan") ≡ some floats.nan
  unfolding parse_float to_ascii_lowercase lower_char bytes_eq is_any
  parse_float_lower = refl

  parse_float-nan :
      (p : Text) → is_any ("NaN" ∷ "nan" ∷ []) p ≡ true → parse_float floats p ≡ some floats.nan
  unfolding is_any
  parse_float-nan p h = elim (Bool-cases (bytes_eq (codes "NaN") p)) [
    | inl e ↦ rw (← ((bytes_eq_iff (codes "NaN") p).0 e)) parse_float_upper
    | inr e ↦ rw (← ((bytes_eq_iff (codes "nan") p).0 (ground arith))) parse_float_lower
  ]

  -- A predicate that is NaN compares as equal to no value.
  compare_nan :
      (w : ℕ) (p v : Text)
      → is_any ("NaN" ∷ "nan" ∷ []) p ≡ true
      → type_aware_compare floats p v (float w) ≢ ok eq
  unfolding type_aware_compare compare_as compare_floats
  compare_nan w p v nan h = elim (Option-cases (parse_float floats v)) [
    | inl e ↦ cc (rw (parse_float-nan p nan, e) at h)
    | inr (b, e) ↦ cc (rw (parse_float-nan p nan, e, laws.unordered b) at h)
  ]

  -- With floats of which equal ones compare alike and NaN is ordered with none, `prune_file` keeps
  -- a file for which some value compares as equal to the predicate in the column's type, and is
  -- neither below the recorded least value nor above the recorded greatest, where these are
  -- recorded and not empty; whatever it is told of NaN.
  pub prune_file-keep :
      (t : DuckLakeType) (p v : Text) (min_value max_value : Option Text) (contains_nan : Bool)
      → type_aware_compare floats p v t ≡ ok eq
      → Within floats lt v min_value t
      → Within floats gt v max_value t
      → prune_file floats p min_value max_value contains_nan t ≡ ok keep
  unfolding prune_file or_else is_unknown never_pruned is_float
  prune_file-keep (unknown name) p v min_value max_value contains_nan h low high =
      absurd (unfold type_aware_compare in cc)
  prune_file-keep variant p v min_value max_value contains_nan h low high = refl
  prune_file-keep geometry p v min_value max_value contains_nan h low high = refl
  prune_file-keep json p v min_value max_value contains_nan h low high = refl
  prune_file-keep (list t) p v min_value max_value contains_nan h low high = refl
  prune_file-keep (struct fs) p v min_value max_value contains_nan h low high = refl
  prune_file-keep (map s t) p v min_value max_value contains_nan h low high = refl
  prune_file-keep (float w) p v min_value max_value contains_nan h low high =
      elim (Bool-cases (is_any ("NaN" ∷ "nan" ∷ []) p)) [
        | inl e ↦ absurd (compare_nan w p v e h)
        | inr e ↦
            rw
              (
                e,
                check_bound-none lt p v min_value (float w) h low,
                check_bound-none gt p v max_value (float w) h high,
              )
              refl
      ]
  prune_file-keep t p v min_value max_value contains_nan h low high =
      rw (check_bound-none lt p v min_value t h low, check_bound-none gt p v max_value t h high)
        refl
