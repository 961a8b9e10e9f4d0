-- ===== src/Catalog/Reader/Scan.antt =====
-- The scan loops of reader.rs and the list of pairs that they run over.
use slateduck.Prelude.{
  ◌≡◌, refl, sym, ap, ◌∙◌, subst, ◌⊎◌, inl, inr, Bool, true, false, some, List, [], ◌∷◌,
  if◌then◌else◌, All, IsIn, Bool-cases, some_injective,
}
use slateduck.Prelude.Bytes.{
  Bytes, bytes_eq, bytes_eq_iff, bytes_eq_refl, bytes_lt, bytes_lt_irrefl,
}
use slateduck.Core.Result.{
  Result, ok, err, map_err, CatalogResult, value, ValueError, ok_injective, >>=-eq-ok,
}
use slateduck.Core.Values.{Message, decode_value}
use slateduck.Catalog.Kv.{Pair, lookup, IsSorted}
use slateduck.Catalog.Reader.{keep_row, scan_rows}

pub map_err-eq-ok :
    {A : Type 0} (r : Result ValueError A) {a : A} → map_err value r ≡ ok a → r ≡ ok a
map_err-eq-ok (ok x) h = ap ok (ok_injective h)
map_err-eq-ok (err e) h = cc

-- In a sorted list a key after the first differs from it.
pub later_key_differs :
    (j k v : Bytes) (l : List Pair)
    → All (λ e. bytes_lt j e.0 ≡ true) l
    → lookup k l ≡ some v
    → bytes_eq j k ≡ false
unfolding lookup
later_key_differs j k v [] h g = cc
later_key_differs j k v ((i, w) ∷ l) h g = elim (Bool-cases (bytes_eq i k)) [
  | inl same ↦ elim (Bool-cases (bytes_eq j k)) [
    | inr differs ↦ differs
    | inl equal ↦ cc (h.0, bytes_lt_irrefl j, (bytes_eq_iff j k).0 equal, (bytes_eq_iff i k).0 same)
  ]
  | inr other ↦ later_key_differs j k v l h.1 (rw other at g)
]

pub lookup_first : (j w : Bytes) (l : List Pair) → lookup j ((j, w) ∷ l) ≡ some w
unfolding lookup
lookup_first j w l = rw (bytes_eq_refl j)

pub lookup_later :
    (j w k v : Bytes) (l : List Pair)
    → bytes_eq j k ≡ false
    → lookup k l ≡ some v
    → lookup k ((j, w) ∷ l) ≡ some v
unfolding lookup
lookup_later j w k v l d g = rw d g

pub lookup_cases :
    (j w k v : Bytes) (l : List Pair)
    → lookup k ((j, w) ∷ l) ≡ some v
    → ((j ≡ k) × (w ≡ v)) ⊎ (lookup k l ≡ some v)
unfolding lookup
lookup_cases j w k v l g = elim (Bool-cases (bytes_eq j k)) [
  | inl same ↦ inl ((bytes_eq_iff j k).0 same, some_injective (rw same at g))
  | inr other ↦ inr (rw other at g)
]

module _ {R : Type 0} (m : Message R) (test : R → Bool) where
  -- The list has a value that decodes to the row, and the row passes.
  pub record Stored (l : List Pair) (r : R) : Type 0 where
    pub key : Bytes
    pub value : Bytes
    pub found : lookup key l ≡ some value
    pub decodes : decode_value m value ≡ ok r
    pub passes : test r ≡ true

  pub keep_row-eq-ok :
      (row : R) (c : CatalogResult (List R)) (rows : List R)
      → keep_row m test row c ≡ ok rows
      → (later : List R) × (c ≡ ok later) × (rows ≡ (if test row then row ∷ later else later))
  unfolding keep_row
  keep_row-eq-ok row (ok later) rows h = (later, refl, sym (ok_injective h))
  keep_row-eq-ok row (err e) rows h = cc

  pub IsIn-kept :
      (b : Bool) (row r : R) (later : List R)
      → IsIn r later
      → IsIn r (if b then row ∷ later else later)
  IsIn-kept true row r later h = inr h
  IsIn-kept false row r later h = h

  pub kept_cases :
      (row r : R) (later : List R)
      → IsIn r (if test row then row ∷ later else later)
      → ((row ≡ r) × (test row ≡ true)) ⊎ IsIn r later
  kept_cases row r later h = go (test row) refl h
    where
      go :
          (b : Bool)
          → test row ≡ b
          → IsIn r (if b then row ∷ later else later)
          → ((row ≡ r) × (test row ≡ true)) ⊎ IsIn r later
      go true pass (inl e) = inl (e, pass)
      go true pass (inr x) = inr x
      go false drop x = inr x

  -- Whatever is stored and passes is returned.
  pub scan_rows_complete :
      (l : List Pair) (rows : List R)
      → scan_rows m test l ≡ ok rows
      → (r : R) → Stored l r
      → IsIn r rows
  unfolding scan_rows
  scan_rows_complete [] rows h r s = unfold lookup in cc (s.found)
  scan_rows_complete ((j, w) ∷ l) rows h r s =
      let (row, d, h1) = >>=-eq-ok (map_err value (decode_value m w)) _ h in
      let (later, e, eq) = keep_row-eq-ok row (scan_rows m test l) rows h1 in
      rw eq (elim (lookup_cases j w s.key s.value l s.found) [
        | inl (same_key, same) ↦
            let same_row : row ≡ r = cc (map_err-eq-ok _ d, same, s.decodes) in
            rw (same_row, s.passes) (inl refl)
        | inr g ↦ IsIn-kept (test row) row r later (
            scan_rows_complete l later e r (record {
              key = s.key;
              value = s.value;
              found = g;
              decodes = s.decodes;
              passes = s.passes;
            }))
      ])

  -- Whatever is returned is stored and passes.
  pub scan_rows_sound :
      (l : List Pair) (rows : List R)
      → IsSorted l
      → scan_rows m test l ≡ ok rows
      → (r : R) → IsIn r rows
      → Stored l r
  unfolding scan_rows
  scan_rows_sound [] rows sorted h r i = absurd (rw (← ok_injective h) at i)
  scan_rows_sound ((j, w) ∷ l) rows sorted h r i =
      let (row, d, h1) = >>=-eq-ok (map_err value (decode_value m w)) _ h in
      let (later, e, eq) = keep_row-eq-ok row (scan_rows m test l) rows h1 in
      elim (kept_cases row r later (rw eq at i)) [
        | inl (same, pass) ↦ record {
          key = j;
          value = w;
          found = lookup_first j w l;
          decodes = map_err-eq-ok _ d ∙ ap ok same;
          passes = subst (λ x. test x ≡ true) same pass;
        }
        | inr x ↦
            let s = scan_rows_sound l later sorted.1 e r x in
            record {
              key = s.key;
              value = s.value;
              found =
                  lookup_later j w s.key s.value l
                    (later_key_differs j s.key s.value l sorted.0 s.found) s.found;
              decodes = s.decodes;
              passes = s.passes;
            }
      ]
