-- ===== src/Catalog/Excise/Thinned.antt =====
-- The scan loop of reader.rs over a list of pairs from which some were deleted.
use slateduck.Prelude.{
  ◌≡◌, ◌≢◌, ap, subst, sym, ◌∙◌, inl, inr, Bool, true, false, some, List, [], ◌∷◌, Bool-cases,
  some_injective,
}
use slateduck.Prelude.Bytes.{
  Bytes, bytes_eq, bytes_eq_iff, bytes_lt, bytes_lt_irrefl, bytes_lt_trans,
}
use slateduck.Core.Result.{ok, map_err, value, >>=-eq-ok}
use slateduck.Core.Values.{Message, decode_value}
use slateduck.Catalog.Kv.{Pair, lookup, IsSorted}
use slateduck.Catalog.Reader.{scan_rows, keep_row}
use slateduck.Catalog.Reader.Scan.{
  map_err-eq-ok, lookup_cases, lookup_first, lookup_later, later_key_differs, keep_row-eq-ok,
}
use slateduck.Catalog.Reader.Files.{later_key_above}

lookup_behind :
    (k v i x : Bytes) (l : List Pair)
    → bytes_eq k i ≡ false
    → lookup i ((k, v) ∷ l) ≡ some x
    → lookup i l ≡ some x
unfolding lookup
lookup_behind k v i x l d h = rw d at h

lookup_head : (k v x : Bytes) (l : List Pair) → lookup k ((k, v) ∷ l) ≡ some x → v ≡ x
lookup_head k v x l h = some_injective (sym (lookup_first k v l) ∙ h)

key_absent :
    (k v j w : Bytes) (full thin : List Pair)
    → IsSorted ((k, v) ∷ full)
    → IsSorted ((j, w) ∷ thin)
    → lookup j full ≡ some w
    → (x : Bytes) → lookup k ((j, w) ∷ thin) ≢ some x
key_absent k v j w full thin s t behind x g =
    let before : bytes_lt k j ≡ true = later_key_above k j w full s.0 behind in
    elim (lookup_cases j w k x thin g) [
      | inl (same, _) ↦ cc (before, same, bytes_lt_irrefl k)
      | inr later ↦
          let above = later_key_above j k x thin t.0 later in
          cc (bytes_lt_trans k j k before above, bytes_lt_irrefl k)
    ]

module _ {R : Type 0} (m : Message R) (test : R → Bool) where
  -- Every pair of the thinned list stands in the full one, where all that pass the test are kept.
  pub record Thins (full thin : List Pair) : Type 0 where
    pub stands : (k v : Bytes) → lookup k thin ≡ some v → lookup k full ≡ some v
    pub keeps :
        (k v : Bytes) (r : R)
        → lookup k full ≡ some v
        → decode_value m v ≡ ok r
        → test r ≡ true
        → lookup k thin ≡ some v

  -- The first pair of both lists is the same.
  Thins-both :
      (k v : Bytes) (full thin : List Pair)
      → IsSorted ((k, v) ∷ full)
      → IsSorted ((k, v) ∷ thin)
      → Thins ((k, v) ∷ full) ((k, v) ∷ thin)
      → Thins full thin
  Thins-both k v full thin s t h = record {
    stands = λ i x g.
        let d = later_key_differs k i x thin t.0 g in
        lookup_behind k v i x full d (h.stands i x (lookup_later k v i x thin d g));
    keeps = λ i x r g e p.
        let d = later_key_differs k i x full s.0 g in
        lookup_behind k v i x thin d (h.keeps i x r (lookup_later k v i x full d g) e p);
  }

  -- The first key of the full list is not in the thinned one.
  Thins-full :
      (k v : Bytes) (full thin : List Pair)
      → IsSorted ((k, v) ∷ full)
      → ((x : Bytes) → lookup k thin ≢ some x)
      → Thins ((k, v) ∷ full) thin
      → Thins full thin
  Thins-full k v full thin s absent h = record {
    stands = λ i x g. elim (Bool-cases (bytes_eq k i)) [
      | inl same ↦ absurd (absent x (rw ((bytes_eq_iff k i).0 same) g))
      | inr other ↦ lookup_behind k v i x full other (h.stands i x g)
    ];
    keeps = λ i x r g e p.
        h.keeps i x r (lookup_later k v i x full (later_key_differs k i x full s.0 g) g) e p;
  }

  -- A first pair that the thinned list lacks does not pass the test.
  scan_rows_behind :
      (k v : Bytes) (full thin : List Pair) (rows : List R)
      → ((x : Bytes) → lookup k thin ≢ some x)
      → Thins ((k, v) ∷ full) thin
      → scan_rows m test ((k, v) ∷ full) ≡ ok rows
      → scan_rows m test full ≡ ok rows
  unfolding scan_rows
  scan_rows_behind k v full thin rows absent h e =
      let (row, d, e1) = >>=-eq-ok (map_err value (decode_value m v)) _ e in
      let (later, e2, eq) = keep_row-eq-ok m test row (scan_rows m test full) rows e1 in
      elim (Bool-cases (test row)) [
        | inl pass ↦
            absurd (absent v (h.keeps k v row (lookup_first k v full) (map_err-eq-ok _ d) pass))
        | inr drop ↦ e2 ∙ ap ok (sym (rw drop at eq))
      ]

  -- The first pair stands in both lists.
  scan_rows_both :
      (k v : Bytes) (full thin : List Pair) (rows : List R)
      → ((later : List R) → scan_rows m test full ≡ ok later → scan_rows m test thin ≡ ok later)
      → scan_rows m test ((k, v) ∷ full) ≡ ok rows
      → scan_rows m test ((k, v) ∷ thin) ≡ ok rows
  unfolding scan_rows
  scan_rows_both k v full thin rows ih e =
      let (row, d, e1) = >>=-eq-ok (map_err value (decode_value m v)) _ e in
      let (later, e2, eq) = keep_row-eq-ok m test row (scan_rows m test full) rows e1 in
      rw (d, ih later e2, keep_row) (ap ok (sym eq))

  pub scan_rows_thinned :
      (full thin : List Pair) (rows : List R)
      → IsSorted full
      → IsSorted thin
      → Thins full thin
      → scan_rows m test full ≡ ok rows
      → scan_rows m test thin ≡ ok rows
  scan_rows_thinned [] [] rows s t h e = e
  scan_rows_thinned [] ((j, w) ∷ thin) rows s t h e =
      absurd (unfold lookup in cc (h.stands j w (lookup_first j w thin)))
  scan_rows_thinned ((k, v) ∷ full) [] rows s t h e =
      let absent : (x : Bytes) → lookup k [] ≢ some x = λ x g. unfold lookup in cc in
      scan_rows_thinned full [] rows s.1 t (Thins-full k v full [] s absent h)
        (scan_rows_behind k v full [] rows absent h e)
  scan_rows_thinned ((k, v) ∷ full) ((j, w) ∷ thin) rows s t h e =
      elim (lookup_cases k v j w full (h.stands j w (lookup_first j w thin))) [
        | inl (same_key, same) ↦
            subst
              (λ (p : Pair).
                IsSorted (p ∷ thin)
                → Thins ((k, v) ∷ full) (p ∷ thin)
                → scan_rows m test (p ∷ thin) ≡ ok rows)
              (pair same_key same)
              (λ t2 h2.
                scan_rows_both k v full thin rows
                  (λ later.
                    scan_rows_thinned full thin later s.1 t2.1 (Thins-both k v full thin s t2 h2))
                  e)
              t h
        | inr behind ↦
            let absent = key_absent k v j w full thin s t behind in
            scan_rows_thinned full ((j, w) ∷ thin) rows s.1 t
              (Thins-full k v full ((j, w) ∷ thin) s absent h)
              (scan_rows_behind k v full ((j, w) ∷ thin) rows absent h e)
      ]
    where
      pair : {k v j w : Bytes} → k ≡ j → v ≡ w → ◌≡◌ {A = Pair} (k, v) (j, w)
      pair p q = cc
