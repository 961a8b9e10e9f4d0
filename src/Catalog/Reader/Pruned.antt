-- ===== src/Catalog/Reader/Pruned.antt =====
-- What `prune_files` of reader.rs keeps.
use Prim.Native.Nat.{lt, eq, gt}
use slateduck.Prelude.{
  ℕ, ◌≡◌, refl, sym, ap, ◌∙◌, inl, inr, Bool, true, none, some, List, [], ◌∷◌, ◌==◌, IsIn,
  Bool-cases, ==_iff,
}
use slateduck.Prelude.Bytes.{Bytes}
use slateduck.Core.Result.{ok, map_err, CatalogResult, value, type_compare, >>=-eq-ok, ok_injective}
use slateduck.Core.Values.{decode_value}
use slateduck.Core.Rows.{Codecs, FileColumnStatsRow, DataFileRow}
use slateduck.Core.Text.{Text}
use slateduck.Core.Types.{DuckLakeType, PruneResult, prune, keep}
use slateduck.Core.Types.Compare.{Floats, type_aware_compare, prune_file}
use slateduck.Core.Types.Pruning.{FloatLaws, Within, prune_file-keep}
use slateduck.Catalog.Kv.{Kv, Pair, lookup, scan_finds}
use slateduck.Catalog.Reader.{list_data_files}
use slateduck.Catalog.Reader.Scan.{map_err-eq-ok, lookup_cases}
use slateduck.Catalog.Reader.Listing.{Under}
use slateduck.Catalog.Reader.Statistics.{
  prefix_column_stats, text_of, add_kept, partial_max_of, retain, kept_loop, survives,
  without_partial, prune_files,
}

IsIn-retain :
    (test : ℕ → Bool) (ids : List ℕ) (id : ℕ)
    → IsIn id ids
    → test id ≡ true
    → IsIn id (retain test ids)
unfolding retain
IsIn-retain test [] id h t = h
IsIn-retain test (i ∷ ids) id h t = elim (Bool-cases (test i)) [
  | inl pass ↦
      rw pass (elim h [ inl same ↦ inl same | inr later ↦ inr (IsIn-retain test ids id later t) ])
  | inr drop ↦
      rw drop (elim h [ inl same ↦ absurd (cc) | inr later ↦ IsIn-retain test ids id later t ])
]

-- No file of that id has a `partial_max`.
abbrev pub IsWhole : List DataFileRow → ℕ → Type 0
IsWhole files id = (f : DataFileRow) → IsIn f files → f.data_file_id ≡ id → f.partial_max ≡ none

partial_max_of-none :
    (files : List DataFileRow) (id : ℕ) → IsWhole files id → partial_max_of files id ≡ none
unfolding partial_max_of
partial_max_of-none [] id whole = refl
partial_max_of-none (f ∷ files) id whole =
    rw (partial_max_of, partial_max_of-none files id (λ g i e. whole g (inr i) e))
      (elim (Bool-cases (f.data_file_id == id)) [
        | inl same ↦ rw same (whole f (inl refl) ((==_iff f.data_file_id id).0 same))
        | inr other ↦ rw other refl
      ])

IsIn-add_kept :
    (r : PruneResult) (i id : ℕ) (ids : List ℕ) → IsIn id ids → IsIn id (add_kept r i ids)
IsIn-add_kept keep i id ids h = inr h
IsIn-add_kept prune i id ids h = h

module _ (codecs : Codecs) {F : Type 0} (floats : Floats F) (laws : FloatLaws floats) where
  -- The file of the statistics has a value that the predicate equals, inside its bounds.
  pub record Matches (p : Text) (t : DuckLakeType) (row : FileColumnStatsRow) : Type 0 where
    pub stored : Text
    pub equal : type_aware_compare floats p stored t ≡ ok eq
    pub above : Within floats lt stored (text_of row.min_value) t
    pub below : Within floats gt stored (text_of row.max_value) t

  kept_here :
      (p : Text) (t : DuckLakeType) (row : FileColumnStatsRow) (result : PruneResult)
      → ◌≡◌ {A = CatalogResult PruneResult}
          (map_err type_compare (
            prune_file floats p (text_of row.min_value) (text_of row.max_value) row.contains_nan t))
          (ok result)
      → Matches p t row
      → result ≡ keep
  kept_here p t row result h match = ok_injective (
      sym h
      ∙ ap (map_err type_compare) (
          prune_file-keep floats laws t p match.stored (text_of row.min_value)
            (text_of row.max_value) row.contains_nan match.equal match.above match.below))

  kept_loop_complete :
      (p : Text) (t : DuckLakeType) (l : List Pair) (ids : List ℕ)
      → kept_loop codecs floats p t l ≡ ok ids
      → (row : FileColumnStatsRow) (key v : Bytes) → lookup key l ≡ some v
      → decode_value codecs.file_column_stats v ≡ ok row
      → Matches p t row
      → IsIn row.data_file_id ids
  unfolding kept_loop
  kept_loop_complete p t [] ids h row key v found d match = unfold lookup in cc
  kept_loop_complete p t ((j, w) ∷ l) ids h row key v found d match =
      let (first, e, h1) =
        >>=-eq-ok (map_err value (decode_value codecs.file_column_stats w)) _ h in
      let (result, e1, h2) =
        >>=-eq-ok
          (map_err type_compare (
            prune_file floats p (text_of first.min_value) (text_of first.max_value)
              first.contains_nan t))
          _ h1 in
      let (later, e2, h3) = >>=-eq-ok (kept_loop codecs floats p t l) _ h2 in
      rw (← ok_injective h3) (elim (lookup_cases j w key v l found) [
        | inl (same_key, same) ↦
            let same_row : first ≡ row = cc (map_err-eq-ok _ e, same, d) in
            rw (kept_here p t first result e1 (rw same_row match), same_row) (inl refl)
        | inr behind ↦
            IsIn-add_kept result first.data_file_id row.data_file_id later
              (kept_loop_complete p t l later e2 row key v behind d match)
      ])

  passes : (p : Text) (t : DuckLakeType) → survives codecs floats p t none ≡ true
  unfolding survives
  passes p t = refl

  module _ (kv : Kv) where
    open kv use {Db, scan_prefix}

    -- With floats of which equal ones compare alike and NaN is ordered with none, a `prune_files`
    -- that succeeds keeps the data file of every stored statistics row of the column for which
    -- some value compares as equal to the predicate and is within the recorded bounds, where the
    -- files of the table can be listed and none of that id has a `partial_max`.
    pub prune_files_keeps :
        (db : Db) (snap table_id column_id : ℕ) (p : Text) (t : DuckLakeType) (ids : List ℕ)
        (files : List DataFileRow) (row : FileColumnStatsRow)
        → prune_files codecs floats kv db snap table_id column_id p t ≡ ok ids
        → list_data_files codecs kv db snap table_id ≡ ok files
        → Under kv codecs.file_column_stats db (prefix_column_stats table_id column_id) row
        → Matches p t row
        → IsWhole files row.data_file_id
        → IsIn row.data_file_id ids
    unfolding prune_files without_partial
    prune_files_keeps db snap table_id column_id p t ids files row h listed u match whole =
        let prefix = prefix_column_stats table_id column_id in
        let (kept, e, h1) = >>=-eq-ok (kept_loop codecs floats p t (scan_prefix db prefix)) _ h in
        let inside =
          kept_loop_complete p t _ kept e row u.key u.value
            (scan_finds kv db prefix u.key u.value u.selected u.holds) u.decodes match in
        survivor kept h1 inside
      where
        survivor :
            (kept : List ℕ)
            → without_partial codecs floats kv db snap table_id p t kept ≡ ok ids
            → IsIn row.data_file_id kept
            → IsIn row.data_file_id ids
        survivor [] h1 inside = absurd inside
        survivor (id ∷ kept) h1 inside =
            let found = rw (without_partial, listed) at h1 in
            rw (← ok_injective found) (
              IsIn-retain (λ i. survives codecs floats p t (partial_max_of files i)) (id ∷ kept)
                row.data_file_id inside
                (rw (partial_max_of-none files row.data_file_id whole) (passes p t)))
